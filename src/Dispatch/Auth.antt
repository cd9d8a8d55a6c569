-- ===== src/Dispatch/Auth.antt =====
-- The operation names of native/src/ops/auth.rs and its `route`.
use kotlogram.Base.{String, Option, List, [], ◌∷◌}
use kotlogram.Dispatch.Handlers.{
  Handler, request_login_code, sign_in, check_password, sign_out, get_me, get_self_peer,
  get_data_centre_id, resolve_username,
}
use kotlogram.Dispatch.Table.{Table, match_arms}

abbrev pub operations : List String
operations =
    "requestLoginCode" ∷ "signIn" ∷ "checkPassword" ∷ "signOut" ∷ "getMe" ∷ "getSelfPeer"
    ∷ "getDataCentreId" ∷ "resolveUsername" ∷ []

abbrev pub arms : Table Handler
arms =
    ("requestLoginCode", request_login_code)
    ∷ ("signIn", sign_in)
    ∷ ("checkPassword", check_password)
    ∷ ("signOut", sign_out)
    ∷ ("getMe", get_me)
    ∷ ("getSelfPeer", get_self_peer)
    ∷ ("getDataCentreId", get_data_centre_id)
    ∷ ("resolveUsername", resolve_username)
    ∷ []

unfoldable pub route : String → Option Handler
route operation = match_arms operation arms
