-- ===== src/Dispatch/Users.antt =====
-- The operation names of native/src/ops/users.rs and its `route`.
use kotlogram.Base.{String, Option, List, [], ◌∷◌}
use kotlogram.Dispatch.Handlers.{Handler, get_users}
use kotlogram.Dispatch.Table.{Table, match_arms}

abbrev pub operations : List String
operations = "getUsers" ∷ []

abbrev pub arms : Table Handler
arms = ("getUsers", get_users) ∷ []

unfoldable pub route : String → Option Handler
route operation = match_arms operation arms
