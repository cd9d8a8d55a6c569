-- ===== src/Dispatch/Media.antt =====
-- The operation names of native/src/ops/media.rs and its `route`.
use kotlogram.Base.{String, Option, List, [], ◌∷◌}
use kotlogram.Dispatch.Handlers.{Handler, send_media, send_media_url, copy_media}
use kotlogram.Dispatch.Table.{Table, match_arms}

abbrev pub operations : List String
operations = "sendMedia" ∷ "sendMediaUrl" ∷ "copyMedia" ∷ []

abbrev pub arms : Table Handler
arms = ("sendMedia", send_media) ∷ ("sendMediaUrl", send_media_url) ∷ ("copyMedia", copy_media) ∷ []

unfoldable pub route : String → Option Handler
route operation = match_arms operation arms
