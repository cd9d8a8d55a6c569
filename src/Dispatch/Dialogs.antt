-- ===== src/Dispatch/Dialogs.antt =====
-- The operation names of native/src/ops/dialogs.rs and its `route`.
use kotlogram.Base.{String, Option, List, [], ◌∷◌}
use kotlogram.Dispatch.Handlers.{
  Handler, get_dialogs, get_dialogs_meta, get_dialogs_total, mark_as_read, clear_mentions,
}
use kotlogram.Dispatch.Table.{Table, match_arms}

abbrev pub operations : List String
operations =
    "getDialogs" ∷ "getDialogsMeta" ∷ "getDialogsTotal" ∷ "markAsRead" ∷ "clearMentions" ∷ []

abbrev pub arms : Table Handler
arms =
    ("getDialogs", get_dialogs)
    ∷ ("getDialogsMeta", get_dialogs_meta)
    ∷ ("getDialogsTotal", get_dialogs_total)
    ∷ ("markAsRead", mark_as_read)
    ∷ ("clearMentions", clear_mentions)
    ∷ []

unfoldable pub route : String → Option Handler
route operation = match_arms operation arms
