-- ===== src/Dispatch/Folders.antt =====
-- The operation names of native/src/ops/folders.rs and its `route`.
use kotlogram.Base.{String, Option, List, [], ◌∷◌}
use kotlogram.Dispatch.Handlers.{
  Handler, get_dialog_filters, update_dialog_filter, update_dialog_filters_order,
}
use kotlogram.Dispatch.Table.{Table, match_arms}

abbrev pub operations : List String
operations =
    "messagesGetDialogFilters" ∷ "messagesUpdateDialogFilter" ∷ "messagesUpdateDialogFiltersOrder"
    ∷ []

abbrev pub arms : Table Handler
arms =
    ("messagesGetDialogFilters", get_dialog_filters)
    ∷ ("messagesUpdateDialogFilter", update_dialog_filter)
    ∷ ("messagesUpdateDialogFiltersOrder", update_dialog_filters_order)
    ∷ []

unfoldable pub route : String → Option Handler
route operation = match_arms operation arms
