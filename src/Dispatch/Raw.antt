-- ===== src/Dispatch/Raw.antt =====
-- The operation names of native/src/ops/raw.rs and its `route`.
use kotlogram.Base.{String, Option, none, List, []}
use kotlogram.Dispatch.Handlers.{Handler}
use kotlogram.Dispatch.Table.{Table}

abbrev pub operations : List String
operations = []

abbrev pub arms : Table Handler
arms = []

unfoldable pub route : String → Option Handler
route operation = none
