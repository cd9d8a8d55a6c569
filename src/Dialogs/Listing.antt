-- ===== src/Dialogs/Listing.antt =====
-- `skip_past_cursor` and `get_dialogs` of native/src/ops/dialogs.rs. grammers' iterator is the list of what its
-- `next` answers, dialogs or an error.
use kotlogram.Base.{
  ℕ, zero, suc, Bool, false, ◌&&◌, List, [], ◌∷◌, Option, none, some, if◌then◌else◌,
}
use kotlogram.Base.Int.{ℤ, eq_ℤ}
use kotlogram.Error.{Result, ok, err}
use kotlogram.Exec.{Exec, pure, fail, lift, ◌>>=◌}
use kotlogram.Client.{Telegram, KnownPeers}
use kotlogram.Client.Documents.{Described}
use kotlogram.Dialogs.{DialogsPayload, DialogsCursor, DialogsPlan, every, page, dialogs_plan}
use kotlogram.Dialogs.Documents.{Messages, Dialog, DialogDto, dialog_dto}

abbrev pub is_peer : Option ℤ → ℤ → Bool
is_peer none peer = false
is_peer (some id) peer = eq_ℤ id peer

module _ (t : Telegram) (d : Described t) (ms : Messages t) where
  -- last_message == Some((self.id, self.date))
  abbrev pub is_message : Option ms.Message → DialogsCursor → Bool
  is_message none cursor = false
  is_message (some message) cursor =
      eq_ℤ (ms.id message) cursor.id && eq_ℤ (ms.date message) cursor.date

  unfoldable pub matches : DialogsCursor → Dialog t d ms → Bool
  matches cursor dialog =
      is_peer (d.bot_api_dialog_id dialog.peer) cursor.peer && is_message dialog.last_message cursor

  abbrev pub Iterator : Type 0
  Iterator = List (Result (Dialog t d ms))

  -- The iterator after the loop.
  unfoldable pub skip_past_cursor : Iterator → DialogsCursor → Result Iterator
  skip_past_cursor [] cursor = ok []
  skip_past_cursor (err e ∷ iterator) cursor = err e
  skip_past_cursor (ok dialog ∷ iterator) cursor =
      let rest = skip_past_cursor iterator cursor in
      if matches cursor dialog then ok iterator else rest

  -- The loop that fills a page; `room` is what the page has left.
  unfoldable pub collect_page : ℕ → Iterator → Exec (KnownPeers t) (List (DialogDto t d ms))
  collect_page zero iterator = pure []
  collect_page (suc room) [] = pure []
  collect_page (suc room) (err e ∷ iterator) = fail e
  collect_page (suc room) (ok dialog ∷ iterator) = do
    dto ← dialog_dto t d ms dialog
    rest ← collect_page room iterator
    pure (dto ∷ rest)

  -- The loop that walks the iterator to its end.
  unfoldable pub collect_all : Iterator → Exec (KnownPeers t) (List (DialogDto t d ms))
  collect_all [] = pure []
  collect_all (err e ∷ iterator) = fail e
  collect_all (ok dialog ∷ iterator) = do
    dto ← dialog_dto t d ms dialog
    rest ← collect_all iterator
    pure (dto ∷ rest)

  unfoldable pub serve_plan : Iterator → DialogsPlan → Exec (KnownPeers t) (List (DialogDto t d ms))
  serve_plan iterator every = collect_all iterator
  serve_plan iterator (page limit none) = collect_page limit iterator
  serve_plan iterator (page limit (some cursor)) = do
    rest ← lift (skip_past_cursor iterator cursor)
    collect_page limit rest

  unfoldable pub get_dialogs :
      Iterator → DialogsPayload → Exec (KnownPeers t) (List (DialogDto t d ms))
  get_dialogs iterator payload = serve_plan iterator (dialogs_plan payload)
