-- ===== src/Markup/Contract.antt =====
-- What a specification promises, without a builder: its first fault in reading order, and the document
-- that it stands for.
use kotlogram.Base.{
  ℕ, suc, String, Bool, true, false, List, [], ◌∷◌, map, Option, none, some, if◌then◌else◌, ltb,
  length, ◌≡◌, All,
}
use kotlogram.Error.{
  Error, Result, ok, err, no_rows, empty_row, empty_label, empty_callback_data,
  callback_data_too_long,
}
use kotlogram.Markup.Text.{Text, is_utf8}
use kotlogram.Markup.Specs.{InlineButtonSpec, KeyboardButtonSpec, MarkupSpec}
use kotlogram.Markup.Documents.{ButtonDto, ReplyMarkupDto}

-- The answer, unless there is a fault.
abbrev pub refused_or {ℓ} : {A : Type ℓ} → Option Error → A → Result A
refused_or none a = ok a
refused_or (some e) a = err e

abbrev pub or_else : Option Error → Option Error → Option Error
or_else none other = other
or_else (some e) other = some e

abbrev label_fault : Text → Option Error
label_fault [] = some empty_label
label_fault (c ∷ text) = none

abbrev data_fault : Text → Option Error
data_fault [] = some empty_callback_data
data_fault (c ∷ payload) =
    if ltb 64 (length (c ∷ payload))
    then some (callback_data_too_long (length (c ∷ payload)))
    else none

abbrev pub inline_fault : InlineButtonSpec → Option Error
inline_fault (InlineButtonSpec.url text u) = label_fault text
inline_fault (InlineButtonSpec.web_view text u) = label_fault text
inline_fault (InlineButtonSpec.callback text payload) =
    or_else (label_fault text) (data_fault payload)
inline_fault (InlineButtonSpec.switch_inline text q same) = label_fault text

abbrev pub key_fault : KeyboardButtonSpec → Option Error
key_fault (KeyboardButtonSpec.text text) = label_fault text
key_fault (KeyboardButtonSpec.request_phone text) = label_fault text
key_fault (KeyboardButtonSpec.request_geo text) = label_fault text
key_fault (KeyboardButtonSpec.request_poll text asked) = label_fault text

module _ {ℓ} {T : Type ℓ} (fault : (T → Option Error)) where
  abbrev pub buttons_fault : List T → Option Error
  buttons_fault [] = none
  buttons_fault (spec ∷ specs) = or_else (fault spec) (buttons_fault specs)

  abbrev pub row_fault : ℕ → List T → Option Error
  row_fault index [] = some (empty_row index)
  row_fault index (spec ∷ specs) = buttons_fault (spec ∷ specs)

  abbrev pub faults_from : ℕ → List (List T) → Option Error
  faults_from index [] = none
  faults_from index (row ∷ rows) = or_else (row_fault index row) (faults_from (suc index) rows)

  abbrev pub rows_fault : List (List T) → Option Error
  rows_fault [] = some no_rows
  rows_fault (row ∷ rows) = faults_from 0 (row ∷ rows)

abbrev pub spec_fault : MarkupSpec → Option Error
spec_fault (MarkupSpec.inline rows) = rows_fault inline_fault rows
spec_fault (MarkupSpec.keyboard rows fit single selective) = rows_fault key_fault rows
spec_fault (MarkupSpec.force_reply single selective) = none
spec_fault (MarkupSpec.hide selective) = none

-- A button's document, by its fields.
abbrev document :
    String
    → Text
    → (url payload : Option Text) → (password : Option Bool) → (query : Option Text)
    → (same_peer quiz : Option Bool) → ButtonDto
document k t u d password q same asked = record {
  kind = k;
  text = t;
  url = u;
  payload = d;
  requires_password = password;
  fwd_text = none;
  button_id = none;
  query = q;
  same_peer = same;
  peer_types = none;
  quiz = asked;
  user_id = none;
  copy_text = none;
  max_quantity = none;
  request_write_access = none;
}

abbrev pub inline_document : InlineButtonSpec → ButtonDto
inline_document (InlineButtonSpec.url t u) = document "url" t (some u) none none none none none
inline_document (InlineButtonSpec.web_view t u) =
    document "webView" t (some u) none none none none none
inline_document (InlineButtonSpec.callback t d) =
    document "callback" t none (some d) (some false) none none none
inline_document (InlineButtonSpec.switch_inline t q none) =
    document "switchInline" t none none none (some q) (some true) none
inline_document (InlineButtonSpec.switch_inline t q (some same)) =
    document "switchInline" t none none none (some q) (some same) none

abbrev pub key_document : KeyboardButtonSpec → ButtonDto
key_document (KeyboardButtonSpec.text t) = document "text" t none none none none none none
key_document (KeyboardButtonSpec.request_phone t) =
    document "requestPhone" t none none none none none none
key_document (KeyboardButtonSpec.request_geo t) =
    document "requestGeo" t none none none none none none
key_document (KeyboardButtonSpec.request_poll t true) =
    document "requestPoll" t none none none none none (some true)
key_document (KeyboardButtonSpec.request_poll t false) =
    document "requestPoll" t none none none none none none

abbrev markup_document :
    String → List (List ButtonDto) → (fit single selective : Bool) → ReplyMarkupDto
markup_document k buttons fit single only_some = record {
  kind = k;
  rows = buttons;
  fit_size = fit;
  single_use = single;
  selective = only_some;
  persistent = false;
  placeholder = none;
}

abbrev pub spec_document : MarkupSpec → ReplyMarkupDto
spec_document (MarkupSpec.inline rows) =
    markup_document "inline" (map (map inline_document) rows) false false false
spec_document (MarkupSpec.keyboard rows fit single selective) =
    markup_document "keyboard" (map (map key_document) rows) fit single selective
spec_document (MarkupSpec.force_reply single selective) =
    markup_document "forceReply" [] false single selective
spec_document (MarkupSpec.hide selective) = markup_document "hide" [] false false selective

-- The callback data of a button is a text, as every Rust `String` is.
abbrev pub HoldsText : InlineButtonSpec → Type 0
HoldsText (InlineButtonSpec.callback text payload) = is_utf8 payload ≡ true
HoldsText (InlineButtonSpec.url text u) = Unit
HoldsText (InlineButtonSpec.web_view text u) = Unit
HoldsText (InlineButtonSpec.switch_inline text q same) = Unit

abbrev pub SpecHoldsText : MarkupSpec → Type 0
SpecHoldsText (MarkupSpec.inline rows) = All (All HoldsText) rows
SpecHoldsText (MarkupSpec.keyboard rows fit single selective) = Unit
SpecHoldsText (MarkupSpec.force_reply single selective) = Unit
SpecHoldsText (MarkupSpec.hide selective) = Unit
