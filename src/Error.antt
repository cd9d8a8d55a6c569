-- ===== src/Error.antt =====
-- The messages that cross the JNI boundary (native/src/error.rs and the `Err` strings of the other
-- files), as data: one constructor for each `format!` or literal, with the values it prints, and
-- the result type of the fallible functions.
use kotlogram.Base.{ℕ, String, ◌≡◌, refl, ◌⊎◌, inl, inr, Option, none, some, List, [], ◌∷◌}
use kotlogram.Base.Int.{ℤ}

pub data Error : Type 0 where
  -- a message of a library that the bridge only passes on
  external : ℕ → Error
  -- "… is poisoned"
  poisoned : Error
  -- native/src/client.rs
  unknown_upload_progress unknown_upload_stream unknown_upload_handle : ℕ → Error
  received_more_than_declared : ℕ → ℕ → Error
  no_longer_accepting : ℕ → Error
  declared_but_received : ℕ → ℕ → ℕ → Error
  unknown_client_handle unknown_peer_handle : ℕ → Error
  peer_not_usable peer_or_username_required : Error
  username_not_found : List ℕ → Error
  -- native/src/update_pump/mod.rs
  no_pump sync_busy : Error
  -- native/src/ops/auth.rs
  login_code_required password_not_requested invalid_login_code : Error
  -- native/src/dto/files.rs
  not_whole_groups : ℕ → Error
  padding_not_trailing data_after_padding : Error
  invalid_character : ℕ → Error
  -- native/src/ops/files.rs
  negative_skip_chunks : Error
  not_an_upload : Error
  message_was_not_found message_without_media : ℤ → Error
  bad_chunk_size : ℤ → Error
  -- native/src/payload.rs
  one_source_required : Error
  entity_requires : String → String → Error
  unknown_entity_type unsupported_parse_mode : String → Error
  -- native/src/ops/markup.rs
  no_rows empty_label empty_callback_data : Error
  empty_row callback_data_too_long : ℕ → Error
  message_not_found : ℤ → Error
  -- native/src/ops/account.rs
  unsupported_privacy_key unsupported_privacy_rule unsupported_sound : String → Error
  rule_needs_access_hashes : String → Error
  local_sound_needs_title local_sound_needs_data ringtone_needs_id : Error
  mute_out_of_range : ℤ → Error
  forum_topic_needs_id community_needs_channel : Error
  -- native/src/dto/chatlists.rs
  no_slug : List ℕ → Error
  -- native/src/ops/mod.rs
  unsupported_operation : String → Error
  -- native/src/ops/chats.rs
  not_a_peer_id : ℤ → Error
  peer_id_invalid chat_invalid invite_hash_invalid : Error
  unsupported_participant_filter : String → Error
  -- native/src/ops/messages.rs
  unknown_message_filter : String → Error
  date_out_of_range : ℤ → Error

pub data Result {ℓ} (A : Type ℓ) : Type ℓ where
  ok : A → Result A
  err : Error → Result A

infixl 5 ◌>>=◌ ◌>>◌
abbrev pub ◌>>=◌ {ℓ κ} : {A : Type ℓ} {B : Type κ} → Result A → (A → Result B) → Result B
ok a >>= f = f a
err e >>= f = err e

abbrev pub ◌>>◌ {ℓ κ} : {A : Type ℓ} {B : Type κ} → Result A → Result B → Result B
m >> k = m >>= λ _. k

-- option.ok_or_else(|| e)
abbrev pub ok_or {ℓ} : {A : Type ℓ} → Option A → Error → Result A
ok_or none e = err e
ok_or (some a) e = ok a

-- result.map(f)
abbrev pub map_ok {ℓ κ} : {A : Type ℓ} {B : Type κ} → (A → B) → Result A → Result B
map_ok f (ok a) = ok (f a)
map_ok f (err e) = err e

pub Result-cases {ℓ} :
    {A : Type ℓ} (r : Result A) → ((a : A) × (r ≡ ok a)) ⊎ ((e : Error) × (r ≡ err e))
Result-cases (ok a) = inl (a, refl)
Result-cases (err e) = inr (e, refl)

-- A computation that can reach `unreachable!`: `none` is the panic.
abbrev pub Panicking {ℓ} : Type ℓ → Type ℓ
Panicking A = Option A

-- option.map(f).transpose()
abbrev pub transposed {ℓ κ} :
    {A : Type ℓ} {B : Type κ} → (A → Result B) → Option A → Result (Option B)
transposed f none = ok none
transposed f (some a) = map_ok some (f a)

-- xs.iter().map(f).collect::<Result<Vec<_>, _>>()
abbrev pub try_map {ℓ κ} : {A : Type ℓ} {B : Type κ} → (A → Result B) → List A → Result (List B)
try_map f [] = ok []
try_map f (a ∷ rest) = do b ← f a; bs ← try_map f rest; ok (b ∷ bs)

-- Two functions that agree on each element agree on the list.
pub try_map_cong {ℓ κ} :
    {A : Type ℓ} {B : Type κ} (f g : (A → Result B))
    → ((a : A) → f a ≡ g a)
    → (all : List A) → try_map f all ≡ try_map g all
try_map_cong f g same [] = refl
try_map_cong f g same (a ∷ rest) = rw (same a, try_map_cong f g same rest)
