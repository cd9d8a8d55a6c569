-- ===== src/Chatlists/Slug.antt =====
-- `slug_of` of native/src/dto/chatlists.rs: the slug of an invite, read from its join URL. A text is its
-- bytes.
use kotlogram.Base.{ℕ, ◌==◌, Bool, ◌||◌, List, [], ◌∷◌, Option, none, some, if◌then◌else◌}
use kotlogram.Error.{Result, ok, err, no_slug}
use kotlogram.Base64.{codes}

-- What follows a prefix, if the text has it.
unfoldable pub after_prefix : List ℕ → List ℕ → Option (List ℕ)
after_prefix [] text = some text
after_prefix (c ∷ prefix) [] = none
after_prefix (c ∷ prefix) (x ∷ text) =
    let rest = after_prefix prefix text in if x == c then rest else none

-- option.or_else(|| other)
abbrev pub or_else {ℓ} : {A : Type ℓ} → Option A → Option A → Option A
or_else none other = other
or_else (some a) other = some a

-- text.split_once(pattern).map(|(_, tail)| tail): what follows the first occurrence.
unfoldable pub split_once : List ℕ → List ℕ → Option (List ℕ)
split_once pattern [] = after_prefix pattern []
split_once pattern (x ∷ text) =
    let later = split_once pattern text in or_else (after_prefix pattern (x ∷ text)) later

abbrev pub is_separator : ℕ → Bool
is_separator c = (c == b'?') || ((c == b'#') || (c == b'/'))

-- tail.split(['?', '#', '/']).next().unwrap_or("")
unfoldable pub until_separator : List ℕ → List ℕ
until_separator [] = []
until_separator (c ∷ tail) =
    let rest = until_separator tail in if is_separator c then [] else c ∷ rest

unfoldable pub checked_slug : List ℕ → List ℕ → Result (List ℕ)
checked_slug url [] = err (no_slug url)
checked_slug url (c ∷ slug) = ok (c ∷ slug)

unfoldable pub tail_of : List ℕ → Option (List ℕ)
tail_of url = or_else (split_once (codes "/+") url) (split_once (codes "joinchat/") url)

-- The checks on what follows the shape of the URL.
unfoldable pub slug_in : List ℕ → Option (List ℕ) → Result (List ℕ)
slug_in url none = err (no_slug url)
slug_in url (some tail) = checked_slug url (until_separator tail)

unfoldable pub slug_of : List ℕ → Result (List ℕ)
slug_of url = slug_in url (tail_of url)
