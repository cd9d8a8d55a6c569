-- ===== src/Chatlists/Slugs.antt =====
-- The slug that an invite is addressed by is the one its URL was made with.
use kotlogram.Base.{ℕ, ◌≡◌, refl, true, false, List, [], ◌∷◌, ◌++◌, none, some, All}
use kotlogram.Error.{ok}
use kotlogram.Base64.{codes}
use kotlogram.Chatlists.Slug.{
  after_prefix, split_once, is_separator, until_separator, checked_slug, tail_of, slug_in, slug_of,
}

-- No byte of the slug ends it.
abbrev pub SlugBytes : List ℕ → Type 0
SlugBytes = All (λ c. is_separator c ≡ false)

-- The URL ends after the slug, or goes on with a query, a fragment or a path.
abbrev pub EndsSlug : List ℕ → Type 0
EndsSlug [] = Unit
EndsSlug (c ∷ rest) = is_separator c ≡ true

until_separator-append :
    (slug rest : List ℕ) → SlugBytes slug → EndsSlug rest → until_separator (slug ++ rest) ≡ slug
unfolding until_separator
until_separator-append [] [] bytes ends = refl
until_separator-append [] (c ∷ rest) bytes ends = rw ends
until_separator-append (c ∷ slug) rest (this, bytes) ends =
    rw (this, until_separator-append slug rest bytes ends)

tail_of-plus : (tail : List ℕ) → tail_of (codes "https://t.me/+" ++ tail) ≡ some tail
unfolding tail_of split_once after_prefix
tail_of-plus tail = refl

tail_of-joinchat :
    (tail : List ℕ)
    → split_once (codes "/+") (codes "/" ++ tail) ≡ none
    → tail_of (codes "https://t.me/joinchat/" ++ tail) ≡ some tail
unfolding tail_of
tail_of-joinchat tail plain = rw (no_plus, plain) joined
  where
    no_plus :
        split_once (codes "/+") (codes "https://t.me/joinchat/" ++ tail)
        ≡ split_once (codes "/+") (codes "/" ++ tail)
    no_plus = unfold split_once after_prefix in refl

    joined : split_once (codes "joinchat/") (codes "https://t.me/joinchat/" ++ tail) ≡ some tail
    joined = unfold split_once after_prefix in refl

-- The two shapes of a join URL.
pub data UrlShape : Type 0 where
  newer older : UrlShape

abbrev pub base : UrlShape → List ℕ
base newer = codes "https://t.me/+"
base older = codes "https://t.me/joinchat/"

-- What a URL of the older shape must not hold after its host: a slash that a plus sign follows.
abbrev pub IsPlain : UrlShape → List ℕ → Type 0
IsPlain newer tail = Unit
IsPlain older tail = split_once (codes "/+") (codes "/" ++ tail) ≡ none

-- The slug of a URL of either shape, with whatever query, fragment or path behind it, is the slug that
-- the URL was made with, if it has a byte and none of them ends it. In a URL of the older shape,
-- no slash may be followed by a plus sign.
pub slug_of-join_url :
    (shape : UrlShape) (c : ℕ) (slug rest : List ℕ)
    → SlugBytes (c ∷ slug)
    → EndsSlug rest
    → IsPlain shape ((c ∷ slug) ++ rest)
    → slug_of (base shape ++ ((c ∷ slug) ++ rest)) ≡ ok (c ∷ slug)
unfolding slug_of slug_in checked_slug
slug_of-join_url newer c slug rest bytes ends plain =
    rw (tail_of-plus ((c ∷ slug) ++ rest), until_separator-append (c ∷ slug) rest bytes ends)
slug_of-join_url older c slug rest bytes ends plain =
    rw (
      tail_of-joinchat ((c ∷ slug) ++ rest) plain,
      until_separator-append (c ∷ slug) rest bytes ends,
    )
