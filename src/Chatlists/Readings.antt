-- ===== src/Chatlists/Readings.antt =====
-- Which slug a URL is read for, and when it is refused.
use kotlogram.Base.{
  ℕ, ◌≡◌, ◌≢◌, ◌⊎◌, refl, subst, ap, ◌==◌, true, Bool-cases, List, [], ◌∷◌, ◌++◌, Option-cases,
  none, some, inl, inr, length, ◌<◌, arith,
}
use kotlogram.Error.{Result, ok, err, no_slug}
use kotlogram.Base64.{codes}
use kotlogram.Chatlists.Slug.{
  after_prefix, split_once, is_separator, until_separator, checked_slug, tail_of, slug_in, slug_of,
}
use kotlogram.Chatlists.Slugs.{SlugBytes, EndsSlug, UrlShape, newer, older}

-- What the slug follows in a URL of the shape.
abbrev pub marker : UrlShape → List ℕ
marker newer = codes "/+"
marker older = codes "joinchat/"

-- The pattern stands in the text, with the tail behind it.
abbrev pub Stands : List ℕ → List ℕ → List ℕ → Type 0
Stands pattern text tail = (front : List ℕ) × (text ≡ front ++ (pattern ++ tail))

after_prefix-some :
    (pattern text tail : List ℕ) → after_prefix pattern text ≡ some tail → text ≡ pattern ++ tail
unfolding after_prefix
after_prefix-some [] text tail found = ground arith
after_prefix-some (c ∷ pattern) [] tail found = absurd (ground arith)
after_prefix-some (c ∷ pattern) (x ∷ text) tail found = elim (Bool-cases (x == c)) [
  | inl same ↦
      let here : x ≡ c = ground arith in
      rw here (ap (◌∷◌ c) (after_prefix-some pattern text tail (ground arith)))
  | inr other ↦ absurd (ground arith)
]

split_once-Stands :
    (pattern text tail : List ℕ) → split_once pattern text ≡ some tail → Stands pattern text tail
unfolding split_once
split_once-Stands pattern [] tail found = ([], after_prefix-some pattern [] tail found)
split_once-Stands pattern (x ∷ text) tail found =
    elim (Option-cases (after_prefix pattern (x ∷ text))) [
      | inl missing ↦
          let (front, split) = split_once-Stands pattern text tail (ground arith) in
          (x ∷ front, ap (◌∷◌ x) split)
      | inr (here, first) ↦
          let same : here ≡ tail = ground arith in
          ([], after_prefix-some pattern (x ∷ text) tail (rw first (ap some same)))
    ]

after_prefix-append : (pattern tail : List ℕ) → after_prefix pattern (pattern ++ tail) ≡ some tail
unfolding after_prefix
after_prefix-append [] tail = refl
after_prefix-append (c ∷ pattern) tail =
    let same : (c == c) ≡ true = ground arith in rw same (after_prefix-append pattern tail)

-- Where nothing is found, the pattern stands nowhere.
split_once-none :
    (pattern front tail : List ℕ) → split_once pattern (front ++ (pattern ++ tail)) ≢ none
unfolding split_once
split_once-none pattern [] tail missing =
    nowhere pattern (pattern ++ tail) (after_prefix-append pattern tail) missing
  where
    nowhere :
        (pattern text : List ℕ) {tail : List ℕ}
        → after_prefix pattern text ≡ some tail
        → split_once pattern text ≢ none
    nowhere pattern [] here missing = absurd (ground arith)
    nowhere pattern (x ∷ text) here missing = absurd (ground arith)
split_once-none pattern (x ∷ front) tail missing = split_once-none pattern front tail (ground arith)

until_separator-SlugBytes : (tail : List ℕ) → SlugBytes (until_separator tail)
unfolding until_separator
until_separator-SlugBytes [] = tt
until_separator-SlugBytes (c ∷ tail) = elim (Bool-cases (is_separator c)) [
  | inl ends ↦ rw ends tt
  | inr goes_on ↦ rw goes_on (goes_on, until_separator-SlugBytes tail)
]

-- The slug, and what ends it.
until_separator-rest :
    (tail : List ℕ) → (rest : List ℕ) × (tail ≡ until_separator tail ++ rest) × EndsSlug rest
unfolding until_separator
until_separator-rest [] = ([], refl, tt)
until_separator-rest (c ∷ tail) = elim (Bool-cases (is_separator c)) [
  | inl ends ↦ (c ∷ tail, rw ends refl, ends)
  | inr goes_on ↦
      let (rest, split, ends) = until_separator-rest tail in
      (rest, rw goes_on (ap (◌∷◌ c) split), ends)
]

-- A slug that is read has a byte or more, none of which would end it, and stands behind a marker in the
-- URL, up to the end or to what ends it.
abbrev pub Answered : List ℕ → List ℕ → Type 0
Answered url slug =
    (0 < length slug)
    × SlugBytes slug
    × (shape : UrlShape) × (rest : List ℕ) × EndsSlug rest
    × Stands (marker shape) url (slug ++ rest)

-- A URL that is refused has no marker, or one with no slug behind it.
abbrev pub Refused : List ℕ → Type 0
Refused url =
    ((shape : UrlShape) (tail : List ℕ) → ¬ Stands (marker shape) url tail)
    ⊎ ((shape : UrlShape) × (tail : List ℕ) × EndsSlug tail × Stands (marker shape) url tail)

abbrev pub Reading : List ℕ → Result (List ℕ) → Type 0
Reading url (ok slug) = Answered url slug
Reading url (err e) = (e ≡ no_slug url) × Refused url

checked_slug-Reading :
    (url slug rest : List ℕ) (shape : UrlShape)
    → SlugBytes slug
    → EndsSlug rest
    → Stands (marker shape) url (slug ++ rest)
    → Reading url (checked_slug url slug)
unfolding checked_slug
checked_slug-Reading url [] rest shape bytes ends stands = (refl, inr (shape, rest, ends, stands))
checked_slug-Reading url (c ∷ slug) rest shape bytes ends stands =
    (omega arith, bytes, shape, rest, ends, stands)

slug_in-Reading :
    (url tail : List ℕ) (shape : UrlShape)
    → Stands (marker shape) url tail
    → Reading url (slug_in url (some tail))
unfolding slug_in
slug_in-Reading url tail shape stands =
    let (rest, split, ends) = until_separator-rest tail in
    checked_slug-Reading url (until_separator tail) rest shape (until_separator-SlugBytes tail) ends
      (subst (Stands (marker shape) url) split stands)

no_marker :
    (url : List ℕ)
    → split_once (codes "/+") url ≡ none
    → split_once (codes "joinchat/") url ≡ none
    → (shape : UrlShape) (tail : List ℕ) → ¬ Stands (marker shape) url tail
no_marker url plus joinchat newer tail (front, split) =
    split_once-none (codes "/+") front tail
      (subst (λ u. split_once (codes "/+") u ≡ none) split plus)
no_marker url plus joinchat older tail (front, split) =
    split_once-none (codes "joinchat/") front tail
      (subst (λ u. split_once (codes "joinchat/") u ≡ none) split joinchat)

-- A URL is read for a slug or refused. The slug has a byte or more, none of which is a separator, and it
-- stands in the URL behind a slash and a plus sign or behind the older marker, up to a separator or to the
-- end. A URL is refused only if it holds neither marker, or holds one with no byte of a slug behind
-- it, and the error names the URL.
pub slug_of-Reading : (url : List ℕ) → Reading url (slug_of url)
unfolding slug_of tail_of slug_in
slug_of-Reading url = elim (Option-cases (split_once (codes "/+") url)) [
  | inr (tail, plus) ↦
      rw plus (slug_in-Reading url tail newer (split_once-Stands (codes "/+") url tail plus))
  | inl no_plus ↦ elim (Option-cases (split_once (codes "joinchat/") url)) [
    | inr (tail, joinchat) ↦
        rw (no_plus, joinchat)
          (slug_in-Reading url tail older (split_once-Stands (codes "joinchat/") url tail joinchat))
    | inl no_joinchat ↦ rw (no_plus, no_joinchat) (refl, inl (no_marker url no_plus no_joinchat))
  ]
]
