-- ===== src/Dispatch/Table.antt =====
-- A `match` on a string, as the list of its arms.
use kotlogram.Base.{
  String, Bool, true, false, not, ◌&&◌, ◌||◌, ◌≡◌, refl, Option, none, some, List, [], ◌∷◌, ◌++◌,
  if◌then◌else◌, str_eq, eq_iff, Bool-cases, inl, inr, arith,
}

abbrev pub Table {ℓ} : Type ℓ → Type ℓ
Table A = List (String × A)

module _ {ℓ} {A : Type ℓ} where
  -- The first arm that the string equals.
  unfoldable pub match_arms : String → Table A → Option A
  match_arms s [] = none
  match_arms s ((name, a) ∷ arms) = if str_eq s name then some a else match_arms s arms

  abbrev pub names : Table A → List String
  names [] = []
  names ((name, a) ∷ arms) = name ∷ names arms

  abbrev pub is_some : Option A → Bool
  is_some none = false
  is_some (some a) = true

abbrev pub contains : List String → String → Bool
contains [] s = false
contains (x ∷ xs) s = str_eq s x || contains xs s

abbrev pub distinct : List String → Bool
distinct [] = true
distinct (x ∷ xs) = not (contains xs x) && distinct xs

module _ {ℓ} {A : Type ℓ} where
  pub is_some-match_arms :
      (s : String) (arms : Table A) → is_some (match_arms s arms) ≡ contains (names arms) s
  unfolding match_arms
  is_some-match_arms s [] = refl
  is_some-match_arms s ((name, a) ∷ arms) = elim (Bool-cases (str_eq s name)) [
    | inl same ↦ rw same
    | inr other ↦ rw other (is_some-match_arms s arms)
  ]

  pub match_arms-nil : (s : String) → match_arms {A = A} s [] ≡ none
  unfolding match_arms
  match_arms-nil s = refl

  pub match_arms-append_none :
      (s : String) (front back : Table A)
      → match_arms s front ≡ none
      → match_arms s (front ++ back) ≡ match_arms s back
  unfolding match_arms
  match_arms-append_none s [] back h = refl
  match_arms-append_none s ((name, a) ∷ front) back h = elim (Bool-cases (str_eq s name)) [
    | inl same ↦ cc (rw same at h)
    | inr other ↦ rw other (match_arms-append_none s front back (rw other at h))
  ]

  pub match_arms-append_some :
      (s : String) (front back : Table A) (a : A)
      → match_arms s front ≡ some a
      → match_arms s (front ++ back) ≡ some a
  unfolding match_arms
  match_arms-append_some s [] back a h = cc
  match_arms-append_some s ((name, b) ∷ front) back a h = elim (Bool-cases (str_eq s name)) [
    | inl same ↦ rw same (rw same at h)
    | inr other ↦ rw other (match_arms-append_some s front back a (rw other at h))
  ]

pub contains-append :
    (xs ys : List String) (s : String) → contains (xs ++ ys) s ≡ (contains xs s || contains ys s)
contains-append [] ys s = refl
contains-append (x ∷ xs) ys s = rw (contains-append xs ys s) (ground arith)

-- In a list without repetition, a name of the back half is not in the front half.
pub distinct-apart :
    (xs ys : List String) (s : String)
    → distinct (xs ++ ys) ≡ true
    → contains ys s ≡ true
    → contains xs s ≡ false
distinct-apart [] ys s d c = refl
distinct-apart (x ∷ xs) ys s d c = elim (Bool-cases (str_eq s x)) [
  | inl same ↦
      let equal : s ≡ x = (eq_iff s x).0 same in
      let again : contains ys x ≡ true = rw (← equal) c in
      let both = contains-append xs ys x in absurd (ground (arith, both))
  | inr other ↦ rw other (distinct-apart xs ys s (ground arith) c)
]
