-- ===== src/Users/Distinct.antt =====
-- Dropping repeated ids loses no id and leaves no repetition.
use kotlogram.Base.{ℕ, ◌≡◌, refl, Bool, true, not, ◌&&◌, List, [], ◌∷◌, arith}
use kotlogram.Users.{contains, unique_from, unique_ids}

abbrev pub is_distinct : List ℕ → Bool
is_distinct [] = true
is_distinct (x ∷ xs) = not (contains xs x) && is_distinct xs

contains-unique_from :
    (seen ids : List ℕ) (x : ℕ)
    → contains (unique_from seen ids) x ≡ (contains ids x && not (contains seen x))
unfolding unique_from
contains-unique_from seen [] x = refl
contains-unique_from seen (id ∷ ids) x =
    let skipped = contains-unique_from seen ids x in
    let kept = contains-unique_from (id ∷ seen) ids x in ground (arith, skipped, kept)

distinct-unique_from : (seen ids : List ℕ) → is_distinct (unique_from seen ids) ≡ true
unfolding unique_from
distinct-unique_from seen [] = refl
distinct-unique_from seen (id ∷ ids) =
    let skipped = distinct-unique_from seen ids in
    let kept = distinct-unique_from (id ∷ seen) ids in
    let absent = contains-unique_from (id ∷ seen) ids id in ground (arith, skipped, kept, absent)

-- The list of unique ids has every requested id, no other, and none twice.
pub unique_ids_lem :
    (ids : List ℕ) (x : ℕ)
    → (contains (unique_ids ids) x ≡ contains ids x) × (is_distinct (unique_ids ids) ≡ true)
unfolding unique_ids
unique_ids_lem ids x =
    let same = contains-unique_from [] ids x in (ground (arith, same), distinct-unique_from [] ids)
