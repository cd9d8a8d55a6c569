-- ===== src/Users/Examples.antt =====
-- Five ids, of which two are repeated.
use kotlogram.Base.{ℕ, ◌≡◌, refl, true, List, [], ◌∷◌}
use kotlogram.Users.{contains, unique_from, unique_ids}
use kotlogram.Users.Distinct.{is_distinct, unique_ids_lem}

abbrev five : List ℕ
five = 4 ∷ 9 ∷ 4 ∷ 2 ∷ 9 ∷ []

keeps_first : unique_ids five ≡ 4 ∷ 9 ∷ 2 ∷ []
unfolding unique_ids unique_from
keeps_first = refl

unique_ids_example :
    (contains (unique_ids five) 9 ≡ contains five 9) × (is_distinct (unique_ids five) ≡ true)
unique_ids_example = unique_ids_lem five 9
