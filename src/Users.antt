-- ===== src/Users.antt =====
-- `unique_ids` of native/src/ops/users.rs. The 64-bit ids are words; only their equality matters.
pub mod Distinct
pub mod Documents
mod Examples
use kotlogram.Base.{ℕ, Bool, false, ◌||◌, ◌==◌, List, [], ◌∷◌, if◌then◌else◌}

-- HashSet::contains, on the ids that were inserted
abbrev pub contains : List ℕ → ℕ → Bool
contains [] id = false
contains (x ∷ xs) id = id == x || contains xs id

-- The filter, with the set of the ids seen so far.
unfoldable pub unique_from : List ℕ → List ℕ → List ℕ
unique_from seen [] = []
unique_from seen (id ∷ ids) =
    let skipped = unique_from seen ids in
    let kept = unique_from (id ∷ seen) ids in if contains seen id then skipped else id ∷ kept

unfoldable pub unique_ids : List ℕ → List ℕ
unique_ids ids = unique_from [] ids
