-- ===== src/Stat/Ring/Sort.antt =====
-- The orders that Finalize hands to sort.Sort, StatBackend.Less and slice_uint64.Less, and sorting
-- by them. Elements that neither order tells apart are equal, so every way to sort gives this list.
use elliptics_go.Base.{ℕ, ◌≤◌, List, [], ◌∷◌, Bool, true, false, if◌then◌else◌, ltb}
use elliptics_go.Wire.{DnetRawId}

-- bytes.Compare(a, b) < 0
unfoldable pub bytes_less : List ℕ → List ℕ → Bool
bytes_less _ [] = false
bytes_less [] (y ∷ ys) = true
bytes_less (x ∷ xs) (y ∷ ys) = if ltb x y then true else if ltb y x then false else bytes_less xs ys

-- (sb *StatBackend) Less
unfoldable pub id_less : DnetRawId → DnetRawId → Bool
id_less a b = bytes_less a.id b.id

module _ {A : Type 0} (less : A → A → Bool) where
  unfoldable pub insert_sorted : A → List A → List A
  insert_sorted x [] = x ∷ []
  insert_sorted x (y ∷ ys) = if less y x then y ∷ insert_sorted x ys else x ∷ y ∷ ys

  unfoldable pub sort : List A → List A
  sort [] = []
  sort (x ∷ xs) = insert_sorted x (sort xs)

unfoldable pub sort_ids : List DnetRawId → List DnetRawId
sort_ids = sort id_less

unfoldable pub sort_uint64 : List ℕ → List ℕ
sort_uint64 = sort ltb

-- Ascending, all at least `lo`.
abbrev pub Ascending : ℕ → List ℕ → Type 0
Ascending lo [] = Unit {0}
Ascending lo (x ∷ xs) = (lo ≤ x) × Ascending x xs
