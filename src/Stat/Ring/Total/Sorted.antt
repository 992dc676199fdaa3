-- ===== src/Stat/Ring/Total/Sorted.antt =====
-- What sorting the values keeps and gives.
use elliptics_go.Base.{
  ℕ, ◌+◌, ◌≤◌, ◌≡◌, refl, List, [], ◌∷◌, Bool, ltb, arith, length, All, Bool-cases, inl, inr,
}
use elliptics_go.Stat.Ring.Sort.{insert_sorted, sort, sort_uint64, Ascending}

module _ {A : Type 0} (less : A → A → Bool) where
  All-insert_sorted :
      (P : A → Type 0) (x : A) (xs : List A) → P x → All P xs → All P (insert_sorted less x xs)
  unfolding insert_sorted
  All-insert_sorted P x [] p ps = (p, tt)
  All-insert_sorted P x (y ∷ ys) p ps = elim (Bool-cases (less y x)) [
    | inl e ↦ rw e (ps.0, All-insert_sorted P x ys p ps.1)
    | inr e ↦ rw e (p, ps)
  ]

  pub All-sort : (P : A → Type 0) (xs : List A) → All P xs → All P (sort less xs)
  unfolding sort
  All-sort P [] ps = tt
  All-sort P (x ∷ xs) ps = All-insert_sorted P x (sort less xs) ps.0 (All-sort P xs ps.1)

  length-insert_sorted : (x : A) (xs : List A) → length (insert_sorted less x xs) ≡ length xs + 1
  unfolding insert_sorted
  length-insert_sorted x [] = omega arith
  length-insert_sorted x (y ∷ ys) = ground (arith, length-insert_sorted x ys)

  pub length-sort : (xs : List A) → length (sort less xs) ≡ length xs
  unfolding sort
  length-sort [] = refl
  length-sort (x ∷ xs) = omega (arith, length-insert_sorted x (sort less xs), length-sort xs)

Ascending-insert_sorted :
    (lo x : ℕ) (xs : List ℕ) → lo ≤ x → Ascending lo xs → Ascending lo (insert_sorted ltb x xs)
unfolding insert_sorted
Ascending-insert_sorted lo x [] h a = (h, tt)
Ascending-insert_sorted lo x (y ∷ ys) h a = ground (arith, Ascending-insert_sorted y x ys)

pub Ascending-sort_uint64 : (xs : List ℕ) → Ascending 0 (sort_uint64 xs)
unfolding sort_uint64 sort
Ascending-sort_uint64 [] = tt
Ascending-sort_uint64 (x ∷ xs) =
    Ascending-insert_sorted 0 x (sort ltb xs) (omega arith) (Ascending-sort_uint64 xs)
