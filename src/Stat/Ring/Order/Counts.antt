-- ===== src/Stat/Ring/Order/Counts.antt =====
-- Ascending lists that have the same numbers as often are equal.
use elliptics_go.Base.{
  ℕ, suc, ◌+◌, ◌≤◌, ◌<◌, ◌≡◌, ◌∙◌, refl, sym, ap, arith, List, [], ◌∷◌, ◌++◌, ltb, eqb,
  if◌then◌else◌, Bool-cases, inl, inr,
}
use elliptics_go.Stat.Ring.Sort.{Ascending, insert_sorted, sort, sort_uint64}

-- How often a number is in a list.
unfoldable pub times : ℕ → List ℕ → ℕ
times v [] = 0
times v (x ∷ xs) = (if eqb x v then 1 else 0) + times v xs

pub times-append : (v : ℕ) (xs ys : List ℕ) → times v (xs ++ ys) ≡ times v xs + times v ys
unfolding times
times-append v [] ys = omega arith
times-append v (x ∷ xs) ys = omega (arith, times-append v xs ys)

times-insert_sorted : (v x : ℕ) (xs : List ℕ) → times v (insert_sorted ltb x xs) ≡ times v (x ∷ xs)
unfolding times insert_sorted
times-insert_sorted v x [] = refl
times-insert_sorted v x (y ∷ ys) = elim (Bool-cases (ltb y x)) [
  | inl e ↦ rw e (omega (arith, times-insert_sorted v x ys))
  | inr e ↦ rw e refl
]

pub times-sort_uint64 : (v : ℕ) (xs : List ℕ) → times v (sort_uint64 xs) ≡ times v xs
unfolding sort_uint64 sort times
times-sort_uint64 v [] = refl
times-sort_uint64 v (x ∷ xs) =
    times-insert_sorted v x (sort ltb xs)
    ∙ ap (λ n. (if eqb x v then 1 else 0) + n) (times-sort_uint64 v xs)

times_below : (v lo : ℕ) (xs : List ℕ) → Ascending lo xs → v < lo → times v xs ≡ 0
unfolding times
times_below v lo [] asc lt = refl
times_below v lo (x ∷ xs) (le, asc) lt = ground (arith, times_below v x xs asc (omega arith))

times_head : (x : ℕ) (xs : List ℕ) → times x (x ∷ xs) ≡ suc (times x xs)
unfolding times
times_head x xs = ground arith

-- The first number of one list is not below that of the other.
head_le : (x y : ℕ) (xs ys : List ℕ) → Ascending y ys → times x (x ∷ xs) ≡ times x (y ∷ ys) → y ≤ x
head_le x y xs ys asc same = elim (Bool-cases (ltb x y)) [
  | inl below ↦
      let missing = times_below x y (y ∷ ys) (omega arith, asc) (ground arith) in
      absurd (omega (arith, times_head x xs))
  | inr above ↦ ground arith
]

pub eq_of_times :
    (lo lo' : ℕ) (xs ys : List ℕ)
    → Ascending lo xs
    → Ascending lo' ys
    → ((v : ℕ) → times v xs ≡ times v ys)
    → xs ≡ ys
unfolding times
eq_of_times lo lo' [] [] asc asc' same = refl
eq_of_times lo lo' [] (y ∷ ys) asc asc' same = absurd (omega (arith, same y, times_head y ys))
eq_of_times lo lo' (x ∷ xs) [] asc asc' same = absurd (omega (arith, same x, times_head x xs))
eq_of_times lo lo' (x ∷ xs) (y ∷ ys) (le, asc) (le', asc') same =
    let low = head_le x y xs ys asc' (same x) in
    let high = head_le y x ys xs asc (sym (same y)) in
    let head : x ≡ y = omega arith in
    let tail =
      eq_of_times x y xs ys asc asc'
        (λ v. let both = same v in omega (arith, ap (λ h. times v (h ∷ xs)) head)) in
    rw (head, tail) refl
