-- ===== src/Stat/Ring/Points.antt =====
-- The share of a backend as Finalize of elliptics/stat.go should have it: the number of the points of
-- the ring that it holds. A point is held by the greatest identifier that is not above it, and by
-- the last identifier where all are above it.
pub mod Credits
pub mod Owners
use elliptics_go.Base.{
  ℕ, zero, suc, ◌+◌, ◌-◌, ◌≤◌, ◌<◌, ◌≡◌, ◌∙◌, refl, arith, List, [], ◌∷◌, none, some, Bool, true,
  false, leb, last_or, if◌then◌else◌, ap, Bool-cases, inl, inr,
}
use elliptics_go.Base.Dict.{Dict, lookup}
use elliptics_go.Base.Eq.{nat_eq}
use elliptics_go.Stat.Types.{AddressBackend, StatBackend, address_backend_eq, address_backend_eqb}
use elliptics_go.Stat.Ring.Sort.{Ascending}

-- The identifier that holds a point, of an ascending list; `d` is that of the points below them.
unfoldable pub holder : ℕ → List ℕ → ℕ → ℕ
holder d [] v = d
holder d (id ∷ ids) v = let next = holder id ids v in if leb id v then next else d

-- Whether an identifier is the backend's.
unfoldable pub owned : Dict ℕ AddressBackend → AddressBackend → ℕ → Bool
owned owners ab id = elim (lookup id owners) [ none ↦ false | some o ↦ address_backend_eqb o ab ]

-- How many of n numbers from a on pass a test.
unfoldable pub count : (ℕ → Bool) → ℕ → ℕ → ℕ
count p a zero = 0
count p a (suc n) = let rest = count p (a + 1) n in if p a then suc rest else rest

-- The points of the ring that a backend holds, among these identifiers.
unfoldable pub points : Dict ℕ AddressBackend → AddressBackend → ℕ → List ℕ → ℕ → ℕ → ℕ
points owners ab d ids a n = count (λ v. owned owners ab (holder d ids v)) a n

pub count_const :
    (p : ℕ → Bool) (b : Bool) (a n : ℕ)
    → ((v : ℕ) → a ≤ v → v < a + n → p v ≡ b)
    → count p a n ≡ (if b then n else 0)
unfolding count
count_const p true a zero same = refl
count_const p false a zero same = refl
count_const p true a (suc n) same =
    rw (same a (omega arith) (omega arith))
      (ap suc (count_const p true (a + 1) n (λ v le lt. same v (omega arith) (omega arith))))
count_const p false a (suc n) same =
    rw (same a (omega arith) (omega arith))
      (count_const p false (a + 1) n (λ v le lt. same v (omega arith) (omega arith)))

pub count_split :
    (p : ℕ → Bool) (a m n k b : ℕ) → k ≡ m + n → b ≡ a + m → count p a k ≡ count p a m + count p b n
unfolding count
count_split p a zero n k b same next =
    let all : k ≡ n = omega arith in
    let start : b ≡ a = omega arith in
    let equal : count p a k ≡ count p b n = rw (all, start) refl in omega arith
count_split p a (suc m) n zero b same next = let absurd : ⊥ = omega arith in elim absurd [ ]
count_split p a (suc m) n (suc k) b same next =
    let rest = count_split p (a + 1) m n k b (omega arith) (omega arith) in
    elim (Bool-cases (p a)) [
      | inl passed ↦ rw passed (omega (arith, rest))
      | inr failed ↦ rw failed rest
    ]

pub count_ext :
    (p q : ℕ → Bool) (a n : ℕ) → ((v : ℕ) → a ≤ v → p v ≡ q v) → count p a n ≡ count q a n
unfolding count
count_ext p q a zero same = refl
count_ext p q a (suc n) same =
    rw (same a (omega arith), count_ext p q (a + 1) n (λ v le. same v (omega arith))) refl

pub last_above : (lo : ℕ) (ids : List ℕ) → Ascending lo ids → lo ≤ last_or lo ids
last_above lo [] asc = omega arith
last_above lo (id ∷ ids) (le, asc) = let rest = last_above id ids asc in omega arith

-- Points below the first identifier.
pub holder_below : (d id : ℕ) (ids : List ℕ) (v : ℕ) → v < id → holder d (id ∷ ids) v ≡ d
unfolding holder
holder_below d id ids v lt = ground arith

-- Points from the first identifier on.
pub holder_above :
    (d id : ℕ) (ids : List ℕ) (v : ℕ) → id ≤ v → holder d (id ∷ ids) v ≡ holder id ids v
unfolding holder
holder_above d id ids v le = ground arith

-- Points from the last identifier on.
pub holder_last :
    (d : ℕ) (ids : List ℕ) (v : ℕ)
    → Ascending d ids
    → last_or d ids ≤ v
    → holder d ids v ≡ last_or d ids
unfolding holder
holder_last d [] v asc le = refl
holder_last d (id ∷ ids) v (first, asc) le =
    let low = last_above id ids asc in
    holder_above d id ids v (omega arith) ∙ holder_last id ids v asc le

module _ (owners : Dict ℕ AddressBackend) (ab : AddressBackend) where
  pub owned_by :
      (o : AddressBackend) (id : ℕ)
      → lookup id owners ≡ some o
      → owned owners ab id ≡ address_backend_eqb o ab
  unfolding owned
  owned_by o id e = rw (owned, e) refl

  pub points_none : (d : ℕ) (ids : List ℕ) (a n : ℕ) → n ≡ 0 → points owners ab d ids a n ≡ 0
  unfolding points count
  points_none d ids a n none_there = rw none_there refl

  -- The points below the first identifier.
  pub points_below :
      (d id : ℕ) (ids : List ℕ) (a n : ℕ)
      → a + n ≤ id
      → points owners ab d (id ∷ ids) a n ≡ (if owned owners ab d then n else 0)
  unfolding points
  points_below d id ids a n le =
      count_const (λ v. owned owners ab (holder d (id ∷ ids) v)) (owned owners ab d) a n
        (λ v low lt. ap (owned owners ab) (holder_below d id ids v (omega arith)))

  -- The points up to a number, split at the first identifier.
  pub points_next :
      (d id : ℕ) (ids : List ℕ) (a top : ℕ)
      → a ≤ id
      → id ≤ top
      → points owners ab d (id ∷ ids) a (top - a)
        ≡ points owners ab d (id ∷ ids) a (id - a) + points owners ab id ids id (top - id)
  unfolding points
  points_next d id ids a top low le =
      let p : ℕ → Bool = λ v. owned owners ab (holder d (id ∷ ids) v) in
      let rest =
        count_ext p (λ v. owned owners ab (holder id ids v)) id (top - id)
          (λ v above. ap (owned owners ab) (holder_above d id ids v above)) in
      count_split p a (id - a) (top - id) (top - a) id (omega arith) (omega arith)
      ∙ ap (λ n. count p a (id - a) + n) rest

  pub points_split :
      (d : ℕ) (ids : List ℕ) (a m n k b : ℕ)
      → k ≡ m + n
      → b ≡ a + m
      → points owners ab d ids a k ≡ points owners ab d ids a m + points owners ab d ids b n
  unfolding points
  points_split d ids = count_split (λ v. owned owners ab (holder d ids v))

  -- The points from the last identifier on.
  pub points_last :
      (d id : ℕ) (ids : List ℕ) (n : ℕ)
      → Ascending id ids
      → points owners ab d (id ∷ ids) (last_or id ids) n
        ≡ (if owned owners ab (last_or id ids) then n else 0)
  unfolding points
  points_last d id ids n asc =
      let low = last_above id ids asc in
      count_const (λ v. owned owners ab (holder d (id ∷ ids) v)) (owned owners ab (last_or id ids))
        (last_or id ids) n
        (λ v above lt.
          ap (owned owners ab)
            (holder_above d id ids v (omega arith) ∙ holder_last id ids v asc above))
