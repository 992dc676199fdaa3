-- ===== src/Base/Dict.antt =====
-- A Go map as an association list, in the order in which a `range` loop visits its keys.
use mathlib.Core.Path.{◌≡◌, refl, subst}
use mathlib.Core.Logic.{◌≢◌, inl, inr}
use mathlib.Core.List.{List, [], ◌∷◌}
use mathlib.Core.Option.{Option, none, some}
use native.Mathlib.Omega.{arith}
use elliptics_go.Base.Lists.{All}
use elliptics_go.Base.Tests.{if◌then◌else◌, Bool-cases}
use elliptics_go.Base.Eq.{Eq, ◌==◌, eq_refl, eq_of_ne}

abbrev pub Dict {ℓ κ} : Type ℓ → Type κ → Type (ℓ ⊔ κ)
Dict K V = List (K × V)

module _ {ℓ κ} {K : Type ℓ} {V : Type κ} ⦃e : Eq K⦄ where
  -- `v, ok := m[k]`
  unfoldable pub lookup : K → Dict K V → Option V
  lookup k [] = none
  lookup k ((j, v) ∷ m) = if j == k then some v else lookup k m

  -- `m[k] = v`
  unfoldable pub insert : K → V → Dict K V → Dict K V
  insert k v [] = (k, v) ∷ []
  insert k v ((j, w) ∷ m) = if j == k then (j, v) ∷ m else (j, w) ∷ insert k v m

  -- `delete(m, k)`
  unfoldable pub delete : K → Dict K V → Dict K V
  delete k [] = []
  delete k ((j, w) ∷ m) = if j == k then delete k m else (j, w) ∷ delete k m

  pub lookup-insert :
      (key at : K) (value : V) (table : Dict K V)
      → lookup at (insert key value table) ≡ (if key == at then some value else lookup at table)
  unfolding insert lookup
  lookup-insert key at value [] = refl
  lookup-insert key at value ((first, other) ∷ table) = ground (
    arith,
    lookup-insert key at value table,
    e.equal_iff first at,
    e.equal_iff first key,
    e.equal_iff key at,
  )

  pub lookup-insert_self : (k : K) (v : V) (m : Dict K V) → lookup k (insert k v m) ≡ some v
  lookup-insert_self k v m = rw (lookup-insert k k v m, eq_refl k)

  pub lookup-insert_ne :
      (k j : K) (v : V) (m : Dict K V) → k ≢ j → lookup j (insert k v m) ≡ lookup j m
  lookup-insert_ne k j v m h = rw (lookup-insert k j v m, eq_of_ne k j h)

  pub lookup-delete :
      (k j : K) (m : Dict K V) → lookup j (delete k m) ≡ (if k == j then none else lookup j m)
  unfolding lookup delete
  lookup-delete k j [] = ground arith
  lookup-delete k j ((i, w) ∷ m) =
      ground (arith, e.equal_iff k j, e.equal_iff i k, e.equal_iff i j, lookup-delete k j m)

-- A value beside the one of the same key in another map.
abbrev pub paired {κ} : {V : Type κ} → (V → V → V) → Option V → Option V → Option V
paired f none p = none
paired f (some v) none = some v
paired f (some v) (some p) = some (f v p)

abbrev pub either_value {κ} : {V : Type κ} → Option V → Option V → Option V
either_value none p = p
either_value (some v) p = some v

abbrev pub update_value {κ} : {V : Type κ} → (V → V → V) → V → Option V → V
update_value f v none = v
update_value f v (some p) = f v p

update_value-paired {κ} :
    {V : Type κ} (f : V → V → V) (v : V) (p : Option V)
    → some (update_value f v p) ≡ paired f (some v) p
update_value-paired f v none = refl
update_value-paired f v (some p) = refl

module _ {ℓ κ} {K : Type ℓ} {V : Type κ} ⦃e : Eq K⦄ where
  -- for k, v := range m { p, ok := prev[k]; if !ok { continue }; update v by p }
  unfoldable pub update_common : (V → V → V) → Dict K V → Dict K V → Dict K V
  update_common f prev [] = []
  update_common f prev ((k, v) ∷ m) = (k, update_value f v (lookup k prev)) ∷ update_common f prev m

  pub lookup-update_common :
      (f : V → V → V) (k : K) (prev m : Dict K V)
      → lookup k (update_common f prev m) ≡ paired f (lookup k m) (lookup k prev)
  unfolding lookup update_common
  lookup-update_common f k prev [] = refl
  lookup-update_common f k prev ((j, v) ∷ m) = elim (Bool-cases (j == k)) [
    | inl same ↦ rw (same, ← (e.equal_iff j k).0 same) (update_value-paired f v (lookup j prev))
    | inr ne ↦ rw ne (lookup-update_common f k prev m)
  ]

  -- for k, p := range prev { if _, ok := m[k]; !ok { m[k] = p } }
  unfoldable pub add_missing : Dict K V → Dict K V → Dict K V
  add_missing [] m = m
  add_missing ((k, p) ∷ prev) m =
      add_missing prev (elim (lookup k m) [ none ↦ insert k p m | some _ ↦ m ])

  abbrev pub add_one : K → V → Dict K V → Dict K V
  add_one k p m = elim (lookup k m) [ none ↦ insert k p m | some _ ↦ m ]

  lookup-add_one :
      (k j : K) (p : V) (m : Dict K V)
      → lookup j (add_one k p m) ≡ either_value (lookup j m) (if k == j then some p else none)
  lookup-add_one k j p m = ground (arith, e.equal_iff k j, lookup-insert k j p m)

  pub lookup-add_missing :
      (j : K) (prev m : Dict K V)
      → lookup j (add_missing prev m) ≡ either_value (lookup j m) (lookup j prev)
  unfolding lookup add_missing
  lookup-add_missing j [] m = ground arith
  lookup-add_missing j ((k, p) ∷ prev) m =
      ground (arith, lookup-add_missing j prev (add_one k p m), lookup-add_one k j p m)

  pub All-insert {κ'} :
      (P : K × V → Type κ') (k : K) (v : V) (m : Dict K V)
      → ((j : K) → P (j, v))
      → All P m
      → All P (insert k v m)
  unfolding insert
  All-insert P k v [] p ps = (p k, tt)
  All-insert P k v ((j, w) ∷ m) p ps = elim (Bool-cases (j == k)) [
    | inl same ↦ rw same (p j, ps.1)
    | inr ne ↦ rw ne (ps.0, All-insert P k v m p ps.1)
  ]

  pub All-lookup {κ'} :
      (P : V → Type κ') (k : K) (v : V) (m : Dict K V)
      → All (λ e. P e.1) m
      → lookup k m ≡ some v
      → P v
  unfolding lookup
  All-lookup P k v [] ps h = cc
  All-lookup P k v ((j, w) ∷ m) ps h = elim (Bool-cases (j == k)) [
    | inl same ↦
        let found : some w ≡ some v = rw same at h in let found' : w ≡ v = cc in subst P found' ps.0
    | inr ne ↦ All-lookup P k v m ps.1 (rw ne at h)
  ]

  pub insert-insert : (k : K) (v w : V) (m : Dict K V) → insert k v (insert k w m) ≡ insert k v m
  unfolding insert
  insert-insert k v w [] = rw (eq_refl k) refl
  insert-insert k v w ((j, x) ∷ m) = elim (Bool-cases (j == k)) [
    | inl same ↦ rw (same, same) refl
    | inr ne ↦ rw (ne, ne, insert-insert k v w m) refl
  ]
