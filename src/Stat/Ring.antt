-- ===== src/Stat/Ring.antt =====
-- (rg *StatGroup) Finalize of elliptics/stat.go: how much of the ring of identifiers each backend
-- holds. The order of `range rg.Ab`, which Go leaves open, is the order of the list. A panic
-- (an identifier of fewer than eight bytes, a missing key) is `none`.
pub mod Sort
pub mod Points
pub mod Total
pub mod Order
use elliptics_go.Base.{
  ℕ, ◌+◌, ◌*◌, ◌^◌, ◌≡◌, List, [], ◌∷◌, ◌++◌, Option, none, some, Bool, true, false, ◌>>=◌,
  if◌then◌else◌, last_or, map,
}
use elliptics_go.Base.Word.{add64, sub64, max_uint64}
use elliptics_go.Base.Dict.{Dict, lookup, insert}
use elliptics_go.Base.Eq.{nat_eq}
use elliptics_go.Base.Float.{Floats}
use elliptics_go.Wire.{DnetRawId}
use elliptics_go.Stat.Types.{AddressBackend, StatBackend, StatGroup, DnetStat, address_backend_eq}
use Sort.{sort_ids, sort_uint64}

-- The big-endian number of the first eight bytes. The shifted bytes share no bit, so their
-- bitwise or is their sum.
unfoldable pub id_value : List ℕ → Option ℕ
id_value (a ∷ b ∷ c ∷ d ∷ e ∷ f ∷ g ∷ h ∷ rest) =
    some
      (a * 2 ^ 56 + b * 2 ^ 48 + c * 2 ^ 40 + d * 2 ^ 32 + e * 2 ^ 24 + f * 2 ^ 16 + g * 2 ^ 8 + h)
id_value _ = none

-- `ids2backend` and `ids`; a backend is named by its key.
pub record Ring : Type 0 where
  pub ids2backend : Dict ℕ AddressBackend
  pub ids : List ℕ

-- The inner loop: the first backend that is met with a value keeps it.
unfoldable pub add_id : AddressBackend → ℕ → Ring → Ring
add_id ab val r = elim (lookup val r.ids2backend) [
  | none ↦ record { ids2backend = insert val ab r.ids2backend; ids = r.ids ++ val ∷ [] }
  | some _ ↦ r
]

unfoldable pub add_ids : AddressBackend → List DnetRawId → Ring → Option Ring
add_ids ab [] r = some r
add_ids ab (raw ∷ raws) r = do val ← id_value raw.id; add_ids ab raws (add_id ab val r)

module _ {F : Type 0} where
  -- The outer loop, over the backends with their identifiers sorted.
  unfoldable pub collect : Dict AddressBackend (StatBackend F) → Ring → Option Ring
  collect [] r = some r
  collect ((ab, b) ∷ rest) r = do r' ← add_ids ab b.id r; collect rest r'

  unfoldable pub sort_backends :
      Dict AddressBackend (StatBackend F) → Dict AddressBackend (StatBackend F)
  sort_backends [] = []
  sort_backends ((ab, b) ∷ rest) = (ab, record b { id = sort_ids b.id }) ∷ sort_backends rest

  -- ids2backend[id].sum += diff
  unfoldable pub credit :
      Dict ℕ AddressBackend
      → ℕ
      → ℕ
      → Dict AddressBackend (StatBackend F)
      → Option (Dict AddressBackend (StatBackend F))
  credit owners id diff bs = do
    ab ← lookup id owners
    b ← lookup ab bs
    some (insert ab (record b { sum = add64 b.sum diff }) bs)

  -- The loop over the sorted values: `prev_id` is ids[prev_idx], whose backend gets the gap.
  unfoldable pub credit_gaps :
      Dict ℕ AddressBackend
      → ℕ
      → ℕ
      → List ℕ
      → Dict AddressBackend (StatBackend F)
      → Option (Dict AddressBackend (StatBackend F))
  credit_gaps owners prev_id prev_val [] bs = some bs
  credit_gaps owners prev_id prev_val (id ∷ ids) bs = do
    bs' ← credit owners prev_id (sub64 id prev_val) bs
    credit_gaps owners id id ids bs'

  -- With no identifiers nothing is credited; else the gaps, and the part above the last value.
  unfoldable pub credit_ring :
      Dict ℕ AddressBackend
      → List ℕ
      → Dict AddressBackend (StatBackend F)
      → Option (Dict AddressBackend (StatBackend F))
  credit_ring owners [] bs = some bs
  credit_ring owners (id ∷ ids) bs = do
    let last_id = last_or id ids
    bs' ← credit_gaps owners last_id 0 (id ∷ ids) bs
    credit owners last_id (sub64 max_uint64 last_id) bs'

module _ {F : Type 0} ⦃fl : Floats F⦄ where
  unfoldable pub set_percentages :
      Dict AddressBackend (StatBackend F) → Dict AddressBackend (StatBackend F)
  set_percentages [] = []
  set_percentages ((ab, b) ∷ rest) =
      (ab, record b { percentage = fl.div (fl.of_uint64 b.sum) (fl.of_uint64 max_uint64) })
      ∷ set_percentages rest

  unfoldable pub finalize : StatGroup F → Option (StatGroup F)
  finalize g = do
    let sorted = sort_backends g.ab
    r ← collect sorted (record { ids2backend = []; ids = [] })
    bs ← credit_ring r.ids2backend (sort_uint64 r.ids) sorted
    some (record { ab = set_percentages bs })

  unfoldable pub finalize_groups : Dict ℕ (StatGroup F) → Option (Dict ℕ (StatGroup F))
  finalize_groups [] = some []
  finalize_groups ((group, sg) ∷ gs) = do
    sg' ← finalize sg
    gs' ← finalize_groups gs
    some ((group, sg') ∷ gs')

  -- (stat *DnetStat) Finalize
  unfoldable pub finalize_stat : DnetStat F → Option (DnetStat F)
  unfolding finalize_groups
  finalize_stat stat = do gs ← finalize_groups stat.group; some (record stat { group = gs })
