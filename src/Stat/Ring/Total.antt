-- ===== src/Stat/Ring/Total.antt =====
-- The total of the shares that Finalize gives out.
pub mod Sorted
pub mod Collected
use elliptics_go.Base.{
  ℕ, ◌+◌, ◌-◌, ◌≤◌, ◌<◌, ◌^◌, ◌≡◌, ◌≢◌, refl, sym, List, [], ◌∷◌, Option, none, some, Bool, true,
  false, arith, length, last_or, All, ltb, Bool-cases, Option-cases, inl, inr, ◌>>=◌, if◌then◌else◌,
  ap, ◌∙◌, eqb,
}
use elliptics_go.Base.Word.{u64_mod, max_uint64, add64, sub64, add64_exact, sub64_exact}
use elliptics_go.Base.Dict.{Dict, lookup, insert, lookup-insert}
use elliptics_go.Base.Eq.{nat_eq}
use elliptics_go.Base.Float.{Floats}
use elliptics_go.Stat.Types.{
  AddressBackend, StatBackend, StatGroup, address_backend_eq, address_backend_eqb,
}
use elliptics_go.Stat.Ring.{
  credit, credit_gaps, credit_ring, set_percentages, finalize, Ring, sort_backends, collect,
}
use elliptics_go.Stat.Ring.Sort.{Ascending, sort_uint64}
use Sorted.{Ascending-sort_uint64, All-sort, length-sort}
use Collected.{Held, AllIds, ids_of, collect-sorted}

module _ {F : Type 0} where
  abbrev pub total : Dict AddressBackend (StatBackend F) → ℕ
  total [] = 0
  total ((_, b) ∷ bs) = b.sum + total bs

  total-insert :
      (ab : AddressBackend) (bs : Dict AddressBackend (StatBackend F)) (b b' : StatBackend F)
      → lookup ab bs ≡ some b
      → total (insert ab b' bs) + b.sum ≡ total bs + b'.sum
  unfolding lookup insert
  total-insert ab [] b b' h = cc
  total-insert ab ((k, v) ∷ bs) b b' h = ground (arith, total-insert ab bs b b')

  Held-insert :
      (owners : Dict ℕ AddressBackend) (ab : AddressBackend) (b : StatBackend F)
      (bs : Dict AddressBackend (StatBackend F)) (id : ℕ)
      → Held owners bs id
      → Held owners (insert ab b bs) id
  Held-insert owners ab b bs id (o, x, e, f) = elim (Bool-cases (address_backend_eqb ab o)) [
    | inl s ↦ (o, b, e, rw (lookup-insert {K = AddressBackend}, s) refl)
    | inr s ↦ (o, x, e, rw (lookup-insert {K = AddressBackend}, s) f)
  ]

  pub sum-le-total :
      (ab : AddressBackend) (bs : Dict AddressBackend (StatBackend F)) (b : StatBackend F)
      → lookup ab bs ≡ some b
      → b.sum ≤ total bs
  unfolding lookup
  sum-le-total ab [] b h = cc
  sum-le-total ab ((k, v) ∷ bs) b h = ground (arith, sum-le-total ab bs b)

  module _ (owners : Dict ℕ AddressBackend) where
    pub All-map-Held :
        (bs bs' : Dict AddressBackend (StatBackend F))
        → ((j : ℕ) → Held owners bs j → Held owners bs' j)
        → (ids : List ℕ) → All (λ id. Held owners bs id × (id < u64_mod)) ids
        → All (λ id. Held owners bs' id × (id < u64_mod)) ids
    All-map-Held bs bs' keep [] hs = tt
    All-map-Held bs bs' keep (id ∷ ids) hs =
        ((keep id hs.0.0, hs.0.1), All-map-Held bs bs' keep ids hs.1)

    -- A credit that does not overflow raises the total by its amount.
    pub credit-total :
        (id diff : ℕ) (bs : Dict AddressBackend (StatBackend F))
        → Held owners bs id
        → total bs + diff < u64_mod
        → (bs' : Dict AddressBackend (StatBackend F)) × (credit owners id diff bs ≡ some bs')
          × (total bs' ≡ total bs + diff)
          × ((j : ℕ) → Held owners bs j → Held owners bs' j)
    unfolding credit
    credit-total id diff bs (ab, b, e, f) fits = (
      insert ab (record b { sum = add64 b.sum diff }) bs,
      rw (e, f) refl,
      omega (
        arith,
        total-insert ab bs b (record b { sum = add64 b.sum diff }) f,
        add64_exact b.sum diff,
        sum-le-total ab bs b f,
      ),
      λ j. Held-insert owners ab (record b { sum = add64 b.sum diff }) bs j,
    )

    -- Along ascending values the total follows the last value that was passed.
    pub credit_gaps-total :
        (prev_id prev_val : ℕ) (ids : List ℕ) (bs : Dict AddressBackend (StatBackend F))
        → Held owners bs prev_id
        → All (λ id. Held owners bs id × (id < u64_mod)) ids
        → Ascending prev_val ids
        → total bs ≡ prev_val
        → (bs' : Dict AddressBackend (StatBackend F)) × (credit_gaps owners prev_id prev_val ids bs
            ≡ some bs')
          × (total bs' ≡ last_or prev_val ids)
          × ((j : ℕ) → Held owners bs j → Held owners bs' j)
    unfolding credit_gaps
    credit_gaps-total prev_id prev_val [] bs held hs asc t = (bs, refl, t, λ j h. h)
    credit_gaps-total prev_id prev_val (id ∷ ids) bs held hs asc t =
        let exact : sub64 id prev_val ≡ id - prev_val = sub64_exact id prev_val asc.0 hs.0.1 in
        let (bs1, run1, t1, keep1) =
          credit-total prev_id (sub64 id prev_val) bs held (omega (arith, hs.0.1)) in
        let (bs2, run2, t2, keep2) =
          credit_gaps-total id id ids bs1 (keep1 id hs.0.0) (All-map-Held bs bs1 keep1 ids hs.1)
            asc.1 (omega arith) in
        (bs2, rw (run1, run2) refl, t2, λ j h. keep2 j (keep1 j h))

    pub Held-last :
        (bs : Dict AddressBackend (StatBackend F)) (id : ℕ) (ids : List ℕ)
        → All (λ id. Held owners bs id × (id < u64_mod)) (id ∷ ids)
        → Held owners bs (last_or id ids) × (last_or id ids < u64_mod)
    Held-last bs id [] h = h.0
    Held-last bs id (j ∷ ids) h = Held-last bs j ids h.1

    -- A ring with a value is credited in full.
    pub credit_ring-total :
        (ids : List ℕ) (bs : Dict AddressBackend (StatBackend F))
        → All (λ id. Held owners bs id × (id < u64_mod)) ids
        → Ascending 0 ids
        → total bs ≡ 0
        → 0 < length ids
        → (bs' : Dict AddressBackend (StatBackend F)) × (credit_ring owners ids bs ≡ some bs')
          × (total bs' ≡ max_uint64)
    unfolding credit_ring
    credit_ring-total [] bs hs asc t n = absurd (omega arith)
    credit_ring-total (id ∷ ids) bs hs asc t n =
        let (held, lt) = Held-last bs id ids hs in
        let (bs1, run1, t1, keep1) =
          credit_gaps-total (last_or id ids) 0 (id ∷ ids) bs held hs asc t in
        let exact : sub64 max_uint64 (last_or id ids) ≡ max_uint64 - last_or id ids =
          sub64_exact max_uint64 (last_or id ids) (omega arith) (omega arith) in
        let (bs2, run2, t2, keep2) =
          credit-total (last_or id ids) (sub64 max_uint64 (last_or id ids)) bs1
            (keep1 (last_or id ids) held) (omega arith) in
        (bs2, rw (run1, run2) refl, omega arith)

  pub total-sort_backends :
      (bs : Dict AddressBackend (StatBackend F)) → total (sort_backends bs) ≡ total bs
  unfolding sort_backends
  total-sort_backends [] = refl
  total-sort_backends ((ab, b) ∷ bs) = omega (arith, total-sort_backends bs)

module _ {F : Type 0} ⦃fl : Floats F⦄ where
  total-set_percentages :
      (bs : Dict AddressBackend (StatBackend F)) → total (set_percentages bs) ≡ total bs
  unfolding set_percentages
  total-set_percentages [] = refl
  total-set_percentages ((ab, b) ∷ bs) = omega (arith, total-set_percentages bs)

  -- For a group whose shares are all zero, as FindBackend makes them, whose identifiers have at
  -- least eight bytes each, all below 256, and which has an identifier: Finalize does not panic, and the shares
  -- of the backends add up to math.MaxUint64, the whole ring, with no overflow.
  pub finalize-total :
      (g : StatGroup F)
      → AllIds g.ab
      → total g.ab ≡ 0
      → 0 < ids_of g.ab
      → (g' : StatGroup F) × (finalize g ≡ some g') × (total g'.ab ≡ max_uint64)
  unfolding finalize sort_uint64
  finalize-total g valid fresh n =
      let (r, run, good, pos) = collect-sorted g.ab valid in
      let (bs, run', t) =
        credit_ring-total r.ids2backend (sort_uint64 r.ids) (sort_backends g.ab)
          (All-sort ltb (λ id. Held r.ids2backend (sort_backends g.ab) id × (id < u64_mod)) r.ids
            good.0)
          (Ascending-sort_uint64 r.ids) (total-sort_backends g.ab ∙ fresh)
          (omega (arith, pos n, length-sort ltb r.ids)) in
      (record { ab = set_percentages bs }, rw (run, run') refl, total-set_percentages bs ∙ t)
