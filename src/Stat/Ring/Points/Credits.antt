-- ===== src/Stat/Ring/Points/Credits.antt =====
-- The loops of Finalize of elliptics/stat.go give each backend the points that it holds.
use elliptics_go.Base.{
  ℕ, ◌+◌, ◌-◌, ◌≤◌, ◌<◌, ◌≡◌, ◌∙◌, refl, sym, ap, subst, arith, List, [], ◌∷◌, Option, none, some,
  last_or, if◌then◌else◌, Bool-cases, Option-cases, inl, inr, All, length, ltb,
}
use elliptics_go.Base.Word.{u64_mod, max_uint64, add64, sub64, add64_exact, sub64_exact}
use elliptics_go.Base.Dict.{Dict, lookup, insert, lookup-insert}
use elliptics_go.Base.Eq.{nat_eq}
use elliptics_go.Base.Float.{Floats}
use elliptics_go.Stat.Types.{
  AddressBackend, StatBackend, StatGroup, address_backend_eq, address_backend_eqb,
  address_backend_eqb_iff,
}
use elliptics_go.Stat.Ring.{
  credit, credit_gaps, credit_ring, set_percentages, finalize, Ring, sort_backends, collect,
}
use elliptics_go.Stat.Ring.Sort.{Ascending, sort_uint64}
use elliptics_go.Stat.Ring.Total.{
  total, sum-le-total, credit-total, credit_gaps-total, All-map-Held, Held-last, credit_ring-total,
  total-sort_backends,
}
use elliptics_go.Stat.Ring.Total.Sorted.{Ascending-sort_uint64, All-sort, length-sort}
use elliptics_go.Stat.Ring.Total.Collected.{Held, AllIds, ids_of, collect-sorted}
use elliptics_go.Stat.Ring.Points.{
  owned, points, points_none, points_below, points_next, last_above, points_last, points_split,
  owned_by,
}

module _ {F : Type 0} where
  abbrev sum_of : Option (StatBackend F) → ℕ
  sum_of none = 0
  sum_of (some b) = b.sum

  -- The share of a backend.
  unfoldable pub sum_at : AddressBackend → Dict AddressBackend (StatBackend F) → ℕ
  sum_at ab bs = sum_of (lookup ab bs)

  sum_at-insert :
      (ab o : AddressBackend) (b b' : StatBackend F) (bs : Dict AddressBackend (StatBackend F))
      (n : ℕ)
      → lookup o bs ≡ some b
      → b'.sum ≡ b.sum + n
      → sum_at ab (insert o b' bs) ≡ sum_at ab bs + (if address_backend_eqb o ab then n else 0)
  unfolding sum_at
  sum_at-insert ab o b b' bs n f more =
      let inserted = lookup-insert o ab b' bs in
      elim (Bool-cases (address_backend_eqb o ab)) [
        | inl s ↦
            let same : o ≡ ab = (address_backend_eqb_iff o ab).0 s in
            let here : lookup ab bs ≡ some b = subst (λ k. lookup k bs ≡ some b) same f in
            let there : lookup ab (insert o b' bs) ≡ some b' = inserted ∙ simp s in
            ap sum_of there ∙ more ∙ simp (here, s)
        | inr s ↦
            let there : lookup ab (insert o b' bs) ≡ lookup ab bs = inserted ∙ simp s in
            ap sum_of there ∙ rw s (omega arith)
      ]

  credit-sum_at :
      (owners : Dict ℕ AddressBackend) (ab : AddressBackend) (id diff : ℕ)
      (bs bs' : Dict AddressBackend (StatBackend F))
      → Held owners bs id
      → total bs + diff < u64_mod
      → credit owners id diff bs ≡ some bs'
      → sum_at ab bs' ≡ sum_at ab bs + (if owned owners ab id then diff else 0)
  unfolding credit
  credit-sum_at owners ab id diff bs bs' (o, b, e, f) fits run =
      let b' = record b { sum = add64 b.sum diff } in
      let credits : credit owners id diff bs ≡ some (insert o b' bs) = rw (e, f) refl in
      let found : some (insert o b' bs) ≡ some bs' = sym credits ∙ run in
      let result : insert o b' bs ≡ bs' = cc in
      let exact : add64 b.sum diff ≡ b.sum + diff =
        add64_exact b.sum diff (omega (arith, sum-le-total o bs b f)) in
      subst (λ m. sum_at ab m ≡ sum_at ab bs + (if owned owners ab id then diff else 0)) result
        (rw (owned_by owners ab o id e) (sum_at-insert ab o b b' bs diff f exact))

  module _ (owners : Dict ℕ AddressBackend) (ab : AddressBackend) where
    credit_gaps-sum_at :
        (prev_id prev_val : ℕ) (ids : List ℕ) (bs bs' : Dict AddressBackend (StatBackend F))
        → Held owners bs prev_id
        → All (λ id. Held owners bs id × (id < u64_mod)) ids
        → Ascending prev_val ids
        → total bs ≡ prev_val
        → credit_gaps owners prev_id prev_val ids bs ≡ some bs'
        → sum_at ab bs'
          ≡ sum_at ab bs + points owners ab prev_id ids prev_val (last_or prev_val ids - prev_val)
    unfolding credit_gaps
    credit_gaps-sum_at prev_id prev_val [] bs bs' held hs asc t run =
        let same : bs ≡ bs' = cc in
        let none_there =
          points_none owners ab prev_id [] prev_val (prev_val - prev_val) (omega arith) in
        subst
          (λ m.
            sum_at ab m ≡ sum_at ab bs + points owners ab prev_id [] prev_val (prev_val - prev_val))
          same (omega (arith, none_there))
    credit_gaps-sum_at prev_id prev_val (id ∷ ids) bs bs' held (one, hs) (le, asc) t run =
        let exact : sub64 id prev_val ≡ id - prev_val = sub64_exact id prev_val le one.1 in
        let (bs1, run1, t1, keep1) =
          credit-total owners prev_id (sub64 id prev_val) bs held (omega (arith, one.1)) in
        let first =
          credit-sum_at owners ab prev_id (sub64 id prev_val) bs bs1 held (omega (arith, one.1))
            run1 in
        let goes : credit_gaps owners id id ids bs1 ≡ some bs' =
          let step : credit_gaps owners prev_id prev_val (id ∷ ids) bs
              ≡ credit_gaps owners id id ids bs1 =
            rw run1 refl in
          sym step ∙ run in
        let rest =
          credit_gaps-sum_at id id ids bs1 bs' (keep1 id one.0)
            (All-map-Held owners bs bs1 keep1 ids hs) asc (omega arith) goes in
        let below = points_below owners ab prev_id id ids prev_val (id - prev_val) (omega arith) in
        let next =
          points_next owners ab prev_id id ids prev_val (last_or id ids) le
            (last_above id ids asc) in
        let credited : sum_at ab bs1
            ≡ sum_at ab bs + points owners ab prev_id (id ∷ ids) prev_val (id - prev_val) =
          first ∙ rw (exact, below) refl in
        omega (arith, rest, credited, next)

    credit_ring-sum_at :
        (ids : List ℕ) (bs bs' : Dict AddressBackend (StatBackend F))
        → All (λ id. Held owners bs id × (id < u64_mod)) ids
        → Ascending 0 ids
        → total bs ≡ 0
        → 0 < length ids
        → credit_ring owners ids bs ≡ some bs'
        → sum_at ab bs' ≡ sum_at ab bs + points owners ab (last_or 0 ids) ids 0 max_uint64
    unfolding credit_ring
    credit_ring-sum_at [] bs bs' hs asc t n run = let absurd : ⊥ = omega arith in elim absurd [ ]
    credit_ring-sum_at (id ∷ ids) bs bs' hs (le, asc) t n run =
        let last = last_or id ids in
        let (held, lt) = Held-last owners bs id ids hs in
        let (bs1, run1, t1, keep1) =
          credit_gaps-total owners last 0 (id ∷ ids) bs held hs (le, asc) t in
        let gaps = credit_gaps-sum_at last 0 (id ∷ ids) bs bs1 held hs (le, asc) t run1 in
        let exact : sub64 max_uint64 last ≡ max_uint64 - last =
          sub64_exact max_uint64 last (omega arith) (omega arith) in
        let ends : credit owners last (sub64 max_uint64 last) bs1 ≡ some bs' =
          let step : credit_ring owners (id ∷ ids) bs
              ≡ credit owners last (sub64 max_uint64 last) bs1 =
            rw run1 refl in
          sym step ∙ run in
        let first =
          credit-sum_at owners ab last (sub64 max_uint64 last) bs1 bs' (keep1 last held)
            (omega arith) ends in
        let credited : sum_at ab bs'
            ≡ sum_at ab bs1 + points owners ab last (id ∷ ids) last (max_uint64 - last) =
          first ∙ rw (exact, points_last owners ab last id ids (max_uint64 - last) asc) refl in
        let whole =
          points_split owners ab last (id ∷ ids) 0 last (max_uint64 - last) max_uint64 last
            (omega arith) (omega arith) in
        let from_zero : last - 0 ≡ last = omega arith in
        let low : sum_at ab bs1 ≡ sum_at ab bs + points owners ab last (id ∷ ids) 0 last =
          gaps ∙ rw from_zero refl in
        omega (arith, credited, low, whole)

  sum_at-le-total :
      (ab : AddressBackend) (bs : Dict AddressBackend (StatBackend F)) → sum_at ab bs ≤ total bs
  unfolding sum_at
  sum_at-le-total ab bs = elim (Option-cases (lookup ab bs)) [
    | inl missing ↦ rw missing (omega arith)
    | inr (b, found) ↦ rw found (sum-le-total ab bs b found)
  ]

module _ {F : Type 0} ⦃fl : Floats F⦄ where
  sum_at-set_percentages :
      (ab : AddressBackend) (bs : Dict AddressBackend (StatBackend F))
      → sum_at ab (set_percentages bs) ≡ sum_at ab bs
  unfolding sum_at set_percentages lookup
  sum_at-set_percentages ab [] = refl
  sum_at-set_percentages ab ((k, b) ∷ bs) = ground (arith, sum_at-set_percentages ab bs)

  -- For a group whose shares are all zero, as FindBackend makes them, whose identifiers have at
  -- least eight bytes each, all below 256, and which has an identifier: Finalize returns, and the
  -- share of each backend is the number of the points below math.MaxUint64 that it holds, by the
  -- owners of the identifiers that the first loop collects. (A point is held by the greatest
  -- identifier that is not above it, and by the greatest of all where there is none.)
  pub finalize-points :
      (g : StatGroup F)
      → AllIds g.ab
      → total g.ab ≡ 0
      → 0 < ids_of g.ab
      → (r : Ring) × (g' : StatGroup F) × (collect
            (sort_backends g.ab)
            (record { ids2backend = []; ids = [] })
          ≡ some r)
        × (finalize g ≡ some g')
        × ((ab : AddressBackend)
            → sum_at ab g'.ab
              ≡ points r.ids2backend ab
                  (last_or 0 (sort_uint64 r.ids))
                  (sort_uint64 r.ids)
                  0
                  max_uint64)
  unfolding finalize sort_uint64
  finalize-points g valid fresh n =
      let (r, run, good, pos) = collect-sorted g.ab valid in
      let ids = sort_uint64 r.ids in
      let bs = sort_backends g.ab in
      let held = All-sort ltb (λ id. Held r.ids2backend bs id × (id < u64_mod)) r.ids good.0 in
      let zero_total = total-sort_backends g.ab ∙ fresh in
      let (bs', run', t) =
        credit_ring-total r.ids2backend ids bs held (Ascending-sort_uint64 r.ids) zero_total
          (omega (arith, pos n, length-sort ltb r.ids)) in
      (
        r,
        record { ab = set_percentages bs' },
        run,
        rw (run, run') refl,
        λ ab.
            let zero_share : sum_at ab bs ≡ 0 = omega (arith, sum_at-le-total ab bs) in
            let shares =
              credit_ring-sum_at r.ids2backend ab ids bs bs' held (Ascending-sort_uint64 r.ids)
                zero_total (omega (arith, pos n, length-sort ltb r.ids)) run' in
            sum_at-set_percentages ab bs' ∙ shares ∙ omega (arith, zero_share),
      )
