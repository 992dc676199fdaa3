-- ===== src/Stat/Ring/Order/Known.antt =====
-- The first loop of Finalize of elliptics/stat.go: every value of an identifier gets an owner, and is
-- listed once.
use elliptics_go.Base.{
  ℕ, ◌≡◌, ◌∙◌, ap, refl, subst, arith, List, [], ◌∷◌, Option, none, some, >>=-eq-some, Option-cases,
  inl, inr, ◌⊎◌, eqb, eqb_iff, if◌then◌else◌,
}
use elliptics_go.Base.Dict.{Dict, lookup, lookup-insert, either_value}
use elliptics_go.Base.Eq.{nat_eq}
use elliptics_go.Wire.{DnetRawId}
use elliptics_go.Stat.Types.{AddressBackend, StatBackend}
use elliptics_go.Stat.Ring.{Ring, id_value, add_id, add_ids, collect}
use elliptics_go.Stat.Ring.Points.Owners.{HasValue, Owns}
use elliptics_go.Stat.Ring.Order.Counts.{times, times-append}

-- A value has an owner.
abbrev pub IsKnown : ℕ → Ring → Type 0
IsKnown v r = (o : AddressBackend) × (lookup v r.ids2backend ≡ some o)

abbrev pub once : Option AddressBackend → ℕ
once none = 0
once (some o) = 1

-- The values are listed once, and are those that have an owner.
abbrev pub IsListed : Ring → Type 0
IsListed r = (v : ℕ) → times v r.ids ≡ once (lookup v r.ids2backend)

module _ (ab : AddressBackend) (val : ℕ) (r : Ring) where
  add_id-lookup :
      (v : ℕ)
      → lookup v (add_id ab val r).ids2backend
        ≡ either_value (lookup v r.ids2backend) (if eqb val v then some ab else none)
  unfolding add_id
  add_id-lookup v = ground (arith, lookup-insert val v ab r.ids2backend, eqb_iff val v)

  add_id-IsListed : IsListed r → IsListed (add_id ab val r)
  unfolding add_id times
  add_id-IsListed listed v = ground (
    arith,
    listed v,
    lookup-insert val v ab r.ids2backend,
    times-append v r.ids (val ∷ []),
    eqb_iff val v,
  )

  add_id-IsKnown : (v : ℕ) → IsKnown v r ⊎ (val ≡ v) → IsKnown v (add_id ab val r)
  add_id-IsKnown v (inl (o, e)) = (o, add_id-lookup v ∙ rw e refl)
  add_id-IsKnown v (inr same) = elim (Option-cases (lookup v r.ids2backend)) [
    | inl absent ↦ (ab, add_id-lookup v ∙ rw absent (ground (arith, eqb_iff val v)))
    | inr (o, e) ↦ (o, add_id-lookup v ∙ rw e refl)
  ]

module _ (ab : AddressBackend) where
  add_ids-IsListed :
      (raws : List DnetRawId) (r r' : Ring) → add_ids ab raws r ≡ some r' → IsListed r → IsListed r'
  unfolding add_ids
  add_ids-IsListed [] r r' run listed = let same : r ≡ r' = cc in subst IsListed same listed
  add_ids-IsListed (raw ∷ raws) r r' run listed =
      let (val, value, rest) = >>=-eq-some (id_value raw.id) _ run in
      add_ids-IsListed raws (add_id ab val r) r' rest (add_id-IsListed ab val r listed)

  add_ids-IsKnown :
      (v : ℕ) (raws : List DnetRawId) (r r' : Ring)
      → add_ids ab raws r ≡ some r'
      → IsKnown v r ⊎ HasValue v raws
      → IsKnown v r'
  unfolding add_ids
  add_ids-IsKnown v [] r r' run (inl known) = let same : r ≡ r' = cc in subst (IsKnown v) same known
  add_ids-IsKnown v [] r r' run (inr has) = absurd has
  add_ids-IsKnown v (raw ∷ raws) r r' run known =
      let (val, value, rest) = >>=-eq-some (id_value raw.id) _ run in
      add_ids-IsKnown v raws (add_id ab val r) r' rest (next val value known)
    where
      next :
          (w : ℕ)
          → id_value raw.id ≡ some w
          → IsKnown v r ⊎ ((id_value raw.id ≡ some v) ⊎ HasValue v raws)
          → IsKnown v (add_id ab w r) ⊎ HasValue v raws
      next w value' (inl old) = inl (add_id-IsKnown ab w r v (inl old))
      next w value' (inr (inl is)) =
          let same : w ≡ v = cc in inl (add_id-IsKnown ab w r v (inr same))
      next w value' (inr (inr has)) = inr has

module _ {F : Type 0} where
  collect-IsListed :
      (bs : Dict AddressBackend (StatBackend F)) (r r' : Ring)
      → collect bs r ≡ some r'
      → IsListed r
      → IsListed r'
  unfolding collect
  collect-IsListed [] r r' run listed = let same : r ≡ r' = cc in subst IsListed same listed
  collect-IsListed ((ab, b) ∷ rest) r r' run listed =
      let (r1, added, more) = >>=-eq-some (add_ids ab b.id r) _ run in
      collect-IsListed rest r1 r' more (add_ids-IsListed ab b.id r r1 added listed)

  collect-IsKnown :
      (v : ℕ) (bs : Dict AddressBackend (StatBackend F)) (r r' : Ring)
      → collect bs r ≡ some r'
      → IsKnown v r ⊎ ((o : AddressBackend) × Owns o v bs)
      → IsKnown v r'
  unfolding collect
  collect-IsKnown v [] r r' run (inl known) = let same : r ≡ r' = cc in subst (IsKnown v) same known
  collect-IsKnown v [] r r' run (inr (o, owns)) = absurd owns
  collect-IsKnown v ((ab, b) ∷ rest) r r' run known =
      let (r1, added, more) = >>=-eq-some (add_ids ab b.id r) _ run in
      collect-IsKnown v rest r1 r' more (next r1 added known)
    where
      next :
          (r1 : Ring)
          → add_ids ab b.id r ≡ some r1
          → IsKnown v r ⊎ ((o : AddressBackend) × (((o ≡ ab) × HasValue v b.id) ⊎ Owns o v rest))
          → IsKnown v r1 ⊎ ((o : AddressBackend) × Owns o v rest)
      next r1 added (inl old) = inl (add_ids-IsKnown ab v b.id r r1 added (inl old))
      next r1 added (inr (o, inl (same, has))) =
          inl (add_ids-IsKnown ab v b.id r r1 added (inr has))
      next r1 added (inr (o, inr owns)) = inr (o, owns)

  -- Every value that a backend has gets an owner.
  pub collect-IsKnown_fresh :
      (v : ℕ) (o : AddressBackend) (bs : Dict AddressBackend (StatBackend F)) (r : Ring)
      → collect bs (record { ids2backend = []; ids = [] }) ≡ some r
      → Owns o v bs
      → IsKnown v r
  collect-IsKnown_fresh v o bs r run owns =
      collect-IsKnown v bs (record { ids2backend = []; ids = [] }) r run (inr (o, owns))

  -- Every value is listed once.
  pub collect-IsListed_fresh :
      (bs : Dict AddressBackend (StatBackend F)) (r : Ring)
      → collect bs (record { ids2backend = []; ids = [] }) ≡ some r
      → IsListed r
  unfolding times lookup
  collect-IsListed_fresh bs r run =
      collect-IsListed bs (record { ids2backend = []; ids = [] }) r run (λ v. refl)

  -- In the ring that Finalize collects, every value of an identifier of any backend has an owner, and
  -- it is listed exactly once.
  pub collect_complete :
      (v : ℕ) (o : AddressBackend) (bs : Dict AddressBackend (StatBackend F)) (r : Ring)
      → collect bs (record { ids2backend = []; ids = [] }) ≡ some r
      → Owns o v bs
      → ((owner : AddressBackend) × (lookup v r.ids2backend ≡ some owner)) × (times v r.ids ≡ 1)
  collect_complete v o bs r run owns =
      let (owner, known) = collect-IsKnown_fresh v o bs r run owns in
      ((owner, known), collect-IsListed_fresh bs r run v ∙ ap once known)
