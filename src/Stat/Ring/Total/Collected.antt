-- ===== src/Stat/Ring/Total/Collected.antt =====
-- What the first loop of Finalize collects.
use elliptics_go.Base.{
  ℕ, ◌+◌, ◌≤◌, ◌<◌, ◌≡◌, ◌⊎◌, refl, List, [], ◌∷◌, none, some, arith, length, All, All-append,
  Option-cases, Bool-cases, inl, inr, eqb, length-append,
}
use elliptics_go.Base.Word.{u64_mod}
use elliptics_go.Base.Dict.{Dict, lookup, insert, lookup-insert}
use elliptics_go.Base.Eq.{nat_eq, eq_refl}
use elliptics_go.Wire.{DnetRawId}
use elliptics_go.Stat.Types.{AddressBackend, StatBackend, address_backend_eq, address_backend_eqb}
use elliptics_go.Stat.Ring.{Ring, id_value, add_id, add_ids, collect, sort_backends}
use elliptics_go.Stat.Ring.Sort.{sort_ids, id_less}
use elliptics_go.Stat.Ring.Total.Sorted.{All-sort, length-sort}

-- At least eight bytes, as every identifier of elliptics has.
abbrev pub IsId : DnetRawId → Type 0
IsId raw = (8 ≤ length raw.id) × All (λ b. b < 256) raw.id

id_value-lt :
    (bs : List ℕ)
    → 8 ≤ length bs
    → All (λ b. b < 256) bs
    → (v : ℕ) × (id_value bs ≡ some v) × (v < u64_mod)
unfolding id_value
id_value-lt (a ∷ b ∷ c ∷ d ∷ e ∷ f ∷ g ∷ h ∷ rest) n k = (_, refl, omega arith)
id_value-lt _ n k = absurd (omega arith)

length-insert_new :
    (val : ℕ) (ab : AddressBackend) (owners : Dict ℕ AddressBackend)
    → lookup val owners ≡ none
    → length (insert val ab owners) ≡ length owners + 1
unfolding lookup insert
length-insert_new val ab [] h = omega arith
length-insert_new val ab ((k, o) ∷ owners) h = ground (arith, length-insert_new val ab owners)

length-pos_of_lookup :
    (val : ℕ) (ab : AddressBackend) (owners : Dict ℕ AddressBackend)
    → lookup val owners ≡ some ab
    → 0 < length owners
unfolding lookup
length-pos_of_lookup val ab [] h = cc
length-pos_of_lookup val ab (x ∷ owners) h = omega arith

module _ {F : Type 0} where
  abbrev pub Known : Dict AddressBackend (StatBackend F) → AddressBackend → Type 0
  Known bs ab = (b : StatBackend F) × (lookup ab bs ≡ some b)

  -- The value has an owner, which is a backend of the group.
  abbrev pub Held : Dict ℕ AddressBackend → Dict AddressBackend (StatBackend F) → ℕ → Type 0
  Held owners bs id =
      (ab : AddressBackend) × (b : StatBackend F) × (lookup id owners ≡ some ab)
      × (lookup ab bs ≡ some b)

  abbrev pub Good : Dict AddressBackend (StatBackend F) → Ring → Type 0
  Good bs r =
      All (λ id. Held r.ids2backend bs id × (id < u64_mod)) r.ids
      × (length r.ids2backend ≡ length r.ids)

  Held-insert_owner :
      (owners : Dict ℕ AddressBackend) (bs : Dict AddressBackend (StatBackend F)) (val : ℕ)
      (ab : AddressBackend)
      → Known bs ab
      → (ids : List ℕ) → All (λ id. Held owners bs id × (id < u64_mod)) ids
      → All (λ id. Held (insert val ab owners) bs id × (id < u64_mod)) ids
  Held-insert_owner owners bs val ab known [] hs = tt
  Held-insert_owner owners bs val ab known (id ∷ ids) hs =
      ((held, hs.0.1), Held-insert_owner owners bs val ab known ids hs.1)
    where
      held : Held (insert val ab owners) bs id
      held = elim (Bool-cases (eqb val id)) [
        | inl s ↦ (ab, known.0, rw (lookup-insert {K = ℕ}, s) refl, known.1)
        | inr s ↦ (hs.0.0.0, hs.0.0.1, rw (lookup-insert {K = ℕ}, s) hs.0.0.2, hs.0.0.3)
      ]

  add_id-Good :
      (bs : Dict AddressBackend (StatBackend F)) (ab : AddressBackend) (val : ℕ) (r : Ring)
      → Known bs ab
      → val < u64_mod
      → Good bs r
      → Good bs (add_id ab val r) × (0 < length (add_id ab val r).ids)
  unfolding add_id
  add_id-Good bs ab val r known lt good = elim (Option-cases (lookup val r.ids2backend)) [
    | inl e ↦
        let own = insert val ab r.ids2backend in
        let mine : Held own bs val =
          (ab, known.0, rw (lookup-insert {K = ℕ}, eq_refl {K = ℕ}) refl, known.1) in
        rw (e, add_id)
          (
            (
              All-append (λ id. Held own bs id × (id < u64_mod)) r.ids (val ∷ [])
                  (Held-insert_owner r.ids2backend bs val ab known r.ids good.0) ((mine, lt), tt),
              omega (
                arith,
                length-insert_new val ab r.ids2backend e,
                length-append r.ids (val ∷ []),
                good.1,
              ),
            ),
            omega (arith, length-append r.ids (val ∷ [])),
          )
    | inr (o, e) ↦
        rw (e, add_id) (good, omega (arith, good.1, length-pos_of_lookup val o r.ids2backend e))
  ]

  add_ids-Good :
      (bs : Dict AddressBackend (StatBackend F)) (ab : AddressBackend) (raws : List DnetRawId)
      (r : Ring)
      → Known bs ab
      → All IsId raws
      → Good bs r
      → (r' : Ring) × (add_ids ab raws r ≡ some r')
        × Good bs r'
        × (0 < length r.ids + length raws → 0 < length r'.ids)
  unfolding add_ids
  add_ids-Good bs ab [] r known ids good = (r, refl, good, λ h. omega arith)
  add_ids-Good bs ab (raw ∷ raws) r known ids good =
      let (val, e, lt) = id_value-lt raw.id ids.0.0 ids.0.1 in
      let (good', pos) = add_id-Good bs ab val r known lt good in
      let (r', run, good'', keep) = add_ids-Good bs ab raws (add_id ab val r) known ids.1 good' in
      (r', rw (e, run) refl, good'', λ h. keep (omega arith))

  abbrev pub ids_of : Dict AddressBackend (StatBackend F) → ℕ
  ids_of [] = 0
  ids_of ((_, b) ∷ bs) = length b.id + ids_of bs

  pub collect-Good :
      (bs rest : Dict AddressBackend (StatBackend F)) (r : Ring)
      → All (λ e. Known bs e.0 × All IsId e.1.id) rest
      → Good bs r
      → (r' : Ring) × (collect rest r ≡ some r')
        × Good bs r'
        × (0 < length r.ids + ids_of rest → 0 < length r'.ids)
  unfolding collect
  collect-Good bs [] r hs good = (r, refl, good, λ h. omega arith)
  collect-Good bs ((ab, b) ∷ rest) r hs good =
      let (r1, run1, good1, keep1) = add_ids-Good bs ab b.id r hs.0.0 hs.0.1 good in
      let (r2, run2, good2, keep2) = collect-Good bs rest r1 hs.1 good1 in
      (
        r2,
        rw (run1, run2) refl,
        good2,
        λ h. elim (length-cases (length r.ids + length b.id)) [
          | inl e ↦ keep2 (omega arith)
          | inr e ↦ keep2 (omega (arith, keep1 e))
        ],
      )
    where
      length-cases : (n : ℕ) → (n ≡ 0) ⊎ (0 < n)
      length-cases n = ground arith

  Known-cons :
      (e : AddressBackend × StatBackend F) (bs rest : Dict AddressBackend (StatBackend F))
      → All (λ x. Known bs x.0) rest
      → All (λ x. Known (e ∷ bs) x.0) rest
  unfolding lookup
  Known-cons e bs [] h = tt
  Known-cons e bs (x ∷ rest) h = (known, Known-cons e bs rest h.1)
    where
      known : Known (e ∷ bs) x.0
      known = elim (Bool-cases (address_backend_eqb e.0 x.0)) [
        | inl s ↦ (e.1, rw s refl)
        | inr s ↦ (h.0.0, rw s h.0.1)
      ]

  -- Each backend of the group is found by its key.
  Known-self : (bs : Dict AddressBackend (StatBackend F)) → All (λ e. Known bs e.0) bs
  unfolding lookup
  Known-self [] = tt
  Known-self (e ∷ bs) =
      ((e.1, rw (eq_refl {K = AddressBackend} e.0) refl), Known-cons e bs bs (Known-self bs))

  pub All-zip :
      (P Q : AddressBackend × StatBackend F → Type 0) (bs : Dict AddressBackend (StatBackend F))
      → All P bs
      → All Q bs
      → All (λ e. P e × Q e) bs
  All-zip P Q [] p q = tt
  All-zip P Q (e ∷ bs) p q = ((p.0, q.0), All-zip P Q bs p.1 q.1)

  abbrev pub AllIds : Dict AddressBackend (StatBackend F) → Type 0
  AllIds bs = All (λ e. All IsId e.1.id) bs

  sort_backends-AllIds :
      (bs : Dict AddressBackend (StatBackend F)) → AllIds bs → AllIds (sort_backends bs)
  unfolding sort_backends sort_ids
  sort_backends-AllIds [] h = tt
  sort_backends-AllIds ((ab, b) ∷ bs) h =
      (All-sort id_less IsId b.id h.0, sort_backends-AllIds bs h.1)

  pub ids_of-sort_backends :
      (bs : Dict AddressBackend (StatBackend F)) → ids_of (sort_backends bs) ≡ ids_of bs
  unfolding sort_backends sort_ids
  ids_of-sort_backends [] = refl
  ids_of-sort_backends ((ab, b) ∷ bs) =
      omega (arith, length-sort id_less b.id, ids_of-sort_backends bs)

  -- The first loop, from an empty ring.
  pub collect-sorted :
      (bs : Dict AddressBackend (StatBackend F))
      → AllIds bs
      → let sorted = sort_backends bs in
        (r : Ring) × (collect sorted (record { ids2backend = []; ids = [] }) ≡ some r)
        × Good sorted r
        × (0 < ids_of bs → 0 < length r.ids)
  collect-sorted bs h =
      let sorted = sort_backends bs in
      let (r, run, good, keep) =
        collect-Good sorted sorted (record { ids2backend = []; ids = [] })
          (All-zip (λ e. Known sorted e.0) (λ e. All IsId e.1.id) sorted (Known-self sorted)
            (sort_backends-AllIds bs h))
          (tt, refl) in
      (r, run, good, λ n. keep (omega (arith, ids_of-sort_backends bs)))
