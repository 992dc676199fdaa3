-- ===== src/Stat/Ring/Points/Owners.antt =====
-- Who owns an identifier in the first loop of Finalize of elliptics/stat.go.
use elliptics_go.Base.{
  ℕ, ◌≡◌, ◌∙◌, refl, sym, subst, List, [], ◌∷◌, some, >>=-eq-some, Bool-cases, Option-cases, inl,
  inr, ◌⊎◌, eqb, arith,
}
use elliptics_go.Base.Dict.{Dict, lookup, insert, lookup-insert}
use elliptics_go.Base.Eq.{nat_eq}
use elliptics_go.Wire.{DnetRawId}
use elliptics_go.Stat.Types.{AddressBackend, StatBackend}
use elliptics_go.Stat.Ring.{Ring, id_value, add_id, add_ids, collect}

-- One of the identifiers has this value.
abbrev pub HasValue : ℕ → List DnetRawId → Type 0
HasValue val [] = ⊥
HasValue val (raw ∷ raws) = (id_value raw.id ≡ some val) ⊎ HasValue val raws

add_id-lookup :
    (ab o : AddressBackend) (val v : ℕ) (r : Ring)
    → lookup v (add_id ab val r).ids2backend ≡ some o
    → (lookup v r.ids2backend ≡ some o) ⊎ ((o ≡ ab) × (v ≡ val))
unfolding add_id
add_id-lookup ab o val v r found = elim (Option-cases (lookup val r.ids2backend)) [
  | inl fresh ↦
      let added : (add_id ab val r).ids2backend ≡ insert val ab r.ids2backend =
        rw (add_id, fresh) refl in
      let inserted : lookup v (insert val ab r.ids2backend) ≡ some o =
        subst (λ m. lookup v m ≡ some o) added found in
      elim (Bool-cases (eqb val v)) [
        | inl same ↦
            let here : lookup v (insert val ab r.ids2backend) ≡ some ab =
              lookup-insert val v ab r.ids2backend ∙ simp same in
            let owner : o ≡ ab = cc in inr (owner, ground arith)
        | inr other ↦
            let there : lookup v (insert val ab r.ids2backend) ≡ lookup v r.ids2backend =
              lookup-insert val v ab r.ids2backend ∙ simp other in
            inl (sym there ∙ inserted)
      ]
  | inr (other, known) ↦
      let kept : (add_id ab val r).ids2backend ≡ r.ids2backend = rw (add_id, known) refl in
      inl (subst (λ m. lookup v m ≡ some o) kept found)
]

add_ids-lookup :
    (ab o : AddressBackend) (v : ℕ) (raws : List DnetRawId) (r r' : Ring)
    → add_ids ab raws r ≡ some r'
    → lookup v r'.ids2backend ≡ some o
    → (lookup v r.ids2backend ≡ some o) ⊎ ((o ≡ ab) × HasValue v raws)
unfolding add_ids
add_ids-lookup ab o v [] r r' run found =
    let same : r ≡ r' = cc in inl (subst (λ m. lookup v m.ids2backend ≡ some o) (sym same) found)
add_ids-lookup ab o v (raw ∷ raws) r r' run found =
    let (val, value, rest) = >>=-eq-some (id_value raw.id) _ run in
    elim (add_ids-lookup ab o v raws (add_id ab val r) r' rest found) [
      | inl before ↦ elim (add_id-lookup ab o val v r before) [
        | inl old ↦ inl old
        | inr (same, is) ↦ inr (same, inl (rw is value))
      ]
      | inr (same, has) ↦ inr (same, inr has)
    ]

module _ {F : Type 0} where
  -- The backend is in the group with an identifier of this value.
  abbrev pub Owns : AddressBackend → ℕ → Dict AddressBackend (StatBackend F) → Type 0
  Owns o v [] = ⊥
  Owns o v ((ab, b) ∷ rest) = ((o ≡ ab) × HasValue v b.id) ⊎ Owns o v rest

  collect-lookup :
      (o : AddressBackend) (v : ℕ) (bs : Dict AddressBackend (StatBackend F)) (r r' : Ring)
      → collect bs r ≡ some r'
      → lookup v r'.ids2backend ≡ some o
      → (lookup v r.ids2backend ≡ some o) ⊎ Owns o v bs
  unfolding collect
  collect-lookup o v [] r r' run found =
      let same : r ≡ r' = cc in inl (subst (λ m. lookup v m.ids2backend ≡ some o) (sym same) found)
  collect-lookup o v ((ab, b) ∷ rest) r r' run found =
      let (r1, added, more) = >>=-eq-some (add_ids ab b.id r) _ run in
      elim (collect-lookup o v rest r1 r' more found) [
        | inl before ↦ elim (add_ids-lookup ab o v b.id r r1 added before) [
          | inl old ↦ inl old
          | inr owns ↦ inr (inl owns)
        ]
        | inr owns ↦ inr (inr owns)
      ]

  -- In the ring that the first loop collects, the owner of a value is a backend of the group that has
  -- an identifier with that value.
  pub collect-Owns :
      (bs : Dict AddressBackend (StatBackend F)) (r : Ring) (v : ℕ) (o : AddressBackend)
      → collect bs (record { ids2backend = []; ids = [] }) ≡ some r
      → lookup v r.ids2backend ≡ some o
      → Owns o v bs
  unfolding lookup
  collect-Owns bs r v o run found =
      elim (collect-lookup o v bs (record { ids2backend = []; ids = [] }) r run found) [
        | inl before ↦ let absurd : ⊥ = cc in elim absurd [ ]
        | inr owns ↦ owns
      ]
