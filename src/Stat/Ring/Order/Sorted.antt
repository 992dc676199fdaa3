-- ===== src/Stat/Ring/Order/Sorted.antt =====
-- Sorting the identifiers of the backends, as Finalize of elliptics/stat.go does, changes none of them.
use elliptics_go.Base.{ℕ, ◌≡◌, List, [], ◌∷◌, some, Bool, Bool-cases, inl, inr, ◌⊎◌}
use elliptics_go.Base.Dict.{Dict}
use elliptics_go.Base.Eq.{nat_eq}
use elliptics_go.Wire.{DnetRawId}
use elliptics_go.Stat.Types.{AddressBackend, StatBackend, address_backend_eq}
use elliptics_go.Stat.Ring.{id_value, sort_backends}
use elliptics_go.Stat.Ring.Sort.{insert_sorted, sort, sort_ids, id_less}
use elliptics_go.Stat.Ring.Points.Owners.{HasValue, Owns}

module _ (less : DnetRawId → DnetRawId → Bool) (v : ℕ) where
  HasValue-insert_sorted :
      (x : DnetRawId) (xs : List DnetRawId)
      → HasValue v (insert_sorted less x xs)
      → HasValue v (x ∷ xs)
  unfolding insert_sorted
  HasValue-insert_sorted x [] has = has
  HasValue-insert_sorted x (y ∷ ys) has = elim (Bool-cases (less y x)) [
    | inl e ↦
        let either : (id_value y.id ≡ some v) ⊎ HasValue v (insert_sorted less x ys) =
          rw e at has in
        elim either [
          | inl here ↦ inr (inl here)
          | inr there ↦ elim (HasValue-insert_sorted x ys there) [
            | inl new ↦ inl new
            | inr old ↦ inr (inr old)
          ]
        ]
    | inr e ↦ rw e at has
  ]

  insert_sorted-HasValue :
      (x : DnetRawId) (xs : List DnetRawId)
      → HasValue v (x ∷ xs)
      → HasValue v (insert_sorted less x xs)
  unfolding insert_sorted
  insert_sorted-HasValue x [] has = has
  insert_sorted-HasValue x (y ∷ ys) has = elim (Bool-cases (less y x)) [
    | inl e ↦ rw e (elim has [
      | inl new ↦ inr (insert_sorted-HasValue x ys (inl new))
      | inr (inl here) ↦ inl here
      | inr (inr old) ↦ inr (insert_sorted-HasValue x ys (inr old))
    ])
    | inr e ↦ rw e has
  ]

  HasValue-sort : (xs : List DnetRawId) → HasValue v (sort less xs) → HasValue v xs
  unfolding sort
  HasValue-sort [] has = has
  HasValue-sort (x ∷ xs) has = elim (HasValue-insert_sorted x (sort less xs) has) [
    | inl new ↦ inl new
    | inr old ↦ inr (HasValue-sort xs old)
  ]

  sort-HasValue : (xs : List DnetRawId) → HasValue v xs → HasValue v (sort less xs)
  unfolding sort
  sort-HasValue [] has = has
  sort-HasValue (x ∷ xs) (inl new) = insert_sorted-HasValue x (sort less xs) (inl new)
  sort-HasValue (x ∷ xs) (inr old) =
      insert_sorted-HasValue x (sort less xs) (inr (sort-HasValue xs old))

module _ {F : Type 0} (o : AddressBackend) (v : ℕ) where
  pub Owns-sort_backends :
      (bs : Dict AddressBackend (StatBackend F)) → Owns o v (sort_backends bs) → Owns o v bs
  unfolding sort_backends sort_ids
  Owns-sort_backends [] owns = owns
  Owns-sort_backends ((ab, b) ∷ bs) (inl (same, has)) = inl (same, HasValue-sort id_less v b.id has)
  Owns-sort_backends ((ab, b) ∷ bs) (inr owns) = inr (Owns-sort_backends bs owns)

  pub sort_backends-Owns :
      (bs : Dict AddressBackend (StatBackend F)) → Owns o v bs → Owns o v (sort_backends bs)
  unfolding sort_backends sort_ids
  sort_backends-Owns [] owns = owns
  sort_backends-Owns ((ab, b) ∷ bs) (inl (same, has)) = inl (same, sort-HasValue id_less v b.id has)
  sort_backends-Owns ((ab, b) ∷ bs) (inr owns) = inr (sort_backends-Owns bs owns)
