-- ===== src/Stat/Ring/Order.antt =====
-- Finalize of elliptics/stat.go against the order in which Go visits its maps, where no two backends
-- have identifiers of one value.
pub mod Counts
pub mod Known
pub mod Sorted
use elliptics_go.Base.{
  ℕ, All, ◌≤◌, ◌<◌, ◌≡◌, ◌∙◌, refl, sym, ap, subst, arith, List, [], ◌∷◌, Option, none, some, ◌>>=◌,
  >>=-eq-some, Bool, false, Bool-cases, Option-cases, inl, inr, ◌⊎◌, last_or, if◌then◌else◌,
}
use elliptics_go.Base.Word.{max_uint64}
use elliptics_go.Base.Dict.{Dict, lookup}
use elliptics_go.Base.Eq.{nat_eq, ◌==◌}
use elliptics_go.Base.Float.{Floats}
use elliptics_go.Wire.{DnetRawId}
use elliptics_go.Stat.Types.{
  AddressBackend, StatBackend, StatGroup, address_backend_eq, address_backend_eqb,
}
use elliptics_go.Stat.Ring.{
  Ring, id_value, sort_backends, collect, credit_ring, set_percentages, finalize,
}
use elliptics_go.Stat.Ring.Sort.{Ascending, insert_sorted, sort, sort_ids, sort_uint64, id_less}
use elliptics_go.Stat.Ring.Total.{total}
use elliptics_go.Stat.Ring.Total.Sorted.{Ascending-sort_uint64}
use elliptics_go.Stat.Ring.Total.Collected.{AllIds, ids_of}
use elliptics_go.Stat.Ring.Points.{owned, points, holder, count, count_ext}
use elliptics_go.Stat.Ring.Points.Owners.{HasValue, Owns, collect-Owns}
use elliptics_go.Stat.Ring.Points.Credits.{sum_at, finalize-points}
use Counts.{times, times-sort_uint64, eq_of_times}
use Known.{IsKnown, once, collect-IsKnown_fresh, collect-IsListed_fresh}
use Sorted.{Owns-sort_backends, sort_backends-Owns}

-- Two groups of which the second has all that the first has.
abbrev pub Covers : {F : Type 0} → StatGroup F → StatGroup F → Type 0
Covers g g' = (o : AddressBackend) (v : ℕ) → Owns o v g.ab → Owns o v g'.ab

-- No two backends have identifiers of one value.
abbrev pub IsSole : {F : Type 0} → StatGroup F → Type 0
IsSole g = (v : ℕ) (o o' : AddressBackend) → Owns o v g.ab → Owns o' v g.ab → o ≡ o'

abbrev no_ids : Ring
no_ids = record { ids2backend = []; ids = [] }

module _ {F : Type 0} (g g' : StatGroup F) (r r' : Ring)
    (run : collect (sort_backends g.ab) (record { ids2backend = []; ids = [] }) ≡ some r)
    (run' : collect (sort_backends g'.ab) (record { ids2backend = []; ids = [] }) ≡ some r')
    (sole : IsSole g) (to : Covers g g') (back : Covers g' g) where
  owner_in : (v : ℕ) (o : AddressBackend) → lookup v r.ids2backend ≡ some o → Owns o v g.ab
  owner_in v o e = Owns-sort_backends o v g.ab (collect-Owns (sort_backends g.ab) r v o run e)

  owner_in' : (v : ℕ) (o : AddressBackend) → lookup v r'.ids2backend ≡ some o → Owns o v g'.ab
  owner_in' v o e = Owns-sort_backends o v g'.ab (collect-Owns (sort_backends g'.ab) r' v o run' e)

  IsKnown-in : (v : ℕ) (o : AddressBackend) → Owns o v g.ab → IsKnown v r
  IsKnown-in v o owns =
      collect-IsKnown_fresh v o (sort_backends g.ab) r run (sort_backends-Owns o v g.ab owns)

  IsKnown-in' : (v : ℕ) (o : AddressBackend) → Owns o v g'.ab → IsKnown v r'
  IsKnown-in' v o owns =
      collect-IsKnown_fresh v o (sort_backends g'.ab) r' run' (sort_backends-Owns o v g'.ab owns)

  owners_same : (v : ℕ) → lookup v r.ids2backend ≡ lookup v r'.ids2backend
  owners_same v = elim (Option-cases (lookup v r.ids2backend)) [
    | inl absent ↦ elim (Option-cases (lookup v r'.ids2backend)) [
      | inl absent' ↦ absent ∙ sym absent'
      | inr (o', e') ↦
          let (o, e) = IsKnown-in v o' (back o' v (owner_in' v o' e')) in
          let absurd : ⊥ = cc in elim absurd [ ]
    ]
    | inr (o, e) ↦
        let (o', e') = IsKnown-in' v o (to o v (owner_in v o e)) in
        let same : o ≡ o' = sole v o o' (owner_in v o e) (back o' v (owner_in' v o' e')) in
        e ∙ ap some same ∙ sym e'
  ]

  ids_same : sort_uint64 r.ids ≡ sort_uint64 r'.ids
  ids_same =
      eq_of_times 0 0 (sort_uint64 r.ids) (sort_uint64 r'.ids) (Ascending-sort_uint64 r.ids)
        (Ascending-sort_uint64 r'.ids)
        (λ v.
          times-sort_uint64 v r.ids
          ∙ collect-IsListed_fresh (sort_backends g.ab) r run v
          ∙ ap once (owners_same v)
          ∙ sym (collect-IsListed_fresh (sort_backends g'.ab) r' run' v)
          ∙ sym (times-sort_uint64 v r'.ids))

  owned_same :
      (ab : AddressBackend) (id : ℕ) → owned r.ids2backend ab id ≡ owned r'.ids2backend ab id
  unfolding owned
  owned_same ab id =
      ap
        (λ (o : Option AddressBackend). elim o [ none ↦ false | some a ↦ address_backend_eqb a ab ])
        (owners_same id)

  points_same :
      (ab : AddressBackend) (a n : ℕ)
      → points r.ids2backend ab (last_or 0 (sort_uint64 r.ids)) (sort_uint64 r.ids) a n
        ≡ points r'.ids2backend ab (last_or 0 (sort_uint64 r'.ids)) (sort_uint64 r'.ids) a n
  unfolding points
  points_same ab a n =
      let ids = sort_uint64 r.ids in
      count_ext (λ v. owned r.ids2backend ab (holder (last_or 0 ids) ids v))
        (λ v. owned r'.ids2backend ab (holder (last_or 0 ids) ids v)) a n
        (λ v le. owned_same ab (holder (last_or 0 ids) ids v))
      ∙ ap (λ xs. count (λ v. owned r'.ids2backend ab (holder (last_or 0 xs) xs v)) a n) ids_same

module _ {F : Type 0} ⦃fl : Floats F⦄ where
  -- The percentage of a backend is its share of the ring.
  abbrev pub IsShare : AddressBackend × StatBackend F → Type 0
  IsShare e = e.1.percentage ≡ fl.div (fl.of_uint64 e.1.sum) (fl.of_uint64 max_uint64)

  set_percentages-IsShare :
      (bs : Dict AddressBackend (StatBackend F)) → All IsShare (set_percentages bs)
  unfolding set_percentages
  set_percentages-IsShare [] = tt
  set_percentages-IsShare ((ab, b) ∷ bs) = (refl, set_percentages-IsShare bs)

  finalize-IsShare : (g f : StatGroup F) → finalize g ≡ some f → All IsShare f.ab
  unfolding finalize
  finalize-IsShare g f run =
      let (r, run1, rest) = >>=-eq-some (collect (sort_backends g.ab) no_ids) _ run in
      let (bs, run2, last) =
        >>=-eq-some (credit_ring r.ids2backend (sort_uint64 r.ids) (sort_backends g.ab)) _ rest in
      let same : record { ab = set_percentages bs } ≡ f = cc in
      subst (λ x. All IsShare x.ab) same (set_percentages-IsShare bs)

  -- For two groups with fresh shares that have the same values of identifiers at the same backends,
  -- in whatever order, where no two backends have identifiers of one value, all identifiers have at
  -- least eight bytes, each below 256, and there is one: Finalize of both returns, a backend has the
  -- same share of the ring in both, and every percentage is that of the share. So the order in which
  -- Go visits the map of the backends does not matter.
  pub finalize-order :
      (g g' : StatGroup F)
      → AllIds g.ab
      → AllIds g'.ab
      → total g.ab ≡ 0
      → total g'.ab ≡ 0
      → 0 < ids_of g.ab
      → 0 < ids_of g'.ab
      → IsSole g
      → Covers g g'
      → Covers g' g
      → (f : StatGroup F) × (f' : StatGroup F) × (finalize g ≡ some f)
        × (finalize g' ≡ some f')
        × ((ab : AddressBackend) → sum_at ab f.ab ≡ sum_at ab f'.ab)
        × All IsShare f.ab
        × All IsShare f'.ab
  finalize-order g g' valid valid' fresh fresh' n n' sole to back =
      let (r, f, run, ends, shares) = finalize-points g valid fresh n in
      let (r', f', run', ends', shares') = finalize-points g' valid' fresh' n' in
      (
        f,
        f',
        ends,
        ends',
        λ ab.
            shares ab
            ∙ points_same g g' r r' run run' sole to back ab 0 max_uint64
            ∙ sym (shares' ab),
        finalize-IsShare g f ends,
        finalize-IsShare g' f' ends',
      )
