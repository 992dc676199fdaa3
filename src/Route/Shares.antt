-- ===== src/Route/Shares.antt =====
-- From a routing table to shares: the totals of the groups after GetRoutes.
use elliptics_go.Base.{
  ℕ, ◌≤◌, ◌<◌, ◌≡◌, ◌≢◌, refl, List, [], ◌∷◌, none, some, arith, length, All, All-append,
  Option-cases, inl, inr, length-append, ◌∙◌,
}
use elliptics_go.Base.Int.{ℤ}
use elliptics_go.Base.Word.{max_uint64}
use elliptics_go.Base.Dict.{Dict, lookup, insert, All-insert, All-lookup}
use elliptics_go.Base.Eq.{nat_eq}
use elliptics_go.Base.Float.{Floats}
use elliptics_go.Stat.Types.{
  AddressBackend, StatBackend, StatGroup, DnetStat, address_backend_eq, new_stat_backend,
  new_stat_group,
}
use elliptics_go.Stat.Find.{backend_at, place_backend, found_group}
use elliptics_go.Stat.Find.Laws.{
  at_or_new, find_backend_lem, find_backend_total, backend_at-find_backend, same_place_refl,
  write_backend-place_backend_self, lookup-found_group,
}
use elliptics_go.Stat.Ring.{finalize_groups, finalize_stat}
use elliptics_go.Stat.Ring.Total.{total, finalize-total}
use elliptics_go.Stat.Ring.Total.Collected.{IsId, AllIds, ids_of}
use elliptics_go.Route.Groups.{Has, Keeps, insert-Has, insert-Keeps, cons-Keeps, All-Has}
use elliptics_go.Route.{
  CDnetRouteEntry, RouteEntry, new_route_entry, with_id, add_route_entry, add_routes, get_routes,
}

-- A backend to which only FindBackend and AddRouteEntry were applied.
abbrev pub Unshared : {F : Type 0} → StatBackend F → Type 0
Unshared b = (b.sum ≡ 0) × All IsId b.id

abbrev pub Routed : {F : Type 0} → StatGroup F → Type 0
Routed sg = All (λ e. Unshared e.1) sg.ab × (0 < ids_of sg.ab)

abbrev pub AllRouted : {F : Type 0} → DnetStat F → Type 0
AllRouted stat = All (λ e. Routed e.1) stat.group

-- What the C library reports of a backend: an address that fits, an identifier of full length.
abbrev pub IsRoute : ℕ → CDnetRouteEntry → Type 0
IsRoute id_size e =
    (length (new_route_entry id_size e).addr.addr ≤ 32)
    × IsId (record { id = (new_route_entry id_size e).id })

module _ {F : Type 0} where
  ids_of-insert :
      (ab : AddressBackend) (b : StatBackend F) (bs : Dict AddressBackend (StatBackend F))
      → length b.id ≤ ids_of (insert ab b bs)
  unfolding insert
  ids_of-insert ab b [] = omega arith
  ids_of-insert ab b ((j, c) ∷ bs) = ground (arith, ids_of-insert ab b bs)

  found_group-Unshared :
      (group : ℕ) (stat : DnetStat F)
      → AllRouted stat
      → All (λ e. Unshared e.1) (found_group group stat).ab
  unfolding found_group new_stat_group
  found_group-Unshared group stat h = elim (Option-cases (lookup group stat.group)) [
    | inl e ↦ rw (e, found_group) tt
    | inr (sg, e) ↦ rw (e, found_group) (All-lookup Routed group sg stat.group h e).0
  ]

  place_backend-AllRouted :
      (group : ℕ) (ab : AddressBackend) (b : StatBackend F) (stat : DnetStat F)
      → AllRouted stat
      → Unshared b
      → 0 < length b.id
      → AllRouted (place_backend group ab b stat)
  unfolding place_backend
  place_backend-AllRouted group ab b stat h u n =
      let bs = (found_group group stat).ab in
      All-insert (λ e. Routed e.1) group (record { ab = insert ab b bs }) stat.group
        (λ j. (
          All-insert (λ e. Unshared e.1) ab b bs (λ k. u) (found_group-Unshared group stat h),
          omega (arith, ids_of-insert ab b bs),
        ))
        h

module _ {F : Type 0} ⦃fl : Floats F⦄ where
  at_or_new-Unshared :
      (now : ℤ) (group : ℕ) (ab : AddressBackend) (stat : DnetStat F)
      → AllRouted stat
      → Unshared (at_or_new now (backend_at group ab stat))
  unfolding new_stat_backend
  at_or_new-Unshared now group ab stat h = elim (Option-cases (backend_at group ab stat)) [
    | inl e ↦ rw e (refl, tt)
    | inr (b, e) ↦ rw e (
        All-lookup Unshared ab b (found_group group stat).ab (found_group-Unshared group stat h)
          (lookup-found_group group ab b stat ab ∙ e))
  ]

  add_route_entry-AllRouted :
      (now : ℤ) (entry : RouteEntry) (stat : DnetStat F)
      → length entry.addr.addr ≤ 32
      → IsId (record { id = entry.id })
      → AllRouted stat
      → (stat' : DnetStat F) × (add_route_entry now entry stat ≡ some stat')
        × AllRouted stat'
        × Keeps stat.group stat'.group
        × Has stat'.group entry.group
  unfolding add_route_entry place_backend
  add_route_entry-AllRouted now entry stat h id all =
      let (ab, found, key, call, _) =
        find_backend_total now entry.group entry.addr entry.backend stat h in
      let (_, placed) =
        find_backend_lem now entry.group entry.addr entry.backend stat found ab call in
      let b = at_or_new now (backend_at entry.group ab stat) in
      let here : backend_at entry.group ab found ≡ some b =
        rw
          (backend_at-find_backend now entry.group entry.addr entry.backend stat found ab call
            entry.group ab)
          (rw (same_place_refl entry.group ab) refl) in
      let u = at_or_new-Unshared now entry.group ab stat all in
      (
        place_backend entry.group ab (with_id entry.id b) stat,
        rw (call, here, placed)
            (rw (write_backend-place_backend_self entry.group ab b stat (with_id entry.id b)) refl),
        place_backend-AllRouted entry.group ab (with_id entry.id b) stat all
            (u.0, All-append IsId b.id (record { id = entry.id } ∷ []) u.1 (id, tt))
            (omega (arith, length-append b.id (record { id = entry.id } ∷ []))),
        insert-Keeps entry.group _ stat.group,
        insert-Has entry.group _ stat.group,
      )

  add_routes-AllRouted :
      (id_size : ℕ) (now : ℤ) (entries : List CDnetRouteEntry) (stat : DnetStat F)
      → All (IsRoute id_size) entries
      → AllRouted stat
      → (stat' : DnetStat F) × (add_routes id_size now entries stat ≡ some stat')
        × AllRouted stat'
        × Keeps stat.group stat'.group
        × All (λ e. Has stat'.group e.group_id) entries
  unfolding add_routes new_route_entry
  add_routes-AllRouted id_size now [] stat hs all = (stat, refl, all, λ g has. has, tt)
  add_routes-AllRouted id_size now (e ∷ es) stat hs all =
      let (s, run, all', keeps, here) =
        add_route_entry-AllRouted now (new_route_entry id_size e) stat hs.0.0 hs.0.1 all in
      let (s', run', all'', keeps', there) = add_routes-AllRouted id_size now es s hs.1 all' in
      (
        s',
        rw (run, run') refl,
        all'',
        λ g has. keeps' g (keeps g has),
        (keeps' e.group_id here, there),
      )

  Unshared-AllIds :
      (bs : Dict AddressBackend (StatBackend F))
      → All (λ e. Unshared e.1) bs
      → AllIds bs × (total bs ≡ 0)
  Unshared-AllIds [] h = (tt, refl)
  Unshared-AllIds ((ab, b) ∷ bs) h =
      let (ids, t) = Unshared-AllIds bs h.1 in ((h.0.1, ids), omega (arith, h.0.0))

  finalize_groups-total :
      (gs : Dict ℕ (StatGroup F))
      → All (λ e. Routed e.1) gs
      → (gs' : Dict ℕ (StatGroup F)) × (finalize_groups gs ≡ some gs')
        × All (λ e. total e.1.ab ≡ max_uint64) gs'
        × Keeps gs gs'
  unfolding finalize_groups
  finalize_groups-total [] h = ([], refl, tt, λ g has. has)
  finalize_groups-total ((group, sg) ∷ gs) h =
      let (ids, t) = Unshared-AllIds sg.ab h.0.0 in
      let (sg', run, t') = finalize-total sg ids t h.0.1 in
      let (gs', run', ts, keeps) = finalize_groups-total gs h.1 in
      ((group, sg') ∷ gs', rw (run, run') refl, (t', ts), cons-Keeps group sg sg' gs gs' keeps)

  -- For new statistics and a routing table whose addresses have at most 32 bytes and whose
  -- identifiers have at least eight, each below 256: GetRoutes returns; the result has the group of
  -- every entry, and in each of its groups the shares of the backends add up to math.MaxUint64,
  -- the whole ring.
  pub get_routes-total :
      (id_size : ℕ) (now time : ℤ) (entries : List CDnetRouteEntry)
      → All (IsRoute id_size) entries
      → (stat' : DnetStat F) × (get_routes id_size now entries (record { time = time; group = [] })
          ≡ some stat')
        × All (λ e. total e.1.ab ≡ max_uint64) stat'.group
        × All (λ e. lookup e.group_id stat'.group ≢ none) entries
  unfolding get_routes finalize_stat
  get_routes-total id_size now time entries hs =
      let start : DnetStat F = record { time = time; group = [] } in
      let (s, run, all, _, there) = add_routes-AllRouted id_size now entries start hs tt in
      let (gs, run', ts, keeps) = finalize_groups-total s.group all in
      (record s { group = gs }, rw (run, run') refl, ts, All-Has entries s.group gs keeps there)
