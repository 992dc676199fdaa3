-- ===== src/Stat/Find/Laws.antt =====
-- What FindBackend and a write through its pointer do to every place of the statistics.
use elliptics_go.Base.{
  ℕ, ◌≡◌, ◌≢◌, ◌≤◌, length, refl, inl, inr, Option, none, some, Bool, true, ◌&&◌, if◌then◌else◌,
  arith, Option-cases, Bool-cases,
}
use elliptics_go.Base.Int.{ℤ}
use elliptics_go.Base.Dict.{lookup, insert, lookup-insert, lookup-insert_self, insert-insert}
use elliptics_go.Base.Eq.{nat_eq}
use elliptics_go.Base.Float.{Floats}
use elliptics_go.Wire.Address.{DnetAddr}
use elliptics_go.Stat.Types.{
  AddressBackend, StatBackend, StatGroup, DnetStat, address_backend_eq, address_backend_eqb,
  address_backend_eqb_iff, new_stat_backend, new_stat_group,
}
use elliptics_go.Stat.Address.{new_address_backend}
use elliptics_go.Stat.Find.{
  backend_at, write_backend, place_backend, found_group, find_backend, found_backend,
}
use elliptics_go.Base.{eqb, eqb_iff}

abbrev pub same_place : ℕ → AddressBackend → ℕ → AddressBackend → Bool
same_place group ab g a = eqb group g && address_backend_eqb ab a

module _ {F : Type 0} (group : ℕ) (ab : AddressBackend) (b : StatBackend F)
    (stat : DnetStat F) where
  abbrev Placed : ℕ → AddressBackend → Option (StatBackend F) → Type 0
  Placed g a r = r ≡ (if same_place group ab g a then some b else backend_at g a stat)

  pub lookup-found_group :
      (a : AddressBackend) → lookup a (found_group group stat).ab ≡ backend_at group a stat
  unfolding backend_at found_group lookup new_stat_group
  lookup-found_group a = elim (Option-cases (lookup group stat.group)) [
    | inl e ↦ rw (e, found_group, backend_at) refl
    | inr (sg, e) ↦ rw (e, found_group, backend_at) refl
  ]

  backend_at-place_backend :
      (g : ℕ) (a : AddressBackend) → Placed g a (backend_at g a (place_backend group ab b stat))
  unfolding place_backend backend_at
  backend_at-place_backend g a = rw (lookup-insert {K = ℕ}) (elim (Bool-cases (eqb group g)) [
    | inl e ↦
        let same : group ≡ g = (eqb_iff group g).0 e in
        rw (e, ← same, lookup-insert {K = AddressBackend}, lookup-found_group a) refl
    | inr e ↦ rw e refl
  ])

  write_backend-place_backend :
      backend_at group ab stat ≢ none
      → write_backend group ab b stat ≡ place_backend group ab b stat
  unfolding write_backend place_backend backend_at found_group
  write_backend-place_backend found = ground arith

  -- The second write to a place is the one that counts.
  pub write_backend-place_backend_self :
      (c : StatBackend F)
      → write_backend group ab c (place_backend group ab b stat) ≡ place_backend group ab c stat
  unfolding write_backend place_backend
  write_backend-place_backend_self c =
      let sg : StatGroup F = record { ab = insert ab b (found_group group stat).ab } in
      rw (lookup-insert_self group sg stat.group, write_backend, place_backend)
        (rw (insert-insert {K = ℕ}, insert-insert {K = AddressBackend}) refl)

  pub time-write_backend : (write_backend group ab b stat).time ≡ stat.time
  unfolding write_backend
  time-write_backend = ground arith

  -- A write through a pointer that FindBackend returned.
  pub backend_at-write_backend :
      backend_at group ab stat ≢ none
      → (g : ℕ) (a : AddressBackend) → Placed g a (backend_at g a (write_backend group ab b stat))
  backend_at-write_backend found g a =
      rw (write_backend-place_backend found) (backend_at-place_backend g a)

module _ {F : Type 0} ⦃fl : Floats F⦄ where
  -- What FindBackend finds, or makes.
  abbrev pub at_or_new : ℤ → Option (StatBackend F) → StatBackend F
  at_or_new now none = new_stat_backend now
  at_or_new now (some b) = b

  found_backend_lem :
      (now : ℤ) (group : ℕ) (ab : AddressBackend) (stat : DnetStat F)
      → found_backend now ab (found_group group stat) ≡ at_or_new now (backend_at group ab stat)
  unfolding found_backend
  found_backend_lem now group ab stat =
      ground (arith, lookup-found_group group ab (new_stat_backend now) stat ab)

  -- A call that returns has placed the backend that it found or made, and changed no other place.
  pub find_backend_lem :
      (now : ℤ) (group : ℕ) (addr : DnetAddr) (id : ℤ) (stat stat' : DnetStat F)
      (ab : AddressBackend)
      → find_backend now group addr id stat ≡ some (stat', ab)
      → (new_address_backend addr id ≡ some ab)
        × (stat' ≡ place_backend group ab (at_or_new now (backend_at group ab stat)) stat)
  unfolding find_backend
  find_backend_lem now group addr id stat stat' ab h =
      ground (arith, found_backend_lem now group ab stat)

  -- A call of FindBackend that returns has found the backend of the group, or made it with the
  -- clock's reading `now`: it is then at its place, and every other place is as it was.
  pub backend_at-find_backend :
      (now : ℤ) (group : ℕ) (addr : DnetAddr) (id : ℤ) (stat stat' : DnetStat F)
      (ab : AddressBackend)
      → find_backend now group addr id stat ≡ some (stat', ab)
      → (g : ℕ) (a : AddressBackend)
      → backend_at g a stat' ≡ (
          if same_place group ab g a
          then some (at_or_new now (backend_at group ab stat))
          else backend_at g a stat)
  backend_at-find_backend now group addr id stat stat' ab h g a =
      rw ((find_backend_lem now group addr id stat stat' ab h).1)
        (backend_at-place_backend group ab (at_or_new now (backend_at group ab stat)) stat g a)

  pub find_backend_total :
      (now : ℤ) (group : ℕ) (addr : DnetAddr) (id : ℤ) (stat : DnetStat F)
      → length addr.addr ≤ 32
      → (ab : AddressBackend) × (stat' : DnetStat F) × (new_address_backend addr id ≡ some ab)
        × (find_backend now group addr id stat ≡ some (stat', ab))
        × (stat'.time ≡ stat.time)
  unfolding find_backend new_address_backend place_backend
  find_backend_total now group addr id stat h = elim (Option-cases (new_address_backend addr id)) [
    | inl e ↦ absurd (ground arith)
    | inr (ab, e) ↦ (
      ab,
      place_backend group ab (found_backend now ab (found_group group stat)) stat,
      e,
      rw (e, find_backend) refl,
      refl,
    )
  ]

pub same_place_refl : (g : ℕ) (a : AddressBackend) → same_place g a g a ≡ true
same_place_refl g a = ground (arith, eqb_iff g g, address_backend_eqb_iff a a)

pub same_place-backend_at :
    {F : Type 0} (group : ℕ) (ab : AddressBackend) (g : ℕ) (a : AddressBackend) (stat : DnetStat F)
    → same_place group ab g a ≡ true
    → backend_at group ab stat ≡ backend_at g a stat
same_place-backend_at group ab g a stat h =
    ground (arith, eqb_iff group g, address_backend_eqb_iff ab a)
