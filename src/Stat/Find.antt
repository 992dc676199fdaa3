-- ===== src/Stat/Find.antt =====
-- Access to a backend's statistics in elliptics/stat.go: FindBackend, FindStatBackend and
-- FindStatBackendKey. A *StatBackend is named by its place, the group and the key.
pub mod Laws
use elliptics_go.Base.{
  ℕ, ◌≡◌, List, [], ◌∷◌, Option, none, some, Bool, true, false, ◌>>=◌, String, if◌then◌else◌,
}
use elliptics_go.Base.Int.{ℤ, pos, negsuc}
use elliptics_go.Base.Text.{concat, show_ℕ, show_ℤ}
use elliptics_go.Base.Dict.{Dict, lookup, insert}
use elliptics_go.Base.Eq.{nat_eq}
use elliptics_go.Base.Float.{Floats}
use elliptics_go.Errors.{DnetError, Error, dnet, text, error_string, Result, ok, err}
use elliptics_go.Wire.Address.{DnetAddr}
use elliptics_go.Stat.Types.{
  AddressBackend, StatBackend, StatGroup, DnetStat, address_backend_eq, new_stat_backend,
  new_stat_group,
}
use elliptics_go.Stat.Address.{new_address_backend}

module _ {F : Type 0} where
  -- What a pointer to the backend reads.
  unfoldable pub backend_at : ℕ → AddressBackend → DnetStat F → Option (StatBackend F)
  backend_at group ab stat = do sg ← lookup group stat.group; lookup ab sg.ab

  -- A write through the pointer.
  unfoldable pub write_backend : ℕ → AddressBackend → StatBackend F → DnetStat F → DnetStat F
  write_backend group ab b stat = elim (lookup group stat.group) [
    | none ↦ stat
    | some sg ↦ record stat { group = insert group (record { ab = insert ab b sg.ab }) stat.group }
  ]

  -- The group of FindBackend, made if it is missing.
  unfoldable pub found_group : ℕ → DnetStat F → StatGroup F
  unfolding new_stat_group
  found_group group stat = elim (lookup group stat.group) [ none ↦ new_stat_group | some sg ↦ sg ]

  -- The two map writes of FindBackend: the backend into its group, the group into the statistics.
  unfoldable pub place_backend : ℕ → AddressBackend → StatBackend F → DnetStat F → DnetStat F
  unfolding found_group
  place_backend group ab b stat =
      let sg = found_group group stat in
      record stat { group = insert group (record { ab = insert ab b sg.ab }) stat.group }

  -- (sg *StatGroup) FindStatBackend; `addr_string` is (a *DnetAddr) String, which asks the C
  -- library. The outer `none` is the fatal error of NewAddressBackend.
  unfoldable pub find_stat_backend :
      (DnetAddr → String) → DnetAddr → ℤ → StatGroup F → Option (Result (StatBackend F))
  find_stat_backend addr_string addr backend_id sg = do
    ab ← new_address_backend addr backend_id
    some (elim (lookup ab sg.ab) [
      | none ↦ err (
          dnet (record {
            code = negsuc 1;
            flags = 0;
            message = concat (
                "could not find statistics for addr: "
                ∷ addr_string addr
                ∷ ", backend: "
                ∷ show_ℤ backend_id
                ∷ []);
          }))
      | some st ↦ ok st
    ])

  -- FindStatBackendKey, from the answer of Session.LookupBackend.
  unfoldable pub find_stat_backend_key :
      (DnetAddr → String)
      → Result (DnetAddr × ℤ)
      → String
      → ℕ
      → StatGroup F
      → Option (Result (StatBackend F))
  find_stat_backend_key addr_string (err e) key group_id sg = some (
      err (
        dnet (record {
          code = negsuc 1;
          flags = 0;
          message = concat (
              "could not find backend for key: "
              ∷ key
              ∷ ", group: "
              ∷ show_ℕ group_id
              ∷ ": "
              ∷ error_string e
              ∷ []);
        })))
  find_stat_backend_key addr_string (ok (addr, backend_id)) key group_id sg =
      find_stat_backend addr_string addr backend_id sg

module _ {F : Type 0} ⦃fl : Floats F⦄ where
  -- The backend of FindBackend, made if it is missing.
  unfoldable pub found_backend : ℤ → AddressBackend → StatGroup F → StatBackend F
  found_backend now ab sg = elim (lookup ab sg.ab) [ none ↦ new_stat_backend now | some b ↦ b ]

  -- (stat *DnetStat) FindBackend: the new state, and the backend's key. `now` is the clock's
  -- reading for a new controller; `none` is the fatal error of NewAddressBackend.
  unfoldable pub find_backend :
      ℤ → ℕ → DnetAddr → ℤ → DnetStat F → Option (DnetStat F × AddressBackend)
  unfolding found_group found_backend place_backend
  find_backend now group addr backend_id stat = do
    ab ← new_address_backend addr backend_id
    some (place_backend group ab (found_backend now ab (found_group group stat)) stat, ab)
