-- ===== src/Route.antt =====
-- elliptics/route.go: the routing table, which tells the statistics which identifiers each backend
-- holds. C.session_get_routes calls go_route_callback once for each entry and then returns, so a
-- call of GetRoutes is a list of entries. The context of the call lives within it; see Session.
pub mod Groups
pub mod Shares
pub mod Texts
use elliptics_go.Base.{ℕ, ◌≡◌, List, [], ◌∷◌, ◌++◌, Option, none, some, ◌>>=◌, take}
use elliptics_go.Base.Int.{ℤ}
use elliptics_go.Base.Float.{Floats}
use elliptics_go.Wire.{DnetRawId}
use elliptics_go.Wire.Address.{DnetAddr, CDnetAddr, new_dnet_addr}
use elliptics_go.Stat.Types.{DnetStat, StatBackend}
use elliptics_go.Stat.Find.{backend_at, write_backend, find_backend}
use elliptics_go.Stat.Ring.{finalize_stat}

-- struct dnet_route_entry
pub record CDnetRouteEntry : Type 0 where
  pub id : List ℕ
  pub addr : CDnetAddr
  pub group_id : ℕ
  pub backend_id : ℤ

pub record RouteEntry : Type 0 where
  pub id : List ℕ
  pub addr : DnetAddr
  pub group : ℕ
  pub backend : ℤ

-- `id_size` is DNET_ID_SIZE.
unfoldable pub new_route_entry : ℕ → CDnetRouteEntry → RouteEntry
unfolding new_dnet_addr
new_route_entry id_size e = record {
  id = take id_size e.id;
  addr = new_dnet_addr e.addr;
  group = e.group_id;
  backend = e.backend_id;
}

module _ {F : Type 0} ⦃fl : Floats F⦄ where
  abbrev pub with_id : List ℕ → StatBackend F → StatBackend F
  with_id id b = record b { id = b.id ++ record { id = id } ∷ [] }

  -- (stat *DnetStat) AddRouteEntry; `none` is the fatal error of NewAddressBackend.
  unfoldable pub add_route_entry : ℤ → RouteEntry → DnetStat F → Option (DnetStat F)
  add_route_entry now entry stat = do
    (found, ab) ← find_backend now entry.group entry.addr entry.backend stat
    b ← backend_at entry.group ab found
    some (write_backend entry.group ab (with_id entry.id b) found)

  add_routes : ℕ → ℤ → List CDnetRouteEntry → DnetStat F → Option (DnetStat F)
  add_routes id_size now [] stat = some stat
  add_routes id_size now (e ∷ es) stat = do
    stat' ← add_route_entry now (new_route_entry id_size e) stat
    add_routes id_size now es stat'

  -- (s *Session) GetRoutes(stat), with the entries that the C library reports.
  unfoldable pub get_routes : ℕ → ℤ → List CDnetRouteEntry → DnetStat F → Option (DnetStat F)
  unfolding add_routes
  get_routes id_size now entries stat = do
    stat' ← add_routes id_size now entries stat
    finalize_stat stat'
