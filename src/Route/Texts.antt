-- ===== src/Route/Texts.antt =====
-- ID and String of RouteEntry in elliptics/route.go.
use elliptics_go.Base.{ℕ, List, [], ◌∷◌, String}
use elliptics_go.Base.Text.{concat, show_ℕ, show_ℤ}
use elliptics_go.Wire.Address.{CDnetAddr}
use elliptics_go.Wire.Texts.{addr_string}
use elliptics_go.Stat.Texts.{hex_digits}
use elliptics_go.Route.{RouteEntry}

unfoldable pub route_entry_id : RouteEntry → List ℕ
route_entry_id entry = entry.id

-- `addr_size` is DNET_ADDR_SIZE, `tmp` what dnet_addr_alloc gives, and `text_of` dnet_addr_string.
unfoldable pub route_entry_string : ℕ → CDnetAddr → (CDnetAddr → String) → RouteEntry → String
unfolding addr_string
route_entry_string addr_size tmp text_of r = concat (
    "route entry: "
    ∷ concat (hex_digits r.id)
    ∷ ": group: "
    ∷ show_ℕ r.group
    ∷ ", addr: "
    ∷ addr_string addr_size tmp text_of r.addr
    ∷ ": backend: "
    ∷ show_ℤ r.backend
    ∷ [])
