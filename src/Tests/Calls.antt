-- ===== src/Tests/Calls.antt =====
-- A bulk write of two blobs, statistics of a server, remotes, settings, and texts of addresses.
use elliptics_go.Base.{
  ℕ, ◌≡◌, List, [], ◌∷◌, arith, map, Option, none, some, refl, String, Bool, false, All, take, ap,
}
use elliptics_go.Base.Int.{ℤ, pos, negsuc}
use elliptics_go.Base.Eq.{nat_eq}
use elliptics_go.Base.Text.{concat, show_ℕ}
use elliptics_go.Errors.{ok}
use elliptics_go.Wire.Address.{CDnetAddr, DnetAddr, new_dnet_addr}
use elliptics_go.Wire.Attributes.{DnetIoAttr, EllIoAttr}
use elliptics_go.Wire.Texts.{new_dnet_addr_str, addr_string, host_string}
use elliptics_go.Wire.Texts.Created.{Reads, addr_string-new_dnet_addr_str}
use elliptics_go.Node.{remote_error, no_remotes, add_remotes}
use elliptics_go.Node.Remotes.{add_remotes_outcomes}
use elliptics_go.Route.{CDnetRouteEntry, new_route_entry}
use elliptics_go.Route.Shares.{IsRoute}
use elliptics_go.Session.Results.{zero_ioattr}
use elliptics_go.Session.World.{World, start}
use elliptics_go.Session.Requests.Refused.{Refused}
use elliptics_go.Session.Settings.{
  Session, Setting, groups, filter, get_groups, change_all, session_set_groups,
  session_set_filter_positive,
}
use elliptics_go.Session.Settings.Last.{change_all-get_groups}
use elliptics_go.Tests.Samples.{whole, sample_c_addr, route}

abbrev attr_of : ℕ → DnetIoAttr
attr_of n = record zero_ioattr { id = n ∷ []; size = 2 }

abbrev attrs : List DnetIoAttr
attrs = attr_of 5 ∷ attr_of 4 ∷ []

abbrev contents : List (List ℕ)
contents = (1 ∷ 2 ∷ []) ∷ (3 ∷ []) ∷ []

abbrev blank : EllIoAttr
blank = record {
  id = none;
  parent = none;
  start = 0;
  num = 0;
  user_flags = 0;
  total_size = 0;
  flags = 0;
  offset = 0;
  size = 0;
}

-- C has room for every attribute.
abbrev room : ℕ → Option EllIoAttr
room k = some blank

abbrev digits : List ℕ → String
digits ns = concat (map show_ℕ ns)

abbrev unordered : String → String → Bool
unordered a b = false

abbrev routes : List CDnetRouteEntry
routes = route 3 (pos 3) ∷ route 128 (pos 4) ∷ []

routes-IsRoute : All (IsRoute 8) routes
unfolding new_route_entry new_dnet_addr
routes-IsRoute = ground arith

-- No server of the list answers.
abbrev unreachable : List (Option String) → ℕ → ℤ
unreachable cargs n = negsuc 5

abbrev remotes : List String
remotes = "a:1025:2" ∷ "b:1025:2" ∷ []

add_remotes_outcomes_example :
    (add_remotes unreachable [] ≡ some (some (no_remotes "list of remotes is empty"), []))
    × (add_remotes unreachable remotes
        ≡ some (
          remote_error (unreachable (some "a:1025:2" ∷ some "b:1025:2" ∷ []) 2),
          (some "a:1025:2" ∷ some "b:1025:2" ∷ []) ∷ [],
        ))
add_remotes_outcomes_example = add_remotes_outcomes unreachable "a:1025:2" ("b:1025:2" ∷ [])

abbrev new : Session
new = record { groups = []; told = [] }

abbrev settings : List Setting
settings = groups (1 ∷ []) ∷ filter (pos 1) ∷ filter (pos 7) ∷ groups (2 ∷ 3 ∷ []) ∷ []

change_all-get_groups_example :
    (s' : Session) × (change_all settings new ≡ some s')
    × (get_groups s' ≡ 2 ∷ 3 ∷ [])
    × (s'.told
        ≡ session_set_groups (1 ∷ [])
          ∷ session_set_filter_positive
          ∷ session_set_groups (2 ∷ 3 ∷ [])
          ∷ [])
unfolding get_groups
change_all-get_groups_example =
    change_all-get_groups settings new (omega arith, (_, (_, (omega arith, _))))

-- An address, as the bytes that are read of it.
abbrev bytes_text : CDnetAddr → String
bytes_text a = digits (take a.addr_len a.addr)

bytes_text-Reads : Reads bytes_text
unfolding new_dnet_addr
bytes_text-Reads x y same = ap (λ a. digits a.addr) same

abbrev accept : String → CDnetAddr × ℤ
accept s = (sample_c_addr, pos 0)

addr_string-new_dnet_addr_str_example :
    (a : DnetAddr) × (new_dnet_addr_str accept "10.0.0.1:1025:2" ≡ ok a)
    × (addr_string 32 sample_c_addr bytes_text a
        ≡ concat (bytes_text sample_c_addr ∷ ":" ∷ show_ℕ 2 ∷ []))
    × (host_string 32 sample_c_addr bytes_text a ≡ bytes_text sample_c_addr)
unfolding new_dnet_addr
addr_string-new_dnet_addr_str_example =
    addr_string-new_dnet_addr_str 32 sample_c_addr accept bytes_text bytes_text "10.0.0.1:1025:2" 0
      (omega arith) bytes_text-Reads bytes_text-Reads refl (omega arith) (omega arith)
