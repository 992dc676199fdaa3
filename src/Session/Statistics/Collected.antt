-- ===== src/Session/Statistics/Collected.antt =====
-- What DnetStat() of elliptics/stat.go collects.
use elliptics_go.Base.{
  ℕ, ◌≤◌, ◌≡◌, ◌∙◌, refl, ap, List, [], ◌∷◌, Option, some, All, length, map, if◌then◌else◌,
}
use elliptics_go.Base.Int.{ℤ}
use elliptics_go.Base.Eq.{nat_eq, string_eq, ◌==◌}
use elliptics_go.Base.Float.{Floats}
use elliptics_go.Base.Word.{max_uint64}
use elliptics_go.Json.{Response}
use elliptics_go.Stat.Types.{DnetStat, StatBackend, AddressBackend, zero_time}
use elliptics_go.Stat.Entry.{StatEntry}
use elliptics_go.Stat.Entry.Laws.{reported_all, add_stat_entry-places}
use elliptics_go.Stat.Find.{backend_at}
use elliptics_go.Stat.Ring.Total.{total}
use elliptics_go.Route.{CDnetRouteEntry, get_routes}
use elliptics_go.Route.Shares.{IsRoute, get_routes-total}
use elliptics_go.Session.Results.{stat_item}
use elliptics_go.Session.Statistics.{collect_stats, dnet_stat}

module _ {F : Type 0} ⦃fl : Floats F⦄ (unmarshal : List ℕ → Response) (now : ℤ) where
  -- What one entry makes of a place.
  abbrev pub entry_at :
      ℕ → AddressBackend → StatEntry → Option (StatBackend F) → Option (StatBackend F)
  entry_at g a e b =
      if (unmarshal e.stat).monitor_status == "enabled"
      then reported_all now e.addr g a (unmarshal e.stat).backends b
      else b

  unfoldable pub entries_at :
      ℕ → AddressBackend → List StatEntry → Option (StatBackend F) → Option (StatBackend F)
  entries_at g a [] b = b
  entries_at g a (e ∷ es) b = entries_at g a es (entry_at g a e b)

  collect_stats-places :
      (es : List StatEntry) (st : DnetStat F)
      → All (λ e. length e.addr.addr ≤ 32) es
      → (st' : DnetStat F) × (collect_stats unmarshal now (map stat_item es) st ≡ some st')
        × ((g : ℕ) (a : AddressBackend)
            → backend_at g a st' ≡ entries_at g a es (backend_at g a st))
  unfolding collect_stats entries_at
  collect_stats-places [] st small = (st, refl, λ g a. refl)
  collect_stats-places (e ∷ es) st (one, small) =
      let (st1, added, _, places) = add_stat_entry-places unmarshal now e st one in
      let (st2, rest, others) = collect_stats-places es st1 small in
      (st2, rw added rest, λ g a. others g a ∙ ap (entries_at g a es) (places g a))

  -- DnetStat() with a routing table whose addresses have at most 32 bytes and whose identifiers have
  -- at least eight, each below 256, and with entries whose addresses have at most 32 bytes: it
  -- returns. Before the entries, the shares of the backends of each group add up to the whole ring;
  -- after them, the statistics at each place, a group with a backend's key, are those of the routing
  -- table changed by every entry in the order in which they came, and by nothing else.
  pub dnet_stat-places :
      (id_size : ℕ) (routes : List CDnetRouteEntry) (es : List StatEntry)
      → All (IsRoute id_size) routes
      → All (λ e. length e.addr.addr ≤ 32) es
      → (routed : DnetStat F) × (st : DnetStat F) × (get_routes id_size now routes
            (record { time = zero_time; group = [] })
          ≡ some routed)
        × All (λ g. total g.1.ab ≡ max_uint64) routed.group
        × (dnet_stat unmarshal id_size now routes (map stat_item es) ≡ some st)
        × ((g : ℕ) (a : AddressBackend)
            → backend_at g a st ≡ entries_at g a es (backend_at g a routed))
  unfolding dnet_stat
  dnet_stat-places id_size routes es are small =
      let (routed, run, whole, _) = get_routes-total id_size now zero_time routes are in
      let (st, rest, places) = collect_stats-places es routed small in
      (routed, st, run, whole, rw run rest, places)
