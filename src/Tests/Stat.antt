-- ===== src/Tests/Stat.antt =====
-- Statistics: a routing table, replies of servers, differences and updates.
use elliptics_go.Base.{
  ℕ, ◌≡◌, ◌≢◌, List, [], ◌∷◌, map, arith, length, none, some, refl, All, if◌then◌else◌, ◌%◌, ◌^◌,
}
use elliptics_go.Base.Int.{pos}
use elliptics_go.Base.Word.{max_uint64, u64_mod}
use elliptics_go.Base.Dict.{lookup, insert}
use elliptics_go.Base.Eq.{nat_eq, string_eq}
use elliptics_go.Stat.Types.{
  AddressBackend, DnetStat, StatGroup, new_stat_backend, address_backend_eqb,
}
use elliptics_go.Stat.Address.{new_address_backend, dnet_addr, new_address_backend-dnet_addr}
use elliptics_go.Stat.Find.{backend_at, find_backend}
use elliptics_go.Stat.Find.Laws.{same_place, at_or_new, backend_at-find_backend}
use elliptics_go.Stat.Ring.{finalize}
use elliptics_go.Stat.Ring.Points.Owners.{Owns, collect-Owns}
use elliptics_go.Base.Dict.{insert}
use elliptics_go.Stat.Ring.{add_id, add_ids, id_value}
use elliptics_go.Stat.Ring.{Ring, collect, sort_backends}
use elliptics_go.Stat.Ring.Sort.{sort_uint64}
use elliptics_go.Stat.Ring.Points.{points}
use elliptics_go.Stat.Ring.Points.Credits.{sum_at, finalize-points}
use elliptics_go.Base.{last_or, ◌*◌, ◌^◌}
use elliptics_go.Stat.Ring.Order.Counts.{times}
use elliptics_go.Stat.Ring.Order.Known.{collect_complete}
use elliptics_go.Stat.Ring.Total.{total, finalize-total}
use elliptics_go.Stat.Entry.{add_stat_entry}
use elliptics_go.Stat.Entry.Laws.{reply_time}
use elliptics_go.Stat.Entry.Parts.{AfterReply, add_stat_entry_parts}
use elliptics_go.Stat.Diff.{diff, other}
use elliptics_go.Stat.Diff.Laws.{duration_of, Merged, diff-places}
use elliptics_go.Stat.Report.{stat_group_data, backend_data}
use elliptics_go.Stat.Report.Laws.{sum_of, stat_group_data-sums}
use elliptics_go.Route.{CDnetRouteEntry, get_routes, new_route_entry}
use elliptics_go.Wire.Address.{new_dnet_addr}
use elliptics_go.Route.Shares.{get_routes-total, IsRoute}
use elliptics_go.Tests.Samples.{
  whole, sample_addr, sample_key, sample_group, sample_stat, sample_entry, sample_reply, owner,
  route, raw_id,
}

abbrev table : List CDnetRouteEntry
table = route 3 (pos 3) ∷ route 128 (pos 4) ∷ route 60 (pos 3) ∷ []

table-IsRoute : All (IsRoute 8) table
unfolding new_route_entry new_dnet_addr
table-IsRoute = ground arith

-- Three identifiers on two backends of one server.
get_routes-total_example :
    (stat' : DnetStat ℕ) × (get_routes 8 (pos 5) table (record { time = pos 5; group = [] })
      ≡ some stat')
    × All (λ e. total e.1.ab ≡ max_uint64) stat'.group
    × All (λ e. lookup e.group_id stat'.group ≢ none) table
get_routes-total_example = get_routes-total 8 (pos 5) (pos 5) table table-IsRoute

-- One backend with two identifiers.
finalize-total_example :
    (g' : StatGroup ℕ) × (finalize sample_group ≡ some g') × (total g'.ab ≡ max_uint64)
unfolding owner new_stat_backend
finalize-total_example = finalize-total sample_group (ground arith) (ground arith) (ground arith)

abbrev sample_ring : Ring
sample_ring = record {
  ids2backend = (128 * 2 ^ 56, sample_key) ∷ (3 * 2 ^ 56, sample_key) ∷ [];
  ids = 128 * 2 ^ 56 ∷ 3 * 2 ^ 56 ∷ [];
}

sample_collected :
    collect sample_group.ab (record { ids2backend = []; ids = [] }) ≡ some sample_ring
unfolding collect add_ids add_id id_value lookup insert owner new_stat_backend
sample_collected = refl

sample_owner : lookup (3 * 2 ^ 56) sample_ring.ids2backend ≡ some sample_key
unfolding lookup
sample_owner = refl

collect-Owns_example : Owns sample_key (3 * 2 ^ 56) sample_group.ab
collect-Owns_example =
    collect-Owns sample_group.ab sample_ring (3 * 2 ^ 56) sample_key sample_collected sample_owner

collect_complete_example :
    ((o : AddressBackend) × (lookup (3 * 2 ^ 56) sample_ring.ids2backend ≡ some o))
    × (times (3 * 2 ^ 56) sample_ring.ids ≡ 1)
collect_complete_example =
    collect_complete (3 * 2 ^ 56) sample_key sample_group.ab sample_ring sample_collected (
      collect-Owns sample_group.ab sample_ring (3 * 2 ^ 56) sample_key sample_collected
        sample_owner)

finalize-points_example :
    (r : Ring) × (g' : StatGroup ℕ) × (collect
        (sort_backends sample_group.ab)
        (record { ids2backend = []; ids = [] })
      ≡ some r)
    × (finalize sample_group ≡ some g')
    × ((ab : AddressBackend)
        → sum_at ab g'.ab
          ≡ points r.ids2backend ab
              (last_or 0 (sort_uint64 r.ids))
              (sort_uint64 r.ids)
              0
              max_uint64)
unfolding owner new_stat_backend
finalize-points_example = finalize-points sample_group (ground arith) (ground arith) (ground arith)

-- A reply about the backend 3.
add_stat_entry_parts_example :
    (stat' : DnetStat ℕ) × (add_stat_entry sample_reply (pos 5) sample_entry (sample_stat (pos 5))
      ≡ some stat')
    × (stat'.time ≡ reply_time (sample_reply sample_entry.stat))
    × ((g : ℕ) (a : AddressBackend)
        → AfterReply
            (pos 5)
            sample_entry.addr
            (sample_reply sample_entry.stat)
            g
            a
            (backend_at g a (sample_stat (pos 5)))
            (backend_at g a stat'))
add_stat_entry_parts_example =
    add_stat_entry_parts sample_reply (pos 5) sample_entry (sample_stat (pos 5)) (omega arith)

-- Two samples, two seconds apart.
diff-places_example :
    Merged
      (duration_of (sample_stat (pos 7_000_000_000)) (sample_stat (pos 5_000_000_000)))
      sample_key
      (some sample_group)
      (some sample_group)
      (backend_at 1 sample_key
        (diff (sample_stat (pos 7_000_000_000)) (other (sample_stat (pos 5_000_000_000)))))
unfolding lookup
diff-places_example =
    diff-places (sample_stat (pos 7_000_000_000)) (sample_stat (pos 5_000_000_000)) 1 sample_key

-- A backend that was not known.
abbrev found_key : AddressBackend
found_key = record { addr = sample_key.addr; backend = pos 4 }

abbrev found_stat : DnetStat ℕ
unfolding new_stat_backend
found_stat = record {
  time = pos 5;
  group =
      (
        1,
        record {
          ab =
              (sample_key, owner (raw_id 128 ∷ raw_id 3 ∷ []))
              ∷ (found_key, new_stat_backend (pos 9))
              ∷ [];
        },
      )
      ∷ [];
}

find_new :
    find_backend (pos 9) 1 sample_addr (pos 4) (sample_stat (pos 5)) ≡ some (found_stat, found_key)
unfolding find_backend new_address_backend found_stat insert lookup address_backend_eqb
find_new = refl

backend_at-find_backend_example : backend_at 1 sample_key found_stat ≡ (
    if same_place 1 found_key 1 sample_key
    then some (at_or_new (pos 9) (backend_at 1 found_key (sample_stat (pos 5))))
    else backend_at 1 sample_key (sample_stat (pos 5)))
backend_at-find_backend_example =
    backend_at-find_backend (pos 9) 1 sample_addr (pos 4) (sample_stat (pos 5)) found_stat found_key
      find_new 1 sample_key

-- An IPv4 address.
new_address_backend-dnet_addr_example :
    (k : AddressBackend) × (new_address_backend sample_addr (pos 3) ≡ some k)
    × (dnet_addr k.addr ≡ sample_addr)
    × (k.backend ≡ pos 3)
    × (length k.addr.addr ≡ 32)
new_address_backend-dnet_addr_example =
    new_address_backend-dnet_addr sample_addr (pos 3) (omega arith)

-- A group of one backend.
stat_group_data-sums_example :
    let r = stat_group_data (λ a. "10.0.0.1:1025:2") sample_group in
    (r.backends ≡ map (λ e. backend_data (λ a. "10.0.0.1:1025:2") e.0 e.1) sample_group.ab)
    × (r.records_total ≡ sum_of (λ v. v.records_total) sample_group.ab % u64_mod)
    × (r.records_removed ≡ sum_of (λ v. v.records_removed) sample_group.ab % u64_mod)
    × (r.records_corrupted ≡ sum_of (λ v. v.records_corrupted) sample_group.ab % u64_mod)
stat_group_data-sums_example = stat_group_data-sums (λ a. "10.0.0.1:1025:2") sample_group
