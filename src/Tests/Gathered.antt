-- ===== src/Tests/Gathered.antt =====
-- DnetStat() with two answers of servers, a read that begins between them, and an error at the end.
use elliptics_go.Base.{
  ℕ, ◌+◌, ◌*◌, ◌<◌, ◌≡◌, List, [], ◌∷◌, ◌++◌, arith, length, Option, none, some, refl, String, true,
  All,
}
use elliptics_go.Base.Int.{pos}
use elliptics_go.Base.Dict.{lookup, insert}
use elliptics_go.Base.Eq.{nat_eq}
use elliptics_go.Base.Word.{add64, u64_mod}
use elliptics_go.Errors.{text}
use elliptics_go.Pool.{initial, get, store, next_context}
use elliptics_go.Stat.Types.{DnetStat, AddressBackend, zero_time}
use elliptics_go.Stat.Find.{backend_at}
use elliptics_go.Route.{CDnetRouteEntry, new_route_entry, get_routes}
use elliptics_go.Route.Shares.{IsRoute}
use elliptics_go.Wire.Address.{new_dnet_addr}
use elliptics_go.Session.World.{
  reads, stats, World, Channel, start, send, make_chan, new_context, remember, issue,
}
use elliptics_go.Session.Callback.{
  stat_reply, result_callback, call_result, outcome, send_outcome, final_callback,
}
use elliptics_go.Session.Requests.{open_request, register}
use elliptics_go.Session.Delivery.{Event, reply, begin, step, run}
use elliptics_go.Session.Delivery.Begin.{Orderly}
use elliptics_go.Session.Delivery.History.{Permits}
use elliptics_go.Session.Statistics.{ask_stats, dnet_stat}
use elliptics_go.Session.Statistics.Collected.{entries_at}
use elliptics_go.Session.Statistics.Gathered.{heard, last_entry, IsEntry, dnet_stat_gathers}
use elliptics_go.Tests.Samples.{whole, sample_entry, sample_reply, route}

abbrev no_keys_found : List String → List ℕ → Option String
no_keys_found keys id = none

abbrev told_events : List Event
told_events =
    reply 1 (stat_reply sample_entry) ∷ begin reads ∷ reply 1 (stat_reply sample_entry) ∷ []

unfoldable told_world : World
told_world = elim (run no_keys_found told_events (ask_stats start).0) [ some w ↦ w | none ↦ start ]

run-told_events : run no_keys_found told_events (ask_stats start).0 ≡ some told_world
unfolding told_world start initial run step ask_stats open_request register make_chan new_context
    next_context remember store get lookup insert add64 result_callback call_result outcome
    send_outcome send issue
run-told_events = refl

start-Orderly : Orderly none start
unfolding start initial get lookup
start-Orderly k v e = absurd (cc)

told_permitted : All (Permits (open_request stats start).1 stats) told_events
unfolding start initial open_request register make_chan new_context next_context add64
told_permitted = ((λ e. tt, omega arith), (tt, ((λ e. tt, omega arith), tt)))

abbrev table : List CDnetRouteEntry
table = route 3 (pos 3) ∷ route 128 (pos 4) ∷ []

table-IsRoute : All (IsRoute 8) table
unfolding new_route_entry new_dnet_addr
table-IsRoute = ground arith

told_entries : All IsEntry (heard (open_request stats start).1.r told_events)
unfolding heard start initial open_request register make_chan new_context next_context add64
told_entries = (omega arith, (omega arith, tt))

told_room : start.pool.counter + 2 + 3 * length told_events < u64_mod
unfolding start initial
told_room = omega arith

dnet_stat_gathers_example :
    let o = (open_request stats start).1 in
    let entries = heard o.r told_events ++ last_entry (some (text "timeout")) in
    (ended : World) × (c : Channel) × (routed : DnetStat ℕ) × (st : DnetStat ℕ) × (final_callback
        o.f
        (some (text "timeout"))
        told_world
      ≡ some ended)
    × (lookup (ask_stats start).1 ended.chans ≡ some c)
    × (c.closed ≡ true)
    × (get_routes 8 (pos 5) table (record { time = zero_time; group = [] }) ≡ some routed)
    × (dnet_stat sample_reply 8 (pos 5) table c.sent ≡ some st)
    × ((g : ℕ) (a : AddressBackend)
        → backend_at g a st ≡ entries_at sample_reply (pos 5) g a entries (backend_at g a routed))
dnet_stat_gathers_example =
    dnet_stat_gathers no_keys_found sample_reply (pos 5) 8 table told_events (some (text "timeout"))
      start told_world start-Orderly told_permitted told_room run-told_events table-IsRoute
      told_entries
