-- ===== src/Session/Statistics/Gathered.antt =====
-- DnetStat() of elliptics/stat.go whole: the request, what servers answer while other requests run,
-- the end of its channel, and what is collected from it.
use elliptics_go.Base.{
  ℕ, ◌+◌, ◌*◌, ◌≤◌, ◌<◌, ◌≡◌, refl, sym, ap, subst, List, [], ◌∷◌, ◌++◌, Option, none, some, String,
  true, arith, All, length, map, if◌then◌else◌, eqb, eqb_iff, Bool-cases, inl, inr, All-append,
}
use elliptics_go.Base.Int.{ℤ}
use elliptics_go.Base.Dict.{lookup}
use elliptics_go.Base.Eq.{nat_eq}
use elliptics_go.Base.Float.{Floats}
use elliptics_go.Base.Word.{u64_mod}
use elliptics_go.Errors.{Error}
use elliptics_go.Json.{Response}
use elliptics_go.Stat.Types.{DnetStat, AddressBackend, zero_time}
use elliptics_go.Stat.Entry.{StatEntry}
use elliptics_go.Stat.Find.{backend_at}
use elliptics_go.Route.{CDnetRouteEntry, get_routes}
use elliptics_go.Route.Shares.{IsRoute}
use elliptics_go.Session.Results.{stat_item, stat_error}
use elliptics_go.Session.World.{stats, World, Channel, issue}
use elliptics_go.Session.Callback.{Reply, stat_reply, error_item, final_callback}
use elliptics_go.Session.Requests.{Opened, open_request}
use elliptics_go.Session.Delivery.{
  Event, reply, final, begin, begin_write, begin_upload, begin_status, run, Fits, Live, answer,
}
use elliptics_go.Session.Delivery.Own.{ending, final_callback-own}
use elliptics_go.Session.Delivery.Begin.{Orderly, open_request-begins}
use elliptics_go.Session.Delivery.History.{Permits, share, answers, run-Live}
use elliptics_go.Session.Statistics.{ask_stats, dnet_stat}
use elliptics_go.Session.Statistics.Collected.{entries_at, dnet_stat-places}

-- What servers answer to a request, in order.
abbrev pub heard_in : ℕ → Event → List StatEntry
heard_in r (reply k (stat_reply e)) = if eqb k r then e ∷ [] else []
heard_in r _ = []

unfoldable pub heard : ℕ → List Event → List StatEntry
heard r [] = []
heard r (e ∷ es) = heard_in r e ++ heard r es

-- The entry of an error at the end.
abbrev pub last_entry : Option Error → List StatEntry
last_entry none = []
last_entry (some e) = stat_error e ∷ []

map_append :
    (xs ys : List StatEntry) → map stat_item (xs ++ ys) ≡ map stat_item xs ++ map stat_item ys
map_append [] ys = refl
map_append (x ∷ xs) ys = ap (λ zs. stat_item x ∷ zs) (map_append xs ys)

module _ (keys_find : List String → List ℕ → Option String) (o : Opened) (ks : List String) where
  reply-heard :
      (k : ℕ) (r : Reply)
      → (k ≡ o.r → Fits stats r)
      → share keys_find o stats ks (reply k r) ≡ map stat_item (heard_in o.r (reply k r))
  unfolding answer
  reply-heard k (stat_reply e) fits = elim (Bool-cases (eqb k o.r)) [
    | inl own ↦ rw own refl
    | inr other ↦ rw other refl
  ]
  reply-heard k r fits = elim (Bool-cases (eqb k o.r)) [
    | inl own ↦ absurd (fits ((eqb_iff k o.r).0 own))
    | inr other ↦ rw other refl
  ]

  share-heard :
      (e : Event)
      → Permits o stats e
      → share keys_find o stats ks e ≡ map stat_item (heard_in o.r e)
  share-heard (reply k r) (fits, ne) = reply-heard k r fits
  share-heard (final k e) permits = refl
  share-heard (begin h) permits = refl
  share-heard (begin_write bytes) permits = refl
  share-heard (begin_upload u) permits = refl
  share-heard begin_status permits = refl

  answers-heard :
      (es : List Event)
      → All (Permits o stats) es
      → answers keys_find o stats ks es ≡ map stat_item (heard o.r es)
  unfolding answers heard
  answers-heard [] permits = refl
  answers-heard (e ∷ es) (one, rest) =
      rw (share-heard e one, answers-heard es rest)
        (sym (map_append (heard_in o.r e) (heard o.r es)))

ending-last_entry : (err : Option Error) → ending stats err ≡ map stat_item (last_entry err)
unfolding error_item
ending-last_entry none = refl
ending-last_entry (some e) = refl

ask_stats-Live :
    (w : World)
    → Orderly none w
    → w.pool.counter + 2 < u64_mod
    → Live (open_request stats w).1 stats [] [] (w.pool.counter + 2) (ask_stats w).0
unfolding ask_stats issue
ask_stats-Live w orderly lt =
    let live = open_request-begins stats [] w orderly tt lt in
    record {
      result = live.result;
      finisher = live.finisher;
      channel = live.channel;
      keys = tt;
      known = live.known;
      room = live.room;
      apart = live.apart;
    }

-- The shape of an answering server's address.
abbrev pub IsEntry : StatEntry → Type 0
IsEntry e = length e.addr.addr ≤ 32

last_entry-IsEntry : (err : Option Error) → All IsEntry (last_entry err)
last_entry-IsEntry none = tt
last_entry-IsEntry (some e) = (omega arith, tt)

-- DnetStat() in an orderly world, among any events of the other requests: their results, their ends
-- and new requests, while fewer than 2^64 contexts can have been handed out and nothing panics. C
-- gives it results of its kind, takes neither of its contexts for the other, and has not ended it.
-- The routing table's addresses have at most 32 bytes and its identifiers at least eight, each below
-- 256; the addresses of the servers that answer have at most 32 bytes. Then the end of the request
-- does not panic and closes its channel, and DnetStat() returns: the statistics at each place are
-- those of the routing table changed by every answer in the order in which they came, by the entry
-- of the error of the end, if there is one, and by nothing else.
pub dnet_stat_gathers :
    {F : Type 0} ⦃fl : Floats F⦄ (keys_find : List String → List ℕ → Option String)
    (unmarshal : List ℕ → Response) (now : ℤ) (id_size : ℕ) (routes : List CDnetRouteEntry)
    (es : List Event) (err : Option Error) (w w' : World)
    → Orderly none w
    → All (Permits (open_request stats w).1 stats) es
    → w.pool.counter + 2 + 3 * length es < u64_mod
    → run keys_find es (ask_stats w).0 ≡ some w'
    → All (IsRoute id_size) routes
    → All IsEntry (heard (open_request stats w).1.r es)
    → let o = (open_request stats w).1 in
      let entries = heard o.r es ++ last_entry err in
      (ended : World) × (c : Channel) × (routed : DnetStat F) × (st : DnetStat F) × (final_callback
          o.f err w'
        ≡ some ended)
      × (lookup (ask_stats w).1 ended.chans ≡ some c)
      × (c.closed ≡ true)
      × (get_routes id_size now routes (record { time = zero_time; group = [] }) ≡ some routed)
      × (dnet_stat unmarshal id_size now routes c.sent ≡ some st)
      × ((g : ℕ) (a : AddressBackend)
          → backend_at g a st ≡ entries_at unmarshal now g a entries (backend_at g a routed))
unfolding ask_stats
dnet_stat_gathers keys_find unmarshal now id_size routes es err w w' orderly permits lt went are
      small =
    let o : Opened = (open_request stats w).1 in
    let live = ask_stats-Live w orderly (omega arith) in
    let live' =
      run-Live keys_find o stats [] es [] (w.pool.counter + 2) (ask_stats w).0 w' live permits lt
        went in
    let (ended, went_on, (closed, _, _)) = final_callback-own live' err in
    let entries = heard o.r es ++ last_entry err in
    let sent : answers keys_find o stats [] es ++ ending stats err ≡ map stat_item entries =
      rw (answers-heard keys_find o [] es permits, ending-last_entry err)
        (sym (map_append (heard o.r es) (last_entry err))) in
    let (routed, st, run_routes, whole, collected, places) =
      dnet_stat-places unmarshal now id_size routes entries are
        (All-append IsEntry (heard o.r es) (last_entry err) small (last_entry-IsEntry err)) in
    (
      ended,
      record { sent = map stat_item entries; closed = true },
      routed,
      st,
      went_on,
      subst (λ items. lookup o.ch ended.chans ≡ some (record { sent = items; closed = true })) sent
          closed,
      refl,
      run_routes,
      collected,
      places,
    )
