-- ===== src/Session/Delivery.antt =====
-- What a request delivers while other requests run: histories of callbacks and new requests, and
-- what holds of a request that is under way.
pub mod Frame
pub mod Steps
pub mod Own
pub mod Begin
pub mod Chunked
pub mod Opening
pub mod History
pub mod Shrinks
pub mod Order
use elliptics_go.Base.{
  ℕ, ◌+◌, ◌≤◌, ◌<◌, ◌≡◌, ◌≢◌, List, [], ◌∷◌, ◌++◌, Option, none, some, ◌>>=◌, String, Bool, true,
  false, if◌then◌else◌, eqb,
}
use elliptics_go.Base.Int.{eqb_ℤ, pos}
use elliptics_go.Base.Dict.{Dict, lookup, insert}
use elliptics_go.Base.Eq.{nat_eq}
use elliptics_go.Errors.{Error}
use elliptics_go.Pool.{ContextPool, get}
use elliptics_go.Session.Results.{
  Item, read_item, lookup_item, remove_item, find_item, entry_item, stat_item,
}
use elliptics_go.Session.World.{
  Handler, reads, bulk_reads, lookups, bulk_writes, removes, bulk_removes, finds, entries, unused,
  stats, Sink, to_channel, to_caller, nowhere, Value, on_result, on_finish, on_write,
  on_write_finish, on_chunk, on_chunk_finish, on_status, Upload, chunk, Channel, World, make_chan,
}
use elliptics_go.Session.Callback.{
  Reply, read_reply, lookup_reply, remove_reply, find_reply, entry_reply, stat_reply, error_item,
  bulk_read_item, bulk_write_item, bulk_remove_item, result_callback, final_callback,
}
use elliptics_go.Session.Requests.{Opened, open_request}
use elliptics_go.Session.Writes.{register_write}
use elliptics_go.Session.Uploads.{write_chunk}
use elliptics_go.Session.Backends.{open_status}

-- One thing that happens: a result or the end of a request comes from C, or the program makes a
-- request.
pub data Event : Type 0 where
  reply : ℕ → Reply → Event
  final : ℕ → Option Error → Event
  begin : Handler → Event
  begin_write : List ℕ → Event
  begin_upload : Upload → Event
  begin_status : Event

abbrev pub listed : Option Item → List Item
listed none = []
listed (some item) = item ∷ []

module _ (keys_find : List String → List ℕ → Option String) where
  unfoldable pub step : Event → World → Option World
  step (reply k r) w = result_callback keys_find k r w
  step (final k e) w = final_callback k e w
  step (begin h) w = some (open_request h w).0
  step (begin_write bytes) w =
      let (w1, ch) = make_chan w in some (register_write (to_channel ch) (to_channel ch) bytes w1).0
  step (begin_upload u) w = do (w', ch) ← write_chunk u w; some w'
  step begin_status w = some (open_status w).0

  unfoldable pub run : List Event → World → Option World
  run [] w = some w
  run (e ∷ es) w = do w' ← step e w; run es w'

  -- What a request delivers for one result, given its keys.
  unfoldable pub answer : List String → Handler → Reply → List Item
  answer ks reads (read_reply r) = read_item r ∷ []
  answer ks (bulk_reads k) (read_reply r) = listed (bulk_read_item r (keys_find ks r.cmd.id.id))
  answer ks lookups (lookup_reply r) = lookup_item r ∷ []
  answer ks (bulk_writes k) (lookup_reply r) = elim r.err [
    | some e ↦ lookup_item r ∷ []
    | none ↦ listed (bulk_write_item r (keys_find ks r.cmd.id.id))
  ]
  answer ks removes (remove_reply r) = remove_item r ∷ []
  answer ks (bulk_removes k) (remove_reply r) = elim r.err [
    | some e ↦ remove_item r ∷ []
    | none ↦
        if eqb_ℤ r.cmd.status (pos 0)
        then []
        else bulk_remove_item r (keys_find ks r.cmd.id.id) ∷ []
  ]
  answer ks finds (find_reply r) = find_item r ∷ []
  answer ks entries (entry_reply r) = entry_item r ∷ []
  answer ks stats (stat_reply e) = stat_item e ∷ []
  answer ks _ _ = []

-- The results that C gives to each kind of request.
abbrev pub Fits : Handler → Reply → Type 0
Fits reads (read_reply r) = Unit {0}
Fits (bulk_reads k) (read_reply r) = Unit {0}
Fits lookups (lookup_reply r) = Unit {0}
Fits (bulk_writes k) (lookup_reply r) = Unit {0}
Fits removes (remove_reply r) = Unit {0}
Fits (bulk_removes k) (remove_reply r) = Unit {0}
Fits finds (find_reply r) = Unit {0}
Fits entries (entry_reply r) = Unit {0}
Fits stats (stat_reply e) = Unit {0}
Fits _ _ = ⊥

abbrev pub keys_of : Handler → Option ℕ
keys_of (bulk_reads k) = some k
keys_of (bulk_writes k) = some k
keys_of (bulk_removes k) = some k
keys_of _ = none

-- The key set of a request is still held by C.
abbrev pub Holds : Option ℕ → List String → Dict ℕ (List String) → Type 0
Holds none ks held = Unit {0}
Holds (some k) ks held = lookup k held ≡ some ks

abbrev pub OtherKeys : Option ℕ → Option ℕ → Type 0
OtherKeys (some j) (some k) = j ≢ k
OtherKeys _ _ = Unit {0}

abbrev pub OtherSink : ℕ → Sink → Type 0
OtherSink ch (to_channel c) = c ≢ ch
OtherSink ch (to_caller u) = Unit {0}
OtherSink ch nowhere = Unit {0}

abbrev pub OtherContext : Opened → ℕ → Type 0
OtherContext o k = (k ≢ o.r) × (k ≢ o.f)

-- A closure of another request: another channel, other contexts, another key set.
abbrev pub Apart : Opened → Option ℕ → Value → Type 0
Apart o ks (on_result h ch) = ch ≢ o.ch
Apart o ks (on_finish h ch r f) =
    (ch ≢ o.ch) × OtherContext o r × OtherContext o f × OtherKeys (keys_of h) ks
Apart o ks (on_write sink) = OtherSink o.ch sink
Apart o ks (on_write_finish sink r f c) =
    OtherSink o.ch sink × OtherContext o r × OtherContext o f × OtherContext o c
Apart o ks (chunk bytes) = Unit {0}
Apart o ks (on_chunk ch) = ch ≢ o.ch
Apart o ks (on_chunk_finish ch r f c) =
    (ch ≢ o.ch) × OtherContext o r × OtherContext o f × OtherContext o c
Apart o ks (on_status ch k) = (ch ≢ o.ch) × OtherContext o k

-- A request under way, which has sent `sent`, when at most `top` contexts were handed out.
pub record Live (o : Opened) (h : Handler) (ks : List String) (sent : List Item) (top : ℕ)
    (w : World) : Type 0 where
  pub result : get o.r w.pool ≡ some (on_result h o.ch)
  pub finisher : get o.f w.pool ≡ some (on_finish h o.ch o.r o.f)
  pub channel : lookup o.ch w.chans ≡ some (record { sent = sent; closed = false })
  pub keys : Holds (keys_of h) ks w.key_sets
  pub known : (o.r ≤ w.pool.counter) × (o.f ≤ w.pool.counter) × (o.ch < w.next_chan)
  pub room : w.pool.counter ≤ top
  pub apart : (k : ℕ) (v : Value) → get k w.pool ≡ some v → OtherContext o k → Apart o (keys_of h) v
