-- ===== src/Session/Ledger.antt =====
-- The requests of a session that are under way, and what the program and C may do next: C answers
-- or ends a request for which it has a call, at most once where it answers once, and the program
-- makes a request. The calls of the closures are those of Session/Callback, the requests those of
-- Session/Requests, Session/Writes, Session/Uploads and Session/Backends.
pub mod Frame
pub mod Turns
pub mod Kept
pub mod Answers
pub mod Closing
pub mod Ends
pub mod Fresh
pub mod Begins
pub mod Refusals
pub mod Uploads
pub mod Regions
pub mod Safe
pub mod Promises
pub mod Made
pub mod Reports
pub mod Sends
pub mod Drained
use elliptics_go.Base.{
  ℕ, ◌+◌, ◌≡◌, ◌<◌, List, [], ◌∷◌, Option, none, some, ◌>>=◌, String, Bool, true, false, ltb,
  length, not, if◌then◌else◌,
}
use elliptics_go.Base.Dict.{Dict, lookup, insert, delete}
use elliptics_go.Base.Eq.{nat_eq}
use elliptics_go.Base.Word.{u64_mod}
use elliptics_go.Errors.{Error, ok, err}
use elliptics_go.Session.Results.{Item}
use elliptics_go.Session.World.{
  Handler, Sink, to_channel, Channel, Upload, World, Call, start, make_chan, issue,
}
use elliptics_go.Session.Callback.{
  Reply, lookup_reply, status_reply, result_callback, final_callback,
}
use elliptics_go.Session.Delivery.{Fits, keys_of}
use elliptics_go.Session.Requests.{open_request, new_keys, failed_chan, parallel_lookup}
use elliptics_go.Session.Writes.{register_write}
use elliptics_go.Session.Uploads.{write_chunk}
use elliptics_go.Session.Backends.{ask_status}

-- A request for which C has a call, with the first of its contexts; the others follow it.
pub data Request : Type 0 where
  serving : Handler → ℕ → Request
  writing : ℕ → Request
  uploading : ℕ → Request
  asking : ℕ → Request

abbrev pub context : Request → ℕ
context (serving h r) = r
context (writing r) = r
context (uploading r) = r
context (asking r) = r

-- How many contexts it has.
abbrev pub width : Request → ℕ
width (serving h r) = 2
width (writing r) = 3
width (uploading r) = 3
width (asking r) = 1

abbrev pub key_set : Request → Option ℕ
key_set (serving h r) = keys_of h
key_set (writing r) = none
key_set (uploading r) = none
key_set (asking r) = none

-- The requests under way, by the number of their channel.
abbrev pub Ledger : Type 0
Ledger = Dict ℕ Request

-- What may happen. A request names the call of C that it makes, for its two contexts; `begin_index`
-- is a request about indexes, with whether it has a key and any text for C;
-- `begin_bulk` is a request with a new key set, such as `bulk_reads`; `refuse` is one that fails at once, `refuse_parallel` a
-- ParallelLookup that does, when it has its contexts.
pub data Move : Type 0 where
  answer : ℕ → Reply → Move
  finish : ℕ → Option Error → Move
  begin : Handler → (ℕ → ℕ → Call) → Move
  begin_index : Bool → Bool → Handler → (ℕ → ℕ → Call) → Move
  begin_bulk : (ℕ → Handler) → List String → (ℕ → ℕ → Call) → Move
  begin_write : List ℕ → (ℕ → ℕ → Call) → Move
  begin_upload : Upload → Move
  begin_status : (ℕ → Call) → Move
  refuse : Item → Move
  refuse_parallel : String → Move

-- The results that C gives to a request.
abbrev pub Takes : Request → Reply → Type 0
Takes (serving h r) reply = Fits h reply
Takes (writing r) (lookup_reply x) = Unit {0}
Takes (uploading r) (lookup_reply x) = Unit {0}
Takes (asking r) (status_reply x) = Unit {0}
Takes _ _ = ⊥

-- A call about the backends of a server has its one answer for an end.
abbrev pub Ends : Request → Type 0
Ends (asking r) = ⊥
Ends _ = Unit {0}

abbrev pub AtRequest : (Request → Type 0) → Option Request → Type 0
AtRequest P none = ⊥
AtRequest P (some q) = P q

-- The moves that keep to the contract of C, and requests whose key set is a new one.
abbrev pub Allows : Ledger → Move → Type 0
Allows l (answer ch reply) = AtRequest (λ q. Takes q reply) (lookup ch l)
Allows l (finish ch e) = AtRequest Ends (lookup ch l)
Allows l (begin h call) = keys_of h ≡ none
Allows l (begin_index has_key has_text h call) = keys_of h ≡ none
Allows l (begin_bulk kind keys call) = (k : ℕ) → keys_of (kind k) ≡ some k
Allows l (begin_write bytes call) = Unit {0}
Allows l (begin_upload u) = Unit {0}
Allows l (begin_status call) = Unit {0}
Allows l (refuse item) = Unit {0}
Allows l (refuse_parallel kstr) = Unit {0}

-- The moves that panic although the contract of C allows them: an answer to a write, whose closure
-- has another type than go_lookup_callback asserts, and a request about indexes with no key, or with
-- no text to point to.
abbrev pub is_writing : Request → Bool
is_writing (writing r) = true
is_writing (serving h r) = false
is_writing (uploading r) = false
is_writing (asking r) = false

abbrev pub writing_at : Option Request → Bool
writing_at none = false
writing_at (some q) = is_writing q

abbrev pub panics : Ledger → Move → Bool
panics l (answer ch reply) = writing_at (lookup ch l)
panics l (begin_index has_key has_text h call) = if has_key then not has_text else true
panics l _ = false

-- A request hands out three contexts at most.
abbrev pub HasRoom : Move → World → Type 0
HasRoom (answer ch reply) w = Unit {0}
HasRoom (finish ch e) w = Unit {0}
HasRoom _ w = w.pool.counter + 3 < u64_mod

-- open_request with its call
unfoldable pub begin_request : Handler → (ℕ → ℕ → Call) → World → World
begin_request h call w = let (w1, o) = open_request h w in issue (call o.r o.f) w1

unfoldable pub begin_write_request : List ℕ → (ℕ → ℕ → Call) → World → World
begin_write_request bytes call w =
    let (w1, ch) = make_chan w in
    let (w2, o) = register_write (to_channel ch) (to_channel ch) bytes w1 in issue (call o.r o.f) w2

-- The state after a request that returns its channel.
abbrev pub state_of : Option (World × ℕ) → Option World
state_of r = do (w, ch) ← r; some w

-- Whether a call was made.
unfoldable pub called : World → World → Bool
called w w' = ltb (length w.calls) (length w'.calls)

-- Whether a channel was made and is not closed: a caller who reads from it waits.
abbrev pub open_channel : Option Channel → Bool
open_channel none = false
open_channel (some x) = if x.closed then false else true

abbrev pub waits : ℕ → World → Bool
waits c w = open_channel (lookup c w.chans)

-- The requests for which C has a call after a move from one state to another.
abbrev pub settle : Option Request → ℕ → Ledger → Ledger
settle (some (asking r)) ch l = delete ch l
settle _ ch l = l

unfoldable pub after : Ledger → Move → World → World → Ledger
after l (answer ch reply) w w' = settle (lookup ch l) ch l
after l (finish ch e) w w' = if called w w' then l else delete ch l
after l (begin h call) w w' = insert w.next_chan (serving h (w.pool.counter + 1)) l
after l (begin_index has_key has_text h call) w w' =
    insert w.next_chan (serving h (w.pool.counter + 1)) l
after l (begin_bulk kind keys call) w w' =
    insert w.next_chan (serving (kind w.next_keys) (w.pool.counter + 1)) l
after l (begin_write bytes call) w w' = insert w.next_chan (writing (w.pool.counter + 1)) l
after l (begin_upload u) w w' =
    if called w w' then insert w.next_chan (uploading (w.pool.counter + 1)) l else l
after l (begin_status call) w w' = insert w.next_chan (asking (w.pool.counter + 1)) l
after l (refuse item) w w' = l
after l (refuse_parallel kstr) w w' = l

-- One with a new key set, with `string_less` the order of Go's strings
module _ (string_less : String → String → Bool) where
  unfoldable pub begin_bulk_request :
      (ℕ → Handler) → List String → (ℕ → ℕ → Call) → World → Option World
  begin_bulk_request kind keys call w = elim (new_keys string_less true keys w) [
    | err e ↦ none
    | ok (w1, k) ↦ some (begin_request (kind k) call w1)
  ]

-- `keys_find` is the search of the C library in a key set.
module _ (keys_find : List String → List ℕ → Option String)
    (string_less : String → String → Bool) where
  -- `none` is a panic.
  unfoldable pub perform : Ledger → Move → World → Option World
  perform l (answer ch reply) w = do q ← lookup ch l; result_callback keys_find (context q) reply w
  perform l (finish ch e) w = do q ← lookup ch l; final_callback (context q + 1) e w
  perform l (begin h call) w = some (begin_request h call w)
  perform l (begin_index has_key has_text h call) w =
      if (if has_key then not has_text else true) then none else some (begin_request h call w)
  perform l (begin_bulk kind keys call) w = begin_bulk_request string_less kind keys call w
  perform l (begin_write bytes call) w = some (begin_write_request bytes call w)
  perform l (begin_upload u) w = state_of (write_chunk u w)
  perform l (begin_status call) w = some (ask_status call w).0
  perform l (refuse item) w = state_of (failed_chan item w)
  perform l (refuse_parallel kstr) w = state_of (parallel_lookup false kstr w)

  -- The states of a program while fewer than 2^64 contexts are handed out.
  pub data Reached : Ledger → World → Type 0 where
    started : Reached [] start
    moved :
        {l l' : Ledger} {w w' : World} (m : Move)
        → Reached l w
        → Allows l m
        → HasRoom m w
        → perform l m w ≡ some w'
        → l' ≡ after l m w w'
        → Reached l' w'
