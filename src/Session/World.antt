-- ===== src/Session/World.antt =====
-- The state that requests and callbacks share: the context pool with the closures in it, the
-- channels, the key sets that C holds, and the calls made into C. A channel is the list of what was
-- sent on it. A Go channel of a session has a buffer of ten: a send on a full one waits until the
-- caller reads, and for ever where the caller has stopped reading, as StreamHTTP does after an
-- error. The model has no step for the wait: its send is the moment at which the value is taken, so
-- what it shows of a send is shown for callers that read on. A panic
-- ends the process and is `none`: a missing context, a closure of another type, a send on a closed
-- channel, a second close, a use of a freed key set.
use elliptics_go.Base.{
  ℕ, ◌+◌, List, [], ◌∷◌, ◌++◌, Option, none, some, ◌>>=◌, String, Bool, true, false, if◌then◌else◌,
}
use elliptics_go.Base.Int.{ℤ}
use elliptics_go.Base.Dict.{Dict, lookup, insert}
use elliptics_go.Base.Eq.{nat_eq}
use elliptics_go.Errors.{Error}
use elliptics_go.Pool.{ContextPool, next_context, store, delete_context, initial}
use elliptics_go.Wire.Address.{CDnetAddr}
use elliptics_go.Wire.Attributes.{EllIoAttr}
use elliptics_go.Session.Results.{Item}

-- The onResult closures, by what they do with a result. A number is a key set, or the caller's own
-- function.
pub data Handler : Type 0 where
  reads : Handler
  bulk_reads : ℕ → Handler
  lookups : Handler
  bulk_writes : ℕ → Handler
  removes : Handler
  bulk_removes : ℕ → Handler
  finds : Handler
  entries : Handler
  stats : Handler
  unused : Handler

-- Where the end of a write is told: a channel, a function of the caller, or nowhere.
pub data Sink : Type 0 where
  to_channel : ℕ → Sink
  to_caller : ℕ → Sink
  nowhere : Sink

-- What the pool holds. `on_result h ch` sends on the channel `ch`; `on_finish h ch r f` ends the
-- request with the contexts `r` and `f`; `on_write` and `on_write_finish` are those of write and
-- cache, which have a third context for the data; `on_chunk` and `on_chunk_finish` are those of
-- WriteChunk; `on_status ch k` is that of a request about the backends of a server.
pub data Value : Type 0 where
  on_result : Handler → ℕ → Value
  on_finish : Handler → ℕ → ℕ → ℕ → Value
  on_write : Sink → Value
  on_write_finish : Sink → ℕ → ℕ → ℕ → Value
  on_chunk : ℕ → Value
  on_chunk_finish : ℕ → ℕ → ℕ → ℕ → Value
  on_status : ℕ → ℕ → Value
  chunk : List ℕ → Value

-- The variables that the closures of WriteChunk share, by the request's channel. `reader k` is what
-- the k-th Read of the input gives, and `allocates k` whether a key can be made after it.
pub record Upload : Type 0 where
  pub key : String
  pub reader : ℕ → List ℕ × Option Error
  pub allocates : ℕ → Bool
  pub reads : ℕ
  pub total_size : ℕ
  pub offset : ℕ

pub record Channel : Type 0 where
  pub sent : List Item
  pub closed : Bool

-- The functions of session.cpp, with the contexts for results and for the end, and the arguments
-- that matter to the server.
pub data Call : Type 0 where
  session_read_data : ℕ → ℕ → String → ℕ → ℕ → Call
  session_bulk_read : ℕ → ℕ → List String → Call
  session_lookup : ℕ → ℕ → String → Call
  session_parallel_lookup : ℕ → ℕ → String → Call
  session_remove : ℕ → ℕ → String → Call
  session_bulk_remove : ℕ → ℕ → List String → Call
  session_find_all_indexes : ℕ → ℕ → List String → Call
  session_find_any_indexes : ℕ → ℕ → List String → Call
  session_set_indexes : ℕ → ℕ → String → List (String × String) → Call
  session_update_indexes : ℕ → ℕ → String → List (String × String) → Call
  session_list_indexes : ℕ → ℕ → String → Call
  session_remove_indexes : ℕ → ℕ → String → List String → Call
  session_write_data : ℕ → ℕ → String → ℕ → List ℕ → Call
  session_write_prepare : ℕ → ℕ → String → ℕ → ℕ → List ℕ → Call
  session_write_plain : ℕ → ℕ → String → ℕ → List ℕ → Call
  session_write_commit : ℕ → ℕ → String → ℕ → ℕ → List ℕ → Call
  session_bulk_write : ℕ → ℕ → List (EllIoAttr × List ℕ) → Call
  session_get_stats : ℕ → ℕ → ℕ → Call
  session_backends_status : CDnetAddr → ℕ → Call
  session_backend_start_defrag : CDnetAddr → ℕ → ℕ → Call
  session_backend_enable : CDnetAddr → ℕ → ℕ → Call
  session_backend_disable : CDnetAddr → ℕ → ℕ → Call
  session_backend_make_writable : CDnetAddr → ℕ → ℕ → Call
  session_backend_make_readonly : CDnetAddr → ℕ → ℕ → Call
  session_backend_set_delay : CDnetAddr → ℕ → ℕ → ℕ → Call
  session_write_cache : ℕ → ℕ → String → List ℕ → ℤ → Call

pub record World : Type 0 where
  pub pool : ContextPool Value
  pub chans : Dict ℕ Channel
  pub next_chan : ℕ
  pub key_sets : Dict ℕ (List String)
  pub next_keys : ℕ
  pub uploads : Dict ℕ Upload
  pub notified : List (ℕ × Option Error)
  pub calls : List Call

unfoldable pub start : World
unfolding initial
start = record {
  pool = initial;
  chans = [];
  next_chan = 0;
  key_sets = [];
  next_keys = 0;
  uploads = [];
  notified = [];
  calls = [];
}

-- ch <- item, when there is room in the buffer
unfoldable pub send : ℕ → Item → World → Option World
send ch item w = do
  c ← lookup ch w.chans
  let c' : Channel = record { sent = c.sent ++ item ∷ []; closed = false }
  if c.closed then none else some (record w { chans = insert ch c' w.chans })

-- close(ch)
unfoldable pub close : ℕ → World → Option World
close ch w = do
  c ← lookup ch w.chans
  let c' : Channel = record { sent = c.sent; closed = true }
  if c.closed then none else some (record w { chans = insert ch c' w.chans })

-- make(chan T, n)
unfoldable pub make_chan : World → World × ℕ
make_chan w = (
  record w {
    chans = insert w.next_chan (record { sent = []; closed = false }) w.chans;
    next_chan = w.next_chan + 1;
  },
  w.next_chan,
)

unfoldable pub forget : ℕ → World → World
unfolding delete_context
forget k w = record w { pool = delete_context k w.pool }

unfoldable pub remember : ℕ → Value → World → World
unfolding store
remember k v w = record w { pool = store k v w.pool }

unfoldable pub new_context : World → World × ℕ
unfolding next_context
new_context w = let (p, k) = next_context w.pool in (record w { pool = p }, k)

unfoldable pub issue : Call → World → World
issue c w = record w { calls = w.calls ++ c ∷ [] }

unfoldable pub notify : ℕ → Option Error → World → World
notify u e w = record w { notified = w.notified ++ (u, e) ∷ [] }

-- An assignment to the variables that closures share.
unfoldable pub set_upload : ℕ → Upload → World → World
set_upload ch u w = record w { uploads = insert ch u w.uploads }
