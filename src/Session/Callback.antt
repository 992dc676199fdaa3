-- ===== src/Session/Callback.antt =====
-- The callbacks of elliptics/callback.go, with the closures of elliptics/session.go that they
-- reach through the pool. A step is one callback of the C library, at its Go arguments.
use elliptics_go.Base.{ℕ, List, [], ◌∷◌, Option, none, some, ◌>>=◌, String, if◌then◌else◌}
use elliptics_go.Base.Int.{ℤ, pos, eqb_ℤ, ltb_ℤ}
use elliptics_go.Base.Text.{concat, show_ℤ}
use elliptics_go.Base.Dict.{lookup, delete}
use elliptics_go.Base.Eq.{nat_eq}
use elliptics_go.Errors.{Error, dnet, text}
use elliptics_go.Pool.{get}
use elliptics_go.Session.Results.{
  ReadResult, LookupResult, RemoveResult, FindResult, IndexEntry, DnetBackendsStatus, Item,
  stat_item, status_item, stat_error, read_item, lookup_item, remove_item, find_item, index_item,
  entry_item, read_error, lookup_error, remove_error,
}
use elliptics_go.Stat.Entry.{StatEntry}
use elliptics_go.Session.Chunks.{chunk_result, chunk_finish}
use elliptics_go.Session.World.{
  Handler, reads, bulk_reads, lookups, bulk_writes, removes, bulk_removes, finds, entries, unused,
  stats, Sink, to_channel, to_caller, nowhere, Value, on_result, on_finish, on_write_finish,
  on_chunk, on_chunk_finish, on_status, World, send, close, forget, notify,
}

-- A result of the C library, converted to Go.
pub data Reply : Type 0 where
  read_reply : ReadResult → Reply
  lookup_reply : LookupResult → Reply
  remove_reply : RemoveResult → Reply
  find_reply : FindResult → Reply
  entry_reply : IndexEntry → Reply
  stat_reply : StatEntry → Reply
  status_reply : DnetBackendsStatus → Reply

-- The value of an onFinish closure's channel for an error.
unfoldable pub error_item : Handler → Error → Item
error_item reads e = read_item (read_error e)
error_item (bulk_reads keys) e = read_item (read_error e)
error_item lookups e = lookup_item (lookup_error e)
error_item (bulk_writes keys) e = lookup_item (lookup_error e)
error_item removes e = remove_item (remove_error "" e)
error_item (bulk_removes keys) e = remove_item (remove_error "overall operation result" e)
error_item finds e = find_item (record { id = []; entries = []; err = some e })
error_item entries e = entry_item (record { text = ""; err = some e })
error_item stats e = stat_item (stat_error e)
error_item unused e = index_item (record { err = some e })

unfoldable pub send_outcome : ℕ → Option Item → World → Option World
send_outcome ch none w = some w
send_outcome ch (some item) w = send ch item w

-- The onFinish closure of the requests of elliptics/backend.go, which C calls once.
unfoldable pub status_result : ℕ → ℕ → DnetBackendsStatus → World → Option World
status_result ch k r w = do
  told ← send ch (status_item r) w
  ended ← close ch told
  some (forget k ended)

-- BulkRead: a result whose key is not found is dropped.
unfoldable pub bulk_read_item : ReadResult → Option String → Option Item
bulk_read_item r none = none
bulk_read_item r (some key) = some (read_item (record r { key = key }))

-- BulkWrite: likewise, but an error is passed on with no search.
unfoldable pub bulk_write_item : LookupResult → Option String → Option Item
bulk_write_item r none = none
bulk_write_item r (some key) = some (lookup_item (record r { key = key }))

-- BulkRemove, for a result with a status.
unfoldable pub bulk_remove_item : RemoveResult → Option String → Item
bulk_remove_item r none =
    remove_item
      (remove_error "could not find key for replied ID" (text "could not find key for given ID"))
bulk_remove_item r (some key) = remove_item (record r {
  key = key;
  err = some (text (concat ("remove status: " ∷ show_ℤ r.cmd.status ∷ [])));
})

-- `keys_find keys id` is the search of the C library for the key of an identifier.
module _ (keys_find : List String → List ℕ → Option String) where
  -- (kk *Keys) Find on a key set that C still holds; the inner `none` is its error.
  unfoldable pub find_key : ℕ → List ℕ → World → Option (Option String)
  find_key keys id w = do ks ← lookup keys w.key_sets; some (keys_find ks id)

  -- What an onResult closure sends for a result: the outer `none` is a panic, the inner one means
  -- that nothing is sent.
  unfoldable pub outcome : Handler → Reply → World → Option (Option Item)
  unfolding find_key bulk_read_item bulk_write_item bulk_remove_item
  outcome reads (read_reply r) w = some (some (read_item r))
  outcome (bulk_reads keys) (read_reply r) w = do
    key ← find_key keys r.cmd.id.id w
    some (bulk_read_item r key)
  outcome lookups (lookup_reply r) w = some (some (lookup_item r))
  outcome (bulk_writes keys) (lookup_reply r) w = elim r.err [
    | some e ↦ some (some (lookup_item r))
    | none ↦ do key ← find_key keys r.cmd.id.id w; some (bulk_write_item r key)
  ]
  outcome removes (remove_reply r) w = some (some (remove_item r))
  outcome (bulk_removes keys) (remove_reply r) w = elim r.err [
    | some e ↦ some (some (remove_item r))
    | none ↦
        if eqb_ℤ r.cmd.status (pos 0)
        then some none
        else (do key ← find_key keys r.cmd.id.id w; some (some (bulk_remove_item r key)))
  ]
  outcome finds (find_reply r) w = some (some (find_item r))
  outcome entries (entry_reply r) w = some (some (entry_item r))
  outcome stats (stat_reply e) w = some (some (stat_item e))
  outcome _ _ w = none

  -- The functions that hand on a result, go_read_callback and so on: the closure of the context is
  -- called with the result. The assertion of the closure's type panics for a closure of another
  -- type. It does so for `on_write`: what write and cache store is of the defined type
  -- onLookupCallback, and go_lookup_callback and go_lookup_error assert func(*lookupResult).
  unfoldable pub call_result : Value → Reply → World → Option World
  unfolding send_outcome chunk_result status_result
  call_result (on_result h ch) r w = do o ← outcome h r w; send_outcome ch o w
  call_result (on_chunk ch) (lookup_reply r) w = chunk_result ch r w
  call_result (on_status ch k) (status_reply r) w = status_result ch k r w
  call_result _ r w = none

  unfoldable pub result_callback : ℕ → Reply → World → Option World
  unfolding call_result
  result_callback key r w = do v ← get key w.pool; call_result v r w

-- ekeys.Free() of the closures that free their key set; BulkRemove has none.
unfoldable pub free_keys : Handler → World → World
free_keys (bulk_reads keys) w = record w { key_sets = delete keys w.key_sets }
free_keys (bulk_writes keys) w = record w { key_sets = delete keys w.key_sets }
free_keys _ w = w

unfoldable pub send_error : ℕ → Item → Option Error → World → Option World
send_error ch item none w = some w
send_error ch item (some e) w = send ch item w

-- The error of a finish, or a default that is not used.
abbrev pub item_for : Handler → Option Error → Item
item_for h none = error_item h (text "")
item_for h (some e) = error_item h e

-- The onFinish closures of the reads, lookups, removals, index requests and DnetStat.
unfoldable pub finish : Handler → ℕ → ℕ → ℕ → Option Error → World → Option World
unfolding send_error free_keys
finish h ch r f e w = do
  told ← send_error ch (item_for h e) e w
  ended ← close ch told
  some (forget f (forget r (free_keys h ended)))

-- onResult(err) of a write: the closures of WriteKey and WriteCache, or the caller's function.
unfoldable pub tell : Sink → Option Error → World → Option World
unfolding send_error
tell (to_channel ch) e w = do told ← send_error ch (item_for lookups e) e w; close ch told
tell (to_caller u) e w = some (notify u e w)
tell nowhere e w = some w

-- onWriteFinish of write and cache: the contexts go first.
unfoldable pub write_finish : Sink → ℕ → ℕ → ℕ → Option Error → World → Option World
unfolding tell
write_finish sink r f c e w = tell sink e (forget c (forget f (forget r w)))

unfoldable pub call_final : Value → Option Error → World → Option World
call_final (on_finish h ch r f) e w = finish h ch r f e w
call_final (on_write_finish sink r f c) e w = write_finish sink r f c e w
call_final (on_chunk_finish ch r f c) e w = chunk_finish ch r f c e w
call_final _ e w = none

unfoldable pub final_callback : ℕ → Option Error → World → Option World
unfolding call_final
final_callback key e w = do v ← get key w.pool; call_final v e w

-- struct go_error
pub record CError : Type 0 where
  pub code : ℤ
  pub flags : ℕ
  pub message : String

-- The error that go_final_callback hands on: none for a code that is not negative.
unfoldable pub final_error : CError → Option Error
final_error c =
    if ltb_ℤ c.code (pos 0)
    then some (dnet (record { code = c.code; flags = c.flags; message = c.message }))
    else none

-- go_final_callback
unfoldable pub go_final_callback : CError → ℕ → World → Option World
go_final_callback c key w = final_callback key (final_error c) w
