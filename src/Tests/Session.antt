-- ===== src/Tests/Session.antt =====
-- A bulk read of two keys, among a lookup and a write of the same session.
use elliptics_go.Base.{
  ℕ, ◌+◌, ◌*◌, ◌<◌, ◌≡◌, List, [], ◌∷◌, ◌++◌, arith, length, Option, none, some, refl, String, Bool,
  true, false, All, if◌then◌else◌, eqb,
}
use elliptics_go.Base.Dict.{lookup, insert}
use elliptics_go.Base.Eq.{nat_eq}
use elliptics_go.Base.Word.{add64, u64_mod}
use elliptics_go.Errors.{text, ok, err}
use elliptics_go.Pool.{initial, get, store, next_context}
use elliptics_go.Session.Results.{
  ReadResult, read_item, zero_addr, zero_ioattr, read_error, lookup_error, remove_error,
  lookup_item, remove_item,
}
use elliptics_go.Session.World.{
  bulk_reads, lookups, World, chunk, session_write_data, start, send, make_chan, new_context,
  remember, Value,
}
use elliptics_go.Session.Callback.{
  Reply, read_reply, lookup_reply, result_callback, call_result, outcome, find_key, bulk_read_item,
  send_outcome, final_callback,
}
use elliptics_go.Session.Requests.{
  open_request, register, read_data, remove, bulk_read, bulk_remove,
}
use elliptics_go.Session.Writes.{register_write, write_cache, write_key, zero_length_write}
use elliptics_go.Session.Requests.Refused.{Refused, no_key, no_keys, requests-Refused}
use elliptics_go.Session.Requests.Written.{Written, lookup_ending, write_key-final}
use elliptics_go.Session.Delivery.{Event, reply, begin, begin_write, step, run, Holds}
use elliptics_go.Session.Delivery.Own.{ending, Ended}
use elliptics_go.Session.Delivery.Begin.{Orderly}
use elliptics_go.Session.Delivery.Order.Runs.{run-Orderly}
use elliptics_go.Session.Callback.{call_final, finish, send_error, free_keys}
use elliptics_go.Session.World.{close, forget}
use elliptics_go.Pool.{delete_context}
use elliptics_go.Base.{◌≤◌}
use elliptics_go.Session.Delivery.{final}
use elliptics_go.Base.Dict.{delete}
use elliptics_go.Session.Delivery.History.{Permits, answers, run-open_request}
use elliptics_go.Tests.Samples.{sample_cmd}

-- The key whose identifier begins with 3.
abbrev find_sample : List String → List ℕ → Option String
find_sample (k ∷ ks) (n ∷ rest) = if eqb n 3 then some k else none
find_sample _ _ = none

abbrev bulk_keys : List String
bulk_keys = "alpha" ∷ "beta" ∷ []

-- The world after the key set was made.
unfoldable before : World
unfolding start initial
before = record start { key_sets = (0, bulk_keys) ∷ []; next_keys = 1 }

abbrev block : List ℕ → ReadResult
block bytes = record {
  cmd = sample_cmd;
  addr = zero_addr;
  ioattr = zero_ioattr;
  bytes = bytes;
  err = none;
  key = "";
}

-- A lookup begins and is answered, a write begins, and two blocks are read.
abbrev happened : List Event
happened =
    begin lookups
    ∷ reply 1 (read_reply (block (1 ∷ 2 ∷ [])))
    ∷ begin_write (5 ∷ [])
    ∷ reply 3 (lookup_reply (lookup_error (text "no such key")))
    ∷ reply 1 (read_reply (block (9 ∷ [])))
    ∷ []

unfoldable after : World
after = elim (run find_sample happened (open_request (bulk_reads 0) before).0) [
  | some w ↦ w
  | none ↦ before
]

run-happened : run find_sample happened (open_request (bulk_reads 0) before).0 ≡ some after
unfolding after before start initial run step open_request register register_write make_chan
    new_context next_context remember store get lookup insert add64 result_callback call_result
    outcome find_key bulk_read_item send_outcome send
run-happened = refl

before-Orderly : Orderly (some 0) before
unfolding before start initial get lookup
before-Orderly k v e = absurd (never v e)
  where
    never : (v : Value) → ◌≡◌ {A = Option Value} none (some v) → ⊥
    never v h = cc

permitted : All (Permits (open_request (bulk_reads 0) before).1 (bulk_reads 0)) happened
unfolding open_request register before start initial make_chan new_context next_context add64
permitted = (
  tt,
  (
    (λ e. tt, λ e. omega arith),
    (tt, ((λ e. absurd (omega arith), λ e. omega arith), ((λ e. tt, λ e. omega arith), tt))),
  ),
)

before-Holds : Holds (some 0) bulk_keys before.key_sets
unfolding before lookup
before-Holds = refl

before_room : before.pool.counter + 2 + 3 * length happened < u64_mod
unfolding before start initial
before_room = omega arith

run-open_request_example :
    (lookup (open_request (bulk_reads 0) before).1.ch after.chans
      ≡ some (record {
        sent =
            answers find_sample
              (open_request (bulk_reads 0) before).1
              (bulk_reads 0)
              bulk_keys
              happened;
        closed = false;
      }))
    × (ended : World) × (final_callback
          (open_request (bulk_reads 0) before).1.f
          (some (text "timeout"))
          after
        ≡ some ended)
    × Ended
        (open_request (bulk_reads 0) before).1
        (answers find_sample
            (open_request (bulk_reads 0) before).1
            (bulk_reads 0)
            bulk_keys
            happened
          ++ ending (bulk_reads 0) (some (text "timeout")))
        ended
run-open_request_example =
    run-open_request find_sample (bulk_reads 0) bulk_keys happened (some (text "timeout")) before
      after before-Orderly before-Holds permitted before_room run-happened

-- A lookup that is answered and ends, while a write begins.
abbrev served : List Event
served =
    begin lookups
    ∷ begin_write (5 ∷ [])
    ∷ reply 1 (lookup_reply (lookup_error (text "no such key")))
    ∷ final 2 none
    ∷ []

unfoldable served_world : World
served_world = elim (run find_sample served start) [ some w ↦ w | none ↦ start ]

run-served : run find_sample served start ≡ some served_world
unfolding served_world start initial run step open_request register register_write make_chan
    new_context next_context remember store get lookup insert add64 result_callback call_result
    outcome send_outcome send final_callback call_final finish send_error close free_keys forget
    delete_context delete
run-served = refl

run-Orderly_example : Orderly none served_world × (served_world.pool.counter ≤ 3 * length served)
run-Orderly_example = run-Orderly find_sample served served_world (omega arith) run-served

-- No order of the keys is needed where no key set is made.
abbrev no_order : String → String → Bool
no_order a b = false

requests-Refused_example :
    Refused before (read_item (read_error no_key)) (read_data false "alpha" 0 10 before)
    × Refused before (remove_item (remove_error "" no_key)) (remove false "alpha" before)
    × Refused before (read_item (read_error no_keys)) (bulk_read no_order false bulk_keys before)
    × Refused before
        (remove_item (remove_error "new keys allocation failed" no_keys))
        (bulk_remove no_order false bulk_keys before)
    × Refused before
        (lookup_item (lookup_error no_key))
        (write_cache false "alpha" (ok []) 10 before)
    × Refused before
        (lookup_item (lookup_error (text "broken pipe")))
        (write_key "alpha" (err (text "broken pipe")) 0 before)
    × Refused before
        (lookup_item (lookup_error zero_length_write))
        (write_key "alpha" (ok []) 0 before)
    × Refused before
        (lookup_item (lookup_error (text "broken pipe")))
        (write_cache true "alpha" (err (text "broken pipe")) 10 before)
    × Refused before
        (lookup_item (lookup_error zero_length_write))
        (write_cache true "alpha" (ok []) 10 before)
requests-Refused_example =
    requests-Refused no_order "alpha" bulk_keys 0 10 (text "broken pipe") (ok []) before

write_room : before.pool.counter + 3 < u64_mod
unfolding before start initial
write_room = omega arith

-- Two bytes, and a timeout at the end.
write_key-final_example :
    (w1 : World) × (w2 : World) × (write_key "alpha" (ok (1 ∷ 2 ∷ [])) 0 before
      ≡ some (w1, before.next_chan))
    × (get (before.pool.counter + 3) w1.pool ≡ some (chunk (1 ∷ 2 ∷ [])))
    × (w1.calls
        ≡ before.calls
          ++ session_write_data
              (before.pool.counter + 1)
              (before.pool.counter + 2)
              "alpha"
              0
              (1 ∷ 2 ∷ [])
            ∷ [])
    × ((answer : Reply) → result_callback find_sample (before.pool.counter + 1) answer w1 ≡ none)
    × (final_callback (before.pool.counter + 2) (some (text "timeout")) w1 ≡ some w2)
    × Written before.next_chan
        (before.pool.counter + 1)
        (before.pool.counter + 2)
        (before.pool.counter + 3)
        (lookup_ending (some (text "timeout")))
        w2
write_key-final_example =
    write_key-final find_sample "alpha" 1 (2 ∷ []) 0 (some (text "timeout")) before write_room
