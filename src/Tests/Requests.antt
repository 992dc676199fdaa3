-- ===== src/Tests/Requests.antt =====
-- A chunked write of three chunks, a stream of five bytes, and a request about backends.
use elliptics_go.Base.{
  ℕ, ◌+◌, ◌<◌, ◌≡◌, List, [], ◌∷◌, ◌++◌, arith, length, take, drop, map, flatten, Option, none,
  some, refl, String, Bool, true, eqb, if◌then◌else◌,
}
use elliptics_go.Base.Int.{pos}
use elliptics_go.Base.Word.{u64_mod}
use elliptics_go.Errors.{Error}
use elliptics_go.Wire.Address.{c_addr}
use elliptics_go.Pool.{initial}
use elliptics_go.Session.Results.{ReadResult, zero_addr, zero_ioattr}
use elliptics_go.Session.World.{
  World, start, session_write_prepare, session_backends_status, session_backend_start_defrag,
  session_backend_enable, session_backend_disable, session_backend_make_writable,
  session_backend_make_readonly, session_backend_set_delay,
}
use elliptics_go.Session.Requests.Written.{Written}
use elliptics_go.Session.Uploads.{write_chunk}
use elliptics_go.Session.Uploads.Tiles.{rest_calls, acknowledge}
use elliptics_go.Errors.{text}
use elliptics_go.Session.Results.{lookup_item, lookup_error}
use elliptics_go.Session.Callback.{final_callback}
use elliptics_go.Session.Uploads.Broken.{write_chunk_broken}
use elliptics_go.Session.Uploads.Complete.{fresh, write_chunk_complete}
use elliptics_go.Session.Stream.{content_length, status_ok, body, stream_http, first_good}
use elliptics_go.Session.Stream.Served.{Serves, part, stream_http-Serves}
use elliptics_go.Session.Stream.Stuck.{GivesNothing, stream_http_stuck}
use elliptics_go.Session.Backends.{
  to_uint32, backends_status, backend_start_defrag, backend_enable, backend_disable,
  backend_make_writable, backend_make_read_only, backend_set_delay,
}
use elliptics_go.Session.Backends.Answered.{Asks, backend_requests-Asks}
use elliptics_go.Tests.Samples.{sample_cmd, sample_addr, sample_c_addr}

-- An input of three chunks, and then its end.
abbrev input : ℕ → List ℕ × Option Error
input k = (
  if eqb k 0
      then 1 ∷ 2 ∷ []
      else (if eqb k 1 then 3 ∷ [] else (if eqb k 2 then 4 ∷ 5 ∷ [] else [])),
  none,
)

abbrev always : ℕ → Bool
always k = true

start_room : start.pool.counter + 3 < u64_mod
unfolding start initial
start_room = omega arith

start_one_room : start.pool.counter + 1 < u64_mod
unfolding start initial
start_one_room = omega arith

write_chunk_complete_example :
    (w1 : World) × (w2 : World) × (write_chunk (fresh "alpha" input always 10 5) start
      ≡ some (w1, start.next_chan))
    × (acknowledge 3 (start.pool.counter + 2) w1 ≡ some w2)
    × (w2.calls
        ≡ start.calls
          ++ session_write_prepare
              (start.pool.counter + 1)
              (start.pool.counter + 2)
              "alpha"
              10
              5
              (1 ∷ 2 ∷ [])
            ∷ rest_calls
                (start.pool.counter + 1)
                (start.pool.counter + 2)
                "alpha"
                12
                ((3 ∷ []) ∷ (4 ∷ 5 ∷ []) ∷ []))
    × Written start.next_chan
        (start.pool.counter + 1)
        (start.pool.counter + 2)
        (start.pool.counter + 3)
        []
        w2
write_chunk_complete_example =
    write_chunk_complete "alpha" input always 10 (1 ∷ 2 ∷ []) ((3 ∷ []) ∷ (4 ∷ 5 ∷ []) ∷ []) start
      (λ k. refl) refl (refl, (refl, _)) (omega arith, (omega arith, (omega arith, _)))
      (omega arith) start_room

-- The first chunk after the announced one is acknowledged, and the write of the next one fails.
write_chunk_broken_example :
    (w1 : World) × (w2 : World) × (w3 : World) × (write_chunk
        (fresh "alpha" input always 10 5)
        start
      ≡ some (w1, start.next_chan))
    × (acknowledge 1 (start.pool.counter + 2) w1 ≡ some w2)
    × (final_callback (start.pool.counter + 2) (some (text "timeout")) w2 ≡ some w3)
    × Written start.next_chan
        (start.pool.counter + 1)
        (start.pool.counter + 2)
        (start.pool.counter + 3)
        (lookup_item (lookup_error (text "timeout")) ∷ [])
        w3
    × (w3.calls ≡ w2.calls)
write_chunk_broken_example =
    write_chunk_broken "alpha" input always 10 (1 ∷ 2 ∷ []) ((3 ∷ []) ∷ []) ((4 ∷ 5 ∷ []) ∷ [])
      (text "timeout") start (λ k. refl) refl (refl, (refl, _))
      (omega arith, (omega arith, (omega arith, _))) (omega arith) start_room

abbrev whole_object : List ℕ
whole_object = 7 ∷ 8 ∷ 9 ∷ 10 ∷ 11 ∷ []

abbrev part_result : ℕ → ℕ → ReadResult
part_result o n = record {
  cmd = sample_cmd;
  addr = zero_addr;
  ioattr = record zero_ioattr { total_size = 5 };
  bytes = take n (drop o whole_object);
  err = none;
  key = "alpha";
}

abbrev one_result : ℕ → ℕ → ℕ → List ReadResult
one_result k o n = part_result o n ∷ []

one_result-Serves : Serves whole_object one_result
unfolding first_good
one_result-Serves k o n inside = (part_result o n, refl, refl, refl)

stream_http-Serves_example :
    (chunks : List (List ℕ)) × (stream_http true one_result 1 "alpha" 2 0
      ≡ some (none, content_length 3 ∷ status_ok ∷ map body chunks))
    × (flatten chunks ≡ part whole_object 2 3)
    × (length (flatten chunks) ≡ 3)
stream_http-Serves_example =
    stream_http-Serves whole_object one_result 0 "alpha" 2 0 one_result-Serves (omega arith)
      (omega arith) (omega arith)

abbrev no_bytes : ℕ → ℕ → ℕ → List ReadResult
no_bytes k o n = record (part_result o n) { bytes = [] } ∷ []

no_bytes-GivesNothing : GivesNothing 5 no_bytes
unfolding first_good
no_bytes-GivesNothing k o n = (record (part_result o n) { bytes = [] }, refl, refl, refl)

stream_http_stuck_example : stream_http true no_bytes 1000 "alpha" 2 0 ≡ none
stream_http_stuck_example =
    stream_http_stuck 5 no_bytes 1000 "alpha" 2 0 no_bytes-GivesNothing (omega arith) (omega arith)

no_search : List String → List ℕ → Option String
no_search keys id = none

backend_requests-Asks_example :
    let a = c_addr 32 sample_addr sample_c_addr in
    let b = to_uint32 (pos 3) in
    Asks no_search
      (session_backends_status a)
      start
      (backends_status 32 sample_c_addr sample_addr start)
    × Asks no_search
        (session_backend_start_defrag a b)
        start
        (backend_start_defrag 32 sample_c_addr sample_addr (pos 3) start)
    × Asks no_search
        (session_backend_enable a b)
        start
        (backend_enable 32 sample_c_addr sample_addr (pos 3) start)
    × Asks no_search
        (session_backend_disable a b)
        start
        (backend_disable 32 sample_c_addr sample_addr (pos 3) start)
    × Asks no_search
        (session_backend_make_writable a b)
        start
        (backend_make_writable 32 sample_c_addr sample_addr (pos 3) start)
    × Asks no_search
        (session_backend_make_readonly a b)
        start
        (backend_make_read_only 32 sample_c_addr sample_addr (pos 3) start)
    × Asks no_search
        (session_backend_set_delay a b 20)
        start
        (backend_set_delay 32 sample_c_addr sample_addr (pos 3) 20 start)
backend_requests-Asks_example =
    backend_requests-Asks no_search 32 sample_c_addr sample_addr (pos 3) 20 start start_one_room
