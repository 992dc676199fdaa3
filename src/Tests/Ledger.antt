-- ===== src/Tests/Ledger.antt =====
-- A read under way when a bulk read begins, and a read that is over.
use elliptics_go.Base.{
  ℕ, ◌+◌, ◌⊎◌, ◌≡◌, ◌≤◌, length, List, [], ◌∷◌, arith, Option, none, some, refl, String, Bool, true,
  false,
}
use elliptics_go.Base.Dict.{lookup, insert, delete}
use elliptics_go.Base.Eq.{nat_eq}
use elliptics_go.Base.Word.{add64}
use elliptics_go.Errors.{text}
use elliptics_go.Pool.{initial, get, store, next_context, delete_context}
use elliptics_go.Session.World.{
  reads, bulk_reads, World, start, session_read_data, session_bulk_read, send, close, make_chan,
  new_context, remember, issue, forget,
}
use elliptics_go.Session.Callback.{
  error_item, final_callback, call_final, finish, send_error, free_keys,
}
use elliptics_go.Session.Requests.{open_request, register}
use elliptics_go.Session.Ledger.{
  panics, waits, Ledger, serving, Move, begin, begin_bulk, begin_request, begin_bulk_request,
  called, perform, after, Reached, started, moved,
}
use elliptics_go.Session.Ledger
use elliptics_go.Session.Results.{Item}
use elliptics_go.Session.Ledger.Turns.{Agrees}
use elliptics_go.Session.Ledger.Answers.{open_with}
use elliptics_go.Session.Ledger.Reports.{Closes, Reached-Closes}
use elliptics_go.Session.Ledger.Sends.{sent_count}
use elliptics_go.Session.Ledger.Drained.{AllAllowed, perform_all, Reached-drained}
use elliptics_go.Session.Ledger.Promises.{Reached-Agrees, Reached-perform, Reached-quiet}

abbrev find_none : List String → List ℕ → Option String
find_none keys id = none

abbrev never_less : String → String → Bool
never_less s t = false

abbrev read_alpha : Move
read_alpha = begin reads (λ r f. session_read_data r f "alpha" 0 0)

abbrev read_both : Move
read_both = begin_bulk bulk_reads ("alpha" ∷ "beta" ∷ []) (λ r f. session_bulk_read r f [])

abbrev reading_ledger : Ledger
reading_ledger = (0, serving reads 1) ∷ []

unfoldable reading : World
reading = begin_request reads (λ r f. session_read_data r f "alpha" 0 0) start

reading-Reached : Reached find_none never_less reading_ledger reading
unfolding reading perform after start initial insert begin_request open_request register make_chan
    new_context next_context add64 remember store issue
reading-Reached = moved read_alpha started refl (omega arith) refl refl

-- The read has ended with an error.
unfoldable over : World
over = record start {
  pool = record { counter = 2; pool = [] };
  chans = (0, record { sent = error_item reads (text "gone") ∷ []; closed = true }) ∷ [];
  next_chan = 1;
  calls = session_read_data 1 2 "alpha" 0 0 ∷ [];
}

over-Reached : Reached find_none never_less [] over
unfolding over reading perform after start initial insert lookup delete begin_request open_request
    register make_chan new_context next_context add64 remember store issue get final_callback
    call_final finish send_error send close free_keys forget delete_context called error_item
over-Reached = moved (Ledger.finish 0 (some (text "gone"))) reading-Reached tt tt refl refl

Reached-Agrees_example : Agrees reading_ledger reading
Reached-Agrees_example = Reached-Agrees find_none never_less reading-Reached

Reached-perform_example :
    ((panics reading_ledger read_both ≡ true)
      × (perform find_none never_less reading_ledger read_both reading ≡ none))
    ⊎ ((panics reading_ledger read_both ≡ false)
        × ((w' : World) × (perform find_none never_less reading_ledger read_both reading
              ≡ some w')))
unfolding reading start initial begin_request open_request register make_chan new_context
    next_context add64 remember store issue
Reached-perform_example =
    Reached-perform find_none never_less reading-Reached read_both (λ k. refl) (omega arith)

Reached-quiet_example : ((k : ℕ) → get k over.pool ≡ none) × ((c : ℕ) → waits c over ≡ false)
Reached-quiet_example = Reached-quiet find_none never_less over-Reached

reading_there : lookup 0 reading_ledger ≡ some (serving reads 1)
unfolding lookup
reading_there = refl

Reached-Closes_example :
    (sent : List Item) × (lookup 0 reading.chans ≡ some (open_with sent))
    × Closes 0 sent
        (some (text "gone"))
        (perform find_none never_less reading_ledger (Ledger.finish 0 (some (text "gone"))) reading)
Reached-Closes_example =
    Reached-Closes find_none never_less 0 (serving reads 1) (some (text "gone")) reading-Reached
      reading_there tt

Reached-drained_example :
    (ms : List Move) × (w' : World) × AllAllowed find_none never_less ms reading_ledger reading
    × (length ms ≤ length reading_ledger)
    × (perform_all find_none never_less ms reading_ledger reading ≡ some ([], w'))
    × ((k : ℕ) → get k w'.pool ≡ none)
    × ((c : ℕ) → waits c w' ≡ false)
    × ((c : ℕ) → sent_count c w' ≤ sent_count c reading + 1)
Reached-drained_example = Reached-drained find_none never_less reading-Reached
