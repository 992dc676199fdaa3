-- ===== src/Session/Ledger/Drained.antt =====
-- C can end all that is under way, with one callback for each request.
use elliptics_go.Base.{
  ℕ, zero, suc, ◌+◌, ◌≤◌, ◌≡◌, ap, refl, sym, subst, arith, List, [], ◌∷◌, Option, none, some,
  ◌>>=◌, String, Bool, false, length,
}
use elliptics_go.Base.Dict.{lookup, delete}
use elliptics_go.Base.Eq.{nat_eq, eq_refl}
use elliptics_go.Errors.{Error, text}
use elliptics_go.Pool.{get}
use elliptics_go.Session.Callback.{status_reply}
use elliptics_go.Session.World.{World}
use elliptics_go.Session.Ledger.{
  waits, Request, serving, writing, uploading, asking, Ledger, Move, answer, finish, Ends, Allows,
  HasRoom, perform, after, Reached, moved,
}
use elliptics_go.Session.Ledger.Answers.{result_callback-Turn}
use elliptics_go.Session.Ledger.Ends.{IsLast, final_callback-Over}
use elliptics_go.Session.Ledger.Safe.{same_calls}
use elliptics_go.Session.Ledger.Reports.{Reached-Closes}
use elliptics_go.Session.Ledger.Sends.{
  FewSent, allowance, allowance_le, sent_further, head_there, sent_of, sent_count, closed_few,
  answered_few,
}
use elliptics_go.Session.Ledger.Promises.{Reached-Agrees, Reached-quiet}

-- A callback of C, not a new request.
abbrev pub IsCallback : Move → Type 0
IsCallback (answer ch reply) = Unit {0}
IsCallback (finish ch e) = Unit {0}
IsCallback _ = ⊥

-- The error with which a request is stopped: a chunked write goes on after an end with none.
abbrev pub stop : Request → Option Error
stop (uploading r) = some (text "stopped")
stop (serving h r) = none
stop (writing r) = none
stop (asking r) = none

-- The callback that ends a request.
abbrev pub last_move : ℕ → Request → Move
last_move ch (asking r) = answer ch (status_reply (record { backends = []; error = none }))
last_move ch q = finish ch (stop q)

length-delete : (ch : ℕ) (l : Ledger) → length (delete ch l) ≤ length l
unfolding delete
length-delete ch [] = omega arith
length-delete ch ((c, q) ∷ l) = ground (arith, length-delete ch l)

head_gone :
    (n ch : ℕ) (q : Request) (l : Ledger)
    → suc (length l) ≤ suc n
    → length (delete ch ((ch, q) ∷ l)) ≤ n
unfolding delete
head_gone n ch q l le = rw (eq_refl ch) (let shrunk = length-delete ch l in omega arith)

module _ (keys_find : List String → List ℕ → Option String)
    (string_less : String → String → Bool) where
  -- Some moves one after another.
  unfoldable pub perform_all : List Move → Ledger → World → Option (Ledger × World)
  perform_all [] l w = some (l, w)
  perform_all (m ∷ ms) l w = do
    w' ← perform keys_find string_less l m w
    perform_all ms (after l m w w') w'

  -- A request is ended by that callback, and is gone from the ledger.
  abbrev pub EndedOne : ℕ → Ledger → World → Move → Type 0
  EndedOne ch l w m =
      IsCallback m
      × ((w' : World) × Allows l m
          × HasRoom m w
          × (perform keys_find string_less l m w ≡ some w')
          × (delete ch l ≡ after l m w w')
          × FewSent ch w w')

  finished_one :
      (ch : ℕ) (q : Request) (l : Ledger) (w : World)
      → Reached keys_find string_less l w
      → lookup ch l ≡ some q
      → Ends q
      → IsLast q (stop q)
      → EndedOne ch l w (finish ch (stop q))
  unfolding perform after
  finished_one ch q l w reached there ends last =
      let e = stop q in
      let b = (Reached-Agrees keys_find string_less reached).backed ch q there in
      let (w', run, leaves, same) = final_callback-Over ch q e w b last in
      let (sent, here, closes) = Reached-Closes keys_find string_less ch q e reached there last in
      let done : perform keys_find string_less l (finish ch e) w ≡ some w' = rw there run in
      (
        tt,
        (
          w',
          rw there ends,
          tt,
          done,
          rw (same_calls w w' same) refl,
          (
            λ c ne. ap sent_of (leaves.within.chans c ne),
            closed_few ch sent e w w' (perform keys_find string_less l (finish ch e) w) here closes
                done,
          ),
        ),
      )

  ended_one :
      (ch : ℕ) (q : Request) (l : Ledger) (w : World)
      → Reached keys_find string_less l w
      → lookup ch l ≡ some q
      → EndedOne ch l w (last_move ch q)
  unfolding perform after
  ended_one ch (asking r) l w reached there =
      let b = (Reached-Agrees keys_find string_less reached).backed ch (asking r) there in
      let reply = status_reply (record { backends = []; error = none }) in
      let (w', run, t) = result_callback-Turn keys_find ch (asking r) reply w b tt refl in
      let few = answered_few keys_find ch r (record { backends = []; error = none }) w b w' run in
      (
        tt,
        (
          w',
          rw there tt,
          tt,
          rw there run,
          rw there refl,
          (λ c ne. ap sent_of (t.within.chans c ne), few),
        ),
      )
  ended_one ch (serving h r) l w reached there =
      finished_one ch (serving h r) l w reached there tt tt
  ended_one ch (writing r) l w reached there = finished_one ch (writing r) l w reached there tt tt
  ended_one ch (uploading r) l w reached there =
      finished_one ch (uploading r) l w reached there tt tt

  -- Each of the moves is a callback that the contract of C allows, in the state where it happens.
  abbrev pub AllAllowed : List Move → Ledger → World → Type 0
  AllAllowed [] l w = Unit {0}
  AllAllowed (m ∷ ms) l w =
      IsCallback m
      × Allows l m
      × ((w' : World)
          → perform keys_find string_less l m w ≡ some w'
          → AllAllowed ms (after l m w w') w')

  -- Callbacks of C, at most `n` of them, after which nothing is under way.
  abbrev pub Drains : ℕ → Ledger → World → Type 0
  Drains n l w =
      (ms : List Move) × (w' : World) × AllAllowed ms l w
      × (length ms ≤ n)
      × (perform_all ms l w ≡ some ([], w'))
      × Reached keys_find string_less [] w'
      × ((c : ℕ) → sent_count c w' ≤ sent_count c w + allowance (lookup c l))

  drained :
      (n : ℕ) (l : Ledger) (w : World)
      → length l ≤ n
      → Reached keys_find string_less l w
      → Drains n l w
  unfolding perform_all
  drained n [] w le reached = ([], w, tt, omega arith, refl, reached, λ c. omega arith)
  drained zero (e ∷ l) w le reached = absurd (omega arith)
  drained (suc n) ((ch, q) ∷ l) w le reached =
      let (callback, (w1, allowed, room, run, next, few_sent)) =
        ended_one ch q ((ch, q) ∷ l) w reached (head_there ch q l) in
      let m = last_move ch q in
      let reached' = moved m reached allowed room run next in
      let (ms, w', callbacks, few, runs, quiet, sent_few) =
        drained n (delete ch ((ch, q) ∷ l)) w1 (head_gone n ch q l le) reached' in
      (
        m ∷ ms,
        w',
        (
          callback,
          allowed,
          λ w2 run2.
              let same : w1 ≡ w2 = cc in
              subst (λ x. AllAllowed ms (after ((ch, q) ∷ l) m w x) x) same
                (subst (λ k. AllAllowed ms k w1) next callbacks),
        ),
        omega arith,
        rw run (rw (sym next) runs),
        quiet,
        λ c. sent_further ch c q l w w1 w' few_sent (sent_few c),
      )

  -- From every state that C and the program reach together, callbacks of C that its contract
  -- allows, at most one for each request under way, go on without a panic to a state where C has no
  -- call: the pool is empty, and every channel that was made is closed. They send at most one value
  -- on each channel, so none of them waits where every buffer has room for one.
  pub Reached-drained :
      {l : Ledger} {w : World}
      → Reached keys_find string_less l w
      → (ms : List Move) × (w' : World) × AllAllowed ms l w
        × (length ms ≤ length l)
        × (perform_all ms l w ≡ some ([], w'))
        × ((k : ℕ) → get k w'.pool ≡ none)
        × ((c : ℕ) → waits c w' ≡ false)
        × ((c : ℕ) → sent_count c w' ≤ sent_count c w + 1)
  Reached-drained {l} {w} reached =
      let (ms, w', callbacks, few, runs, quiet, sent_few) =
        drained (length l) l w (omega arith) reached in
      let (empty, closed) = Reached-quiet keys_find string_less quiet in
      (
        ms,
        w',
        callbacks,
        few,
        runs,
        empty,
        closed,
        λ c.
            let small = allowance_le (lookup c l) in
            let sent = sent_few c in omega (arith, small, sent),
      )
