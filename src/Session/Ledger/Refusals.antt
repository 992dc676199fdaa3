-- ===== src/Session/Ledger/Refusals.antt =====
-- A request that fails at once: it leaves a new channel that is closed, and nothing else.
use elliptics_go.Base.{
  ℕ, ◌+◌, ◌<◌, ◌≡◌, ◌∙◌, refl, List, [], ◌∷◌, ◌++◌, Option, none, some, ◌>>=◌, String, false, arith,
}
use elliptics_go.Base.Word.{add64, u64_mod, add64_exact}
use elliptics_go.Base.Dict.{lookup-insert_self}
use elliptics_go.Base.Eq.{nat_eq}
use elliptics_go.Errors.{Error, text}
use elliptics_go.Pool.{next_context}
use elliptics_go.Session.Results.{Item, lookup_item, lookup_error}
use elliptics_go.Session.World.{World, send, close, make_chan, new_context}
use elliptics_go.Session.Requests.{new_key, parallel_lookup, failed_chan}
use elliptics_go.Session.Writes.{refuse}
use elliptics_go.Session.Delivery.Own.{with_chan}
use elliptics_go.Session.Ledger.Frame.{Within, with_chan-Within}
use elliptics_go.Session.Ledger.Turns.{IsOpen, Turn}
use elliptics_go.Session.Ledger.Answers.{open_with, closed_with, send-open, close-open}
use elliptics_go.Session.Ledger.Fresh.{made, made-Within, made-IsOpen}

-- A new channel that is closed, and nothing else.
abbrev pub Refuses : World → World → Type 0
Refuses w w' = Turn w.next_chan (w.pool.counter + 1) (w.pool.counter + 1) none none w w'

-- An error is sent on the new channel, which is closed.
pub told_closed :
    (w v : World) (sent : List Item)
    → Within w.next_chan (w.pool.counter + 1) (w.pool.counter + 1) none w v
    → Refuses w (with_chan w.next_chan (closed_with sent) v)
told_closed w v sent p = record {
  within = with_chan-Within p (closed_with sent);
  left = (
    λ k low high. absurd (omega arith),
    (closed_with sent, lookup-insert_self w.next_chan (closed_with sent) v.chans, refl),
  );
}

pub refuse_open :
    (w v : World) (item : Item)
    → Within w.next_chan (w.pool.counter + 1) (w.pool.counter + 1) none w v
    → IsOpen w.next_chan v
    → let ch = w.next_chan in
      let with_channel : World → Option (World × ℕ) = λ ended. some (ended, ch) in
      (w' : World) × ((do told ← send ch item v; ended ← close ch told; with_channel ended)
        ≡ some (w', ch))
      × Refuses w w'
      × (w'.calls ≡ v.calls)
refuse_open w v item p (sent, here) =
    let ch = w.next_chan in
    let sent' = sent ++ item ∷ [] in
    let v1 = with_chan ch (open_with sent') v in
    (
      with_chan ch (closed_with sent') v1,
      simp (
        send-open ch v sent item here,
        close-open ch v1 sent' (lookup-insert_self ch (open_with sent') v.chans),
      ),
      told_closed w v1 sent' (with_chan-Within p (open_with sent')),
      refl,
    )

pub refuse-Refuses :
    (w v : World) (e : Error)
    → Within w.next_chan (w.pool.counter + 1) (w.pool.counter + 1) none w v
    → IsOpen w.next_chan v
    → (w' : World) × (refuse w.next_chan e v ≡ some (w', w.next_chan))
      × Refuses w w'
      × (w'.calls ≡ v.calls)
unfolding refuse
refuse-Refuses w v e p is_open = refuse_open w v (lookup_item (lookup_error e)) p is_open

pub failed_chan-Refuses :
    (item : Item) (w : World)
    → (w' : World) × (failed_chan item w ≡ some (w', w.next_chan)) × Refuses w w'
unfolding failed_chan make_chan
failed_chan-Refuses item w =
    let n = w.pool.counter in
    let (w', run, t, _) =
      refuse_open w (made n w) item (made-Within w n (n + 1) (omega arith)) (made-IsOpen n w) in
    (w', run, t)

parallel_lookup_lem :
    (kstr : String) (w : World)
    → w.pool.counter + 3 < u64_mod
    → let ch = w.next_chan in
      let item = lookup_item (lookup_error (text "could not create new key")) in
      let with_channel : World → Option (World × ℕ) = λ ended. some (ended, ch) in
      parallel_lookup false kstr w ≡ (do
        told ← send ch item (made (w.pool.counter + 2) w)
        ended ← close ch told
        with_channel ended)
unfolding parallel_lookup new_key make_chan new_context next_context
parallel_lookup_lem kstr w lt =
    let n = w.pool.counter in
    let one : add64 n 1 ≡ n + 1 = add64_exact n 1 (omega arith) in
    let two : add64 (n + 1) 1 ≡ n + 2 = add64_exact (n + 1) 1 (omega arith) ∙ omega arith in
    rw (one, two) refl

-- The contexts of a parallel lookup are handed out before its key fails, and nothing is stored under
-- them.
pub parallel_lookup-Refuses :
    (kstr : String) (w : World)
    → w.pool.counter + 3 < u64_mod
    → (w' : World) × (parallel_lookup false kstr w ≡ some (w', w.next_chan)) × Refuses w w'
parallel_lookup-Refuses kstr w lt =
    let n = w.pool.counter in
    let (w', run, t, _) =
      refuse_open w (made (n + 2) w) (lookup_item (lookup_error (text "could not create new key")))
        (made-Within w (n + 2) (n + 1) (omega arith)) (made-IsOpen (n + 2) w) in
    (w', parallel_lookup_lem kstr w lt ∙ run, t)
