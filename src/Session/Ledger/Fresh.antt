-- ===== src/Session/Ledger/Fresh.antt =====
-- A new request: its channel is made, its contexts are handed out, and its closures are stored.
use elliptics_go.Base.{ℕ, ◌+◌, ◌≤◌, ◌≡◌, ◌∙◌, refl, sym, [], Option, some, arith}
use elliptics_go.Base.Dict.{lookup-insert_self, lookup-insert_ne}
use elliptics_go.Base.Eq.{nat_eq}
use elliptics_go.Pool.{ContextPool, get, store}
use elliptics_go.Pool.Laws.{get-store}
use elliptics_go.Session.World.{Value, World, make_chan}
use elliptics_go.Session.Ledger.{Request, context, width, key_set}
use elliptics_go.Session.Ledger.Frame.{Within}
use elliptics_go.Session.Ledger.Turns.{IsOpen, Turn}
use elliptics_go.Session.Ledger.Answers.{open_with}

-- The state with a new channel, and with so many contexts handed out.
abbrev pub made : ℕ → World → World
made counter w = record (make_chan w).0 { pool = record w.pool { counter = counter } }

module _ {ks : Option ℕ} (w : World) where
  pub made-Within :
      (counter hi : ℕ)
      → w.pool.counter ≤ counter
      → Within w.next_chan (w.pool.counter + 1) hi ks w (made counter w)
  unfolding make_chan get
  made-Within counter hi le = record {
    contexts = λ k b. refl;
    chans = λ c ne. lookup-insert_ne w.next_chan c (open_with []) w.chans (λ e. ne (sym e));
    key_sets = λ k ne. refl;
    uploads = λ c ne. refl;
    grows = (le, omega arith, omega arith);
  }

pub made-IsOpen : (counter : ℕ) (w : World) → IsOpen w.next_chan (made counter w)
unfolding make_chan
made-IsOpen counter w = ([], lookup-insert_self w.next_chan (open_with []) w.chans)

-- Values stored under contexts that follow each other.
module _ (r : ℕ) (x y z : Value) (p : ContextPool Value) where
  pub stored_two :
      (get r (store (r + 1) y (store r x p)) ≡ some x)
      × (get (r + 1) (store (r + 1) y (store r x p)) ≡ some y)
  stored_two = (
    get-store (r + 1) r y (store r x p) ∙ ground (arith, get-store r r x p),
    get-store (r + 1) (r + 1) y (store r x p) ∙ ground arith,
  )

  pub stored_three :
      let p' = store (r + 2) z (store (r + 1) y (store r x p)) in
      (get r p' ≡ some x) × (get (r + 1) p' ≡ some y) × (get (r + 2) p' ≡ some z)
  stored_three =
      let p2 = store (r + 1) y (store r x p) in
      let (first, second) = stored_two in
      (
        get-store (r + 2) r z p2 ∙ ground (arith, first),
        get-store (r + 2) (r + 1) z p2 ∙ ground (arith, second),
        get-store (r + 2) (r + 2) z p2 ∙ ground arith,
      )

-- A new request that is under way.
abbrev pub Begun : Request → World → World → Type 0
Begun q w w' = Turn w.next_chan (context q) (context q + width q) (key_set q) (some q) w w'
