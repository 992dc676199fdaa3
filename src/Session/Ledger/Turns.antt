-- ===== src/Session/Ledger/Turns.antt =====
-- When the state agrees with the ledger, and that a step on one request keeps it so.
use elliptics_go.Base.{
  ℕ, ◌+◌, ◌≤◌, ◌<◌, ◌≡◌, ◌≢◌, ◌⊎◌, inl, inr, ◌∙◌, refl, sym, List, Option, none, some, String, true,
  false, arith,
}
use elliptics_go.Base.Dict.{lookup}
use elliptics_go.Base.Eq.{nat_eq}
use elliptics_go.Pool.{ContextPool, get}
use elliptics_go.Session.Results.{Item}
use elliptics_go.Session.World.{
  to_channel, Value, on_result, on_finish, on_write, on_write_finish, on_chunk, on_chunk_finish,
  on_status, chunk, Channel, Upload, World,
}
use elliptics_go.Session.Ledger.{
  Request, serving, writing, uploading, asking, context, width, key_set, Ledger,
}
use elliptics_go.Session.Ledger.Frame.{Beyond, Within}

-- The closures of a request on a channel, under its contexts.
abbrev pub Closures : ℕ → Request → ContextPool Value → Type 0
Closures ch (serving h r) p =
    (get r p ≡ some (on_result h ch)) × (get (r + 1) p ≡ some (on_finish h ch r (r + 1)))
Closures ch (writing r) p =
    (get r p ≡ some (on_write (to_channel ch)))
    × (get (r + 1) p ≡ some (on_write_finish (to_channel ch) r (r + 1) (r + 2)))
    × ((bytes : List ℕ) × (get (r + 2) p ≡ some (chunk bytes)))
Closures ch (uploading r) p =
    (get r p ≡ some (on_chunk ch))
    × (get (r + 1) p ≡ some (on_chunk_finish ch r (r + 1) (r + 2)))
    × ((bytes : List ℕ) × (get (r + 2) p ≡ some (chunk bytes)))
Closures ch (asking r) p = get r p ≡ some (on_status ch r)

abbrev pub HasKeys : Option ℕ → World → Type 0
HasKeys none w = Unit {0}
HasKeys (some k) w = ((ks : List String) × (lookup k w.key_sets ≡ some ks)) × (k < w.next_keys)

abbrev pub HasUpload : ℕ → Request → World → Type 0
HasUpload ch (uploading r) w = (u : Upload) × (lookup ch w.uploads ≡ some u)
HasUpload ch _ w = Unit {0}

abbrev pub IsOpen : ℕ → World → Type 0
IsOpen ch w =
    (sent : List Item) × (lookup ch w.chans ≡ some (record { sent = sent; closed = false }))

-- What a request needs so that its callbacks do not panic, but for an answer to a write: its closures, its channel open, its key
-- set and its variables; the numbers were handed out.
pub record Backed (ch : ℕ) (q : Request) (w : World) : Type 0 where
  pub closures : Closures ch q w.pool
  pub channel : IsOpen ch w
  pub keys : HasKeys (key_set q) w
  pub upload : HasUpload ch q w
  pub known : (context q + width q ≤ w.pool.counter + 1) × (ch < w.next_chan)

-- Another request than the one with these contexts, this channel and this key set.
pub record Distinct (c : ℕ) (q : Request) (ch lo hi : ℕ) (ks : Option ℕ) : Type 0 where
  pub channel : c ≢ ch
  pub contexts : (context q + width q ≤ lo) ⊎ (hi ≤ context q)
  pub keys : (k : ℕ) → key_set q ≡ some k → ks ≢ some k

abbrev pub Pair : ℕ → Request → ℕ → Request → Type 0
Pair c q ch p = Distinct c q ch (context p) (context p + width p) (key_set p)

pub Distinct-sym : (c ch : ℕ) (q p : Request) → Pair c q ch p → Pair ch p c q
Distinct-sym c ch q p d = record {
  channel = λ e. d.channel (sym e);
  contexts = ground (arith, d.contexts);
  keys = λ k mine theirs. d.keys k theirs mine;
}

-- A context of a request.
abbrev pub OfRequest : ℕ → Request → Type 0
OfRequest k q = (context q ≤ k) × (k < context q + width q)

-- The state has what each request needs, the requests share nothing, and it has nothing else: no
-- other context, and no other channel that is open.
pub record Agrees (l : Ledger) (w : World) : Type 0 where
  pub backed : (ch : ℕ) (q : Request) → lookup ch l ≡ some q → Backed ch q w
  pub sole :
      (c ch : ℕ) (q p : Request)
      → lookup c l ≡ some q
      → lookup ch l ≡ some p
      → c ≢ ch
      → Pair c q ch p
  pub owned :
      (k : ℕ) (v : Value)
      → get k w.pool ≡ some v
      → (c : ℕ) × (q : Request) × (lookup c l ≡ some q) × OfRequest k q
  pub shut :
      (c : ℕ) (x : Channel)
      → lookup c w.chans ≡ some x
      → (x.closed ≡ true) ⊎ ((q : Request) × (lookup c l ≡ some q))

-- What is in the step's region afterwards: a request with what it needs, or nothing.
abbrev pub Now : ℕ → ℕ → ℕ → Option ℕ → Option Request → World → Type 0
Now ch lo hi ks none w =
    ((k : ℕ) → lo ≤ k → k < hi → get k w.pool ≡ none)
    × ((x : Channel) × (lookup ch w.chans ≡ some x) × (x.closed ≡ true))
Now ch lo hi ks (some q) w =
    Backed ch q w × (context q ≡ lo) × (context q + width q ≡ hi) × (key_set q ≡ ks)

-- A step on one request.
pub record Turn (ch lo hi : ℕ) (ks : Option ℕ) (now : Option Request) (w w' : World) : Type 0 where
  pub within : Within ch lo hi ks w w'
  pub left : Now ch lo hi ks now w'

module _ {ch lo hi : ℕ} {ks : Option ℕ} {w w' : World} (t : Within ch lo hi ks w w') where
  context_kept :
      (c : ℕ) (q : Request) (k : ℕ)
      → Distinct c q ch lo hi ks
      → OfRequest k q
      → get k w'.pool ≡ get k w.pool
  context_kept c q k d (low, high) = t.contexts k (beyond d.contexts)
    where
      beyond : (context q + width q ≤ lo) ⊎ (hi ≤ context q) → Beyond lo hi k
      beyond (inl le) = inl (omega arith)
      beyond (inr le) = inr (omega arith)

  Closures-Within :
      (c : ℕ) (q : Request) → Distinct c q ch lo hi ks → Closures c q w.pool → Closures c q w'.pool
  Closures-Within c (serving h r) d (a, b) = (
    context_kept c (serving h r) r d (omega arith, omega arith) ∙ a,
    context_kept c (serving h r) (r + 1) d (omega arith, omega arith) ∙ b,
  )
  Closures-Within c (writing r) d (a, b, (bytes, e)) = (
    context_kept c (writing r) r d (omega arith, omega arith) ∙ a,
    context_kept c (writing r) (r + 1) d (omega arith, omega arith) ∙ b,
    (bytes, context_kept c (writing r) (r + 2) d (omega arith, omega arith) ∙ e),
  )
  Closures-Within c (uploading r) d (a, b, (bytes, e)) = (
    context_kept c (uploading r) r d (omega arith, omega arith) ∙ a,
    context_kept c (uploading r) (r + 1) d (omega arith, omega arith) ∙ b,
    (bytes, context_kept c (uploading r) (r + 2) d (omega arith, omega arith) ∙ e),
  )
  Closures-Within c (asking r) d a = context_kept c (asking r) r d (omega arith, omega arith) ∙ a

  HasKeys-Within :
      (held : Option ℕ) → ((k : ℕ) → held ≡ some k → ks ≢ some k) → HasKeys held w → HasKeys held w'
  HasKeys-Within none ne has = tt
  HasKeys-Within (some k) ne ((names, e), lt) =
      ((names, t.key_sets k (ne k refl) ∙ e), omega (arith, t.grows.2))

  HasUpload-Within : (c : ℕ) (q : Request) → c ≢ ch → HasUpload c q w → HasUpload c q w'
  HasUpload-Within c (uploading r) ne (u, e) = (u, t.uploads c ne ∙ e)
  HasUpload-Within c (serving h r) ne has = tt
  HasUpload-Within c (writing r) ne has = tt
  HasUpload-Within c (asking r) ne has = tt

  -- Another request keeps what it needs.
  pub Backed-Within :
      (c : ℕ) (q : Request) → Distinct c q ch lo hi ks → Backed c q w → Backed c q w'
  Backed-Within c q d b = record {
    closures = Closures-Within c q d b.closures;
    channel = (b.channel.0, t.chans c d.channel ∙ b.channel.1);
    keys = HasKeys-Within (key_set q) d.keys b.keys;
    upload = HasUpload-Within c q d.channel b.upload;
    known = (omega (arith, b.known.0, t.grows.0), omega (arith, b.known.1, t.grows.1));
  }

-- The ledger afterwards: changed at one channel only.
pub record Updates (l : Ledger) (ch : ℕ) (now : Option Request) (l' : Ledger) : Type 0 where
  pub others : (c : ℕ) → c ≢ ch → lookup c l' ≡ lookup c l
  pub own : lookup ch l' ≡ now
