-- ===== src/Session/Delivery/Begin.antt =====
-- A new request, and what it means for the requests under way.
use elliptics_go.Base.{
  ℕ, ◌+◌, ◌≤◌, ◌<◌, ◌≡◌, ◌≢◌, ◌%◌, refl, sym, List, [], Option, some, String, false, arith, ◌∙◌,
}
use elliptics_go.Base.Dict.{lookup, lookup-insert_self}
use elliptics_go.Base.Eq.{nat_eq, eq_refl, eq_of_ne}
use elliptics_go.Base.Word.{u64_mod, add64}
use elliptics_go.Pool.{get, store, next_context}
use elliptics_go.Pool.Laws.{get-store}
use elliptics_go.Session.Results.{Item}
use elliptics_go.Session.World.{on_chunk, on_chunk_finish, on_status}
use elliptics_go.Session.World.{
  Handler, Sink, to_channel, to_caller, nowhere, Value, on_result, on_finish, on_write,
  on_write_finish, chunk, World, remember, new_context, make_chan,
}
use elliptics_go.Session.Requests.{Opened, open_request, register}
use elliptics_go.Session.Writes.{register_write}
use elliptics_go.Session.Delivery.{Live, Apart, OtherSink, OtherContext, OtherKeys, Holds, keys_of}
use elliptics_go.Session.Delivery.Frame.{remember-Live, new_context-Live, make_chan-Live}

module _ {o : Opened} {h : Handler} {ks : List String} {sent : List Item} where
  pub topped :
      {top more : ℕ} {w : World} → top ≤ more → Live o h ks sent top w → Live o h ks sent more w
  topped le live = record {
    result = live.result;
    finisher = live.finisher;
    channel = live.channel;
    keys = live.keys;
    known = live.known;
    room = omega (arith, live.room);
    apart = live.apart;
  }

module _ {o : Opened} {h : Handler} {ks : List String} {sent : List Item} {top : ℕ} where
  pub newer : (k : ℕ) (w : World) → Live o h ks sent top w → w.pool.counter < k → OtherContext o k
  newer k w live lt = (omega (arith, live.known.0), omega (arith, live.known.1))

  pub register-Live :
      (h' : Handler) (ch : ℕ) (w : World)
      → Live o h ks sent top w
      → ch ≢ o.ch
      → OtherKeys (keys_of h') (keys_of h)
      → top + 2 < u64_mod
      → Live o h ks sent (top + 2) (register h' ch w).0
  unfolding register remember store
  register-Live h' ch w live ne nk lt =
      let (l1, e1, c1) = new_context-Live live (omega arith) in
      let (l2, e2, c2) = new_context-Live l1 (omega (arith, c1)) in
      let r_new = newer (new_context w).1 w live (omega (arith, e1)) in
      let f_new = newer (new_context (new_context w).0).1 w live (omega (arith, e2, c1)) in
      let l3 = remember-Live l2 (new_context w).1 (on_result h' ch) r_new ne in
      topped (omega arith) (remember-Live l3 _ (on_finish h' ch _ _) f_new (ne, r_new, f_new, nk))

  -- A request of another kind, and a write to a channel.
  pub open_request-Live :
      (h' : Handler) (w : World)
      → Live o h ks sent top w
      → OtherKeys (keys_of h') (keys_of h)
      → top + 2 < u64_mod
      → Live o h ks sent (top + 2) (open_request h' w).0
  unfolding open_request make_chan
  open_request-Live h' w live nk lt =
      let (l1, ne, same) = make_chan-Live live in
      register-Live h' w.next_chan (make_chan w).0 l1 ne nk lt

  pub register_write-Live :
      (ch : ℕ) (bytes : List ℕ) (w : World)
      → Live o h ks sent top w
      → ch ≢ o.ch
      → top + 3 < u64_mod
      → Live o h ks sent (top + 3) (register_write (to_channel ch) (to_channel ch) bytes w).0
  unfolding register_write remember store
  register_write-Live ch bytes w live ne lt =
      let (l1, e1, c1) = new_context-Live live (omega arith) in
      let (l2, e2, c2) = new_context-Live l1 (omega (arith, c1)) in
      let (l3, e3, c3) = new_context-Live l2 (omega (arith, c1, c2)) in
      let r_new = newer (new_context w).1 w live (omega (arith, e1)) in
      let f_new = newer (new_context (new_context w).0).1 w live (omega (arith, e2, c1)) in
      let c_new =
        newer (new_context (new_context (new_context w).0).0).1 w live
          (omega (arith, e3, c2, c1)) in
      let l4 = remember-Live l3 (new_context w).1 (on_write (to_channel ch)) r_new ne in
      let l5 =
        remember-Live l4 _ (on_write_finish (to_channel ch) _ _ _) f_new
          (ne, r_new, f_new, c_new) in
      topped (omega arith) (remember-Live l5 _ (chunk bytes) c_new tt)

-- The numbers in a closure were handed out.
abbrev pub MadeSink : World → Sink → Type 0
MadeSink w (to_channel ch) = ch < w.next_chan
MadeSink w _ = Unit {0}

abbrev pub Made : World → Option ℕ → Value → Type 0
Made w keys (on_result h ch) = ch < w.next_chan
Made w keys (on_finish h ch r f) =
    (ch < w.next_chan) × (r ≤ w.pool.counter) × (f ≤ w.pool.counter) × OtherKeys (keys_of h) keys
Made w keys (on_write sink) = MadeSink w sink
Made w keys (on_write_finish sink r f c) =
    MadeSink w sink × (r ≤ w.pool.counter) × (f ≤ w.pool.counter) × (c ≤ w.pool.counter)
Made w keys (chunk bytes) = Unit {0}
Made w keys (on_chunk ch) = ch < w.next_chan
Made w keys (on_chunk_finish ch r f c) =
    (ch < w.next_chan) × (r ≤ w.pool.counter) × (f ≤ w.pool.counter) × (c ≤ w.pool.counter)
Made w keys (on_status ch k) = (ch < w.next_chan) × (k ≤ w.pool.counter)

-- Every closure in the pool is about what was handed out, and not about the key set `keys`.
abbrev pub Orderly : Option ℕ → World → Type 0
Orderly keys w = (k : ℕ) (v : Value) → get k w.pool ≡ some v → Made w keys v

Made-Apart :
    (o : Opened) (keys : Option ℕ) (w : World) (v : Value)
    → o.ch ≡ w.next_chan
    → w.pool.counter < o.r
    → w.pool.counter < o.f
    → Made w keys v
    → Apart o keys v
Made-Apart o keys w (on_result h ch) e r f m = omega arith
Made-Apart o keys w (on_finish h ch a b) e r f (m, ma, mb, mk) =
    (omega arith, (omega arith, omega arith), (omega arith, omega arith), mk)
Made-Apart o keys w (on_write (to_channel ch)) e r f m = omega arith
Made-Apart o keys w (on_write (to_caller u)) e r f m = tt
Made-Apart o keys w (on_write nowhere) e r f m = tt
Made-Apart o keys w (on_write_finish sink a b c) e r f (m, ma, mb, mc) = (
  sink_apart sink m,
  (omega arith, omega arith),
  (omega arith, omega arith),
  (omega arith, omega arith),
)
  where
    sink_apart : (sink : Sink) → MadeSink w sink → OtherSink o.ch sink
    sink_apart (to_channel ch) m = omega arith
    sink_apart (to_caller u) m = tt
    sink_apart nowhere m = tt
Made-Apart o keys w (chunk bytes) e r f m = tt
Made-Apart o keys w (on_chunk ch) e r f m = omega arith
Made-Apart o keys w (on_chunk_finish ch a b c) e r f (m, ma, mb, mc) = (
  omega arith,
  (omega arith, omega arith),
  (omega arith, omega arith),
  (omega arith, omega arith),
)
Made-Apart o keys w (on_status ch k) e r f (m, mk) = (omega arith, (omega arith, omega arith))

-- The closures of a request, once stored, make it a request under way.
stored-Live :
    (o : Opened) (h : Handler) (ks : List String) (w : World)
    → o.r ≢ o.f
    → lookup o.ch w.chans ≡ some (record { sent = []; closed = false })
    → Holds (keys_of h) ks w.key_sets
    → (o.r ≤ w.pool.counter) × (o.f ≤ w.pool.counter) × (o.ch < w.next_chan)
    → ((k : ℕ) (v : Value) → get k w.pool ≡ some v → Apart o (keys_of h) v)
    → Live o h ks [] w.pool.counter
        (remember o.f (on_finish h o.ch o.r o.f) (remember o.r (on_result h o.ch) w))
unfolding remember store
stored-Live o h ks w ne open_chan held known others =
    let first = store o.r (on_result h o.ch) w.pool in
    record {
      result =
          get-store o.f o.r (on_finish h o.ch o.r o.f) first
          ∙ simp (
            eq_of_ne o.f o.r (λ e. ne (sym e)),
            get-store o.r o.r (on_result h o.ch) w.pool,
            eq_refl o.r,
          );
      finisher = get-store o.f o.f (on_finish h o.ch o.r o.f) first ∙ simp (eq_refl o.f);
      channel = open_chan;
      keys = held;
      known = known;
      room = omega arith;
      apart = λ k v e other. others k v (
          sym (
            get-store o.r k (on_result h o.ch) w.pool
            ∙ simp (eq_of_ne o.r k (λ same. other.0 (sym same))))
          ∙ sym (
              get-store o.f k (on_finish h o.ch o.r o.f) first
              ∙ simp (eq_of_ne o.f k (λ same. other.1 (sym same))))
          ∙ e);
    }

-- A request in an orderly world is under way, with nothing sent.
pub open_request-begins :
    (h : Handler) (ks : List String) (w : World)
    → Orderly (keys_of h) w
    → Holds (keys_of h) ks w.key_sets
    → w.pool.counter + 2 < u64_mod
    → Live (open_request h w).1 h ks [] (w.pool.counter + 2) (open_request h w).0
unfolding open_request register make_chan new_context next_context add64 get
open_request-begins h ks w orderly held lt =
    let r_exact : (w.pool.counter + 1) % u64_mod ≡ w.pool.counter + 1 = omega arith in
    let f_exact : ((w.pool.counter + 1) % u64_mod + 1) % u64_mod ≡ w.pool.counter + 2 =
      omega (arith, r_exact) in
    let o : Opened = (open_request h w).1 in
    topped (omega (arith, f_exact)) (
      stored-Live o h ks (new_context (new_context (make_chan w).0).0).0
        (omega (arith, r_exact, f_exact))
        (lookup-insert_self w.next_chan (record { sent = []; closed = false }) w.chans) held
        (omega (arith, r_exact, f_exact), omega (arith, r_exact, f_exact), omega arith)
        (λ k v e.
          Made-Apart o (keys_of h) w v refl (omega (arith, r_exact)) (omega (arith, f_exact))
            (orderly k v e)))
