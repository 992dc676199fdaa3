-- ===== src/Session/Delivery/Order.antt =====
-- The numbers in the closures of a world, and new requests.
pub mod Uploads
pub mod Runs
use elliptics_go.Base.{
  ℕ, ◌+◌, ◌*◌, ◌≤◌, ◌<◌, ◌≡◌, refl, List, [], ◌∷◌, Option, none, some, >>=-eq-some, String, eqb,
  arith, Bool-cases, inl, inr, subst, length,
}
use elliptics_go.Base.Word.{u64_mod, add64, add64_exact}
use elliptics_go.Base.Eq.{nat_eq}
use elliptics_go.Pool.{get, store, next_context, initial}
use elliptics_go.Pool.Laws.{get-store}
use elliptics_go.Session.World.{
  Handler, Sink, to_channel, to_caller, nowhere, Value, on_result, on_finish, on_write,
  on_write_finish, chunk, World, start, remember, new_context, make_chan,
}
use elliptics_go.Session.Requests.{open_request, register}
use elliptics_go.Session.Writes.{register_write}
use elliptics_go.Session.Delivery.{
  Event, reply, final, begin, begin_write, step, run, OtherKeys, keys_of,
}
use elliptics_go.Session.Delivery.Frame.{stored-eq}
use elliptics_go.Session.Delivery.Begin.{Made, MadeSink, Orderly}
use elliptics_go.Session.Delivery.Shrinks.{
  Shrinks, same-Shrinks, chain-Shrinks, send-Shrinks, close-Shrinks,
}
use elliptics_go.Session.Delivery.Shrinks.Callbacks.{
  result_callback-Shrinks, final_callback-Shrinks,
}
use elliptics_go.Session.World.{
  on_chunk, on_chunk_finish, on_status, send, close, Upload, set_upload, issue,
}
use elliptics_go.Session.Uploads.{
  write_chunk, announce, first_read, begin_chunks, report_empty, register_chunks, prepare_call,
}
use elliptics_go.Session.Chunks.{took}
use elliptics_go.Session.Writes.{refuse}
use elliptics_go.Session.Backends.{open_status}
use elliptics_go.Session.Results.{lookup_item, lookup_error}
use elliptics_go.Errors.{Error, text}
use elliptics_go.Session.Delivery.{begin_upload, begin_status}
use elliptics_go.Base.Dict.{lookup}

-- More may be handed out.
MadeSink-grows :
    (w w' : World) (sink : Sink) → w.next_chan ≤ w'.next_chan → MadeSink w sink → MadeSink w' sink
MadeSink-grows w w' (to_channel ch) le m = omega arith
MadeSink-grows w w' (to_caller u) le m = tt
MadeSink-grows w w' nowhere le m = tt

Made-grows :
    (w w' : World) (v : Value)
    → w.next_chan ≤ w'.next_chan
    → w.pool.counter ≤ w'.pool.counter
    → Made w none v
    → Made w' none v
Made-grows w w' (on_result h ch) n c m = omega arith
Made-grows w w' (on_finish h ch r f) n c (m, mr, mf, mk) =
    (omega arith, omega arith, omega arith, mk)
Made-grows w w' (on_write sink) n c m = MadeSink-grows w w' sink n m
Made-grows w w' (on_write_finish sink r f k) n c (m, mr, mf, mk) =
    (MadeSink-grows w w' sink n m, omega arith, omega arith, omega arith)
Made-grows w w' (chunk bytes) n c m = tt
Made-grows w w' (on_chunk ch) n c m = omega arith
Made-grows w w' (on_chunk_finish ch r f k) n c (m, mr, mf, mk) =
    (omega arith, omega arith, omega arith, omega arith)
Made-grows w w' (on_status ch k) n c (m, mk) = (omega arith, omega arith)

pub Shrinks-Orderly : (w w' : World) → Shrinks w w' → Orderly none w → Orderly none w'
Shrinks-Orderly w w' (n, c, p) orderly k v e =
    Made-grows w w' v (omega arith) (omega arith) (orderly k v (p k v e))

pub remember-Orderly :
    (k : ℕ) (v : Value) (w : World) → Made w none v → Orderly none w → Orderly none (remember k v w)
unfolding remember store
remember-Orderly k v w made orderly j u e = elim (Bool-cases (eqb k j)) [
  | inl same ↦
      Made-grows w (remember k v w) u (omega arith) (omega arith)
        (subst (Made w none) (stored-eq k j v u w.pool e same) made)
  | inr ne ↦
      Made-grows w (remember k v w) u (omega arith) (omega arith)
        (orderly j u (rw (get-store k j v w.pool, ne) at e))
]

OtherKeys-none : (k : Option ℕ) → OtherKeys k none
OtherKeys-none none = tt
OtherKeys-none (some k) = tt

-- A world that handed out at most `top` contexts, in order.
abbrev pub Ordered : ℕ → World → Type 0
Ordered top w = Orderly none w × (w.pool.counter ≤ top)

pub new_context-Ordered :
    (top : ℕ) (w : World)
    → Ordered top w
    → top + 1 < u64_mod
    → Ordered (top + 1) (new_context w).0
      × ((new_context w).1 ≤ (new_context w).0.pool.counter)
      × ((new_context w).0.next_chan ≡ w.next_chan)
      × (w.pool.counter ≤ (new_context w).0.pool.counter)
unfolding new_context next_context get
new_context-Ordered top w (orderly, le) lt =
    let exact : add64 w.pool.counter 1 ≡ w.pool.counter + 1 =
      add64_exact w.pool.counter 1 (omega arith) in
    (
      (
        λ k v e.
            Made-grows w (new_context w).0 v (omega arith) (omega (arith, exact)) (orderly k v e),
        omega (arith, exact),
      ),
      omega arith,
      refl,
      omega (arith, exact),
    )

pub make_chan-Ordered :
    (top : ℕ) (w : World)
    → Ordered top w
    → Ordered top (make_chan w).0 × ((make_chan w).1 < (make_chan w).0.next_chan)
unfolding make_chan
make_chan-Ordered top w (orderly, le) = (
  (λ k v e. Made-grows w (make_chan w).0 v (omega arith) (omega arith) (orderly k v e), le),
  omega arith,
)

pub register-Ordered :
    (h : Handler) (ch top : ℕ) (w : World)
    → Ordered top w
    → ch < w.next_chan
    → top + 2 < u64_mod
    → Ordered (top + 2) (register h ch w).0
unfolding register remember store
register-Ordered h ch top w ord made lt =
    let (o1, r_made, n1, c1) = new_context-Ordered top w ord (omega arith) in
    let (o2, f_made, n2, c2) = new_context-Ordered (top + 1) (new_context w).0 o1 (omega arith) in
    let w2 = (new_context (new_context w).0).0 in
    let r = (new_context w).1 in
    let f = (new_context (new_context w).0).1 in
    let s1 = remember-Orderly r (on_result h ch) w2 (omega (arith, n1, n2)) o2.0 in
    (
      remember-Orderly f (on_finish h ch r f) (remember r (on_result h ch) w2)
          (omega (arith, n1, n2), omega (arith, r_made, c2), f_made, OtherKeys-none (keys_of h)) s1,
      omega (arith, o2.1),
    )

pub register_write-Ordered :
    (ch top : ℕ) (bytes : List ℕ) (w : World)
    → Ordered top w
    → ch < w.next_chan
    → top + 3 < u64_mod
    → Ordered (top + 3) (register_write (to_channel ch) (to_channel ch) bytes w).0
unfolding register_write remember store
register_write-Ordered ch top bytes w ord made lt =
    let (o1, r_made, n1, c1) = new_context-Ordered top w ord (omega arith) in
    let (o2, f_made, n2, c2) = new_context-Ordered (top + 1) (new_context w).0 o1 (omega arith) in
    let w2 = (new_context (new_context w).0).0 in
    let (o3, c_made, n3, c3) = new_context-Ordered (top + 1 + 1) w2 o2 (omega arith) in
    let w3 = (new_context w2).0 in
    let r = (new_context w).1 in
    let f = (new_context (new_context w).0).1 in
    let c = (new_context w2).1 in
    let s1 = remember-Orderly r (on_write (to_channel ch)) w3 (omega (arith, n1, n2, n3)) o3.0 in
    let w4 = remember r (on_write (to_channel ch)) w3 in
    let s2 =
      remember-Orderly f (on_write_finish (to_channel ch) r f c) w4
        (
          omega (arith, n1, n2, n3),
          omega (arith, r_made, c2, c3),
          omega (arith, f_made, c3),
          c_made,
        )
        s1 in
    (
      remember-Orderly c (chunk bytes) (remember f (on_write_finish (to_channel ch) r f c) w4) tt
          s2,
      omega (arith, o3.1),
    )
