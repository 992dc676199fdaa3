-- ===== src/Session/Delivery/Order/Runs.antt =====
-- The worlds that a session reaches, and the numbers in their closures.
use elliptics_go.Base.{
  ℕ, ◌+◌, ◌*◌, ◌≤◌, ◌<◌, ◌≡◌, List, [], ◌∷◌, Option, none, some, >>=-eq-some, String, arith, subst,
  length,
}
use elliptics_go.Base.Word.{u64_mod}
use elliptics_go.Base.Eq.{nat_eq}
use elliptics_go.Pool.{get, initial}
use elliptics_go.Session.World.{to_channel, Value, World, start, make_chan}
use elliptics_go.Session.Requests.{open_request, register}
use elliptics_go.Session.Writes.{register_write}
use elliptics_go.Session.Delivery.{Event, reply, final, begin, begin_write, step, run}
use elliptics_go.Session.Delivery.Begin.{Orderly}
use elliptics_go.Session.Delivery.Shrinks.Callbacks.{
  result_callback-Shrinks, final_callback-Shrinks,
}
use elliptics_go.Session.Uploads.{write_chunk}
use elliptics_go.Session.Backends.{open_status}
use elliptics_go.Session.Delivery.{begin_upload, begin_status}
use elliptics_go.Base.Dict.{lookup}
use elliptics_go.Session.Delivery.Order.{
  Shrinks-Orderly, Ordered, make_chan-Ordered, register-Ordered, register_write-Ordered,
}
use elliptics_go.Session.Delivery.Order.Uploads.{write_chunk-Ordered, open_status-Ordered}

module _ (keys_find : List String → List ℕ → Option String) where
  step-Ordered :
      (e : Event) (top : ℕ) (w w' : World)
      → Ordered top w
      → top + 3 < u64_mod
      → step keys_find e w ≡ some w'
      → Ordered (top + 3) w'
  unfolding step open_request
  step-Ordered (reply k r) top w w' (orderly, le) lt went =
      let shrinks = result_callback-Shrinks keys_find k r w w' went in
      (Shrinks-Orderly w w' shrinks orderly, omega (arith, shrinks.1))
  step-Ordered (final k err) top w w' (orderly, le) lt went =
      let shrinks = final_callback-Shrinks k err w w' went in
      (Shrinks-Orderly w w' shrinks orderly, omega (arith, shrinks.1))
  step-Ordered (begin h) top w w' ord lt went =
      let (o1, made) = make_chan-Ordered top w ord in
      let o2 = register-Ordered h (make_chan w).1 top (make_chan w).0 o1 made (omega arith) in
      let same : (register h (make_chan w).1 (make_chan w).0).0 ≡ w' = cc in
      subst (Ordered (top + 3)) same (o2.0, omega (arith, o2.1))
  step-Ordered (begin_write bytes) top w w' ord lt went =
      let (o1, made) = make_chan-Ordered top w ord in
      let o2 = register_write-Ordered (make_chan w).1 top bytes (make_chan w).0 o1 made lt in
      let same : (register_write (to_channel (make_chan w).1) (to_channel (make_chan w).1) bytes
            (make_chan w).0).0
          ≡ w' =
        cc in
      subst (Ordered (top + 3)) same o2
  step-Ordered (begin_upload u) top w w' ord lt went =
      let ((w1, named), made, last) = >>=-eq-some (write_chunk u w) _ went in
      let same : w1 ≡ w' = cc in
      subst (Ordered (top + 3)) same (write_chunk-Ordered top u w w1 named ord lt made)
  step-Ordered begin_status top w w' ord lt went =
      let opened = open_status-Ordered top w ord (omega arith) in
      let same : (open_status w).0 ≡ w' = cc in
      subst (Ordered (top + 3)) same (opened.0, omega (arith, opened.1))

  run-Ordered :
      (es : List Event) (top : ℕ) (w w' : World)
      → Ordered top w
      → top + 3 * length es < u64_mod
      → run keys_find es w ≡ some w'
      → Ordered (top + 3 * length es) w'
  unfolding run
  run-Ordered [] top w w' ord lt went =
      let same : w ≡ w' = cc in subst (Ordered (top + 0)) same (ord.0, omega (arith, ord.1))
  run-Ordered (e ∷ es) top w w' ord lt went =
      let (w1, first, rest) = >>=-eq-some (step keys_find e w) _ went in
      let o1 = step-Ordered e top w w1 ord (omega arith) first in
      let o2 = run-Ordered es (top + 3) w1 w' o1 (omega arith) rest in (o2.0, omega (arith, o2.1))

  -- Every world that a session reaches from its start by requests, results and ends, while nothing
  -- panics and fewer than 2^64 contexts can have been handed out, is orderly: the closures in the
  -- pool only name channels that were made and contexts that were handed out. At most three
  -- contexts are handed out for an event.
  pub run-Orderly :
      (es : List Event) (w : World)
      → 3 * length es < u64_mod
      → run keys_find es start ≡ some w
      → Orderly none w × (w.pool.counter ≤ 3 * length es)
  unfolding start initial get lookup
  run-Orderly es w lt went =
      let ord =
        run-Ordered es 0 start w (λ k v e. absurd (never v e), omega arith) (omega arith) went in
      (ord.0, omega (arith, ord.1))
    where
      never : (v : Value) → ◌≡◌ {A = Option Value} none (some v) → ⊥
      never v h = cc
