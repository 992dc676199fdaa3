-- ===== src/Session/Delivery/Shrinks/Callbacks.antt =====
-- What callbacks leave of a world.
use elliptics_go.Base.{ℕ, ◌≡◌, List, Option, none, some, >>=-eq-some, String}
use elliptics_go.Base.Eq.{nat_eq}
use elliptics_go.Errors.{Error}
use elliptics_go.Pool.{get}
use elliptics_go.Session.Results.{Item}
use elliptics_go.Session.World.{Value, on_result, on_finish, on_write_finish, World, forget}
use elliptics_go.Session.Callback.{
  Reply, lookup_reply, outcome, send_outcome, call_result, result_callback, write_finish,
  call_final, final_callback,
}
use elliptics_go.Session.World.{on_chunk, on_chunk_finish, on_status}
use elliptics_go.Session.Callback.{status_reply}
use elliptics_go.Session.Delivery.Shrinks.{
  Shrinks, same-Shrinks, chain-Shrinks, send-Shrinks, forget-Shrinks, tell-Shrinks, finish-Shrinks,
}
use elliptics_go.Session.Delivery.Shrinks.Chunks.{
  chunk_finish-Shrinks, chunk_result-Shrinks, status_result-Shrinks,
}

pub final_callback-Shrinks :
    (k : ℕ) (e : Option Error) (w w' : World) → final_callback k e w ≡ some w' → Shrinks w w'
unfolding final_callback call_final write_finish
final_callback-Shrinks k e w w' went =
    let (v, stored, rest) = >>=-eq-some (get k w.pool) _ went in by_value v rest
  where
    by_value : (v : Value) → call_final v e w ≡ some w' → Shrinks w w'
    by_value (on_finish h ch r f) ran = finish-Shrinks h ch r f e w w' ran
    by_value (on_write_finish sink r f c) ran =
        let w1 = forget r w in
        let w2 = forget f w1 in
        chain-Shrinks w w1 w' (forget-Shrinks r w) (
          chain-Shrinks w1 w2 w' (forget-Shrinks f w1) (
            chain-Shrinks w2 (forget c w2) w' (forget-Shrinks c w2)
              (tell-Shrinks sink e (forget c w2) w' ran)))
    by_value (on_chunk_finish ch r f c) ran = chunk_finish-Shrinks ch r f c e w w' ran
    by_value _ ran = absurd (never ran)
      where
        never : ◌≡◌ {A = Option World} none (some w') → ⊥
        never h = cc

module _ (keys_find : List String → List ℕ → Option String) where
  send_outcome-Shrinks :
      (ch : ℕ) (item : Option Item) (w w' : World) → send_outcome ch item w ≡ some w' → Shrinks w w'
  unfolding send_outcome
  send_outcome-Shrinks ch none w w' went = same-Shrinks w w' went
  send_outcome-Shrinks ch (some item) w w' went = send-Shrinks ch item w w' went

  call_result-Shrinks :
      (v : Value) (r : Reply) (w w' : World) → call_result keys_find v r w ≡ some w' → Shrinks w w'
  unfolding call_result
  call_result-Shrinks (on_result h ch) r w w' went =
      let (item, _, last) = >>=-eq-some (outcome keys_find h r w) _ went in
      send_outcome-Shrinks ch item w w' last
  call_result-Shrinks (on_chunk ch) (lookup_reply r) w w' went = chunk_result-Shrinks ch r w w' went
  call_result-Shrinks (on_status ch k) (status_reply r) w w' went =
      status_result-Shrinks ch k r w w' went
  call_result-Shrinks _ r w w' went = absurd (never w' went)
    where
      never : (w' : World) → ◌≡◌ {A = Option World} none (some w') → ⊥
      never w' h = cc

  pub result_callback-Shrinks :
      (k : ℕ) (r : Reply) (w w' : World) → result_callback keys_find k r w ≡ some w' → Shrinks w w'
  unfolding result_callback
  result_callback-Shrinks k r w w' went =
      let (v, stored, rest) = >>=-eq-some (get k w.pool) _ went in call_result-Shrinks v r w w' rest
