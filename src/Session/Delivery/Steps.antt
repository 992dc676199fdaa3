-- ===== src/Session/Delivery/Steps.antt =====
-- A request under way, and the results and the end of another request.
use elliptics_go.Base.{ℕ, ◌≡◌, ◌≢◌, List, Option, none, some, >>=-eq-some, String, subst}
use elliptics_go.Base.Eq.{nat_eq}
use elliptics_go.Errors.{Error}
use elliptics_go.Pool.{get}
use elliptics_go.Session.Results.{Item}
use elliptics_go.Session.World.{
  Handler, lookups, Sink, to_channel, to_caller, nowhere, Value, on_result, on_finish,
  on_write_finish, World, close,
}
use elliptics_go.Session.Callback.{
  Reply, lookup_reply, item_for, outcome, send_outcome, call_result, result_callback, send_error,
  finish, tell, write_finish, call_final, final_callback,
}
use elliptics_go.Session.Requests.{Opened}
use elliptics_go.Session.Delivery.{Live, Apart, OtherContext, OtherSink, keys_of}
use elliptics_go.Session.World.{on_chunk, on_chunk_finish, on_status}
use elliptics_go.Session.Callback.{status_reply}
use elliptics_go.Session.Delivery.Chunked.{chunk_finish-Live, chunk_result-Live, status_result-Live}
use elliptics_go.Session.Delivery.Frame.{
  send-Writes, close-Writes, Writes-Live, forget-Live, notify-Live, free_keys-Live,
}

module _ {o : Opened} {h : Handler} {ks : List String} {sent : List Item} {top : ℕ} where
  send_outcome-Live :
      (ch : ℕ) (item : Option Item) (w w' : World)
      → Live o h ks sent top w
      → ch ≢ o.ch
      → send_outcome ch item w ≡ some w'
      → Live o h ks sent top w'
  unfolding send_outcome
  send_outcome-Live ch none w w' live ne e =
      let same : w ≡ w' = cc in subst (Live o h ks sent top) same live
  send_outcome-Live ch (some item) w w' live ne e =
      Writes-Live live ch w' ne (send-Writes ch item w w' e)

  send_error-Live :
      (ch : ℕ) (item : Item) (err : Option Error) (w w' : World)
      → Live o h ks sent top w
      → ch ≢ o.ch
      → send_error ch item err w ≡ some w'
      → Live o h ks sent top w'
  unfolding send_error
  send_error-Live ch item none w w' live ne e =
      let same : w ≡ w' = cc in subst (Live o h ks sent top) same live
  send_error-Live ch item (some err) w w' live ne e =
      Writes-Live live ch w' ne (send-Writes ch item w w' e)

  same-Live : (w w' : World) → Live o h ks sent top w → some w ≡ some w' → Live o h ks sent top w'
  same-Live w w' live e = let same : w ≡ w' = cc in subst (Live o h ks sent top) same live

  finish-Live :
      (h' : Handler) (ch r f : ℕ) (err : Option Error) (w w' : World)
      → Live o h ks sent top w
      → Apart o (keys_of h) (on_finish h' ch r f)
      → finish h' ch r f err w ≡ some w'
      → Live o h ks sent top w'
  unfolding finish
  finish-Live h' ch r f err w w' live (ne, nr, nf, nk) e =
      let (told, e1, rest) = >>=-eq-some (send_error ch (item_for h' err) err w) _ e in
      let (ended, e2, last) = >>=-eq-some (close ch told) _ rest in
      let live1 = send_error-Live ch (item_for h' err) err w told live ne e1 in
      let live2 = Writes-Live live1 ch ended ne (close-Writes ch told ended e2) in
      same-Live _ w' (forget-Live (forget-Live (free_keys-Live live2 h' nk) r nr) f nf) last

  tell-Live :
      (sink : Sink) (err : Option Error) (w w' : World)
      → Live o h ks sent top w
      → OtherSink o.ch sink
      → tell sink err w ≡ some w'
      → Live o h ks sent top w'
  unfolding tell
  tell-Live (to_channel ch) err w w' live ne e =
      let (told, e1, last) = >>=-eq-some (send_error ch (item_for lookups err) err w) _ e in
      let live1 = send_error-Live ch (item_for lookups err) err w told live ne e1 in
      Writes-Live live1 ch w' ne (close-Writes ch told w' last)
  tell-Live (to_caller u) err w w' live ne e = same-Live _ w' (notify-Live live u err) e
  tell-Live nowhere err w w' live ne e = same-Live w w' live e

  call_final-Live :
      (v : Value) (err : Option Error) (w w' : World)
      → Live o h ks sent top w
      → Apart o (keys_of h) v
      → call_final v err w ≡ some w'
      → Live o h ks sent top w'
  unfolding call_final write_finish
  call_final-Live (on_finish h' ch r f) err w w' live ap_v e =
      finish-Live h' ch r f err w w' live ap_v e
  call_final-Live (on_write_finish sink r f c) err w w' live (ns, nr, nf, nc) e =
      tell-Live sink err _ w' (forget-Live (forget-Live (forget-Live live r nr) f nf) c nc) ns e
  call_final-Live (on_chunk_finish ch r f c) err w w' live (ne, nr, nf, nc) e =
      chunk_finish-Live ch r f c ne nr nf nc err w w' live e
  call_final-Live _ err w w' live ap_v e = absurd (never w' e)
    where
      never : (w' : World) → ◌≡◌ {A = Option World} none (some w') → ⊥
      never w' h = cc

  -- The end of another request.
  pub final_callback-Live :
      (k : ℕ) (err : Option Error) (w w' : World)
      → Live o h ks sent top w
      → OtherContext o k
      → final_callback k err w ≡ some w'
      → Live o h ks sent top w'
  unfolding final_callback
  final_callback-Live k err w w' live other e =
      let (v, stored, rest) = >>=-eq-some (get k w.pool) _ e in
      call_final-Live v err w w' live (live.apart k v stored other) rest

  module _ (keys_find : List String → List ℕ → Option String) where
    call_result-Live :
        (v : Value) (r : Reply) (w w' : World)
        → Live o h ks sent top w
        → Apart o (keys_of h) v
        → call_result keys_find v r w ≡ some w'
        → Live o h ks sent top w'
    unfolding call_result
    call_result-Live (on_result h' ch) r w w' live ne e =
        let (item, _, rest) = >>=-eq-some (outcome keys_find h' r w) _ e in
        send_outcome-Live ch item w w' live ne rest
    call_result-Live (on_chunk ch) (lookup_reply r) w w' live ne e =
        chunk_result-Live ch r w w' live ne e
    call_result-Live (on_status ch k) (status_reply r) w w' live (ne, nk) e =
        status_result-Live ch k r w w' live ne nk e
    call_result-Live _ r w w' live ap_v e = absurd (never w' e)
      where
        never : (w' : World) → ◌≡◌ {A = Option World} none (some w') → ⊥
        never w' h = cc

    -- A result of another request.
    pub result_callback-Live :
        (k : ℕ) (r : Reply) (w w' : World)
        → Live o h ks sent top w
        → OtherContext o k
        → result_callback keys_find k r w ≡ some w'
        → Live o h ks sent top w'
    unfolding result_callback
    result_callback-Live k r w w' live other e =
        let (v, stored, rest) = >>=-eq-some (get k w.pool) _ e in
        call_result-Live v r w w' live (live.apart k v stored other) rest
