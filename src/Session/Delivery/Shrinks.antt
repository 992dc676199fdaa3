-- ===== src/Session/Delivery/Shrinks.antt =====
-- Two worlds between which closures were at most taken out.
pub mod Chunks
pub mod Callbacks
use elliptics_go.Base.{ℕ, ◌≡◌, refl, List, Option, none, some, >>=-eq-some, String, ◌∙◌, subst}
use elliptics_go.Base.Eq.{nat_eq}
use elliptics_go.Errors.{Error}
use elliptics_go.Pool.{get, delete_context}
use elliptics_go.Session.Results.{Item}
use elliptics_go.Session.World.{
  Handler, lookups, Sink, to_channel, to_caller, nowhere, Value, on_result, on_finish, on_write,
  on_write_finish, World, send, close, forget, notify,
}
use elliptics_go.Session.Callback.{
  Reply, lookup_reply, outcome, send_outcome, call_result, result_callback, send_error, item_for,
  free_keys, finish, tell, write_finish, call_final, final_callback,
}
use elliptics_go.Session.Delivery.Frame.{Writes, send-Writes, close-Writes, get_of-delete}

-- Nothing was handed out or stored between two worlds.
abbrev pub Shrinks : World → World → Type 0
Shrinks w w' =
    (w'.next_chan ≡ w.next_chan)
    × (w'.pool.counter ≡ w.pool.counter)
    × ((k : ℕ) (v : Value) → get k w'.pool ≡ some v → get k w.pool ≡ some v)

pub same-Shrinks : (w w' : World) → some w ≡ some w' → Shrinks w w'
same-Shrinks w w' e = let same : w ≡ w' = cc in subst (Shrinks w) same (refl, refl, λ k v h. h)

pub chain-Shrinks : (a b c : World) → Shrinks a b → Shrinks b c → Shrinks a c
chain-Shrinks a b c (n, m, p) (n', m', p') = (n' ∙ n, m' ∙ m, λ k v e. p k v (p' k v e))

pub Writes-Shrinks : (ch : ℕ) (w w' : World) → Writes ch w w' → Shrinks w w'
Writes-Shrinks ch w w' (c, e) = rw e (refl, refl, λ k v h. h)

pub forget-Shrinks : (k : ℕ) (w : World) → Shrinks w (forget k w)
unfolding forget delete_context
forget-Shrinks k w = (refl, refl, λ j v e. get_of-delete k j v w.pool e)

free_keys-Shrinks : (h : Handler) (w : World) → Shrinks w (free_keys h w)
unfolding free_keys
free_keys-Shrinks (Handler.bulk_reads k) w = (refl, refl, λ j v e. e)
free_keys-Shrinks (Handler.bulk_writes k) w = (refl, refl, λ j v e. e)
free_keys-Shrinks _ w = (refl, refl, λ j v e. e)

send_error-Shrinks :
    (ch : ℕ) (item : Item) (e : Option Error) (w w' : World)
    → send_error ch item e w ≡ some w'
    → Shrinks w w'
unfolding send_error
send_error-Shrinks ch item none w w' went = same-Shrinks w w' went
send_error-Shrinks ch item (some e) w w' went =
    Writes-Shrinks ch w w' (send-Writes ch item w w' went)

pub tell-Shrinks :
    (sink : Sink) (e : Option Error) (w w' : World) → tell sink e w ≡ some w' → Shrinks w w'
unfolding tell notify
tell-Shrinks (to_channel ch) e w w' went =
    let (told, e1, last) = >>=-eq-some (send_error ch (item_for lookups e) e w) _ went in
    chain-Shrinks w told w' (send_error-Shrinks ch (item_for lookups e) e w told e1)
      (Writes-Shrinks ch told w' (close-Writes ch told w' last))
tell-Shrinks (to_caller u) e w w' went =
    chain-Shrinks w (notify u e w) w' (refl, refl, λ k v h. h) (same-Shrinks _ w' went)
tell-Shrinks nowhere e w w' went = same-Shrinks w w' went

pub finish-Shrinks :
    (h : Handler) (ch r f : ℕ) (e : Option Error) (w w' : World)
    → finish h ch r f e w ≡ some w'
    → Shrinks w w'
unfolding finish
finish-Shrinks h ch r f e w w' went =
    let (told, e1, rest) = >>=-eq-some (send_error ch (item_for h e) e w) _ went in
    let (ended, e2, last) = >>=-eq-some (close ch told) _ rest in
    let freed = free_keys h ended in
    chain-Shrinks w told w' (send_error-Shrinks ch (item_for h e) e w told e1) (
      chain-Shrinks told ended w' (Writes-Shrinks ch told ended (close-Writes ch told ended e2)) (
        chain-Shrinks ended freed w' (free_keys-Shrinks h ended) (
          chain-Shrinks freed (forget r freed) w' (forget-Shrinks r freed) (
            chain-Shrinks (forget r freed) (forget f (forget r freed)) w'
              (forget-Shrinks f (forget r freed)) (same-Shrinks _ w' last)))))

pub send-Shrinks : (ch : ℕ) (item : Item) (w w' : World) → send ch item w ≡ some w' → Shrinks w w'
send-Shrinks ch item w w' went = Writes-Shrinks ch w w' (send-Writes ch item w w' went)

pub close-Shrinks : (ch : ℕ) (w w' : World) → close ch w ≡ some w' → Shrinks w w'
close-Shrinks ch w w' went = Writes-Shrinks ch w w' (close-Writes ch w w' went)
