-- ===== src/Session/Ledger/Closing.antt =====
-- The end of a request that makes no further call: its error is sent, its channel closed, and its
-- contexts are deleted.
use elliptics_go.Base.{
  ℕ, ◌+◌, ◌≤◌, ◌<◌, ◌≡◌, ◌∙◌, refl, List, [], ◌∷◌, ◌++◌, Option, none, some, String, arith,
}
use elliptics_go.Base.Dict.{Dict, lookup, insert, delete, lookup-insert_self}
use elliptics_go.Base.Eq.{nat_eq}
use elliptics_go.Errors.{Error}
use elliptics_go.Pool.{get, delete_context}
use elliptics_go.Pool.Laws.{get-delete_context}
use elliptics_go.Session.Results.{Item}
use elliptics_go.Session.World.{
  Handler, reads, bulk_reads, lookups, bulk_writes, removes, bulk_removes, finds, entries, unused,
  stats, Channel, World, forget,
}
use elliptics_go.Session.Callback.{
  item_for, send_error, free_keys, finish, tell, write_finish, call_final, final_callback,
}
use elliptics_go.Session.Delivery.{keys_of}
use elliptics_go.Session.Delivery.Own.{with_chan}
use elliptics_go.Session.Ledger.{Request, serving, writing}
use elliptics_go.Session.Ledger.Frame.{
  Within, Within-refl, with_chan-Within, forget-Within, drop_keys-Within,
}
use elliptics_go.Session.Ledger.Turns.{IsOpen, Backed, Turn}
use elliptics_go.Session.Ledger.Answers.{open_with, closed_with, send-open, close-open, Leaves}

module _ {lo hi : ℕ} {ks : Option ℕ} {v : World} (ch : ℕ) (w : World)
    (p : Within ch lo hi ks v w) where
  -- The error of an end is sent, if there is one; the channel is open still.
  send_error-IsOpen :
      (item : Item) (e : Option Error)
      → IsOpen ch w
      → (m : Dict ℕ Channel) × (send_error ch item e w ≡ some (record w { chans = m }))
        × Within ch lo hi ks v (record w { chans = m })
        × IsOpen ch (record w { chans = m })
  unfolding send_error
  send_error-IsOpen item none is_open = (w.chans, refl, p, is_open)
  send_error-IsOpen item (some e) (sent, here) =
      let c = open_with (sent ++ item ∷ []) in
      (
        insert ch c w.chans,
        send-open ch w sent item here,
        with_chan-Within p c,
        (sent ++ item ∷ [], lookup-insert_self ch c w.chans),
      )

  -- A key set that is freed is the request's own.
  free_keys-Within :
      (h : Handler)
      → ks ≡ keys_of h
      → (d : Dict ℕ (List String)) × (free_keys h w ≡ record w { key_sets = d })
        × Within ch lo hi ks v (record w { key_sets = d })
  unfolding free_keys
  free_keys-Within (bulk_reads k) own = (delete k w.key_sets, refl, drop_keys-Within p k own)
  free_keys-Within (bulk_writes k) own = (delete k w.key_sets, refl, drop_keys-Within p k own)
  free_keys-Within reads own = (w.key_sets, refl, p)
  free_keys-Within lookups own = (w.key_sets, refl, p)
  free_keys-Within removes own = (w.key_sets, refl, p)
  free_keys-Within (bulk_removes k) own = (w.key_sets, refl, p)
  free_keys-Within finds own = (w.key_sets, refl, p)
  free_keys-Within entries own = (w.key_sets, refl, p)
  free_keys-Within unused own = (w.key_sets, refl, p)
  free_keys-Within stats own = (w.key_sets, refl, p)

-- The three contexts of a write, deleted.
abbrev pub forget_three : ℕ → World → World
forget_three r w = forget (r + 2) (forget (r + 1) (forget r w))

pub three_forgotten :
    (r k : ℕ) (w : World) → r ≤ k → k < r + 3 → get k (forget_three r w).pool ≡ none
unfolding forget
three_forgotten r k w low high =
    get-delete_context (r + 2) k (delete_context (r + 1) (delete_context r w.pool))
    ∙ ground (
      arith,
      get-delete_context (r + 1) k (delete_context r w.pool),
      get-delete_context r k w.pool,
    )

pub forget_three-Within :
    {ch r : ℕ} {ks : Option ℕ} {v w : World}
    → Within ch r (r + 3) ks v w
    → Within ch r (r + 3) ks v (forget_three r w)
forget_three-Within {r} p =
    forget-Within
      (forget-Within (forget-Within p r (omega arith) (omega arith)) (r + 1) (omega arith)
        (omega arith))
      (r + 2) (omega arith) (omega arith)

-- What is left after the last contexts are deleted and the channel is closed.
module _ {r : ℕ} {ks : Option ℕ} {v : World} (ch : ℕ) (w : World) (sent : List Item)
    (here : lookup ch w.chans ≡ some (closed_with sent)) where
  two_gone : Within ch r (r + 2) ks v w → Turn ch r (r + 2) ks none v (forget (r + 1) (forget r w))
  unfolding forget
  two_gone p = record {
    within =
        forget-Within (forget-Within p r (omega arith) (omega arith)) (r + 1) (omega arith)
          (omega arith);
    left = (
      λ k low high.
          get-delete_context (r + 1) k (delete_context r w.pool)
          ∙ ground (arith, get-delete_context r k w.pool),
      (closed_with sent, here, refl),
    );
  }

-- The request is over, and C was not called.
abbrev pub Over : ℕ → Request → World → Option World → Type 0
Over ch q w result = (w' : World) × (result ≡ some w') × Leaves ch q w w' × (w'.calls ≡ w.calls)

pub serving_end :
    (ch : ℕ) (h : Handler) (r : ℕ) (e : Option Error) (w : World)
    → Backed ch (serving h r) w
    → Over ch (serving h r) w (final_callback (r + 1) e w)
unfolding final_callback call_final finish forget
serving_end ch h r e w b =
    let (m, told, p, (sent, here)) =
      send_error-IsOpen ch w (Within-refl {hi = r + 2} w) (item_for h e) e b.channel in
    let w1 : World = record w { chans = m } in
    let w2 = with_chan ch (closed_with sent) w1 in
    let (d, freed, p') = free_keys-Within ch w2 (with_chan-Within p (closed_with sent)) h refl in
    let w3 : World = record w2 { key_sets = d } in
    (
      forget (r + 1) (forget r w3),
      simp (b.closures.1, told, close-open ch w1 sent here, freed),
      two_gone ch w3 sent (lookup-insert_self ch (closed_with sent) m) p',
      refl,
    )

pub writing_end :
    (ch r : ℕ) (e : Option Error) (w : World)
    → Backed ch (writing r) w
    → Over ch (writing r) w (final_callback (r + 1) e w)
unfolding final_callback call_final write_finish tell forget
writing_end ch r e w b =
    let v = forget_three r w in
    let p : Within ch r (r + 3) none w v = forget_three-Within (Within-refl w) in
    let (m, told, p1, (sent, here)) = send_error-IsOpen ch v p (item_for lookups e) e b.channel in
    let v1 : World = record v { chans = m } in
    (
      with_chan ch (closed_with sent) v1,
      simp (b.closures.1, told, close-open ch v1 sent here),
      record {
        within = with_chan-Within p1 (closed_with sent);
        left = (
          λ k low high. three_forgotten r k w low high,
          (closed_with sent, lookup-insert_self ch (closed_with sent) m, refl),
        );
      },
      refl,
    )
