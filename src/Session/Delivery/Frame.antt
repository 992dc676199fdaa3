-- ===== src/Session/Delivery/Frame.antt =====
-- A request under way, and what happens on another channel, to another context or to another key
-- set.
use elliptics_go.Base.{
  ℕ, ◌+◌, ◌<◌, ◌≡◌, ◌≢◌, ◌%◌, refl, List, [], ◌∷◌, ◌++◌, Option, none, some, String, true, false,
  eqb, arith, Option-cases, Bool-cases, inl, inr, ◌∙◌, subst,
}
use elliptics_go.Base.Dict.{Dict, lookup, insert, delete, lookup-insert_ne, lookup-delete}
use elliptics_go.Base.Eq.{nat_eq, eq_of_ne}
use elliptics_go.Base.Word.{add64, u64_mod}
use elliptics_go.Errors.{Error}
use elliptics_go.Pool.{ContextPool, get, store, delete_context}
use elliptics_go.Pool.Laws.{get-store, get-delete_context}
use elliptics_go.Session.Results.{Item}
use elliptics_go.Session.World.{Call, issue, Upload, set_upload}
use elliptics_go.Session.World.{
  Handler, bulk_reads, bulk_writes, Value, Channel, World, send, close, forget, remember,
  new_context, make_chan, notify,
}
use elliptics_go.Session.Requests.{Opened}
use elliptics_go.Session.Callback.{free_keys}
use elliptics_go.Session.Delivery.{Live, Apart, OtherContext, Holds, keys_of, OtherKeys}

-- A send or a close that does not panic writes one channel, which was open.
abbrev pub Writes : ℕ → World → World → Type 0
Writes ch w w' = (c : Channel) × (w' ≡ record w { chans = insert ch c w.chans })

pub send-Writes : (ch : ℕ) (item : Item) (w w' : World) → send ch item w ≡ some w' → Writes ch w w'
unfolding send
send-Writes ch item w w' e = elim (Option-cases (lookup ch w.chans)) [
  | inl none_there ↦ absurd (ground arith)
  | inr (c, there) ↦ (record { sent = c.sent ++ item ∷ []; closed = false }, ground arith)
]

pub close-Writes : (ch : ℕ) (w w' : World) → close ch w ≡ some w' → Writes ch w w'
unfolding close
close-Writes ch w w' e = elim (Option-cases (lookup ch w.chans)) [
  | inl none_there ↦ absurd (ground arith)
  | inr (c, there) ↦ (record { sent = c.sent; closed = true }, ground arith)
]

pub get_of-delete :
    (k j : ℕ) (v : Value) (p : ContextPool Value)
    → get j (delete_context k p) ≡ some v
    → get j p ≡ some v
get_of-delete k j v p e = elim (Bool-cases (eqb k j)) [
  | inl same ↦ absurd (cc-none (rw (get-delete_context k j p, same) at e))
  | inr ne ↦ rw (get-delete_context k j p, ne) at e
]
  where
    cc-none : ◌≡◌ {A = Option Value} none (some v) → ⊥
    cc-none h = cc

Holds-delete :
    (j : ℕ) (k : Option ℕ) (ks : List String) (held : Dict ℕ (List String))
    → OtherKeys (some j) k
    → Holds k ks held
    → Holds k ks (delete j held)
Holds-delete j none ks held ne e = tt
Holds-delete j (some k) ks held ne e = lookup-delete j k held ∙ rw (eq_of_ne j k ne) e

pub stored-eq :
    (k j : ℕ) (v u : Value) (p : ContextPool Value)
    → get j (store k v p) ≡ some u
    → eqb k j ≡ true
    → v ≡ u
stored-eq k j v u p e same = let found : some v ≡ some u = rw (get-store k j v p, same) at e in cc

module _ {o : Opened} {h : Handler} {ks : List String} {sent : List Item} {top : ℕ} {w : World}
    (live : Live o h ks sent top w) where
  pub Writes-Live : (ch : ℕ) (w' : World) → ch ≢ o.ch → Writes ch w w' → Live o h ks sent top w'
  Writes-Live ch w' ne (c, e) = rw e (record {
    result = live.result;
    finisher = live.finisher;
    channel = lookup-insert_ne ch o.ch c w.chans ne ∙ live.channel;
    keys = live.keys;
    known = live.known;
    room = live.room;
    apart = live.apart;
  })

  pub forget-Live : (k : ℕ) → OtherContext o k → Live o h ks sent top (forget k w)
  unfolding forget
  forget-Live k ne = record {
    result = get-delete_context k o.r w.pool ∙ rw (eq_of_ne k o.r ne.0) live.result;
    finisher = get-delete_context k o.f w.pool ∙ rw (eq_of_ne k o.f ne.1) live.finisher;
    channel = live.channel;
    keys = live.keys;
    known = live.known;
    room = live.room;
    apart = λ j v e. live.apart j v (get_of-delete k j v w.pool e);
  }

  pub remember-Live :
      (k : ℕ) (v : Value)
      → OtherContext o k
      → Apart o (keys_of h) v
      → Live o h ks sent top (remember k v w)
  unfolding remember
  remember-Live k v ne ap_v = record {
    result = get-store k o.r v w.pool ∙ rw (eq_of_ne k o.r ne.0) live.result;
    finisher = get-store k o.f v w.pool ∙ rw (eq_of_ne k o.f ne.1) live.finisher;
    channel = live.channel;
    keys = live.keys;
    known = live.known;
    room = live.room;
    apart = λ j u e other. elim (Bool-cases (eqb k j)) [
      | inl same ↦ subst (Apart o (keys_of h)) (stored-eq k j v u w.pool e same) ap_v
      | inr ne' ↦ live.apart j u (rw (get-store k j v w.pool, ne') at e) other
    ];
  }

  pub new_context-Live :
      top + 1 < u64_mod
      → Live o h ks sent (top + 1) (new_context w).0
        × ((new_context w).1 ≡ w.pool.counter + 1)
        × ((new_context w).0.pool.counter ≡ w.pool.counter + 1)
  unfolding new_context add64 get
  new_context-Live lt =
      let exact : (w.pool.counter + 1) % u64_mod ≡ w.pool.counter + 1 = omega (arith, live.room) in
      (
        record {
          result = live.result;
          finisher = live.finisher;
          channel = live.channel;
          keys = live.keys;
          known = (omega (arith, live.known.0), omega (arith, live.known.1), live.known.2);
          room = omega (arith, live.room);
          apart = live.apart;
        },
        exact,
        exact,
      )

  pub make_chan-Live :
      Live o h ks sent top (make_chan w).0
      × ((make_chan w).1 ≢ o.ch)
      × ((make_chan w).0.pool ≡ w.pool)
  unfolding make_chan
  make_chan-Live =
      let ne : w.next_chan ≢ o.ch = omega (arith, live.known.2) in
      (
        record {
          result = live.result;
          finisher = live.finisher;
          channel = lookup-insert_ne w.next_chan o.ch _ w.chans ne ∙ live.channel;
          keys = live.keys;
          known = (live.known.0, live.known.1, omega (arith, live.known.2));
          room = live.room;
          apart = live.apart;
        },
        ne,
        refl,
      )

  pub issue-Live : (c : Call) → Live o h ks sent top (issue c w)
  unfolding issue
  issue-Live c = record {
    result = live.result;
    finisher = live.finisher;
    channel = live.channel;
    keys = live.keys;
    known = live.known;
    room = live.room;
    apart = live.apart;
  }

  pub set_upload-Live : (ch : ℕ) (u : Upload) → Live o h ks sent top (set_upload ch u w)
  unfolding set_upload
  set_upload-Live ch u = record {
    result = live.result;
    finisher = live.finisher;
    channel = live.channel;
    keys = live.keys;
    known = live.known;
    room = live.room;
    apart = live.apart;
  }

  pub notify-Live : (u : ℕ) (e : Option Error) → Live o h ks sent top (notify u e w)
  unfolding notify
  notify-Live u e = record {
    result = live.result;
    finisher = live.finisher;
    channel = live.channel;
    keys = live.keys;
    known = live.known;
    room = live.room;
    apart = live.apart;
  }

  dropped-Live :
      (j : ℕ)
      → OtherKeys (some j) (keys_of h)
      → Live o h ks sent top (record w { key_sets = delete j w.key_sets })
  dropped-Live j ne = record {
    result = live.result;
    finisher = live.finisher;
    channel = live.channel;
    keys = Holds-delete j (keys_of h) ks w.key_sets ne live.keys;
    known = live.known;
    room = live.room;
    apart = live.apart;
  }

  pub free_keys-Live :
      (h' : Handler) → OtherKeys (keys_of h') (keys_of h) → Live o h ks sent top (free_keys h' w)
  unfolding free_keys
  free_keys-Live (bulk_reads j) ne = dropped-Live j ne
  free_keys-Live (bulk_writes j) ne = dropped-Live j ne
  free_keys-Live _ ne = live
