-- ===== src/Session/Delivery/Own.antt =====
-- A request's own events: its results and its end.
use elliptics_go.Base.{
  ℕ, ◌≡◌, refl, List, [], ◌∷◌, ◌++◌, Option, none, some, String, true, false, append-nil, eqb,
  Option-cases, Bool-cases, inl, inr, ◌∙◌, subst,
}
use elliptics_go.Base.Int.{eqb_ℤ, pos}
use elliptics_go.Base.Dict.{lookup, insert, lookup-insert_self}
use elliptics_go.Base.Eq.{nat_eq, eq_refl}
use elliptics_go.Errors.{Error}
use elliptics_go.Pool.{ContextPool, get, delete_context}
use elliptics_go.Pool.Laws.{get-delete_context}
use elliptics_go.Session.Results.{Item, lookup_item, remove_item}
use elliptics_go.Session.World.{
  Handler, reads, bulk_reads, lookups, bulk_writes, removes, bulk_removes, finds, entries, Value,
  Channel, World, send, close, forget,
}
use elliptics_go.Session.Callback.{
  Reply, read_reply, lookup_reply, remove_reply, find_reply, entry_reply, item_for, find_key,
  outcome, bulk_write_item, bulk_remove_item, send_outcome, call_result, result_callback,
  send_error, free_keys, finish, call_final, final_callback, error_item,
}
use elliptics_go.Session.World.{stats}
use elliptics_go.Session.Callback.{stat_reply}
use elliptics_go.Session.Requests.{Opened}
use elliptics_go.Session.Delivery.{Live, Holds, keys_of, Fits, answer, listed}

abbrev pub with_chan : ℕ → Channel → World → World
with_chan ch c w = record w { chans = insert ch c w.chans }

module _ {o : Opened} {h : Handler} {ks : List String} {sent : List Item} {top : ℕ} {w : World}
    (live : Live o h ks sent top w) where
  -- A send on the open channel of the request.
  send-own :
      (item : Item)
      → send o.ch item w
        ≡ some (with_chan o.ch (record { sent = sent ++ item ∷ []; closed = false }) w)
  unfolding send
  send-own item = rw live.channel refl

  close-own : close o.ch w ≡ some (with_chan o.ch (record { sent = sent; closed = true }) w)
  unfolding close
  close-own = simp live.channel

  sent-Live :
      (items : List Item)
      → Live o h ks items top (with_chan o.ch (record { sent = items; closed = false }) w)
  sent-Live items = record {
    result = live.result;
    finisher = live.finisher;
    channel = lookup-insert_self o.ch (record { sent = items; closed = false }) w.chans;
    keys = live.keys;
    known = live.known;
    room = live.room;
    apart = live.apart;
  }

  send_outcome-own :
      (item : Option Item)
      → (w' : World) × (send_outcome o.ch item w ≡ some w')
        × Live o h ks (sent ++ listed item) top w'
  unfolding send_outcome
  send_outcome-own none = (w, refl, rw append-nil live)
  send_outcome-own (some item) = (
    with_chan o.ch (record { sent = sent ++ item ∷ []; closed = false }) w,
    send-own item,
    sent-Live (sent ++ item ∷ []),
  )

module _ (keys_find : List String → List ℕ → Option String) (ks : List String) (w : World) where
  -- What the closure sends is what the request delivers.
  pub outcome-answer :
      (h : Handler) (r : Reply)
      → Holds (keys_of h) ks w.key_sets
      → Fits h r
      → (item : Option Item) × (outcome keys_find h r w ≡ some item)
        × (listed item ≡ answer keys_find ks h r)
  unfolding outcome answer find_key
  outcome-answer reads (read_reply r) held fits = (_, refl, refl)
  outcome-answer (bulk_reads k) (read_reply r) held fits = (_, rw held refl, refl)
  outcome-answer lookups (lookup_reply r) held fits = (_, refl, refl)
  outcome-answer (bulk_writes k) (lookup_reply r) held fits = elim (Option-cases r.err) [
    | inl e ↦ (bulk_write_item r (keys_find ks r.cmd.id.id), simp (e, held), simp e)
    | inr (x, e) ↦ (some (lookup_item r), simp e, simp e)
  ]
  outcome-answer removes (remove_reply r) held fits = (_, refl, refl)
  outcome-answer (bulk_removes k) (remove_reply r) held fits = elim (Option-cases r.err) [
    | inl e ↦ elim (Bool-cases (eqb_ℤ r.cmd.status (pos 0))) [
      | inl zero ↦ (none, simp (e, zero), simp (e, zero))
      | inr nonzero ↦ (
        some (bulk_remove_item r (keys_find ks r.cmd.id.id)),
        simp (e, nonzero, held),
        simp (e, nonzero),
      )
    ]
    | inr (x, e) ↦ (some (remove_item r), simp e, simp e)
  ]
  outcome-answer finds (find_reply r) held fits = (_, refl, refl)
  outcome-answer entries (entry_reply r) held fits = (_, refl, refl)
  outcome-answer stats (stat_reply e) held fits = (_, refl, refl)
  outcome-answer _ _ held fits = absurd fits

module _ {o : Opened} {h : Handler} {ks : List String} {sent : List Item} {top : ℕ} {w : World}
    (live : Live o h ks sent top w) where
  -- A result of the request itself is delivered, without a panic.
  pub result_callback-own :
      (keys_find : List String → List ℕ → Option String) (r : Reply)
      → Fits h r
      → (w' : World) × (result_callback keys_find o.r r w ≡ some w')
        × Live o h ks (sent ++ answer keys_find ks h r) top w'
  unfolding result_callback call_result
  result_callback-own keys_find r fits =
      let (item, e, same) = outcome-answer keys_find ks w h r live.keys fits in
      let (w', told, live') = send_outcome-own live item in
      (w', simp (live.result, e, told), subst (λ s. Live o h ks (sent ++ s) top w') same live')

-- What a request has sent once it ended with an error, or without one.
abbrev pub ending : Handler → Option Error → List Item
ending h none = []
ending h (some e) = error_item h e ∷ []

module _ {o : Opened} {h : Handler} {ks : List String} {w : World} where
  -- The error, if any, and the end of the channel.
  ended-own :
      {sent : List Item} {top : ℕ} (err : Option Error)
      → Live o h ks sent top w
      → (told : World) × (ended : World) × (send_error o.ch (item_for h err) err w ≡ some told)
        × (close o.ch told ≡ some ended)
        × (lookup o.ch ended.chans ≡ some (record { sent = sent ++ ending h err; closed = true }))
        × (ended.pool ≡ w.pool)
  unfolding send_error
  ended-own {sent} none live =
      (w, _, refl, close-own live, lookup-insert_self o.ch _ w.chans ∙ simp append-nil, refl)
  ended-own {sent} (some e) live =
      let items = sent ++ error_item h e ∷ [] in
      let told = with_chan o.ch (record { sent = items; closed = false }) w in
      (
        told,
        with_chan o.ch (record { sent = items; closed = true }) told,
        send-own live (error_item h e),
        close-own (sent-Live live items),
        lookup-insert_self o.ch (record { sent = items; closed = true }) told.chans,
        refl,
      )

pub free_keys-same :
    (h : Handler) (w : World) → ((free_keys h w).chans ≡ w.chans) × ((free_keys h w).pool ≡ w.pool)
unfolding free_keys
free_keys-same (bulk_reads k) w = (refl, refl)
free_keys-same (bulk_writes k) w = (refl, refl)
free_keys-same _ w = (refl, refl)

abbrev pub Ended : Opened → List Item → World → Type 0
Ended o items w =
    (lookup o.ch w.chans ≡ some (record { sent = items; closed = true }))
    × (get o.r w.pool ≡ none)
    × (get o.f w.pool ≡ none)

forgotten_get :
    (a b : ℕ) (p : ContextPool Value)
    → (get a (delete_context b (delete_context a p)) ≡ none)
      × (get b (delete_context b (delete_context a p)) ≡ none)
forgotten_get a b p = (
  get-delete_context b a (delete_context a p) ∙ elim (Bool-cases (eqb b a)) [
    | inl same ↦ simp same
    | inr ne ↦ simp (ne, get-delete_context a a p, eq_refl a)
  ],
  get-delete_context b b (delete_context a p) ∙ simp (eq_refl b),
)

forgotten :
    (o : Opened) (h : Handler) (items : List Item) (w : World)
    → lookup o.ch w.chans ≡ some (record { sent = items; closed = true })
    → Ended o items (forget o.f (forget o.r (free_keys h w)))
unfolding forget
forgotten o h items w there =
    let (chans, pool) = free_keys-same h w in
    let (no_result, no_finisher) = forgotten_get o.r o.f (free_keys h w).pool in
    (simp (chans, there), no_result, no_finisher)

module _ {o : Opened} {h : Handler} {ks : List String} {sent : List Item} {top : ℕ} {w : World}
    (live : Live o h ks sent top w) where
  -- The end of the request itself.
  pub final_callback-own :
      (err : Option Error)
      → (w' : World) × (final_callback o.f err w ≡ some w') × Ended o (sent ++ ending h err) w'
  unfolding final_callback call_final finish
  final_callback-own err =
      let (told, ended, e1, e2, there, pool) = ended-own err live in
      (
        forget o.f (forget o.r (free_keys h ended)),
        simp (live.finisher, e1, e2),
        forgotten o h (sent ++ ending h err) ended there,
      )
