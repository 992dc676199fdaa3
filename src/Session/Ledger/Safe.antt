-- ===== src/Session/Ledger/Safe.antt =====
-- Every move of C and of the program, against the state that agrees with the ledger.
use elliptics_go.Base.{
  ℕ, ◌+◌, ◌<◌, ◌≡◌, ◌⊎◌, inl, inr, refl, sym, subst, List, [], Option, none, some, String, Bool,
  true, false, arith, Option-cases,
}
use elliptics_go.Base.Word.{u64_mod}
use elliptics_go.Base.Dict.{lookup, insert}
use elliptics_go.Base.Eq.{nat_eq}
use elliptics_go.Errors.{Error}
use elliptics_go.Pool.{get}
use elliptics_go.Session.World.{Handler, Call, Upload, World, start}
use elliptics_go.Session.Delivery.{keys_of}
use elliptics_go.Session.Callback.{result_callback, Reply}
use elliptics_go.Session.Ledger.{
  Request, serving, writing, uploading, asking, context, width, key_set, Ledger, Move, answer,
  finish, begin, begin_index, begin_bulk, begin_write, begin_upload, begin_status, refuse,
  refuse_parallel, Takes, Ends, AtRequest, Allows, HasRoom, panics, writing_at, is_writing, called,
  perform, after,
}
use elliptics_go.Session.Ledger.Turns.{Backed, HasKeys, Agrees}
use elliptics_go.Session.Ledger.Kept.{Region, Turn-Agrees}
use elliptics_go.Session.Ledger.Answers.{writing_panics, result_callback-Turn}
use elliptics_go.Session.Ledger.Ends.{final_callback-OnOrOver}
use elliptics_go.Session.Ledger.Fresh.{Begun}
use elliptics_go.Session.Ledger.Begins.{
  begin_request-Begun, begin_bulk-Begun, begin_write_request-Begun, ask_status-Begun,
}
use elliptics_go.Session.Ledger.Refusals.{Refuses, failed_chan-Refuses, parallel_lookup-Refuses}
use elliptics_go.Session.Ledger.Uploads.{write_chunk-BegunOrRefuses}
use elliptics_go.Session.Ledger.Regions.{
  own_Region, new_Region, kept_Updates, deleted_Updates, inserted_Updates, settle-Updates,
  refused_Updates,
}

pub start-Agrees : Agrees [] start
unfolding start get lookup
start-Agrees = record {
  backed = λ ch q e. absurd (cc);
  sole = λ c ch q p e1 e2 ne. absurd (cc);
  owned = λ k v e. absurd (cc);
  shut = λ c x e. absurd (cc);
}

module _ {l : Ledger} {w : World} (a : Agrees l w) where
  new_Agrees :
      (w' : World) (q : Request)
      → Begun q w w'
      → context q ≡ w.pool.counter + 1
      → (key_set q ≡ none) ⊎ (key_set q ≡ some w.next_keys)
      → Agrees (insert w.next_chan q l) w'
  new_Agrees w' q t at fresh =
      Turn-Agrees a
        (subst (λ r. Region l w.next_chan r (context q + width q) (key_set q)) (sym at)
          (new_Region a (context q + width q) (key_set q) (omega arith) fresh))
        t (inserted_Updates l w.next_chan q)

  Refuses-Agrees : (w' : World) → Refuses w w' → Agrees l w'
  Refuses-Agrees w' t =
      Turn-Agrees a (new_Region a (w.pool.counter + 1) none (omega arith) (inl refl)) t
        (refused_Updates a)

-- Whether a call was made decides the ledger.
pub same_calls : (w w' : World) → w'.calls ≡ w.calls → called w w' ≡ false
unfolding called
same_calls w w' e = rw e (ground arith)

module _ (keys_find : List String → List ℕ → Option String) (string_less : String → String → Bool)
    {l : Ledger} {w : World} (a : Agrees l w) where
  abbrev pub Goes : Move → Type 0
  Goes m =
      (w' : World) × (perform keys_find string_less l m w ≡ some w') × Agrees (after l m w w') w'

  answer-Goes :
      (ch : ℕ) (reply : Reply) (q : Request)
      → lookup ch l ≡ some q
      → Takes q reply
      → is_writing q ≡ false
      → Goes (answer ch reply)
  unfolding perform after
  answer-Goes ch reply q here takes other =
      let (w', run, t) =
        result_callback-Turn keys_find ch q reply w (a.backed ch q here) takes other in
      (
        w',
        rw here run,
        rw here (Turn-Agrees a (own_Region a ch q here) t (settle-Updates l ch q here)),
      )

  finish-Goes :
      (ch : ℕ) (e : Option Error) (q : Request) → lookup ch l ≡ some q → Ends q → Goes (finish ch e)
  unfolding perform after
  finish-Goes ch e q here ends = elim (final_callback-OnOrOver ch q e w (a.backed ch q here) ends) [
    | inl (w', run, t, on) ↦ (
      w',
      rw here run,
      rw on (Turn-Agrees a (own_Region a ch q here) t (kept_Updates l ch q here)),
    )
    | inr (w', run, t, same) ↦ (
      w',
      rw here run,
      rw (same_calls w w' same) (Turn-Agrees a (own_Region a ch q here) t (deleted_Updates l ch)),
    )
  ]

  upload-Goes : (u : Upload) → w.pool.counter + 3 < u64_mod → Goes (begin_upload u)
  unfolding perform after
  upload-Goes u lt = elim (write_chunk-BegunOrRefuses u w lt) [
    | inl (w', run, t, on) ↦ (
      w',
      rw run refl,
      rw on (new_Agrees a w' (uploading (w.pool.counter + 1)) t refl (inl refl)),
    )
    | inr (w', run, t, same) ↦ (w', rw run refl, rw (same_calls w w' same) (Refuses-Agrees a w' t))
  ]

  begin-Goes :
      (h : Handler) (call : ℕ → ℕ → Call)
      → keys_of h ≡ none
      → w.pool.counter + 3 < u64_mod
      → Goes (begin h call)
  unfolding perform after
  begin-Goes h call none_needed lt =
      let t = begin_request-Begun h call w lt (subst (λ ks. HasKeys ks w) (sym none_needed) tt) in
      (_, refl, new_Agrees a _ (serving h (w.pool.counter + 1)) t refl (inl none_needed))

  -- Every move that is allowed and does not panic happens, and keeps the agreement.
  pub allowed-Goes : (m : Move) → Allows l m → HasRoom m w → panics l m ≡ false → Goes m
  unfolding perform after
  allowed-Goes (answer ch reply) allowed lt goes = elim (Option-cases (lookup ch l)) [
    | inl absent ↦ absurd (subst (AtRequest (λ q. Takes q reply)) absent allowed)
    | inr (q, here) ↦
        answer-Goes ch reply q here (subst (AtRequest (λ q'. Takes q' reply)) here allowed)
          (subst (λ o. writing_at o ≡ false) here goes)
  ]
  allowed-Goes (finish ch e) allowed lt goes = elim (Option-cases (lookup ch l)) [
    | inl absent ↦ absurd (subst (AtRequest Ends) absent allowed)
    | inr (q, here) ↦ finish-Goes ch e q here (subst (AtRequest Ends) here allowed)
  ]
  allowed-Goes (begin h call) none_needed lt goes = begin-Goes h call none_needed lt
  allowed-Goes (begin_index has_key has_text h call) none_needed lt goes =
      let (w', run, a') = begin-Goes h call none_needed lt in (w', rw goes run, a')
  allowed-Goes (begin_bulk kind keys call) new lt goes =
      let (w', run, t) = begin_bulk-Begun string_less kind keys call w lt (new w.next_keys) in
      (
        w',
        run,
        new_Agrees a w' (serving (kind w.next_keys) (w.pool.counter + 1)) t refl
            (inr (new w.next_keys)),
      )
  allowed-Goes (begin_write bytes call) _ lt goes =
      let t = begin_write_request-Begun bytes call w lt in
      (_, refl, new_Agrees a _ (writing (w.pool.counter + 1)) t refl (inl refl))
  allowed-Goes (begin_upload u) _ lt goes = upload-Goes u lt
  allowed-Goes (begin_status call) _ lt goes =
      let t = ask_status-Begun call w lt in
      (_, refl, new_Agrees a _ (asking (w.pool.counter + 1)) t refl (inl refl))
  allowed-Goes (refuse item) _ lt goes =
      let (w', run, t) = failed_chan-Refuses item w in (w', rw run refl, Refuses-Agrees a w' t)
  allowed-Goes (refuse_parallel kstr) _ lt goes =
      let (w', run, t) = parallel_lookup-Refuses kstr w lt in
      (w', rw run refl, Refuses-Agrees a w' t)

  -- The others do panic.
  pub panics-none :
      (m : Move) → Allows l m → panics l m ≡ true → perform keys_find string_less l m w ≡ none
  unfolding perform
  panics-none (answer ch reply) allowed bad = elim (Option-cases (lookup ch l)) [
    | inl absent ↦ absurd (subst (AtRequest (λ q. Takes q reply)) absent allowed)
    | inr (q, here) ↦
        rw here (at_write q (a.backed ch q here) (subst (λ o. writing_at o ≡ true) here bad))
  ]
    where
      at_write :
          (q : Request)
          → Backed ch q w
          → is_writing q ≡ true
          → result_callback keys_find (context q) reply w ≡ none
      at_write (writing r) b held = writing_panics keys_find r reply b
      at_write (serving h r) b held = absurd (cc)
      at_write (uploading r) b held = absurd (cc)
      at_write (asking r) b held = absurd (cc)
  panics-none (begin_index has_key has_text h call) allowed bad = rw bad refl
  panics-none (finish ch e) allowed bad = absurd (cc)
  panics-none (begin h call) allowed bad = absurd (cc)
  panics-none (begin_bulk kind keys call) allowed bad = absurd (cc)
  panics-none (begin_write bytes call) allowed bad = absurd (cc)
  panics-none (begin_upload u) allowed bad = absurd (cc)
  panics-none (begin_status call) allowed bad = absurd (cc)
  panics-none (refuse item) allowed bad = absurd (cc)
  panics-none (refuse_parallel kstr) allowed bad = absurd (cc)
