-- ===== src/Session/Ledger/Answers.antt =====
-- A result that C gives to a request of the ledger.
use elliptics_go.Base.{
  ℕ, ◌+◌, ◌≡◌, ◌∙◌, refl, List, [], ◌∷◌, ◌++◌, Option, none, some, String, true, false, arith, inl,
  inr, eqb, Bool-cases,
}
use elliptics_go.Base.Dict.{lookup, lookup-insert_self}
use elliptics_go.Base.Eq.{nat_eq}
use elliptics_go.Pool.Laws.{get-delete_context}
use elliptics_go.Session.Results.{Item, lookup_item, status_item}
use elliptics_go.Session.World.{Handler, Channel, World, send, close, forget}
use elliptics_go.Session.Callback.{
  Reply, lookup_reply, status_reply, send_outcome, status_result, call_result, result_callback,
}
use elliptics_go.Session.Chunks.{chunk_result}
use elliptics_go.Session.Delivery.{Fits, Holds, keys_of}
use elliptics_go.Session.Delivery.Own.{with_chan, outcome-answer}
use elliptics_go.Session.Ledger.{
  Request, serving, writing, uploading, asking, context, width, key_set, Takes, is_writing,
}
use elliptics_go.Session.Ledger.Frame.{Within-refl, with_chan-Within, forget-Within}
use elliptics_go.Session.Ledger.Turns.{HasKeys, HasUpload, Backed, Turn}

-- A step on a request that stays.
abbrev pub Stays : ℕ → Request → World → World → Type 0
Stays ch q w w' = Turn ch (context q) (context q + width q) (key_set q) (some q) w w'

-- A step on a request that is its last.
abbrev pub Leaves : ℕ → Request → World → World → Type 0
Leaves ch q w w' = Turn ch (context q) (context q + width q) (key_set q) none w w'

-- A channel that is open, and one that is closed.
abbrev pub open_with : List Item → Channel
open_with sent = record { sent = sent; closed = false }

abbrev pub closed_with : List Item → Channel
closed_with sent = record { sent = sent; closed = true }

module _ (ch : ℕ) (w : World) where
  pub send-open :
      (sent : List Item) (item : Item)
      → lookup ch w.chans ≡ some (open_with sent)
      → send ch item w ≡ some (with_chan ch (open_with (sent ++ item ∷ [])) w)
  unfolding send
  send-open sent item e = rw e refl

  pub close-open :
      (sent : List Item)
      → lookup ch w.chans ≡ some (open_with sent)
      → close ch w ≡ some (with_chan ch (closed_with sent) w)
  unfolding close
  close-open sent e = rw e refl

module _ {ch : ℕ} {w : World} where
  -- A request has what it needs after a send on its channel.
  pub sent-Backed :
      (q : Request) (sent : List Item)
      → Backed ch q w
      → Backed ch q (with_chan ch (open_with sent) w)
  sent-Backed q sent b = record {
    closures = b.closures;
    channel = (sent, lookup-insert_self ch (open_with sent) w.chans);
    keys = kept (key_set q) b.keys;
    upload = kept_upload q b.upload;
    known = b.known;
  }
    where
      kept : (ks : Option ℕ) → HasKeys ks w → HasKeys ks (with_chan ch (open_with sent) w)
      kept none has = has
      kept (some k) has = has

      kept_upload :
          (p : Request) → HasUpload ch p w → HasUpload ch p (with_chan ch (open_with sent) w)
      kept_upload (serving h r) has = has
      kept_upload (writing r) has = has
      kept_upload (uploading r) has = has
      kept_upload (asking r) has = has

  same-Stays : (q : Request) → Backed ch q w → Stays ch q w w
  same-Stays q b = record { within = Within-refl w; left = (b, refl, refl, refl) }

  sent-Stays :
      (q : Request) (sent : List Item)
      → Backed ch q w
      → Stays ch q w (with_chan ch (open_with sent) w)
  sent-Stays q sent b = record {
    within = with_chan-Within (Within-refl w) (open_with sent);
    left = (sent-Backed q sent b, refl, refl, refl);
  }

held_names :
    (ks : Option ℕ) (w : World) → HasKeys ks w → (names : List String) × Holds ks names w.key_sets
held_names none w has = ([], tt)
held_names (some k) w ((names, e), lt) = (names, e)

module _ (keys_find : List String → List ℕ → Option String) {ch : ℕ} {w : World} where
  send_outcome-Stays :
      (q : Request) (o : Option Item)
      → Backed ch q w
      → (w' : World) × (send_outcome ch o w ≡ some w') × Stays ch q w w'
  unfolding send_outcome
  send_outcome-Stays q none b = (w, refl, same-Stays q b)
  send_outcome-Stays q (some item) b =
      let (sent, e) = b.channel in
      (_, send-open ch w sent item e, sent-Stays q (sent ++ item ∷ []) b)

  serving_answer :
      (h : Handler) (r : ℕ) (reply : Reply)
      → Backed ch (serving h r) w
      → Fits h reply
      → (w' : World) × (result_callback keys_find r reply w ≡ some w') × Stays ch (serving h r) w w'
  unfolding result_callback call_result
  serving_answer h r reply b fits =
      let (names, held) = held_names (keys_of h) w b.keys in
      let (item, e, _) = outcome-answer keys_find names w h reply held fits in
      let (w', told, stays) = send_outcome-Stays (serving h r) item b in
      (w', simp (b.closures.0, e, told), stays)

  -- The closure of a write has not the type that go_lookup_callback asserts.
  pub writing_panics :
      (r : ℕ) (reply : Reply) → Backed ch (writing r) w → result_callback keys_find r reply w ≡ none
  unfolding result_callback call_result
  writing_panics r reply b = simp b.closures.0

  uploading_answer :
      (r : ℕ) (reply : Reply)
      → Backed ch (uploading r) w
      → Takes (uploading r) reply
      → (w' : World) × (result_callback keys_find r reply w ≡ some w') × Stays ch (uploading r) w w'
  unfolding result_callback call_result chunk_result
  uploading_answer r (lookup_reply x) b fits =
      let (sent, e) = b.channel in
      let (u, there) = b.upload in
      let told = send-open ch w sent (lookup_item x) e in
      elim (Bool-cases (eqb u.total_size 0)) [
        | inl last ↦ (
          _,
          simp (b.closures.0, there, last, told),
          sent-Stays (uploading r) (sent ++ lookup_item x ∷ []) b,
        )
        | inr more ↦ (w, simp (b.closures.0, there, more), same-Stays (uploading r) b)
      ]
  uploading_answer r _ b fits = absurd fits

  asking_answer :
      (r : ℕ) (reply : Reply)
      → Backed ch (asking r) w
      → Takes (asking r) reply
      → (w' : World) × (result_callback keys_find r reply w ≡ some w') × Leaves ch (asking r) w w'
  unfolding result_callback call_result status_result forget
  asking_answer r (status_reply x) b fits =
      let (sent, e) = b.channel in
      let s = sent ++ status_item x ∷ [] in
      let w1 = with_chan ch (open_with s) w in
      let told = send-open ch w sent (status_item x) e in
      let ended = close-open ch w1 s (lookup-insert_self ch (open_with s) w.chans) in
      let w2 = with_chan ch (closed_with s) w1 in
      (
        forget r w2,
        simp (b.closures, told, ended),
        record {
          within =
              forget-Within
                (with_chan-Within (with_chan-Within (Within-refl w) (open_with s)) (closed_with s))
                r (omega arith) (omega arith);
          left = (
            λ k low high. get-delete_context r k w.pool ∙ ground arith,
            (closed_with s, lookup-insert_self ch (closed_with s) w1.chans, refl),
          );
        },
      )
  asking_answer r _ b fits = absurd fits

-- The request in the ledger after an answer.
abbrev pub settled : Request → Option Request
settled (serving h r) = some (serving h r)
settled (writing r) = some (writing r)
settled (uploading r) = some (uploading r)
settled (asking r) = none

-- A result that C may give to a request that is no write is handed on, and the request is as before or, for a call
-- about backends, over.
pub result_callback-Turn :
    (keys_find : List String → List ℕ → Option String) (ch : ℕ) (q : Request) (reply : Reply)
    (w : World)
    → Backed ch q w
    → Takes q reply
    → is_writing q ≡ false
    → (w' : World) × (result_callback keys_find (context q) reply w ≡ some w')
      × Turn ch (context q) (context q + width q) (key_set q) (settled q) w w'
result_callback-Turn keys_find ch (serving h r) reply w b fits other =
    serving_answer keys_find h r reply b fits
result_callback-Turn keys_find ch (writing r) reply w b fits other = absurd (cc)
result_callback-Turn keys_find ch (uploading r) reply w b fits other =
    uploading_answer keys_find r reply b fits
result_callback-Turn keys_find ch (asking r) reply w b fits other =
    asking_answer keys_find r reply b fits
