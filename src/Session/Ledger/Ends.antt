-- ===== src/Session/Ledger/Ends.antt =====
-- The end that C gives to a request of the ledger.
use elliptics_go.Base.{
  ℕ, ◌+◌, ◌≡◌, ◌⊎◌, inl, inr, refl, List, [], ◌∷◌, ◌++◌, Option, none, some, true, arith, eqb,
  Bool-cases, length-append,
}
use elliptics_go.Base.Dict.{lookup, lookup-insert_self}
use elliptics_go.Base.Eq.{nat_eq}
use elliptics_go.Errors.{Error, text}
use elliptics_go.Session.Results.{Item, lookup_item, lookup_error}
use elliptics_go.Session.World.{Upload, World, Call, forget, issue, set_upload}
use elliptics_go.Session.Callback.{call_final, final_callback}
use elliptics_go.Session.Chunks.{
  chunk_finish, chunk_end, chunk_fail, take_read, write_taken, chunk_call, took,
}
use elliptics_go.Session.Delivery.Own.{with_chan}
use elliptics_go.Session.Ledger.{
  Request, serving, writing, uploading, asking, context, Ends, called,
}
use elliptics_go.Session.Ledger.Frame.{
  Within, Within-refl, with_chan-Within, set_upload-Within, issue-Within,
}
use elliptics_go.Session.Ledger.Turns.{IsOpen, Backed}
use elliptics_go.Session.Ledger.Answers.{open_with, closed_with, send-open, close-open, Stays}
use elliptics_go.Session.Ledger.Closing.{
  Over, forget_three, three_forgotten, forget_three-Within, serving_end, writing_end,
}

module _ (ch r : ℕ) (w v : World) (p : Within ch r (r + 3) none w v)
    (calls : v.calls ≡ w.calls) where
  chunk_end-Over :
      (sent : List Item)
      → lookup ch v.chans ≡ some (open_with sent)
      → Over ch (uploading r) w (chunk_end ch r (r + 1) (r + 2) v)
  unfolding chunk_end forget
  chunk_end-Over sent here =
      let v1 = with_chan ch (closed_with sent) v in
      (
        forget_three r v1,
        simp (close-open ch v sent here),
        record {
          within = forget_three-Within (with_chan-Within p (closed_with sent));
          left = (
            λ k low high. three_forgotten r k v1 low high,
            (closed_with sent, lookup-insert_self ch (closed_with sent) v.chans, refl),
          );
        },
        calls,
      )

module _ (ch r : ℕ) (w v : World) (p : Within ch r (r + 3) none w v)
    (calls : v.calls ≡ w.calls) where
  chunk_fail-Over :
      (e : Error) → IsOpen ch v → Over ch (uploading r) w (chunk_fail ch r (r + 1) (r + 2) e v)
  unfolding chunk_fail
  chunk_fail-Over e (sent, here) =
      let c = open_with (sent ++ lookup_item (lookup_error e) ∷ []) in
      let (w', run, leaves, same) =
        chunk_end-Over ch r w (with_chan ch c v) (with_chan-Within p c) calls
          (sent ++ lookup_item (lookup_error e) ∷ []) (lookup-insert_self ch c v.chans) in
      (w', rw (send-open ch v sent (lookup_item (lookup_error e)) here) run, leaves, same)

uploading_failed :
    (ch r : ℕ) (e : Error) (w : World)
    → Backed ch (uploading r) w
    → Over ch (uploading r) w (final_callback (r + 1) (some e) w)
unfolding final_callback call_final chunk_finish
uploading_failed ch r e w b =
    rw b.closures.1 (chunk_fail-Over ch r w w (Within-refl w) refl e b.channel)

-- A request that is over after such an end: a chunked write may go on after one with no error.
abbrev pub IsLast : Request → Option Error → Type 0
IsLast (serving h r) e = Unit {0}
IsLast (writing r) e = Unit {0}
IsLast (uploading r) none = ⊥
IsLast (uploading r) (some e) = Unit {0}
IsLast (asking r) e = ⊥

pub final_callback-Over :
    (ch : ℕ) (q : Request) (e : Option Error) (w : World)
    → Backed ch q w
    → IsLast q e
    → Over ch q w (final_callback (context q + 1) e w)
final_callback-Over ch (serving h r) e w b last = serving_end ch h r e w b
final_callback-Over ch (writing r) e w b last = writing_end ch r e w b
final_callback-Over ch (uploading r) none w b last = absurd last
final_callback-Over ch (uploading r) (some e) w b last = uploading_failed ch r e w b
final_callback-Over ch (asking r) e w b last = absurd last

-- An upload goes on with one more call of C, or it is over.
abbrev pub OnOrOver : ℕ → Request → World → Option World → Type 0
OnOrOver ch q w result =
    ((w' : World) × (result ≡ some w') × Stays ch q w w' × (called w w' ≡ true))
    ⊎ Over ch q w result

pub called_issue : (w w' : World) (c : Call) → w'.calls ≡ w.calls ++ c ∷ [] → called w w' ≡ true
unfolding called
called_issue w w' c e = rw e (ground (arith, length-append w.calls (c ∷ [])))

module _ (ch r : ℕ) (u : Upload) (w : World) (b : Backed ch (uploading r) w) where
  write_taken-OnOrOver :
      (bytes : List ℕ) → OnOrOver ch (uploading r) w (write_taken ch r (r + 1) (r + 2) bytes u w)
  unfolding write_taken set_upload issue
  write_taken-OnOrOver bytes =
      let u' = took bytes u in
      let w1 = set_upload ch u' w in
      let p : Within ch r (r + 3) none w w1 = set_upload-Within (Within-refl w) u' in
      let written : Backed ch (uploading r) (issue (chunk_call r (r + 1) bytes u') w1) = record {
        closures = b.closures;
        channel = b.channel;
        keys = tt;
        upload = (u', lookup-insert_self ch u' w.uploads);
        known = b.known;
      } in
      elim (Bool-cases (u.allocates u.reads)) [
        | inl made ↦ inl (
          issue (chunk_call r (r + 1) bytes u') w1,
          rw made refl,
          record {
            within = issue-Within p (chunk_call r (r + 1) bytes u');
            left = (written, refl, refl, refl);
          },
          called_issue w _ (chunk_call r (r + 1) bytes u') refl,
        )
        | inr failed ↦
            rw failed
              (inr (chunk_fail-Over ch r w w1 p refl (text "could not create new key") b.channel))
      ]

  take_read-OnOrOver :
      (got : List ℕ × Option Error)
      → OnOrOver ch (uploading r) w (take_read ch r (r + 1) (r + 2) got u w)
  unfolding take_read
  take_read-OnOrOver ([], some e) = inr (chunk_fail-Over ch r w w (Within-refl w) refl e b.channel)
  take_read-OnOrOver ([], none) = write_taken-OnOrOver []
  take_read-OnOrOver (x ∷ xs, e) = write_taken-OnOrOver (x ∷ xs)

uploading_end :
    (ch r : ℕ) (e : Option Error) (w : World)
    → Backed ch (uploading r) w
    → OnOrOver ch (uploading r) w (final_callback (r + 1) e w)
unfolding final_callback call_final chunk_finish
uploading_end ch r (some e) w b =
    rw b.closures.1 (inr (chunk_fail-Over ch r w w (Within-refl w) refl e b.channel))
uploading_end ch r none w b =
    let (u, there) = b.upload in
    rw (b.closures.1, there)
      (elim (Bool-cases (eqb u.total_size 0)) [
        | inl last ↦
            rw last (inr (chunk_end-Over ch r w w (Within-refl w) refl b.channel.0 b.channel.1))
        | inr more ↦ rw more (take_read-OnOrOver ch r u w b (u.reader u.reads))
      ])

-- C may end a request once, or, for a chunked write, once for each call: then the request goes on
-- exactly when it makes another call.
pub final_callback-OnOrOver :
    (ch : ℕ) (q : Request) (e : Option Error) (w : World)
    → Backed ch q w
    → Ends q
    → OnOrOver ch q w (final_callback (context q + 1) e w)
final_callback-OnOrOver ch (serving h r) e w b ends = inr (serving_end ch h r e w b)
final_callback-OnOrOver ch (writing r) e w b ends = inr (writing_end ch r e w b)
final_callback-OnOrOver ch (uploading r) e w b ends = uploading_end ch r e w b
final_callback-OnOrOver ch (asking r) e w b ends = absurd ends
