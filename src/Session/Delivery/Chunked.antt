-- ===== src/Session/Delivery/Chunked.antt =====
-- A request under way, and the chunked write of another one.
use elliptics_go.Base.{
  ℕ, ◌≡◌, ◌≢◌, List, [], ◌∷◌, Option, none, some, >>=-eq-some, String, eqb, subst, Bool-cases, inl,
  inr,
}
use elliptics_go.Base.Dict.{lookup}
use elliptics_go.Base.Eq.{nat_eq}
use elliptics_go.Errors.{Error, text}
use elliptics_go.Session.Results.{
  Item, LookupResult, lookup_item, lookup_error, DnetBackendsStatus, status_item,
}
use elliptics_go.Session.World.{
  Handler, chunk, on_chunk, on_chunk_finish, Upload, World, send, close,
}
use elliptics_go.Session.Chunks.{
  chunk_result, chunk_end, chunk_fail, took, chunk_call, write_taken, take_read, chunk_finish,
}
use elliptics_go.Session.Callback.{status_result}
use elliptics_go.Session.Requests.{Opened}
use elliptics_go.Session.Writes.{refuse}
use elliptics_go.Session.Uploads.{
  report_empty, register_chunks, prepare_call, announce, begin_chunks, first_read,
}
use elliptics_go.Session.Delivery.{Live, OtherContext}
use elliptics_go.Session.Delivery.Frame.{
  send-Writes, close-Writes, Writes-Live, forget-Live, remember-Live, issue-Live, set_upload-Live,
}

module _ {o : Opened} {h : Handler} {ks : List String} {sent : List Item} {top : ℕ} where
  same-Live : (w w' : World) → Live o h ks sent top w → some w ≡ some w' → Live o h ks sent top w'
  same-Live w w' live e = let same : w ≡ w' = cc in subst (Live o h ks sent top) same live

  same_pair-Live :
      (w w' : World) (ch named : ℕ)
      → Live o h ks sent top w
      → ◌≡◌ {A = Option (World × ℕ)} (some (w, ch)) (some (w', named))
      → Live o h ks sent top w'
  same_pair-Live w w' ch named live e =
      let same : w ≡ w' = cc in subst (Live o h ks sent top) same live

  send-Live :
      (ch : ℕ) (item : Item) (w w' : World)
      → Live o h ks sent top w
      → ch ≢ o.ch
      → send ch item w ≡ some w'
      → Live o h ks sent top w'
  send-Live ch item w w' live ne e = Writes-Live live ch w' ne (send-Writes ch item w w' e)

  pub chunk_result-Live :
      (ch : ℕ) (r : LookupResult) (w w' : World)
      → Live o h ks sent top w
      → ch ≢ o.ch
      → chunk_result ch r w ≡ some w'
      → Live o h ks sent top w'
  unfolding chunk_result
  chunk_result-Live ch r w w' live ne e =
      let (u, _, rest) = >>=-eq-some (lookup ch w.uploads) _ e in
      elim (Bool-cases (eqb u.total_size 0)) [
        | inl last ↦ send-Live ch (lookup_item r) w w' live ne (rw last at rest)
        | inr more ↦ same-Live w w' live (rw more at rest)
      ]

  pub status_result-Live :
      (ch k : ℕ) (r : DnetBackendsStatus) (w w' : World)
      → Live o h ks sent top w
      → ch ≢ o.ch
      → OtherContext o k
      → status_result ch k r w ≡ some w'
      → Live o h ks sent top w'
  unfolding status_result
  status_result-Live ch k r w w' live ne nk e =
      let (told, e1, rest) = >>=-eq-some (send ch (status_item r) w) _ e in
      let (ended, e2, last) = >>=-eq-some (close ch told) _ rest in
      let live1 = send-Live ch (status_item r) w told live ne e1 in
      let live2 = Writes-Live live1 ch ended ne (close-Writes ch told ended e2) in
      same-Live _ w' (forget-Live live2 k nk) last

  module _ (ch r f c : ℕ) (ne : ch ≢ o.ch) (nr : OtherContext o r) (nf : OtherContext o f)
      (nc : OtherContext o c) where
    chunk_end-Live :
        (w w' : World)
        → Live o h ks sent top w
        → chunk_end ch r f c w ≡ some w'
        → Live o h ks sent top w'
    unfolding chunk_end
    chunk_end-Live w w' live e =
        let (ended, e1, last) = >>=-eq-some (close ch w) _ e in
        let live1 = Writes-Live live ch ended ne (close-Writes ch w ended e1) in
        same-Live _ w' (forget-Live (forget-Live (forget-Live live1 r nr) f nf) c nc) last

    chunk_fail-Live :
        (e : Error) (w w' : World)
        → Live o h ks sent top w
        → chunk_fail ch r f c e w ≡ some w'
        → Live o h ks sent top w'
    unfolding chunk_fail
    chunk_fail-Live e w w' live ran =
        let (told, e1, rest) = >>=-eq-some (send ch (lookup_item (lookup_error e)) w) _ ran in
        chunk_end-Live told w' (send-Live ch _ w told live ne e1) rest

    write_taken-Live :
        (bytes : List ℕ) (u : Upload) (w w' : World)
        → Live o h ks sent top w
        → write_taken ch r f c bytes u w ≡ some w'
        → Live o h ks sent top w'
    unfolding write_taken
    write_taken-Live bytes u w w' live ran =
        let live1 = set_upload-Live live ch (took bytes u) in
        elim (Bool-cases (u.allocates u.reads)) [
          | inl ok ↦
              same-Live _ w' (issue-Live live1 (chunk_call r f bytes (took bytes u))) (rw ok at ran)
          | inr refused ↦
              chunk_fail-Live (text "could not create new key") _ w' live1 (rw refused at ran)
        ]

    take_read-Live :
        (got : List ℕ × Option Error) (u : Upload) (w w' : World)
        → Live o h ks sent top w
        → take_read ch r f c got u w ≡ some w'
        → Live o h ks sent top w'
    unfolding take_read
    take_read-Live ([], some e) u w w' live ran = chunk_fail-Live e w w' live ran
    take_read-Live ([], none) u w w' live ran = write_taken-Live [] u w w' live ran
    take_read-Live (b ∷ bs, e) u w w' live ran = write_taken-Live (b ∷ bs) u w w' live ran

    pub chunk_finish-Live :
        (e : Option Error) (w w' : World)
        → Live o h ks sent top w
        → chunk_finish ch r f c e w ≡ some w'
        → Live o h ks sent top w'
    unfolding chunk_finish
    chunk_finish-Live (some e) w w' live ran = chunk_fail-Live e w w' live ran
    chunk_finish-Live none w w' live ran =
        let (u, _, rest) = >>=-eq-some (lookup ch w.uploads) _ ran in
        elim (Bool-cases (eqb u.total_size 0)) [
          | inl done ↦ chunk_end-Live w w' live (rw done at rest)
          | inr more ↦ take_read-Live (u.reader u.reads) u w w' live (rw more at rest)
        ]

    refuse-Live :
        (e : Error) (w w' : World) (got : ℕ)
        → Live o h ks sent top w
        → refuse ch e w ≡ some (w', got)
        → Live o h ks sent top w'
    unfolding refuse
    refuse-Live e w w' got live ran =
        let (told, e1, rest) = >>=-eq-some (send ch (lookup_item (lookup_error e)) w) _ ran in
        let (ended, e2, last) = >>=-eq-some (close ch told) _ rest in
        let live1 = send-Live ch _ w told live ne e1 in
        let same : ended ≡ w' = cc in
        subst (Live o h ks sent top) same
          (Writes-Live live1 ch ended ne (close-Writes ch told ended e2))

    report_empty-Live :
        (bytes : List ℕ) (offset size : ℕ) (w w' : World)
        → Live o h ks sent top w
        → report_empty ch bytes offset size w ≡ some w'
        → Live o h ks sent top w'
    unfolding report_empty
    report_empty-Live [] offset size w w' live ran = send-Live ch _ w w' live ne ran
    report_empty-Live (b ∷ bs) offset size w w' live ran = same-Live w w' live ran

    register_chunks-Live :
        (bytes : List ℕ) (w : World)
        → Live o h ks sent top w
        → Live o h ks sent top (register_chunks (record { ch = ch; r = r; f = f }) c bytes w)
    unfolding register_chunks
    register_chunks-Live bytes w live =
        let l1 = remember-Live live r (on_chunk ch) nr ne in
        let l2 = remember-Live l1 f (on_chunk_finish ch r f c) nf (ne, nr, nf, nc) in
        remember-Live l2 c (chunk bytes) nc tt

    announce-Live :
        (bytes : List ℕ) (u : Upload) (w w' : World) (named : ℕ)
        → Live o h ks sent top w
        → announce (record { ch = ch; r = r; f = f }) c bytes u w ≡ some (w', named)
        → Live o h ks sent top w'
    unfolding announce
    announce-Live bytes u w w' named live ran =
        let opened : Opened = record { ch = ch; r = r; f = f } in
        let live1 = register_chunks-Live bytes _ (set_upload-Live live ch (took bytes u)) in
        elim (Bool-cases (u.allocates u.reads)) [
          | inl made ↦
              same_pair-Live _ w' ch named
                (issue-Live live1 (prepare_call opened bytes (took bytes u))) (rw made at ran)
          | inr refused ↦
              refuse-Live (text "could not create new key") w w' named live (rw refused at ran)
        ]

    pub first_read-Live :
        (got : List ℕ × Option Error) (u : Upload) (w w' : World) (named : ℕ)
        → Live o h ks sent top w
        → first_read (record { ch = ch; r = r; f = f }) c got u w ≡ some (w', named)
        → Live o h ks sent top w'
    unfolding first_read begin_chunks
    first_read-Live (bytes, some e) u w w' named live ran = refuse-Live e w w' named live ran
    first_read-Live (bytes, none) u w w' named live ran =
        let (told, e1, rest) = >>=-eq-some (report_empty ch bytes u.offset u.total_size w) _ ran in
        announce-Live bytes u told w' named
          (report_empty-Live bytes u.offset u.total_size w told live e1) rest
