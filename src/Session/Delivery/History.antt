-- ===== src/Session/Delivery/History.antt =====
-- The history of one request among the others: what its channel carries, and how it ends.
use elliptics_go.Base.{
  ℕ, ◌+◌, ◌*◌, ◌<◌, ◌≡◌, ◌≢◌, List, [], ◌∷◌, ◌++◌, Option, some, >>=-eq-some, String, false,
  if◌then◌else◌, eqb, eqb_iff, arith, Bool-cases, inl, inr, length, All, append-nil, append_assoc,
}
use elliptics_go.Base.Dict.{lookup}
use elliptics_go.Base.Eq.{nat_eq}
use elliptics_go.Base.Word.{u64_mod}
use elliptics_go.Errors.{Error}
use elliptics_go.Session.Results.{Item}
use elliptics_go.Session.World.{Handler, to_channel, World, make_chan}
use elliptics_go.Session.Callback.{final_callback}
use elliptics_go.Session.Requests.{Opened, open_request}
use elliptics_go.Session.Writes.{register_write}
use elliptics_go.Session.Delivery.{
  Event, reply, final, begin, begin_write, step, run, answer, Fits, keys_of, Holds, OtherKeys, Live,
}
use elliptics_go.Session.Delivery.{begin_upload, begin_status}
use elliptics_go.Session.Uploads.{write_chunk}
use elliptics_go.Session.Backends.{open_status}
use elliptics_go.Session.Delivery.Opening.{write_chunk-Live, open_status-Live}
use elliptics_go.Session.Delivery.Frame.{make_chan-Live}
use elliptics_go.Session.Delivery.Steps.{result_callback-Live, final_callback-Live}
use elliptics_go.Session.Delivery.Own.{result_callback-own, final_callback-own, ending, Ended}
use elliptics_go.Session.Delivery.Begin.{
  topped, open_request-Live, register_write-Live, open_request-begins, Orderly,
}

-- What may happen while the request `o` runs: its own results fit it, it does not end, and a new
-- request has another key set.
abbrev pub Permits : Opened → Handler → Event → Type 0
Permits o h (reply k r) = (k ≡ o.r → Fits h r) × (k ≢ o.f)
Permits o h (final k e) = (k ≢ o.r) × (k ≢ o.f)
Permits o h (begin h') = OtherKeys (keys_of h') (keys_of h)
Permits o h _ = Unit {0}

module _ (keys_find : List String → List ℕ → Option String) (o : Opened) (h : Handler)
    (ks : List String) where
  -- What an event makes the request answer, and all its answers in order.
  abbrev pub share : Event → List Item
  share (reply k r) = if eqb k o.r then answer keys_find ks h r else []
  share _ = []

  unfoldable pub answers : List Event → List Item
  answers [] = []
  answers (e ∷ es) = share e ++ answers es

  -- One event, and what it adds to the channel.
  step-Live :
      (e : Event) (sent : List Item) (top : ℕ) (w w' : World)
      → Live o h ks sent top w
      → Permits o h e
      → top + 3 < u64_mod
      → step keys_find e w ≡ some w'
      → Live o h ks (sent ++ share e) (top + 3) w'
  unfolding step
  step-Live (reply k r) sent top w w' live (fits, ne) lt went = elim (Bool-cases (eqb k o.r)) [
    | inl own ↦
        let same : k ≡ o.r = (eqb_iff k o.r).0 own in
        let (w1, e1, l1) = result_callback-own live keys_find r (fits same) in
        let there : w1 ≡ w' = cc in simp (own, ← there) (topped (omega arith) l1)
    | inr other ↦
        let ne' : k ≢ o.r = λ e. absurd (ground (arith, e, other)) in
        simp (other, append-nil)
          (topped (omega arith) (result_callback-Live keys_find k r w w' live (ne', ne) went))
  ]
  step-Live (final k err) sent top w w' live (nr, nf) lt went =
      rw append-nil (topped (omega arith) (final_callback-Live k err w w' live (nr, nf) went))
  step-Live (begin h') sent top w w' live nk lt went =
      let same : (open_request h' w).0 ≡ w' = cc in
      rw (append-nil, ← same) (topped (omega arith) (open_request-Live h' w live nk (omega arith)))
  step-Live (begin_write bytes) sent top w w' live ok lt went =
      let (l1, ne, same_pool) = make_chan-Live live in
      let kept = register_write-Live (make_chan w).1 bytes (make_chan w).0 l1 ne lt in
      let same : (register_write (to_channel (make_chan w).1) (to_channel (make_chan w).1) bytes
            (make_chan w).0).0
          ≡ w' =
        cc in
      rw (append-nil, ← same) kept
  step-Live (begin_upload u) sent top w w' live ok lt went =
      let ((w1, named), made, last) = >>=-eq-some (write_chunk u w) _ went in
      let same : w1 ≡ w' = cc in
      rw (append-nil, ← same) (write_chunk-Live u w w1 named live lt made)
  step-Live begin_status sent top w w' live ok lt went =
      let same : (open_status w).0 ≡ w' = cc in
      rw (append-nil, ← same) (topped (omega arith) (open_status-Live w live (omega arith)))

  -- While the request runs, its channel carries its answers and is open.
  pub run-Live :
      (es : List Event) (sent : List Item) (top : ℕ) (w w' : World)
      → Live o h ks sent top w
      → All (Permits o h) es
      → top + 3 * length es < u64_mod
      → run keys_find es w ≡ some w'
      → Live o h ks (sent ++ answers es) (top + 3 * length es) w'
  unfolding run answers
  run-Live [] sent top w w' live permits lt went =
      let same : w ≡ w' = cc in rw (append-nil, ← same) (topped (omega arith) live)
  run-Live (e ∷ es) sent top w w' live (ok, oks) lt went =
      let (w1, first, rest) = >>=-eq-some (step keys_find e w) _ went in
      let l1 = step-Live e sent top w w1 live ok (omega arith) first in
      let l2 = run-Live es (sent ++ share e) (top + 3) w1 w' l1 oks (omega arith) rest in
      rw⁻¹ append_assoc (topped (omega arith) l2)

-- A request that the session makes in an orderly world, with its own key set if it is a bulk one,
-- runs among any events of the other requests: their results, their ends and new requests with
-- other key sets, while fewer than 2^64 contexts can have been handed out and nothing panics. Its
-- own results are of its kind, C takes neither of its contexts for the other, and it has not ended.
-- Its channel then carries exactly the answers to its own results, in their order, and is open. Its
-- end does not panic: it adds the error, if there is one, closes the channel and takes both
-- contexts out of the pool.
pub run-open_request :
    (keys_find : List String → List ℕ → Option String) (h : Handler) (ks : List String)
    (es : List Event) (err : Option Error) (w w' : World)
    → Orderly (keys_of h) w
    → Holds (keys_of h) ks w.key_sets
    → All (Permits (open_request h w).1 h) es
    → w.pool.counter + 2 + 3 * length es < u64_mod
    → run keys_find es (open_request h w).0 ≡ some w'
    → (lookup (open_request h w).1.ch w'.chans
        ≡ some (record { sent = answers keys_find (open_request h w).1 h ks es; closed = false }))
      × (ended : World) × (final_callback (open_request h w).1.f err w' ≡ some ended)
      × Ended
          (open_request h w).1
          (answers keys_find (open_request h w).1 h ks es ++ ending h err)
          ended
run-open_request keys_find h ks es err w w' orderly held permits lt went =
    let o : Opened = (open_request h w).1 in
    let born = open_request-begins h ks w orderly held (omega arith) in
    let live =
      run-Live keys_find o h ks es [] (w.pool.counter + 2) (open_request h w).0 w' born permits lt
        went in
    let (ended, went_on, over) = final_callback-own live err in (live.channel, ended, went_on, over)
