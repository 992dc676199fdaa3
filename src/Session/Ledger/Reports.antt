-- ===== src/Session/Ledger/Reports.antt =====
-- What the end of a request leaves on its channel.
use elliptics_go.Base.{
  ℕ, ◌+◌, ◌≡◌, refl, List, [], ◌∷◌, ◌++◌, append-nil, Option, none, some, ◌>>=◌, String, Bool,
  >>=-eq-some,
}
use elliptics_go.Base.Dict.{lookup, lookup-insert_self}
use elliptics_go.Base.Eq.{nat_eq}
use elliptics_go.Errors.{Error}
use elliptics_go.Session.Results.{Item, lookup_item, lookup_error}
use elliptics_go.Session.Interfaces.{item_error}
use elliptics_go.Session.World.{
  Handler, reads, bulk_reads, lookups, bulk_writes, removes, bulk_removes, finds, entries, unused,
  stats, World, send, close, forget,
}
use elliptics_go.Session.Callback.{
  error_item, item_for, send_error, free_keys, finish, tell, write_finish, call_final,
  final_callback,
}
use elliptics_go.Session.Chunks.{chunk_finish, chunk_end, chunk_fail}
use elliptics_go.Session.Delivery.Own.{with_chan, free_keys-same, ending}
use elliptics_go.Session.Ledger.{
  Request, serving, writing, uploading, asking, context, Ledger, Move, called, perform, after,
  Reached,
}
use elliptics_go.Session.Ledger
use elliptics_go.Session.Ledger.Turns.{Backed}
use elliptics_go.Session.Ledger.Answers.{open_with, closed_with, send-open, close-open}
use elliptics_go.Session.Ledger.Ends.{IsLast}
use elliptics_go.Session.Ledger.Promises.{Reached-Agrees}

-- Nothing, or one value with the error.
abbrev pub Reports : Option Error → List Item → Type 0
Reports none items = items ≡ []
Reports (some e) items = (item : Item) × (items ≡ item ∷ []) × (item_error item ≡ some e)

-- The end closes the channel after what was sent and its report.
abbrev pub Closes : ℕ → List Item → Option Error → Option World → Type 0
Closes ch sent e result =
    (w' : World) × (items : List Item) × (result ≡ some w')
    × (lookup ch w'.chans ≡ some (closed_with (sent ++ items)))
    × Reports e items

error_item-error : (h : Handler) (e : Error) → item_error (error_item h e) ≡ some e
unfolding item_error error_item
error_item-error reads e = refl
error_item-error (bulk_reads k) e = refl
error_item-error lookups e = refl
error_item-error (bulk_writes k) e = refl
error_item-error removes e = refl
error_item-error (bulk_removes k) e = refl
error_item-error finds e = refl
error_item-error entries e = refl
error_item-error unused e = refl
error_item-error stats e = refl

ending-Reports : (h : Handler) (e : Option Error) → Reports e (ending h e)
ending-Reports h none = refl
ending-Reports h (some e) = (error_item h e, refl, error_item-error h e)

-- A report and the end of the channel.
report_closed :
    (h : Handler) (ch : ℕ) (sent : List Item) (e : Option Error) (w : World)
    → lookup ch w.chans ≡ some (open_with sent)
    → (ended : World) × ((do told ← send_error ch (item_for h e) e w; close ch told) ≡ some ended)
      × (lookup ch ended.chans ≡ some (closed_with (sent ++ ending h e)))
unfolding send_error
report_closed h ch sent none w here = (
  with_chan ch (closed_with sent) w,
  close-open ch w sent here,
  rw append-nil (lookup-insert_self ch (closed_with sent) w.chans),
)
report_closed h ch sent (some e) w here =
    let sent' = sent ++ error_item h e ∷ [] in
    let w1 = with_chan ch (open_with sent') w in
    (
      with_chan ch (closed_with sent') w1,
      rw (send-open ch w sent (error_item h e) here)
          (close-open ch w1 sent' (lookup-insert_self ch (open_with sent') w.chans)),
      lookup-insert_self ch (closed_with sent') w1.chans,
    )

serving_report :
    (ch : ℕ) (h : Handler) (r : ℕ) (sent : List Item) (e : Option Error) (w : World)
    → Backed ch (serving h r) w
    → lookup ch w.chans ≡ some (open_with sent)
    → Closes ch sent e (final_callback (r + 1) e w)
unfolding final_callback call_final finish forget
serving_report ch h r sent e w b here =
    let (ended, run, closed) = report_closed h ch sent e w here in
    let (told, run1, run2) = >>=-eq-some (send_error ch (item_for h e) e w) _ run in
    (
      forget (r + 1) (forget r (free_keys h ended)),
      ending h e,
      rw (b.closures.1, run1, run2) refl,
      rw (free_keys-same h ended).0 closed,
      ending-Reports h e,
    )

writing_report :
    (ch r : ℕ) (sent : List Item) (e : Option Error) (w : World)
    → Backed ch (writing r) w
    → lookup ch w.chans ≡ some (open_with sent)
    → Closes ch sent e (final_callback (r + 1) e w)
unfolding final_callback call_final write_finish tell forget
writing_report ch r sent e w b here =
    let v = forget (r + 2) (forget (r + 1) (forget r w)) in
    let (ended, run, closed) = report_closed lookups ch sent e v here in
    (ended, ending lookups e, simp (b.closures.1, run), closed, ending-Reports lookups e)

uploading_report :
    (ch r : ℕ) (sent : List Item) (e : Error) (w : World)
    → Backed ch (uploading r) w
    → lookup ch w.chans ≡ some (open_with sent)
    → Closes ch sent (some e) (final_callback (r + 1) (some e) w)
unfolding final_callback call_final chunk_finish chunk_fail chunk_end forget send_error error_item
uploading_report ch r sent e w b here =
    let (ended, run, closed) = report_closed lookups ch sent (some e) w here in
    let (told, run1, run2) =
      >>=-eq-some (send ch (lookup_item (lookup_error e)) w) (λ told. close ch told) run in
    (
      forget (r + 2) (forget (r + 1) (forget r ended)),
      ending lookups (some e),
      rw (b.closures.1, run1, run2) refl,
      closed,
      ending-Reports lookups (some e),
    )

last_report :
    (ch : ℕ) (q : Request) (sent : List Item) (e : Option Error) (w : World)
    → Backed ch q w
    → IsLast q e
    → lookup ch w.chans ≡ some (open_with sent)
    → Closes ch sent e (final_callback (context q + 1) e w)
last_report ch (serving h r) sent e w b last here = serving_report ch h r sent e w b here
last_report ch (writing r) sent e w b last here = writing_report ch r sent e w b here
last_report ch (uploading r) sent none w b last here = absurd last
last_report ch (uploading r) sent (some e) w b last here = uploading_report ch r sent e w b here
last_report ch (asking r) sent e w b last here = absurd last

-- In every state that is reached from the first one by answers and ends that keep to the contract of
-- C and by new requests, while fewer than 2^64 contexts are handed out, the end of a request, of a
-- chunked write an end with an error, closes its channel after all that was sent on it: with
-- nothing more, or, where C reports an error, with one last value whose Error is that error.
pub Reached-Closes :
    (keys_find : List String → List ℕ → Option String) (string_less : String → String → Bool)
    {l : Ledger} {w : World} (ch : ℕ) (q : Request) (e : Option Error)
    → Reached keys_find string_less l w
    → lookup ch l ≡ some q
    → IsLast q e
    → (sent : List Item) × (lookup ch w.chans ≡ some (open_with sent))
      × Closes ch sent e (perform keys_find string_less l (Ledger.finish ch e) w)
unfolding perform
Reached-Closes keys_find string_less {l} {w} ch q e reached there last =
    let b = (Reached-Agrees keys_find string_less reached).backed ch q there in
    let (sent, here) = b.channel in
    let (w', items, run, closed, reports) = last_report ch q sent e w b last here in
    (sent, here, (w', items, rw there run, closed, reports))
