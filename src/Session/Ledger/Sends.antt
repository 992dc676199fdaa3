-- ===== src/Session/Ledger/Sends.antt =====
-- How many values the callbacks that end requests send on their channels.
use elliptics_go.Base.{
  ℕ, ◌+◌, ◌≤◌, ◌≡◌, ◌≢◌, eqb, eqb_iff, Bool-cases, inl, inr, ◌∙◌, refl, ap, subst, arith, List, [],
  ◌∷◌, ◌++◌, Option, none, some, String, length, length-append,
}
use elliptics_go.Base.Dict.{delete, lookup, lookup-delete, lookup-insert_self}
use elliptics_go.Base.Eq.{nat_eq, eq_refl}
use elliptics_go.Errors.{Error}
use elliptics_go.Session.Results.{Item, DnetBackendsStatus, status_item}
use elliptics_go.Session.World.{Channel, World, forget}
use elliptics_go.Session.Callback.{status_reply, status_result, call_result, result_callback}
use elliptics_go.Session.Delivery.Own.{with_chan}
use elliptics_go.Session.Ledger.{Ledger, Request, asking}
use elliptics_go.Session.Ledger.Turns.{Backed}
use elliptics_go.Session.Ledger.Answers.{open_with, closed_with, send-open, close-open}
use elliptics_go.Session.Ledger.Reports.{Reports, Closes}

-- How many values were sent on a channel.
abbrev pub sent_of : Option Channel → ℕ
sent_of none = 0
sent_of (some x) = length x.sent

abbrev pub sent_count : ℕ → World → ℕ
sent_count c w = sent_of (lookup c w.chans)

reported_few :
    (e : Option Error) (sent items : List Item)
    → Reports e items
    → length (sent ++ items) ≤ length sent + 1
reported_few none sent items empty = rw empty (ground (arith, length-append sent []))
reported_few (some e) sent items (item, one, _) =
    rw one (ground (arith, length-append sent (item ∷ [])))

pub closed_few :
    (ch : ℕ) (sent : List Item) (e : Option Error) (w w' : World) (result : Option World)
    → lookup ch w.chans ≡ some (open_with sent)
    → Closes ch sent e result
    → result ≡ some w'
    → sent_count ch w' ≤ sent_count ch w + 1
closed_few ch sent e w w' result here (w1, items, run, closed, reports) done =
    let same : w1 ≡ w' = cc in
    let after : sent_count ch w' ≡ length (sent ++ items) =
      subst (λ x. sent_count ch x ≡ length (sent ++ items)) same (ap sent_of closed) in
    let before : sent_count ch w ≡ length sent = ap sent_of here in
    let few = reported_few e sent items reports in omega (arith, after, before, few)

module _ (keys_find : List String → List ℕ → Option String) (ch r : ℕ) (x : DnetBackendsStatus)
    (w : World) (b : Backed ch (asking r) w) where
  pub answered_few :
      (w' : World)
      → result_callback keys_find r (status_reply x) w ≡ some w'
      → sent_count ch w' ≤ sent_count ch w + 1
  unfolding result_callback call_result status_result forget
  answered_few w' done =
      let (sent, e) = b.channel in
      let s = sent ++ status_item x ∷ [] in
      let w1 = with_chan ch (open_with s) w in
      let w2 = with_chan ch (closed_with s) w1 in
      let told = send-open ch w sent (status_item x) e in
      let ended = close-open ch w1 s (lookup-insert_self ch (open_with s) w.chans) in
      let run : result_callback keys_find r (status_reply x) w ≡ some (forget r w2) =
        simp (b.closures, told, ended) in
      let same : forget r w2 ≡ w' = cc in
      let there = lookup-insert_self ch (closed_with s) w1.chans in
      let after : sent_count ch w' ≡ length s =
        subst (λ v. sent_count ch v ≡ length s) same (ap sent_of there) in
      let before : sent_count ch w ≡ length sent = ap sent_of e in
      let few = length-append sent (status_item x ∷ []) in omega (arith, after, before, few)

pub head_there : (ch : ℕ) (q : Request) (l : Ledger) → lookup ch ((ch, q) ∷ l) ≡ some q
unfolding lookup
head_there ch q l = rw (eq_refl ch) refl

-- At most one value is sent, and on this channel.
abbrev pub FewSent : ℕ → World → World → Type 0
FewSent ch w w' =
    ((c : ℕ) → c ≢ ch → sent_count c w' ≡ sent_count c w) × (sent_count ch w' ≤ sent_count ch w + 1)

-- How many values the end of a request may send.
abbrev pub allowance : Option Request → ℕ
allowance none = 0
allowance (some q) = 1

pub allowance_le : (o : Option Request) → allowance o ≤ 1
allowance_le none = omega arith
allowance_le (some q) = omega arith

pub sent_further :
    (ch c : ℕ) (q : Request) (l : Ledger) (w w1 w' : World)
    → FewSent ch w w1
    → sent_count c w' ≤ sent_count c w1 + allowance (lookup c (delete ch ((ch, q) ∷ l)))
    → sent_count c w' ≤ sent_count c w + allowance (lookup c ((ch, q) ∷ l))
sent_further ch c q l w w1 w' (others, own) later = elim (Bool-cases (eqb ch c)) [
  | inl same ↦
      let at : ch ≡ c = (eqb_iff ch c).0 same in
      let gone : lookup c (delete ch ((ch, q) ∷ l)) ≡ none =
        lookup-delete ch c ((ch, q) ∷ l) ∙ rw same refl in
      let here : lookup c ((ch, q) ∷ l) ≡ some q =
        subst (λ d. lookup d ((ch, q) ∷ l) ≡ some q) at (head_there ch q l) in
      let no_more = ap allowance gone in
      let one = ap allowance here in
      let mine : sent_count c w1 ≤ sent_count c w + 1 =
        subst (λ d. sent_count d w1 ≤ sent_count d w + 1) at own in
      omega (arith, later, no_more, one, mine)
  | inr other ↦
      let kept : lookup c (delete ch ((ch, q) ∷ l)) ≡ lookup c ((ch, q) ∷ l) =
        lookup-delete ch c ((ch, q) ∷ l) ∙ rw other refl in
      let as_many = ap allowance kept in
      let unsent : sent_count c w1 ≡ sent_count c w = others c (λ e. ground arith) in
      omega (arith, later, as_many, unsent)
]
