-- ===== src/Session/Ledger/Promises.antt =====
-- What holds of every state that C and the program can reach together.
use elliptics_go.Base.{
  ℕ, ◌≡◌, ◌∙◌, ap, refl, subst, sym, List, [], Option, none, some, String, Bool, true, false, inl,
  inr, Option-cases, Bool-cases, ◌⊎◌,
}
use elliptics_go.Base.Dict.{lookup}
use elliptics_go.Base.Eq.{nat_eq}
use elliptics_go.Pool.{get}
use elliptics_go.Session.World.{Channel, World}
use elliptics_go.Session.Ledger.{
  open_channel, waits, Ledger, Move, Allows, HasRoom, panics, perform, after, Reached, started,
  moved,
}
use elliptics_go.Session.Ledger.Turns.{Agrees}
use elliptics_go.Session.Ledger.Safe.{start-Agrees, allowed-Goes, panics-none}

closed-waits :
    (c : ℕ) (w : World)
    → ((x : Channel) → lookup c w.chans ≡ some x → x.closed ≡ true)
    → waits c w ≡ false
closed-waits c w closed = elim (Option-cases (lookup c w.chans)) [
  | inl absent ↦ ap open_channel absent
  | inr (x, made) ↦ ap open_channel made ∙ rw (closed x made) refl
]

module _ (keys_find : List String → List ℕ → Option String)
    (string_less : String → String → Bool) where
  -- A move that happened did not panic.
  happened :
      {l : Ledger} {w w' : World}
      → Agrees l w
      → (m : Move) → Allows l m
      → perform keys_find string_less l m w ≡ some w'
      → panics l m ≡ false
  happened {l} a m allowed run = elim (Bool-cases (panics l m)) [
    | inl bad ↦ let no = panics-none keys_find string_less a m allowed bad in absurd (cc)
    | inr good ↦ good
  ]

  -- In every state that is reached from the first one by answers and ends that keep to the contract
  -- of C and by new requests, while fewer than 2^64 contexts are handed out, the pool, the channels,
  -- the key sets and the shared variables agree with the requests for which C has a call: each of
  -- these has its closures and the data of its write under its own contexts, its channel open, its
  -- key set held by C and its variables; no two of them share a channel, a context or a key set; and
  -- the pool holds no other context, and no other channel is open.
  pub Reached-Agrees : {l : Ledger} {w : World} → Reached keys_find string_less l w → Agrees l w
  Reached-Agrees started = start-Agrees
  Reached-Agrees (moved {l} {l'} {w} {w'} m r allowed lt run next) =
      let old = Reached-Agrees r in
      let (w1, run1, a) =
        allowed-Goes keys_find string_less old m allowed lt (happened old m allowed run) in
      let same : w1 ≡ w' = cc in
      subst (λ k. Agrees k w') (sym next) (subst (λ x. Agrees (after l m w x) x) same a)

  -- In every such state, an answer or end that the contract of C allows, or a new request for whose
  -- three contexts there is room below 2^64, panics if it is an answer to a write or a request about
  -- indexes that has no key or no text for C, and else it does not, whatever other requests are under
  -- way.
  pub Reached-perform :
      {l : Ledger} {w : World}
      → Reached keys_find string_less l w
      → (m : Move) → Allows l m
      → HasRoom m w
      → ((panics l m ≡ true) × (perform keys_find string_less l m w ≡ none))
        ⊎ ((panics l m ≡ false) × ((w' : World) × (perform keys_find string_less l m w ≡ some w')))
  Reached-perform {l} r m allowed lt = elim (Bool-cases (panics l m)) [
    | inl bad ↦ inl (bad, panics-none keys_find string_less (Reached-Agrees r) m allowed bad)
    | inr good ↦
        let (w', run, _) =
          allowed-Goes keys_find string_less (Reached-Agrees r) m allowed lt good in
        inr (good, (w', run))
  ]

  -- In every such state where C has no call, the pool is empty and every channel that was made is
  -- closed, so that no caller waits for ever on one.
  pub Reached-quiet :
      {w : World}
      → Reached keys_find string_less [] w
      → ((k : ℕ) → get k w.pool ≡ none) × ((c : ℕ) → waits c w ≡ false)
  unfolding lookup
  Reached-quiet {w} r =
      let a = Reached-Agrees r in
      (
        λ k. elim (Option-cases (get k w.pool)) [
          | inl absent ↦ absent
          | inr (v, stored) ↦ let (c, q, there, of) = a.owned k v stored in absurd (cc)
        ],
        λ c. closed-waits c w (λ x made. elim (a.shut c x made) [
          | inl closed ↦ closed
          | inr (q, there) ↦ absurd (cc)
        ]),
      )
