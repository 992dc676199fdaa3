-- ===== src/Session/Ledger/Kept.antt =====
-- A step on one request keeps the agreement of the state with the ledger.
use elliptics_go.Base.{
  ℕ, ◌≤◌, ◌<◌, ◌≡◌, ◌≢◌, ◌⊎◌, inl, inr, ◌∙◌, refl, sym, subst, Option, none, some, true, arith, eqb,
  eqb_iff, Bool-cases, ltb, leb, leb→le,
}
use elliptics_go.Base.Dict.{lookup}
use elliptics_go.Base.Eq.{nat_eq}
use elliptics_go.Pool.{get}
use elliptics_go.Session.World.{Value, Channel, World}
use elliptics_go.Session.Ledger.{Request, Ledger}
use elliptics_go.Session.Ledger.Frame.{Beyond, Within}
use elliptics_go.Session.Ledger.Turns.{
  Backed, Distinct, Pair, Distinct-sym, OfRequest, Agrees, Now, Turn, Updates, Backed-Within,
}

-- A step's region against the requests: apart from those on other channels, and holding all of its
-- own.
pub record Region (l : Ledger) (ch lo hi : ℕ) (ks : Option ℕ) : Type 0 where
  pub apart : (c : ℕ) (q : Request) → lookup c l ≡ some q → c ≢ ch → Distinct c q ch lo hi ks
  pub covers : (q : Request) (k : ℕ) → lookup ch l ≡ some q → OfRequest k q → (lo ≤ k) × (k < hi)

inside : (lo hi k : ℕ) → Beyond lo hi k ⊎ ((lo ≤ k) × (k < hi))
inside lo hi k = elim (Bool-cases (ltb k lo)) [
  | inl low ↦ inl (inl (ground arith))
  | inr up ↦ elim (Bool-cases (leb hi k)) [
    | inl high ↦ inl (inr (leb→le hi k high))
    | inr below ↦ inr (ground arith, ground arith)
  ]
]

module _ {l l' : Ledger} {ch lo hi : ℕ} {ks : Option ℕ} {now : Option Request} {w w' : World}
    (a : Agrees l w) (region : Region l ch lo hi ks) (t : Within ch lo hi ks w w')
    (u : Updates l ch now l') where
  older : (c : ℕ) (q : Request) → c ≢ ch → lookup c l' ≡ some q → lookup c l ≡ some q
  older c q ne e = sym (u.others c ne) ∙ e

  here : (q : Request) → lookup ch l' ≡ some q → now ≡ some q
  here q e = sym u.own ∙ e

  Backed-after :
      Now ch lo hi ks now w' → (c : ℕ) (q : Request) → lookup c l' ≡ some q → Backed c q w'
  Backed-after left c q e = elim (Bool-cases (eqb c ch)) [
    | inl same ↦
        let at : c ≡ ch = (eqb_iff c ch).0 same in
        let mine : lookup ch l' ≡ some q = subst (λ d. lookup d l' ≡ some q) at e in
        let found : Now ch lo hi ks (some q) w' =
          subst (λ n. Now ch lo hi ks n w') (here q mine) left in
        subst (λ d. Backed d q w') (sym at) found.0
    | inr other ↦
        let ne : c ≢ ch = λ at. ground (arith) in
        let old = older c q ne e in Backed-Within t c q (region.apart c q old ne) (a.backed c q old)
  ]

  sole_at :
      Now ch lo hi ks now w'
      → (c : ℕ) (q p : Request) → lookup c l' ≡ some q
      → lookup ch l' ≡ some p
      → c ≢ ch
      → Pair c q ch p
  sole_at left c q p e mine ne =
      let d = region.apart c q (older c q ne e) ne in
      let found : Now ch lo hi ks (some p) w' =
        subst (λ n. Now ch lo hi ks n w') (here p mine) left in
      record {
        channel = ne;
        contexts = ground (arith, d.contexts, found);
        keys = λ k held theirs. d.keys k held (sym found.3 ∙ theirs);
      }

  sole_after :
      Now ch lo hi ks now w'
      → (c d : ℕ) (q p : Request) → lookup c l' ≡ some q
      → lookup d l' ≡ some p
      → c ≢ d
      → Pair c q d p
  sole_after left c d q p e1 e2 ne = elim (Bool-cases (eqb d ch)) [
    | inl same ↦
        let at : d ≡ ch = (eqb_iff d ch).0 same in
        let mine : lookup ch l' ≡ some p = subst (λ x. lookup x l' ≡ some p) at e2 in
        let far : c ≢ ch = λ e. ne (e ∙ sym at) in
        subst (λ x. Pair c q x p) (sym at) (sole_at left c q p e1 mine far)
    | inr other ↦
        let ne_d : d ≢ ch = λ at. ground (arith) in
        elim (Bool-cases (eqb c ch)) [
          | inl same ↦
              let at : c ≡ ch = (eqb_iff c ch).0 same in
              let mine : lookup ch l' ≡ some q = subst (λ x. lookup x l' ≡ some q) at e1 in
              subst (λ x. Pair x q d p) (sym at)
                (Distinct-sym d ch p q (sole_at left d p q e2 mine ne_d))
          | inr other' ↦
              let ne_c : c ≢ ch = λ at. ground (arith) in
              a.sole c d q p (older c q ne_c e1) (older d p ne_d e2) ne
        ]
  ]

  owned_after :
      Now ch lo hi ks now w'
      → (k : ℕ) (v : Value) → get k w'.pool ≡ some v
      → (c : ℕ) × (q : Request) × (lookup c l' ≡ some q) × OfRequest k q
  owned_after left k v e = elim (inside lo hi k) [
    | inl out ↦
        let (c, q, there, of) = a.owned k v (sym (t.contexts k out) ∙ e) in
        elim (Bool-cases (eqb c ch)) [
          | inl same ↦
              let at : c ≡ ch = (eqb_iff c ch).0 same in
              let (low, high) = region.covers q k (subst (λ x. lookup x l ≡ some q) at there) of in
              absurd (beyond_inside out low high)
          | inr other ↦ let ne : c ≢ ch = λ at. ground (arith) in (c, q, u.others c ne ∙ there, of)
        ]
    | inr (low, high) ↦ own_context now left refl k v e low high
  ]
    where
      beyond_inside : {k' : ℕ} → Beyond lo hi k' → lo ≤ k' → k' < hi → ⊥
      beyond_inside (inl lt) low high = omega arith
      beyond_inside (inr le) low high = omega arith

      own_context :
          (n : Option Request)
          → Now ch lo hi ks n w'
          → now ≡ n
          → (k' : ℕ) (v' : Value) → get k' w'.pool ≡ some v'
          → lo ≤ k'
          → k' < hi
          → (c : ℕ) × (q : Request) × (lookup c l' ≡ some q) × OfRequest k' q
      own_context none (freed, _) eq k' v' e' low high =
          let no : get k' w'.pool ≡ none = freed k' low high in absurd (cc)
      own_context (some q) (_, first, last, _) eq k' v' e' low high =
          (ch, q, u.own ∙ eq, (omega arith, omega arith))

  shut_after :
      Now ch lo hi ks now w'
      → (c : ℕ) (x : Channel) → lookup c w'.chans ≡ some x
      → (x.closed ≡ true) ⊎ ((q : Request) × (lookup c l' ≡ some q))
  shut_after left c x e = elim (Bool-cases (eqb c ch)) [
    | inl same ↦
        let at : c ≡ ch = (eqb_iff c ch).0 same in
        subst (λ d. (x.closed ≡ true) ⊎ ((q : Request) × (lookup d l' ≡ some q))) (sym at)
          (own_channel now left refl x (subst (λ d. lookup d w'.chans ≡ some x) at e))
    | inr other ↦
        let ne : c ≢ ch = λ at. ground (arith) in
        elim (a.shut c x (sym (t.chans c ne) ∙ e)) [
          | inl closed ↦ inl closed
          | inr (q, there) ↦ inr (q, u.others c ne ∙ there)
        ]
  ]
    where
      own_channel :
          (n : Option Request)
          → Now ch lo hi ks n w'
          → now ≡ n
          → (x' : Channel) → lookup ch w'.chans ≡ some x'
          → (x'.closed ≡ true) ⊎ ((q : Request) × (lookup ch l' ≡ some q))
      own_channel none (_, (y, there, closed)) eq x' e' = inl (cc)
      own_channel (some q) left' eq x' e' = inr (q, u.own ∙ eq)

pub Turn-Agrees :
    {l l' : Ledger} {ch lo hi : ℕ} {ks : Option ℕ} {now : Option Request} {w w' : World}
    → Agrees l w
    → Region l ch lo hi ks
    → Turn ch lo hi ks now w w'
    → Updates l ch now l'
    → Agrees l' w'
Turn-Agrees a region t u = record {
  backed = Backed-after a region t.within u t.left;
  sole = sole_after a region t.within u t.left;
  owned = owned_after a region t.within u t.left;
  shut = shut_after a region t.within u t.left;
}
