-- ===== src/Session/Ledger/Regions.antt =====
-- What a move may touch, and what becomes of the ledger.
use elliptics_go.Base.{
  ℕ, ◌+◌, ◌≤◌, ◌<◌, ◌≡◌, ◌⊎◌, inl, inr, ◌∙◌, refl, sym, subst, Option, none, some, arith,
  Option-cases,
}
use elliptics_go.Base.Dict.{
  lookup, insert, delete, lookup-insert_self, lookup-insert_ne, lookup-delete,
}
use elliptics_go.Base.Eq.{nat_eq, eq_refl, eq_of_ne}
use elliptics_go.Session.World.{World}
use elliptics_go.Session.Ledger.{
  Request, serving, writing, uploading, asking, context, width, key_set, Ledger, settle,
}
use elliptics_go.Session.Ledger.Turns.{HasKeys, OfRequest, Agrees, Updates}
use elliptics_go.Session.Ledger.Kept.{Region}
use elliptics_go.Session.Ledger.Answers.{settled}

module _ {l : Ledger} {w : World} (a : Agrees l w) where
  -- A step on a request of the ledger.
  pub own_Region :
      (ch : ℕ) (q : Request)
      → lookup ch l ≡ some q
      → Region l ch (context q) (context q + width q) (key_set q)
  own_Region ch q here = record {
    apart = λ c p there ne. a.sole c ch p q there here ne;
    covers = covers_own;
  }
    where
      covers_own :
          (p : Request) (k : ℕ)
          → lookup ch l ≡ some p
          → OfRequest k p
          → (context q ≤ k) × (k < context q + width q)
      covers_own p k here' of = let same : p ≡ q = cc in subst (λ x. OfRequest k x) same of

  same_key : (ks : Option ℕ) (k : ℕ) → ks ≡ some k → HasKeys ks w → k < w.next_keys
  same_key none k e has = absurd (cc)
  same_key (some j) k e (_, lt) = let same : j ≡ k = cc in omega arith

  -- A step on a new request, with a new key set if it has one.
  pub new_Region :
      (hi : ℕ) (ks : Option ℕ)
      → w.pool.counter + 1 ≤ hi
      → (ks ≡ none) ⊎ (ks ≡ some w.next_keys)
      → Region l w.next_chan (w.pool.counter + 1) hi ks
  new_Region hi ks le fresh = record {
    apart = λ c q there ne. record {
      channel = ne;
      contexts = inl (a.backed c q there).known.0;
      keys = λ k held same.
          unused_key fresh k same (same_key (key_set q) k held (a.backed c q there).keys);
    };
    covers = λ q k here of. absurd (lt_irrefl (a.backed w.next_chan q here).known.1);
  }
    where
      lt_irrefl : {n : ℕ} → n < n → ⊥
      lt_irrefl lt = omega arith

      unused_key :
          (ks ≡ none) ⊎ (ks ≡ some w.next_keys) → (k : ℕ) → ks ≡ some k → k < w.next_keys → ⊥
      unused_key (inl e) k same lt = cc
      unused_key (inr e) k same lt = let at : w.next_keys ≡ k = cc in omega arith

pub kept_Updates :
    (l : Ledger) (ch : ℕ) (q : Request) → lookup ch l ≡ some q → Updates l ch (some q) l
kept_Updates l ch q here = record { others = λ c ne. refl; own = here }

pub deleted_Updates : (l : Ledger) (ch : ℕ) → Updates l ch none (delete ch l)
deleted_Updates l ch = record {
  others = λ c ne. lookup-delete ch c l ∙ rw (eq_of_ne ch c (λ e. ne (sym e))) refl;
  own = lookup-delete ch ch l ∙ rw (eq_refl ch) refl;
}

pub inserted_Updates : (l : Ledger) (ch : ℕ) (q : Request) → Updates l ch (some q) (insert ch q l)
inserted_Updates l ch q = record {
  others = λ c ne. lookup-insert_ne ch c q l (λ e. ne (sym e));
  own = lookup-insert_self ch q l;
}

pub settle-Updates :
    (l : Ledger) (ch : ℕ) (q : Request)
    → lookup ch l ≡ some q
    → Updates l ch (settled q) (settle (some q) ch l)
settle-Updates l ch (serving h r) here = kept_Updates l ch (serving h r) here
settle-Updates l ch (writing r) here = kept_Updates l ch (writing r) here
settle-Updates l ch (uploading r) here = kept_Updates l ch (uploading r) here
settle-Updates l ch (asking r) here = deleted_Updates l ch

-- A request that fails at once leaves the ledger as it is.
pub refused_Updates : {l : Ledger} {w : World} → Agrees l w → Updates l w.next_chan none l
refused_Updates {l} {w} a = record {
  others = λ c ne. refl;
  own = elim (Option-cases (lookup w.next_chan l)) [
    | inl absent ↦ absent
    | inr (q, here) ↦ let lt = (a.backed w.next_chan q here).known.1 in absurd (omega arith)
  ];
}
