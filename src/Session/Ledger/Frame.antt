-- ===== src/Session/Ledger/Frame.antt =====
-- What a step leaves alone: all but some contexts, a channel with its upload, and a key set.
use elliptics_go.Base.{ℕ, ◌≤◌, ◌<◌, ◌≡◌, ◌≢◌, ◌⊎◌, inl, inr, ◌∙◌, refl, sym, Option, some, arith}
use elliptics_go.Base.Dict.{lookup, delete, lookup-insert_ne, lookup-delete}
use elliptics_go.Base.Eq.{nat_eq, eq_of_ne}
use elliptics_go.Pool.{get, store, delete_context}
use elliptics_go.Pool.Laws.{get-store, get-delete_context}
use elliptics_go.Session.World.{
  Value, Channel, Upload, World, Call, forget, remember, issue, set_upload,
}
use elliptics_go.Session.Delivery.Own.{with_chan}

abbrev pub Beyond : ℕ → ℕ → ℕ → Type 0
Beyond lo hi k = (k < lo) ⊎ (hi ≤ k)

Beyond-ne : {lo hi : ℕ} (k j : ℕ) → lo ≤ k → k < hi → Beyond lo hi j → k ≢ j
Beyond-ne k j low high (inl lt) e = absurd (omega arith)
Beyond-ne k j low high (inr le) e = absurd (omega arith)

-- Only the contexts from `lo` to below `hi`, the channel and upload `ch` and the key set may change.
pub record Within (ch lo hi : ℕ) (ks : Option ℕ) (w w' : World) : Type 0 where
  pub contexts : (k : ℕ) → Beyond lo hi k → get k w'.pool ≡ get k w.pool
  pub chans : (c : ℕ) → c ≢ ch → lookup c w'.chans ≡ lookup c w.chans
  pub key_sets : (k : ℕ) → ks ≢ some k → lookup k w'.key_sets ≡ lookup k w.key_sets
  pub uploads : (c : ℕ) → c ≢ ch → lookup c w'.uploads ≡ lookup c w.uploads
  pub grows :
      (w.pool.counter ≤ w'.pool.counter)
      × (w.next_chan ≤ w'.next_chan)
      × (w.next_keys ≤ w'.next_keys)

module _ {ch lo hi : ℕ} {ks : Option ℕ} where
  pub Within-refl : (w : World) → Within ch lo hi ks w w
  Within-refl w = record {
    contexts = λ k _. refl;
    chans = λ c _. refl;
    key_sets = λ k _. refl;
    uploads = λ c _. refl;
    grows = (omega arith, omega arith, omega arith);
  }

  pub Within-trans :
      {v w u : World} → Within ch lo hi ks v w → Within ch lo hi ks w u → Within ch lo hi ks v u
  Within-trans p q = record {
    contexts = λ k b. q.contexts k b ∙ p.contexts k b;
    chans = λ c ne. q.chans c ne ∙ p.chans c ne;
    key_sets = λ k ne. q.key_sets k ne ∙ p.key_sets k ne;
    uploads = λ c ne. q.uploads c ne ∙ p.uploads c ne;
    grows = (
      omega (arith, p.grows.0, q.grows.0),
      omega (arith, p.grows.1, q.grows.1),
      omega (arith, p.grows.2, q.grows.2),
    );
  }

  module _ {v w : World} (p : Within ch lo hi ks v w) where
    pub with_chan-Within : (c : Channel) → Within ch lo hi ks v (with_chan ch c w)
    with_chan-Within c = record {
      contexts = p.contexts;
      chans = λ d ne. lookup-insert_ne ch d c w.chans (λ e. ne (sym e)) ∙ p.chans d ne;
      key_sets = p.key_sets;
      uploads = p.uploads;
      grows = p.grows;
    }

    pub set_upload-Within : (u : Upload) → Within ch lo hi ks v (set_upload ch u w)
    unfolding set_upload
    set_upload-Within u = record {
      contexts = p.contexts;
      chans = p.chans;
      key_sets = p.key_sets;
      uploads = λ d ne. lookup-insert_ne ch d u w.uploads (λ e. ne (sym e)) ∙ p.uploads d ne;
      grows = p.grows;
    }

    pub issue-Within : (c : Call) → Within ch lo hi ks v (issue c w)
    unfolding issue
    issue-Within c = record {
      contexts = p.contexts;
      chans = p.chans;
      key_sets = p.key_sets;
      uploads = p.uploads;
      grows = p.grows;
    }

    pub forget-Within : (k : ℕ) → lo ≤ k → k < hi → Within ch lo hi ks v (forget k w)
    unfolding forget delete_context
    forget-Within k low high = record {
      contexts = λ j b.
          get-delete_context k j w.pool
          ∙ rw (eq_of_ne k j (Beyond-ne k j low high b)) (p.contexts j b);
      chans = p.chans;
      key_sets = p.key_sets;
      uploads = p.uploads;
      grows = p.grows;
    }

    pub remember-Within :
        (k : ℕ) (x : Value) → lo ≤ k → k < hi → Within ch lo hi ks v (remember k x w)
    unfolding remember store
    remember-Within k x low high = record {
      contexts = λ j b.
          get-store k j x w.pool ∙ rw (eq_of_ne k j (Beyond-ne k j low high b)) (p.contexts j b);
      chans = p.chans;
      key_sets = p.key_sets;
      uploads = p.uploads;
      grows = p.grows;
    }

    -- A key set that is freed.
    pub drop_keys-Within :
        (k : ℕ) → ks ≡ some k → Within ch lo hi ks v (record w { key_sets = delete k w.key_sets })
    drop_keys-Within k own = record {
      contexts = p.contexts;
      chans = p.chans;
      key_sets = λ j ne.
          lookup-delete k j w.key_sets
          ∙ rw (eq_of_ne k j (λ e. ne (own ∙ rw e refl))) (p.key_sets j ne);
      uploads = p.uploads;
      grows = p.grows;
    }
