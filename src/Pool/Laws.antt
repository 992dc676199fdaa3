-- ===== src/Pool/Laws.antt =====
-- Reading the table of elliptics/pool.go after an operation.
use elliptics_go.Base.{ℕ, ◌≡◌, none, some, if◌then◌else◌, eqb}
use elliptics_go.Base.Dict.{lookup-insert, lookup-delete}
use elliptics_go.Base.Eq.{nat_eq}
use elliptics_go.Pool.{ContextPool, store, get, delete_context}

module _ {V : Type 0} where
  pub get-store :
      (k j : ℕ) (v : V) (p : ContextPool V)
      → get j (store k v p) ≡ (if eqb k j then some v else get j p)
  unfolding get store
  get-store k j v p = lookup-insert k j v p.pool

  pub get-delete_context :
      (k j : ℕ) (p : ContextPool V)
      → get j (delete_context k p) ≡ (if eqb k j then none else get j p)
  unfolding get delete_context
  get-delete_context k j p = lookup-delete k j p.pool
