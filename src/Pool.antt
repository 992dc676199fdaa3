-- ===== src/Pool.antt =====
-- elliptics/pool.go: the table from context numbers to Go values, which keeps a value reachable
-- while C holds its number. The mutex makes each operation one step, so the table's history is a
-- sequence of these functions.
pub mod Laws
use elliptics_go.Base.{ℕ, Option, none, some, ◌≡◌, [], List}
use elliptics_go.Base.Dict.{Dict, lookup, insert, delete}
use elliptics_go.Base.Eq.{nat_eq}
use elliptics_go.Base.Word.{add64}

-- `counter`, and the map of `Pool`
pub record ContextPool {ℓ} (V : Type ℓ) : Type ℓ where
  pub counter : ℕ
  pub pool : Dict ℕ V

module _ {ℓ} {V : Type ℓ} where
  -- the package's initial values
  unfoldable pub initial : ContextPool V
  initial = record { counter = 0; pool = [] }

  -- NextContext: atomic.AddUint64(&counter, 1), which returns the new value
  unfoldable pub next_context : ContextPool V → ContextPool V × ℕ
  next_context p = (record p { counter = add64 p.counter 1 }, add64 p.counter 1)

  unfoldable pub store : ℕ → V → ContextPool V → ContextPool V
  store key value p = record p { pool = insert key value p.pool }

  -- `none` is KeyError
  unfoldable pub get : ℕ → ContextPool V → Option V
  get key p = lookup key p.pool

  unfoldable pub delete_context : ℕ → ContextPool V → ContextPool V
  delete_context key p = record p { pool = delete key p.pool }
