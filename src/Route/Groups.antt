-- ===== src/Route/Groups.antt =====
-- Which groups the statistics have while a routing table is read.
use elliptics_go.Base.{ℕ, ◌≢◌, List, [], ◌∷◌, none, All, arith}
use elliptics_go.Base.Dict.{Dict, lookup, insert, lookup-insert, lookup-insert_self}
use elliptics_go.Base.Eq.{nat_eq}
use elliptics_go.Stat.Types.{StatGroup}
use elliptics_go.Route.{CDnetRouteEntry}

module _ {F : Type 0} where
  abbrev pub Has : Dict ℕ (StatGroup F) → ℕ → Type 0
  Has gs g = lookup g gs ≢ none

  abbrev pub Keeps : Dict ℕ (StatGroup F) → Dict ℕ (StatGroup F) → Type 0
  Keeps gs gs' = (g : ℕ) → Has gs g → Has gs' g

  pub insert-Has : (g : ℕ) (sg : StatGroup F) (gs : Dict ℕ (StatGroup F)) → Has (insert g sg gs) g
  insert-Has g sg gs e = let found = lookup-insert_self g sg gs in ground (arith, e, found)

  pub insert-Keeps :
      (g : ℕ) (sg : StatGroup F) (gs : Dict ℕ (StatGroup F)) → Keeps gs (insert g sg gs)
  insert-Keeps g sg gs h has e = ground (arith, lookup-insert g h sg gs, has, e)

  pub cons-Keeps :
      (g : ℕ) (sg sg' : StatGroup F) (gs gs' : Dict ℕ (StatGroup F))
      → Keeps gs gs'
      → Keeps ((g, sg) ∷ gs) ((g, sg') ∷ gs')
  unfolding lookup
  cons-Keeps g sg sg' gs gs' keeps h has = ground (arith, keeps h, has)

  pub All-Has :
      (es : List CDnetRouteEntry) (gs gs' : Dict ℕ (StatGroup F))
      → Keeps gs gs'
      → All (λ e. Has gs e.group_id) es
      → All (λ e. Has gs' e.group_id) es
  All-Has [] gs gs' keeps hs = tt
  All-Has (e ∷ es) gs gs' keeps hs = (keeps e.group_id hs.0, All-Has es gs gs' keeps hs.1)
