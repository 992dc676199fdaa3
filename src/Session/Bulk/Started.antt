-- ===== src/Session/Bulk/Started.antt =====
-- BulkWrite of elliptics/session.go: the requests that are refused, and those that begin.
use elliptics_go.Base.{
  ℕ, ◌+◌, ◌<◌, List, [], ◌∷◌, Option, none, String, eqb, length, map, if◌then◌else◌,
}
use elliptics_go.Base.Eq.{nat_eq}
use elliptics_go.Errors.{Error, text}
use elliptics_go.Wire.Attributes.{DnetIoAttr, EllIoAttr, to_io_attr}
use elliptics_go.Session.World.{World}
use elliptics_go.Session.Requests.Refused.{Refused}

abbrev pub IsDatum : List ℕ → Type 0
IsDatum v = 0 < length v

abbrev pub no_attr : Error
no_attr = text "not allocated memory for ell_io_attr"

-- The attributes as C gets them, from the k-th one on.
abbrev pub copied_attrs : (ℕ → Option EllIoAttr) → ℕ → List DnetIoAttr → List (Option EllIoAttr)
copied_attrs fresh k [] = []
copied_attrs fresh k (attr ∷ attrs) = to_io_attr attr (fresh k) ∷ copied_attrs fresh (k + 1) attrs

-- C cannot allocate the j-th attribute.
abbrev pub missing : ℕ → (ℕ → Option EllIoAttr) → ℕ → Option EllIoAttr
missing j fresh k = if eqb k j then none else fresh k

-- The keys of a bulk write.
abbrev pub keys_of : (List ℕ → String) → List DnetIoAttr → List String
keys_of string_of attrs = map (λ attr. string_of attr.id) attrs
