-- ===== src/Session/Keys.antt =====
-- elliptics/key.go: NewKey of any arguments, ById and CmpID. Key sets are in Session/Requests and
-- Session/Callback. What the C library answers is an argument.
use elliptics_go.Base.{ℕ, List, [], ◌∷◌, Option, none, some, String, Bool, true, false, ltb}
use elliptics_go.Base.Int.{ℤ, pos, negsuc}
use elliptics_go.Errors.{Error, text, Result, ok, err}
use elliptics_go.Session.Requests.{new_key}

-- An argument of NewKey: a text, or a value of another type.
pub data KeyArgument : Type 0 where
  remote : String → KeyArgument
  other : KeyArgument

unfoldable pub invalid_key_argument : Error
invalid_key_argument = text "InvalidKeyArgument"

-- What a key names: a text, or nothing yet.
unfoldable pub named : Result String → Result (Option String)
named (ok key) = ok (some key)
named (err e) = err e

-- C.new_key()
unfoldable pub empty_key : Bool → Result (Option String)
empty_key true = ok none
empty_key false = err (text "could not create new key")

-- NewKey. `allocated` is whether the C library gave a key.
unfoldable pub new_key_of : Bool → List KeyArgument → Result (Option String)
new_key_of allocated (remote key ∷ []) = named (new_key allocated key)
new_key_of allocated (other ∷ []) = err invalid_key_argument
new_key_of allocated [] = empty_key allocated
new_key_of allocated (a ∷ b ∷ args) = empty_key allocated

-- ById, of what C.key_by_id answers.
unfoldable pub by_id : ℤ → Bool
by_id (pos n) = ltb 0 n
by_id (negsuc n) = false

-- CmpID; `none` is the panic on the first byte of an empty identifier.
unfoldable pub cmp_id : (List ℕ → ℤ) → List ℕ → Option ℤ
cmp_id key_id_cmp [] = none
cmp_id key_id_cmp (b ∷ bs) = some (key_id_cmp (b ∷ bs))
