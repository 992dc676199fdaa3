-- ===== src/Errors.antt =====
-- elliptics/errors.go: the error value of the library and the three ways to read an error.
use elliptics_go.Base.{String, Option, none, some, ℕ, [], ◌∷◌}
use elliptics_go.Base.Int.{ℤ, negsuc}
use elliptics_go.Base.Text.{show_ℤ, concat}

pub record DnetError : Type 0 where
  pub code : ℤ
  pub flags : ℕ
  pub message : String

-- A value of Go's `error` interface: a *DnetError, or an error that holds only a text
-- (errors.New, fmt.Errorf, io.EOF).
pub data Error : Type 0 where
  dnet : DnetError → Error
  text : String → Error

-- (err *DnetError) Error()
unfoldable pub dnet_error_string : DnetError → String
dnet_error_string e = concat ("elliptics error: " ∷ show_ℤ e.code ∷ ": " ∷ e.message ∷ [])

-- err.Error() through the interface
unfoldable pub error_string : Error → String
error_string (dnet e) = dnet_error_string e
error_string (text s) = s

unfoldable pub dnet_error_from_error : Error → Option DnetError
dnet_error_from_error (dnet e) = some e
dnet_error_from_error (text s) = none

unfoldable pub error_data : Error → String
unfolding error_string
error_data (dnet e) = e.message
error_data (text s) = error_string (text s)

-- -EINVAL for an error that carries no code
unfoldable pub error_status : Error → ℤ
error_status (dnet e) = e.code
error_status (text s) = negsuc 21

-- A Go pair of a value and an error, of which one is set.
pub data Result {ℓ} (A : Type ℓ) : Type ℓ where
  ok : A → Result A
  err : Error → Result A
