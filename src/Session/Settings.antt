-- ===== src/Session/Settings.antt =====
-- The settings of elliptics/session.go: NewSession, SetGroups and GetGroups, SetFilter, and those
-- that only hand a number or a text to C. What C is told is a list.
pub mod Last
pub mod Answers
use elliptics_go.Base.{
  ℕ, zero, suc, ◌%◌, ◌^◌, List, [], ◌∷◌, ◌++◌, Option, none, some, ◌>>=◌, String, length,
}
use elliptics_go.Base.Int.{ℤ, pos, negsuc, to_int32}
use elliptics_go.Errors.{Error, Result, ok, err}

-- What C is told of a session.
pub data Told : Type 0 where
  session_set_groups : List ℕ → Told
  session_set_timeout : ℤ → Told
  session_set_cflags : ℕ → Told
  session_set_ioflags : ℕ → Told
  session_set_trace_id : ℕ → Told
  session_set_namespace : String → Told
  session_set_filter_all : Told
  session_set_filter_positive : Told
  delete_session : Told

-- Session, with what C was told through its pointer.
pub record Session : Type 0 where
  pub groups : List ℕ
  pub told : List Told

-- NewSession, with the error of C.new_elliptics_session, which cgo makes of errno.
unfoldable pub new_session : Option Error → Result Session
new_session (some e) = err e
new_session none = ok (record { groups = []; told = [] })

unfoldable pub hear : Told → Session → Session
hear t s = record s { told = s.told ++ t ∷ [] }

-- SetGroups; `none` is the panic on the first element of an empty slice.
unfoldable pub set_groups : List ℕ → Session → Option Session
set_groups [] s = none
set_groups (g ∷ gs) s =
    some (record { groups = g ∷ gs; told = s.told ++ session_set_groups (g ∷ gs) ∷ [] })

-- GetGroups
unfoldable pub get_groups : Session → List ℕ
get_groups s = s.groups

-- SetFilter: SessionFilterAll is 0, SessionFilterPositive 1 and SessionFilterMax 2.
unfoldable pub set_filter : ℤ → Session → Session
unfolding hear
set_filter (pos zero) s = hear session_set_filter_all s
set_filter (pos (suc zero)) s = hear session_set_filter_positive s
set_filter (pos (suc (suc n))) s = s
set_filter (negsuc n) s = s

-- SetTimeout, SetCflags, SetIOflags, SetTraceID and SetNamespace
unfoldable pub set_timeout : ℤ → Session → Session
unfolding hear
set_timeout timeout s = hear (session_set_timeout (to_int32 timeout)) s

unfoldable pub set_cflags : ℕ → Session → Session
unfolding hear
set_cflags cflags s = hear (session_set_cflags cflags) s

unfoldable pub set_ioflags : ℕ → Session → Session
unfolding hear
set_ioflags ioflags s = hear (session_set_ioflags ioflags) s

unfoldable pub set_trace_id : ℕ → Session → Session
unfolding hear
set_trace_id trace s = hear (session_set_trace_id trace) s

unfoldable pub set_namespace : String → Session → Session
unfolding hear
set_namespace namespace s = hear (session_set_namespace namespace) s

-- Delete
unfoldable pub delete : Session → Session
unfolding hear
delete s = hear delete_session s

-- What C answers of a session by what it was told.
pub record Getters : Type 0 where
  pub session_get_timeout : List Told → ℤ
  pub session_get_cflags : List Told → ℕ
  pub session_get_ioflags : List Told → ℕ
  pub session_get_trace_id : List Told → ℕ

-- GetTimeout, GetCflags, GetIOflags and GetTraceID
module _ (c : Getters) where
  unfoldable pub get_timeout : Session → ℤ
  get_timeout s = c.session_get_timeout s.told

  unfoldable pub get_cflags : Session → ℕ
  get_cflags s = c.session_get_cflags s.told

  unfoldable pub get_ioflags : Session → ℕ
  get_ioflags s = c.session_get_ioflags s.told

  unfoldable pub get_trace_id : Session → ℕ
  get_trace_id s = c.session_get_trace_id s.told

-- A call of a setter.
pub data Setting : Type 0 where
  groups : List ℕ → Setting
  filter : ℤ → Setting
  timeout : ℤ → Setting
  cflags : ℕ → Setting
  ioflags : ℕ → Setting
  trace_id : ℕ → Setting
  namespace : String → Setting

unfoldable pub change : Setting → Session → Option Session
unfolding set_filter set_timeout set_cflags set_ioflags set_trace_id set_namespace
change (groups gs) s = set_groups gs s
change (filter z) s = some (set_filter z s)
change (timeout z) s = some (set_timeout z s)
change (cflags n) s = some (set_cflags n s)
change (ioflags n) s = some (set_ioflags n s)
change (trace_id n) s = some (set_trace_id n s)
change (namespace t) s = some (set_namespace t s)

unfoldable pub change_all : List Setting → Session → Option Session
change_all [] s = some s
change_all (x ∷ xs) s = do s' ← change x s; change_all xs s'
