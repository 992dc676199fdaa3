-- ===== src/Session/Settings/Answers.antt =====
-- The getters of elliptics/session.go after any sequence of settings.
use elliptics_go.Base.{ℕ, ◌≡◌, ◌∙◌, refl, sym, ap, List, [], ◌∷◌, ◌++◌, Option, none, some}
use elliptics_go.Base.Int.{ℤ, to_int32}
use elliptics_go.Session.Settings.{
  Told, session_set_timeout, session_set_cflags, session_set_ioflags, session_set_trace_id, Session,
  Setting, timeout, cflags, ioflags, trace_id,
}

abbrev pub or_else {ℓ} : {A : Type ℓ} → Option A → A → A
or_else none a = a
or_else (some b) a = b

-- The newest of two values.
abbrev pub newer {ℓ} : {A : Type ℓ} → Option A → Option A → Option A
newer older none = older
newer older (some b) = some b

-- The newest value that a list of calls sets.
abbrev pub newest {ℓ κ} : {A : Type ℓ} {B : Type κ} → (B → Option A) → List B → Option A
newest value [] = none
newest value (b ∷ bs) = newer (value b) (newest value bs)

-- C keeps what the last call of a setter told it, whatever else it was told.
abbrev pub Keeps {ℓ} : {A : Type ℓ} → (List Told → A) → (Told → Option A) → Type ℓ
Keeps getter value =
    (ts : List Told) (t : Told) → getter (ts ++ t ∷ []) ≡ or_else (value t) (getter ts)

abbrev pub told_timeout : Told → Option ℤ
told_timeout (session_set_timeout x) = some x
told_timeout _ = none

abbrev pub set_timeout_of : Setting → Option ℤ
set_timeout_of (timeout x) = some (to_int32 x)
set_timeout_of _ = none

abbrev pub told_cflags : Told → Option ℕ
told_cflags (session_set_cflags x) = some x
told_cflags _ = none

abbrev pub set_cflags_of : Setting → Option ℕ
set_cflags_of (cflags x) = some x
set_cflags_of _ = none

abbrev pub told_ioflags : Told → Option ℕ
told_ioflags (session_set_ioflags x) = some x
told_ioflags _ = none

abbrev pub set_ioflags_of : Setting → Option ℕ
set_ioflags_of (ioflags x) = some x
set_ioflags_of _ = none

abbrev pub told_trace_id : Told → Option ℕ
told_trace_id (session_set_trace_id x) = some x
told_trace_id _ = none

abbrev pub set_trace_id_of : Setting → Option ℕ
set_trace_id_of (trace_id x) = some x
set_trace_id_of _ = none

newer_assoc {ℓ} : {A : Type ℓ} (a b c : Option A) → newer (newer a b) c ≡ newer a (newer b c)
newer_assoc a b none = refl
newer_assoc a b (some x) = refl

newer-none {ℓ} : {A : Type ℓ} (a : Option A) → newer none a ≡ a
newer-none none = refl
newer-none (some b) = refl

pub or_else-newer {ℓ} :
    {A : Type ℓ} (a b : Option A) (c : A) → or_else b (or_else a c) ≡ or_else (newer a b) c
or_else-newer a none c = refl
or_else-newer a (some b) c = refl

pub newest-append {ℓ κ} :
    {A : Type ℓ} {B : Type κ} (value : B → Option A) (xs ys : List B)
    → newest value (xs ++ ys) ≡ newer (newest value xs) (newest value ys)
newest-append value [] ys = sym (newer-none (newest value ys))
newest-append value (x ∷ xs) ys =
    ap (newer (value x)) (newest-append value xs ys)
    ∙ sym (newer_assoc (value x) (newest value xs) (newest value ys))
