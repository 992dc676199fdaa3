-- ===== src/Tests/Texts.antt =====
-- The texts of identifiers, and what a session's getters answer.
use elliptics_go.Base.{ℕ, ◌≡◌, List, [], ◌∷◌, Option, none, some, if◌then◌else◌, map}
use elliptics_go.Base.Int.{pos}
use elliptics_go.Wire.{DnetRawId}
use elliptics_go.Stat.Texts.{id_string, join, all_long, six_bytes, id_string_outcomes}
use elliptics_go.Session.Settings.{Told, Session, Getters, Setting, timeout, cflags, filter}
use elliptics_go.Session.Settings.Answers.{
  or_else, newest, told_timeout, told_cflags, told_ioflags, told_trace_id,
}

abbrev raw : List ℕ → DnetRawId
raw id = record { id = id }

abbrev ids : List DnetRawId
ids = raw (1 ∷ 35 ∷ 69 ∷ 103 ∷ 137 ∷ 171 ∷ 205 ∷ []) ∷ raw (0 ∷ 0 ∷ 0 ∷ 0 ∷ 0 ∷ 255 ∷ []) ∷ []

id_string_outcomes_example :
    id_string ids ≡ (if all_long ids then some (join " " (map six_bytes ids)) else none)
id_string_outcomes_example = id_string_outcomes ids

-- A C library that answers what it was told last, or a default.
abbrev answers {ℓ} : {A : Type ℓ} → (Told → Option A) → A → List Told → A
answers value default ts = or_else (newest value ts) default

abbrev library : Getters
library = record {
  session_get_timeout = answers told_timeout (pos 5);
  session_get_cflags = answers told_cflags 0;
  session_get_ioflags = answers told_ioflags 0;
  session_get_trace_id = answers told_trace_id 0;
}

abbrev fresh : Session
fresh = record { groups = []; told = [] }

abbrev chosen : List Setting
chosen = timeout (pos 30) ∷ cflags 2 ∷ filter (pos 1) ∷ timeout (pos 60) ∷ []
