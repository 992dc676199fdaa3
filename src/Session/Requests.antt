-- ===== src/Session/Requests.antt =====
-- The requests of elliptics/session.go. A call of the library returns the number of the channel.
-- What the C library answers at once is an argument: whether a key or a key set was allocated, and
-- what io.Reader gave. `none` is a panic.
pub mod Refused
pub mod Written
use elliptics_go.Base.{
  ℕ, ◌≡◌, List, [], ◌∷◌, ◌++◌, Option, none, some, ◌>>=◌, String, Bool, true, false, if◌then◌else◌,
  map, ltb, ◌+◌,
}
use elliptics_go.Base.Int.{ℤ, negsuc}
use elliptics_go.Base.Dict.{Dict, insert}
use elliptics_go.Base.Eq.{nat_eq}
use elliptics_go.Errors.{Error, dnet, text, Result, ok, err}
use elliptics_go.Stat.Ring.Sort.{sort}
use elliptics_go.Session.Results.{
  Item, read_item, lookup_item, remove_item, read_error, lookup_error, remove_error,
}
use elliptics_go.Session.Callback.{free_keys}
use elliptics_go.Session.World.{
  Handler, reads, bulk_reads, lookups, removes, bulk_removes, finds, entries, unused, Sink,
  to_channel, to_caller, nowhere, Value, on_result, on_finish, on_write, on_write_finish, chunk,
  World, Call, session_read_data, session_bulk_read, session_lookup, session_parallel_lookup,
  session_remove, session_bulk_remove, session_find_all_indexes, session_find_any_indexes,
  session_set_indexes, session_update_indexes, session_list_indexes, session_remove_indexes,
  session_write_data, session_write_cache, send, close, make_chan, remember, new_context, issue,
  notify,
}

-- The channel of a request with its two contexts.
pub record Opened : Type 0 where
  pub ch : ℕ
  pub r : ℕ
  pub f : ℕ

-- The two contexts of a request on a channel, with its closures stored under them.
unfoldable pub register : Handler → ℕ → World → World × Opened
register h ch w =
    let (w1, r) = new_context w in
    let (w2, f) = new_context w1 in
    (
      remember f (on_finish h ch r f) (remember r (on_result h ch) w2),
      record { ch = ch; r = r; f = f },
    )

unfoldable pub open_request : Handler → World → World × Opened
unfolding register
open_request h w = let (w1, ch) = make_chan w in register h ch w1

-- NewKey of a text
unfoldable pub new_key : Bool → String → Result String
new_key true key = ok key
new_key false key = err (text "could not create new key")

-- NewKeys, which sorts the keys and hands them to a new key set of C.
module _ (string_less : String → String → Bool) where
  unfoldable pub new_keys : Bool → List String → World → Result (World × ℕ)
  new_keys true keys w = ok (
    record w {
      key_sets = insert w.next_keys (sort string_less keys) w.key_sets;
      next_keys = w.next_keys + 1;
    },
    w.next_keys,
  )
  new_keys false keys w = err (text "could not create key array")

-- A channel with one error on it, closed.
unfoldable pub failed_chan : Item → World → Option (World × ℕ)
failed_chan item w = do
  let (w1, ch) = make_chan w
  w2 ← send ch item w1
  w3 ← close ch w2
  some (w3, ch)

-- ReadKey
unfoldable pub read_key : String → ℕ → ℕ → World → World × ℕ
read_key key offset size w =
    let (w1, o) = open_request reads w in
    (issue (session_read_data o.r o.f key offset size) w1, o.ch)

-- ReadData
unfoldable pub read_data : Bool → String → ℕ → ℕ → World → Option (World × ℕ)
read_data allocated key offset size w = elim (new_key allocated key) [
  | err e ↦ failed_chan (read_item (read_error e)) w
  | ok ekey ↦ some (read_key ekey offset size w)
]

-- Lookup
unfoldable pub lookup_key : String → World → World × ℕ
lookup_key key w =
    let (w1, o) = open_request lookups w in (issue (session_lookup o.r o.f key) w1, o.ch)

-- ParallelLookup: the channel and the contexts are made before the key.
unfoldable pub parallel_lookup : Bool → String → World → Option (World × ℕ)
parallel_lookup allocated kstr w =
    let (w1, ch) = make_chan w in
    let (w2, r) = new_context w1 in
    let (w3, f) = new_context w2 in
    elim (new_key allocated kstr) [
      | err e ↦ do
        told ← send ch (lookup_item (lookup_error e)) w3
        ended ← close ch told
        some (ended, ch)
      | ok key ↦ some (
        issue (session_parallel_lookup r f key)
            (remember f (on_finish lookups ch r f) (remember r (on_result lookups ch) w3)),
        ch,
      )
    ]

-- RemoveKey
unfoldable pub remove_key : String → World → World × ℕ
remove_key key w =
    let (w1, o) = open_request removes w in (issue (session_remove o.r o.f key) w1, o.ch)

-- Remove
unfoldable pub remove : Bool → String → World → Option (World × ℕ)
remove allocated key w = elim (new_key allocated key) [
  | err e ↦ failed_chan (remove_item (remove_error "" e)) w
  | ok ekey ↦ some (remove_key ekey w)
]

module _ (string_less : String → String → Bool) where
  -- BulkRead. (The Free of the failed case is of a null key set, and does nothing.)
  unfoldable pub bulk_read : Bool → List String → World → Option (World × ℕ)
  bulk_read allocated keys w = elim (new_keys string_less allocated keys w) [
    | err e ↦ failed_chan (read_item (read_error e)) w
    | ok (w1, ekeys) ↦
        let (w2, o) = open_request (bulk_reads ekeys) w1 in
        some (issue (session_bulk_read o.r o.f (sort string_less keys)) w2, o.ch)
  ]

  -- BulkRemove
  unfoldable pub bulk_remove : Bool → List String → World → Option (World × ℕ)
  bulk_remove allocated keys_str w = elim (new_keys string_less allocated keys_str w) [
    | err e ↦ failed_chan (remove_item (remove_error "new keys allocation failed" e)) w
    | ok (w1, keys) ↦
        let (w2, o) = open_request (bulk_removes keys) w1 in
        some (issue (session_bulk_remove o.r o.f (sort string_less keys_str)) w2, o.ch)
  ]

-- A pointer to the first element of an empty slice is a panic.
unfoldable pub first_of {ℓ} : {A : Type ℓ} → List A → World × ℕ → Option (World × ℕ)
first_of [] r = none
first_of (x ∷ xs) r = some r

-- findIndexes, of which the texts for C are the indexes themselves.
abbrev pub find_indexes : List String → World → World × Opened × List String
find_indexes indexes w = let (w1, o) = open_request finds w in (w1, o, indexes)

-- FindAllIndexes and FindAnyIndexes
unfoldable pub find_all_indexes : List String → World → Option (World × ℕ)
find_all_indexes indexes w =
    let (w1, o, cindexes) = find_indexes indexes w in
    first_of cindexes (issue (session_find_all_indexes o.r o.f cindexes) w1, o.ch)

unfoldable pub find_any_indexes : List String → World → Option (World × ℕ)
find_any_indexes indexes w =
    let (w1, o, cindexes) = find_indexes indexes w in
    first_of cindexes (issue (session_find_any_indexes o.r o.f cindexes) w1, o.ch)

-- setOrUpdateIndexes, for the map of the indexes in the order in which `range` visits it
unfoldable pub set_indexes : Bool → String → List (String × String) → World → Option (World × ℕ)
set_indexes false key indexes w = none
set_indexes true key indexes w =
    let (w1, o) = open_request unused w in
    first_of indexes (issue (session_set_indexes o.r o.f key indexes) w1, o.ch)

unfoldable pub update_indexes : Bool → String → List (String × String) → World → Option (World × ℕ)
update_indexes false key indexes w = none
update_indexes true key indexes w =
    let (w1, o) = open_request unused w in
    first_of indexes (issue (session_update_indexes o.r o.f key indexes) w1, o.ch)

-- ListIndexes
unfoldable pub list_indexes : Bool → String → World → Option (World × ℕ)
list_indexes false key w = none
list_indexes true key w =
    let (w1, o) = open_request entries w in some (issue (session_list_indexes o.r o.f key) w1, o.ch)

-- RemoveIndexes
unfoldable pub remove_indexes : Bool → String → List String → World → Option (World × ℕ)
remove_indexes false key indexes w = none
remove_indexes true key indexes w =
    let (w1, o) = open_request unused w in
    first_of indexes (issue (session_remove_indexes o.r o.f key indexes) w1, o.ch)
