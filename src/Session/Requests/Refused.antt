-- ===== src/Session/Requests/Refused.antt =====
-- Requests of elliptics/session.go that end at once.
use elliptics_go.Base.{ℕ, ◌+◌, ◌≡◌, refl, List, [], ◌∷◌, Option, some, String, Bool, true, false}
use elliptics_go.Base.Dict.{lookup, insert, lookup-insert_self}
use elliptics_go.Base.Eq.{nat_eq}
use elliptics_go.Errors.{Error, text, Result, ok, err}
use elliptics_go.Session.Results.{
  Item, read_item, lookup_item, remove_item, read_error, lookup_error, remove_error,
}
use elliptics_go.Session.World.{World, send, close, make_chan}
use elliptics_go.Session.Requests.{
  failed_chan, new_key, new_keys, read_data, remove, bulk_read, bulk_remove,
}
use elliptics_go.Session.Writes.{write_key, write_cache, write_input, refuse, zero_length_write}

-- The request made no context and no call: its channel has one item, and is closed.
abbrev pub Refused : World → Item → Option (World × ℕ) → Type 0
Refused w item r =
    (w' : World) × (r ≡ some (w', w.next_chan))
    × (lookup w.next_chan w'.chans ≡ some (record { sent = item ∷ []; closed = true }))
    × (w'.pool ≡ w.pool)
    × (w'.calls ≡ w.calls)
    × (w'.key_sets ≡ w.key_sets)

pub failed_chan-Refused : (item : Item) (w : World) → Refused w item (failed_chan item w)
unfolding failed_chan make_chan send close
failed_chan-Refused item w =
    let opened = insert w.next_chan (record { sent = []; closed = false }) w.chans in
    let told = insert w.next_chan (record { sent = item ∷ []; closed = false }) opened in
    let w' : World = record w {
      chans = insert w.next_chan (record { sent = item ∷ []; closed = true }) told;
      next_chan = w.next_chan + 1;
    } in
    (
      w',
      simp (
        lookup-insert_self w.next_chan (record { sent = []; closed = false }) w.chans,
        lookup-insert_self w.next_chan (record { sent = item ∷ []; closed = false }) opened,
      ),
      lookup-insert_self w.next_chan (record { sent = item ∷ []; closed = true }) told,
      refl,
      refl,
      refl,
    )

abbrev pub no_key : Error
no_key = text "could not create new key"

abbrev pub no_keys : Error
no_keys = text "could not create key array"

-- ReadData, Remove and WriteCache where the C library cannot allocate the key, BulkRead and
-- BulkRemove where it cannot allocate the key set, and WriteKey and WriteCache where the reader fails
-- or is empty, return a closed channel with one error of the caller's kind on it, and store no
-- closure, make no call and leave no key set.
pub requests-Refused :
    (string_less : String → String → Bool) (key : String) (keys : List String) (offset size : ℕ)
    (e : Error) (input : Result (List ℕ)) (w : World)
    → Refused w (read_item (read_error no_key)) (read_data false key offset size w)
      × Refused w (remove_item (remove_error "" no_key)) (remove false key w)
      × Refused w (read_item (read_error no_keys)) (bulk_read string_less false keys w)
      × Refused w
          (remove_item (remove_error "new keys allocation failed" no_keys))
          (bulk_remove string_less false keys w)
      × Refused w (lookup_item (lookup_error no_key)) (write_cache false key input size w)
      × Refused w (lookup_item (lookup_error e)) (write_key key (err e) offset w)
      × Refused w (lookup_item (lookup_error zero_length_write)) (write_key key (ok []) offset w)
      × Refused w (lookup_item (lookup_error e)) (write_cache true key (err e) size w)
      × Refused w
          (lookup_item (lookup_error zero_length_write))
          (write_cache true key (ok []) size w)
unfolding failed_chan read_data remove bulk_read bulk_remove write_cache write_key new_key new_keys
    write_input refuse
requests-Refused string_less key keys offset size e input w = (
  failed_chan-Refused (read_item (read_error no_key)) w,
  failed_chan-Refused (remove_item (remove_error "" no_key)) w,
  failed_chan-Refused (read_item (read_error no_keys)) w,
  failed_chan-Refused (remove_item (remove_error "new keys allocation failed" no_keys)) w,
  failed_chan-Refused (lookup_item (lookup_error no_key)) w,
  failed_chan-Refused (lookup_item (lookup_error e)) w,
  failed_chan-Refused (lookup_item (lookup_error zero_length_write)) w,
  failed_chan-Refused (lookup_item (lookup_error e)) w,
  failed_chan-Refused (lookup_item (lookup_error zero_length_write)) w,
)
