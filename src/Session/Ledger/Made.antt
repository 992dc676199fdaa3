-- ===== src/Session/Ledger/Made.antt =====
-- The requests of the library are moves of the ledger.
use elliptics_go.Base.{ℕ, ◌≡◌, refl, List, [], ◌∷◌, Option, some, String, Bool, true, false, map}
use elliptics_go.Base.Int.{pos, to_int64}
use elliptics_go.Errors.{ok}
use elliptics_go.Wire.Attributes.{DnetIoAttr}
use elliptics_go.Session.World.{
  reads, bulk_reads, lookups, bulk_writes, removes, bulk_removes, finds, entries, unused, stats,
  Upload, World, session_read_data, session_bulk_read, session_lookup, session_parallel_lookup,
  session_remove, session_bulk_remove, session_find_all_indexes, session_find_any_indexes,
  session_set_indexes, session_update_indexes, session_list_indexes, session_remove_indexes,
  session_write_data, session_bulk_write, session_get_stats, session_write_cache,
}
use elliptics_go.Stat.Ring.Sort.{sort}
use elliptics_go.Session.Requests.{
  open_request, new_key, new_keys, read_key, read_data, lookup_key, parallel_lookup, remove_key,
  remove, bulk_read, bulk_remove, find_all_indexes, find_any_indexes, set_indexes, update_indexes,
  list_indexes, remove_indexes, first_of, register,
}
use elliptics_go.Session.Writes.{write_key, write_cache, write_input, write, cache}
use elliptics_go.Session.Uploads.{write_chunk}
use elliptics_go.Session.Bulk.{Blob, send_blobs}
use elliptics_go.Session.Statistics.{ask_stats, categories}
use elliptics_go.Session.Ledger.{
  Ledger, Move, begin, begin_index, begin_bulk, begin_write, refuse_parallel, perform,
  begin_request, begin_bulk_request, begin_write_request, begin_upload, state_of,
}

-- Whether a slice has a first element.
abbrev pub has_any {ℓ} : {A : Type ℓ} → List A → Bool
has_any [] = false
has_any (x ∷ xs) = true

module _ (keys_find : List String → List ℕ → Option String) (string_less : String → String → Bool)
    (string_of : List ℕ → String) where
  -- A request is a move.
  abbrev pub Is : World → Move → Option (World × ℕ) → Type 0
  Is w m r = (l : Ledger) → perform keys_find string_less l m w ≡ state_of r

  -- Each request about one key, and DnetStat's, is the beginning of a request with its handler and
  -- its call.
  pub single_requests-Is :
      (key : String) (offset size : ℕ) (w : World)
      → Is w
          (begin reads (λ r f. session_read_data r f key offset size))
          (read_data true key offset size w)
        × Is w (begin lookups (λ r f. session_lookup r f key)) (some (lookup_key key w))
        × Is w (begin lookups (λ r f. session_parallel_lookup r f key)) (parallel_lookup true key w)
        × Is w (refuse_parallel key) (parallel_lookup false key w)
        × Is w (begin removes (λ r f. session_remove r f key)) (remove true key w)
        × Is w (begin stats (λ r f. session_get_stats r f categories)) (some (ask_stats w))
  unfolding perform begin_request read_data read_key new_key lookup_key remove remove_key ask_stats
      parallel_lookup open_request register
  single_requests-Is key offset size w =
      (λ l. refl, λ l. refl, λ l. refl, λ l. refl, λ l. refl, λ l. refl)

  -- Each request about indexes, of any number of them and whether its key can be made or not,
  -- likewise: a panic is one of the move.
  pub find_requests-Is :
      (names : List String) (w : World)
      → Is w
          (begin_index true (has_any names) finds (λ r f. session_find_all_indexes r f names))
          (find_all_indexes names w)
        × Is w
            (begin_index true (has_any names) finds (λ r f. session_find_any_indexes r f names))
            (find_any_indexes names w)
  unfolding perform begin_request find_all_indexes find_any_indexes first_of
  find_requests-Is [] w = (λ l. refl, λ l. refl)
  find_requests-Is (name ∷ names) w = (λ l. refl, λ l. refl)

  pub index_requests-Is :
      (has_key : Bool) (key : String) (pairs : List (String × String)) (w : World)
      → Is w
          (begin_index has_key (has_any pairs) unused (λ r f. session_set_indexes r f key pairs))
          (set_indexes has_key key pairs w)
        × Is w
            (begin_index has_key
              (has_any pairs)
              unused
              (λ r f. session_update_indexes r f key pairs))
            (update_indexes has_key key pairs w)
  unfolding perform begin_request set_indexes update_indexes first_of
  index_requests-Is false key pairs w = (λ l. refl, λ l. refl)
  index_requests-Is true key [] w = (λ l. refl, λ l. refl)
  index_requests-Is true key (p ∷ pairs) w = (λ l. refl, λ l. refl)

  pub remove_requests-Is :
      (has_key : Bool) (key : String) (names : List String) (w : World)
      → Is w
          (begin_index has_key (has_any names) unused (λ r f. session_remove_indexes r f key names))
          (remove_indexes has_key key names w)
        × Is w
            (begin_index has_key true entries (λ r f. session_list_indexes r f key))
            (list_indexes has_key key w)
  unfolding perform begin_request remove_indexes list_indexes first_of
  remove_requests-Is false key names w = (λ l. refl, λ l. refl)
  remove_requests-Is true key [] w = (λ l. refl, λ l. refl)
  remove_requests-Is true key (name ∷ names) w = (λ l. refl, λ l. refl)

  -- Each request about many keys.
  pub bulk_requests-Is :
      (keys : List String) (attrs : List DnetIoAttr) (blobs : List Blob) (w : World)
      → let sorted = sort string_less keys in
        Is w
          (begin_bulk bulk_reads keys (λ r f. session_bulk_read r f sorted))
          (bulk_read string_less true keys w)
        × Is w
            (begin_bulk bulk_removes keys (λ r f. session_bulk_remove r f sorted))
            (bulk_remove string_less true keys w)
        × Is w
            (begin_bulk bulk_writes
              (map (λ a. string_of a.id) attrs)
              (λ r f. session_bulk_write r f blobs))
            (send_blobs string_of string_less true attrs blobs w)
  unfolding perform begin_bulk_request begin_request bulk_read bulk_remove send_blobs new_keys
  bulk_requests-Is keys attrs blobs w = (λ l. refl, λ l. refl, λ l. refl)

  -- Each write of a channel's caller.
  pub write_requests-Is :
      (key : String) (b : ℕ) (bs : List ℕ) (offset timeout : ℕ) (u : Upload) (w : World)
      → let bytes = b ∷ bs in
        Is w
          (begin_write bytes (λ r f. session_write_data r f key offset bytes))
          (write_key key (ok bytes) offset w)
        × Is w
            (begin_write bytes (λ r f. session_write_cache r f key bytes (to_int64 (pos timeout))))
            (write_cache true key (ok bytes) timeout w)
        × Is w (begin_upload u) (write_chunk u w)
  unfolding perform begin_write_request write_key write_cache write_input write cache new_key
  write_requests-Is key b bs offset timeout u w = (λ l. refl, λ l. refl, λ l. refl)
