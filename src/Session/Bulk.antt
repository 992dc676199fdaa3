-- ===== src/Session/Bulk.antt =====
-- BulkWrite of elliptics/session.go up to its call of C. Its answers are those of a request with the
-- handler `bulk_writes`.
pub mod Started
use elliptics_go.Base.{
  ℕ, ◌+◌, List, [], ◌∷◌, Option, none, some, ◌>>=◌, String, Bool, true, false, if◌then◌else◌, eqb,
  length, map,
}
use elliptics_go.Errors.{Error, text, Result, ok, err}
use elliptics_go.Wire.Attributes.{DnetIoAttr, EllIoAttr, to_io_attr}
use elliptics_go.Session.Results.{lookup_item, lookup_error}
use elliptics_go.Session.World.{bulk_writes, World, session_bulk_write, issue}
use elliptics_go.Session.Requests.{open_request, new_keys, failed_chan}

-- What a blob of the container holds.
abbrev pub Blob : Type 0
Blob = EllIoAttr × List ℕ

-- A blob before the others of the container.
unfoldable pub and_blob : Blob → Result (List Blob) → Result (List Blob)
and_blob b (ok blobs) = ok (b ∷ blobs)
and_blob b (err e) = err e

-- The pointer to the data is that to its first byte.
unfoldable pub insert_blob :
    EllIoAttr → List ℕ → Option (Result (List Blob)) → Option (Result (List Blob))
unfolding and_blob
insert_blob ioattr [] rest = none
insert_blob ioattr (b ∷ bs) rest = do blobs ← rest; some (and_blob (ioattr, b ∷ bs) blobs)

-- The loop over the attributes, of which the k-th is next. `fresh k` is what
-- ell_ell_io_attr_new gives for it; `none` is a panic.
unfoldable pub insert_blobs :
    (ℕ → Option EllIoAttr) → ℕ → List DnetIoAttr → List (List ℕ) → Option (Result (List Blob))
insert_blobs fresh k [] bytes = some (ok [])
insert_blobs fresh k (attr ∷ attrs) [] = none
insert_blobs fresh k (attr ∷ attrs) (v ∷ vs) =
    let rest = insert_blobs fresh (k + 1) attrs vs in
    elim (to_io_attr attr (fresh k)) [
      | none ↦ some (err (text "not allocated memory for ell_io_attr"))
      | some ioattr ↦ insert_blob ioattr v rest
    ]

unfoldable pub lookup_failed : Error → World → Option (World × ℕ)
lookup_failed e w = failed_chan (lookup_item (lookup_error e)) w

-- `string_of` is Go's conversion of bytes to a string, and `string_less` the order of its strings.
module _ (string_of : List ℕ → String) (string_less : String → String → Bool) where
  -- The request itself.
  unfoldable pub send_blobs : Bool → List DnetIoAttr → List Blob → World → Option (World × ℕ)
  send_blobs allocated attrs blobs w =
      elim (new_keys string_less allocated (map (λ attr. string_of attr.id) attrs) w) [
        | err e ↦ lookup_failed e w
        | ok (w1, keys) ↦
            let (w2, o) = open_request (bulk_writes keys) w1 in
            some (issue (session_bulk_write o.r o.f blobs) w2, o.ch)
      ]

  -- After the loop.
  unfoldable pub write_blobs :
      Bool → List DnetIoAttr → Result (List Blob) → World → Option (World × ℕ)
  write_blobs allocated attrs (err e) w = lookup_failed e w
  write_blobs allocated attrs (ok blobs) w = send_blobs allocated attrs blobs w

  -- BulkWrite. `container` is whether ell_bulk_blobs_new gives a container, `allocated` whether
  -- there is a key set.
  unfoldable pub bulk_write :
      Bool
      → (ℕ → Option EllIoAttr)
      → Bool
      → List DnetIoAttr
      → List (List ℕ)
      → World
      → Option (World × ℕ)
  bulk_write false fresh allocated attrs bytes w =
      lookup_failed (text "not allocated memory for blobs containter") w
  bulk_write true fresh allocated attrs bytes w =
      if eqb (length attrs) (length bytes)
      then (do blobs ← insert_blobs fresh 0 attrs bytes; write_blobs allocated attrs blobs w)
      else lookup_failed (text "inconsistent input parametrs") w
