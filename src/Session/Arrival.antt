-- ===== src/Session/Arrival.antt =====
-- The exported functions of elliptics/callback.go at the arguments that C gives them: each reads the
-- C structures into a Go value and hands it to the closure of its context. A C text is the text
-- itself.
use elliptics_go.Base.{
  ℕ, List, [], ◌∷◌, take, Option, none, some, ◌>>=◌, String, if◌then◌else◌, ltb,
}
use elliptics_go.Base.Int.{ℤ, pos, negsuc, to_int32, to_int64}
use elliptics_go.Errors.{Error, dnet}
use elliptics_go.Wire.{CDnetCmd, new_dnet_cmd}
use elliptics_go.Wire.Address.{CDnetAddr, new_dnet_addr}
use elliptics_go.Wire.Attributes.{CDnetIoAttr, new_dnet_io_attr, CDnetFileInfo, new_dnet_file_info}
use elliptics_go.Session.Results.{IndexEntry, zero_addr, zero_info}
use elliptics_go.Session.World.{World}
use elliptics_go.Session.Callback.{
  read_reply, lookup_reply, remove_reply, find_reply, entry_reply, CError, result_callback,
}

-- struct go_lookup_result
pub record CLookupResult : Type 0 where
  pub cmd : CDnetCmd
  pub addr : CDnetAddr
  pub info : CDnetFileInfo
  pub storage_addr : CDnetAddr
  pub path : String

-- struct go_read_result; `none` is a null `file`.
pub record CReadResult : Type 0 where
  pub cmd : CDnetCmd
  pub addr : CDnetAddr
  pub io_attribute : CDnetIoAttr
  pub file : Option (List ℕ)
  pub size : ℕ

-- C.GoBytes(p, C.int(size)), which panics for a negative number.
unfoldable pub go_bytes : List ℕ → ℤ → Option (List ℕ)
go_bytes p (pos n) = some (take n p)
go_bytes p (negsuc n) = none

-- The data of a read.
unfoldable pub read_bytes : CReadResult → Option (List ℕ)
unfolding go_bytes
read_bytes r = elim r.file [
  | none ↦ some []
  | some p ↦ if ltb 0 r.size then go_bytes p (to_int32 (pos r.size)) else some []
]

-- struct c_index_entry
pub record CIndexEntry : Type 0 where
  pub data_of : List ℕ
  pub size : ℕ

-- struct go_find_result
pub record CFindResult : Type 0 where
  pub id : List ℕ
  pub entries : List CIndexEntry
  pub entries_count : ℕ

-- The slice of int(entries_count) entries; a range over a negative length has no round.
unfoldable pub entries_of : CFindResult → List CIndexEntry
entries_of r = elim (to_int64 (pos r.entries_count)) [ pos n ↦ take n r.entries | negsuc n ↦ [] ]

unfoldable pub reply_error : CError → Error
reply_error c = dnet (record { code = c.code; flags = c.flags; message = c.message })

-- `id_size` is DNET_ID_SIZE; `keys_find` is the search of the C library for a key.
module _ (id_size : ℕ) (keys_find : List String → List ℕ → Option String) where
  unfoldable pub go_lookup_error : CDnetCmd → CDnetAddr → CError → ℕ → World → Option World
  unfolding reply_error
  go_lookup_error cmd addr cerr key w =
      result_callback keys_find key
        (lookup_reply (record {
          cmd = new_dnet_cmd id_size cmd;
          addr = new_dnet_addr addr;
          info = zero_info;
          storage_addr = zero_addr;
          path = "";
          err = some (reply_error cerr);
          key = "";
        }))
        w

  unfoldable pub go_lookup_callback : CLookupResult → ℕ → World → Option World
  go_lookup_callback r key w =
      result_callback keys_find key
        (lookup_reply (record {
          cmd = new_dnet_cmd id_size r.cmd;
          addr = new_dnet_addr r.addr;
          info = new_dnet_file_info id_size r.info;
          storage_addr = new_dnet_addr r.storage_addr;
          path = r.path;
          err = none;
          key = "";
        }))
        w

  unfoldable pub go_remove_callback : CDnetCmd → ℕ → World → Option World
  go_remove_callback cmd key w =
      result_callback keys_find key
        (remove_reply (record { cmd = new_dnet_cmd id_size cmd; key = ""; err = none })) w

  unfoldable pub go_read_callback : CReadResult → ℕ → World → Option World
  unfolding read_bytes
  go_read_callback r key w = do
    bytes ← read_bytes r
    result_callback keys_find key
        (read_reply (record {
          cmd = new_dnet_cmd id_size r.cmd;
          addr = new_dnet_addr r.addr;
          ioattr = new_dnet_io_attr id_size r.io_attribute;
          bytes = bytes;
          err = none;
          key = "";
        }))
        w

-- `string_of` is Go's conversion of bytes to a string.
module _ (id_size : ℕ) (keys_find : List String → List ℕ → Option String)
    (string_of : List ℕ → String) where
  -- C.GoStringN(item.data, C.int(item.size)), as data of an index.
  unfoldable pub index_entry : CIndexEntry → Option IndexEntry
  index_entry item = do
    bytes ← go_bytes item.data_of (to_int32 (pos item.size))
    some (record { text = string_of bytes; err = none })

  -- The loop over the C array.
  unfoldable pub index_entries : List CIndexEntry → Option (List IndexEntry)
  unfolding index_entry
  index_entries [] = some []
  index_entries (item ∷ items) = do
    entry ← index_entry item
    rest ← index_entries items
    some (entry ∷ rest)

  unfoldable pub go_find_callback : CFindResult → ℕ → World → Option World
  unfolding entries_of
  go_find_callback r key w = do
    entries ← index_entries (entries_of r)
    result_callback keys_find key (find_reply (record { id = r.id; entries = entries; err = none }))
        w

  unfoldable pub go_index_entry_callback : CIndexEntry → ℕ → World → Option World
  go_index_entry_callback r key w = do
    entry ← index_entry r
    result_callback keys_find key (entry_reply entry) w
