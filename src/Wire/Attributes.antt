-- ===== src/Wire/Attributes.antt =====
-- NewDnetCmd, NewDnetIOAttr, ToIOAttr and NewDnetFileInfo of elliptics/ctogo.go.
use elliptics_go.Base.{ℕ, List, [], ◌∷◌, take, ◌%◌, ◌^◌, Option, none, some}
use elliptics_go.Base.Int.{ℤ}
use elliptics_go.Wire.Time.{unix}

-- struct dnet_time
pub record CDnetTime : Type 0 where
  pub tsec : ℤ
  pub tnsec : ℤ

-- struct dnet_io_attr
pub record CDnetIoAttr : Type 0 where
  pub parent : List ℕ
  pub id : List ℕ
  pub start : ℕ
  pub num : ℕ
  pub timestamp : CDnetTime
  pub user_flags : ℕ
  pub total_size : ℕ
  pub flags : ℕ
  pub offset : ℕ
  pub size : ℕ

pub record DnetIoAttr : Type 0 where
  pub parent : List ℕ
  pub id : List ℕ
  pub start : ℕ
  pub num : ℕ
  pub timestamp : ℤ
  pub user_flags : ℕ
  pub total_size : ℕ
  pub flags : ℕ
  pub offset : ℕ
  pub size : ℕ

-- The accessors, in C.
abbrev pub dnet_io_attr_get_start : CDnetIoAttr → ℕ
dnet_io_attr_get_start io = io.start

abbrev pub dnet_io_attr_get_num : CDnetIoAttr → ℕ
dnet_io_attr_get_num io = io.num

abbrev pub dnet_io_attr_get_user_flags : CDnetIoAttr → ℕ
dnet_io_attr_get_user_flags io = io.user_flags

abbrev pub dnet_io_attr_get_total_size : CDnetIoAttr → ℕ
dnet_io_attr_get_total_size io = io.total_size

abbrev pub dnet_io_attr_get_flags : CDnetIoAttr → ℕ
dnet_io_attr_get_flags io = io.flags

abbrev pub dnet_io_attr_get_offset : CDnetIoAttr → ℕ
dnet_io_attr_get_offset io = io.offset

abbrev pub dnet_io_attr_get_size : CDnetIoAttr → ℕ
dnet_io_attr_get_size io = io.size

-- dnet_io_attr_get_tsec
unfoldable pub get_tsec : CDnetIoAttr → ℤ
get_tsec io = io.timestamp.tsec

-- dnet_io_attr_get_tnsec
unfoldable pub get_tnsec : CDnetIoAttr → ℤ
get_tnsec io = io.timestamp.tsec

-- `id_size` is DNET_ID_SIZE.
unfoldable pub new_dnet_io_attr : ℕ → CDnetIoAttr → DnetIoAttr
unfolding get_tsec get_tnsec
new_dnet_io_attr id_size io = record {
  parent = take id_size io.parent;
  id = take id_size io.id;
  start = dnet_io_attr_get_start io;
  num = dnet_io_attr_get_num io;
  timestamp = unix (get_tsec io) (get_tnsec io);
  user_flags = dnet_io_attr_get_user_flags io;
  total_size = dnet_io_attr_get_total_size io;
  flags = dnet_io_attr_get_flags io % 2 ^ 32;
  offset = dnet_io_attr_get_offset io;
  size = dnet_io_attr_get_size io;
}

-- ell_io_attr of elliptics/dnet_attr.h, which has no timestamp; `none` is a null pointer.
pub record EllIoAttr : Type 0 where
  pub id : Option (List ℕ)
  pub parent : Option (List ℕ)
  pub start : ℕ
  pub num : ℕ
  pub user_flags : ℕ
  pub total_size : ℕ
  pub flags : ℕ
  pub offset : ℕ
  pub size : ℕ

-- A pointer to the first byte, set only for a slice with bytes.
abbrev pub set_bytes : List ℕ → Option (List ℕ) → Option (List ℕ)
set_bytes [] old = old
set_bytes (b ∷ bs) old = some (b ∷ bs)

-- ToIOAttr fills the structure that ell_ell_io_attr_new allocated, `fresh`; `none` is the
-- allocation that failed, and its error.
unfoldable pub to_io_attr : DnetIoAttr → Option EllIoAttr → Option EllIoAttr
to_io_attr atr none = none
to_io_attr atr (some fresh) = some (record {
  id = set_bytes atr.id fresh.id;
  parent = set_bytes atr.parent fresh.parent;
  start = atr.start;
  num = atr.num;
  user_flags = atr.user_flags;
  total_size = atr.total_size;
  flags = atr.flags % 2 ^ 32;
  offset = atr.offset;
  size = atr.size;
})

-- struct dnet_file_info
pub record CDnetFileInfo : Type 0 where
  pub checksum : List ℕ
  pub offset : ℕ
  pub size : ℕ
  pub mtime : CDnetTime

pub record DnetFileInfo : Type 0 where
  pub csum : List ℕ
  pub offset : ℕ
  pub size : ℕ
  pub mtime : ℤ

unfoldable pub new_dnet_file_info : ℕ → CDnetFileInfo → DnetFileInfo
new_dnet_file_info id_size info = record {
  csum = take id_size info.checksum;
  offset = info.offset;
  size = info.size;
  mtime = unix info.mtime.tsec info.mtime.tnsec;
}
