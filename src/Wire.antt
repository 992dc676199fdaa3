-- ===== src/Wire.antt =====
-- elliptics/ctogo.go: the values that cross from the C structures of elliptics into Go, and back.
-- A C structure is the record of the fields that the accessors of ctogo.go read. The sizes of the
-- C arrays (DNET_ID_SIZE, DNET_ADDR_SIZE) are those of the elliptics headers, and are arguments.
pub mod Address
pub mod Time
pub mod Attributes
pub mod Texts
pub mod RoundTrip
use elliptics_go.Base.{ℕ, List, take}
use elliptics_go.Base.Int.{ℤ}

pub record DnetRawId : Type 0 where
  pub id : List ℕ

pub record DnetId : Type 0 where
  pub id : List ℕ
  pub group : ℕ

pub record DnetCmd : Type 0 where
  pub id : DnetId
  pub status : ℤ
  pub cmd : ℤ
  pub backend : ℤ
  pub trace : ℕ
  pub flags : ℕ
  pub trans : ℕ
  pub size : ℕ

-- struct dnet_cmd
pub record CDnetCmd : Type 0 where
  pub id : List ℕ
  pub group_id : ℕ
  pub status : ℤ
  pub cmd : ℤ
  pub backend_id : ℤ
  pub trace_id : ℕ
  pub flags : ℕ
  pub trans : ℕ
  pub size : ℕ

-- The accessors, in C.
abbrev pub dnet_cmd_get_trace_id : CDnetCmd → ℕ
dnet_cmd_get_trace_id d = d.trace_id

abbrev pub dnet_cmd_get_flags : CDnetCmd → ℕ
dnet_cmd_get_flags d = d.flags

abbrev pub dnet_cmd_get_size : CDnetCmd → ℕ
dnet_cmd_get_size d = d.size

abbrev pub dnet_cmd_get_trans : CDnetCmd → ℕ
dnet_cmd_get_trans d = d.trans

abbrev pub dnet_cmd_get_group : CDnetCmd → ℕ
dnet_cmd_get_group d = d.group_id

abbrev pub dnet_cmd_get_status : CDnetCmd → ℤ
dnet_cmd_get_status d = d.status

abbrev pub dnet_cmd_get_cmd : CDnetCmd → ℤ
dnet_cmd_get_cmd d = d.cmd

abbrev pub dnet_cmd_get_backend_id : CDnetCmd → ℤ
dnet_cmd_get_backend_id d = d.backend_id

-- `id_size` is DNET_ID_SIZE.
unfoldable pub new_dnet_cmd : ℕ → CDnetCmd → DnetCmd
new_dnet_cmd id_size c = record {
  id = record { id = take id_size c.id; group = dnet_cmd_get_group c };
  status = dnet_cmd_get_status c;
  cmd = dnet_cmd_get_cmd c;
  backend = dnet_cmd_get_backend_id c;
  trace = dnet_cmd_get_trace_id c;
  flags = dnet_cmd_get_flags c;
  trans = dnet_cmd_get_trans c;
  size = dnet_cmd_get_size c;
}
