-- ===== src/Session/Results.antt =====
-- The values that the channels of elliptics/session.go carry, and their zero values, which the
-- error values are built on.
use elliptics_go.Base.{ℕ, Bool, String, List, [], Option, some}
use elliptics_go.Base.Int.{ℤ, pos}
use elliptics_go.Errors.{Error}
use elliptics_go.Wire.{DnetCmd}
use elliptics_go.Wire.Address.{DnetAddr}
use elliptics_go.Wire.Attributes.{DnetIoAttr, DnetFileInfo}
use elliptics_go.Stat.Types.{zero_time}
use elliptics_go.Stat.Entry.{StatEntry}

pub record ReadResult : Type 0 where
  pub cmd : DnetCmd
  pub addr : DnetAddr
  pub ioattr : DnetIoAttr
  pub bytes : List ℕ
  pub err : Option Error
  pub key : String

pub record LookupResult : Type 0 where
  pub cmd : DnetCmd
  pub addr : DnetAddr
  pub info : DnetFileInfo
  pub storage_addr : DnetAddr
  pub path : String
  pub err : Option Error
  pub key : String

pub record RemoveResult : Type 0 where
  pub cmd : DnetCmd
  pub key : String
  pub err : Option Error

pub record IndexEntry : Type 0 where
  pub text : String
  pub err : Option Error

pub record FindResult : Type 0 where
  pub id : List ℕ
  pub entries : List IndexEntry
  pub err : Option Error

pub record IndexResult : Type 0 where
  pub err : Option Error

-- DnetBackendStatus and DnetBackendsStatus of elliptics/backend.go
pub record DnetBackendStatus : Type 0 where
  pub backend : ℤ
  pub state : ℤ
  pub defrag_state : ℤ
  pub last_start : ℤ
  pub last_start_err : ℤ
  pub ro : Bool
  pub delay : ℕ

pub record DnetBackendsStatus : Type 0 where
  pub backends : List DnetBackendStatus
  pub error : Option Error

-- What a channel carries: an interface value of one of these types.
pub data Item : Type 0 where
  read_item : ReadResult → Item
  lookup_item : LookupResult → Item
  remove_item : RemoveResult → Item
  find_item : FindResult → Item
  index_item : IndexResult → Item
  entry_item : IndexEntry → Item
  stat_item : StatEntry → Item
  status_item : DnetBackendsStatus → Item

abbrev pub zero_cmd : DnetCmd
zero_cmd = record {
  id = record { id = []; group = 0 };
  status = pos 0;
  cmd = pos 0;
  backend = pos 0;
  trace = 0;
  flags = 0;
  trans = 0;
  size = 0;
}

abbrev pub zero_addr : DnetAddr
zero_addr = record { addr = []; family = 0 }

abbrev pub zero_ioattr : DnetIoAttr
zero_ioattr = record {
  parent = [];
  id = [];
  start = 0;
  num = 0;
  timestamp = zero_time;
  user_flags = 0;
  total_size = 0;
  flags = 0;
  offset = 0;
  size = 0;
}

abbrev pub zero_info : DnetFileInfo
zero_info = record { csum = []; offset = 0; size = 0; mtime = zero_time }

-- &readResult{err: err} and so on
abbrev pub read_error : Error → ReadResult
read_error e = record {
  cmd = zero_cmd;
  addr = zero_addr;
  ioattr = zero_ioattr;
  bytes = [];
  err = some e;
  key = "";
}

abbrev pub lookup_error : Error → LookupResult
lookup_error e = record {
  cmd = zero_cmd;
  addr = zero_addr;
  info = zero_info;
  storage_addr = zero_addr;
  path = "";
  err = some e;
  key = "";
}

abbrev pub remove_error : String → Error → RemoveResult
remove_error key e = record { cmd = zero_cmd; key = key; err = some e }

abbrev pub stat_error : Error → StatEntry
stat_error e = record { cmd = zero_cmd; addr = zero_addr; stat = []; err = some e }
