-- ===== src/Session/Interfaces.antt =====
-- The interfaces of elliptics/session.go that the values on its channels have, as records of their
-- methods, and the methods of readResult, lookupResult, removeResult, findResult, indexResult and
-- IndexEntry.
use elliptics_go.Base.{ℕ, List, Option, String}
use elliptics_go.Errors.{Error}
use elliptics_go.Wire.{DnetCmd}
use elliptics_go.Wire.Address.{DnetAddr}
use elliptics_go.Wire.Attributes.{DnetIoAttr, DnetFileInfo}
use elliptics_go.Session.Results.{
  ReadResult, LookupResult, RemoveResult, FindResult, IndexEntry, IndexResult, Item, read_item,
  lookup_item, remove_item, find_item, index_item, entry_item, stat_item, status_item,
}

-- The interface ReadResult
pub record Reader : Type 0 where
  pub cmd : DnetCmd
  pub addr : DnetAddr
  pub io : DnetIoAttr
  pub bytes : List ℕ
  pub error : Option Error
  pub key : String

unfoldable pub reader : ReadResult → Reader
reader r = record {
  cmd = r.cmd;
  addr = r.addr;
  io = r.ioattr;
  bytes = r.bytes;
  error = r.err;
  key = r.key;
}

pub record Lookuper : Type 0 where
  pub cmd : DnetCmd
  pub addr : DnetAddr
  pub info : DnetFileInfo
  pub storage_addr : DnetAddr
  pub path : String
  pub error : Option Error
  pub key : String

unfoldable pub lookuper : LookupResult → Lookuper
lookuper l = record {
  cmd = l.cmd;
  addr = l.addr;
  info = l.info;
  storage_addr = l.storage_addr;
  path = l.path;
  error = l.err;
  key = l.key;
}

pub record Remover : Type 0 where
  pub cmd : DnetCmd
  pub key : String
  pub error : Option Error

unfoldable pub remover : RemoveResult → Remover
remover r = record { cmd = r.cmd; key = r.key; error = r.err }

pub record Finder : Type 0 where
  pub error : Option Error
  pub entries : List IndexEntry

unfoldable pub finder : FindResult → Finder
finder f = record { error = f.err; entries = f.entries }

pub record Indexer : Type 0 where
  pub error : Option Error

unfoldable pub indexer : IndexResult → Indexer
indexer i = record { error = i.err }

-- (i *IndexEntry) Error()
unfoldable pub index_entry_error : IndexEntry → Option Error
index_entry_error i = i.err

-- What a receiver sees by the Error method of a value; the values of DnetStat() and of the requests
-- about backends have a field instead.
unfoldable pub item_error : Item → Option Error
unfolding reader lookuper remover finder indexer index_entry_error
item_error (read_item r) = (reader r).error
item_error (lookup_item r) = (lookuper r).error
item_error (remove_item r) = (remover r).error
item_error (find_item r) = (finder r).error
item_error (index_item r) = (indexer r).error
item_error (entry_item r) = index_entry_error r
item_error (stat_item r) = r.err
item_error (status_item r) = r.error
