-- ===== src/Stat/Entry.antt =====
-- (stat *DnetStat) AddStatEntry of elliptics/stat.go. encoding/json and the text of the log lines
-- are outside the model: `unmarshal` gives the reply that the decoder leaves, which is the zero
-- reply, or a part of one, where it also reports an error. The error is only logged.
pub mod Laws
pub mod Parts
use elliptics_go.Base.{
  ℕ, ◌+◌, ◌*◌, ◌/◌, ◌%◌, ◌^◌, ◌≡◌, List, [], ◌∷◌, Option, none, some, Bool, true, false, not, ◌&&◌,
  ◌>>=◌, String, if◌then◌else◌, eqb,
}
use elliptics_go.Base.Int.{ℤ, pos, negsuc, eqb_ℤ, to_int32, to_int64}
use elliptics_go.Base.Word.{mul64}
use elliptics_go.Base.Dict.{Dict, lookup, insert}
use elliptics_go.Base.Eq.{nat_eq, string_eq, ◌==◌}
use elliptics_go.Base.Float.{Floats}
use elliptics_go.Json.{Response, VNode, Config}
use elliptics_go.Json.Counters.{Command, requests_success, requests_failures, bytes}
use elliptics_go.Wire.{DnetCmd}
use elliptics_go.Wire.Address.{DnetAddr}
use elliptics_go.Wire.Time.{unix}
use elliptics_go.Errors.{Error}
use elliptics_go.Stat.Types.{AddressBackend, StatBackend, DnetStat, CStat, Vfs, float_zero}
use elliptics_go.Stat.Address.{new_address_backend}
use elliptics_go.Stat.Find.{backend_at, write_backend, find_backend}

abbrev pub backend_state_disabled : ℤ
backend_state_disabled = pos 0

abbrev pub backend_state_enabled : ℤ
backend_state_enabled = pos 1

abbrev pub backend_state_activating : ℤ
backend_state_activating = pos 2

abbrev pub backend_state_deactivating : ℤ
backend_state_deactivating = pos 3

-- `defrag_state`; a missing key reads as the empty text.
unfoldable pub defrag_state_text : ℤ → String
defrag_state_text s =
    if eqb_ℤ s (pos 0) then "not-started" else if eqb_ℤ s (pos 1) then "in-progress" else ""

pub record StatEntry : Type 0 where
  pub cmd : DnetCmd
  pub addr : DnetAddr
  pub stat : List ℕ
  pub err : Option Error

-- (entry *StatEntry) Group() and AddressBackend()
unfoldable pub entry_group : StatEntry → ℕ
entry_group e = e.cmd.id.group

unfoldable pub entry_address_backend : StatEntry → Option AddressBackend
entry_address_backend e = new_address_backend e.addr e.cmd.backend

-- BlobFlags&(1<<4) == 0
abbrev pub size_checks : ℕ → Bool
size_checks flags = eqb (flags / 2 ^ 4 % 2) 0

unfoldable pub size_limit : Config → ℕ → ℕ
size_limit config total =
    if not (eqb config.blob_size_limit 0) && size_checks config.blob_flags
    then config.blob_size_limit
    else total

-- The space and record counters of a backend that has no error.
unfoldable pub filled_vfs : VNode → Vfs
unfolding mul64 size_limit
filled_vfs v =
    let total = mul64 v.backend.vfs.frsize v.backend.vfs.blocks in
    record {
      total = total;
      avail = mul64 v.backend.vfs.bfree v.backend.vfs.bsize;
      total_size_limit = size_limit v.backend.config total;
      backend_removed_size = v.backend.summary_stats.records_removed_size;
      backend_used_size = v.backend.summary_stats.base_size;
      records_total = v.backend.summary_stats.records_total;
      records_removed = v.backend.summary_stats.records_removed;
      records_corrupted = v.backend.summary_stats.records_corrupted;
    }

module _ {F : Type 0} ⦃fl : Floats F⦄ where
  unfoldable pub command_stat : Command → CStat F
  command_stat c = record {
    requests_success = requests_success c;
    requests_failures = requests_failures c;
    bytes = bytes c;
    rps_failures = float_zero;
    rps_success = float_zero;
    bps = float_zero;
  }

  -- The loop over vnode.Commands.
  unfoldable pub add_commands : Dict String Command → Dict String (CStat F) → Dict String (CStat F)
  unfolding command_stat
  add_commands [] cs = cs
  add_commands ((name, c) ∷ rest) cs = add_commands rest (insert name (command_stat c) cs)

  -- The assignments to a backend that has no error.
  unfoldable pub filled : VNode → StatBackend F → StatBackend F
  unfolding filled_vfs
  filled v b = record b {
    vfs = filled_vfs v;
    defrag_start_time = unix (to_int64 (pos v.backend.global_stats.data_sort_start_time)) (pos 0);
    defrag_completion_time =
        unix (to_int64 (pos v.backend.global_stats.data_sort_completion_time)) (pos 0);
    defrag_completion_status = v.backend.global_stats.data_sort_completion_status;
    defrag_state = v.status.defrag_state;
    defrag_state_str = defrag_state_text v.status.defrag_state;
    ro = v.status.ro;
    delay = v.status.delay;
    dstat = record b.dstat {
      rsectors = v.backend.dstat.read_sectors;
      wsectors = v.backend.dstat.write_sectors;
      io_ticks = v.backend.dstat.io_ticks;
    };
    commands = add_commands v.commands b.commands;
  }

  -- What the body of the loop makes of the backend that FindBackend gave.
  unfoldable pub updated : VNode → StatBackend F → StatBackend F
  updated v b =
      let marked = record b { error = v.backend.error } in
      if eqb_ℤ v.backend.error.code (pos 0) then filled v marked else marked

  -- One round of the loop over r.Backends; `none` is the fatal error of NewAddressBackend.
  unfoldable pub add_vnode : ℤ → DnetAddr → VNode → DnetStat F → Option (DnetStat F)
  add_vnode now addr v stat =
      if eqb_ℤ v.status.state backend_state_enabled
      then (do
        (found, ab) ← find_backend now v.backend.config.group addr (to_int32 v.backend_id) stat
        b ← backend_at v.backend.config.group ab found
        some (write_backend v.backend.config.group ab (updated v b) found))
      else some stat

  unfoldable pub add_vnodes : ℤ → DnetAddr → Dict String VNode → DnetStat F → Option (DnetStat F)
  add_vnodes now addr [] stat = some stat
  add_vnodes now addr ((_, v) ∷ vs) stat = do
    stat' ← add_vnode now addr v stat
    add_vnodes now addr vs stat'

  unfoldable pub add_stat_entry :
      (List ℕ → Response) → ℤ → StatEntry → DnetStat F → Option (DnetStat F)
  add_stat_entry unmarshal now entry stat =
      let r = unmarshal entry.stat in
      let stamped = record stat {
        time = unix (to_int64 (pos r.timestamp.sec)) (to_int64 (pos (mul64 r.timestamp.usec 1000)));
      } in
      if r.monitor_status == "enabled"
      then add_vnodes now entry.addr r.backends stamped
      else some stamped
