-- ===== src/Tests/Samples.antt =====
-- Test data: whole numbers in place of float64, two servers and their backends.
use elliptics_go.Base.{ℕ, ◌+◌, ◌-◌, ◌*◌, ◌/◌, ◌^◌, List, [], ◌∷◌, leb, replicate, none, true}
use elliptics_go.Base.Int.{ℤ, pos, negsuc}
use elliptics_go.Base.Float.{Floats}
use elliptics_go.Wire.{DnetRawId, DnetCmd}
use elliptics_go.Wire.Address.{DnetAddr, CDnetAddr}
use elliptics_go.Stat.Types.{StatBackend, StatGroup, DnetStat, new_stat_backend, AddressBackend}
use elliptics_go.Json.{Response, VNode}
use elliptics_go.Stat.Entry.{StatEntry}
use elliptics_go.Route.{CDnetRouteEntry}

abbrev pub whole_seconds : ℤ → ℕ
whole_seconds (pos n) = n / 1_000_000_000
whole_seconds (negsuc n) = 0

-- Whole numbers, with the operations rounded down.
instance abbrev pub whole : Floats ℕ
whole = record {
  of_uint64 = λ n. n;
  literal = λ n d. n / 10 ^ d;
  seconds = whole_seconds;
  add = λ a b. a + b;
  sub = λ a b. a - b;
  mul = λ a b. a * b;
  div = λ a b. a / b;
  le = leb;
}

abbrev pub sample_addr : DnetAddr
sample_addr = record { addr = 10 ∷ 0 ∷ 0 ∷ 1 ∷ []; family = 2 }

abbrev pub sample_c_addr : CDnetAddr
sample_c_addr = record { addr = 10 ∷ 0 ∷ 0 ∷ 1 ∷ 7 ∷ 7 ∷ []; addr_len = 4; family = 2 }

abbrev pub raw_id : ℕ → DnetRawId
raw_id n = record { id = n ∷ 0 ∷ 0 ∷ 0 ∷ 0 ∷ 0 ∷ 0 ∷ 0 ∷ [] }

abbrev pub route : ℕ → ℤ → CDnetRouteEntry
route n backend = record {
  id = (raw_id n).id;
  addr = sample_c_addr;
  group_id = 1;
  backend_id = backend;
}

abbrev pub sample_key : AddressBackend
sample_key = record {
  addr = record { addr = 10 ∷ 0 ∷ 0 ∷ 1 ∷ replicate 28 0; len = 4; family = 2 };
  backend = pos 3;
}

unfoldable pub owner : List DnetRawId → StatBackend ℕ
unfolding new_stat_backend
owner ids = record (new_stat_backend (pos 0)) { id = ids }

abbrev pub sample_group : StatGroup ℕ
sample_group = record { ab = (sample_key, owner (raw_id 128 ∷ raw_id 3 ∷ [])) ∷ [] }

abbrev pub sample_stat : ℤ → DnetStat ℕ
sample_stat t = record { time = t; group = (1, sample_group) ∷ [] }

abbrev pub sample_cmd : DnetCmd
sample_cmd = record {
  id = record { id = (raw_id 3).id; group = 1 };
  status = pos 0;
  cmd = pos 1;
  backend = pos 3;
  trace = 0;
  flags = 0;
  trans = 9;
  size = 0;
}

abbrev pub sample_entry : StatEntry
sample_entry = record { cmd = sample_cmd; addr = sample_addr; stat = 123 ∷ []; err = none }

-- The reply of an enabled server with one enabled backend.
abbrev pub sample_vnode : VNode
sample_vnode = record {
  backend_id = pos 3;
  status = record {
    state = pos 1;
    defrag_state = pos 1;
    last_start = record { sec = 0; usec = 0 };
    last_start_err = pos 0;
    ro = true;
    delay = 0;
  };
  backend = record {
    config = record { group = 1; blob_flags = 0; blob_size = 100; blob_size_limit = 1000 };
    global_stats = record {
      data_sort_start_time = 4;
      data_sort_completion_time = 6;
      data_sort_completion_status = pos 0;
    };
    summary_stats = record {
      records_total = 12;
      records_removed = 2;
      records_removed_size = 20;
      records_corrupted = 0;
      base_size = 120;
    };
    vfs = record { bsize = 10; frsize = 10; blocks = 500; bfree = 300; bavail = 300 };
    dstat = record { read_sectors = 1; write_sectors = 2; io_ticks = 3 };
    error = record { code = pos 0 };
  };
  commands = [];
}

abbrev pub sample_reply : List ℕ → Response
sample_reply bytes = record {
  timestamp = record { sec = 7; usec = 250 };
  monitor_status = "enabled";
  backends = ("3", sample_vnode) ∷ [];
  commands = [];
}
