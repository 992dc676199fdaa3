-- ===== src/Json.antt =====
-- elliptics/stat_json.go: the monitoring reply of a server, as encoding/json decodes it, and the
-- counters that are summed over its layers. The JSON tags and the decoder are not modelled. Of
-- Config, BlobStats, VStat and DStatRaw the fields that no Go code reads are left out.
pub mod Counters
use elliptics_go.Base.{ℕ, String, Bool}
use elliptics_go.Base.Int.{ℤ}
use elliptics_go.Base.Dict.{Dict}
use Counters.{Command}

pub record JsonTime : Type 0 where
  pub sec : ℕ
  pub usec : ℕ

pub record Status : Type 0 where
  pub state : ℤ
  pub defrag_state : ℤ
  pub last_start : JsonTime
  pub last_start_err : ℤ
  pub ro : Bool
  pub delay : ℕ

pub record Config : Type 0 where
  pub group : ℕ
  pub blob_flags : ℕ
  pub blob_size : ℕ
  pub blob_size_limit : ℕ

pub record GlobalStats : Type 0 where
  pub data_sort_start_time : ℕ
  pub data_sort_completion_time : ℕ
  pub data_sort_completion_status : ℤ

pub record BlobStats : Type 0 where
  pub records_total : ℕ
  pub records_removed : ℕ
  pub records_removed_size : ℕ
  pub records_corrupted : ℕ
  pub base_size : ℕ

pub record VStat : Type 0 where
  pub bsize : ℕ
  pub frsize : ℕ
  pub blocks : ℕ
  pub bfree : ℕ
  pub bavail : ℕ

pub record DStatRaw : Type 0 where
  pub read_sectors : ℕ
  pub write_sectors : ℕ
  pub io_ticks : ℕ

pub record BackendError : Type 0 where
  pub code : ℤ

pub record Backend : Type 0 where
  pub config : Config
  pub global_stats : GlobalStats
  pub summary_stats : BlobStats
  pub vfs : VStat
  pub dstat : DStatRaw
  pub error : BackendError

pub record VNode : Type 0 where
  pub backend_id : ℤ
  pub status : Status
  pub backend : Backend
  pub commands : Dict String Command

pub record Response : Type 0 where
  pub timestamp : JsonTime
  pub monitor_status : String
  pub backends : Dict String VNode
  pub commands : Dict String Command
