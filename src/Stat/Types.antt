-- ===== src/Stat/Types.antt =====
-- The data of elliptics/stat.go. `F` is float64. A pointer to a StatBackend or a StatGroup is held
-- by one map of one DnetStat, so the maps hold the values themselves; where Diff shares a group
-- between two DnetStat, the model has a copy. The lock of PID is left out.
use elliptics_go.Base.{ℕ, Bool, true, false, String, List, [], ◌≡◌, ◌↔◌, arith, ◌&&◌, eqb, eqb_iff}
use elliptics_go.Base.Int.{ℤ, pos, eqb_ℤ, eqb_ℤ_iff}
use elliptics_go.Base.Dict.{Dict}
use elliptics_go.Base.Eq.{Eq, bytes_eqb, bytes_eqb_iff}
use elliptics_go.Base.Float.{Floats}
use elliptics_go.Json.{BackendError}
use elliptics_go.Wire.{DnetRawId}

-- Addr is an array of 32 bytes.
pub record RawAddr : Type 0 where
  pub addr : List ℕ
  pub len : ℕ
  pub family : ℕ

pub record AddressBackend : Type 0 where
  pub addr : RawAddr
  pub backend : ℤ

-- Go compares structures field by field.
unfoldable pub address_backend_eqb : AddressBackend → AddressBackend → Bool
address_backend_eqb a b =
    bytes_eqb a.addr.addr b.addr.addr
    && (eqb a.addr.len b.addr.len && (eqb a.addr.family b.addr.family && eqb_ℤ a.backend b.backend))

pub address_backend_eqb_iff : (a b : AddressBackend) → (address_backend_eqb a b ≡ true) ↔ (a ≡ b)
unfolding address_backend_eqb
address_backend_eqb_iff a b = ground (
  arith,
  bytes_eqb_iff a.addr.addr b.addr.addr,
  eqb_iff a.addr.len b.addr.len,
  eqb_iff a.addr.family b.addr.family,
  eqb_ℤ_iff a.backend b.backend,
)

instance abbrev pub address_backend_eq : Eq AddressBackend
address_backend_eq = record { equal = address_backend_eqb; equal_iff = address_backend_eqb_iff }

pub record Vfs : Type 0 where
  pub total : ℕ
  pub avail : ℕ
  pub total_size_limit : ℕ
  pub backend_removed_size : ℕ
  pub backend_used_size : ℕ
  pub records_total : ℕ
  pub records_removed : ℕ
  pub records_corrupted : ℕ

pub record CStat (F : Type 0) : Type 0 where
  pub requests_success : ℕ
  pub requests_failures : ℕ
  pub bytes : ℕ
  pub rps_failures : F
  pub rps_success : F
  pub bps : F

pub record DStat (F : Type 0) : Type 0 where
  pub wsectors : ℕ
  pub rsectors : ℕ
  pub io_ticks : ℕ
  pub wbs : F
  pub rbs : F
  pub util : F

pub record Pid (F : Type 0) : Type 0 where
  pub error : F
  pub integral_error : F
  pub error_time : ℤ
  pub pain : F

pub record StatBackend (F : Type 0) : Type 0 where
  pub error : BackendError
  pub id : List DnetRawId
  pub sum : ℕ
  pub percentage : F
  pub defrag_state : ℤ
  pub defrag_state_str : String
  pub defrag_start_time : ℤ
  pub defrag_completion_time : ℤ
  pub defrag_completion_status : ℤ
  pub ro : Bool
  pub delay : ℕ
  pub vfs : Vfs
  pub dstat : DStat F
  pub pid : Pid F
  pub commands : Dict String (CStat F)

pub record StatGroup (F : Type 0) : Type 0 where
  pub ab : Dict AddressBackend (StatBackend F)

pub record DnetStat (F : Type 0) : Type 0 where
  pub time : ℤ
  pub group : Dict ℕ (StatGroup F)

abbrev pub zero_vfs : Vfs
zero_vfs = record {
  total = 0;
  avail = 0;
  total_size_limit = 0;
  backend_removed_size = 0;
  backend_used_size = 0;
  records_total = 0;
  records_removed = 0;
  records_corrupted = 0;
}

-- The time before any time.Time is set is the year 1.
abbrev pub zero_time : ℤ
zero_time = ℤ.negsuc 62_135_596_799_999_999_999

module _ {F : Type 0} ⦃fl : Floats F⦄ where
  abbrev pub float_zero : F
  float_zero = fl.of_uint64 0

  abbrev pub zero_dstat : DStat F
  zero_dstat = record {
    wsectors = 0;
    rsectors = 0;
    io_ticks = 0;
    wbs = float_zero;
    rbs = float_zero;
    util = float_zero;
  }

  unfoldable pub new_pid_controller : ℤ → Pid F
  new_pid_controller now = record {
    error = float_zero;
    integral_error = float_zero;
    error_time = now;
    pain = float_zero;
  }

  -- `now` is the clock's reading when the controller is made.
  unfoldable pub new_stat_backend : ℤ → StatBackend F
  unfolding new_pid_controller
  new_stat_backend now = record {
    error = record { code = pos 0 };
    id = [];
    sum = 0;
    percentage = float_zero;
    defrag_state = pos 0;
    defrag_state_str = "";
    defrag_start_time = zero_time;
    defrag_completion_time = zero_time;
    defrag_completion_status = pos 0;
    ro = false;
    delay = 0;
    vfs = zero_vfs;
    dstat = zero_dstat;
    pid = new_pid_controller now;
    commands = [];
  }

unfoldable pub new_stat_group : {F : Type 0} → StatGroup F
new_stat_group = record { ab = [] }
