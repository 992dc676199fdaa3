-- ===== src/Stat/Diff.antt =====
-- (stat *DnetStat) Diff of elliptics/stat.go: rates from two samples of the counters. Each of its
-- three nested loops is an `update_common`, the loop over prev.Group is `add_missing`.
pub mod Laws
use elliptics_go.Base.{
  ℕ, ◌≡◌, List, [], ◌∷◌, Option, none, some, Bool, true, false, String, if◌then◌else◌,
}
use elliptics_go.Base.Int.{ℤ}
use elliptics_go.Base.Word.{sub64, mul64}
use elliptics_go.Base.Dict.{Dict, update_common, add_missing}
use elliptics_go.Base.Eq.{nat_eq, string_eq}
use elliptics_go.Base.Float.{Floats}
use elliptics_go.Wire.Time.{time_sub}
use elliptics_go.Stat.Types.{
  AddressBackend, StatBackend, StatGroup, DnetStat, CStat, DStat, address_backend_eq,
}

abbrev pub stat_sector_size : ℕ
stat_sector_size = 512

-- The argument `prev`: nil, the receiver itself, or other statistics.
pub data Previous (F : Type 0) : Type 0 where
  nil same : Previous F
  other : DnetStat F → Previous F

module _ {F : Type 0} ⦃fl : Floats F⦄ where
  -- float64(new-old) / duration, the difference taken in uint64
  unfoldable pub rate : F → ℕ → ℕ → F
  rate duration new old = fl.div (fl.of_uint64 (sub64 new old)) duration

  unfoldable pub diff_command : F → CStat F → CStat F → CStat F
  unfolding rate
  diff_command duration c p = record c {
    rps_success = rate duration c.requests_success p.requests_success;
    rps_failures = rate duration c.requests_failures p.requests_failures;
    bps = rate duration c.bytes p.bytes;
  }

  unfoldable pub diff_dstat : F → DStat F → DStat F → DStat F
  diff_dstat duration d p = record d {
    wbs = fl.div (fl.of_uint64 (mul64 (sub64 d.wsectors p.wsectors) stat_sector_size)) duration;
    rbs = fl.div (fl.of_uint64 (mul64 (sub64 d.rsectors p.rsectors) stat_sector_size)) duration;
    util =
        fl.div (fl.div (fl.of_uint64 (sub64 d.io_ticks p.io_ticks)) (fl.literal 10000 1)) duration;
  }

  unfoldable pub diff_backend : F → StatBackend F → StatBackend F → StatBackend F
  unfolding diff_dstat
  diff_backend duration b p = record b {
    pid = p.pid;
    dstat = diff_dstat duration b.dstat p.dstat;
    commands = update_common (diff_command duration) p.commands b.commands;
  }

  unfoldable pub diff_group : F → StatGroup F → StatGroup F → StatGroup F
  diff_group duration sg psg = record { ab = update_common (diff_backend duration) psg.ab sg.ab }

  unfoldable pub diff : DnetStat F → Previous F → DnetStat F
  diff stat nil = stat
  diff stat same = stat
  diff stat (other prev) =
      let duration = fl.seconds (time_sub stat.time prev.time) in
      record stat {
        group = add_missing prev.group (update_common (diff_group duration) prev.group stat.group);
      }
