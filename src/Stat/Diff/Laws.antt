-- ===== src/Stat/Diff/Laws.antt =====
-- Diff, place by place.
use elliptics_go.Base.{ℕ, ◌+◌, ◌-◌, ◌*◌, ◌%◌, ◌≡◌, ◌∙◌, refl, Option, none, some, ◌>>=◌, String}
use elliptics_go.Base.Word.{sub64, mul64, u64_mod}
use elliptics_go.Base.Dict.{
  lookup, paired, either_value, update_common, lookup-update_common, lookup-add_missing,
}
use elliptics_go.Base.Eq.{nat_eq, string_eq}
use elliptics_go.Base.Float.{Floats}
use elliptics_go.Wire.Time.{time_sub}
use elliptics_go.Stat.Types.{
  AddressBackend, StatBackend, StatGroup, DnetStat, CStat, address_backend_eq,
}
use elliptics_go.Stat.Find.{backend_at}
use elliptics_go.Stat.Diff.{other, rate, diff_command, diff_dstat, diff_backend, diff_group, diff}

module _ {F : Type 0} ⦃fl : Floats F⦄ where
  abbrev pub duration_of : DnetStat F → DnetStat F → F
  duration_of stat prev = fl.seconds (time_sub stat.time prev.time)

  -- The backend of a group that the new statistics, the old ones, both or none have.
  abbrev pub diffed :
      F → AddressBackend → Option (StatGroup F) → Option (StatGroup F) → Option (StatBackend F)
  diffed duration a none none = none
  diffed duration a none (some psg) = lookup a psg.ab
  diffed duration a (some sg) none = lookup a sg.ab
  diffed duration a (some sg) (some psg) =
      paired (diff_backend duration) (lookup a sg.ab) (lookup a psg.ab)

  merged-diffed :
      (d : F) (a : AddressBackend) (o p : Option (StatGroup F))
      → (either_value (paired (diff_group d) o p) p >>= λ sg. lookup a sg.ab) ≡ diffed d a o p
  unfolding diff_group
  merged-diffed d a none none = refl
  merged-diffed d a none (some psg) = refl
  merged-diffed d a (some sg) none = refl
  merged-diffed d a (some sg) (some psg) = lookup-update_common (diff_backend d) a psg.ab sg.ab

  -- The growth of a counter modulo 2^64, per second.
  abbrev pub per_second : F → ℕ → ℕ → F
  per_second d new old = fl.div (fl.of_uint64 ((new + u64_mod - old) % u64_mod)) d

  -- A command of the new backend `c`, beside that of the old one.
  abbrev pub command_rates : F → Option (CStat F) → Option (CStat F) → Option (CStat F)
  command_rates d none p = none
  command_rates d (some c) none = some c
  command_rates d (some c) (some p) = some (record {
    requests_success = c.requests_success;
    requests_failures = c.requests_failures;
    bytes = c.bytes;
    rps_failures = per_second d c.requests_failures p.requests_failures;
    rps_success = per_second d c.requests_success p.requests_success;
    bps = per_second d c.bytes p.bytes;
  })

  -- What a new backend `b` beside an old one `p` becomes: rates from both, the controller of the old
  -- one, and all else its own.
  pub record Rated (d : F) (b p c : StatBackend F) : Type 0 where
    pub controller : c.pid ≡ p.pid
    pub disk : c.dstat ≡ record {
      wsectors = b.dstat.wsectors;
      rsectors = b.dstat.rsectors;
      io_ticks = b.dstat.io_ticks;
      wbs =
          fl.div
            (fl.of_uint64
              ((b.dstat.wsectors + u64_mod - p.dstat.wsectors) % u64_mod * 512 % u64_mod))
            d;
      rbs =
          fl.div
            (fl.of_uint64
              ((b.dstat.rsectors + u64_mod - p.dstat.rsectors) % u64_mod * 512 % u64_mod))
            d;
      util =
          fl.div
            (fl.div
              (fl.of_uint64 ((b.dstat.io_ticks + u64_mod - p.dstat.io_ticks) % u64_mod))
              (fl.literal 10000 1))
            d;
    }
    pub commands :
        (name : String)
        → lookup name c.commands ≡ command_rates d (lookup name b.commands) (lookup name p.commands)
    pub shares : (c.id ≡ b.id) × (c.sum ≡ b.sum) × (c.percentage ≡ b.percentage)
    pub state :
        (c.error ≡ b.error)
        × (c.vfs ≡ b.vfs)
        × (c.ro ≡ b.ro)
        × (c.delay ≡ b.delay)
        × (c.defrag_state ≡ b.defrag_state)
        × (c.defrag_state_str ≡ b.defrag_state_str)
        × (c.defrag_start_time ≡ b.defrag_start_time)
        × (c.defrag_completion_time ≡ b.defrag_completion_time)
        × (c.defrag_completion_status ≡ b.defrag_completion_status)

  rated_one : (d : F) (c o : Option (CStat F)) → paired (diff_command d) c o ≡ command_rates d c o
  unfolding diff_command rate sub64
  rated_one d none o = refl
  rated_one d (some c) none = refl
  rated_one d (some c) (some o) = refl

  diff_backend-Rated : (d : F) (b p : StatBackend F) → Rated d b p (diff_backend d b p)
  unfolding diff_backend diff_dstat sub64 mul64
  diff_backend-Rated d b p = record {
    controller = refl;
    disk = refl;
    commands = λ name.
        lookup-update_common (diff_command d) name p.commands b.commands
        ∙ rated_one d (lookup name b.commands) (lookup name p.commands);
    shares = (refl, refl, refl);
    state = (refl, refl, refl, refl, refl, refl, refl, refl, refl);
  }

  -- A place after the Diff, by where the backend was: only in the new group it is left alone, only
  -- in the old one it is lost, in both it is rated.
  abbrev pub InBoth :
      F → Option (StatBackend F) → Option (StatBackend F) → Option (StatBackend F) → Type 0
  InBoth d none p r = r ≡ none
  InBoth d (some b) none r = r ≡ some b
  InBoth d (some b) (some p) r = (c : StatBackend F) × (r ≡ some c) × Rated d b p c

  -- By where the group was: in one of the two only, it is as it was there.
  abbrev pub Merged :
      F
      → AddressBackend
      → Option (StatGroup F)
      → Option (StatGroup F)
      → Option (StatBackend F)
      → Type 0
  Merged d a none none r = r ≡ none
  Merged d a none (some psg) r = r ≡ lookup a psg.ab
  Merged d a (some sg) none r = r ≡ lookup a sg.ab
  Merged d a (some sg) (some psg) r = InBoth d (lookup a sg.ab) (lookup a psg.ab) r

  paired-InBoth :
      (d : F) (b p r : Option (StatBackend F)) → r ≡ paired (diff_backend d) b p → InBoth d b p r
  paired-InBoth d none p r e = e
  paired-InBoth d (some b) none r e = e
  paired-InBoth d (some b) (some p) r e = (diff_backend d b p, e, diff_backend-Rated d b p)

  diffed-Merged :
      (d : F) (a : AddressBackend) (o p : Option (StatGroup F)) (r : Option (StatBackend F))
      → r ≡ diffed d a o p
      → Merged d a o p r
  diffed-Merged d a none none r e = e
  diffed-Merged d a none (some psg) r e = e
  diffed-Merged d a (some sg) none r e = e
  diffed-Merged d a (some sg) (some psg) r e =
      paired-InBoth d (lookup a sg.ab) (lookup a psg.ab) r e

  -- After a Diff against other statistics, a group that only one of the two has is as it was there.
  -- In a group of both, a backend that only the new statistics have is left alone, and one that only
  -- the old ones have is lost. A backend of both keeps its own counters, shares and state and takes
  -- the controller of the old one. Its rates are the growths of its counters from old to new, modulo
  -- 2 ^ 64, over the time between the samples: of each command that both have (sectors are 512
  -- bytes, and the use of the disk is in milliseconds of a second). A command that only the new one
  -- has is left alone.
  pub diff-places :
      (stat prev : DnetStat F) (g : ℕ) (a : AddressBackend)
      → Merged
          (duration_of stat prev)
          a
          (lookup g stat.group)
          (lookup g prev.group)
          (backend_at g a (diff stat (other prev)))
  unfolding diff backend_at
  diff-places stat prev g a =
      let d = duration_of stat prev in
      diffed-Merged d a (lookup g stat.group) (lookup g prev.group)
        (backend_at g a (diff stat (other prev)))
        (rw
          (
            lookup-add_missing g prev.group (update_common (diff_group d) prev.group stat.group),
            lookup-update_common (diff_group d) g prev.group stat.group,
          )
          (merged-diffed d a (lookup g stat.group) (lookup g prev.group)))
