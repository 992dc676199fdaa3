-- ===== src/Stat/Pid.antt =====
-- The Pid controller of elliptics/stat.go: PIDPain and PIDUpdate. The lock makes each call one
-- step; the clock is read twice in an update, and both readings are arguments.
use elliptics_go.Base.{if◌then◌else◌}
use elliptics_go.Base.Int.{ℤ}
use elliptics_go.Base.Float.{Floats}
use elliptics_go.Wire.Time.{time_sub}
use elliptics_go.Stat.Types.{Pid, StatBackend, float_zero}

module _ {F : Type 0} ⦃fl : Floats F⦄ where
  abbrev pub pid_ke : F
  pid_ke = fl.literal 10 1

  abbrev pub pid_ki : F
  pid_ki = fl.literal 0 0

  abbrev pub pid_kd : F
  pid_kd = fl.literal 3 1

  -- The force of an update, before the clamp.
  unfoldable pub force : F → F → Pid F → F
  force e delta_t p =
      let integral_new = fl.add (fl.mul e delta_t) p.integral_error in
      let diff = fl.div (fl.sub e p.error) delta_t in
      fl.add (fl.add (fl.mul e pid_ke) (fl.mul integral_new pid_ki)) (fl.mul diff pid_kd)

  -- What replaces a force that is not positive.
  unfoldable pub relief : F → F
  relief pain = fl.add (fl.div pain (fl.literal 20 1)) (fl.literal 10 1)

  unfoldable pub pid_step : F → ℤ → ℤ → Pid F → Pid F
  unfolding force relief
  pid_step e since_now now p =
      let delta_t = fl.seconds (time_sub since_now p.error_time) in
      let u = force e delta_t p in
      record {
        error = e;
        integral_error = fl.add (fl.mul e delta_t) p.integral_error;
        error_time = now;
        pain = if fl.le u float_zero then relief p.pain else u;
      }

  unfoldable pub pid_pain : StatBackend F → F
  pid_pain b = b.pid.pain

  unfoldable pub pid_update : F → ℤ → ℤ → StatBackend F → StatBackend F
  unfolding pid_step
  pid_update e since_now now b = record b { pid = pid_step e since_now now b.pid }
