-- ===== src/Wire/Time.antt =====
-- Instants, as Go's time.Unix builds them: nanoseconds since the epoch.
use elliptics_go.Base.{if◌then◌else◌, ◌^◌, ◌-◌}
use elliptics_go.Base.Int.{ℤ, pos, negsuc, ◌+ℤ◌, ◌-ℤ◌, scale, ltb_ℤ}

-- time.Unix(sec, nsec), for instants within the range of time.Time: Go counts the seconds since the
-- year 1 in an int64, which wraps beyond that.
unfoldable pub unix : ℤ → ℤ → ℤ
unfolding scale ◌+ℤ◌
unix sec nsec = scale sec 1_000_000_000 +ℤ nsec

-- t.Sub(u), which saturates at the ends of int64
unfoldable pub time_sub : ℤ → ℤ → ℤ
unfolding ◌-ℤ◌
time_sub t u =
    let d = t -ℤ u in
    if ltb_ℤ (pos (2 ^ 63 - 1)) d
    then pos (2 ^ 63 - 1)
    else if ltb_ℤ d (negsuc (2 ^ 63 - 1))
    then negsuc (2 ^ 63 - 1)
    else d
