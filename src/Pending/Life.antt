-- ===== src/Pending/Life.antt =====
-- The age that `toNow` gives, against the time that has passed.
use ad_rtb_adapter.Base.Int.{◌-ℤ◌}
use ad_rtb_adapter.Base.{ℕ, ◌+◌, ◌*◌, ◌-◌, ◌≤◌, ◌<◌, ◌≡◌, arith}
use ad_rtb_adapter.Pending.{Time, to_now}

abbrev pub microseconds : Time → ℕ
microseconds t = t.second * 1000000 + t.microsecond

-- `toNow` gives the time that has passed, and twice what the microsecond of `now` is below that of
-- the start too much. Conditions: the microseconds are below a million, `now` is not before the
-- start, and not more than 4000 seconds behind it.
pub to_now_lem :
    (now t : Time)
    → now.microsecond < 1000000
    → t.microsecond < 1000000
    → microseconds t ≤ microseconds now
    → now.second ≤ t.second + 4000
    → to_now now t + microseconds t ≡ microseconds now + 2 * (t.microsecond - now.microsecond)
unfolding to_now ◌-ℤ◌
to_now_lem now t hn ht order near = ground arith
