-- ===== src/TimeModule/Interval.antt =====
-- Differences of times and deadlines in lib/common/mlua.time.c.
use micro_lua.Base.{ℕ, ◌+◌, ◌-◌, ◌%◌, ◌^◌, ◌≤◌, ◌≡◌, refl, ◌∙◌, ap, some, arith, ◌>>=◌, min}
use micro_lua.Value.{Value, nil, boolean, integer, int64, string, other}
use micro_lua.Time.{ticks_max, max_integer, to_time, deadline_value}
use micro_lua.Time.Ticks.{to_time-deadline_value}
use micro_lua.Int64.{check_int64, push_minint}
use micro_lua.Int64.Convert.{check_int64-push_minint}
use micro_lua.TimeModule.{check_time, diff, deadline, ticks64}

check_time_lem : (v : Value) (now : ℕ) → check_time v now ≡ to_time v now
unfolding check_time to_time
check_time_lem (integer n) now = refl
check_time_lem (int64 n) now = refl
check_time_lem nil now = refl
check_time_lem (boolean b) now = refl
check_time_lem (string s) now = refl
check_time_lem (other b) now = refl

diff_at :
    (v : Value) (now r : ℕ)
    → check_time v now ≡ some r
    → diff (ticks64 now) v now ≡ some (push_minint ((r + 2 ^ 64 - now) % 2 ^ 64))
unfolding diff ticks64 check_time
diff_at v now r e = ap (λ o. o >>= λ r. some (push_minint ((r + 2 ^ 64 - now) % 2 ^ 64))) e

difference :
    (now d : ℕ)
    → now + max_integer ≤ ticks_max
    → d ≤ ticks_max
    → diff (ticks64 now) (deadline_value d now) now ≡ some (push_minint (min d (ticks_max - now)))
difference now d near small =
    diff_at (deadline_value d now) now (min (now + d) ticks_max)
      (check_time_lem (deadline_value d now) now ∙ to_time-deadline_value d now near small)
    ∙ ap (λ n. some (push_minint n)) (omega arith)

-- The difference from the time at the call to the deadline of a delay that is not negative, both
-- read at that call, is the delay, unless the deadline would be behind MLUA_TICKS_MAX: it is the
-- time left up to that then. This holds for short deadlines, which are integers, and for long
-- ones, while the clock is more than 2 ^ 31 ticks before MLUA_TICKS_MAX.
pub diff-deadline :
    (delay : Value) (now d : ℕ)
    → now + max_integer ≤ ticks_max
    → check_int64 delay ≡ some d
    → d ≤ ticks_max
    → (v w : Value) × (deadline delay now ≡ some v)
      × (diff (ticks64 now) v now ≡ some w)
      × (check_int64 w ≡ some (min d (ticks_max - now)))
unfolding diff deadline ticks64
diff-deadline delay now d near read small = (
  deadline_value d now,
  push_minint (min d (ticks_max - now)),
  rw read refl,
  difference now d near small,
  check_int64-push_minint (min d (ticks_max - now)) (omega arith),
)
