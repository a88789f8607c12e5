-- ===== src/TimeModule.antt =====
-- The Lua functions of lib/common/mlua.time.c over the values of Time.antt and Int64.antt. `now` is
-- the 64-bit time at the call; `none` is a raised error.
pub mod Interval
use micro_lua.Base.{
  ℕ, ◌+◌, ◌-◌, ◌%◌, ◌^◌, Bool, true, false, Option, none, some, ◌==◌, leb, ltb, if◌then◌else◌,
  ◌>>=◌,
}
use micro_lua.Value.{Value, nil, integer, int64}
use micro_lua.Time.{to_ticks64, ticks32, to_time, time_reached, is_time, deadline_value}
use micro_lua.Int64.{check_int64, push_minint}

-- `mlua_check_time`
pub check_time : Value → (now : ℕ) → Option ℕ
check_time (integer n) now = some (to_ticks64 n now)
check_time (int64 n) now = some n
check_time _ now = none

-- `mod_ticks` and `mod_ticks64`
pub ticks : (now : ℕ) → Value
ticks now = integer (ticks32 now)

pub ticks64 : (now : ℕ) → Value
ticks64 now = int64 now

-- `mod_compare`: -1 is a bit pattern of 32 bits.
pub compare_times : Value → Value → (now : ℕ) → Option Value
unfolding check_time
compare_times a b now = check_time a now >>= λ l. check_time b now >>= λ r.
    some (integer (if ltb l r then 2 ^ 32 - 1 else if l == r then 0 else 1))

-- `mod_diff`
pub diff : (from to : Value) → (now : ℕ) → Option Value
diff from to now = check_time from now >>= λ l.
    check_time to now >>= λ r. some (push_minint ((r + 2 ^ 64 - l) % 2 ^ 64))

-- `mod_deadline`
pub deadline : (delay : Value) → (now : ℕ) → Option Value
deadline delay now = check_int64 delay >>= λ d. some (deadline_value d now)

-- What `mod_sleep_until` does without blocking: it raises an error, returns, or suspends the thread
-- until the time and is called again.
pub data SleepStep : Type 0 where
  bad_time : SleepStep
  returns : SleepStep
  suspends : Value → SleepStep

pub sleep_until : Value → (now : ℕ) → SleepStep
sleep_until v now =
    if is_time v
    then (elim (time_reached v now) [
      | none ↦ bad_time
      | some b ↦ if b then returns else suspends v
    ])
    else bad_time

-- `mod_sleep_for`; a delay from 2 ^ 63 on is negative.
pub sleep_for : (delay : Value) → (now : ℕ) → SleepStep
sleep_for delay now = elim (check_int64 delay) [
  | none ↦ bad_time
  | some d ↦
      if d == 0
      then returns
      else if leb (2 ^ 63) d
      then returns
      else sleep_until (deadline_value d now) now
]
