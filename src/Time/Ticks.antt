-- ===== src/Time/Ticks.antt =====
-- Short ticks, deadlines and the clock: what the time functions of platform_common.h and int64.h
-- compute, in terms of the 64-bit time that is meant.
use micro_lua.Base.{
  ℕ, ◌+◌, ◌-◌, ◌%◌, ◌^◌, ◌≤◌, ◌<◌, ◌≡◌, refl, true, some, subst, ap, ◌∙◌, inl, inr, Bool-cases,
  arith, leb, min,
}
use micro_lua.Value.{Value, nil, boolean, integer, int64, string, other}
use micro_lua.Time.{
  is_time, ticks_max, max_integer, timeout_deadline, to_ticks64, ticks32, ticks64_reached,
  ticks_reached, to_time, deadline_value,
}

-- A short tick value stands for the one time in the 2 ^ 32 ticks round `now`, from 2 ^ 31 before
-- it to 2 ^ 31 - 1 after it: the low bits of such a time give it back, also where they wrap.
pub to_ticks64-ticks32 :
    (time now : ℕ)
    → time < 2 ^ 64
    → now < 2 ^ 64
    → time ≤ now + max_integer
    → now ≤ time + 2 ^ 31
    → to_ticks64 (ticks32 time) now ≡ time
unfolding to_ticks64 ticks32
to_ticks64-ticks32 time now ht hn near near' = ground arith

-- For a time from 2 ^ 31 - 1 ticks before `now` to 2 ^ 31 after it the test on short ticks is the
-- test on 64-bit ticks.
pub ticks_reached-ticks32 :
    (time now : ℕ)
    → time ≤ now + 2 ^ 31
    → now ≤ time + max_integer
    → ticks_reached (ticks32 time) now ≡ ticks64_reached time now
unfolding ticks_reached ticks64_reached ticks32
ticks_reached-ticks32 time now near near' = ground arith

-- A timeout below 2 ^ 63 gives the sum, held at MLUA_TICKS_MAX; one that is the bit pattern of a
-- negative delay -d gives the time d ticks earlier.
pub timeout_deadline_lem :
    (time timeout d : ℕ)
    → time ≤ ticks_max
    → (timeout ≤ ticks_max → timeout_deadline time timeout ≡ min (time + timeout) ticks_max)
      × (0 < d → d ≤ time → timeout_deadline time (2 ^ 64 - d) ≡ time - d)
unfolding timeout_deadline
timeout_deadline_lem time timeout d h = (λ k. ground arith, λ p k. ground arith)

low_bits : (timeout now : ℕ) → ticks32 (now + timeout) ≡ (ticks32 now + timeout) % 2 ^ 32
unfolding ticks32
low_bits timeout now = omega arith

short_deadline :
    (timeout now : ℕ)
    → now + max_integer ≤ ticks_max
    → timeout ≤ max_integer
    → to_ticks64 ((ticks32 now + timeout) % 2 ^ 32) now ≡ now + timeout
short_deadline timeout now h k =
    subst (λ t. to_ticks64 t now ≡ now + timeout) (low_bits timeout now)
      (to_ticks64-ticks32 (now + timeout) now (omega arith) (omega arith) (omega arith)
        (omega arith))

-- A deadline that is pushed as an integer or as an Int64, for a timeout below 2 ^ 63, and read
-- back at the same time is the time of the clock plus the timeout, held at MLUA_TICKS_MAX, while
-- the clock is more than 2 ^ 31 ticks before that.
pub to_time-deadline_value :
    (timeout now : ℕ)
    → now + max_integer ≤ ticks_max
    → timeout ≤ ticks_max
    → to_time (deadline_value timeout now) now ≡ some (min (now + timeout) ticks_max)
unfolding to_time deadline_value
to_time-deadline_value timeout now h k = elim (Bool-cases (leb timeout max_integer)) [
  | inl e ↦ rw e (ap some (short_deadline timeout now h (ground arith) ∙ ground arith))
  | inr e ↦ rw e (ap some ((timeout_deadline_lem now timeout 0 (omega arith)).0 k))
]

-- What `mlua_is_time` accepts, `mlua_to_time` can read.
pub to_time-is_time : (v : Value) (now : ℕ) → is_time v ≡ true → (d : ℕ) × (to_time v now ≡ some d)
unfolding to_time is_time
to_time-is_time (integer n) now h = (_, refl)
to_time-is_time (int64 n) now h = (n, refl)
to_time-is_time nil now h = absurd (ground arith)
to_time-is_time (boolean b) now h = absurd (ground arith)
to_time-is_time (string b) now h = absurd (ground arith)
to_time-is_time (other b) now h = absurd (ground arith)
