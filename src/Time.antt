-- ===== src/Time.antt =====
-- Absolute times: lib/common/include_platform/mlua/platform_common.h, the time functions of
-- lib/common/include_mlua.int64/mlua/int64.h and of lib/common/mlua.int64.c, and
-- lib/common/mlua.time.c. Ticks are numbers below 2 ^ 64, short ticks are their low 32 bits.
pub mod Ticks
use micro_lua.Base.{
  ℕ, ◌+◌, ◌-◌, ◌*◌, ◌/◌, ◌%◌, ◌^◌, Bool, true, false, Option, none, some, ◌&&◌, ltb, leb,
  if◌then◌else◌,
}
use micro_lua.Value.{Value, integer, int64}

abbrev pub ticks_max : ℕ
ticks_max = 2 ^ 63 - 1

abbrev pub max_unsigned : ℕ
max_unsigned = 2 ^ 32 - 1

abbrev pub max_integer : ℕ
max_integer = 2 ^ 31 - 1

-- The bit pattern of the least lua_Integer.
abbrev pub min_integer : ℕ
min_integer = 2 ^ 31

pub timeout_deadline : (time timeout : ℕ) → ℕ
timeout_deadline time timeout =
    let t = (time + timeout) % 2 ^ 64 in if leb t ticks_max then t else ticks_max

-- `now & ~LUA_MAXUNSIGNED` clears the low 32 bits, which `ticks` then fills.
pub to_ticks64 : (ticks now : ℕ) → ℕ
to_ticks64 ticks now =
    let res = now / 2 ^ 32 * 2 ^ 32 + ticks in
    let t = now % 2 ^ 32 in
    if ltb t ticks && ltb max_integer (ticks - t)
    then (res + 2 ^ 64 - 2 ^ 32) % 2 ^ 64
    else if ltb ticks t && ltb min_integer (t - ticks)
    then (res + 2 ^ 32) % 2 ^ 64
    else res

-- `mlua_ticks`: the low bits of the clock.
pub ticks32 : ℕ → ℕ
ticks32 now = now % 2 ^ 32

unfoldable pub ticks64_reached : (ticks now : ℕ) → Bool
ticks64_reached ticks now = leb ticks now

-- The subtraction is one of lua_Unsigned.
pub ticks_reached : (ticks now : ℕ) → Bool
unfolding ticks32
ticks_reached ticks now = leb ((ticks32 now + 2 ^ 32 - ticks) % 2 ^ 32) max_integer

-- `mlua_is_time`
pub is_time : Value → Bool
is_time (integer n) = true
is_time (int64 n) = true
is_time _ = false

-- `mlua_to_time`; of another value it reads through a pointer that is not there: `none`.
unfoldable pub to_time : Value → (now : ℕ) → Option ℕ
unfolding to_ticks64
to_time (integer n) now = some (to_ticks64 n now)
to_time (int64 n) now = some n
to_time _ now = none

-- `mlua_time_reached`
pub time_reached : Value → (now : ℕ) → Option Bool
unfolding ticks_reached ticks64_reached
time_reached (integer n) now = some (ticks_reached n now)
time_reached (int64 n) now = some (ticks64_reached n now)
time_reached _ now = none

-- `mlua_push_deadline`
pub deadline_value : (timeout now : ℕ) → Value
unfolding ticks32
deadline_value timeout now =
    if leb timeout max_integer
    then integer ((ticks32 now + timeout) % 2 ^ 32)
    else int64 (timeout_deadline now timeout)
