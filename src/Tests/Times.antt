-- ===== src/Tests/Times.antt =====
-- The time functions at concrete times.
use micro_lua.Base.{◌+◌, ◌-◌, ◌^◌, ◌≡◌, arith}
use micro_lua.Time.{ticks32, ticks_reached, ticks64_reached}
use micro_lua.Time.Ticks.{ticks_reached-ticks32}

ticks_reached-ticks32_example :
    ticks_reached (ticks32 (2 ^ 32 + 5)) (2 ^ 32 - 7) ≡ ticks64_reached (2 ^ 32 + 5) (2 ^ 32 - 7)
ticks_reached-ticks32_example =
    ticks_reached-ticks32 (2 ^ 32 + 5) (2 ^ 32 - 7) (omega arith) (omega arith)
