-- ===== src/Event/Loop.antt =====
-- `mlua_event_dispatch` of lib/pico/event.c and of lib/host/event.c as a whole: events are handled
-- and waited for until a thread has been resumed or the deadline is reached. What happens in the
-- waits, the calls of mlua_wait, is an argument.
pub mod Returns
pub mod System
use micro_lua.Base.{
  ℕ, Bool, false, Option, none, some, List, [], ◌∷◌, ◌==◌, ◌||◌, if◌then◌else◌, ◌>>=◌,
}
use micro_lua.Time.{ticks64_reached}
use micro_lua.Thread.{Tid, Sched}
use micro_lua.Event.{Ev, Events, set, drain}

-- The end of a wait: the events that interrupts set before it, and the clock after it.
pub record Wakeup : Type 0 where
  pub arrivals : List Ev
  pub now : ℕ

pub arrive : List Ev → Events → Option Events
arrive [] q = some q
arrive (e ∷ es) q = set e q >>= λ q'. arrive es q'

-- The outer loop: `none` if all wake-ups are used and it still waits, or if `fuel` or `rounds` run
-- out.
pub dispatch_loop :
    List Wakeup
    → (fuel rounds deadline now : ℕ) → (wake : Bool) → Events
    → Sched
    → Option (Events × Sched)
dispatch_loop [] fuel rounds deadline now wake q s = drain fuel rounds wake q s >>= λ (w, q', s').
    if w || ticks64_reached deadline now then some (q', s') else none
dispatch_loop (u ∷ us) fuel rounds deadline now wake q s =
    drain fuel rounds wake q s >>= λ (w, q', s').
    if w || ticks64_reached deadline now
    then some (q', s')
    else (arrive u.arrivals q' >>= λ q''. dispatch_loop us fuel rounds deadline u.now false q'' s')

-- MLUA_TICKS_MIN is 0.
pub dispatch :
    List Wakeup → (fuel rounds deadline now : ℕ) → Events → Sched → Option (Events × Sched)
dispatch us fuel rounds deadline now q s =
    dispatch_loop us fuel rounds deadline now (deadline == 0) q s

-- On the host there are no events: the clock when the loop returns, from what it says after each
-- wait.
pub host_loop : List ℕ → (deadline now : ℕ) → (wake : Bool) → Option ℕ
host_loop [] deadline now wake = if wake || ticks64_reached deadline now then some now else none
host_loop (t ∷ ts) deadline now wake =
    let rest = host_loop ts deadline t false in
    if wake || ticks64_reached deadline now then some now else rest

pub host_dispatch : List ℕ → (deadline now : ℕ) → Option ℕ
host_dispatch ts deadline now = host_loop ts deadline now (deadline == 0)
