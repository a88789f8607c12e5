-- ===== src/Event/Loop/System.antt =====
-- The scheduling loop of lib/common/mlua.thread.c together with the event queue of lib/pico/event.c,
-- which stays from round to round.
pub mod Rounds
use micro_lua.Base.{ℕ, zero, suc, Option, none, some, List, ◌>>=◌}
use micro_lua.Thread.{Tid, Sched}
use micro_lua.Thread.Loop.{
  dispatch_deadline, expire, pick, enter, after_resume, CoResult, RoundEnd, go_on, returned, raised,
}
use micro_lua.Event.{Events}
use micro_lua.Event.Loop.{Wakeup, dispatch}

-- What the loop and event dispatch do not do themselves: the clock is read, and a thread runs, which
-- may change the events and the scheduler, as interrupts may while it runs.
pub record System : Type 0 where
  pub ticks : Sched → ℕ
  pub run : Tid → Events → Sched → Events × Sched × CoResult

-- The run of the chosen thread, if there is one.
pub event_turn :
    (rounds : ℕ)
    → System
    → (next : Option Tid) → Events
    → Sched
    → Option (RoundEnd × Events × Sched)
event_turn rounds sys none q s = some (go_on none, q, s)
event_turn rounds sys (some r) q s =
    let (q', s', result) = sys.run r q (enter r s) in
    after_resume rounds (sys.ticks s') r result s' >>= λ (e, s''). some (e, q', s'')

-- A round of `mod_main`, with what happens in the waits of its event dispatch.
pub event_round :
    (wakeups : (deadline now : ℕ) → List Wakeup) (fuel rounds : ℕ)
    → System
    → (running : Option Tid) → Events
    → Sched
    → Option (RoundEnd × Events × Sched)
event_round wakeups fuel rounds sys running q s =
    let d = dispatch_deadline running s in
    dispatch (wakeups d (sys.ticks s)) fuel rounds d (sys.ticks s) q s >>= λ (q₁, s₁).
    expire rounds (sys.ticks s₁) s₁ >>= λ s₂.
    pick rounds running s₂ >>= λ (next, s₃). event_turn rounds sys next q₁ s₃

-- So many rounds of the loop, if main() does not end before.
pub event_rounds :
    (count : ℕ) (wakeups : (round deadline now : ℕ) → List Wakeup) (fuel rounds : ℕ)
    → System
    → (running : Option Tid) → Events
    → Sched
    → Option (RoundEnd × Events × Sched)
event_rounds zero wakeups fuel rounds sys running q s = some (go_on running, q, s)
event_rounds (suc k) wakeups fuel rounds sys running q s =
    event_round (wakeups k) fuel rounds sys running q s >>= λ (e, q', s'). elim e [
      | go_on running' ↦ event_rounds k wakeups fuel rounds sys running' q' s'
      | returned v ↦ some (returned v, q', s')
      | raised v ↦ some (raised v, q', s')
    ]
