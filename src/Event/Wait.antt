-- ===== src/Event/Wait.antt =====
-- Waits for events, and threads that handle them: mlua_event_wait, mlua_event_can_wait and
-- mlua_event_handle of lib/common/mlua.thread.c. Several events stand in an array, and a mask says
-- which of those after the first one count.
pub mod Mask
pub mod Wakes
use micro_lua.Base.{
  ℕ, zero, suc, ◌+◌, ◌*◌, ◌/◌, ◌%◌, ◌^◌, Bool, true, false, Option, none, some, List, [], ◌∷◌, ◌==◌,
  ◌||◌, ◌&&◌, not, if◌then◌else◌, ◌>>=◌,
}
use micro_lua.Bits.{trailing_zeros}
use micro_lua.Value.{Value, nil}
use micro_lua.Time.{is_time, time_reached}
use micro_lua.Thread.{Tid, Sched}
use micro_lua.Thread.Loop.{CoResult, yielded}
use micro_lua.Thread.Life.{start, kill, KillResult}
use micro_lua.Event.{Ev, Events, is_enabled, watch_event, unwatch_event}

-- `next_event`: an event takes 4 bytes.
pub next_event : Ev → (mask : ℕ) → Ev × ℕ
next_event ev mask = let bit = trailing_zeros 32 mask + 1 in (ev + 4 * bit, mask / 2 ^ bit)

-- The loops over the events of a mask. `none`: the rounds ran out.
pub watch_events : (rounds : ℕ) → Tid → Ev → (mask : ℕ) → Events → Option Events
watch_events zero t ev mask q = none
watch_events (suc k) t ev mask q =
    let rest =
      watch_events k t (next_event ev mask).0 (next_event ev mask).1 (watch_event t ev q) in
    if mask == 0 then some (watch_event t ev q) else rest

pub unwatch_events : (rounds : ℕ) → Ev → (mask : ℕ) → Events → Option Events
unwatch_events zero ev mask q = none
unwatch_events (suc k) ev mask q =
    let rest =
      unwatch_events k (next_event ev mask).0 (next_event ev mask).1 (unwatch_event ev q) in
    if mask == 0 then some (unwatch_event ev q) else rest

pub all_enabled : (rounds : ℕ) → Ev → (mask : ℕ) → Events → Option Bool
all_enabled zero ev mask q = none
all_enabled (suc k) ev mask q =
    let rest = all_enabled k (next_event ev mask).0 (next_event ev mask).1 q in
    if not (is_enabled (q.state ev)) then some false else if mask == 0 then some true else rest

-- `mlua_event_can_wait`
pub can_wait : (rounds : ℕ) → (running : Tid) → Ev → (mask : ℕ) → Events → Sched → Option Bool
can_wait rounds running ev mask q s =
    if s.blocking running then some false else all_enabled rounds ev mask q

-- What a step of a wait does: it returns what its function did, raises an error about the deadline,
-- or suspends the thread with the deadline.
pub data WaitStep : Type 0 where
  returns : ℕ → WaitStep
  bad_deadline : WaitStep
  suspends : Value → WaitStep

abbrev pub is_deadline : Value → Bool
is_deadline nil = true
is_deadline v = is_time v

-- `mlua_event_wait`, by what the function `loop` returned, where `none` is a negative value.
-- Without a deadline the value is nil.
pub event_wait :
    (rounds : ℕ)
    → (loop : Option ℕ) → (deadline : Value) → Tid
    → Ev
    → (mask : ℕ) → Events
    → Option (WaitStep × Events)
event_wait rounds (some r) d t ev mask q = some (returns r, q)
event_wait rounds none d t ev mask q =
    if is_deadline d
    then (watch_events rounds t ev mask q >>= λ q'. some (suspends d, q'))
    else some (bad_deadline, q)

-- The argument of `loop` when the thread runs again.
pub timed_out : Value → (now : ℕ) → Bool
timed_out nil now = false
timed_out v now = elim (time_reached v now) [ none ↦ false | some b ↦ b ]

-- `mlua_event_wait_2`
pub event_wait_again :
    (rounds : ℕ)
    → (loop : Option ℕ) → (deadline : Value) → Ev
    → (mask : ℕ) → Events
    → Option (WaitStep × Events)
event_wait_again rounds none d ev mask q = some (suspends d, q)
event_wait_again rounds (some r) d ev mask q =
    unwatch_events rounds ev mask q >>= λ q'. some (returns r, q')

-- The results of `loop` after each suspension.
pub event_waits :
    (rounds : ℕ)
    → List (Option ℕ)
    → (deadline : Value) → Ev
    → (mask : ℕ) → Events
    → Option (WaitStep × Events)
event_waits rounds [] d ev mask q = some (suspends d, q)
event_waits rounds (none ∷ rs) d ev mask q = event_waits rounds rs d ev mask q
event_waits rounds (some r ∷ rs) d ev mask q = event_wait_again rounds (some r) d ev mask q

-- `mlua_event_handle`: `thread` is the new thread of the handler, and the running thread then yields.
pub handle : (running thread : Tid) → Ev → Events → Sched → CoResult × Events × Sched
handle running thread ev q s =
    (yielded [], watch_event thread ev q, start (some running) thread none s)

-- `mlua_event_stop_handler`; without a watcher nothing is done.
pub stop_handler :
    (rounds : ℕ)
    → (running : Tid) → (error : Option ℕ) → Ev
    → Events
    → Sched
    → Option (Option KillResult × Sched)
stop_handler rounds running error ev q s = elim (q.watcher ev) [
  | none ↦ some (none, s)
  | some t ↦ kill rounds running t error s >>= λ (r, s'). some (some r, s')
]

-- `handler_thread_done`, before the callback.
pub handler_done : Ev → Events → Events
handler_done ev q = unwatch_event ev q
