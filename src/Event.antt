-- ===== src/Event.antt =====
-- Events: the pending queue of lib/pico/event.c, and the watchers of events in
-- lib/common/mlua.thread.c.
pub mod Queue
pub mod Removal
pub mod Dispatch
pub mod Fifo
pub mod Loop
pub mod Wait
use micro_lua.Base.{
  ℕ, zero, suc, Bool, true, false, Option, none, some, ◌==◌, ◌||◌, if◌then◌else◌, ◌>>=◌, update,
}
use micro_lua.Thread.{Tid, Sched, resume}

-- An event is named by its address.
abbrev pub Ev : Type 0
Ev = ℕ

-- The state word of an event by its low bits: 0; a pointer to the queue; the next pending event;
-- EVENT_ABANDONED.
pub data EventState : Type 0 where
  disabled idle abandoned : EventState
  pending : Option Ev → EventState

-- The pending queue, the state words, and the threads that the registry holds for events.
pub record Events : Type 0 where
  pub head : Option Ev
  pub tail : Option Ev
  pub state : Ev → EventState
  pub watcher : Ev → Option Tid

abbrev pub is_pending : EventState → Bool
is_pending disabled = false
is_pending idle = false
is_pending abandoned = false
is_pending (pending n) = true

-- Of an idle event the word points to the queue, which is no event: `none`.
abbrev pub next_pending : EventState → Option (Option Ev)
next_pending disabled = some none
next_pending idle = none
next_pending abandoned = some none
next_pending (pending n) = some n

-- `mlua_event_enabled`
pub is_enabled : EventState → Bool
is_enabled disabled = false
is_enabled idle = true
is_enabled abandoned = true
is_enabled (pending n) = true

-- The walk of `remove_pending_nolock` from `cur`. `none`: the rounds ran out.
pub remove_loop : ℕ → (cur ev : Ev) → Events → Option Events
remove_loop zero cur ev q = none
remove_loop (suc rounds) cur ev q = elim (next_pending (q.state cur)) [
  | none ↦ none
  | some none ↦ some q
  | some (some n) ↦
      let rest = remove_loop rounds n ev q in
      if n == ev then some (record q { state = update q.state cur (q.state ev) }) else rest
]

-- On an empty queue the code reads through a null pointer: `none`.
pub remove_pending : ℕ → Ev → Events → Option Events
unfolding remove_loop
remove_pending rounds ev q = elim q.head [
  | none ↦ none
  | some h ↦
      if h == ev
      then (next_pending (q.state ev) >>= λ n. some (record q { head = n }))
      else remove_loop rounds h ev q
]

-- `mlua_event_enable`
pub enable : Ev → Events → Bool × Events
enable ev q = elim (q.state ev) [
  | disabled ↦ (true, record q { state = update q.state ev idle })
  | _ ↦ (false, q)
]

set_state : Ev → EventState → Events → Events
set_state ev st q = record q { state = update q.state ev st; watcher = update q.watcher ev none }

-- `disable_event`; `st` is `disabled` for `mlua_event_disable`, and `abandoned` for
-- `mlua_event_abandon`.
pub disable : ℕ → Ev → (st : EventState) → Events → Option Events
unfolding set_state remove_pending
disable rounds ev st q = elim (q.state ev) [
  | disabled ↦ some q
  | pending n ↦ remove_pending rounds ev q >>= λ q'. some (set_state ev st q')
  | _ ↦ some (set_state ev st q)
]

-- `mlua_event_disable_abandoned`
pub disable_abandoned : Ev → Events → Bool × Events
disable_abandoned ev q = elim (q.state ev) [
  | abandoned ↦ (true, record q { state = update q.state ev disabled })
  | _ ↦ (false, q)
]

-- `mlua_event_set_nolock`; a head without a tail would be a write through a null pointer: `none`.
pub set : Ev → Events → Option Events
set ev q = elim (q.state ev) [
  | idle ↦
      let q' : Events = record q { state = update q.state ev (pending none) } in
      elim q'.head [
        | none ↦ some (record q' { head = some ev; tail = some ev })
        | some h ↦ elim q'.tail [
          | none ↦ none
          | some t ↦
              some (record q' { state = update q'.state t (pending (some ev)); tail = some ev })
        ]
      ]
  | _ ↦ some q
]

-- The locked section of `mlua_event_dispatch`: the event at the head becomes idle.
pub pop : Events → Option (Option Ev × Events)
pop q = elim q.head [
  | none ↦ some (none, q)
  | some ev ↦ next_pending (q.state ev) >>= λ n.
      some (some ev, record q { head = n; state = update q.state ev idle })
]

-- `watch_event` and `watch_event_from_thread`
pub watch_event : Tid → Ev → Events → Events
watch_event t ev q = record q { watcher = update q.watcher ev (some t) }

-- `unwatch_event`
pub unwatch_event : Ev → Events → Events
unfolding is_enabled
unwatch_event ev q =
    if is_enabled (q.state ev) then record q { watcher = update q.watcher ev none } else q

-- `mlua_event_resume_watcher`
pub resume_watcher : ℕ → (watcher : Ev → Option Tid) → Ev → Sched → Option (Bool × Sched)
resume_watcher rounds watcher ev s = elim (watcher ev) [
  | none ↦ some (false, s)
  | some t ↦ resume rounds t s
]

-- The inner loop of `mlua_event_dispatch`, which says whether a thread was resumed.
pub drain : ℕ → (rounds : ℕ) → (wake : Bool) → Events → Sched → Option (Bool × Events × Sched)
unfolding pop resume_watcher
drain zero rounds wake q s = none
drain (suc fuel) rounds wake q s = pop q >>= λ (o, q'). elim o [
  | none ↦ some (wake, q', s)
  | some ev ↦ resume_watcher rounds q'.watcher ev s >>= λ (b, s').
      drain fuel rounds (if b then true else wake) q' s'
]
