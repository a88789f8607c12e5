-- ===== src/Thread/Loop.antt =====
-- One round of the scheduling loop of `mod_main` in lib/common/mlua.thread.c, in the parts that it
-- goes through: the deadline for the event dispatch, the expiry of timers, the choice of the next
-- thread, and what a yield or the end of that thread does.
pub mod Expire
pub mod Due
pub mod Pick
pub mod Insert
pub mod Between
pub mod Turn
pub mod Round
pub mod Park
pub mod Sleep
use micro_lua.Base.{
  ℕ, zero, suc, false, Option, none, some, List, [], ◌∷◌, ltb, leb, if◌then◌else◌, ◌>>=◌, update,
}
use micro_lua.Value.{Value, nil, to_boolean}
use micro_lua.Time.{ticks_max, to_time}
use micro_lua.Thread.{Tid, Sched, active, suspended, timer, dead, lua_ok, lua_yield, thread_state}
use micro_lua.Thread.Life.{terminate}

-- The deadline given to `mlua_event_dispatch`; MLUA_TICKS_MIN is 0.
pub dispatch_deadline : (running : Option Tid) → Sched → ℕ
dispatch_deadline running s = elim running [
  | some r ↦ 0
  | none ↦ elim s.tail [
    | some t ↦ 0
    | none ↦ elim s.timers [ none ↦ ticks_max | some t ↦ s.deadline t ]
  ]
]

-- The loop from the first timer: the last thread that expires, and the scheduler with TIMERS cut.
pub expire_loop : ℕ → Tid → (ticks : ℕ) → Sched → Option (Tid × Sched)
expire_loop zero t ticks s = none
expire_loop (suc rounds) t ticks s =
    let s' : Sched = record s { state = update s.state t active } in
    elim (s'.next t) [
      | none ↦ some (t, record s' { timers = none })
      | some n ↦
          let rest = expire_loop rounds n ticks s' in
          if ltb ticks (s'.deadline n) then some (t, record s' { timers = some n }) else rest
    ]

-- The timer list is put behind the active queue, and what is not due cut off.
pub append_timers : Tid → Sched → Sched
append_timers t s = elim s.tail [
  | none ↦ record s { head = some t }
  | some e ↦ record s { next = update s.next e (some t) }
]

pub expire : ℕ → (ticks : ℕ) → Sched → Option Sched
unfolding expire_loop append_timers
expire rounds ticks s = elim s.timers [
  | none ↦ some s
  | some t ↦
      if leb (s.deadline t) ticks
      then (expire_loop rounds t ticks (append_timers t s) >>= λ (e, s').
          some (record s' { tail = some e; next = update s'.next e none }))
      else some s
]

-- The walk over dead threads from `h`: the thread to run, the new head.
pub pick_loop : ℕ → Tid → Sched → Option (Option Tid × Option Tid × Sched)
pick_loop zero h s = none
pick_loop (suc rounds) h s = elim (thread_state s h) [
  | dead ↦
      let s' : Sched = record s { next = update s.next h none } in
      elim (s.next h) [ none ↦ some (none, none, s') | some n ↦ pick_loop rounds n s' ]
  | _ ↦ some (some h, s.next h, s)
]

-- The thread that ran last goes behind the tail `e`.
pub requeue : Option Tid → Tid → Sched → Sched
requeue running e s = elim running [
  | none ↦ s
  | some r ↦ record s { next = update s.next e (some r); tail = some r }
]

pub set_head : Option Tid → Sched → Sched
set_head head s = elim head [
  | none ↦ record s { head = none; tail = none }
  | some h ↦ record s { head = some h }
]

-- The walk, and HEAD and TAIL after it.
pub choose : ℕ → (head : Tid) → Sched → Option (Option Tid × Sched)
unfolding pick_loop set_head
choose rounds head s = pick_loop rounds head s >>= λ (r, rest, s'). some (r, set_head rest s')

-- A tail without a head would be a read through a null pointer: `none`.
pub pick : ℕ → (running : Option Tid) → Sched → Option (Option Tid × Sched)
unfolding choose requeue
pick rounds running s = elim s.tail [
  | none ↦ some (running, s)
  | some e ↦
      let s' = requeue running e s in elim s'.head [ none ↦ none | some h ↦ choose rounds h s' ]
]

-- The walk to the place of a timer, from `t` on.
pub insert_timer : ℕ → (t thread : Tid) → (deadline : ℕ) → Sched → Option Sched
insert_timer zero t thread deadline s = none
insert_timer (suc rounds) t thread deadline s = elim (s.next t) [
  | none ↦ some (record s { next = update (update s.next thread none) t (some thread) })
  | some n ↦
      let rest = insert_timer rounds n thread deadline s in
      if ltb deadline (s.deadline n)
      then some (record s { next = update (update s.next thread (some n)) t (some thread) })
      else rest
]

pub add_timer : ℕ → Tid → (deadline : ℕ) → Sched → Option Sched
unfolding insert_timer
add_timer rounds thread deadline s0 =
    let s : Sched = record s0 {
      deadline = update s0.deadline thread deadline;
      state = update s0.state thread timer;
    } in
    elim s.timers [
      | none ↦ some (record s { next = update s.next thread none; timers = some thread })
      | some t ↦
          if ltb deadline (s.deadline t)
          then some (record s { next = update s.next thread (some t); timers = some thread })
          else insert_timer rounds t thread deadline s
    ]

-- How `lua_resume` ends: the function returned or raised, with what `lua_closethread` leaves, or it
-- yielded values.
pub data CoResult : Type 0 where
  finished : Option ℕ → CoResult
  yielded : List Value → CoResult

-- How a round ends: the loop goes on with the thread that is still running, or main() returns or
-- raises.
pub data RoundEnd : Type 0 where
  go_on : Option Tid → RoundEnd
  returned : Value → RoundEnd
  raised : Value → RoundEnd

-- The thread gives up NEXT when it runs, and gets nil when it stops.
pub enter : Tid → Sched → Sched
enter r s = record s {
  next = update s.next r none;
  status = update s.status r lua_ok;
  empty = update s.empty r false;
}

pub yield : Tid → Sched → Sched
yield r s = record s { next = update s.next r none; status = update s.status r lua_yield }

-- One value that is not nil must be a time, as `mod_suspend` sees to: else `none`.
pub after_yield : ℕ → (now : ℕ) → Tid → List Value → Sched → Option (RoundEnd × Sched)
after_yield rounds now r [] s = some (go_on (some r), s)
after_yield rounds now r (nil ∷ []) s =
    some (go_on none, record s { state = update s.state r suspended })
after_yield rounds now r (v ∷ []) s =
    to_time v now >>= λ d. add_timer rounds r d s >>= λ s'. some (go_on none, s')
after_yield rounds now r (v ∷ w ∷ _) s = some (if to_boolean w then raised v else returned v, s)

pub after_resume : ℕ → (now : ℕ) → Tid → CoResult → Sched → Option (RoundEnd × Sched)
unfolding after_yield yield
after_resume rounds now r (finished error) s =
    terminate rounds r error (record s { next = update s.next r none }) >>= λ s'.
    some (go_on none, s')
after_resume rounds now r (yielded values) s = after_yield rounds now r values (yield r s)

-- What the loop does not do itself: events resume threads, the clock is read, and a thread runs.
pub record World : Type 0 where
  pub dispatch : (deadline : ℕ) → Sched → Sched
  pub ticks : Sched → ℕ
  pub run : Tid → Sched → Sched × CoResult

-- The run of the chosen thread, if there is one.
pub turn : ℕ → World → (next : Option Tid) → Sched → Option (RoundEnd × Sched)
unfolding after_resume enter
turn rounds world none s = some (go_on none, s)
turn rounds world (some r) s =
    let (s', result) = world.run r (enter r s) in after_resume rounds (world.ticks s') r result s'

pub round : ℕ → World → (running : Option Tid) → Sched → Option (RoundEnd × Sched)
round rounds world running s =
    let s₁ = world.dispatch (dispatch_deadline running s) s in
    expire rounds (world.ticks s₁) s₁ >>= λ s₂.
    pick rounds running s₂ >>= λ (next, s₃). turn rounds world next s₃
