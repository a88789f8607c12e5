-- ===== src/Thread.antt =====
-- The state of the thread scheduler of lib/common/mlua.thread.c and the operations that its parts
-- share: thread states, the timer list, the active queue.
pub mod Chain
pub mod Timers
pub mod Invariant
pub mod Resume
pub mod Life
pub mod Loop
pub mod Suspend
pub mod Finish
use micro_lua.Base.{
  ℕ, zero, suc, Bool, true, false, Option, none, some, List, ◌==◌, if◌then◌else◌, ◌>>=◌, update,
}

-- A thread is named by its `lua_State` pointer.
abbrev pub Tid : Type 0
Tid = ℕ

pub data ThreadState : Type 0 where
  active suspended timer dead : ThreadState

-- `lua_status`: any error code counts as `lua_error`.
pub data LuaStatus : Type 0 where
  lua_ok lua_yield lua_error : LuaStatus

-- An entry of main.JOINERS: nil, a thread, or a table with threads for keys.
pub data Joiners : Type 0 where
  nobody : Joiners
  one : Tid → Joiners
  many : List Tid → Joiners

-- The upvalues of `mod_main`, and the memory of the threads by field: NEXT and the termination
-- value on a thread's stack, ThreadExtra, and what Lua says of the coroutine.
pub record Sched : Type 0 where
  pub head : Option Tid
  pub tail : Option Tid
  pub timers : Option Tid
  pub threads : Tid → Bool
  pub joiners : Tid → Joiners
  pub names : Tid → Option (List ℕ)
  pub next : Tid → Option Tid
  pub termination : Tid → Option ℕ
  pub deadline : Tid → ℕ
  pub state : Tid → ThreadState
  pub blocking : Tid → Bool
  pub status : Tid → LuaStatus
  pub empty : Tid → Bool

-- `empty` says that the coroutine has no frame and an empty stack.
abbrev pub classify : LuaStatus → Bool → ThreadState → ThreadState
classify lua_ok empty st = if empty then dead else st
classify lua_yield empty st = st
classify lua_error empty st = dead

abbrev pub thread_state : Sched → Tid → ThreadState
thread_state s t = classify (s.status t) (s.empty t) (s.state t)

-- The walk of `remove_timer` from `prev`. `none`: the rounds ran out.
unlink_timer : ℕ → (prev thread : Tid) → Sched → Option Sched
unlink_timer zero prev thread s = none
unlink_timer (suc rounds) prev thread s = elim (s.next prev) [
  | none ↦ some s
  | some n ↦
      let rest = unlink_timer rounds n thread s in
      if n == thread
      then some (record s { next = update (update s.next prev (s.next thread)) thread none })
      else rest
]

-- With no timer at all the code reads through a null pointer: `none`.
pub remove_timer : ℕ → Tid → Sched → Option Sched
unfolding unlink_timer
remove_timer rounds thread s = elim s.timers [
  | none ↦ none
  | some prev ↦
      if thread == prev
      then some (record s { timers = s.next thread; next = update s.next thread none })
      else unlink_timer rounds prev thread s
]

pub activate : Tid → Sched → Sched
activate thread s = elim s.tail [
  | none ↦ record s { head = some thread; tail = some thread }
  | some last ↦ record s { next = update s.next last (some thread); tail = some thread }
]

wake : Tid → Sched → Bool × Sched
unfolding activate
wake thread s = (true, activate thread (record s { state = update s.state thread active }))

pub resume : ℕ → Tid → Sched → Option (Bool × Sched)
unfolding wake remove_timer
resume rounds thread s = elim (thread_state s thread) [
  | active ↦ some (false, s)
  | dead ↦ some (false, s)
  | timer ↦ remove_timer rounds thread s >>= λ s'. some (wake thread s')
  | suspended ↦ some (wake thread s)
]
