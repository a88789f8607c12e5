-- ===== src/Thread/Life.antt =====
-- Starting, killing and joining threads, of lib/common/mlua.thread.c: `mod_start`, `Thread_kill`,
-- `Thread_join` and what it continues with, and the queries of class Thread.
pub mod Wake
pub mod Kill
pub mod Join
pub mod Start
use micro_lua.Base.{
  ℕ, Bool, true, false, Option, none, some, List, [], ◌∷◌, ◌==◌, ◌||◌, if◌then◌else◌, ◌>>=◌, update,
  has,
}
use micro_lua.Value.{Value, nil, to_boolean}
use micro_lua.Thread.{
  Tid, Sched, ThreadState, active, suspended, timer, dead, LuaStatus, lua_ok, Joiners, nobody, one,
  many, thread_state, remove_timer, activate, resume,
}

pub is_alive : (running self : Tid) → Sched → Bool
is_alive running self s =
    (self == running) || elim (thread_state s self) [ dead ↦ false | _ ↦ true ]

pub thread_is_waiting : (running self : Tid) → Sched → Bool
thread_is_waiting running self s =
    if self == running
    then false
    else elim (thread_state s self) [ suspended ↦ true | timer ↦ true | _ ↦ false ]

pub thread_resume : ℕ → (running self : Tid) → Sched → Option (Bool × Sched)
thread_resume rounds running self s =
    if self == running then some (false, s) else resume rounds self s

-- `mod_blocking`: the old value of the flag, which a value other than nil replaces.
pub blocking : (running : Tid) → Value → Sched → Bool × Sched
blocking running nil s = (s.blocking running, s)
blocking running v s =
    (s.blocking running, record s { blocking = update s.blocking running (to_boolean v) })

-- `thread` is what `lua_newthread` returns. Without a running thread, that is on the main thread
-- before main(), flags are not inherited.
pub start : (running : Option Tid) (thread : Tid) (name : Option (List ℕ)) → Sched → Sched
start running thread name s = activate thread (record s {
  state = update s.state thread active;
  blocking = update s.blocking thread (elim running [ none ↦ false | some r ↦ s.blocking r ]);
  status = update s.status thread lua_ok;
  empty = update s.empty thread false;
  next = update s.next thread none;
  names = elim name [ none ↦ s.names | some n ↦ update s.names thread (some n) ];
  threads = update s.threads thread true;
})

-- The thread after `lua_closethread`, which leaves an error, if a pending to-be-closed variable
-- raised one; the termination value then stands below NEXT.
pub closed : Tid → (error : Option ℕ) → Sched → Sched
closed thread error s = record s {
  status = update s.status thread lua_ok;
  empty = update s.empty thread false;
  termination = update s.termination thread error;
  state = update s.state thread dead;
}

-- The order of `lua_next` is that of the list.
pub resume_each : ℕ → List Tid → Sched → Option Sched
resume_each rounds [] s = some s
resume_each rounds (t ∷ l) s = resume rounds t s >>= λ r. resume_each rounds l r.1

pub resume_joiners : ℕ → Tid → Sched → Option Sched
unfolding resume_each
resume_joiners rounds thread s =
    let cleared : Sched = record s { joiners = update s.joiners thread nobody } in
    elim (s.joiners thread) [
      | nobody ↦ some s
      | one t ↦ resume_each rounds (t ∷ []) cleared
      | many l ↦ resume_each rounds l cleared
    ]

-- From the close on: the same steps stand in `Thread_kill` and in `mod_main`.
pub terminate : ℕ → Tid → (error : Option ℕ) → Sched → Option Sched
terminate rounds thread error s = resume_joiners rounds thread (closed thread error s) >>= λ s'.
    some (record s' { threads = update s'.threads thread false })

pub data KillResult : Type 0 where
  cannot_kill_itself : KillResult
  killed : Bool → KillResult

pub kill : ℕ → (running self : Tid) → (error : Option ℕ) → Sched → Option (KillResult × Sched)
kill rounds running self error s =
    if self == running then some (cannot_kill_itself, s) else elim (thread_state s self) [
      | dead ↦ some (killed false, s)
      | timer ↦ remove_timer rounds self s >>= λ s'.
          terminate rounds self error s' >>= λ s''. some (killed true, s'')
      | _ ↦ terminate rounds self error s >>= λ s'. some (killed true, s')
    ]

-- What `Thread_join` ends with: it yields nil and is called again, returns, or raises.
pub data JoinStep : Type 0 where
  waits : JoinStep
  returns : JoinStep
  raises : ℕ → JoinStep

-- `Thread_join_2`
pub join_result : Tid → Sched → JoinStep
join_result self s = elim (s.termination self) [ none ↦ returns | some e ↦ raises e ]

-- A key that a table has is not added again.
abbrev pub add_key : Tid → List Tid → List Tid
add_key t l = if has t l then l else t ∷ l

-- The new entry of main.JOINERS. For a table the code stores `self` for a key, which is the value
-- at stack index 1, where the comment there names the running thread.
pub add_joiner : (running self : Tid) → Joiners → Joiners
add_joiner running self nobody = one running
add_joiner running self (one t) = many (add_key t (running ∷ []))
add_joiner running self (many l) = many (add_key self l)

pub join : (running self : Tid) → Sched → JoinStep × Sched
unfolding join_result add_joiner
join running self s = elim (thread_state s self) [
  | dead ↦ (join_result self s, s)
  | _ ↦ (
    waits,
    record s { joiners = update s.joiners self (add_joiner running self (s.joiners self)) },
  )
]

-- `Thread_join_1`, run when the joining thread is resumed.
pub join_again : (self : Tid) → Sched → JoinStep
unfolding join_result
join_again self s = elim (thread_state s self) [ dead ↦ join_result self s | _ ↦ waits ]
