-- ===== src/Thread/Life/Kill.antt =====
-- The end of a thread in lib/common/mlua.thread.c: `Thread_kill` marks it dead, takes it off the
-- timer list and wakes the threads that main.JOINERS names for it.
use micro_lua.Base.{
  ℕ, ◌≤◌, ◌≡◌, ◌≢◌, refl, sym, ◌∙◌, ◌⊎◌, true, false, ◌||◌, Option, some, List, arith, ◌==◌, update,
  has, length, inl, inr, Bool-cases,
}
use micro_lua.Thread.{
  Tid, Sched, ThreadState, Joiners, active, suspended, timer, dead, thread_state,
}
use micro_lua.Thread.Chain.{
  Chain, without, length-without, frame, Distinct-without, not-has-without, has-without,
  has-without_ne,
}
use micro_lua.Thread.Timers.{Removed, remove_timer_lem}
use micro_lua.Thread.Invariant.{IsSched, IsSched-tables, ready_not_waiting}
use micro_lua.Thread.Resume.{is_waiting, Sorted-without, without_absent, absent}
use micro_lua.Thread.Life.{closed, terminate, killed, kill}
use micro_lua.Thread.Life.Wake.{members, AllResumed, resume_joiners_lem}

-- Closing `t`, once it is off the timer list.
module _ {s : Sched} (ready waiting : List Tid) (t : Tid) (error : Option ℕ)
    (i : IsSched s ready waiting) (next : Tid → Option Tid) (timers : Option Tid)
    (chain : Chain next timers (without t waiting))
    (outside : (u : Tid) → has u waiting ≡ false → next u ≡ s.next u) where
  abbrev unlisted : Sched
  unlisted = record s { next = next; timers = timers }

  closed_self : thread_state (closed t error unlisted) t ≡ dead
  unfolding closed
  closed_self = ground arith

  closed_others :
      (u : Tid) → (u == t) ≡ false → thread_state (closed t error unlisted) u ≡ thread_state s u
  unfolding closed
  closed_others u e = ground arith

  closed_either :
      (u : Tid)
      → (thread_state (closed t error unlisted) u ≡ dead)
        ⊎ (thread_state (closed t error unlisted) u ≡ thread_state s u)
  closed_either u = elim (Bool-cases (u == t)) [
    | inl e ↦ (let same : u ≡ t = ground arith in rw same (inl closed_self))
    | inr e ↦ inr (closed_others u e)
  ]

  closed_ready :
      (u : Tid)
      → has u ready ≡ true
      → (thread_state (closed t error unlisted) u ≡ active)
        ⊎ (thread_state (closed t error unlisted) u ≡ dead)
  closed_ready u h = elim (closed_either u) [ inl e ↦ inr e | inr e ↦ rw e (i.ready_state u h) ]

  closed_waits :
      (u : Tid)
      → is_waiting (thread_state (closed t error unlisted) u) ≡ true
      → thread_state (closed t error unlisted) u ≡ thread_state s u
  closed_waits u h = elim (closed_either u) [
    | inl e ↦ absurd (ground (arith, rw e at h))
    | inr e ↦ e
  ]

  closed_ne :
      (u : Tid) → is_waiting (thread_state (closed t error unlisted) u) ≡ true → (u == t) ≡ false
  closed_ne u h = elim (Bool-cases (u == t)) [
    | inl e ↦
        (let same : u ≡ t = ground arith in absurd (ground (arith, closed_self, rw same at h)))
    | inr e ↦ e
  ]

  remaining_ne : (u : Tid) → has u (without t waiting) ≡ true → (u == t) ≡ false
  remaining_ne u h = ground (arith, not-has-without waiting t i.waiting_distinct)

  suspended_out : (u : Tid) → thread_state s u ≡ suspended → has u waiting ≡ false
  suspended_out u h = absent i u (λ k. ground arith)

  closed-IsSched : IsSched (closed t error unlisted) ready (without t waiting)
  unfolding closed
  closed-IsSched = record {
    ready_chain =
        frame s.next next s.head ready i.ready_chain (λ u h. outside u (ready_not_waiting i u h));
    ready_last = i.ready_last;
    ready_distinct = i.ready_distinct;
    ready_state = closed_ready;
    waiting_chain = chain;
    waiting_distinct = Distinct-without waiting t i.waiting_distinct;
    waiting_sorted = Sorted-without s.deadline t waiting i.waiting_sorted;
    waiting_state =
        λ u h. closed_others u (remaining_ne u h) ∙ i.waiting_state u (has-without waiting t u h);
    waiting_complete = λ u h.
        has-without_ne waiting t u (i.waiting_complete u (sym (closed_waits u (rw h)) ∙ h))
          (closed_ne u (rw h));
    suspended_next = λ u h.
        let st : thread_state s u ≡ suspended = sym (closed_waits u (rw h)) ∙ h in
        outside u (suspended_out u st) ∙ i.suspended_next u st;
  }

-- What the end of `t` leaves: it is dead and forgotten, the threads that joined it do not wait any
-- more, and all others are as they were.
pub record Terminated (state : Tid → ThreadState) (joiners : Joiners) (ready waiting : List Tid)
    (t : Tid) (s' : Sched) : Type 0 where
  pub ready' : List Tid
  pub waiting' : List Tid
  pub sched : IsSched s' ready' waiting'
  pub fewer : length waiting' ≤ length waiting
  pub source : (u : Tid) → has u ready' ≡ true → (has u ready || is_waiting (state u)) ≡ true
  pub gone : thread_state s' t ≡ dead
  pub awake : (u : Tid) → has u (members (joiners)) ≡ true → is_waiting (thread_state s' u) ≡ false
  pub others :
      (u : Tid) → (u == t) ≡ false → has u (members (joiners)) ≡ false → thread_state s' u ≡ state u
  pub kept :
      (u : Tid) → (u == t) ≡ false → is_waiting (state u) ≡ false → thread_state s' u ≡ state u
  pub forgotten : s'.threads t ≡ false

module _ {s : Sched} (ready waiting : List Tid) (t : Tid) (error : Option ℕ)
    (i : IsSched s ready waiting) (next : Tid → Option Tid) (timers : Option Tid)
    (chain : Chain next timers (without t waiting))
    (outside : (u : Tid) → has u waiting ≡ false → next u ≡ s.next u) (s' : Sched)
    (a : AllResumed next
      (thread_state (closed t error (record s { next = next; timers = timers })))
      ready
      (without t waiting)
      (members (s.joiners t))
      s') where
  abbrev ended : Sched
  ended = record s' { threads = update s'.threads t false }

  self : thread_state (closed t error (record s { next = next; timers = timers })) t ≡ dead
  self = closed_self ready waiting t error i next timers chain outside

  others :
      (u : Tid)
      → (u == t) ≡ false
      → thread_state (closed t error (record s { next = next; timers = timers })) u
        ≡ thread_state s u
  others u e = closed_others ready waiting t error i next timers chain outside u e

  source_back :
      (u : Tid) → has u a.ready' ≡ true → (has u ready || is_waiting (thread_state s u)) ≡ true
  source_back u h = elim (closed_either ready waiting t error i next timers chain outside u) [
    | inl e ↦ ground (arith, rw e at (a.source u h))
    | inr e ↦ rw e at (a.source u h)
  ]

  ended-Terminated : Terminated (thread_state s) (s.joiners t) ready waiting t ended
  ended-Terminated = record {
    ready' = a.ready';
    waiting' = a.waiting';
    sched = IsSched-tables a.ready' a.waiting' s'.joiners (update s'.threads t false) a.sched;
    fewer = omega (arith, a.fewer, length-without waiting t);
    source = source_back;
    gone = a.kept t (rw self) ∙ self;
    awake = a.awake;
    others = λ u e h. a.others u h ∙ others u e;
    kept = λ u e h. a.kept u (rw (others u e) h) ∙ others u e;
    forgotten = ground arith;
  }

-- The end of a thread that is off the timer list, whatever its state field says.
terminate_unlisted :
    {s : Sched} (rounds : ℕ) (ready waiting : List Tid) (t : Tid) (error : Option ℕ)
    → IsSched s ready waiting
    → (next : Tid → Option Tid) (timers : Option Tid) → Chain next timers (without t waiting)
    → ((u : Tid) → has u waiting ≡ false → next u ≡ s.next u)
    → length waiting ≤ rounds
    → (s' : Sched) × (terminate rounds t error (record s { next = next; timers = timers })
        ≡ some s')
      × Terminated (thread_state s) (s.joiners t) ready waiting t s'
unfolding terminate closed
terminate_unlisted {s} rounds ready waiting t error i next timers chain outside fuel =
    let (s', ran, a) =
      resume_joiners_lem rounds t (closed t error (record s { next = next; timers = timers })) ready
        (without t waiting) (closed-IsSched ready waiting t error i next timers chain outside)
        (omega (arith, length-without waiting t)) in
    (
      ended ready waiting t error i next timers chain outside s' a,
      rw ran,
      ended-Terminated ready waiting t error i next timers chain outside s' a,
    )

pub terminate_lem :
    {s : Sched} (rounds : ℕ) (ready waiting : List Tid) (t : Tid) (error : Option ℕ)
    → IsSched s ready waiting
    → has t waiting ≡ false
    → length waiting ≤ rounds
    → (s' : Sched) × (terminate rounds t error s ≡ some s')
      × Terminated (thread_state s) (s.joiners t) ready waiting t s'
terminate_lem {s} rounds ready waiting t error i out fuel =
    terminate_unlisted rounds ready waiting t error i s.next s.timers
      (rw (without_absent t waiting out) i.waiting_chain) (λ u h. refl) fuel

abbrev Dies : ℕ → Tid → Tid → Option ℕ → Sched → List Tid → List Tid → Type 0
Dies rounds running self error s ready waiting =
    (s' : Sched) × (kill rounds running self error s ≡ some (killed true, s'))
    × Terminated (thread_state s) (s.joiners self) ready waiting self s'

kill_by :
    {s : Sched} (rounds : ℕ) (ready waiting : List Tid) (running self : Tid) (error : Option ℕ)
    (st : ThreadState)
    → IsSched s ready waiting
    → (self == running) ≡ false
    → thread_state s self ≡ st
    → st ≢ dead
    → length waiting ≤ rounds
    → Dies rounds running self error s ready waiting
unfolding kill
kill_by rounds ready waiting running self error dead i other e alive fuel = absurd (alive refl)
kill_by rounds ready waiting running self error active i other e alive fuel =
    let (s', ran, t) =
      terminate_lem rounds ready waiting self error i (absent i self (λ h. ground arith)) fuel in
    (s', rw (other, e, ran), t)
kill_by rounds ready waiting running self error suspended i other e alive fuel =
    let (s', ran, t) =
      terminate_lem rounds ready waiting self error i (absent i self (λ h. ground arith)) fuel in
    (s', rw (other, e, ran), t)
kill_by {s} rounds ready waiting running self error timer i other e alive fuel = removed (
    remove_timer_lem rounds self s waiting fuel i.waiting_chain i.waiting_distinct
      (i.waiting_complete self e))
  where
    removed : Removed rounds self s waiting → Dies rounds running self error s ready waiting
    removed r =
        let (s', ran, t) =
          terminate_unlisted rounds ready waiting self error i r.next r.timers r.chain r.outside
            fuel in
        (s', rw (other, e, r.ran, ran), t)

-- In a well-formed state with rounds for the timer list, a thread that is not dead and not the
-- running one is killed: the call returns true, the thread is dead, in no timer list and forgotten
-- by main(); every thread that main.JOINERS names for it has stopped waiting; all others keep
-- their states, and the queues stay well formed.
pub kill_lem :
    {s : Sched} (rounds : ℕ) (ready waiting : List Tid) (running self : Tid) (error : Option ℕ)
    → IsSched s ready waiting
    → (self == running) ≡ false
    → thread_state s self ≢ dead
    → length waiting ≤ rounds
    → (s' : Sched) × (kill rounds running self error s ≡ some (killed true, s'))
      × Terminated (thread_state s) (s.joiners self) ready waiting self s'
kill_lem {s} rounds ready waiting running self error i other alive fuel =
    kill_by rounds ready waiting running self error (thread_state s self) i other refl alive fuel
