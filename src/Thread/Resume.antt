-- ===== src/Thread/Resume.antt =====
-- `resume` of lib/common/mlua.thread.c against the two lists: a waiting thread moves to the end of
-- the active queue, and any other is left alone.
use micro_lua.Base.{
  ℕ, ◌≤◌, ◌≡◌, ◌≢◌, refl, sym, ◌∙◌, Option, none, Bool, true, false, some, List, [], ◌∷◌, ◌++◌,
  arith, inl, inr, ◌==◌, if◌then◌else◌, update, has, length, Bool-cases, Option-cases, last,
  last-has,
}
use micro_lua.Thread.{
  Tid, Sched, ThreadState, active, suspended, timer, dead, thread_state, activate, resume,
}
use micro_lua.Thread.Chain.{
  Chain, without, has-without, has-without_ne, not-has-without, Distinct-without, frame,
}
use micro_lua.Thread.Timers.{Removed, remove_timer_lem}
use micro_lua.Thread.Invariant.{IsSched, Sorted, CanActivate, activate-IsSched, ready_not_waiting}

pub without_absent : (t : Tid) (l : List Tid) → has t l ≡ false → without t l ≡ l
without_absent t [] h = refl
without_absent t (x ∷ l) h = ground (arith, without_absent t l)

pub Sorted-without :
    (deadline : Tid → ℕ) (t : Tid) (l : List Tid)
    → Sorted deadline l
    → Sorted deadline (without t l)
Sorted-without deadline t [] h = tt
Sorted-without deadline t (x ∷ l) h = elim (Bool-cases (t == x)) [
  | inl e ↦ rw e h.1
  | inr e ↦ rw e ((λ u k. h.0 u (has-without l t u k)), Sorted-without deadline t l h.1)
]

-- The threads that `resume` moves.
abbrev pub is_waiting : ThreadState → Bool
is_waiting active = false
is_waiting suspended = true
is_waiting timer = true
is_waiting dead = false

-- The state of every other thread is kept.
abbrev pub SameOthers : Tid → Sched → Sched → Type 0
SameOthers t s s' = (u : Tid) → (u == t) ≡ false → thread_state s' u ≡ thread_state s u

-- A waiting thread leaves the timer list, if it stood there, and is marked active.
module _ {s : Sched} (ready waiting : List Tid) (t : Tid) (i : IsSched s ready waiting)
    (waits : is_waiting (thread_state s t) ≡ true) (next : Tid → Option Tid) (timers : Option Tid)
    (chain : Chain next timers (without t waiting)) (cleared : next t ≡ none)
    (outside : (u : Tid) → has u waiting ≡ false → next u ≡ s.next u) where
  abbrev woken : Sched
  woken = record s { next = next; timers = timers; state = update s.state t active }

  woken_self : thread_state woken t ≡ active
  woken_self = ground arith

  woken_others : SameOthers t s woken
  woken_others u ne = ground arith

  not_ready : has t ready ≡ false
  not_ready = elim (Bool-cases (has t ready)) [
    | inl h ↦ absurd (ground (arith, i.ready_state t h))
    | inr h ↦ h
  ]

  ready_ne : (u : Tid) → has u ready ≡ true → (u == t) ≡ false
  ready_ne u h = ground (arith, not_ready)

  waiting_ne : (u : Tid) → has u (without t waiting) ≡ true → (u == t) ≡ false
  waiting_ne u h = ground (arith, not-has-without waiting t i.waiting_distinct)

  timer_ne : (u : Tid) → thread_state woken u ≡ timer → (u == t) ≡ false
  timer_ne u h = ground (arith, woken_self)

  suspended_ne : (u : Tid) → thread_state woken u ≡ suspended → (u == t) ≡ false
  suspended_ne u h = ground (arith, woken_self)

  suspended_out : (u : Tid) → thread_state s u ≡ suspended → has u waiting ≡ false
  suspended_out u h = elim (Bool-cases (has u waiting)) [
    | inl w ↦ absurd (ground (arith, i.waiting_state u w))
    | inr w ↦ w
  ]

  woken-CanActivate : CanActivate woken ready (without t waiting) t
  woken-CanActivate = record { state = woken_self; next = cleared; not_ready = not_ready }

  woken-IsSched : IsSched woken ready (without t waiting)
  woken-IsSched = record {
    ready_chain =
        frame s.next next s.head ready i.ready_chain (λ u h. outside u (ready_not_waiting i u h));
    ready_last = i.ready_last;
    ready_distinct = i.ready_distinct;
    ready_state = λ u h. rw (woken_others u (ready_ne u h)) (i.ready_state u h);
    waiting_chain = chain;
    waiting_distinct = Distinct-without waiting t i.waiting_distinct;
    waiting_sorted = Sorted-without s.deadline t waiting i.waiting_sorted;
    waiting_state =
        λ u h. woken_others u (waiting_ne u h) ∙ i.waiting_state u (has-without waiting t u h);
    waiting_complete = λ u h.
        has-without_ne waiting t u (i.waiting_complete u (sym (woken_others u (timer_ne u h)) ∙ h))
          (timer_ne u h);
    suspended_next = λ u h.
        let st : thread_state s u ≡ suspended = sym (woken_others u (suspended_ne u h)) ∙ h in
        outside u (suspended_out u st) ∙ i.suspended_next u st;
  }

  wake-IsSched : IsSched (activate t woken) (ready ++ t ∷ []) (without t waiting)
  wake-IsSched = activate-IsSched ready (without t waiting) t woken-IsSched woken-CanActivate

-- What a call of `resume` leaves.
pub record Resumed (s : Sched) (ready waiting : List Tid) (t : Tid) (s' : Sched) : Type 0 where
  pub sched :
      IsSched s'
        (if is_waiting (thread_state s t) then ready ++ t ∷ [] else ready)
        (without t waiting)
  pub others : SameOthers t s s'
  pub awake : is_waiting (thread_state s' t) ≡ false
  pub runs : is_waiting (thread_state s t) ≡ true → thread_state s' t ≡ active
  pub kept : is_waiting (thread_state s t) ≡ false → thread_state s' t ≡ thread_state s t
  pub same_deadline : s'.deadline ≡ s.deadline
  pub same_joiners : s'.joiners ≡ s.joiners
  pub apart :
      (u : Tid) → has u ready ≡ false → is_waiting (thread_state s u) ≡ false → s'.next u ≡ s.next u

pub activate_keeps :
    (t : Tid) (s : Sched)
    → ((activate t s).deadline ≡ s.deadline)
      × ((activate t s).joiners ≡ s.joiners)
      × ((u : Tid) → thread_state (activate t s) u ≡ thread_state s u)
unfolding activate
activate_keeps t s = (ground arith, ground arith, λ u. ground arith)

-- NEXT of a thread outside of the queue is kept.
activate-next :
    (t : Tid) (s : Sched) (ready : List Tid) (u : Tid)
    → s.tail ≡ last ready
    → has u ready ≡ false
    → (activate t s).next u ≡ s.next u
unfolding activate
activate-next t s ready u e h = elim (Option-cases s.tail) [
  | inl none_left ↦ rw none_left refl
  | inr (l, is_last) ↦ rw is_last (ground (arith, last-has ready l (sym e ∙ is_last)))
]

pub absent :
    {s : Sched} {ready waiting : List Tid}
    → IsSched s ready waiting
    → (t : Tid) → thread_state s t ≢ timer
    → has t waiting ≡ false
absent i t ne = elim (Bool-cases (has t _)) [
  | inl h ↦ absurd (ne (i.waiting_state t h))
  | inr h ↦ h
]

module _ {s : Sched} (ready waiting : List Tid) (t : Tid) (i : IsSched s ready waiting) where
  Resumed-idle : is_waiting (thread_state s t) ≡ false → Resumed s ready waiting t s
  Resumed-idle e = record {
    sched = rw (e, without_absent t waiting (absent i t (λ h. ground arith))) i;
    others = λ u ne. refl;
    awake = e;
    runs = λ h. absurd (ground arith);
    kept = λ h. refl;
    same_deadline = refl;
    same_joiners = refl;
    apart = λ u h w. refl;
  }

  Resumed-woken :
      (waits : is_waiting (thread_state s t) ≡ true) (next : Tid → Option Tid) (timers : Option Tid)
      → Chain next timers (without t waiting)
      → next t ≡ none
      → ((u : Tid) → has u waiting ≡ false → next u ≡ s.next u)
      → Resumed s ready waiting t
          (activate t (record s { next = next; timers = timers; state = update s.state t active }))
  Resumed-woken waits next timers chain cleared outside = record {
    sched = rw waits (wake-IsSched ready waiting t i waits next timers chain cleared outside);
    others = λ u ne.
        (activate_keeps t _).2 u
        ∙ woken_others ready waiting t i waits next timers chain cleared outside u ne;
    awake = rw (
      (activate_keeps t
            (record s { next = next; timers = timers; state = update s.state t active })).2
          t,
      woken_self ready waiting t i waits next timers chain cleared outside,
    );
    runs = λ h.
        (activate_keeps t _).2 t
        ∙ woken_self ready waiting t i waits next timers chain cleared outside;
    kept = λ h. absurd (ground arith);
    same_deadline = (activate_keeps t _).0;
    same_joiners = (activate_keeps t _).1;
    apart = λ u h w.
        activate-next t _ ready u i.ready_last h
        ∙ outside u (absent i u (λ e. absurd (ground arith)));
  }

  resume_by :
      (rounds : ℕ) (st : ThreadState)
      → length waiting ≤ rounds
      → thread_state s t ≡ st
      → (s' : Sched) × (resume rounds t s ≡ some (is_waiting st, s')) × Resumed s ready waiting t s'
  unfolding resume
  resume_by rounds active fuel e = (s, rw (e, resume), Resumed-idle (rw e))
  resume_by rounds dead fuel e = (s, rw (e, resume), Resumed-idle (rw e))
  resume_by rounds suspended fuel e = (
    _,
    rw (e, resume),
    Resumed-woken (rw e) s.next s.timers
        (rw (without_absent t waiting (absent i t (λ h. ground arith))) i.waiting_chain)
        (i.suspended_next t e) (λ u h. refl),
  )
  resume_by rounds timer fuel e = from_removed (
      remove_timer_lem rounds t s waiting fuel i.waiting_chain i.waiting_distinct
        (i.waiting_complete t e))
    where
      from_removed :
          Removed rounds t s waiting
          → (s' : Sched) × (resume rounds t s ≡ some (true, s')) × Resumed s ready waiting t s'
      from_removed r = (
        _,
        rw (e, resume, r.ran),
        Resumed-woken (rw e) r.next r.timers r.chain r.cleared r.outside,
      )

-- In a well-formed state `resume` with enough rounds for the timer list returns, says true exactly
-- for a thread that is suspended or has a timer, and such a thread leaves the timer list and
-- becomes the last of the active queue. Any other thread stays where it is. No other thread
-- changes its state.
pub resume_lem :
    (rounds : ℕ) {s : Sched} (ready waiting : List Tid) (t : Tid)
    → IsSched s ready waiting
    → length waiting ≤ rounds
    → (s' : Sched) × (resume rounds t s ≡ some (is_waiting (thread_state s t), s'))
      × Resumed s ready waiting t s'
resume_lem rounds {s} ready waiting t i fuel =
    resume_by ready waiting t i rounds (thread_state s t) fuel refl
