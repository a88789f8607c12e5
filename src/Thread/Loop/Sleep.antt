-- ===== src/Thread/Loop/Sleep.antt =====
-- How long the scheduler of lib/common/mlua.thread.c may wait for events.
use micro_lua.Base.{
  ◌≤◌, ◌≡◌, refl, true, Option, none, some, List, [], ◌∷◌, arith, ◌==◌, has, last, inl, inr,
  Bool-cases, Option-cases, last-cons-ne-none, ◌∙◌, eq_self, ap,
}
use micro_lua.Time.{ticks_max}
use micro_lua.Thread.{Tid, Sched}
use micro_lua.Thread.Chain.{Chain}
use micro_lua.Thread.Invariant.{IsSched, Sorted}
use micro_lua.Thread.Loop.{dispatch_deadline}

running_lem :
    (s : Sched) (running : Option Tid) (r : Tid)
    → running ≡ some r
    → dispatch_deadline running s ≡ 0
unfolding dispatch_deadline
running_lem s running r h = rw h refl

queued_lem :
    (s : Sched) (running : Option Tid) (t : Tid) → s.tail ≡ some t → dispatch_deadline running s ≡ 0
unfolding dispatch_deadline
queued_lem s none t h = ground arith
queued_lem s (some r) t h = ground arith

nonempty : (ready : List Tid) (r : Tid) → has r ready ≡ true → (t : Tid) × (last ready ≡ some t)
nonempty [] r h = absurd (cc h)
nonempty (x ∷ l) r h = elim (Option-cases (last (x ∷ l))) [
  | inl e ↦ absurd (last-cons-ne-none x l e)
  | inr e ↦ e
]

earliest_lem :
    (s : Sched) (waiting : List Tid) (t : Tid)
    → s.tail ≡ none
    → Chain s.next s.timers waiting
    → Sorted s.deadline waiting
    → has t waiting ≡ true
    → (dispatch_deadline none s ≤ s.deadline t)
      × ((u : Tid) × (has u waiting ≡ true) × (dispatch_deadline none s ≡ s.deadline u))
unfolding dispatch_deadline
earliest_lem s [] t e c d h = absurd (cc h)
earliest_lem s (x ∷ l) t e c d h = elim (Bool-cases (t == x)) [
  | inl k ↦ (ground (arith, c.0), (x, ground (arith, eq_self x), ground (arith, c.0)))
  | inr k ↦ (ground (arith, c.0, d.0 t), (x, ground (arith, eq_self x), ground (arith, c.0)))
]

no_timer_lem : (s : Sched) → s.tail ≡ none → s.timers ≡ none → dispatch_deadline none s ≡ ticks_max
unfolding dispatch_deadline
no_timer_lem s e e' = ground arith

first_none :
    (s : Sched) (waiting : List Tid)
    → waiting ≡ []
    → Chain s.next s.timers waiting
    → s.timers ≡ none
first_none s [] e c = c
first_none s (x ∷ l) e c = absurd (cc e)

-- In a well-formed state with a thread that is running or in the queue the dispatch does not wait.
-- Without, it waits until the earliest deadline of all timers, and without a timer until
-- MLUA_TICKS_MAX.
pub dispatch_deadline_lem :
    (s : Sched) (running : Option Tid) (ready waiting : List Tid)
    → IsSched s ready waiting
    → ((r : Tid) → running ≡ some r → dispatch_deadline running s ≡ 0)
      × ((r : Tid) → has r ready ≡ true → dispatch_deadline running s ≡ 0)
      × (running ≡ none
          → ready ≡ []
          → (t : Tid) → has t waiting ≡ true
          → (dispatch_deadline running s ≤ s.deadline t)
            × ((u : Tid) × (has u waiting ≡ true) × (dispatch_deadline running s ≡ s.deadline u)))
      × (running ≡ none → ready ≡ [] → waiting ≡ [] → dispatch_deadline running s ≡ ticks_max)
dispatch_deadline_lem s running ready waiting i = (
  λ r h. running_lem s running r h,
  λ r h. let q = nonempty ready r h in queued_lem s running q.0 (i.ready_last ∙ q.1),
  λ e e' t h.
      rw e
        (earliest_lem s waiting t (i.ready_last ∙ ap last e') i.waiting_chain i.waiting_sorted h),
  λ e e' e''.
      rw e (no_timer_lem s (i.ready_last ∙ ap last e') (first_none s waiting e'' i.waiting_chain)),
)
