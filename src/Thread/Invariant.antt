-- ===== src/Thread/Invariant.antt =====
-- The abstract view of the scheduler of lib/common/mlua.thread.c, two lists of threads, and the
-- invariant that ties the pointers to it. Moves of threads between the lists.
use micro_lua.Base.{
  ℕ, ◌≤◌, ◌≡◌, ◌==◌, refl, sym, Bool, true, false, none, some, List, [], ◌∷◌, ◌++◌, arith, ◌⊎◌, inl,
  inr, update, has, last, Distinct, has-append, last-has, last-append_one, eq_self, Distinct-append,
  last-cons-ne-none, ◌∙◌, Bool-cases, Option-cases,
}
use micro_lua.Thread.{Tid, Sched, Joiners, active, suspended, timer, dead, thread_state, activate}
use micro_lua.Thread.Chain.{Chain, frame, frame-update, link}

abbrev pub Sorted : (Tid → ℕ) → List Tid → Type 0
Sorted deadline [] = Unit
Sorted deadline (t ∷ l) = ((u : Tid) → has u l ≡ true → deadline t ≤ deadline u) × Sorted deadline l

pub Sorted-frame :
    (deadline deadline' : Tid → ℕ) (l : List Tid)
    → Sorted deadline l
    → ((u : Tid) → has u l ≡ true → deadline' u ≡ deadline u)
    → Sorted deadline' l
Sorted-frame deadline deadline' [] d same = tt
Sorted-frame deadline deadline' (t ∷ l) d same = (
  (λ u h. ground (arith, d.0 u h, same u, same t, eq_self t)),
  Sorted-frame deadline deadline' l d.1 (λ u h. same u (ground arith)),
)

-- `ready` is the active queue from its head, `waiting` the timer list.
pub record IsSched (s : Sched) (ready waiting : List Tid) : Type 0 where
  pub ready_chain : Chain s.next s.head ready
  pub ready_last : s.tail ≡ last ready
  pub ready_distinct : Distinct ready
  -- A thread killed in the queue stays there, dead.
  pub ready_state :
      (t : Tid) → has t ready ≡ true → (thread_state s t ≡ active) ⊎ (thread_state s t ≡ dead)
  pub waiting_chain : Chain s.next s.timers waiting
  pub waiting_distinct : Distinct waiting
  pub waiting_sorted : Sorted s.deadline waiting
  pub waiting_state : (t : Tid) → has t waiting ≡ true → thread_state s t ≡ timer
  pub waiting_complete : (t : Tid) → thread_state s t ≡ timer → has t waiting ≡ true
  pub suspended_next : (t : Tid) → thread_state s t ≡ suspended → s.next t ≡ none

-- No thread stands in both lists.
pub ready_not_waiting :
    {s : Sched} {ready waiting : List Tid}
    → IsSched s ready waiting
    → (t : Tid) → has t ready ≡ true
    → has t waiting ≡ false
ready_not_waiting {waiting} i t h = elim (Bool-cases (has t waiting)) [
  | inl w ↦ absurd (ground (arith, i.ready_state t h, i.waiting_state t w))
  | inr w ↦ w
]

pub waiting_not_ready :
    {s : Sched} {ready waiting : List Tid}
    → IsSched s ready waiting
    → (t : Tid) → has t waiting ≡ true
    → has t ready ≡ false
waiting_not_ready {ready} i t h = elim (Bool-cases (has t ready)) [
  | inl r ↦ absurd (ground (arith, i.ready_state t r, i.waiting_state t h))
  | inr r ↦ r
]

pub active_not_waiting :
    {s : Sched} {ready waiting : List Tid}
    → IsSched s ready waiting
    → (t : Tid) → thread_state s t ≡ active
    → has t waiting ≡ false
active_not_waiting {waiting} i t a = elim (Bool-cases (has t waiting)) [
  | inl w ↦ absurd (ground (arith, i.waiting_state t w))
  | inr w ↦ w
]

-- What `activate` needs of the thread that it puts on the queue.
pub record CanActivate (s : Sched) (ready waiting : List Tid) (t : Tid) : Type 0 where
  pub state : thread_state s t ≡ active
  pub next : s.next t ≡ none
  pub not_ready : has t ready ≡ false

activate_first :
    (t : Tid) (s : Sched) → s.tail ≡ none → activate t s ≡ record s { head = some t; tail = some t }
unfolding activate
activate_first t s e = rw (e, activate)

activate_behind :
    (t e : Tid) (s : Sched)
    → s.tail ≡ some e
    → activate t s ≡ record s { next = update s.next e (some t); tail = some t }
unfolding activate
activate_behind t e s h = rw (h, activate)

module _ {s : Sched} (waiting : List Tid) (t : Tid) where
  first-IsSched :
      IsSched s [] waiting
      → CanActivate s [] waiting t
      → IsSched (record s { head = some t; tail = some t }) (t ∷ []) waiting
  first-IsSched i c = record {
    ready_chain = (refl, c.next);
    ready_last = refl;
    ready_distinct = (refl, tt);
    ready_state = λ u h. ground (arith, c.state);
    waiting_chain = i.waiting_chain;
    waiting_distinct = i.waiting_distinct;
    waiting_sorted = i.waiting_sorted;
    waiting_state = i.waiting_state;
    waiting_complete = i.waiting_complete;
    suspended_next = i.suspended_next;
  }

  pub behind-IsSched :
      (e : Tid) (ready : List Tid)
      → last ready ≡ some e
      → IsSched s ready waiting
      → CanActivate s ready waiting t
      → IsSched
          (record s { next = update s.next e (some t); tail = some t })
          (ready ++ t ∷ [])
          waiting
  behind-IsSched e ready le i c = record {
    ready_chain =
        link s.next s.head ready e (some t) (t ∷ []) i.ready_chain le i.ready_distinct
          (refl, c.next) (ground (arith, last-has ready e le));
    ready_last = sym (last-append_one ready t);
    ready_distinct =
        Distinct-append ready (t ∷ []) i.ready_distinct (refl, tt)
          (λ u h. ground (arith, c.not_ready));
    ready_state = λ u h. ground (arith, has-append u ready (t ∷ []), i.ready_state u, c.state);
    waiting_chain =
        frame-update s.next s.timers waiting e (some t) i.waiting_chain
          (ready_not_waiting i e (last-has ready e le));
    waiting_distinct = i.waiting_distinct;
    waiting_sorted = i.waiting_sorted;
    waiting_state = i.waiting_state;
    waiting_complete = i.waiting_complete;
    suspended_next =
        λ u h. ground (arith, i.suspended_next u h, i.ready_state e (last-has ready e le));
  }

pub activate-IsSched :
    {s : Sched} (ready waiting : List Tid) (t : Tid)
    → IsSched s ready waiting
    → CanActivate s ready waiting t
    → IsSched (activate t s) (ready ++ t ∷ []) waiting
activate-IsSched {s} [] waiting t i c =
    rw (activate_first t s i.ready_last) (first-IsSched waiting t i c)
activate-IsSched {s} (x ∷ ready) waiting t i c = elim (Option-cases (last (x ∷ ready))) [
  | inl e ↦ absurd (last-cons-ne-none x ready e)
  | inr (e, le) ↦
      rw (activate_behind t e s (i.ready_last ∙ le)) (behind-IsSched waiting t e (x ∷ ready) le i c)
]

-- The tables of main() that are no part of the lists.
pub IsSched-tables :
    {s : Sched} (ready waiting : List Tid) (joiners : Tid → Joiners) (threads : Tid → Bool)
    → IsSched s ready waiting
    → IsSched (record s { joiners = joiners; threads = threads }) ready waiting
IsSched-tables ready waiting joiners threads i = record {
  ready_chain = i.ready_chain;
  ready_last = i.ready_last;
  ready_distinct = i.ready_distinct;
  ready_state = i.ready_state;
  waiting_chain = i.waiting_chain;
  waiting_distinct = i.waiting_distinct;
  waiting_sorted = i.waiting_sorted;
  waiting_state = i.waiting_state;
  waiting_complete = i.waiting_complete;
  suspended_next = i.suspended_next;
}

-- A change of one thread that is in neither list.
pub IsSched-touch :
    {s : Sched} (ready waiting : List Tid) (r : Tid) (s' : Sched)
    → IsSched s ready waiting
    → has r ready ≡ false
    → has r waiting ≡ false
    → s'.head ≡ s.head
    → s'.tail ≡ s.tail
    → s'.timers ≡ s.timers
    → s'.deadline ≡ s.deadline
    → ((u : Tid) → (u == r) ≡ false → s'.next u ≡ s.next u)
    → ((u : Tid) → (u == r) ≡ false → thread_state s' u ≡ thread_state s u)
    → ¬ (thread_state s' r ≡ timer)
    → s'.next r ≡ none
    → IsSched s' ready waiting
IsSched-touch {s} ready waiting r s' i out out' eh et em ed en es nt none_r = record {
  ready_chain =
      rw eh (frame s.next s'.next s.head ready i.ready_chain (λ u h. en u (ground arith)));
  ready_last = et ∙ i.ready_last;
  ready_distinct = i.ready_distinct;
  ready_state = λ u h. let e = es u (ground arith) in rw e (i.ready_state u h);
  waiting_chain =
      rw em (frame s.next s'.next s.timers waiting i.waiting_chain (λ u h. en u (ground arith)));
  waiting_distinct = i.waiting_distinct;
  waiting_sorted = rw ed i.waiting_sorted;
  waiting_state = λ u h. es u (ground arith) ∙ i.waiting_state u h;
  waiting_complete = λ u h. elim (Bool-cases (u == r)) [
    | inl e ↦ (let same : u ≡ r = ground arith in absurd (nt (rw same at h)))
    | inr e ↦ i.waiting_complete u (sym (es u e) ∙ h)
  ];
  suspended_next = λ u h. elim (Bool-cases (u == r)) [
    | inl e ↦ (let same : u ≡ r = ground arith in rw same none_r)
    | inr e ↦ en u e ∙ i.suspended_next u (sym (es u e) ∙ h)
  ];
}
