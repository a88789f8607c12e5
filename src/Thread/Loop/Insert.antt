-- ===== src/Thread/Loop/Insert.antt =====
-- A thread that suspends with a deadline in `mod_main` of lib/common/mlua.thread.c: its place in
-- the timer list is behind all timers with the same deadline or an earlier one.
use micro_lua.Base.{
  ℕ, zero, suc, ◌≤◌, ◌<◌, ◌≡◌, refl, sym, ◌∙◌, true, false, ◌||◌, Option, none, some, List, [], ◌∷◌,
  arith, ◌==◌, ltb, if◌then◌else◌, update, has, Distinct, length, inl, inr, Bool-cases,
}
use micro_lua.Thread.{Tid, Sched, active, suspended, timer, thread_state}
use micro_lua.Thread.Chain.{Chain, transfer, frame, frame-update}
use micro_lua.Thread.Invariant.{
  IsSched, Sorted, Sorted-frame, ready_not_waiting, active_not_waiting,
}
use micro_lua.Thread.Loop.{insert_timer, add_timer}

abbrev pub placed : (Tid → ℕ) → Tid → List Tid → List Tid
placed deadline r [] = r ∷ []
placed deadline r (t ∷ l) =
    if ltb (deadline r) (deadline t) then r ∷ t ∷ l else t ∷ placed deadline r l

module _ (deadline : Tid → ℕ) (r : Tid) where
  pub has-placed : (l : List Tid) (u : Tid) → has u (placed deadline r l) ≡ ((u == r) || has u l)
  has-placed [] u = refl
  has-placed (t ∷ l) u = ground (arith, has-placed l u)

  Distinct-placed : (l : List Tid) → Distinct l → has r l ≡ false → Distinct (placed deadline r l)
  Distinct-placed [] d h = (refl, tt)
  Distinct-placed (t ∷ l) d h = elim (Bool-cases (ltb (deadline r) (deadline t))) [
    | inl e ↦ rw e (h, d)
    | inr e ↦ rw e (ground (arith, has-placed l t), Distinct-placed l d.1 (ground arith))
  ]

  Sorted-placed : (l : List Tid) → Sorted deadline l → Sorted deadline (placed deadline r l)
  Sorted-placed [] d = ((λ u h. ground arith), tt)
  Sorted-placed (t ∷ l) d = elim (Bool-cases (ltb (deadline r) (deadline t))) [
    | inl e ↦ rw e ((λ u h. ground (arith, d.0 u)), d)
    | inr e ↦ rw e ((λ u h. ground (arith, has-placed l u, d.0 u)), Sorted-placed l d.1)
  ]

-- A walk from `t` linked `r` into the list `l` behind it.
record Inserted (rounds : ℕ) (t r : Tid) (s : Sched) (l : List Tid) : Type 0 where
  next : Tid → Option Tid
  ran : insert_timer rounds t r (s.deadline r) s ≡ some (record s { next = next })
  chain : Chain next (next t) (placed s.deadline r l)
  outside : (u : Tid) → (u == t) ≡ false → (u == r) ≡ false → has u l ≡ false → next u ≡ s.next u

module _ (rounds : ℕ) (t n r : Tid) (s : Sched) (l : List Tid) (c : Chain s.next (s.next t) (n ∷ l))
    (out : has t (n ∷ l) ≡ false) (r_t : (r == t) ≡ false) (r_l : has r (n ∷ l) ≡ false) where
  Inserted-here : ltb (s.deadline r) (s.deadline n) ≡ true → Inserted (suc rounds) t r s (n ∷ l)
  unfolding insert_timer
  Inserted-here e = record {
    next = update (update s.next r (some n)) t (some r);
    ran = ground arith;
    chain = transfer _ (some r) _ (r ∷ n ∷ l) _ (ground arith) (rw e refl) (
      refl,
      transfer _ (some n) _ (n ∷ l) _ (ground arith) refl (
        refl,
        transfer _ (s.next n) _ l l (ground arith) refl
            (frame s.next _ (s.next n) l c.1 (λ u h. ground arith)),
      ),
    );
    outside = λ u a b h. ground arith;
  }

  Inserted-later :
      ltb (s.deadline r) (s.deadline n) ≡ false
      → Inserted rounds n r s l
      → Inserted (suc rounds) t r s (n ∷ l)
  unfolding insert_timer
  Inserted-later e k = record {
    next = k.next;
    ran = ground (arith, k.ran);
    chain =
        transfer _ (some n) _ (n ∷ placed s.deadline r l) _ (ground (arith, k.outside t))
          (rw e refl) (refl, k.chain);
    outside = λ u a b h. ground (arith, k.outside u);
  }

Inserted-last :
    (rounds : ℕ) (t r : Tid) (s : Sched)
    → s.next t ≡ none
    → (r == t) ≡ false
    → Inserted (suc rounds) t r s []
unfolding insert_timer
Inserted-last rounds t r s c ne = record {
  next = update (update s.next r none) t (some r);
  ran = ground arith;
  chain = (ground arith, ground arith);
  outside = λ u a b h. ground arith;
}

insert_timer_lem :
    (rounds : ℕ) (t r : Tid) (s : Sched) (l : List Tid)
    → length l < rounds
    → Chain s.next (s.next t) l
    → Distinct (t ∷ l)
    → (r == t) ≡ false
    → has r l ≡ false
    → Inserted rounds t r s l
insert_timer_lem zero t r s l fuel c d ne out = absurd (omega arith)
insert_timer_lem (suc rounds) t r s [] fuel c d ne out = Inserted-last rounds t r s c ne
insert_timer_lem (suc rounds) t r s (n ∷ l) fuel c d ne out =
    elim (Bool-cases (ltb (s.deadline r) (s.deadline n))) [
      | inl e ↦ Inserted-here rounds t n r s l c d.0 ne out e
      | inr e ↦
          Inserted-later rounds t n r s l c d.0 ne out e
            (insert_timer_lem rounds n r s l (omega arith) c.1 d.1 (ground arith) (ground arith))
    ]

-- The scheduler with the deadline and the state of `r` written, before the list is.
abbrev stamped : Tid → ℕ → Sched → Sched
stamped r d s = record s { deadline = update s.deadline r d; state = update s.state r timer }

record Timed (rounds : ℕ) (r : Tid) (d : ℕ) (s : Sched) (waiting : List Tid) : Type 0 where
  next : Tid → Option Tid
  timers : Option Tid
  ran : add_timer rounds r d s ≡ some (record (stamped r d s) { next = next; timers = timers })
  chain : Chain next timers (placed (update s.deadline r d) r waiting)
  outside : (u : Tid) → (u == r) ≡ false → has u waiting ≡ false → next u ≡ s.next u

Timed-behind :
    (rounds : ℕ) (r : Tid) (d : ℕ) (s : Sched) (t : Tid) (l : List Tid)
    → s.timers ≡ some t
    → ltb d (update s.deadline r d t) ≡ false
    → Inserted rounds t r (stamped r d s) l
    → Timed rounds r d s (t ∷ l)
unfolding add_timer
Timed-behind rounds r d s t l et e k = record {
  next = k.next;
  timers = some t;
  ran = ground (arith, k.ran);
  chain =
      transfer _ (some t) _ (t ∷ placed (update s.deadline r d) r l) _ refl (ground arith)
        (refl, k.chain);
  outside = λ u a h. ground (arith, k.outside u);
}

add_timer_list :
    (rounds : ℕ) (r : Tid) (d : ℕ) (s : Sched) (waiting : List Tid)
    → length waiting ≤ rounds
    → Chain s.next s.timers waiting
    → Distinct waiting
    → has r waiting ≡ false
    → Timed rounds r d s waiting
unfolding add_timer
add_timer_list rounds r d s [] fuel c dist out = record {
  next = update s.next r none;
  timers = some r;
  ran = ground arith;
  chain = (refl, ground arith);
  outside = λ u a h. ground arith;
}
add_timer_list rounds r d s (t ∷ l) fuel c dist out =
    elim (Bool-cases (ltb d (update s.deadline r d t))) [
      | inl e ↦ record {
        next = update s.next r (some t);
        timers = some r;
        ran = ground arith;
        chain = transfer _ (some r) _ (r ∷ t ∷ l) _ refl (ground arith) (
          refl,
          transfer _ (some t) _ (t ∷ l) _ (ground arith) refl
              (frame-update s.next (some t) (t ∷ l) r (some t) (refl, c.1) out),
        );
        outside = λ u a h. ground arith;
      }
      | inr e ↦ Timed-behind rounds r d s t l c.0 e (
          insert_timer_lem rounds t r (stamped r d s) l (omega arith) c.1 dist (ground arith)
            (ground arith))
    ]

-- What a suspension of `r` until `d` leaves.
pub record Suspended (s : Sched) (ready waiting : List Tid) (r : Tid) (d : ℕ) (s' : Sched)
    : Type 0 where
  pub sched : IsSched s' ready (placed s'.deadline r waiting)
  pub state : thread_state s' r ≡ timer
  pub deadline : s'.deadline ≡ update s.deadline r d
  pub others : (u : Tid) → (u == r) ≡ false → thread_state s' u ≡ thread_state s u

module _ {s : Sched} (rounds : ℕ) (ready waiting : List Tid) (r : Tid) (d : ℕ)
    (i : IsSched s ready waiting) (now_active : thread_state s r ≡ active)
    (not_ready : has r ready ≡ false) (k : Timed rounds r d s waiting) where
  abbrev timed : Sched
  timed = record (stamped r d s) { next = k.next; timers = k.timers }

  not_waiting : has r waiting ≡ false
  not_waiting = active_not_waiting i r now_active

  timed_self : thread_state timed r ≡ timer
  timed_self = ground arith

  timed_others : (u : Tid) → (u == r) ≡ false → thread_state timed u ≡ thread_state s u
  timed_others u ne = ground arith

  ready_kept : (u : Tid) → has u ready ≡ true → (u == r) ≡ false
  ready_kept u h = ground arith

  suspended_kept : (u : Tid) → thread_state timed u ≡ suspended → (u == r) ≡ false
  suspended_kept u h = ground (arith, timed_self)

  same_deadlines : Sorted (update s.deadline r d) waiting
  same_deadlines =
      Sorted-frame s.deadline _ waiting i.waiting_sorted (λ u h. ground (arith, not_waiting))

  out_of_lists : (u : Tid) → (thread_state s u ≡ suspended) → has u waiting ≡ false
  out_of_lists u h = elim (Bool-cases (has u waiting)) [
    | inl w ↦ absurd (ground (arith, i.waiting_state u w))
    | inr w ↦ w
  ]

  timed_waiting_state :
      (u : Tid)
      → has u (placed (update s.deadline r d) r waiting) ≡ true
      → thread_state timed u ≡ timer
  timed_waiting_state u h = elim (Bool-cases (u == r)) [
    | inl e ↦ ground (arith, timed_self)
    | inr e ↦
        timed_others u e
        ∙ i.waiting_state u (ground (arith, has-placed (update s.deadline r d) r waiting u))
  ]

  timed_complete :
      (u : Tid)
      → thread_state timed u ≡ timer
      → has u (placed (update s.deadline r d) r waiting) ≡ true
  timed_complete u h = elim (Bool-cases (u == r)) [
    | inl e ↦ ground (arith, has-placed (update s.deadline r d) r waiting u)
    | inr e ↦ ground (
      arith,
      has-placed (update s.deadline r d) r waiting u,
      i.waiting_complete u (sym (timed_others u e) ∙ h),
    )
  ]

  timed-IsSched : IsSched timed ready (placed (update s.deadline r d) r waiting)
  timed-IsSched = record {
    ready_chain =
        frame s.next k.next s.head ready i.ready_chain
          (λ u h. k.outside u (ready_kept u h) (ready_not_waiting i u h));
    ready_last = i.ready_last;
    ready_distinct = i.ready_distinct;
    ready_state = λ u h. rw (timed_others u (ready_kept u h)) (i.ready_state u h);
    waiting_chain = k.chain;
    waiting_distinct =
        Distinct-placed (update s.deadline r d) r waiting i.waiting_distinct not_waiting;
    waiting_sorted = Sorted-placed (update s.deadline r d) r waiting same_deadlines;
    waiting_state = timed_waiting_state;
    waiting_complete = timed_complete;
    suspended_next = λ u h.
        let st : thread_state s u ≡ suspended = sym (timed_others u (suspended_kept u h)) ∙ h in
        k.outside u (suspended_kept u h) (out_of_lists u st) ∙ i.suspended_next u st;
  }

-- In a well-formed state with rounds for the timer list the suspension of an active thread that is
-- not in the queue returns. The thread has the deadline, is in the timer list behind the timers
-- that are due no later and before those that are due later; the list stays sorted, and no other
-- thread changes.
pub add_timer_lem :
    (rounds : ℕ) {s : Sched} (ready waiting : List Tid) (r : Tid) (d : ℕ)
    → IsSched s ready waiting
    → thread_state s r ≡ active
    → has r ready ≡ false
    → length waiting ≤ rounds
    → (s' : Sched) × (add_timer rounds r d s ≡ some s') × Suspended s ready waiting r d s'
add_timer_lem rounds {s} ready waiting r d i a out fuel = with_list (
    add_timer_list rounds r d s waiting fuel i.waiting_chain i.waiting_distinct
      (active_not_waiting i r a))
  where
    with_list :
        Timed rounds r d s waiting
        → (s' : Sched) × (add_timer rounds r d s ≡ some s') × Suspended s ready waiting r d s'
    with_list k = (
      timed rounds ready waiting r d i a out k,
      k.ran,
      record {
        sched = timed-IsSched rounds ready waiting r d i a out k;
        state = timed_self rounds ready waiting r d i a out k;
        deadline = refl;
        others = timed_others rounds ready waiting r d i a out k;
      },
    )
