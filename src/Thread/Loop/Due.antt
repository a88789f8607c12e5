-- ===== src/Thread/Loop/Due.antt =====
-- The expiry of timers in `mod_main` of lib/common/mlua.thread.c keeps the invariant, and moves
-- the timers that are due behind the active queue.
use micro_lua.Base.{
  ℕ, ◌≤◌, ◌≡◌, refl, sym, ◌∙◌, ◌⊎◌, true, false, Option, none, some, List, [], ◌∷◌, ◌++◌, arith,
  leb, update, has, last, Distinct, length, inl, inr, Bool-cases, Option-cases, last-has,
  last-cons-ne-none, last-append-cons, has-append, Distinct-append, append_assoc, append-nil,
}
use micro_lua.Thread.{Tid, Sched, active, suspended, timer, dead, thread_state}
use micro_lua.Thread.Chain.{Chain, transfer, frame, link, cut}
use micro_lua.Thread.Invariant.{IsSched, ready_not_waiting, waiting_not_ready}
use micro_lua.Thread.Loop.{append_timers, expire}
use micro_lua.Thread.Loop.Expire.{
  due, pending, due-append-pending, has-due, has-pending, due_or_pending, due_not_pending,
  Distinct-due, Distinct-pending, Sorted-pending, Cut, expire_loop_lem,
}

-- The timer list behind the active queue, before it is cut.
record Linked (t : Tid) (s : Sched) (ready l : List Tid) : Type 0 where
  next : Tid → Option Tid
  head : Option Tid
  ran : append_timers t s ≡ record s { head = head; next = next }
  chain : Chain next head (ready ++ t ∷ l)
  outside : (u : Tid) → has u ready ≡ false → next u ≡ s.next u

append_timers_lem :
    {s : Sched} (ready : List Tid) (t : Tid) (l : List Tid)
    → IsSched s ready (t ∷ l)
    → Linked t s ready l
unfolding append_timers
append_timers_lem {s} [] t l i = record {
  next = s.next;
  head = some t;
  ran = ground (arith, i.ready_last);
  chain = (refl, i.waiting_chain.1);
  outside = λ u h. refl;
}
append_timers_lem {s} (x ∷ ready) t l i = elim (Option-cases (last (x ∷ ready))) [
  | inl e ↦ absurd (last-cons-ne-none x ready e)
  | inr (e, le) ↦ record {
    next = update s.next e (some t);
    head = s.head;
    ran = ground (arith, i.ready_last);
    chain =
        link s.next s.head (x ∷ ready) e (some t) (t ∷ l) i.ready_chain le i.ready_distinct
          (refl, i.waiting_chain.1) (ready_not_waiting i e (last-has (x ∷ ready) e le));
    outside = λ u h. ground (arith, last-has (x ∷ ready) e le);
  }
]

module _ {s : Sched} (rounds : ℕ) (ticks : ℕ) (ready : List Tid) (t : Tid) (l : List Tid)
    (i : IsSched s ready (t ∷ l)) (first : leb (s.deadline t) ticks ≡ true) (k : Linked t s ready l)
    (c : Cut rounds t ticks (record s { head = k.head; next = k.next }) l) where
  abbrev expired : Sched
  expired = record s {
    head = k.head;
    next = update k.next c.end none;
    state = c.state;
    timers = c.timers;
    tail = some c.end;
  }

  abbrev moved : List Tid
  moved = t ∷ due s.deadline ticks l

  moved_waiting : (u : Tid) → has u moved ≡ true → has u (t ∷ l) ≡ true
  moved_waiting u h = ground (arith, has-due s.deadline ticks l u)

  ready_not_moved : (u : Tid) → has u ready ≡ true → has u moved ≡ false
  ready_not_moved u h = elim (Bool-cases (has u moved)) [
    | inl m ↦ absurd (ground (arith, moved_waiting u m, ready_not_waiting i u h))
    | inr m ↦ m
  ]

  Distinct-moved : Distinct moved
  Distinct-moved = (
    ground (arith, i.waiting_distinct.0, has-due s.deadline ticks l t),
    Distinct-due s.deadline ticks l i.waiting_distinct.1,
  )

  state_moved : (u : Tid) → has u moved ≡ true → thread_state expired u ≡ active
  state_moved u h = ground (arith, c.made_active u h, i.waiting_state u (moved_waiting u h))

  state_kept : (u : Tid) → has u moved ≡ false → thread_state expired u ≡ thread_state s u
  state_kept u h = ground (arith, c.kept u h)

  whole : Chain k.next k.head ((ready ++ moved) ++ pending s.deadline ticks l)
  whole =
      transfer k.next k.head k.head (ready ++ t ∷ l) _ refl
        (rw (
          append_assoc ready moved (pending s.deadline ticks l),
          due-append-pending s.deadline ticks l,
        ))
        k.chain

  is_last : last (ready ++ moved) ≡ some c.end
  is_last = last-append-cons ready t (due s.deadline ticks l) ∙ c.is_last

  end_moved : has c.end moved ≡ true
  end_moved = last-has moved c.end c.is_last

  Distinct-ready_moved : Distinct (ready ++ moved)
  Distinct-ready_moved = Distinct-append ready moved i.ready_distinct Distinct-moved ready_not_moved

  -- A pending timer was waiting, and is not one of those that moved.
  pending_waiting : (u : Tid) → has u (pending s.deadline ticks l) ≡ true → has u (t ∷ l) ≡ true
  pending_waiting u h = ground (arith, has-pending s.deadline ticks l u)

  pending_not_moved : (u : Tid) → has u (pending s.deadline ticks l) ≡ true → has u moved ≡ false
  pending_not_moved u h = elim (Bool-cases (has u moved)) [
    | inl m ↦ absurd (
        ground (
          arith,
          i.waiting_distinct.0,
          has-pending s.deadline ticks l u,
          due_not_pending s.deadline ticks l u i.waiting_distinct.1,
        ))
    | inr m ↦ m
  ]

  pending_not_ready : (u : Tid) → has u (pending s.deadline ticks l) ≡ true → has u ready ≡ false
  pending_not_ready u h = elim (Bool-cases (has u ready)) [
    | inl m ↦ absurd (ground (arith, pending_waiting u h, ready_not_waiting i u m))
    | inr m ↦ m
  ]

  expired_next : (u : Tid) → has u ready ≡ false → has u moved ≡ false → expired.next u ≡ s.next u
  expired_next u a b = ground (arith, k.outside u a, end_moved)

  not_moved_of_timer : (u : Tid) → thread_state expired u ≡ timer → has u moved ≡ false
  not_moved_of_timer u h = elim (Bool-cases (has u moved)) [
    | inl m ↦ absurd (ground (arith, state_moved u m))
    | inr m ↦ m
  ]

  not_moved_of_suspended : (u : Tid) → thread_state expired u ≡ suspended → has u moved ≡ false
  not_moved_of_suspended u h = elim (Bool-cases (has u moved)) [
    | inl m ↦ absurd (ground (arith, state_moved u m))
    | inr m ↦ m
  ]

  suspended_not_ready : (u : Tid) → thread_state s u ≡ suspended → has u ready ≡ false
  suspended_not_ready u h = elim (Bool-cases (has u ready)) [
    | inl m ↦ absurd (ground (arith, i.ready_state u m))
    | inr m ↦ m
  ]

  expired_ready_state :
      (u : Tid)
      → has u (ready ++ moved) ≡ true
      → (thread_state expired u ≡ active) ⊎ (thread_state expired u ≡ dead)
  expired_ready_state u h = elim (Bool-cases (has u moved)) [
    | inl m ↦ inl (state_moved u m)
    | inr m ↦ rw (state_kept u m) (i.ready_state u (ground (arith, has-append u ready moved)))
  ]

  expired-IsSched : IsSched expired (ready ++ moved) (pending s.deadline ticks l)
  expired-IsSched = record {
    ready_chain = cut k.next k.head (ready ++ moved) c.end _ whole is_last Distinct-ready_moved;
    ready_last = sym is_last;
    ready_distinct = Distinct-ready_moved;
    ready_state = expired_ready_state;
    waiting_chain =
        frame k.next expired.next c.timers (pending s.deadline ticks l) c.chain
          (λ u h. ground (arith, pending_not_moved u h, end_moved));
    waiting_distinct = Distinct-pending s.deadline ticks l i.waiting_distinct.1;
    waiting_sorted = Sorted-pending s.deadline ticks l i.waiting_sorted.1;
    waiting_state =
        λ u h. state_kept u (pending_not_moved u h) ∙ i.waiting_state u (pending_waiting u h);
    waiting_complete = λ u h.
        let out = not_moved_of_timer u h in
        let was = i.waiting_complete u (sym (state_kept u out) ∙ h) in
        due_or_pending s.deadline ticks l u (ground arith) (ground arith);
    suspended_next = λ u h.
        let out = not_moved_of_suspended u h in
        let st = sym (state_kept u out) ∙ h in
        expired_next u (suspended_not_ready u st) out ∙ i.suspended_next u st;
  }

-- What the expiry at `ticks` leaves of a scheduler with the two lists.
pub record Expired (s : Sched) (ready waiting : List Tid) (ticks : ℕ) (s' : Sched) : Type 0 where
  pub sched : IsSched s' (ready ++ due s.deadline ticks waiting) (pending s.deadline ticks waiting)
  pub woken : (u : Tid) → has u (due s.deadline ticks waiting) ≡ true → thread_state s' u ≡ active
  pub others :
      (u : Tid)
      → has u (due s.deadline ticks waiting) ≡ false
      → thread_state s' u ≡ thread_state s u
  pub outside : (u : Tid) → has u ready ≡ false → has u waiting ≡ false → s'.next u ≡ s.next u
  pub same_deadline : s'.deadline ≡ s.deadline

Expired-none :
    {s : Sched} (ready waiting : List Tid) (ticks : ℕ)
    → due s.deadline ticks waiting ≡ []
    → pending s.deadline ticks waiting ≡ waiting
    → IsSched s ready waiting
    → Expired s ready waiting ticks s
Expired-none {s} ready waiting ticks d p i = record {
  sched = rw (d, p, append-nil ready) i;
  woken = λ u h. absurd (ground (arith, d));
  others = λ u h. refl;
  outside = λ u a b. refl;
  same_deadline = refl;
}

Expired-some :
    {s : Sched} (rounds ticks : ℕ) (ready : List Tid) (t : Tid) (l : List Tid)
    → IsSched s ready (t ∷ l)
    → leb (s.deadline t) ticks ≡ true
    → (k : Linked t s ready l) → Cut rounds t ticks (record s { head = k.head; next = k.next }) l
    → (s' : Sched) × (expire rounds ticks s ≡ some s') × Expired s ready (t ∷ l) ticks s'
unfolding expire
Expired-some {s} rounds ticks ready t l i first k c = (
  expired rounds ticks ready t l i first k c,
  ground (arith, k.ran, c.ran, i.waiting_chain.0),
  record {
    sched = rw first (expired-IsSched rounds ticks ready t l i first k c);
    woken = rw first (state_moved rounds ticks ready t l i first k c);
    others = rw first (state_kept rounds ticks ready t l i first k c);
    outside = λ u a b.
        expired_next rounds ticks ready t l i first k c u a
          (ground (arith, has-due s.deadline ticks l u));
    same_deadline = refl;
  },
)

-- In a well-formed state with rounds for the whole timer list the expiry returns: the timers with
-- a deadline up to `ticks` leave the list, become active and stand, in the order of their
-- deadlines, behind the active queue; the others stay in the timer list. No other thread changes
-- its state.
pub expire_lem :
    (rounds ticks : ℕ) {s : Sched} (ready waiting : List Tid)
    → IsSched s ready waiting
    → length waiting ≤ rounds
    → (s' : Sched) × (expire rounds ticks s ≡ some s') × Expired s ready waiting ticks s'
unfolding expire
expire_lem rounds ticks {s} ready [] i fuel =
    (s, ground (arith, i.waiting_chain), Expired-none ready [] ticks refl refl i)
expire_lem rounds ticks {s} ready (t ∷ l) i fuel = elim (Bool-cases (leb (s.deadline t) ticks)) [
  | inl e ↦ linked e (append_timers_lem ready t l i)
  | inr e ↦ (s, ground (arith, i.waiting_chain.0), Expired-none ready (t ∷ l) ticks (rw e) (rw e) i)
]
  where
    linked :
        leb (s.deadline t) ticks ≡ true
        → Linked t s ready l
        → (s' : Sched) × (expire rounds ticks s ≡ some s') × Expired s ready (t ∷ l) ticks s'
    linked e k = Expired-some rounds ticks ready t l i e k (
        expire_loop_lem rounds t ticks (record s { head = k.head; next = k.next }) l (omega arith)
          (frame s.next k.next _ l
            (rw (k.outside t (waiting_not_ready i t (ground arith))) i.waiting_chain.1)
            (λ u h. k.outside u (waiting_not_ready i u (ground arith)))))
