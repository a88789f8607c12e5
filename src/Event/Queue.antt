-- ===== src/Event/Queue.antt =====
-- The abstract view of the pending queue of lib/pico/event.c: a list of events, first come first
-- served.
use micro_lua.Base.{
  ◌≡◌, refl, sym, ◌∙◌, inl, inr, Bool, true, false, Option, none, some, List, [], ◌∷◌, ◌++◌, arith,
  ◌==◌, if◌then◌else◌, update, has, last, Distinct, has-append, last-has, eq_self, last-append_one,
  Distinct-append, Bool-cases, Option-cases, last-cons-ne-none,
}
use micro_lua.Thread.Chain.{Chain, frame, link}
use micro_lua.Event.{
  Ev, EventState, disabled, idle, abandoned, pending, Events, is_pending, next_pending, set, pop,
}

-- NEXT of the chain of pending events.
abbrev pub after : EventState → Option Ev
after disabled = none
after idle = none
after abandoned = none
after (pending n) = n

-- The events of `l` are pending, in this order, and no other event is. The tail only counts when
-- the queue is not empty.
pub record IsQueue (q : Events) (l : List Ev) : Type 0 where
  pub chain : Chain (λ e. after (q.state e)) q.head l
  pub ends : (e : Ev) → last l ≡ some e → q.tail ≡ some e
  pub distinct : Distinct l
  pub members : (e : Ev) → is_pending (q.state e) ≡ has e l

abbrev pub is_idle : EventState → Bool
is_idle disabled = false
is_idle idle = true
is_idle abandoned = false
is_idle (pending n) = false

pub next_pending-after :
    (st : EventState) → is_pending st ≡ true → next_pending st ≡ some (after st)
next_pending-after disabled h = absurd (cc h)
next_pending-after idle h = absurd (cc h)
next_pending-after abandoned h = absurd (cc h)
next_pending-after (pending n) h = refl

-- Enabled and not abandoned, so that the event becomes pending when it is set.
abbrev pub is_armed : EventState → Bool
is_armed disabled = false
is_armed idle = true
is_armed abandoned = false
is_armed (pending n) = true

pending-is_armed : (st : EventState) → is_pending st ≡ true → is_armed st ≡ true
pending-is_armed st h = ground arith

abbrev pub SameArmed : Events → Events → Type 0
SameArmed q q' = (e : Ev) → is_armed (q'.state e) ≡ is_armed (q.state e)

set_first :
    {q : Events} (ev : Ev)
    → IsQueue q []
    → q.state ev ≡ idle
    → (q' : Events) × (set ev q ≡ some q') × IsQueue q' (ev ∷ []) × SameArmed q q'
unfolding set
set_first {q} ev i st = (
  record q { state = update q.state ev (pending none); head = some ev; tail = some ev },
  ground (arith, i.chain),
  record {
    chain = (refl, ground arith);
    ends = λ e h. h;
    distinct = ground arith;
    members = λ e. ground (arith, i.members e);
  },
  λ e. ground arith,
)

module _ {q : Events} (ev : Ev) (l : List Ev) (i : IsQueue q l) (st : q.state ev ≡ idle) (t : Ev)
    (lt : last l ≡ some t) where
  not_queued : has ev l ≡ false
  not_queued = sym (i.members ev) ∙ ground arith

  tail_ne : (ev == t) ≡ false
  tail_ne = ground (arith, not_queued, last-has l t lt)

  appended : Events
  appended = record q {
    state = update (update q.state ev (pending none)) t (pending (some ev));
    tail = some ev;
  }

  linked :
      Chain
        (update (λ e. after (update q.state ev (pending none) e)) t (some ev))
        q.head
        (l ++ ev ∷ [])
  linked =
      link (λ e. after (update q.state ev (pending none) e)) q.head l t (some ev) (ev ∷ [])
        (frame _ _ q.head l i.chain (λ u h. ground (arith, not_queued))) lt i.distinct
        (refl, ground arith) (ground (arith, tail_ne))

  appended-IsQueue : IsQueue appended (l ++ ev ∷ [])
  unfolding appended
  appended-IsQueue = record {
    chain = frame _ _ q.head (l ++ ev ∷ []) linked (λ u h. ground arith);
    ends = λ e h. ground (arith, last-append_one l ev);
    distinct =
        Distinct-append l (ev ∷ []) i.distinct (ground arith) (λ a h. ground (arith, not_queued));
    members = λ e. ground (arith, has-append e l (ev ∷ []), i.members e, last-has l t lt);
  }

  appended-SameArmed : SameArmed q appended
  unfolding appended
  appended-SameArmed e = ground (arith, i.members t, last-has l t lt, pending-is_armed (q.state t))

  set_behind : (h : Ev) → q.head ≡ some h → set ev q ≡ some appended
  unfolding set appended
  set_behind h eh = ground (arith, i.ends t lt)

set_idle :
    {q : Events} (ev : Ev) (l : List Ev)
    → IsQueue q l
    → q.state ev ≡ idle
    → (q' : Events) × (set ev q ≡ some q') × IsQueue q' (l ++ ev ∷ []) × SameArmed q q'
set_idle ev [] i st = set_first ev i st
set_idle ev (x ∷ l) i st = elim (Option-cases (last (x ∷ l))) [
  | inl e ↦ absurd (last-cons-ne-none x l e)
  | inr (t, lt) ↦ (
    appended ev (x ∷ l) i st t lt,
    set_behind ev (x ∷ l) i st t lt x i.chain.0,
    appended-IsQueue ev (x ∷ l) i st t lt,
    appended-SameArmed ev (x ∷ l) i st t lt,
  )
]

set_other : (q : Events) (ev : Ev) → is_idle (q.state ev) ≡ false → set ev q ≡ some q
unfolding set
set_other q ev h = ground arith

is_idle_iff : (st : EventState) → is_idle st ≡ true → st ≡ idle
is_idle_iff st h = ground arith

-- An idle event that is set becomes the last of the pending queue. One that is disabled, abandoned
-- or pending already stays as it is, and so does the queue. No event is armed or disarmed.
pub set_lem :
    {q : Events} (ev : Ev) (l : List Ev)
    → IsQueue q l
    → (q' : Events) × (set ev q ≡ some q')
      × IsQueue q' (if is_idle (q.state ev) then l ++ ev ∷ [] else l)
      × SameArmed q q'
set_lem {q} ev l i = elim (Bool-cases (is_idle (q.state ev))) [
  | inl e ↦ rw e (set_idle ev l i (is_idle_iff (q.state ev) e))
  | inr e ↦ (q, set_other q ev e, rw e i, λ u. refl)
]

last-cons : (x : Ev) (l : List Ev) (e : Ev) → last l ≡ some e → last (x ∷ l) ≡ some e
last-cons x [] e h = absurd (cc h)
last-cons x (y ∷ l) e h = h

pub pop-empty : {q : Events} → IsQueue q [] → pop q ≡ some (none, q)
unfolding pop
pop-empty i = ground (arith, i.chain)

-- The dispatch takes the event that has been pending for longest: it is idle again, and the events
-- behind it stay pending in their order, with the states of all others kept.
pub pop_lem :
    {q : Events} (ev : Ev) (l : List Ev)
    → IsQueue q (ev ∷ l)
    → (q' : Events) × (pop q ≡ some (some ev, q'))
      × IsQueue q' l
      × (q'.state ev ≡ idle)
      × (q'.watcher ≡ q.watcher)
      × ((u : Ev) → (u == ev) ≡ false → q'.state u ≡ q.state u)
unfolding pop
pop_lem {q} ev l i = (
  record q { head = after (q.state ev); state = update q.state ev idle },
  ground (
    arith,
    i.chain.0,
    next_pending-after (q.state ev) (ground (arith, i.members ev, eq_self ev)),
  ),
  record {
    chain = frame _ _ (after (q.state ev)) l i.chain.1 (λ u h. ground (arith, i.distinct.0));
    ends = λ e h. i.ends e (last-cons ev l e h);
    distinct = i.distinct.1;
    members = λ e. ground (arith, i.members e, i.distinct.0);
  },
  ground arith,
  refl,
  λ u ne. ground arith,
)
