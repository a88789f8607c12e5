-- ===== src/Thread/Loop/Pick.antt =====
-- The choice of the next thread in `mod_main` of lib/common/mlua.thread.c: the first thread of the
-- active queue that is not dead, with the thread that ran last at the end of the queue.
use micro_lua.Base.{
  ℕ, zero, suc, ◌<◌, ◌≡◌, refl, sym, ◌∙◌, Bool, true, false, Option, none, some, List, [], ◌∷◌,
  ◌++◌, arith, ◌==◌, if◌then◌else◌, update, has, last, Distinct, length, inl, inr, Bool-cases,
  Option-cases, last-cons-ne-none, length-append,
}
use micro_lua.Thread.{Tid, Sched, ThreadState, active, suspended, dead, thread_state}
use micro_lua.Thread.Chain.{Chain, frame, frame-update}
use micro_lua.Thread.Invariant.{IsSched, behind-IsSched}
use micro_lua.Thread.Loop.{pick_loop, set_head, choose, pick}

abbrev pub is_dead : ThreadState → Bool
is_dead dead = true
is_dead _ = false

-- A queue without the dead threads at its head.
abbrev pub skip : (Tid → ThreadState) → List Tid → List Tid
skip state [] = []
skip state (t ∷ l) = if is_dead (state t) then skip state l else t ∷ l

abbrev pub first : List Tid → Option Tid
first [] = none
first (t ∷ l) = some t

abbrev pub rest : List Tid → List Tid
rest [] = []
rest (t ∷ l) = l

module _ (state : Tid → ThreadState) where
  has-skip : (l : List Tid) (u : Tid) → has u (skip state l) ≡ true → has u l ≡ true
  has-skip [] u h = h
  has-skip (t ∷ l) u h = ground (arith, has-skip l u)

  pub has-rest-skip : (l : List Tid) (u : Tid) → has u (rest (skip state l)) ≡ true → has u l ≡ true
  has-rest-skip [] u h = h
  has-rest-skip (t ∷ l) u h = ground (arith, has-rest-skip l u)

  Distinct-rest-skip : (l : List Tid) → Distinct l → Distinct (rest (skip state l))
  Distinct-rest-skip [] d = tt
  Distinct-rest-skip (t ∷ l) d = elim (Bool-cases (is_dead (state t))) [
    | inl e ↦ rw e (Distinct-rest-skip l d.1)
    | inr e ↦ rw e d.1
  ]

  last-rest-skip :
      (l : List Tid) (x : Tid) (q : List Tid)
      → rest (skip state l) ≡ x ∷ q
      → last (rest (skip state l)) ≡ last l
  last-rest-skip [] x q h = refl
  last-rest-skip (t ∷ []) x q h = absurd (ground arith)
  last-rest-skip (t ∷ u ∷ l) x q h = elim (Bool-cases (is_dead (state t))) [
    | inl d ↦ rw d (last-rest-skip (u ∷ l) x q (rw d at h))
    | inr d ↦ rw d
  ]

  pub first-not-dead :
      (l : List Tid) (r : Tid) → first (skip state l) ≡ some r → is_dead (state r) ≡ false
  first-not-dead [] r h = absurd (cc h)
  first-not-dead (t ∷ l) r h = ground (arith, first-not-dead l r)

  pub first-not-rest :
      (l : List Tid) (r : Tid)
      → Distinct l
      → first (skip state l) ≡ some r
      → has r (rest (skip state l)) ≡ false
  first-not-rest [] r d h = refl
  first-not-rest (t ∷ l) r d h = ground (arith, first-not-rest l r d.1)

  pub has-first-skip : (l : List Tid) (r : Tid) → first (skip state l) ≡ some r → has r l ≡ true
  has-first-skip [] r h = absurd (cc h)
  has-first-skip (t ∷ l) r h = ground (arith, has-first-skip l r)

-- What the walk from `h` finds in the queue `h ∷ l`; `next` differs only at dead threads.
record Found (rounds : ℕ) (h : Tid) (s : Sched) (l : List Tid) : Type 0 where
  next : Tid → Option Tid
  head : Option Tid
  ran :
      pick_loop rounds h s
      ≡ some (first (skip (thread_state s) (h ∷ l)), head, record s { next = next })
  chain : Chain next head (rest (skip (thread_state s) (h ∷ l)))
  outside : (u : Tid) → is_dead (thread_state s u) ≡ false → next u ≡ s.next u

Found-alive :
    (rounds : ℕ) (h : Tid) (s : Sched) (l : List Tid)
    → is_dead (thread_state s h) ≡ false
    → Chain s.next (s.next h) l
    → Found (suc rounds) h s l
unfolding pick_loop
Found-alive rounds h s l e c = record {
  next = s.next;
  head = s.next h;
  ran = ground arith;
  chain = rw e c;
  outside = λ u k. refl;
}

Found-dead :
    (rounds : ℕ) (h n : Tid) (s : Sched) (l : List Tid)
    → is_dead (thread_state s h) ≡ true
    → s.next h ≡ some n
    → Found rounds n (record s { next = update s.next h none }) l
    → Found (suc rounds) h s (n ∷ l)
unfolding pick_loop
Found-dead rounds h n s l e c r = record {
  next = r.next;
  head = r.head;
  ran = ground (arith, r.ran);
  chain = rw e r.chain;
  outside = λ u k. ground (arith, r.outside u k);
}

Found-last :
    (rounds : ℕ) (h : Tid) (s : Sched)
    → is_dead (thread_state s h) ≡ true
    → s.next h ≡ none
    → Found (suc rounds) h s []
unfolding pick_loop
Found-last rounds h s e c = record {
  next = update s.next h none;
  head = none;
  ran = ground arith;
  chain = rw e refl;
  outside = λ u k. ground arith;
}

pick_loop_lem :
    (rounds : ℕ) (h : Tid) (s : Sched) (l : List Tid)
    → length l < rounds
    → Chain s.next (s.next h) l
    → Distinct (h ∷ l)
    → Found rounds h s l
pick_loop_lem zero h s l fuel c d = absurd (omega arith)
pick_loop_lem (suc rounds) h s [] fuel c d = elim (Bool-cases (is_dead (thread_state s h))) [
  | inl e ↦ Found-last rounds h s e c
  | inr e ↦ Found-alive rounds h s [] e c
]
pick_loop_lem (suc rounds) h s (n ∷ l) fuel c d = elim (Bool-cases (is_dead (thread_state s h))) [
  | inl e ↦ Found-dead rounds h n s l e c.0 (
      pick_loop_lem rounds n (record s { next = update s.next h none }) l (omega arith)
        (let other : (h == n) ≡ false = ground arith in
          rw other (frame-update s.next (s.next n) l h none c.1 (ground arith)))
        d.1)
  | inr e ↦ Found-alive rounds h s (n ∷ l) e c
]

-- The queue that the walk goes through: the thread that ran last goes to its end, unless the queue
-- is empty.
abbrev pub round_robin : Option Tid → List Tid → List Tid
round_robin none l = l
round_robin (some r) l = l ++ r ∷ []

-- What the choice leaves: the thread to run, the rest of the queue, the timers as they were.
pub record Picked (state : Tid → ThreadState) (queue waiting : List Tid) (s' : Sched) : Type 0 where
  pub sched : IsSched s' (rest (skip state queue)) waiting
  pub same_state : (u : Tid) → thread_state s' u ≡ state u

module _ {s : Sched} (rounds : ℕ) (h : Tid) (l waiting : List Tid) (i : IsSched s (h ∷ l) waiting)
    (f : Found rounds h s l) where
  abbrev chosen : Option Tid → Sched
  chosen head = set_head head (record s { next = f.next })

  sched_of :
      (s' : Sched)
      → s'.timers ≡ s.timers
      → s'.deadline ≡ s.deadline
      → ((u : Tid) → thread_state s' u ≡ thread_state s u)
      → s'.next ≡ f.next
      → s'.tail ≡ last (rest (skip (thread_state s) (h ∷ l)))
      → s'.head ≡ f.head
      → IsSched s' (rest (skip (thread_state s) (h ∷ l))) waiting
  sched_of s' et ed es en el eh = record {
    ready_chain = rw (en, eh) f.chain;
    ready_last = el;
    ready_distinct = Distinct-rest-skip (thread_state s) (h ∷ l) i.ready_distinct;
    ready_state = λ u k. rw (es u) (i.ready_state u (has-rest-skip (thread_state s) (h ∷ l) u k));
    waiting_chain =
        rw (et, en)
          (frame s.next f.next s.timers waiting i.waiting_chain
            (λ u k. f.outside u (ground (arith, i.waiting_state u k))));
    waiting_distinct = i.waiting_distinct;
    waiting_sorted = rw ed i.waiting_sorted;
    waiting_state = λ u k. es u ∙ i.waiting_state u k;
    waiting_complete = λ u k. i.waiting_complete u (sym (es u) ∙ k);
    suspended_next = λ u k.
        let st : thread_state s u ≡ suspended = sym (es u) ∙ k in
        rw en (f.outside u (ground arith) ∙ i.suspended_next u st);
  }

  chosen-IsSched :
      (head : Option Tid) (q : List Tid)
      → f.head ≡ head
      → rest (skip (thread_state s) (h ∷ l)) ≡ q
      → Chain f.next head q
      → IsSched (chosen head) (rest (skip (thread_state s) (h ∷ l))) waiting
  unfolding set_head
  chosen-IsSched none [] eh eq c =
      sched_of (chosen none) refl refl (λ u. refl) refl (rw eq) (sym eh)
  chosen-IsSched none (x ∷ q) eh eq c = absurd (cc c.0)
  chosen-IsSched (some y) [] eh eq c = absurd (cc c)
  chosen-IsSched (some y) (x ∷ q) eh eq c =
      sched_of (chosen (some y)) refl refl (λ u. refl) refl
        (i.ready_last ∙ sym (last-rest-skip (thread_state s) (h ∷ l) x q eq)) (sym eh)

  chosen-Picked : Picked (thread_state s) (h ∷ l) waiting (chosen f.head)
  unfolding set_head
  chosen-Picked = record {
    sched = chosen-IsSched f.head _ refl refl f.chain;
    same_state = λ u. ground arith;
  }

choose_lem :
    {s : Sched} (rounds : ℕ) (h : Tid) (l waiting : List Tid)
    → IsSched s (h ∷ l) waiting
    → length l < rounds
    → (s' : Sched) × (choose rounds h s ≡ some (first (skip (thread_state s) (h ∷ l)), s'))
      × Picked (thread_state s) (h ∷ l) waiting s'
unfolding choose
choose_lem {s} rounds h l waiting i fuel =
    found (pick_loop_lem rounds h s l fuel i.ready_chain.1 i.ready_distinct)
  where
    found :
        Found rounds h s l
        → (s' : Sched) × (choose rounds h s ≡ some (first (skip (thread_state s) (h ∷ l)), s'))
          × Picked (thread_state s) (h ∷ l) waiting s'
    found f = (
      chosen rounds h l waiting i f f.head,
      rw (f.ran, choose),
      chosen-Picked rounds h l waiting i f,
    )

-- What the loop knows of the thread that is still running.
pub record IsRunning (s : Sched) (ready : List Tid) (r : Tid) : Type 0 where
  pub active : thread_state s r ≡ active
  pub next : s.next r ≡ none
  pub not_ready : has r ready ≡ false

abbrev pub IsRunning? : Sched → List Tid → Option Tid → Type 0
IsRunning? s ready none = Unit
IsRunning? s ready (some r) = IsRunning s ready r

pick_requeue :
    (rounds : ℕ) (s : Sched) (r e h : Tid)
    → s.tail ≡ some e
    → s.head ≡ some h
    → pick rounds (some r) s
      ≡ choose rounds h (record s { next = update s.next e (some r); tail = some r })
unfolding pick
pick_requeue rounds s r e h et eh = ground arith

pick_queue :
    (rounds : ℕ) (s : Sched) (e h : Tid)
    → s.tail ≡ some e
    → s.head ≡ some h
    → pick rounds none s ≡ choose rounds h s
unfolding pick
pick_queue rounds s e h et eh = ground arith

-- The thread that runs next: with an empty queue the one that is still running, if any.
abbrev pub next_thread : (Tid → ThreadState) → Option Tid → List Tid → Option Tid
next_thread state running [] = running
next_thread state running (h ∷ l) = first (skip state (round_robin running (h ∷ l)))

abbrev pub queue_of : Option Tid → List Tid → List Tid
queue_of running [] = []
queue_of running (h ∷ l) = round_robin running (h ∷ l)

pick_from :
    {s : Sched} (rounds : ℕ) (running : Option Tid) (h : Tid) (l waiting : List Tid) (e : Tid)
    → s.tail ≡ some e
    → IsSched s (h ∷ l) waiting
    → IsRunning? s (h ∷ l) running
    → length (h ∷ l) < rounds
    → (s' : Sched) × (pick rounds running s
        ≡ some (next_thread (thread_state s) running (h ∷ l), s'))
      × Picked (thread_state s) (round_robin running (h ∷ l)) waiting s'
pick_from {s} rounds none h l waiting e et i k fuel =
    rw (pick_queue rounds s e h et i.ready_chain.0) (choose_lem rounds h l waiting i (omega arith))
pick_from {s} rounds (some r) h l waiting e et i k fuel =
    rw (pick_requeue rounds s r e h et i.ready_chain.0) (
      choose_lem rounds h (l ++ r ∷ []) waiting
        (behind-IsSched waiting r e (h ∷ l) (sym i.ready_last ∙ et) i
          (record { state = k.active; next = k.next; not_ready = k.not_ready }))
        (omega (arith, length-append {0} l (r ∷ []))))

pub pick-idle :
    (rounds : ℕ) (running : Option Tid) (s : Sched)
    → s.tail ≡ none
    → pick rounds running s ≡ some (running, s)
unfolding pick
pick-idle rounds running s e = ground arith

-- In a well-formed state, with the running thread active and not in the queue and more rounds than
-- threads in the queue, the choice returns. The thread that was running goes to the end of the
-- queue; the first thread of the queue that is not dead runs next, and the dead ones before it are
-- dropped. With an empty queue the thread that was running goes on.
pub pick_lem :
    {s : Sched} (rounds : ℕ) (running : Option Tid) (ready waiting : List Tid)
    → IsSched s ready waiting
    → IsRunning? s ready running
    → length ready < rounds
    → (s' : Sched) × (pick rounds running s ≡ some (next_thread (thread_state s) running ready, s'))
      × Picked (thread_state s) (queue_of running ready) waiting s'
unfolding pick
pick_lem {s} rounds running [] waiting i k fuel =
    (s, ground (arith, i.ready_last), record { sched = i; same_state = λ u. refl })
pick_lem {s} rounds running (h ∷ l) waiting i k fuel = elim (Option-cases (last (h ∷ l))) [
  | inl e ↦ absurd (last-cons-ne-none h l e)
  | inr (e, le) ↦ pick_from rounds running h l waiting e (i.ready_last ∙ le) i k fuel
]
