-- ===== src/Thread/Loop/Turn.antt =====
-- From the choice of a thread to `lua_resume` in `mod_main` of lib/common/mlua.thread.c.
use micro_lua.Base.{
  ℕ, ◌<◌, ◌≡◌, refl, ◌∙◌, true, false, Option, none, some, List, [], ◌∷◌, arith, ◌==◌, has, length,
  inl, inr, Bool-cases, has-append, Distinct, Distinct-append,
}
use micro_lua.Thread.{Tid, Sched, active, thread_state}
use micro_lua.Thread.Invariant.{IsSched, IsSched-touch, active_not_waiting}
use micro_lua.Thread.Loop.{pick, enter}
use micro_lua.Thread.Loop.Pick.{
  pick-idle, IsRunning?, Picked, pick_lem, next_thread, queue_of, skip, first, rest, has-rest-skip,
  first-not-dead, first-not-rest, has-first-skip, is_dead,
}
use micro_lua.Thread.Loop.Between.{Covers, Covers-touch, IsRound, waiting_fits}

-- The thread that was chosen, before it is resumed.
pub record IsChosen (all : List Tid) (r : Tid) (s : Sched) : Type 0 where
  pub ready : List Tid
  pub waiting : List Tid
  pub sched : IsSched s ready waiting
  pub active : thread_state s r ≡ active
  pub not_ready : has r ready ≡ false
  pub covers : Covers all s (some r) ready

-- After the choice there is a thread to run, or none and an empty queue.
abbrev pub IsTurn : List Tid → Option Tid → Sched → Type 0
IsTurn all none s = IsRound all none s
IsTurn all (some r) s = IsChosen all r s

round_robin_queued :
    {all : List Tid} {s : Sched} (running : Option Tid) (ready : List Tid) (u : Tid)
    → Covers all s running ready
    → has u (queue_of running ready) ≡ true
    → has u all ≡ true
round_robin_queued none [] u c h = absurd (cc h)
round_robin_queued (some r) [] u c h = absurd (cc h)
round_robin_queued none (x ∷ l) u c h = c.queued u h
round_robin_queued {all} (some r) (x ∷ l) u c h = elim (Bool-cases (u == r)) [
  | inl e ↦ (let same : u ≡ r = ground arith in rw same (c.runs r refl))
  | inr e ↦ c.queued u (ground (arith, has-append u l (r ∷ [])))
]

-- A thread of the queue that is not dead is active.
queue_active :
    {s : Sched} (running : Option Tid) (ready waiting : List Tid) (u : Tid)
    → IsSched s ready waiting
    → IsRunning? s ready running
    → has u (queue_of running ready) ≡ true
    → is_dead (thread_state s u) ≡ false
    → thread_state s u ≡ active
queue_active none [] waiting u i k h d = absurd (cc h)
queue_active (some r) [] waiting u i k h d = absurd (cc h)
queue_active none (x ∷ l) waiting u i k h d = ground (arith, i.ready_state u h)
queue_active (some r) (x ∷ l) waiting u i k h d = elim (Bool-cases (u == r)) [
  | inl e ↦ (let same : u ≡ r = ground arith in rw same k.active)
  | inr e ↦ ground (arith, i.ready_state u, has-append u l (r ∷ []))
]

enter_state :
    (r : Tid) (s : Sched)
    → thread_state s r ≡ active
    → (thread_state (enter r s) r ≡ active)
      × ((u : Tid) → (u == r) ≡ false → thread_state (enter r s) u ≡ thread_state s u)
unfolding enter
enter_state r s a = (ground arith, λ u e. ground arith)

-- Resuming a thread takes NEXT off its stack and leaves the queues as they are.
pub enter-IsRound :
    {all : List Tid} {s : Sched} (r : Tid) → IsChosen all r s → IsRound all (some r) (enter r s)
unfolding enter
enter-IsRound {all} {s} r c =
    let (self, others) = enter_state r s c.active in
    record {
      ready = c.ready;
      waiting = c.waiting;
      sched =
          IsSched-touch c.ready c.waiting r (enter r s) c.sched c.not_ready
            (active_not_waiting c.sched r c.active) refl refl refl refl (λ u e. ground arith) others
            (λ h. ground arith) (ground arith);
      runs = record { active = self; next = ground arith; not_ready = c.not_ready };
      covers = Covers-touch r (some r) c.ready (enter r s) c.covers (inl refl) others;
    }

module _ {all : List Tid} {s : Sched} (running : Option Tid) (ready waiting : List Tid)
    (i : IsSched s ready waiting) (k : IsRunning? s ready running) (c : Covers all s running ready)
    (distinct : Distinct (queue_of running ready)) (s' : Sched)
    (p : Picked (thread_state s) (queue_of running ready) waiting s') where
  abbrev queue : List Tid
  queue = rest (skip (thread_state s) (queue_of running ready))

  picked-Covers :
      (next : Option Tid)
      → ((u : Tid) → next ≡ some u → has u all ≡ true)
      → Covers all s' next queue
  picked-Covers next in_all = record {
    waits = λ u h. c.waits u (rw (p.same_state u) at h);
    queued = λ u h.
        round_robin_queued running ready u c
          (has-rest-skip (thread_state s) (queue_of running ready) u h);
    runs = in_all;
  }

  from_queue :
      (next : Option Tid)
      → first (skip (thread_state s) (queue_of running ready)) ≡ next
      → IsTurn all next s'
  from_queue none e = record {
    ready = queue;
    waiting = waiting;
    sched = p.sched;
    runs = tt;
    covers = picked-Covers none (λ u h. absurd (cc h));
  }
  from_queue (some r) e =
      let inside = has-first-skip (thread_state s) (queue_of running ready) r e in
      record {
        ready = queue;
        waiting = waiting;
        sched = p.sched;
        active =
            p.same_state r
            ∙ queue_active running ready waiting r i k inside
                (first-not-dead (thread_state s) (queue_of running ready) r e);
        not_ready = first-not-rest (thread_state s) (queue_of running ready) r distinct e;
        covers =
            picked-Covers (some r)
              (λ u h. round_robin_queued running ready u c (ground (arith, inside)));
      }

IsTurn-running :
    {all : List Tid} {s : Sched} (running : Option Tid)
    → IsRound all running s
    → IsTurn all running s
IsTurn-running none i = i
IsTurn-running (some r) i = record {
  ready = i.ready;
  waiting = i.waiting;
  sched = i.sched;
  active = i.runs.active;
  not_ready = i.runs.not_ready;
  covers = i.covers;
}

queue-Distinct :
    (s : Sched) (running : Option Tid) (ready : List Tid)
    → Distinct ready
    → IsRunning? s ready running
    → Distinct (queue_of running ready)
queue-Distinct s running [] d k = tt
queue-Distinct s none (x ∷ l) d k = d
queue-Distinct s (some r) (x ∷ l) d k =
    Distinct-append (x ∷ l) (r ∷ []) d (refl, tt) (λ u h. ground (arith, k.not_ready))

pick_by :
    {all : List Tid} {s : Sched} (rounds : ℕ) (running : Option Tid) (ready waiting : List Tid)
    → IsSched s ready waiting
    → IsRunning? s ready running
    → Covers all s running ready
    → length all < rounds
    → (next : Option Tid) × (s' : Sched) × (pick rounds running s ≡ some (next, s'))
      × IsTurn all next s'
pick_by {s} rounds running [] waiting i k c fuel = (
  running,
  s,
  pick-idle rounds running s i.ready_last,
  IsTurn-running running
      (record { ready = []; waiting = waiting; sched = i; runs = k; covers = c }),
)
pick_by {s} rounds running (h ∷ l) waiting i k c fuel =
    let (s', ran, p) =
      pick_lem rounds running (h ∷ l) waiting i k
        ((waiting_fits rounds (h ∷ l) waiting i c fuel).1) in
    (
      next_thread (thread_state s) running (h ∷ l),
      s',
      ran,
      from_queue running (h ∷ l) waiting i k c (queue-Distinct s running (h ∷ l) i.ready_distinct k)
          s' p _ refl,
    )

pub pick-IsTurn :
    {all : List Tid} {s : Sched} (rounds : ℕ) (running : Option Tid)
    → IsRound all running s
    → length all < rounds
    → (next : Option Tid) × (s' : Sched) × (pick rounds running s ≡ some (next, s'))
      × IsTurn all next s'
pick-IsTurn rounds running i fuel =
    pick_by rounds running i.ready i.waiting i.sched i.runs i.covers fuel
