-- ===== src/Thread/Loop/Between.antt =====
-- What holds between the parts of a round of `mod_main` in lib/common/mlua.thread.c, what the loop
-- asks of events and threads, and the expiry of timers in these terms.
use micro_lua.Base.{
  ℕ, ◌≤◌, ◌<◌, ◌≡◌, refl, sym, ◌∙◌, ◌⊎◌, true, false, Option, none, some, List, [], ◌∷◌, ◌++◌,
  arith, ◌==◌, has, length, inl, inr, Bool-cases, has-append, length_le_of_subset,
}
use micro_lua.Value.{nil}
use micro_lua.Time.{is_time}
use micro_lua.Thread.{Tid, Sched, timer, thread_state}
use micro_lua.Thread.Invariant.{IsSched, active_not_waiting}
use micro_lua.Thread.Resume.{is_waiting}
use micro_lua.Thread.Loop.{expire, World, CoResult, finished, yielded}
use micro_lua.Thread.Loop.Expire.{due, pending, has-due}
use micro_lua.Thread.Loop.Due.{Expired, expire_lem}
use micro_lua.Thread.Loop.Pick.{IsRunning?}

-- All threads that take part are among `all`.
pub record Covers (all : List Tid) (s : Sched) (running : Option Tid) (queue : List Tid)
    : Type 0 where
  pub waits : (u : Tid) → is_waiting (thread_state s u) ≡ true → has u all ≡ true
  pub queued : (u : Tid) → has u queue ≡ true → has u all ≡ true
  pub runs : (u : Tid) → running ≡ some u → has u all ≡ true

-- Only the running thread changed, and it goes on or stops.
pub Covers-touch :
    {all : List Tid} {s : Sched} (r : Tid) (running : Option Tid) (queue : List Tid) (s' : Sched)
    → Covers all s (some r) queue
    → (running ≡ some r) ⊎ (running ≡ none)
    → ((u : Tid) → (u == r) ≡ false → thread_state s' u ≡ thread_state s u)
    → Covers all s' running queue
Covers-touch {s} r running queue s' c e others = record {
  waits = λ u h. elim (Bool-cases (u == r)) [
    | inl e ↦ (let same : u ≡ r = ground arith in rw same (c.runs r refl))
    | inr e ↦ c.waits u (rw (others u e) at h)
  ];
  queued = c.queued;
  runs = λ u h. elim e [ inl k ↦ c.runs u (sym k ∙ h) | inr k ↦ absurd (ground arith) ];
}

-- The state at the start of a round.
pub record IsRound (all : List Tid) (running : Option Tid) (s : Sched) : Type 0 where
  pub ready : List Tid
  pub waiting : List Tid
  pub sched : IsSched s ready waiting
  pub runs : IsRunning? s ready running
  pub covers : Covers all s running ready

-- A result of `lua_resume` that the loop can take: one value that is yielded is nil or a time.
abbrev pub IsResult : CoResult → Type 0
IsResult (finished e) = Unit
IsResult (yielded (v ∷ [])) = (v ≡ nil) ⊎ (is_time v ≡ true)
IsResult (yielded _) = Unit

-- What the loop asks of its environment: event dispatch and the run of a thread leave the queues
-- well formed, with the thread that runs outside of them, and name no thread outside `all`.
pub record IsLawful (all : List Tid) (world : World) : Type 0 where
  pub dispatch :
      (running : Option Tid) (d : ℕ) (s : Sched)
      → IsRound all running s
      → IsRound all running (world.dispatch d s)
  pub run :
      (r : Tid) (s : Sched)
      → IsRound all (some r) s
      → IsRound all (some r) (world.run r s).0 × IsResult (world.run r s).1

pub waiting_fits :
    {all : List Tid} {s : Sched} {running : Option Tid} (rounds : ℕ) (ready waiting : List Tid)
    → IsSched s ready waiting
    → Covers all s running ready
    → length all < rounds
    → (length waiting ≤ rounds) × (length ready < rounds)
waiting_fits {all} {s} rounds ready waiting i c fuel =
    let w : length waiting ≤ length all =
      length_le_of_subset waiting all i.waiting_distinct
        (λ u h. c.waits u (rw (i.waiting_state u h))) in
    let r : length ready ≤ length all = length_le_of_subset ready all i.ready_distinct c.queued in
    (omega arith, omega arith)

module _ {all : List Tid} {s : Sched} (running : Option Tid) (ready waiting : List Tid)
    (i : IsSched s ready waiting) (k : IsRunning? s ready running) (c : Covers all s running ready)
    (ticks : ℕ) (s' : Sched) (x : Expired s ready waiting ticks s') where
  abbrev queue : List Tid
  queue = ready ++ due s.deadline ticks waiting

  not_due : (u : Tid) → ¬ (thread_state s u ≡ timer) → has u (due s.deadline ticks waiting) ≡ false
  not_due u ne = elim (Bool-cases (has u (due s.deadline ticks waiting))) [
    | inl h ↦ absurd (ne (i.waiting_state u (has-due s.deadline ticks waiting u h)))
    | inr h ↦ h
  ]

  expired_running : (r : Option Tid) → running ≡ r → IsRunning? s ready r → IsRunning? s' queue r
  expired_running none e k = tt
  expired_running (some r) e k =
      let out = not_due r (λ h. ground (arith, k.active)) in
      record {
        active = x.others r out ∙ k.active;
        next = x.outside r k.not_ready (active_not_waiting i r k.active) ∙ k.next;
        not_ready = ground (arith, has-append r ready (due s.deadline ticks waiting), k.not_ready);
      }

  expired_queued : (u : Tid) → has u queue ≡ true → has u all ≡ true
  expired_queued u h = elim (Bool-cases (has u ready)) [
    | inl r ↦ c.queued u r
    | inr r ↦ c.waits u (
        rw (
          i.waiting_state u (
            has-due s.deadline ticks waiting u
              (ground (arith, has-append u ready (due s.deadline ticks waiting))))))
  ]

  expired_waits : (u : Tid) → is_waiting (thread_state s' u) ≡ true → has u all ≡ true
  expired_waits u h = elim (Bool-cases (has u (due s.deadline ticks waiting))) [
    | inl d ↦ absurd (ground (arith, x.woken u d))
    | inr d ↦ c.waits u (rw (x.others u d) at h)
  ]

  expired-IsRound : IsRound all running s'
  expired-IsRound = record {
    ready = queue;
    waiting = pending s.deadline ticks waiting;
    sched = x.sched;
    runs = expired_running running refl k;
    covers = record { waits = expired_waits; queued = expired_queued; runs = c.runs };
  }

pub expire-IsRound :
    {all : List Tid} {s : Sched} (rounds ticks : ℕ) (running : Option Tid)
    → length all < rounds
    → IsRound all running s
    → (s' : Sched) × (expire rounds ticks s ≡ some s') × IsRound all running s'
expire-IsRound rounds ticks running fuel i =
    let (s', ran, x) =
      expire_lem rounds ticks i.ready i.waiting i.sched
        ((waiting_fits rounds i.ready i.waiting i.sched i.covers fuel).0) in
    (s', ran, expired-IsRound running i.ready i.waiting i.sched i.runs i.covers ticks s' x)
