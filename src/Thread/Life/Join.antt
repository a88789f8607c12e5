-- ===== src/Thread/Life/Join.antt =====
-- `Thread_join` of lib/common/mlua.thread.c with `Thread_kill`: who is woken when a thread ends.
use micro_lua.Base.{
  ℕ, ◌≤◌, ◌≡◌, ◌≢◌, ◌∙◌, ◌⊎◌, true, false, Option, some, List, arith, ◌==◌, has, length, inl, inr,
  eq_self,
}
use micro_lua.Thread.{Tid, Sched, nobody, one, many, suspended, dead, thread_state}
use micro_lua.Thread.Invariant.{IsSched}
use micro_lua.Thread.Resume.{is_waiting}
use micro_lua.Thread.Life.{waits, join, join_again, killed, kill}
use micro_lua.Thread.Life.Wake.{members}
use micro_lua.Thread.Life.Kill.{kill_lem}

-- The first two threads that join a living thread are entered, and no entry is lost.
pub join-members :
    (running self : Tid) (s : Sched)
    → thread_state s self ≢ dead
    → ((s.joiners self ≡ nobody) ⊎ ((t : Tid) × (s.joiners self ≡ one t)))
    → ((join running self s).0 ≡ waits)
      × (has running (members ((join running self s).1.joiners self)) ≡ true)
      × ((u : Tid)
          → has u (members (s.joiners self)) ≡ true
          → has u (members ((join running self s).1.joiners self)) ≡ true)
unfolding join
join-members running self s alive (inl e) = (ground arith, ground arith, λ u h. ground arith)
join-members running self s alive (inr (t, e)) = (ground arith, ground arith, λ u h. ground arith)

joined_first :
    (running self : Tid) (s : Sched)
    → thread_state s self ≢ dead
    → s.joiners self ≡ nobody
    → (join running self s).1.joiners self ≡ one running
unfolding join
joined_first running self s alive e = ground (arith, eq_self self)

-- A thread that joins when two others have joined is not entered: the thread that is joined is.
pub join-many :
    (running self : Tid) (s : Sched) (l : List Tid)
    → thread_state s self ≢ dead
    → s.joiners self ≡ many l
    → (running == self) ≡ false
    → has running l ≡ false
    → ((join running self s).0 ≡ waits)
      × (has running (members ((join running self s).1.joiners self)) ≡ false)
unfolding join
join-many running self s l alive e other out = (ground arith, ground arith)

-- Joining a dead thread ends at once, with a return or with the error that the thread left, and
-- changes nothing.
pub join-dead :
    (running self : Tid) (s : Sched)
    → thread_state s self ≡ dead
    → (join running self s ≡ (join_again self s, s)) × (join_again self s ≢ waits)
unfolding join join_again
join-dead running self s e = (ground arith, ground arith)

-- Two threads that join a living thread `self` which nobody has joined have both stopped waiting when
-- `self` has been killed: this for a kill from another thread, in a well-formed state `s` with rounds
-- for the timer list, where `self` is still alive. The entry of main.JOINERS is taken to be what the
-- first join left when the second thread joins in `s₁`, and what the second left in `s`.
pub kill-join_wakes :
    (s₀ s₁ : Sched) {s : Sched} (rounds : ℕ) (ready waiting : List Tid)
    (killer first second self : Tid) (error : Option ℕ)
    → IsSched s ready waiting
    → (self == killer) ≡ false
    → length waiting ≤ rounds
    → (thread_state s₀ self ≢ dead) × (thread_state s₁ self ≢ dead) × (thread_state s self ≢ dead)
    → s₀.joiners self ≡ nobody
    → s₁.joiners self ≡ (join first self s₀).1.joiners self
    → s.joiners self ≡ (join second self s₁).1.joiners self
    → (s' : Sched) × (kill rounds killer self error s ≡ some (killed true, s'))
      × (is_waiting (thread_state s' first) ≡ false)
      × (is_waiting (thread_state s' second) ≡ false)
kill-join_wakes s₀ s₁ {s} rounds ready waiting killer first second self error i other fuel
      (alive₀, alive₁, alive) nobody_first entry₁ entry =
    let by_first = joined_first first self s₀ alive₀ nobody_first in
    let (_, second_in, kept) =
      join-members second self s₁ alive₁ (inr (first, entry₁ ∙ by_first)) in
    let first_in : has first (members (s₁.joiners self)) ≡ true =
      rw (entry₁, by_first) (ground (arith, eq_self first)) in
    let (s', ran, t) = kill_lem rounds ready waiting killer self error i other alive fuel in
    (s', ran, t.awake first (rw entry (kept first first_in)), t.awake second (rw entry second_in))

-- A scheduler `s` at the time when `self` is killed, where the entry of main.JOINERS for `self` is
-- as `running` left it when it joined `self` in `s₀`.
module _ (s₀ : Sched) {s : Sched} (rounds : ℕ) (ready waiting : List Tid)
    (killer running self : Tid) (error : Option ℕ) (i : IsSched s ready waiting)
    (other : (self == killer) ≡ false) (was_alive : thread_state s₀ self ≢ dead)
    (alive : thread_state s self ≢ dead) (fuel : length waiting ≤ rounds)
    (entry : s.joiners self ≡ (join running self s₀).1.joiners self) where
  -- A thread other than `self` that joins `self` when a table of others without it stands in
  -- main.JOINERS, and is suspended when `self` is killed as above, is still suspended after the
  -- kill, though `self` is dead.
  pub kill-join_third :
      (l : List Tid)
      → s₀.joiners self ≡ many l
      → (running == self) ≡ false
      → has running l ≡ false
      → thread_state s running ≡ suspended
      → (s' : Sched) × (kill rounds killer self error s ≡ some (killed true, s'))
        × (thread_state s' self ≡ dead)
        × (thread_state s' running ≡ suspended)
  kill-join_third l e ne out sleeps =
      let (s', ran, t) = kill_lem rounds ready waiting killer self error i other alive fuel in
      (
        s',
        ran,
        t.gone,
        t.others running ne (rw entry ((join-many running self s₀ l was_alive e ne out).1))
            ∙ sleeps,
      )
