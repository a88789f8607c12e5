-- ===== src/Thread/Loop/Round.antt =====
-- A whole round of the scheduling loop of `mod_main` in lib/common/mlua.thread.c: with events,
-- clock and threads that keep the queues well formed it does not fail, and keeps them so.
use micro_lua.Base.{
  ℕ, ◌<◌, ◌≡◌, refl, Bool, true, false, Option, none, some, List, [], ◌∷◌, arith, ◌==◌,
  if◌then◌else◌, update, has, length, inl, inr, Bool-cases, ◌>>=◌,
}
use micro_lua.Value.{Value, nil, boolean, integer, int64, string, other, to_boolean}
use micro_lua.Time.{to_time}
use micro_lua.Time.Ticks.{to_time-is_time}
use micro_lua.Thread.{Tid, Sched, active, suspended, timer, thread_state}
use micro_lua.Thread.Invariant.{IsSched, IsSched-touch, active_not_waiting}
use micro_lua.Thread.Resume.{is_waiting}
use micro_lua.Thread.Life.{terminate}
use micro_lua.Thread.Life.Wake.{members}
use micro_lua.Thread.Life.Kill.{Terminated, terminate_lem}
use micro_lua.Thread.Loop.{
  dispatch_deadline, add_timer, enter, yield, after_yield, after_resume, turn, round, World,
  CoResult, finished, yielded, RoundEnd, go_on, returned, raised,
}
use micro_lua.Thread.Loop.Insert.{placed, add_timer_lem}
use micro_lua.Thread.Loop.Between.{
  Covers, Covers-touch, IsRound, IsResult, IsLawful, waiting_fits, expire-IsRound,
}
use micro_lua.Thread.Loop.Turn.{IsTurn, enter-IsRound, pick-IsTurn}

-- How a round may end: the loop goes on in a state like the one it started from, or main() ends.
abbrev pub IsEnd : List Tid → RoundEnd → Sched → Type 0
IsEnd all (go_on running) s = IsRound all running s
IsEnd all (returned v) s = Unit
IsEnd all (raised v) s = Unit

abbrev pub Ends : List Tid → Option (RoundEnd × Sched) → Type 0
Ends all result = (e : RoundEnd) × (s : Sched) × (result ≡ some (e, s)) × IsEnd all e s

yield_state :
    (r : Tid) (s : Sched)
    → thread_state s r ≡ active
    → (thread_state (yield r s) r ≡ active)
      × ((u : Tid) → (u == r) ≡ false → thread_state (yield r s) u ≡ thread_state s u)
unfolding yield
yield_state r s a = (ground arith, λ u e. ground arith)

pub yield-IsRound :
    {all : List Tid} {s : Sched} (r : Tid)
    → IsRound all (some r) s
    → IsRound all (some r) (yield r s)
unfolding yield
yield-IsRound {all} {s} r i =
    let (self, others) = yield_state r s i.runs.active in
    record {
      ready = i.ready;
      waiting = i.waiting;
      sched =
          IsSched-touch i.ready i.waiting r (yield r s) i.sched i.runs.not_ready
            (active_not_waiting i.sched r i.runs.active) refl refl refl refl (λ u e. ground arith)
            others (λ h. ground arith) (ground arith);
      runs = record { active = self; next = ground arith; not_ready = i.runs.not_ready };
      covers = Covers-touch r (some r) i.ready (yield r s) i.covers (inl refl) others;
    }

-- `suspend()` without a time.
pub suspend-IsRound :
    {all : List Tid} {s : Sched} (r : Tid)
    → IsRound all (some r) s
    → IsRound all none (record s { state = update s.state r suspended })
suspend-IsRound {all} {s} r i =
    let s' : Sched = record s { state = update s.state r suspended } in
    let others : (u : Tid) → (u == r) ≡ false → thread_state s' u ≡ thread_state s u =
      λ u e. ground arith in
    record {
      ready = i.ready;
      waiting = i.waiting;
      sched =
          IsSched-touch i.ready i.waiting r s' i.sched i.runs.not_ready
            (active_not_waiting i.sched r i.runs.active) refl refl refl refl (λ u e. refl) others
            (λ h. ground (arith, i.runs.active)) i.runs.next;
      runs = tt;
      covers = Covers-touch r none i.ready s' i.covers (inr refl) others;
    }

-- `suspend()` until a time.
pub timer-IsRound :
    {all : List Tid} {s : Sched} (rounds : ℕ) (r : Tid) (d : ℕ)
    → IsRound all (some r) s
    → length all < rounds
    → (s' : Sched) × (add_timer rounds r d s ≡ some s')
      × IsRound all none s'
      × (thread_state s' r ≡ timer)
timer-IsRound {all} {s} rounds r d i fuel =
    let (s', ran, k) =
      add_timer_lem rounds i.ready i.waiting r d i.sched i.runs.active i.runs.not_ready
        ((waiting_fits rounds i.ready i.waiting i.sched i.covers fuel).0) in
    (
      s',
      ran,
      record {
        ready = i.ready;
        waiting = placed s'.deadline r i.waiting;
        sched = k.sched;
        runs = tt;
        covers = Covers-touch r none i.ready s' i.covers (inr refl) k.others;
      },
      k.state,
    )

timer-Ends :
    {all : List Tid} {s : Sched} (rounds : ℕ) (r : Tid) (d : ℕ)
    → IsRound all (some r) s
    → length all < rounds
    → Ends all (add_timer rounds r d s >>= λ s'. some (go_on none, s'))
timer-Ends rounds r d i fuel =
    let (s', ran, j, _) = timer-IsRound rounds r d i fuel in (go_on none, s', rw ran, j)

yield_one-Ends :
    {all : List Tid} {s : Sched} (rounds now : ℕ) (r : Tid) (v : Value)
    → IsRound all (some r) s
    → IsResult (yielded (v ∷ []))
    → ¬ (v ≡ nil)
    → length all < rounds
    → Ends all (to_time v now >>= λ d. add_timer rounds r d s >>= λ s'. some (go_on none, s'))
yield_one-Ends rounds now r v i result ne fuel = elim result [
  | inl e ↦ absurd (ne e)
  | inr e ↦ (let (d, read) = to_time-is_time v now e in rw read (timer-Ends rounds r d i fuel))
]

shut_down-Ends :
    (all : List Tid) (v : Value) (raise : Bool) {s : Sched}
    → Ends all (some (if raise then raised v else returned v, s))
shut_down-Ends all v true {s} = (raised v, s, refl, tt)
shut_down-Ends all v false {s} = (returned v, s, refl, tt)

-- The end of the running thread.
module _ {all : List Tid} {s : Sched} (r : Tid) (ready waiting : List Tid)
    (c : Covers all s (some r) ready) (s' : Sched)
    (t : Terminated (thread_state s) (s.joiners r) ready waiting r s') where
  terminated_waits : (u : Tid) → is_waiting (thread_state s' u) ≡ true → has u all ≡ true
  terminated_waits u h = elim (Bool-cases (u == r)) [
    | inl e ↦ (let same : u ≡ r = ground arith in rw same (c.runs r refl))
    | inr e ↦ elim (Bool-cases (has u (members (s.joiners r)))) [
      | inl k ↦ absurd (ground (arith, t.awake u k))
      | inr k ↦ c.waits u (rw (t.others u e k) at h)
    ]
  ]

  terminated_queued : (u : Tid) → has u t.ready' ≡ true → has u all ≡ true
  terminated_queued u h = elim (Bool-cases (has u ready)) [
    | inl k ↦ c.queued u k
    | inr k ↦ c.waits u (rw k at (t.source u h))
  ]

  terminated-IsRound : IsRound all none s'
  terminated-IsRound = record {
    ready = t.ready';
    waiting = t.waiting';
    sched = t.sched;
    runs = tt;
    covers = record {
      waits = terminated_waits;
      queued = terminated_queued;
      runs = λ u h. absurd (cc h);
    };
  }

after_yield-Ends :
    {all : List Tid} {s : Sched} (rounds now : ℕ) (r : Tid) (values : List Value)
    → IsRound all (some r) s
    → IsResult (yielded values)
    → length all < rounds
    → Ends all (after_yield rounds now r values s)
unfolding after_yield
after_yield-Ends rounds now r [] i ok fuel = (go_on (some r), _, refl, i)
after_yield-Ends rounds now r (nil ∷ []) i ok fuel = (go_on none, _, refl, suspend-IsRound r i)
after_yield-Ends rounds now r (integer n ∷ []) i ok fuel =
    yield_one-Ends rounds now r (integer n) i ok (λ e. cc e) fuel
after_yield-Ends rounds now r (int64 n ∷ []) i ok fuel =
    yield_one-Ends rounds now r (int64 n) i ok (λ e. cc e) fuel
after_yield-Ends rounds now r (boolean b ∷ []) i ok fuel =
    yield_one-Ends rounds now r (boolean b) i ok (λ e. cc e) fuel
after_yield-Ends rounds now r (string b ∷ []) i ok fuel =
    yield_one-Ends rounds now r (string b) i ok (λ e. cc e) fuel
after_yield-Ends rounds now r (other b ∷ []) i ok fuel =
    yield_one-Ends rounds now r (other b) i ok (λ e. cc e) fuel
after_yield-Ends {all} rounds now r (v ∷ w ∷ l) i ok fuel = shut_down-Ends all v (to_boolean w)

finish-Ends :
    {all : List Tid} {s : Sched} (rounds : ℕ) (r : Tid) (error : Option ℕ)
    → IsRound all (some r) s
    → length all < rounds
    → Ends all (
        terminate rounds r error (record s { next = update s.next r none }) >>= λ s'.
        some (go_on none, s'))
finish-Ends {all} {s} rounds r error i fuel =
    let s₁ : Sched = record s { next = update s.next r none } in
    let not_waiting = active_not_waiting i.sched r i.runs.active in
    let j : IsSched s₁ i.ready i.waiting =
      IsSched-touch i.ready i.waiting r s₁ i.sched i.runs.not_ready not_waiting refl refl refl refl
        (λ u e. ground arith) (λ u e. refl) (λ h. ground (arith, i.runs.active)) (ground arith) in
    let (s', ran, t) =
      terminate_lem {s = s₁} rounds i.ready i.waiting r error j not_waiting
        ((waiting_fits rounds i.ready i.waiting i.sched i.covers fuel).0) in
    (go_on none, s', rw ran, terminated-IsRound r i.ready i.waiting i.covers s' t)

pub after_resume-Ends :
    {all : List Tid} {s : Sched} (rounds now : ℕ) (r : Tid) (result : CoResult)
    → IsRound all (some r) s
    → IsResult result
    → length all < rounds
    → Ends all (after_resume rounds now r result s)
unfolding after_resume
after_resume-Ends rounds now r (finished e) i ok fuel = finish-Ends rounds r e i fuel
after_resume-Ends rounds now r (yielded values) i ok fuel =
    after_yield-Ends rounds now r values (yield-IsRound r i) ok fuel

turn-Ends :
    {all : List Tid} (rounds : ℕ) (world : World) (next : Option Tid) (s : Sched)
    → IsLawful all world
    → IsTurn all next s
    → length all < rounds
    → Ends all (turn rounds world next s)
unfolding turn
turn-Ends rounds world none s law i fuel = (go_on none, s, refl, i)
turn-Ends rounds world (some r) s law i fuel =
    let (j, ok) = law.run r (enter r s) (enter-IsRound r i) in
    after_resume-Ends rounds (world.ticks (world.run r (enter r s)).0) r (world.run r (enter r s)).1
      j ok fuel

-- Let every thread that ever takes part be one of `all`, and let there be more rounds for the
-- inner loops than that. If event dispatch and the threads keep the queues well formed, a round
-- from a well-formed state does not fail: no null pointer is read, no inner loop runs on. It ends
-- main(), or the loop goes on in a state that is well formed again, with at most one thread
-- running outside of the queues.
pub round-IsRound :
    {all : List Tid} (rounds : ℕ) (world : World) (running : Option Tid) (s : Sched)
    → IsLawful all world
    → IsRound all running s
    → length all < rounds
    → (e : RoundEnd) × (s' : Sched) × (round rounds world running s ≡ some (e, s')) × IsEnd all e s'
unfolding round
round-IsRound {all} rounds world running s law i fuel =
    let s₁ = world.dispatch (dispatch_deadline running s) s in
    let i₁ = law.dispatch running (dispatch_deadline running s) s i in
    let (s₂, ran₂, i₂) = expire-IsRound rounds (world.ticks s₁) running fuel i₁ in
    let (next, s₃, ran₃, i₃) = pick-IsTurn rounds running i₂ fuel in
    rw (ran₂, ran₃) (turn-Ends rounds world next s₃ law i₃ fuel)
