-- ===== src/Thread/Loop/Park.antt =====
-- A thread that yields nil or a time to the loop of lib/common/mlua.thread.c is put aside.
use micro_lua.Base.{
  ℕ, ◌<◌, ◌≡◌, refl, ◌⊎◌, inl, inr, true, some, none, List, [], ◌∷◌, length, arith, update, ◌>>=◌,
  Option,
}
use micro_lua.Value.{Value, nil, boolean, integer, int64, string, other}
use micro_lua.Time.{is_time, to_time}
use micro_lua.Time.Ticks.{to_time-is_time}
use micro_lua.Thread.{Tid, Sched, suspended, thread_state}
use micro_lua.Thread.Resume.{is_waiting}
use micro_lua.Thread.Loop.{add_timer, after_yield, after_resume, yielded, RoundEnd, go_on}
use micro_lua.Thread.Loop.Between.{IsRound}
use micro_lua.Thread.Loop.Round.{yield-IsRound, suspend-IsRound, timer-IsRound}

-- What the loop leaves of a thread that is put aside.
pub record Parked (all : List Tid) (t : Tid) (s : Sched) (o : Option (RoundEnd × Sched))
    : Type 0 where
  pub asleep : Sched
  pub ran : o ≡ some (go_on none, asleep)
  pub round : IsRound all none asleep
  pub waits : is_waiting (thread_state asleep t) ≡ true

module _ {all : List Tid} {s : Sched} (rounds now : ℕ) (t : Tid) (i : IsRound all (some t) s)
    (fuel : length all < rounds) where
  timed-Parked :
      (v : Value)
      → is_time v ≡ true
      → Parked all t s
          (to_time v now >>= λ d. add_timer rounds t d s >>= λ s'. some (go_on none, s'))
  timed-Parked v e =
      let (d, read) = to_time-is_time v now e in
      let (s', ran, j, st) = timer-IsRound rounds t d i fuel in
      record { asleep = s'; ran = rw (read, ran); round = j; waits = rw st }

  after_yield-Parked :
      (v : Value)
      → (v ≡ nil) ⊎ (is_time v ≡ true)
      → Parked all t s (after_yield rounds now t (v ∷ []) s)
  unfolding after_yield
  after_yield-Parked nil h = record {
    asleep = record s { state = update s.state t suspended };
    ran = refl;
    round = suspend-IsRound t i;
    waits = ground (arith, i.runs.active);
  }
  after_yield-Parked (integer n) (inr e) = timed-Parked (integer n) e
  after_yield-Parked (int64 n) (inr e) = timed-Parked (int64 n) e
  after_yield-Parked (boolean b) (inr e) = timed-Parked (boolean b) e
  after_yield-Parked (string b) (inr e) = timed-Parked (string b) e
  after_yield-Parked (other b) (inr e) = timed-Parked (other b) e
  after_yield-Parked (integer n) (inl e) = absurd (cc e)
  after_yield-Parked (int64 n) (inl e) = absurd (cc e)
  after_yield-Parked (boolean b) (inl e) = absurd (cc e)
  after_yield-Parked (string b) (inl e) = absurd (cc e)
  after_yield-Parked (other b) (inl e) = absurd (cc e)

-- The running thread that yields nil or a time waits, and the loop goes on without it.
pub after_resume-Parked :
    {all : List Tid} {s : Sched} (rounds now : ℕ) (t : Tid) (v : Value)
    → IsRound all (some t) s
    → length all < rounds
    → (v ≡ nil) ⊎ (is_time v ≡ true)
    → Parked all t s (after_resume rounds now t (yielded (v ∷ [])) s)
unfolding after_resume
after_resume-Parked rounds now t v i fuel h =
    let p = after_yield-Parked rounds now t (yield-IsRound t i) fuel v h in
    record { asleep = p.asleep; ran = p.ran; round = p.round; waits = p.waits }
