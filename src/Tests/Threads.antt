-- ===== src/Tests/Threads.antt =====
-- The scheduler on a small set of threads: 0 runs, 1 is in the active queue, 2 is suspended, 3 and
-- 4 have timers, and all others are dead.
use micro_lua.Base.{
  ◌*◌, ◌≡◌, refl, true, false, Option, none, some, List, [], ◌∷◌, arith, leb, ◌==◌, if◌then◌else◌,
  inl, inr, ◌⊎◌, has, Bool-cases,
}
use micro_lua.Thread.{
  Tid, Sched, ThreadState, active, suspended, timer, dead, lua_yield, Joiners, nobody, one, many,
  thread_state, resume,
}
use micro_lua.Thread.Invariant.{IsSched}
use micro_lua.Thread.Resume.{Resumed, resume_lem, is_waiting}
use micro_lua.Thread.Life.{start, kill, killed, join}
use micro_lua.Thread.Life.Kill.{Terminated, kill_lem}
use micro_lua.Thread.Life.Join.{kill-join_wakes, kill-join_third}
use micro_lua.Thread.Life.Start.{start_lem}
use micro_lua.Thread.Finish.{main_done, main_done_lem, quiet}
use micro_lua.Thread.Loop.{expire, pick, add_timer, round, World, yielded, RoundEnd}
use micro_lua.Thread.Loop.Due.{Expired, expire_lem}
use micro_lua.Thread.Loop.Pick.{Picked, pick_lem, IsRunning}
use micro_lua.Thread.Loop.Insert.{Suspended, add_timer_lem}
use micro_lua.Thread.Loop.Between.{IsRound, IsLawful}
use micro_lua.Thread.Loop.Round.{IsEnd, round-IsRound}

abbrev state_of : Tid → ThreadState
state_of t =
    if leb t 1 then active else if t == 2 then suspended else if leb t 4 then timer else dead

abbrev next_of : Tid → Option Tid
next_of t = if t == 3 then some 4 else none

abbrev pub few : (Tid → Joiners) → Sched
few joiners = record {
  head = some 1;
  tail = some 1;
  timers = some 3;
  threads = λ t. leb t 4;
  joiners = joiners;
  names = λ t. none;
  next = next_of;
  termination = λ t. none;
  deadline = λ t. 50 * t;
  state = state_of;
  blocking = λ t. false;
  status = λ t. lua_yield;
  empty = λ t. false;
}

pub few-IsSched : (joiners : Tid → Joiners) → IsSched (few joiners) (1 ∷ []) (3 ∷ 4 ∷ [])
few-IsSched joiners = record {
  ready_chain = (refl, refl);
  ready_last = refl;
  ready_distinct = ground arith;
  ready_state = λ u h. ground arith;
  waiting_chain = (refl, (refl, refl));
  waiting_distinct = ground arith;
  waiting_sorted = ((λ u h. ground arith), ((λ u h. ground arith), tt));
  waiting_state = λ u h. ground arith;
  waiting_complete = λ u h. ground arith;
  suspended_next = λ u h. ground arith;
}

resume_lem_example :
    (s' : Sched) × (resume 2 3 (few (λ t. nobody)) ≡ some (true, s'))
    × Resumed (few (λ t. nobody)) (1 ∷ []) (3 ∷ 4 ∷ []) 3 s'
resume_lem_example = resume_lem 2 (1 ∷ []) (3 ∷ 4 ∷ []) 3 (few-IsSched (λ t. nobody)) (omega arith)

abbrev pub alone : Sched
alone = few (λ t. nobody)

alone_listed : (t : Tid) → (has t (0 ∷ 1 ∷ 2 ∷ 3 ∷ 4 ∷ []) ≡ true) ⊎ (thread_state alone t ≡ dead)
alone_listed t = elim (Bool-cases (leb t 4)) [
  | inl e ↦ inl (ground arith)
  | inr e ↦ inr (ground arith)
]

main_done_lem_example :
    IsSched (main_done (0 ∷ 1 ∷ 2 ∷ 3 ∷ 4 ∷ []) quiet alone) [] []
    × ((t : Tid) → thread_state (main_done (0 ∷ 1 ∷ 2 ∷ 3 ∷ 4 ∷ []) quiet alone) t ≡ dead)
main_done_lem_example = main_done_lem (0 ∷ 1 ∷ 2 ∷ 3 ∷ 4 ∷ []) alone alone_listed

expire_lem_example :
    (s' : Sched) × (expire 2 160 alone ≡ some s') × Expired alone (1 ∷ []) (3 ∷ 4 ∷ []) 160 s'
expire_lem_example =
    expire_lem 2 160 (1 ∷ []) (3 ∷ 4 ∷ []) (few-IsSched (λ t. nobody)) (omega arith)

runs : IsRunning alone (1 ∷ []) 0
runs = record { active = refl; next = refl; not_ready = refl }

pick_lem_example :
    (s' : Sched) × (pick 2 (some 0) alone ≡ some (some 1, s'))
    × Picked (thread_state alone) (1 ∷ 0 ∷ []) (3 ∷ 4 ∷ []) s'
pick_lem_example =
    pick_lem 2 (some 0) (1 ∷ []) (3 ∷ 4 ∷ []) (few-IsSched (λ t. nobody)) runs (omega arith)

add_timer_lem_example :
    (s' : Sched) × (add_timer 2 0 170 alone ≡ some s')
    × Suspended alone (1 ∷ []) (3 ∷ 4 ∷ []) 0 170 s'
add_timer_lem_example =
    add_timer_lem 2 (1 ∷ []) (3 ∷ 4 ∷ []) 0 170 (few-IsSched (λ t. nobody)) refl refl (omega arith)

kill_lem_example :
    (s' : Sched) × (kill 2 0 3 none (few (λ t. one 2)) ≡ some (killed true, s'))
    × Terminated (thread_state (few (λ t. one 2))) (one 2) (1 ∷ []) (3 ∷ 4 ∷ []) 3 s'
kill_lem_example =
    kill_lem 2 (1 ∷ []) (3 ∷ 4 ∷ []) 0 3 none (few-IsSched (λ t. one 2)) refl (λ e. cc e)
      (omega arith)

start_lem_example :
    IsSched (start (some 0) 5 none alone) (1 ∷ 5 ∷ []) (3 ∷ 4 ∷ [])
    × (thread_state (start (some 0) 5 none alone) 5 ≡ active)
    × ((start (some 0) 5 none alone).threads 5 ≡ true)
    × ((start (some 0) 5 none alone).blocking 5 ≡ false)
    × ((u : Tid)
        → (u == 5) ≡ false
        → (thread_state (start (some 0) 5 none alone) u ≡ thread_state alone u)
          × ((start (some 0) 5 none alone).blocking u ≡ alone.blocking u))
start_lem_example =
    start_lem (some 0) 5 none (1 ∷ []) (3 ∷ 4 ∷ []) (few-IsSched (λ t. nobody)) refl refl

abbrev main : Option Tid
main = some 0

abbrev only_one : List Tid
only_one = 1 ∷ []

abbrev both_timers : List Tid
both_timers = 3 ∷ 4 ∷ []

-- Thread 2 joins thread 4.
abbrev joined : Joiners → Tid → Joiners
joined before = (join 2 4 (few (λ t. before))).1.joiners

-- The entry for thread 4 after thread 2 has joined it.
abbrev joined_twice : Tid → Joiners
joined_twice = (join 3 4 (few (joined nobody))).1.joiners

kill-join_wakes_example :
    (s' : Sched) × (kill 2 0 4 none (few joined_twice) ≡ some (killed true, s'))
    × (is_waiting (thread_state s' 2) ≡ false)
    × (is_waiting (thread_state s' 3) ≡ false)
kill-join_wakes_example =
    kill-join_wakes (few (λ t. nobody)) (few (joined nobody)) 2 (1 ∷ []) (3 ∷ 4 ∷ []) 0 2 3 4 none
      (few-IsSched joined_twice) refl (omega arith) ((λ e. cc e), (λ e. cc e), (λ e. cc e)) refl
      refl refl

kill-join_third_example :
    (s' : Sched) × (kill 2 0 4 none (few (joined (many (1 ∷ 3 ∷ [])))) ≡ some (killed true, s'))
    × (thread_state s' 4 ≡ dead)
    × (thread_state s' 2 ≡ suspended)
kill-join_third_example =
    kill-join_third (few (λ t. many (1 ∷ 3 ∷ []))) 2 (1 ∷ []) (3 ∷ 4 ∷ []) 0 2 4 none
      (few-IsSched (joined (many (1 ∷ 3 ∷ [])))) refl (λ e. cc e) (λ e. cc e) (omega arith) refl
      (1 ∷ 3 ∷ []) refl refl refl refl

-- Events do nothing, the clock stands at 160, and every thread yields without a value.
abbrev idle_world : World
idle_world = record { dispatch = λ d s. s; ticks = λ s. 160; run = λ r s. (s, yielded []) }

idle_world-IsLawful : IsLawful (0 ∷ 1 ∷ 2 ∷ 3 ∷ 4 ∷ []) idle_world
idle_world-IsLawful = record { dispatch = λ running d s i. i; run = λ r s i. (i, tt) }

pub alone-IsRound : IsRound (0 ∷ 1 ∷ 2 ∷ 3 ∷ 4 ∷ []) (some 0) alone
alone-IsRound = record {
  ready = 1 ∷ [];
  waiting = 3 ∷ 4 ∷ [];
  sched = few-IsSched (λ t. nobody);
  runs = runs;
  covers = record {
    waits = λ u h. ground arith;
    queued = λ u h. ground arith;
    runs = λ u h. ground arith;
  };
}

round-IsRound_example :
    (e : RoundEnd) × (s' : Sched) × (round 6 idle_world (some 0) alone ≡ some (e, s'))
    × IsEnd (0 ∷ 1 ∷ 2 ∷ 3 ∷ 4 ∷ []) e s'
round-IsRound_example =
    round-IsRound 6 idle_world (some 0) alone idle_world-IsLawful alone-IsRound (omega arith)
