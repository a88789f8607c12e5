-- ===== src/Event/Loop/System/Rounds.antt =====
-- Rounds of the scheduling loop with its events do not fail, and keep the scheduler and the event queue
-- well formed.
use micro_lua.Base.{ℕ, ◌<◌, ◌≡◌, Option, some, List, length, []}
use micro_lua.Thread.{Tid, Sched}
use micro_lua.Thread.Loop.{CoResult, RoundEnd}
use micro_lua.Thread.Loop.Between.{IsRound, IsResult}
use micro_lua.Thread.Loop.Round.{IsEnd}
use micro_lua.Event.{Ev, Events}
use micro_lua.Event.Queue.{IsQueue}
use micro_lua.Event.Loop.{Wakeup}
use micro_lua.Event.Loop.Returns.{Fits, Reaches}
use micro_lua.Event.Loop.System.{System}

-- A well-formed event queue of fewer events than the fuel.
pub record IsPending (fuel : ℕ) (q : Events) : Type 0 where
  pub events : List Ev
  pub queue : IsQueue q events
  pub few : length events < fuel

-- What is asked of a run of a thread.
pub record IsRun (all : List Tid) (fuel : ℕ) (r : Tid) (o : Events × Sched × CoResult)
    : Type 0 where
  pub pending : IsPending fuel o.0
  pub round : IsRound all (some r) o.1
  pub result : IsResult o.2

abbrev pub IsSystem : List Tid → (fuel : ℕ) → System → Type 0
IsSystem all fuel sys =
    (r : Tid) (q : Events) (s : Sched)
    → IsQueue q []
    → IsRound all (some r) s
    → IsRun all fuel r (sys.run r q s)

-- The clock reaches each deadline in the waits, and each brings fewer events than the fuel.
abbrev pub AllWake : (fuel : ℕ) → ((deadline now : ℕ) → List Wakeup) → Type 0
AllWake fuel wakeups = (d now : ℕ) → Fits fuel (wakeups d now) × Reaches d now (wakeups d now)

-- How rounds end: the loop can go on from a state like the one before, or main() has ended.
pub record Ended (all : List Tid) (fuel : ℕ) (o : Option (RoundEnd × Events × Sched)) : Type 0 where
  pub end : RoundEnd
  pub events : Events
  pub sched : Sched
  pub ran : o ≡ some (end, events, sched)
  pub pending : IsPending fuel events
  pub well : IsEnd all end sched
