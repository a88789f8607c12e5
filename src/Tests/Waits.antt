-- ===== src/Tests/Waits.antt =====
-- Waits for events: 40, 44 and 52 are idle and stand in one array, and all others are disabled.
use micro_lua.Base.{
  ℕ, ◌≡◌, refl, true, ◌||◌, none, some, List, [], ◌∷◌, arith, ◌==◌, if◌then◌else◌, inr, has,
}
use micro_lua.Value.{nil}
use micro_lua.Thread.Loop.{yielded}
use micro_lua.Event.{Events, disabled, idle}
use micro_lua.Event.Queue.{IsQueue}
use micro_lua.Event.Loop.{Wakeup, dispatch}
use micro_lua.Event.Loop.System.{System}
use micro_lua.Event.Loop.Returns.{DispatchRound, dispatch_lem}
use micro_lua.Event.Wait.{watch_events, unwatch_events, all_enabled}
use micro_lua.Event.Wait.Mask.{events_of, watch_all, unwatch_all, enabled_all, watch_events_lem}
use micro_lua.Event.Wait.Wakes.{Woken, event_wait_wakes}
use micro_lua.Tests.Threads.{alone, alone-IsRound}

abbrev quiet : Events
quiet = record {
  head = none;
  tail = none;
  state = λ e. if e == 40 || e == 44 || e == 52 then idle else disabled;
  watcher = λ e. if e == 44 then some 4 else none;
}

quiet-IsQueue : IsQueue quiet []
quiet-IsQueue = record {
  chain = refl;
  ends = λ e h. absurd (cc h);
  distinct = tt;
  members = λ e. ground arith;
}

third_selected : has 52 (events_of 40 5) ≡ true
unfolding events_of
third_selected = refl

-- Thread 0, which runs, waits for events 40, 44 and 52, of which 52 arrives.
event_wait_wakes_example : Woken nil 0 40 5 52 6 0 quiet alone
event_wait_wakes_example =
    event_wait_wakes nil 0 40 5 52 6 0 (omega arith) refl third_selected refl quiet-IsQueue
      alone-IsRound (omega arith)

watch_events_lem_example :
    (watch_events 32 2 40 5 quiet ≡ some (watch_all 2 (events_of 40 5) quiet))
    × (unwatch_events 32 40 5 quiet ≡ some (unwatch_all (events_of 40 5) quiet))
    × (all_enabled 32 40 5 quiet ≡ some (enabled_all (events_of 40 5) quiet))
watch_events_lem_example = watch_events_lem 2 40 5 quiet (omega arith)

-- In the first wait event 44 is set, in the second the deadline passes.
abbrev two_waits : (deadline : ℕ) → List Wakeup
two_waits d = record { arrivals = 44 ∷ []; now = 5 } ∷ record { arrivals = []; now = d } ∷ []

dispatch_lem_example :
    DispatchRound (0 ∷ 1 ∷ 2 ∷ 3 ∷ 4 ∷ []) (some 0) (dispatch (two_waits 100) 2 6 100 0 quiet alone)
dispatch_lem_example =
    dispatch_lem (two_waits 100) 2 6 100 0 [] quiet-IsQueue alone-IsRound (omega arith)
      (omega arith) (omega arith, (omega arith, tt)) (inr (inr (omega arith)))

-- The clock stands at 0, and every thread that runs yields without a value.
abbrev small_system : System
small_system = record { ticks = λ s. 0; run = λ r q s. (q, s, yielded []) }
