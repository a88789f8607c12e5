-- ===== src/Tests/Pending.antt =====
-- The queue of pending events: 8 and 12 are pending, 16 is idle, 20 is abandoned, and all others
-- are disabled. Thread 3 watches event 8.
use micro_lua.Base.{
  ◌≡◌, refl, true, false, none, some, List, [], ◌∷◌, arith, ◌==◌, if◌then◌else◌, inl, has,
}
use micro_lua.Thread.{Sched, nobody}
use micro_lua.Thread.Chain.{Chain}
use micro_lua.Event.{Events, disabled, idle, abandoned, pending, set, disable, drain}
use micro_lua.Event.Queue.{after, IsQueue, is_armed}
use micro_lua.Event.Removal.{disable_lem, disable-set_lost}
use micro_lua.Event.Dispatch.{Drained, drain_lem}
use micro_lua.Event.Fifo.{sets, takes, Op, run, run_fifo, run-run_fifo}
use micro_lua.Tests.Threads.{few, few-IsSched}

abbrev two_pending : Events
two_pending = record {
  head = some 8;
  tail = some 12;
  state = λ e.
      if e == 8
      then pending (some 12)
      else if e == 12
      then pending none
      else if e == 16
      then idle
      else if e == 20
      then abandoned
      else disabled;
  watcher = λ e. if e == 8 then some 3 else none;
}

two_pending-IsQueue : IsQueue two_pending (8 ∷ 12 ∷ [])
two_pending-IsQueue = record {
  chain = (refl, (refl, refl));
  ends = λ e h. h;
  distinct = ground arith;
  members = λ e. ground arith;
}

disable_lem_example :
    (q' : Events) × (disable 2 8 disabled two_pending ≡ some q') × IsQueue q' (12 ∷ [])
disable_lem_example =
    disable_lem 2 8 disabled (8 ∷ 12 ∷ []) two_pending-IsQueue refl (omega arith)
      (inl (λ e. ground (arith, e)))

disable-set_lost_example :
    (q₁ q₂ : Events) × (disable 2 12 disabled two_pending ≡ some q₁)
    × (set 16 q₁ ≡ some q₂)
    × Chain (λ e. after (q₂.state e)) q₂.head (8 ∷ [])
    × (has 16 (8 ∷ []) ≡ false)
    × (q₂.state 16 ≡ pending none)
    × (q₂.state 12 ≡ pending (some 16))
disable-set_lost_example =
    disable-set_lost 2 12 16 (8 ∷ 12 ∷ []) two_pending-IsQueue (omega arith) refl
      (λ e. ground (arith, e)) refl

drain_lem_example :
    (q' : Events) × (s' : Sched) × (drain 3 2 false two_pending (few (λ t. nobody))
      ≡ some (true, q', s'))
    × Drained two_pending (few (λ t. nobody)) (1 ∷ []) (3 ∷ 4 ∷ []) (8 ∷ 12 ∷ []) q' s'
drain_lem_example =
    drain_lem 3 2 false (1 ∷ []) (3 ∷ 4 ∷ []) (8 ∷ 12 ∷ []) two_pending-IsQueue
      (few-IsSched (λ t. nobody)) (omega arith) (omega arith)

abbrev interleaved : List Op
interleaved = sets 16 ∷ takes ∷ sets 8 ∷ sets 20 ∷ takes ∷ takes ∷ takes ∷ takes ∷ []

run-run_fifo_example :
    (q' : Events) × (run interleaved two_pending
      ≡ some ((run_fifo (λ e. is_armed (two_pending.state e)) interleaved (8 ∷ 12 ∷ [])).0, q'))
    × IsQueue q' (run_fifo (λ e. is_armed (two_pending.state e)) interleaved (8 ∷ 12 ∷ [])).1
run-run_fifo_example =
    run-run_fifo (λ e. is_armed (two_pending.state e)) interleaved (8 ∷ 12 ∷ []) two_pending-IsQueue
      (λ e. refl)
