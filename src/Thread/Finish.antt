-- ===== src/Thread/Finish.antt =====
-- The end of main() in lib/common/mlua.thread.c, which closes all threads and empties its state.
use micro_lua.Base.{
  ◌≡◌, refl, Bool, true, false, not, none, List, [], ◌∷◌, arith, ◌==◌, update, has, ◌⊎◌, inl, inr,
  Bool-cases,
}
use micro_lua.Thread.{Tid, Sched, dead, nobody, lua_ok, thread_state}
use micro_lua.Thread.Invariant.{IsSched}

-- `reset_main_state`
pub reset_main_state : Sched → Sched
reset_main_state s = record s {
  head = none;
  tail = none;
  timers = none;
  threads = λ t. false;
  joiners = λ t. nobody;
  names = λ t. none;
}

-- The loop of `main_done` over main.THREADS, in the order of `lua_next`; `raises` says for which
-- thread `lua_closethread` leaves an error on the stack, where else there is nothing.
pub close_threads : List Tid → (raises : Tid → Bool) → Sched → Sched
close_threads [] raises s = s
close_threads (t ∷ l) raises s = close_threads l raises (record s {
  status = update s.status t lua_ok;
  empty = update s.empty t (not (raises t));
  next = update s.next t none;
})

pub main_done : (threads : List Tid) → (raises : Tid → Bool) → Sched → Sched
main_done threads raises s = reset_main_state (close_threads threads raises s)

abbrev pub quiet : Tid → Bool
quiet t = false

close_state :
    (l : List Tid) (s : Sched) (t : Tid)
    → (has t l ≡ true) ⊎ (thread_state s t ≡ dead)
    → thread_state (close_threads l quiet s) t ≡ dead
unfolding close_threads
close_state [] s t (inl h) = absurd (ground arith)
close_state [] s t (inr h) = h
close_state (u ∷ l) s t h = close_state l _ t (elim (Bool-cases (u == t)) [
  | inl e ↦ inr (rw e refl)
  | inr e ↦ elim h [ inl listed ↦ inl (ground arith) | inr gone ↦ inr (rw e gone) ]
])

-- If no close raises an error, and the threads that are not dead are those in main.THREADS, then all
-- threads are dead at the end, and the scheduler is well formed, with nothing in its queue and in its
-- list of timers, for the next call of main().
pub main_done_lem :
    (threads : List Tid) (s : Sched)
    → ((t : Tid) → (has t threads ≡ true) ⊎ (thread_state s t ≡ dead))
    → IsSched (main_done threads quiet s) [] []
      × ((t : Tid) → thread_state (main_done threads quiet s) t ≡ dead)
unfolding main_done reset_main_state
main_done_lem threads s all =
    let gone : (t : Tid) → thread_state (close_threads threads quiet s) t ≡ dead =
      λ t. close_state threads s t (all t) in
    (
      record {
        ready_chain = refl;
        ready_last = refl;
        ready_distinct = tt;
        ready_state = λ t h. absurd (ground arith);
        waiting_chain = refl;
        waiting_distinct = tt;
        waiting_sorted = tt;
        waiting_state = λ t h. absurd (ground arith);
        waiting_complete = λ t h. absurd (ground (arith, gone t));
        suspended_next = λ t h. absurd (ground (arith, gone t));
      },
      gone,
    )
