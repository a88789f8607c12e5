-- ===== src/Thread/Life/Start.antt =====
-- `mod_start` of lib/common/mlua.thread.c: a new thread becomes the last of the active queue.
use micro_lua.Base.{
  ℕ, ◌≡◌, refl, true, false, Option, none, some, List, [], ◌∷◌, ◌++◌, arith, ◌==◌, update, has, ◌∙◌,
}
use micro_lua.Thread.{Tid, Sched, active, thread_state, lua_ok, activate}
use micro_lua.Thread.Invariant.{IsSched, IsSched-touch, activate-IsSched}
use micro_lua.Thread.Resume.{activate_keeps}
use micro_lua.Thread.Life.{start}

-- The memory of the new thread before it is put on the queue.
abbrev fresh : Option Tid → Tid → Option (List ℕ) → Sched → Sched
fresh running t name s = record s {
  state = update s.state t active;
  blocking = update s.blocking t (elim running [ none ↦ false | some r ↦ s.blocking r ]);
  status = update s.status t lua_ok;
  empty = update s.empty t false;
  next = update s.next t none;
  names = elim name [ none ↦ s.names | some n ↦ update s.names t (some n) ];
  threads = update s.threads t true;
}

activate_keeps_memory :
    (t : Tid) (s : Sched)
    → ((u : Tid) → (activate t s).threads u ≡ s.threads u)
      × ((u : Tid) → (activate t s).blocking u ≡ s.blocking u)
unfolding activate
activate_keeps_memory t s = (λ u. ground arith, λ u. ground arith)

-- In a well-formed state a thread of a name that stands in neither list becomes active and the
-- last of the queue, is registered with main(), and has the blocking flag of the thread that
-- starts it, or none on the main thread; the states and flags of the others are kept, and the
-- queues stay well formed.
pub start_lem :
    (running : Option Tid) (t : Tid) (name : Option (List ℕ)) {s : Sched} (ready waiting : List Tid)
    → IsSched s ready waiting
    → has t ready ≡ false
    → has t waiting ≡ false
    → let s' = start running t name s in
      IsSched s' (ready ++ t ∷ []) waiting
      × (thread_state s' t ≡ active)
      × (s'.threads t ≡ true)
      × (s'.blocking t ≡ elim running [ none ↦ false | some r ↦ s.blocking r ])
      × ((u : Tid)
          → (u == t) ≡ false
          → (thread_state s' u ≡ thread_state s u) × (s'.blocking u ≡ s.blocking u))
unfolding start
start_lem running t name {s} ready waiting i out out' =
    let keeps = activate_keeps t (fresh running t name s) in
    (
      activate-IsSched ready waiting t
          (IsSched-touch ready waiting t (fresh running t name s) i out out' refl refl refl refl
            (λ u e. ground arith) (λ u e. ground arith) (λ h. ground arith) (ground arith))
          (record { state = ground arith; next = ground arith; not_ready = out }),
      keeps.2 t ∙ ground arith,
      (activate_keeps_memory t (fresh running t name s)).0 t ∙ ground arith,
      (activate_keeps_memory t (fresh running t name s)).1 t ∙ ground arith,
      λ u ne. (
        keeps.2 u ∙ ground arith,
        (activate_keeps_memory t (fresh running t name s)).1 u ∙ ground arith,
      ),
    )
