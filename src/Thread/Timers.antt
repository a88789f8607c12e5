-- ===== src/Thread/Timers.antt =====
-- `remove_timer` of lib/common/mlua.thread.c takes one thread out of the timer list.
use micro_lua.Base.{
  ℕ, zero, suc, ◌≤◌, ◌≡◌, refl, sym, true, false, Option, none, some, List, [], ◌∷◌, arith, ◌==◌,
  update, has, Distinct, length, inl, inr, Bool-cases,
}
use micro_lua.Thread.{Tid, Sched, unlink_timer, remove_timer}
use micro_lua.Thread.Chain.{Chain, transfer, frame, without, without-here, without-later}

-- A walk from `prev` took `thread` out of the list `l` behind it and wrote nothing but NEXT.
record Unlinked (rounds : ℕ) (prev thread : Tid) (s : Sched) (l : List Tid) : Type 0 where
  next : Tid → Option Tid
  ran : unlink_timer rounds prev thread s ≡ some (record s { next = next })
  chain : Chain next (next prev) (without thread l)
  cleared : next thread ≡ none
  outside : (u : Tid) → (u == prev) ≡ false → has u l ≡ false → next u ≡ s.next u

module _ (rounds : ℕ) (prev thread n : Tid) (s : Sched) (l : List Tid)
    (c : Chain s.next (s.next prev) (n ∷ l)) (out : has prev (n ∷ l) ≡ false)
    (d : Distinct (n ∷ l)) where
  Unlinked-here : (n == thread) ≡ true → Unlinked (suc rounds) prev thread s (n ∷ l)
  unfolding unlink_timer
  Unlinked-here e = record {
    next = update (update s.next prev (s.next thread)) thread none;
    ran = ground arith;
    chain = transfer _ (s.next thread) _ l _ (ground arith) (sym (without-here thread n l e)) (
        frame s.next _ (s.next thread) l (transfer _ (s.next n) _ l l (ground arith) refl c.1)
          (λ u h. ground arith));
    cleared = ground arith;
    outside = λ u a b. ground arith;
  }

  Unlinked-later :
      (n == thread) ≡ false
      → (prev == thread) ≡ false
      → Unlinked rounds n thread s l
      → Unlinked (suc rounds) prev thread s (n ∷ l)
  unfolding unlink_timer
  Unlinked-later e e' r = record {
    next = r.next;
    ran = ground (arith, r.ran);
    chain =
        transfer _ (some n) _ (n ∷ without thread l) _ (ground (arith, r.outside prev))
          (sym (without-later thread n l e)) (refl, r.chain);
    cleared = r.cleared;
    outside = λ u a b. ground (arith, r.outside u);
  }

unlink_timer_lem :
    (rounds : ℕ) (prev thread : Tid) (s : Sched) (l : List Tid)
    → length l ≤ rounds
    → Chain s.next (s.next prev) l
    → has prev l ≡ false
    → Distinct l
    → has thread l ≡ true
    → Unlinked rounds prev thread s l
unlink_timer_lem rounds prev thread s [] fuel c out d h = absurd (cc h)
unlink_timer_lem zero prev thread s (n ∷ l) fuel c out d h = absurd (omega arith)
unlink_timer_lem (suc rounds) prev thread s (n ∷ l) fuel c out d h =
    elim (Bool-cases (n == thread)) [
      | inl e ↦ Unlinked-here rounds prev thread n s l c out d e
      | inr e ↦
          Unlinked-later rounds prev thread n s l c out d e (ground arith)
            (unlink_timer_lem rounds n thread s l (omega arith) c.1 d.0 d.1 (ground arith))
    ]

-- What `remove_timer` does to a timer list `l` that holds `thread`.
pub record Removed (rounds : ℕ) (thread : Tid) (s : Sched) (l : List Tid) : Type 0 where
  pub next : Tid → Option Tid
  pub timers : Option Tid
  pub ran : remove_timer rounds thread s ≡ some (record s { next = next; timers = timers })
  pub chain : Chain next timers (without thread l)
  pub cleared : next thread ≡ none
  pub outside : (u : Tid) → has u l ≡ false → next u ≡ s.next u

pub remove_timer_lem :
    (rounds : ℕ) (thread : Tid) (s : Sched) (l : List Tid)
    → length l ≤ rounds
    → Chain s.next s.timers l
    → Distinct l
    → has thread l ≡ true
    → Removed rounds thread s l
unfolding remove_timer
remove_timer_lem rounds thread s [] fuel c d h = absurd (cc h)
remove_timer_lem rounds thread s (p ∷ l) fuel c d h = elim (Bool-cases (p == thread)) [
  | inl e ↦ record {
    next = update s.next thread none;
    timers = s.next thread;
    ran = ground arith;
    chain =
        transfer _ (s.next p) _ l _ (ground arith) (sym (without-here thread p l e))
          (frame s.next _ (s.next p) l c.1 (λ u h. ground arith));
    cleared = ground arith;
    outside = λ u a. ground arith;
  }
  | inr e ↦ behind e (unlink_timer_lem rounds p thread s l (omega arith) c.1 d.0 d.1 (ground arith))
]
  where
    behind : (p == thread) ≡ false → Unlinked rounds p thread s l → Removed rounds thread s (p ∷ l)
    behind e r = record {
      next = r.next;
      timers = some p;
      ran = ground (arith, r.ran);
      chain =
          transfer _ _ _ (p ∷ without thread l) _ refl (sym (without-later thread p l e))
            (refl, r.chain);
      cleared = r.cleared;
      outside = λ u a. ground (arith, r.outside u);
    }
