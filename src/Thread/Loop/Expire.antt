-- ===== src/Thread/Loop/Expire.antt =====
-- Timers that are due move, in their order, to the end of the active queue.
use micro_lua.Base.{
  ℕ, zero, suc, ◌<◌, ◌≡◌, refl, true, false, Option, none, some, List, [], ◌∷◌, ◌++◌, arith, leb,
  if◌then◌else◌, update, has, last, Distinct, length, inl, inr, Bool-cases,
}
use micro_lua.Thread.{Tid, Sched, active, ThreadState}
use micro_lua.Thread.Chain.{Chain}
use micro_lua.Thread.Invariant.{Sorted}
use micro_lua.Thread.Loop.{expire_loop}

-- The timers of a sorted list that are due, and those that are not.
abbrev pub due : (Tid → ℕ) → ℕ → List Tid → List Tid
due deadline ticks [] = []
due deadline ticks (t ∷ l) = if leb (deadline t) ticks then t ∷ due deadline ticks l else []

abbrev pub pending : (Tid → ℕ) → ℕ → List Tid → List Tid
pending deadline ticks [] = []
pending deadline ticks (t ∷ l) = if leb (deadline t) ticks then pending deadline ticks l else t ∷ l

module _ (deadline : Tid → ℕ) (ticks : ℕ) where
  pub due-append-pending : (l : List Tid) → due deadline ticks l ++ pending deadline ticks l ≡ l
  due-append-pending [] = refl
  due-append-pending (t ∷ l) = ground (arith, due-append-pending l)

  pub has-due : (l : List Tid) (u : Tid) → has u (due deadline ticks l) ≡ true → has u l ≡ true
  has-due [] u h = h
  has-due (t ∷ l) u h = ground (arith, has-due l u)

  pub has-pending :
      (l : List Tid) (u : Tid) → has u (pending deadline ticks l) ≡ true → has u l ≡ true
  has-pending [] u h = h
  has-pending (t ∷ l) u h = ground (arith, has-pending l u)

  pub due_or_pending :
      (l : List Tid) (u : Tid)
      → has u l ≡ true
      → has u (due deadline ticks l) ≡ false
      → has u (pending deadline ticks l) ≡ true
  due_or_pending [] u h n = h
  due_or_pending (t ∷ l) u h n = ground (arith, due_or_pending l u)

  pub due_not_pending :
      (l : List Tid) (u : Tid)
      → Distinct l
      → has u (due deadline ticks l) ≡ true
      → has u (pending deadline ticks l) ≡ false
  due_not_pending [] u d h = refl
  due_not_pending (t ∷ l) u d h = ground (arith, due_not_pending l u d.1, has-pending l u)

  pub Distinct-due : (l : List Tid) → Distinct l → Distinct (due deadline ticks l)
  Distinct-due [] d = tt
  Distinct-due (t ∷ l) d = elim (Bool-cases (leb (deadline t) ticks)) [
    | inl e ↦ rw e (ground (arith, has-due l t), Distinct-due l d.1)
    | inr e ↦ rw e tt
  ]

  pub Distinct-pending : (l : List Tid) → Distinct l → Distinct (pending deadline ticks l)
  Distinct-pending [] d = tt
  Distinct-pending (t ∷ l) d = elim (Bool-cases (leb (deadline t) ticks)) [
    | inl e ↦ rw e (Distinct-pending l d.1)
    | inr e ↦ rw e d
  ]

  pub Sorted-pending :
      (l : List Tid) → Sorted deadline l → Sorted deadline (pending deadline ticks l)
  Sorted-pending [] d = tt
  Sorted-pending (t ∷ l) d = elim (Bool-cases (leb (deadline t) ticks)) [
    | inl e ↦ rw e (Sorted-pending l d.1)
    | inr e ↦ rw e d
  ]

-- What the loop from `t` on leaves, for the list `l` behind `t`.
pub record Cut (rounds : ℕ) (t : Tid) (ticks : ℕ) (s : Sched) (l : List Tid) : Type 0 where
  pub end : Tid
  pub state : Tid → ThreadState
  pub timers : Option Tid
  pub ran : expire_loop rounds t ticks s ≡ some (end, record s { state = state; timers = timers })
  pub is_last : last (t ∷ due s.deadline ticks l) ≡ some end
  pub chain : Chain s.next timers (pending s.deadline ticks l)
  pub made_active : (u : Tid) → has u (t ∷ due s.deadline ticks l) ≡ true → state u ≡ active
  pub kept : (u : Tid) → has u (t ∷ due s.deadline ticks l) ≡ false → state u ≡ s.state u

module _ (rounds : ℕ) (t n : Tid) (ticks : ℕ) (s : Sched) (l : List Tid)
    (c : Chain s.next (s.next t) (n ∷ l)) where
  Cut-here : leb (s.deadline n) ticks ≡ false → Cut (suc rounds) t ticks s (n ∷ l)
  unfolding expire_loop
  Cut-here e = record {
    end = t;
    state = update s.state t active;
    timers = some n;
    ran = ground arith;
    is_last = rw e;
    chain = rw e (refl, c.1);
    made_active = λ u h. ground arith;
    kept = λ u h. ground arith;
  }

  Cut-later :
      leb (s.deadline n) ticks ≡ true
      → Cut rounds n ticks (record s { state = update s.state t active }) l
      → Cut (suc rounds) t ticks s (n ∷ l)
  unfolding expire_loop
  Cut-later e r = record {
    end = r.end;
    state = r.state;
    timers = r.timers;
    ran = ground (arith, r.ran);
    is_last = rw e r.is_last;
    chain = rw e r.chain;
    made_active = λ u h. ground (arith, r.made_active u, r.kept u);
    kept = λ u h. ground (arith, r.kept u);
  }

pub expire_loop_lem :
    (rounds : ℕ) (t : Tid) (ticks : ℕ) (s : Sched) (l : List Tid)
    → length l < rounds
    → Chain s.next (s.next t) l
    → Cut rounds t ticks s l
unfolding expire_loop
expire_loop_lem zero t ticks s l fuel c = absurd (omega arith)
expire_loop_lem (suc rounds) t ticks s [] fuel c = record {
  end = t;
  state = update s.state t active;
  timers = none;
  ran = rw (c, expire_loop);
  is_last = refl;
  chain = refl;
  made_active = λ u h. ground arith;
  kept = λ u h. ground arith;
}
expire_loop_lem (suc rounds) t ticks s (n ∷ l) fuel c =
    elim (Bool-cases (leb (s.deadline n) ticks)) [
      | inl e ↦ Cut-later rounds t n ticks s l c e (
          expire_loop_lem rounds n ticks (record s { state = update s.state t active }) l
            (omega arith) c.1)
      | inr e ↦ Cut-here rounds t n ticks s l c e
    ]
