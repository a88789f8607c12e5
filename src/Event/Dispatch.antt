-- ===== src/Event/Dispatch.antt =====
-- The inner loop of `mlua_event_dispatch` in lib/pico/event.c with the scheduler: pending events are
-- handled first come first served, and their watchers stop waiting.
use micro_lua.Base.{
  ℕ, zero, suc, ◌<◌, ◌≤◌, ◌≡◌, refl, ◌∙◌, inl, inr, Bool, true, false, Option, none, some, List, [],
  ◌∷◌, ◌++◌, ap, arith, ◌==◌, if◌then◌else◌, length, Bool-cases,
}
use micro_lua.Thread.{Tid, Sched, thread_state, resume}
use micro_lua.Thread.Invariant.{IsSched}
use micro_lua.Thread.Chain.{without, length-without}
use micro_lua.Thread.Resume.{is_waiting, resume_lem, Resumed}
use micro_lua.Thread.Life.Wake.{AllResumed, AllResumed-cons, AllResumed-nil}
use micro_lua.Event.{Ev, Events, pop, resume_watcher, drain}
use micro_lua.Event.Queue.{IsQueue, pop_lem, pop-empty}

-- The watchers of a list of events, in its order.
abbrev pub watchers : (Ev → Option Tid) → List Ev → List Tid
watchers w [] = []
watchers w (e ∷ l) = elim (w e) [ none ↦ watchers w l | some t ↦ t ∷ watchers w l ]

-- What a run of the loop leaves.
pub record Drained (q : Events) (s : Sched) (ready waiting : List Tid) (l : List Ev) (q' : Events)
    (s' : Sched) : Type 0 where
  pub empty : IsQueue q' []
  pub resumed : AllResumed s.next (thread_state s) ready waiting (watchers q.watcher l) s'
  pub same_watchers : q'.watcher ≡ q.watcher

-- Whether a thread in a list waits.
abbrev pub any_waits : (Tid → Bool) → List Tid → Bool
any_waits waits [] = false
any_waits waits (t ∷ l) = if waits t then true else any_waits waits l

any_waits-ext :
    (f g : Tid → Bool) (l : List Tid) → ((t : Tid) → f t ≡ g t) → any_waits f l ≡ any_waits g l
any_waits-ext f g [] h = refl
any_waits-ext f g (t ∷ l) h = ground (arith, h t, any_waits-ext f g l h)

abbrev pub woken : Bool → Sched → List Tid → Bool
woken wake s l = if any_waits (λ t. is_waiting (thread_state s t)) l then true else wake

abbrev Drains : (fuel rounds : ℕ) → Bool → Events → Sched → List Tid → List Tid → List Ev → Type 0
Drains fuel rounds wake q s ready waiting l =
    (q' : Events) × (s' : Sched) × (drain fuel rounds wake q s
      ≡ some (woken wake s (watchers q.watcher l), q', s'))
    × Drained q s ready waiting l q' s'

-- The result after the first thread.
module _ {s s₁ : Sched} (ready waiting : List Tid) (t : Tid)
    (r : Resumed s ready waiting t s₁) where
  same_waits :
      is_waiting (thread_state s t) ≡ false
      → (u : Tid) → is_waiting (thread_state s₁ u) ≡ is_waiting (thread_state s u)
  same_waits h u = elim (Bool-cases (u == t)) [
    | inl e ↦ (let same : u ≡ t = ground arith in rw (same, r.awake, h) refl)
    | inr e ↦ rw (r.others u e) refl
  ]

  woken_first :
      (wake : Bool) (l : List Tid)
      → woken (if is_waiting (thread_state s t) then true else wake) s₁ l ≡ woken wake s (t ∷ l)
  woken_first wake l = elim (Bool-cases (is_waiting (thread_state s t))) [
    | inl h ↦ ground arith
    | inr h ↦ ground (
      arith,
      any_waits-ext (λ u. is_waiting (thread_state s₁ u)) (λ u. is_waiting (thread_state s u)) l
          (same_waits h),
    )
  ]

drain_empty :
    (fuel rounds : ℕ) (wake : Bool) (q : Events) (s : Sched)
    → pop q ≡ some (none, q)
    → drain (suc fuel) rounds wake q s ≡ some (wake, q, s)
unfolding drain
drain_empty fuel rounds wake q s p = rw p refl

drain_unwatched :
    (fuel rounds : ℕ) (wake : Bool) (q q₁ : Events) (s : Sched) (e : Ev)
    → pop q ≡ some (some e, q₁)
    → q₁.watcher e ≡ none
    → drain (suc fuel) rounds wake q s ≡ drain fuel rounds wake q₁ s
unfolding drain resume_watcher
drain_unwatched fuel rounds wake q q₁ s e p w = rw (p, resume_watcher, w) refl

drain_watched :
    (fuel rounds : ℕ) (wake b : Bool) (q q₁ : Events) (s s₁ : Sched) (e : Ev) (t : Tid)
    → pop q ≡ some (some e, q₁)
    → q₁.watcher e ≡ some t
    → resume rounds t s ≡ some (b, s₁)
    → drain (suc fuel) rounds wake q s ≡ drain fuel rounds (if b then true else wake) q₁ s₁
unfolding drain resume_watcher
drain_watched fuel rounds wake b q q₁ s s₁ e t p w r = rw (p, resume_watcher, w, r) refl

watchers-none :
    (w w₁ : Ev → Option Tid) (e : Ev) (l : List Ev)
    → w₁ ≡ w
    → w e ≡ none
    → watchers w₁ l ≡ watchers w (e ∷ l)
watchers-none w w₁ e l same h = ap (λ f. watchers f l) same ∙ ground arith

watchers-some :
    (w w₁ : Ev → Option Tid) (e : Ev) (t : Tid) (l : List Ev)
    → w₁ ≡ w
    → w e ≡ some t
    → t ∷ watchers w₁ l ≡ watchers w (e ∷ l)
watchers-some w w₁ e t l same h = ap (λ f. t ∷ watchers f l) same ∙ ground arith

module _ (rounds : ℕ) {q q₁ : Events} {s : Sched} (ready waiting : List Tid) (e : Ev) (l : List Ev)
    (wake : Bool) (fuel : ℕ) (p : pop q ≡ some (some e, q₁)) (same : q₁.watcher ≡ q.watcher) where
  step_unwatched :
      q.watcher e ≡ none
      → Drains fuel rounds wake q₁ s ready waiting l
      → Drains (suc fuel) rounds wake q s ready waiting (e ∷ l)
  step_unwatched w (q', s', ran, d) = (
    q',
    s',
    drain_unwatched fuel rounds wake q q₁ s e p (ap (λ f. f e) same ∙ w)
        ∙ ran
        ∙ ap (λ v. some (woken wake s v, q', s')) (watchers-none q.watcher q₁.watcher e l same w),
    record {
      empty = d.empty;
      resumed = rw (← (watchers-none q.watcher q₁.watcher e l same w)) d.resumed;
      same_watchers = d.same_watchers ∙ same;
    },
  )

  step_watched :
      (t : Tid) (s₁ : Sched)
      → q.watcher e ≡ some t
      → resume rounds t s ≡ some (is_waiting (thread_state s t), s₁)
      → Resumed s ready waiting t s₁
      → Drains fuel rounds
          (if is_waiting (thread_state s t) then true else wake)
          q₁
          s₁
          (if is_waiting (thread_state s t) then ready ++ t ∷ [] else ready)
          (without t waiting)
          l
      → Drains (suc fuel) rounds wake q s ready waiting (e ∷ l)
  step_watched t s₁ w ran₁ r (q', s', ran, d) = (
    q',
    s',
    drain_watched fuel rounds wake (is_waiting (thread_state s t)) q q₁ s s₁ e t p
          (ap (λ f. f e) same ∙ w) ran₁
        ∙ ran
        ∙ ap (λ v. some (v, q', s'))
            (woken_first ready waiting t r wake (watchers q₁.watcher l)
              ∙ ap (woken wake s) (watchers-some q.watcher q₁.watcher e t l same w)),
    record {
      empty = d.empty;
      resumed =
          rw (← (watchers-some q.watcher q₁.watcher e t l same w))
            (AllResumed-cons ready waiting t r (watchers q₁.watcher l) d.resumed);
      same_watchers = d.same_watchers ∙ same;
    },
  )

  step :
      IsSched s ready waiting
      → length waiting ≤ rounds
      → ((wake' : Bool) (s' : Sched) (ready' waiting' : List Tid)
          → IsSched s' ready' waiting'
          → length waiting' ≤ rounds
          → Drains fuel rounds wake' q₁ s' ready' waiting' l)
      → (w : Option Tid) → q.watcher e ≡ w
      → Drains (suc fuel) rounds wake q s ready waiting (e ∷ l)
  step j fits again none w = step_unwatched w (again wake s ready waiting j fits)
  step j fits again (some t) w =
      let (s₁, ran, r) = resume_lem rounds ready waiting t j fits in
      step_watched t s₁ w ran r
        (again _ s₁ _ (without t waiting) r.sched (omega (arith, length-without waiting t)))

-- With a well-formed queue and scheduler, more fuel than pending events and rounds for the timer
-- list the loop returns. No event is pending then. The watchers of the events that were pending do
-- not wait any more: those that did are active and stand at the end of the active queue, each once,
-- in the order of their first events in the pending queue, behind the threads that stood there. The
-- result says whether `wake` was set or a thread waited.
pub drain_lem :
    (fuel rounds : ℕ) (wake : Bool) {q : Events} {s : Sched} (ready waiting : List Tid)
    (l : List Ev)
    → IsQueue q l
    → IsSched s ready waiting
    → length l < fuel
    → length waiting ≤ rounds
    → (q' : Events) × (s' : Sched) × (drain fuel rounds wake q s
        ≡ some (woken wake s (watchers q.watcher l), q', s'))
      × Drained q s ready waiting l q' s'
drain_lem zero rounds wake ready waiting l i j fuel fits = absurd (omega arith)
drain_lem (suc fuel) rounds wake {q} {s} ready waiting [] i j more fits = (
  q,
  s,
  drain_empty fuel rounds wake q s (pop-empty i),
  record { empty = i; resumed = AllResumed-nil ready waiting j; same_watchers = refl },
)
drain_lem (suc fuel) rounds wake {q} {s} ready waiting (e ∷ l) i j more fits =
    let (q₁, p, i₁, _, same, _) = pop_lem e l i in
    step rounds ready waiting e l wake fuel p same j fits
      (λ wake' s' ready' waiting' j' fits'.
        drain_lem fuel rounds wake' ready' waiting' l i₁ j' (omega arith) fits')
      (q.watcher e) refl
