-- ===== src/Thread/Life/Wake.antt =====
-- The threads that main.JOINERS names for a thread of lib/common/mlua.thread.c, resumed in turn.
use micro_lua.Base.{
  Option, ℕ, sym, ap, not, ◌&&◌, append_assoc, append-nil, ◌≤◌, ◌≡◌, refl, ◌∙◌, Bool, true, false,
  ◌||◌, some, List, [], ◌∷◌, ◌++◌, arith, ◌==◌, if◌then◌else◌, update, has, length, inl, inr,
  Bool-cases, has-append,
}
use micro_lua.Thread.{
  Tid, Sched, ThreadState, Joiners, nobody, one, many, active, thread_state, resume,
}
use micro_lua.Thread.Chain.{without, length-without}
use micro_lua.Thread.Invariant.{IsSched, IsSched-tables}
use micro_lua.Thread.Resume.{is_waiting, Resumed, resume_lem}
use micro_lua.Thread.Life.{resume_each, resume_joiners}

-- The threads that an entry of main.JOINERS names.
abbrev pub members : Joiners → List Tid
members nobody = []
members (one t) = t ∷ []
members (many l) = l

-- The threads of a list that wait, in its order, each once.
abbrev pub newly_woken : (waits : Tid → Bool) → List Tid → List Tid
newly_woken waits [] = []
newly_woken waits (t ∷ l) =
    let rest = newly_woken (λ u. not (u == t) && waits u) l in if waits t then t ∷ rest else rest

newly_woken-ext :
    (f g : Tid → Bool) (l : List Tid) → ((u : Tid) → f u ≡ g u) → newly_woken f l ≡ newly_woken g l
newly_woken-ext f g [] h = refl
newly_woken-ext f g (t ∷ l) h =
    rw
      (
        h t,
        newly_woken-ext (λ u. not (u == t) && f u) (λ u. not (u == t) && g u) l
            (λ u. ap (λ b. not (u == t) && b) (h u)),
      )
      refl

-- After a run of `resume` over the threads `l`.
pub record AllResumed (next : Tid → Option Tid) (state : Tid → ThreadState)
    (ready waiting l : List Tid) (s' : Sched) : Type 0 where
  pub ready' : List Tid
  pub waiting' : List Tid
  pub sched : IsSched s' ready' waiting'
  pub queue : ready' ≡ ready ++ newly_woken (λ u. is_waiting (state u)) l
  pub runs : (u : Tid) → has u l ≡ true → is_waiting (state u) ≡ true → thread_state s' u ≡ active
  pub fewer : length waiting' ≤ length waiting
  pub source : (u : Tid) → has u ready' ≡ true → (has u ready || is_waiting (state u)) ≡ true
  pub awake : (u : Tid) → has u l ≡ true → is_waiting (thread_state s' u) ≡ false
  pub others : (u : Tid) → has u l ≡ false → thread_state s' u ≡ state u
  pub kept : (u : Tid) → is_waiting (state u) ≡ false → thread_state s' u ≡ state u
  pub apart : (u : Tid) → has u ready ≡ false → is_waiting (state u) ≡ false → s'.next u ≡ next u

or_true : (b : Bool) → (b || true) ≡ true
or_true true = refl
or_true false = refl

module _ {s s₁ : Sched} (ready waiting : List Tid) (t : Tid)
    (r : Resumed s ready waiting t s₁) where
  Resumed-kept :
      (u : Tid) → is_waiting (thread_state s u) ≡ false → thread_state s₁ u ≡ thread_state s u
  Resumed-kept u h = elim (Bool-cases (u == t)) [
    | inl e ↦ (let same : u ≡ t = ground arith in rw same (r.kept (rw same at h)))
    | inr e ↦ r.others u e
  ]

  Resumed-awake : (u : Tid) → (u == t) ≡ true → is_waiting (thread_state s₁ u) ≡ false
  Resumed-awake u e = let same : u ≡ t = ground arith in rw same r.awake

  ready_of :
      (u : Tid)
      → has u (if is_waiting (thread_state s t) then ready ++ t ∷ [] else ready) ≡ true
      → (has u ready || is_waiting (thread_state s u)) ≡ true
  ready_of u h = elim (Bool-cases (is_waiting (thread_state s t))) [
    | inl w ↦ elim (Bool-cases (u == t)) [
      | inl e ↦ (let same : u ≡ t = ground arith in rw (same, w) (or_true _))
      | inr e ↦ ground (arith, has-append u ready (t ∷ []), rw w at h)
    ]
    | inr w ↦ ground (arith, rw w at h)
  ]

  woken_of :
      (u : Tid) → is_waiting (thread_state s₁ u) ≡ true → is_waiting (thread_state s u) ≡ true
  woken_of u h = elim (Bool-cases (u == t)) [
    | inl e ↦ (let no = Resumed-awake u e in absurd (ground arith))
    | inr e ↦ rw (r.others u e) at h
  ]

  source_of :
      (u : Tid)
      → (has u (if is_waiting (thread_state s t) then ready ++ t ∷ [] else ready)
          || is_waiting (thread_state s₁ u))
        ≡ true
      → (has u ready || is_waiting (thread_state s u)) ≡ true
  source_of u h =
      elim (Bool-cases (has u (if is_waiting (thread_state s t) then ready ++ t ∷ [] else ready))) [
        | inl k ↦ ready_of u k
        | inr k ↦ rw (woken_of u (rw k at h)) (or_true _)
      ]

  still_apart :
      (u : Tid)
      → has u ready ≡ false
      → is_waiting (thread_state s u) ≡ false
      → has u (if is_waiting (thread_state s t) then ready ++ t ∷ [] else ready) ≡ false
  still_apart u h w = elim (Bool-cases (is_waiting (thread_state s t))) [
    | inl k ↦ elim (Bool-cases (u == t)) [
      | inl e ↦ (let same : u ≡ t = ground arith in absurd (ground (arith, rw same at w)))
      | inr e ↦ rw k (ground (arith, has-append u ready (t ∷ [])))
    ]
    | inr k ↦ rw k h
  ]

  waits_after :
      (u : Tid) → is_waiting (thread_state s₁ u) ≡ (not (u == t) && is_waiting (thread_state s u))
  waits_after u = elim (Bool-cases (u == t)) [
    | inl e ↦ rw e (Resumed-awake u e)
    | inr e ↦ rw (e, r.others u e) refl
  ]

  queue_of :
      (l : List Tid)
      → (if is_waiting (thread_state s t) then ready ++ t ∷ [] else ready)
          ++ newly_woken (λ u. is_waiting (thread_state s₁ u)) l
        ≡ ready ++ newly_woken (λ u. is_waiting (thread_state s u)) (t ∷ l)
  queue_of l =
      let same =
        newly_woken-ext (λ u. is_waiting (thread_state s₁ u))
          (λ u. not (u == t) && is_waiting (thread_state s u)) l waits_after in
      elim (Bool-cases (is_waiting (thread_state s t))) [
        | inl w ↦ rw (w, same) (append_assoc ready (t ∷ []) _)
        | inr w ↦ rw (w, same) refl
      ]

  runs_of :
      (s' : Sched) (l : List Tid)
      → ((u : Tid)
          → has u l ≡ true
          → is_waiting (thread_state s₁ u) ≡ true
          → thread_state s' u ≡ active)
      → ((u : Tid) → is_waiting (thread_state s₁ u) ≡ false → thread_state s' u ≡ thread_state s₁ u)
      → (u : Tid) → has u (t ∷ l) ≡ true
      → is_waiting (thread_state s u) ≡ true
      → thread_state s' u ≡ active
  runs_of s' l later kept u h w = elim (Bool-cases (u == t)) [
    | inl e ↦
        (let same : u ≡ t = ground arith in
          kept u (Resumed-awake u e) ∙ rw same (r.runs (rw same at w)))
    | inr e ↦ later u (ground arith) (rw (r.others u e) w)
  ]

  pub AllResumed-cons :
      {s' : Sched} (l : List Tid)
      → AllResumed s₁.next
          (thread_state s₁)
          (if is_waiting (thread_state s t) then ready ++ t ∷ [] else ready)
          (without t waiting)
          l
          s'
      → AllResumed s.next (thread_state s) ready waiting (t ∷ l) s'
  AllResumed-cons {s'} l a = record {
    ready' = a.ready';
    waiting' = a.waiting';
    sched = a.sched;
    queue = a.queue ∙ queue_of l;
    runs = runs_of s' l a.runs a.kept;
    fewer = omega (arith, a.fewer, length-without waiting t);
    awake = λ u h. elim (Bool-cases (has u l)) [
      | inl k ↦ a.awake u k
      | inr k ↦ rw (a.others u k) (Resumed-awake u (ground arith))
    ];
    others = λ u h. a.others u (ground arith) ∙ r.others u (ground arith);
    kept = λ u h. a.kept u (rw (Resumed-kept u h) h) ∙ Resumed-kept u h;
    source = λ u h. source_of u (a.source u h);
    apart = λ u h w. a.apart u (still_apart u h w) (rw (Resumed-kept u w) w) ∙ r.apart u h w;
  }

pub AllResumed-nil :
    {s : Sched} (ready waiting : List Tid)
    → IsSched s ready waiting
    → AllResumed s.next (thread_state s) ready waiting [] s
AllResumed-nil ready waiting i = record {
  ready' = ready;
  waiting' = waiting;
  sched = i;
  queue = sym (append-nil ready);
  runs = λ u h. absurd (cc h);
  fewer = omega arith;
  source = λ u h. rw h;
  awake = λ u h. absurd (cc h);
  others = λ u h. refl;
  kept = λ u h. refl;
  apart = λ u h w. refl;
}

abbrev pub EachResumed : ℕ → List Tid → Sched → List Tid → List Tid → Type 0
EachResumed rounds l s ready waiting =
    (s' : Sched) × (resume_each rounds l s ≡ some s')
    × AllResumed s.next (thread_state s) ready waiting l s'

pub resume_each_lem :
    (rounds : ℕ) (l : List Tid) (s : Sched) (ready waiting : List Tid)
    → IsSched s ready waiting
    → length waiting ≤ rounds
    → EachResumed rounds l s ready waiting
unfolding resume_each
resume_each_lem rounds [] s ready waiting i fuel = (s, refl, AllResumed-nil ready waiting i)
resume_each_lem rounds (t ∷ l) s ready waiting i fuel =
    let (s₁, ran, r) = resume_lem rounds ready waiting t i fuel in
    ends s₁ ran r (
      resume_each_lem rounds l s₁ (if is_waiting (thread_state s t) then ready ++ t ∷ [] else ready)
        (without t waiting) r.sched (omega (arith, length-without waiting t)))
  where
    ends :
        (s₁ : Sched)
        → resume rounds t s ≡ some (is_waiting (thread_state s t), s₁)
        → Resumed s ready waiting t s₁
        → EachResumed rounds l s₁
            (if is_waiting (thread_state s t) then ready ++ t ∷ [] else ready)
            (without t waiting)
        → EachResumed rounds (t ∷ l) s ready waiting
    ends s₁ ran r (s', ran', a) = (s', rw (ran, ran'), AllResumed-cons ready waiting t r l a)

pub resume_joiners_lem :
    (rounds : ℕ) (t : Tid) (s : Sched) (ready waiting : List Tid)
    → IsSched s ready waiting
    → length waiting ≤ rounds
    → (s' : Sched) × (resume_joiners rounds t s ≡ some s')
      × AllResumed s.next (thread_state s) ready waiting (members (s.joiners t)) s'
unfolding resume_joiners
resume_joiners_lem rounds t s ready waiting i fuel = by_entry (s.joiners t) refl
  where
    cleared : Sched
    cleared = record s { joiners = update s.joiners t nobody }

    j : IsSched cleared ready waiting
    j = IsSched-tables ready waiting (update s.joiners t nobody) s.threads i

    by_entry :
        (entry : Joiners)
        → s.joiners t ≡ entry
        → (s' : Sched) × (resume_joiners rounds t s ≡ some s')
          × AllResumed s.next (thread_state s) ready waiting (members entry) s'
    by_entry nobody e = (s, rw (e, resume_joiners), AllResumed-nil ready waiting i)
    by_entry (one u) e =
        let (s', ran, a) = resume_each_lem rounds (u ∷ []) cleared ready waiting j fuel in
        (s', rw (e, resume_joiners) ran, a)
    by_entry (many l) e =
        let (s', ran, a) = resume_each_lem rounds l cleared ready waiting j fuel in
        (s', rw (e, resume_joiners) ran, a)
