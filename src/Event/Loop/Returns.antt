-- ===== src/Event/Loop/Returns.antt =====
-- `mlua_event_dispatch` returns when the deadline is reached, and keeps what the scheduling loop asks
-- of it, with the events of lib/pico/event.c and with none as in lib/host/event.c.
use micro_lua.Base.{
  ℕ, ◌+◌, ◌≤◌, ◌<◌, ◌≡◌, refl, sym, ◌∙◌, ◌⊎◌, inl, inr, Bool, true, false, Option, none, some, List,
  [], ◌∷◌, ◌++◌, ap, arith, ◌==◌, ◌||◌, if◌then◌else◌, ◌>>=◌, leb, has, length, Bool-cases,
  length-append, subst,
}
use micro_lua.Time.{ticks64_reached}
use micro_lua.Thread.{Tid, Sched, thread_state}
use micro_lua.Thread.Resume.{is_waiting}
use micro_lua.Thread.Loop.Pick.{IsRunning?}
use micro_lua.Thread.Loop.Between.{Covers, IsRound, waiting_fits}
use micro_lua.Thread.Life.Wake.{AllResumed}
use micro_lua.Event.{Ev, Events, drain}
use micro_lua.Event.Queue.{IsQueue, set_lem, is_idle}
use micro_lua.Event.Dispatch.{drain_lem}
use micro_lua.Event.Loop.{Wakeup, arrive, dispatch_loop, dispatch, host_loop, host_dispatch}

-- Resuming watchers keeps what holds between the parts of a round.
module _ {all : List Tid} {s s' : Sched} (running : Option Tid) (ready waiting l : List Tid)
    (k : IsRunning? s ready running) (c : Covers all s running ready)
    (a : AllResumed s.next (thread_state s) ready waiting l s') where
  resumed_running : (r : Option Tid) → running ≡ r → IsRunning? s ready r → IsRunning? s' a.ready' r
  resumed_running none e k = tt
  resumed_running (some r) e k =
      let awake : is_waiting (thread_state s r) ≡ false = rw k.active refl in
      record {
        active = a.kept r awake ∙ k.active;
        next = a.apart r k.not_ready awake ∙ k.next;
        not_ready = elim (Bool-cases (has r a.ready')) [
          | inl h ↦ absurd (ground (arith, a.source r h, k.not_ready))
          | inr h ↦ h
        ];
      }

  resumed_waits : (u : Tid) → is_waiting (thread_state s' u) ≡ true → has u all ≡ true
  resumed_waits u h = elim (Bool-cases (is_waiting (thread_state s u))) [
    | inl w ↦ c.waits u w
    | inr w ↦ absurd (ground (arith, ap is_waiting (a.kept u w)))
  ]

  resumed_queued : (u : Tid) → has u a.ready' ≡ true → has u all ≡ true
  resumed_queued u h = elim (Bool-cases (has u ready)) [
    | inl r ↦ c.queued u r
    | inr r ↦ c.waits u (ground (arith, a.source u h))
  ]

  resumed-IsRound : IsRound all running s'
  resumed-IsRound = record {
    ready = a.ready';
    waiting = a.waiting';
    sched = a.sched;
    runs = resumed_running running refl k;
    covers = record { waits = resumed_waits; queued = resumed_queued; runs = c.runs };
  }

-- What the loop over pending events leaves.
abbrev DrainRound :
    (all : List Tid) (running : Option Tid) → Option (Bool × Events × Sched) → Type 0
DrainRound all running o =
    (w : Bool) × (q' : Events) × (s' : Sched) × (o ≡ some (w, q', s'))
    × IsQueue q' []
    × IsRound all running s'

drain-IsRound :
    {all : List Tid} {running : Option Tid} {q : Events} {s : Sched} (fuel rounds : ℕ) (wake : Bool)
    (l : List Ev)
    → IsQueue q l
    → IsRound all running s
    → length l < fuel
    → length all < rounds
    → DrainRound all running (drain fuel rounds wake q s)
drain-IsRound {running} fuel rounds wake l i r enough many =
    let (q', s', ran, d) =
      drain_lem fuel rounds wake r.ready r.waiting l i r.sched enough
        ((waiting_fits rounds r.ready r.waiting r.sched r.covers many).0) in
    (_, q', s', ran, d.empty, resumed-IsRound running r.ready r.waiting _ r.runs r.covers d.resumed)

one_more : (b : Bool) (e : Ev) (l : List Ev) → length (if b then l ++ e ∷ [] else l) ≤ length l + 1
one_more true e l = omega (arith, length-append l (e ∷ []))
one_more false e l = omega arith

-- Events that arrive wait in the queue, each once.
arrive_lem :
    (es : List Ev) {q : Events} (l : List Ev)
    → IsQueue q l
    → (q' : Events) × (l' : List Ev) × (arrive es q ≡ some q')
      × IsQueue q' l'
      × (length l' ≤ length l + length es)
unfolding arrive
arrive_lem [] {q} l i = (q, l, refl, i, omega arith)
arrive_lem (e ∷ es) {q} l i =
    let (q₁, ran, i₁, _) = set_lem e l i in
    let (q₂, l₂, ran₂, i₂, le) =
      arrive_lem es (if is_idle (q.state e) then l ++ e ∷ [] else l) i₁ in
    (
      q₂,
      l₂,
      ap (λ o. o >>= (λ q'. arrive es q')) ran ∙ ran₂,
      i₂,
      omega (arith, le, one_more (is_idle (q.state e)) e l),
    )

-- Every wake-up brings fewer events than the fuel.
abbrev pub Fits : ℕ → List Wakeup → Type 0
Fits fuel [] = Unit
Fits fuel (u ∷ us) = (length u.arrivals < fuel) × Fits fuel us

-- The clock reaches the deadline at one of the wake-ups, if not at first.
abbrev pub Reaches : (deadline now : ℕ) → List Wakeup → Type 0
Reaches deadline now [] = deadline ≤ now
Reaches deadline now (u ∷ us) = (deadline ≤ now) ⊎ Reaches deadline u.now us

abbrev pub DispatchRound :
    (all : List Tid) (running : Option Tid) → Option (Events × Sched) → Type 0
DispatchRound all running o =
    (q' : Events) × (s' : Sched) × (o ≡ some (q', s')) × IsQueue q' [] × IsRound all running s'

reached :
    (deadline now : ℕ) (w : Bool) → deadline ≤ now → (w || ticks64_reached deadline now) ≡ true
unfolding ticks64_reached
reached deadline now w h = ground arith

-- What the loop does after it has handled the pending events.
abbrev after_drain :
    List Wakeup → (fuel rounds deadline now : ℕ) → Bool × Events × Sched → Option (Events × Sched)
after_drain [] fuel rounds deadline now (w, q, s) =
    if w || ticks64_reached deadline now then some (q, s) else none
after_drain (u ∷ us) fuel rounds deadline now (w, q, s) =
    if w || ticks64_reached deadline now
    then some (q, s)
    else (arrive u.arrivals q >>= λ q'. dispatch_loop us fuel rounds deadline u.now false q' s)

loop_step :
    (us : List Wakeup) (fuel rounds deadline now : ℕ) (wake : Bool) (q : Events) (s : Sched)
    → dispatch_loop us fuel rounds deadline now wake q s
      ≡ (drain fuel rounds wake q s >>= after_drain us fuel rounds deadline now)
unfolding dispatch_loop
loop_step [] fuel rounds deadline now wake q s = refl
loop_step (u ∷ us) fuel rounds deadline now wake q s = refl

dispatch_loop_lem :
    {all : List Tid} {running : Option Tid} (us : List Wakeup) {q : Events} {s : Sched}
    (fuel rounds deadline now : ℕ) (wake : Bool) (l : List Ev)
    → IsQueue q l
    → IsRound all running s
    → length l < fuel
    → length all < rounds
    → Fits fuel us
    → Reaches deadline now us
    → DispatchRound all running (dispatch_loop us fuel rounds deadline now wake q s)
dispatch_loop_lem [] {q} {s} fuel rounds deadline now wake l i r enough many fits reach =
    let (w, q', s', ran, i', r') = drain-IsRound fuel rounds wake l i r enough many in
    (
      q',
      s',
      loop_step [] fuel rounds deadline now wake q s
          ∙ ap (λ o. o >>= after_drain [] fuel rounds deadline now) ran
          ∙ rw (reached deadline now w reach) refl,
      i',
      r',
    )
dispatch_loop_lem {all} {running} (u ∷ us) {q} {s} fuel rounds deadline now wake l i r enough many
      fits reach =
    let (w, q', s', ran, i', r') = drain-IsRound fuel rounds wake l i r enough many in
    subst (DispatchRound all running)
      (sym (
        loop_step (u ∷ us) fuel rounds deadline now wake q s
        ∙ ap (λ o. o >>= after_drain (u ∷ us) fuel rounds deadline now) ran))
      (elim (Bool-cases (w || ticks64_reached deadline now)) [
        | inl e ↦ rw e (q', s', refl, i', r')
        | inr e ↦ rw e (
            let (q₂, l₂, ran₂, i₂, le) = arrive_lem u.arrivals [] i' in
            subst (DispatchRound all running)
              (sym (
                ap (λ o. o >>= (λ q''. dispatch_loop us fuel rounds deadline u.now false q'' s'))
                  ran₂))
              (dispatch_loop_lem us fuel rounds deadline u.now false l₂ i₂ r'
                (omega (arith, le, fits.0)) many fits.1 (later w e reach)))
      ])
  where
    later :
        (w : Bool)
        → (w || ticks64_reached deadline now) ≡ false
        → (deadline ≤ now) ⊎ Reaches deadline u.now us
        → Reaches deadline u.now us
    later w e (inl h) = absurd (ground (arith, reached deadline now w h))
    later w e (inr h) = h

-- With a well-formed queue of events and scheduler, fuel for the pending events and for those that
-- arrive in each wait, and rounds for all threads, event dispatch returns if the clock reaches the
-- deadline after some wait. No event is pending then, and everything that the scheduling loop relies
-- on holds again, with the same running thread.
pub dispatch_lem :
    {all : List Tid} {running : Option Tid} (us : List Wakeup) {q : Events} {s : Sched}
    (fuel rounds deadline now : ℕ) (l : List Ev)
    → IsQueue q l
    → IsRound all running s
    → length l < fuel
    → length all < rounds
    → Fits fuel us
    → Reaches deadline now us
    → DispatchRound all running (dispatch us fuel rounds deadline now q s)
unfolding dispatch
dispatch_lem us fuel rounds deadline now l =
    dispatch_loop_lem us fuel rounds deadline now (deadline == 0) l

-- The first time of a list, if any, that is not before the deadline.
abbrev pub first_from : (deadline : ℕ) → List ℕ → Option ℕ
first_from deadline [] = none
first_from deadline (t ∷ ts) = if leb deadline t then some t else first_from deadline ts

host_loop_lem :
    (ts : List ℕ) (deadline now : ℕ)
    → host_loop ts deadline now false ≡ first_from deadline (now ∷ ts)
unfolding host_loop ticks64_reached
host_loop_lem [] deadline now = refl
host_loop_lem (t ∷ ts) deadline now =
    ap (λ o. if leb deadline now then some now else o) (host_loop_lem ts deadline t)

host_loop_now : (ts : List ℕ) (deadline now : ℕ) → host_loop ts deadline now true ≡ some now
unfolding host_loop
host_loop_now [] deadline now = refl
host_loop_now (t ∷ ts) deadline now = refl

-- On the host, the dispatch returns at the first time, at once or after a wait, that is not before
-- the deadline; with a deadline of 0, which asks not to wait, it returns at once.
pub host_dispatch_lem :
    (ts : List ℕ) (deadline now : ℕ)
    → host_dispatch ts deadline now ≡ first_from deadline (now ∷ ts)
unfolding host_dispatch
host_dispatch_lem ts deadline now = elim (Bool-cases (deadline == 0)) [
  | inl e ↦ rw (e, host_loop_now ts deadline now) (ground arith)
  | inr e ↦ rw e (host_loop_lem ts deadline now)
]
