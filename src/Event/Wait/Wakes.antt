-- ===== src/Event/Wait/Wakes.antt =====
-- A wait of lib/common/mlua.thread.c for several events, with the pending queue of lib/pico/event.c:
-- each of its events resumes the thread, and none is watched when it is over.
use micro_lua.Base.{
  ℕ, ◌<◌, ◌≡◌, refl, ap, ◌∙◌, inl, inr, true, false, ◌&&◌, Option, none, some, List, [], ◌∷◌, ◌++◌,
  ◌⊎◌, arith, ◌==◌, ◌^◌, if◌then◌else◌, ◌>>=◌, Bool-cases, has, length, subst, eq_self,
}
use micro_lua.Value.{Value, nil, boolean, integer, int64, string, other}
use micro_lua.Time.{is_time}
use micro_lua.Thread.{Tid, Sched, active, thread_state}
use micro_lua.Thread.Loop.{after_resume, yielded, go_on}
use micro_lua.Thread.Loop.Between.{IsRound, waiting_fits}
use micro_lua.Thread.Loop.Park.{Parked, after_resume-Parked}
use micro_lua.Thread.Life.Wake.{AllResumed}
use micro_lua.Thread.Resume.{is_waiting}
use micro_lua.Thread.Invariant.{IsSched}
use micro_lua.Event.{
  Ev, Events, EventState, disabled, idle, abandoned, pending, is_enabled, watch_event,
  unwatch_event, set, drain,
}
use micro_lua.Event.Queue.{IsQueue, SameArmed, set_lem, is_idle}
use micro_lua.Event.Dispatch.{drain_lem, watchers, woken}
use micro_lua.Event.Wait.{returns, suspends, is_deadline, event_wait, event_wait_again}
use micro_lua.Event.Wait.Mask.{events_of, watch_all, unwatch_all, watch_events_lem}

watch_all-state : (t : Tid) (es : List Ev) (q : Events) → (watch_all t es q).state ≡ q.state
unfolding watch_event
watch_all-state t [] q = refl
watch_all-state t (e ∷ es) q = watch_all-state t es (watch_event t e q)

watch_all-kept :
    (t : Tid) (es : List Ev) (q : Events) (e : Ev)
    → q.watcher e ≡ some t
    → (watch_all t es q).watcher e ≡ some t
unfolding watch_event
watch_all-kept t [] q e h = h
watch_all-kept t (x ∷ es) q e h = watch_all-kept t es (watch_event t x q) e (ground arith)

watch_all-watcher :
    (t : Tid) (es : List Ev) (q : Events) (e : Ev)
    → has e es ≡ true
    → (watch_all t es q).watcher e ≡ some t
unfolding watch_event
watch_all-watcher t [] q e h = absurd (cc h)
watch_all-watcher t (x ∷ es) q e h = elim (Bool-cases (e == x)) [
  | inl k ↦ watch_all-kept t es (watch_event t x q) e (ground arith)
  | inr k ↦ watch_all-watcher t es (watch_event t x q) e (ground arith)
]

watch_all-IsQueue :
    (t : Tid) (es : List Ev) (q : Events) (l : List Ev) → IsQueue q l → IsQueue (watch_all t es q) l
unfolding watch_event
watch_all-IsQueue t [] q l i = i
watch_all-IsQueue t (x ∷ es) q l i =
    watch_all-IsQueue t es (watch_event t x q) l
      (record { chain = i.chain; ends = i.ends; distinct = i.distinct; members = i.members })

unwatch-watcher :
    (x : Ev) (q : Events) (e : Ev)
    → (unwatch_event x q).watcher e
      ≡ (if (e == x) && is_enabled (q.state e) then none else q.watcher e)
unfolding unwatch_event
unwatch-watcher x q e = elim (Bool-cases (e == x)) [
  | inl k ↦
      (let same : e ≡ x = ground arith in
        rw (k, same)
          (elim (Bool-cases (is_enabled (q.state x))) [
            | inl on ↦ rw on (ground (arith, eq_self x))
            | inr off ↦ rw off refl
          ]))
  | inr k ↦ rw k (elim (Bool-cases (is_enabled (q.state x))) [
    | inl on ↦ rw on (ground arith)
    | inr off ↦ rw off refl
  ])
]

unwatch-state : (x : Ev) (q : Events) → (unwatch_event x q).state ≡ q.state
unfolding unwatch_event
unwatch-state x q = ground arith

unwatch_all-watcher :
    (es : List Ev) (q : Events) (e : Ev)
    → (unwatch_all es q).watcher e
      ≡ (if has e es && is_enabled (q.state e) then none else q.watcher e)
unwatch_all-watcher [] q e = refl
unwatch_all-watcher (x ∷ es) q e =
    let same : is_enabled ((unwatch_event x q).state e) ≡ is_enabled (q.state e) =
      ap (λ f. is_enabled (f e)) (unwatch-state x q) in
    unwatch_all-watcher es (unwatch_event x q) e ∙ rw (same, unwatch-watcher x q e) (ground arith)

-- When a wait is over, those of its events that are enabled are not watched any more, and the
-- watchers of all other events are kept.
pub event_wait_again_lem :
    (r : ℕ) (d : Value) (ev : Ev) (mask : ℕ) (q : Events)
    → mask < 2 ^ 31
    → (q' : Events) × (event_wait_again 32 (some r) d ev mask q ≡ some (returns r, q'))
      × ((e : Ev)
          → q'.watcher e
            ≡ (if has e (events_of ev mask) && is_enabled (q.state e) then none else q.watcher e))
unfolding event_wait_again
event_wait_again_lem r d ev mask q small = (
  unwatch_all (events_of ev mask) q,
  ap (λ o. o >>= (λ q'. some (returns r, q'))) ((watch_events_lem 0 ev mask q small).1),
  λ e. unwatch_all-watcher (events_of ev mask) q e,
)

abbrev SameWatchers : Events → Option Events → Type 0
SameWatchers q none = Unit
SameWatchers q (some q') = q'.watcher ≡ q.watcher

set-SameWatchers : (e : Ev) (q : Events) → SameWatchers q (set e q)
unfolding set
set-SameWatchers e q = by_state (q.state e) q.head q.tail refl refl refl
  where
    by_state :
        (st : EventState) (h t : Option Ev)
        → q.state e ≡ st
        → q.head ≡ h
        → q.tail ≡ t
        → SameWatchers q (set e q)
    by_state disabled h t st eh et = rw (set, st) refl
    by_state abandoned h t st eh et = rw (set, st) refl
    by_state (pending n) h t st eh et = rw (set, st) refl
    by_state idle none t st eh et = rw (set, st, eh) refl
    by_state idle (some h) none st eh et = rw (set, st, eh, et) tt
    by_state idle (some h) (some t) st eh et = rw (set, st, eh, et) refl

event_wait_suspends :
    (d : Value) (t : Tid) (ev : Ev) (mask : ℕ) (q : Events)
    → mask < 2 ^ 31
    → is_deadline d ≡ true
    → event_wait 32 none d t ev mask q ≡ some (suspends d, watch_all t (events_of ev mask) q)
unfolding event_wait
event_wait_suspends d t ev mask q small ok =
    rw ok (ap (λ o. o >>= (λ q'. some (suspends d, q'))) ((watch_events_lem t ev mask q small).0))

-- The way of a running thread through a wait: it watches its events and yields the deadline, the
-- scheduling loop puts it aside, one of the events is set, and event dispatch puts it at the end of
-- the active queue.
pub record Woken (d : Value) (t : Tid) (ev : Ev) (mask : ℕ) (e : Ev) (rounds now : ℕ) (q : Events)
    (s : Sched) : Type 0 where
  pub watching : Events
  pub suspended : event_wait 32 none d t ev mask q ≡ some (suspends d, watching)
  pub asleep : Sched
  pub yields : after_resume rounds now t (yielded (d ∷ [])) s ≡ some (go_on none, asleep)
  pub waits : is_waiting (thread_state asleep t) ≡ true
  pub ready : List Tid
  pub waiting : List Tid
  pub sched : IsSched asleep ready waiting
  pub arrived : Events
  pub event_set : set e watching ≡ some arrived
  pub drained : Events
  pub after : Sched
  pub dispatched : drain 2 rounds false arrived asleep ≡ some (true, drained, after)
  pub waiting' : List Tid
  pub woken_sched : IsSched after (ready ++ t ∷ []) waiting'
  pub runs : thread_state after t ≡ active

deadline-IsResult : (d : Value) → is_deadline d ≡ true → (d ≡ nil) ⊎ (is_time d ≡ true)
deadline-IsResult nil h = inl refl
deadline-IsResult (boolean b) h = inr h
deadline-IsResult (integer n) h = inr h
deadline-IsResult (int64 n) h = inr h
deadline-IsResult (string b) h = inr h
deadline-IsResult (other n) h = inr h

watchers_one :
    (w : Ev → Option Tid) (e : Ev) (t : Tid) → w e ≡ some t → watchers w (e ∷ []) ≡ t ∷ []
watchers_one w e t h = ground arith

-- A running thread that waits for events, with or without a deadline, is put aside, and when any one
-- of the events is set, which is enabled and not pending, event dispatch makes the thread active and
-- the last of the active queue, in a well-formed scheduler with an empty event queue and more rounds
-- than threads.
pub event_wait_wakes :
    {all : List Tid} {q : Events} {s : Sched} (d : Value) (t : Tid) (ev : Ev) (mask : ℕ) (e : Ev)
    (rounds now : ℕ)
    → mask < 2 ^ 31
    → is_deadline d ≡ true
    → has e (events_of ev mask) ≡ true
    → q.state e ≡ idle
    → IsQueue q []
    → IsRound all (some t) s
    → length all < rounds
    → Woken d t ev mask e rounds now q s
event_wait_wakes {all} {q} {s} d t ev mask e rounds now small ok of st i j fuel =
    ends (set_lem e [] (watch_all-IsQueue t (events_of ev mask) q [] i))
      (after_resume-Parked rounds now t d j fuel (deadline-IsResult d ok))
  where
    watching : Events
    watching = watch_all t (events_of ev mask) q

    ends :
        (q₂ : Events) × (set e watching ≡ some q₂)
          × IsQueue q₂ (if is_idle (watching.state e) then e ∷ [] else [])
          × SameArmed watching q₂
        → Parked all t s (after_resume rounds now t (yielded (d ∷ [])) s)
        → Woken d t ev mask e rounds now q s
    ends (q₂, ran, i₂, _) p =
        let idle_first : is_idle (watching.state e) ≡ true =
          ap is_idle (ap (λ f. f e) (watch_all-state t (events_of ev mask) q) ∙ st) in
        let one : IsQueue q₂ (e ∷ []) = rw idle_first at i₂ in
        let k = p.round in
        let fits = (waiting_fits rounds k.ready k.waiting k.sched k.covers fuel).0 in
        let (q₃, s', ran₃, x) =
          drain_lem 2 rounds false k.ready k.waiting (e ∷ []) one k.sched (omega arith) fits in
        let watched : q₂.watcher e ≡ some t =
          ap (λ f. f e) (subst (SameWatchers watching) ran (set-SameWatchers e watching))
          ∙ watch_all-watcher t (events_of ev mask) q e of in
        let only = watchers_one q₂.watcher e t watched in
        let r : AllResumed p.asleep.next (thread_state p.asleep) k.ready k.waiting (t ∷ []) s' =
          rw only at x.resumed in
        record {
          watching = watching;
          suspended = event_wait_suspends d t ev mask q small ok;
          asleep = p.asleep;
          yields = p.ran;
          waits = p.waits;
          ready = k.ready;
          waiting = k.waiting;
          sched = k.sched;
          arrived = q₂;
          event_set = ran;
          drained = q₃;
          after = s';
          dispatched =
              ran₃ ∙ ap (λ b. some (b, q₃, s')) (ap (woken false p.asleep) only ∙ rw p.waits refl);
          waiting' = r.waiting';
          woken_sched = subst (λ l. IsSched s' l r.waiting') (r.queue ∙ rw p.waits refl) r.sched;
          runs = r.runs t (ground (arith, eq_self t)) p.waits;
        }
