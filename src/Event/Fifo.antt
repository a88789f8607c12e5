-- ===== src/Event/Fifo.antt =====
-- The pending queue of lib/pico/event.c under any sequence of interrupts that set events and of
-- dispatches that take them, against a plain list.
use micro_lua.Base.{
  ◌≡◌, refl, ◌∙◌, inl, inr, Bool, true, Option, none, some, List, [], ◌∷◌, ◌++◌, arith, ◌==◌, ◌&&◌,
  not, if◌then◌else◌, ◌>>=◌, has, ap, subst, Bool-cases, eq_self,
}
use micro_lua.Event.{Ev, EventState, Events, is_pending, set, pop}
use micro_lua.Event.Queue.{IsQueue, is_idle, is_armed, SameArmed, set_lem, pop_lem, pop-empty}

-- Each of the two is a locked section.
pub data Op : Type 0 where
  sets : Ev → Op
  takes : Op

-- What the dispatches took, and the queue after it.
pub run : List Op → Events → Option (List (Option Ev) × Events)
run [] q = some ([], q)
run (sets e ∷ ops) q = set e q >>= λ q'. run ops q'
run (takes ∷ ops) q = pop q >>= λ (o, q'). run ops q' >>= λ (l, q''). some (o ∷ l, q'')

-- The same for a list of events.
pub put : (armed : Ev → Bool) → Ev → List Ev → List Ev
put armed e l = if armed e && not (has e l) then l ++ e ∷ [] else l

abbrev pub first_of : List Ev → Option Ev
first_of [] = none
first_of (e ∷ l) = some e

abbrev pub behind : List Ev → List Ev
behind [] = []
behind (e ∷ l) = l

pub run_fifo : (armed : Ev → Bool) → List Op → List Ev → List (Option Ev) × List Ev
unfolding put
run_fifo armed [] l = ([], l)
run_fifo armed (sets e ∷ ops) l = run_fifo armed ops (put armed e l)
run_fifo armed (takes ∷ ops) l = let r = run_fifo armed ops (behind l) in (first_of l ∷ r.0, r.1)

idle-armed : (st : EventState) (b : Bool) → is_pending st ≡ b → is_idle st ≡ (is_armed st && not b)
idle-armed st b h = ground arith

pending_armed : (st : EventState) → is_pending st ≡ true → is_armed st ≡ true
pending_armed st h = ground arith

set_list :
    {q : Events} (armed : Ev → Bool) (e : Ev) (l : List Ev)
    → IsQueue q l
    → ((u : Ev) → is_armed (q.state u) ≡ armed u)
    → (q' : Events) × (set e q ≡ some q') × IsQueue q' (put armed e l) × SameArmed q q'
unfolding put
set_list {q} armed e l i a =
    let (q', ran, j, same) = set_lem e l i in
    (
      q',
      ran,
      subst (λ b. IsQueue q' (if b then l ++ e ∷ [] else l))
          (idle-armed (q.state e) (has e l) (i.members e) ∙ ap (λ b. b && not (has e l)) (a e)) j,
      same,
    )

pop_list :
    {q : Events} (l : List Ev)
    → IsQueue q l
    → (q' : Events) × (pop q ≡ some (first_of l, q')) × IsQueue q' (behind l) × SameArmed q q'
pop_list [] i = (_, pop-empty i, i, λ e. refl)
pop_list {q} (e ∷ l) i =
    let (q', ran, j, st, _, others) = pop_lem e l i in
    (
      q',
      ran,
      j,
      λ u. elim (Bool-cases (u == e)) [
        | inl k ↦ ground (arith, pending_armed (q.state e) (ground (arith, i.members e, eq_self e)))
        | inr k ↦ ap is_armed (others u k)
      ],
    )

-- From a well-formed queue, whatever sequence of interrupts that set events and of dispatches
-- runs, the dispatches take the events that a list would give them which a set appends to, if the
-- event is enabled, not abandoned and not in the list yet, and which a dispatch takes the first
-- of; no step reads or writes through a null pointer.
pub run-run_fifo :
    (armed : Ev → Bool) (ops : List Op) {q : Events} (l : List Ev)
    → IsQueue q l
    → ((e : Ev) → is_armed (q.state e) ≡ armed e)
    → (q' : Events) × (run ops q ≡ some ((run_fifo armed ops l).0, q'))
      × IsQueue q' (run_fifo armed ops l).1
unfolding run run_fifo put
run-run_fifo armed [] {q} l i a = (q, refl, i)
run-run_fifo armed (sets e ∷ ops) {q} l i a =
    let (q', ran, j, same) = set_list armed e l i a in
    rw ran (run-run_fifo armed ops (put armed e l) j (λ u. same u ∙ a u))
run-run_fifo armed (takes ∷ ops) {q} l i a =
    let (q', ran, j, same) = pop_list l i in
    let (q'', ran', k) = run-run_fifo armed ops (behind l) j (λ u. same u ∙ a u) in
    (q'', rw (ran, ran') refl, k)
