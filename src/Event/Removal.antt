-- ===== src/Event/Removal.antt =====
-- Disabling an event that is pending, in lib/pico/event.c: where the queue stays well formed, and
-- where its tail is left behind.
use micro_lua.Base.{
  ℕ, zero, suc, ◌≤◌, ◌≡◌, ◌≢◌, refl, sym, ◌∙◌, ◌⊎◌, inl, inr, true, false, Option, none, some, List,
  [], ◌∷◌, arith, ◌==◌, update, has, last, length, Distinct, last-has, eq_self, Bool-cases,
}
use micro_lua.Thread.Chain.{
  Chain, frame, without, without-here, without-later, has-without, not-has-without, has-without_ne,
  Distinct-without, transfer,
}
use micro_lua.Thread.Resume.{without_absent}
use micro_lua.Event.{
  Ev, EventState, disabled, idle, abandoned, pending, Events, is_pending, remove_loop,
  remove_pending, disable, set, set_state,
}
use micro_lua.Event.Queue.{after, IsQueue, next_pending-after}

-- What the walk from `cur`, with `l` behind it, leaves of the state words.
record Unlinked (rounds : ℕ) (cur ev : Ev) (q : Events) (l : List Ev) : Type 0 where
  state : Ev → EventState
  ran : remove_loop rounds cur ev q ≡ some (record q { state = state })
  chain : Chain (λ e. after (state e)) (after (state cur)) (without ev l)
  outside : (u : Ev) → (u == cur) ≡ false → has u l ≡ false → state u ≡ q.state u
  same : (u : Ev) → is_pending (state u) ≡ is_pending (q.state u)

module _ (rounds : ℕ) (cur ev n : Ev) (q : Events) (l : List Ev)
    (c : Chain (λ e. after (q.state e)) (after (q.state cur)) (n ∷ l))
    (p : is_pending (q.state cur) ≡ true) (out : has cur (n ∷ l) ≡ false)
    (d : Distinct (n ∷ l)) where
  Unlinked-here :
      (n == ev) ≡ true → is_pending (q.state ev) ≡ true → Unlinked (suc rounds) cur ev q (n ∷ l)
  unfolding remove_loop
  Unlinked-here e pe = record {
    state = update q.state cur (q.state ev);
    ran = ground (arith, next_pending-after (q.state cur) p, c.0);
    chain =
        transfer _ (after (q.state n)) _ l _ (ground arith) (sym (without-here ev n l e))
          (frame _ _ (after (q.state n)) l c.1 (λ u h. ground arith));
    outside = λ u a b. ground arith;
    same = λ u. ground arith;
  }

  Unlinked-later :
      (n == ev) ≡ false → Unlinked rounds n ev q l → Unlinked (suc rounds) cur ev q (n ∷ l)
  unfolding remove_loop
  Unlinked-later e r = record {
    state = r.state;
    ran = ground (arith, next_pending-after (q.state cur) p, c.0, r.ran);
    chain =
        transfer _ (some n) _ (n ∷ without ev l) _ (ground (arith, r.outside cur, c.0))
          (sym (without-later ev n l e)) (refl, r.chain);
    outside = λ u a b. ground (arith, r.outside u);
    same = r.same;
  }

remove_loop_lem :
    (rounds : ℕ) (cur ev : Ev) (q : Events) (l : List Ev)
    → length l ≤ rounds
    → Chain (λ e. after (q.state e)) (after (q.state cur)) l
    → has cur l ≡ false
    → Distinct l
    → ((u : Ev) → has u (cur ∷ l) ≡ true → is_pending (q.state u) ≡ true)
    → has ev l ≡ true
    → Unlinked rounds cur ev q l
remove_loop_lem rounds cur ev q [] fuel c out d p h = absurd (cc h)
remove_loop_lem zero cur ev q (n ∷ l) fuel c out d p h = absurd (omega arith)
remove_loop_lem (suc rounds) cur ev q (n ∷ l) fuel c out d p h = elim (Bool-cases (n == ev)) [
  | inl e ↦
      Unlinked-here rounds cur ev n q l c (p cur (ground (arith, eq_self cur))) out d e
        (p ev (ground arith))
  | inr e ↦ Unlinked-later rounds cur ev n q l c (p cur (ground (arith, eq_self cur))) out d e (
      remove_loop_lem rounds n ev q l (omega arith) c.1 d.0 d.1 (λ u k. p u (ground arith))
        (ground arith))
]

-- The removal of a pending event from the queue `l`. The tail is not touched.
record Cut (rounds : ℕ) (ev : Ev) (q : Events) (l : List Ev) : Type 0 where
  head : Option Ev
  state : Ev → EventState
  ran : remove_pending rounds ev q ≡ some (record q { head = head; state = state })
  chain : Chain (λ e. after (state e)) head (without ev l)
  outside : (u : Ev) → has u l ≡ false → state u ≡ q.state u
  same : (u : Ev) → is_pending (state u) ≡ is_pending (q.state u)

remove_pending_lem :
    (rounds : ℕ) (ev : Ev) {q : Events} (l : List Ev)
    → IsQueue q l
    → has ev l ≡ true
    → length l ≤ rounds
    → Cut rounds ev q l
unfolding remove_pending
remove_pending_lem rounds ev [] i h fuel = absurd (cc h)
remove_pending_lem rounds ev {q} (x ∷ l) i h fuel = elim (Bool-cases (x == ev)) [
  | inl e ↦ record {
    head = after (q.state ev);
    state = q.state;
    ran = ground (arith, i.chain.0, next_pending-after (q.state ev) (ground (arith, i.members ev)));
    chain =
        transfer _ (after (q.state x)) _ l _ (ground arith) (sym (without-here ev x l e)) i.chain.1;
    outside = λ u k. refl;
    same = λ u. refl;
  }
  | inr e ↦ from_loop e (
      remove_loop_lem rounds x ev q l (omega arith) i.chain.1 i.distinct.0 i.distinct.1
        (λ u k. i.members u ∙ k) (ground arith))
]
  where
    from_loop : (x == ev) ≡ false → Unlinked rounds x ev q l → Cut rounds ev q (x ∷ l)
    from_loop e r = record {
      head = some x;
      state = r.state;
      ran = ground (arith, i.chain.0, r.ran);
      chain =
          transfer _ (some x) _ (x ∷ without ev l) _ refl (sym (without-later ev x l e))
            (refl, r.chain);
      outside = λ u k. r.outside u (ground arith) (ground arith);
      same = r.same;
    }

without-nil : (ev y : Ev) (l : List Ev) → without ev (y ∷ l) ≡ [] → last (y ∷ l) ≡ some ev
without-nil ev y [] e = ground arith
without-nil ev y (z ∷ l) e = absurd (ground arith)

last-without-cons :
    (ev x y : Ev) (l w : List Ev) (e : Ev)
    → without ev (y ∷ l) ≡ w
    → last (y ∷ l) ≢ some ev
    → last (x ∷ w) ≡ some e
    → last w ≡ some e
last-without-cons ev x y l [] e a k h = absurd (k (without-nil ev y l a))
last-without-cons ev x y l (z ∷ w) e a k h = h

last-without :
    (ev : Ev) (l : List Ev) (e : Ev)
    → last l ≢ some ev
    → last (without ev l) ≡ some e
    → last l ≡ some e
last-without ev [] e k h = h
last-without ev (x ∷ []) e k h = ground (arith, h)
last-without ev (x ∷ y ∷ l) e k h = elim (Bool-cases (ev == x)) [
  | inl a ↦ rw a at h
  | inr a ↦
      last-without ev (y ∷ l) e k
        (last-without-cons ev x y l (without ev (y ∷ l)) e refl k (rw a at h))
]

last-without_or_only :
    (ev : Ev) (l : List Ev) (e : Ev)
    → (last l ≢ some ev) ⊎ (l ≡ ev ∷ [])
    → last (without ev l) ≡ some e
    → last l ≡ some e
last-without_or_only ev l e (inl k) h = last-without ev l e k h
last-without_or_only ev [] e (inr k) h = h
last-without_or_only ev (x ∷ l) e (inr k) h = absurd (ground (arith, h, k))

-- The event is off the queue, and the words are written.
module _ {rounds : ℕ} (ev : Ev) {q : Events} (l : List Ev) (i : IsQueue q l) (h : has ev l ≡ true)
    (st : EventState) (not_pending : is_pending st ≡ false) (c : Cut rounds ev q l) where
  removed : Events
  unfolding set_state
  removed = set_state ev st (record q { head = c.head; state = c.state })

  disable_ran : disable rounds ev st q ≡ some removed
  unfolding disable removed
  disable_ran = ground (arith, c.ran, i.members ev)

  removed-Chain : Chain (λ e. after (removed.state e)) removed.head (without ev l)
  unfolding removed set_state
  removed-Chain =
      frame _ _ c.head (without ev l) c.chain
        (λ u k. ground (arith, not-has-without l ev i.distinct))

  removed_members : (e : Ev) → is_pending (removed.state e) ≡ has e (without ev l)
  unfolding removed set_state
  removed_members e = elim (Bool-cases (e == ev)) [
    | inl k ↦ ground (arith, not-has-without l ev i.distinct)
    | inr k ↦ ground (arith, c.same e, i.members e, has-without l ev e, has-without_ne l ev e)
  ]

  removed-IsQueue : (last l ≢ some ev) ⊎ (l ≡ ev ∷ []) → IsQueue removed (without ev l)
  unfolding removed set_state
  removed-IsQueue k = record {
    chain = removed-Chain;
    ends = λ e le. i.ends e (last-without_or_only ev l e k le);
    distinct = Distinct-without l ev i.distinct;
    members = removed_members;
  }

module _ {q : Events} (rounds : ℕ) (ev : Ev) (st : EventState) (l : List Ev) (i : IsQueue q l)
    (out : has ev l ≡ false) (np : is_pending st ≡ false) where
  touched-IsQueue : IsQueue (set_state ev st q) l
  unfolding set_state
  touched-IsQueue = record {
    chain = frame _ _ q.head l i.chain (λ u h. ground arith);
    ends = i.ends;
    distinct = i.distinct;
    members = λ e. ground (arith, i.members e);
  }

  disable_word :
      (w : EventState)
      → q.state ev ≡ w
      → (q' : Events) × (disable rounds ev st q ≡ some q') × IsQueue q' l
  unfolding disable
  disable_word disabled e = (q, rw (e, disable), i)
  disable_word idle e = (set_state ev st q, rw (e, disable), touched-IsQueue)
  disable_word abandoned e = (set_state ev st q, rw (e, disable), touched-IsQueue)
  disable_word (pending n) e = absurd (ground (arith, i.members ev))

-- Disabling or abandoning an event of a well-formed queue, with rounds for all pending events,
-- takes it off the queue, with the order of the others kept, unless it is the last of several.
pub disable_lem :
    {q : Events} (rounds : ℕ) (ev : Ev) (st : EventState) (l : List Ev)
    → IsQueue q l
    → is_pending st ≡ false
    → length l ≤ rounds
    → (last l ≢ some ev) ⊎ (l ≡ ev ∷ [])
    → (q' : Events) × (disable rounds ev st q ≡ some q') × IsQueue q' (without ev l)
disable_lem {q} rounds ev st l i np fuel k = elim (Bool-cases (has ev l)) [
  | inl h ↦ (
    removed ev l i h st np (remove_pending_lem rounds ev l i h fuel),
    disable_ran ev l i h st np (remove_pending_lem rounds ev l i h fuel),
    removed-IsQueue ev l i h st np (remove_pending_lem rounds ev l i h fuel) k,
  )
  | inr h ↦ rw (without_absent ev l h) (disable_word rounds ev st l i h np (q.state ev) refl)
]

without_some :
    (ev : Ev) (l : List Ev)
    → l ≢ []
    → l ≢ ev ∷ []
    → (w : List Ev) → without ev l ≡ w
    → (h : Ev) × (v : List Ev) × (w ≡ h ∷ v)
without_some ev l n k (h ∷ v) e = (h, v, refl)
without_some ev [] n k [] e = absurd (n refl)
without_some ev (x ∷ []) n k [] e = absurd (ground (arith, e, k))
without_some ev (x ∷ y ∷ l) n k [] e = absurd (ground (arith, e))

first_of :
    (next : Ev → Option Ev) {p : Option Ev} (w : List Ev) (h : Ev) (v : List Ev)
    → w ≡ h ∷ v
    → Chain next p w
    → p ≡ some h
first_of next [] h v e c = absurd (ground (arith, e))
first_of next (x ∷ w) h v e c = ground (arith, e, c.0)

module _ {q : Events} (rounds : ℕ) (ev c : Ev) (l : List Ev) (i : IsQueue q l)
    (fuel : length l ≤ rounds) (le : last l ≡ some ev) (idle_c : q.state c ≡ idle) where
  queued : has ev l ≡ true
  queued = last-has l ev le

  not_queued : has c l ≡ false
  not_queued = sym (i.members c) ∙ rw idle_c refl

  other : (c == ev) ≡ false
  other = ground (arith, queued, not_queued)

  unlinking : Cut rounds ev q l
  unlinking = remove_pending_lem rounds ev l i queued fuel

  after_disable : Events
  after_disable = removed ev l i queued disabled refl unlinking

  lost : Events
  unfolding after_disable removed set_state
  lost = record after_disable {
    state = update (update after_disable.state c (pending none)) ev (pending (some c));
    tail = some c;
  }

  still_idle : after_disable.state c ≡ idle
  unfolding after_disable removed set_state
  still_idle = ground (arith, other, unlinking.outside c not_queued)

  link_lost : (h : Ev) → after_disable.head ≡ some h → set c after_disable ≡ some lost
  unfolding set lost after_disable removed set_state
  link_lost h eh = ground (arith, still_idle, i.ends ev le)

  disable_lost : disable rounds ev disabled q ≡ some after_disable
  unfolding after_disable
  disable_lost = disable_ran ev l i queued disabled refl unlinking

  after_disable-Chain : Chain (λ e. after (after_disable.state e)) after_disable.head (without ev l)
  unfolding after_disable
  after_disable-Chain = removed-Chain ev l i queued disabled refl unlinking

  lost-Chain : Chain (λ e. after (lost.state e)) lost.head (without ev l)
  unfolding lost after_disable
  lost-Chain =
      frame _ _ _ (without ev l) after_disable-Chain
        (λ u h. ground (arith, not-has-without l ev i.distinct, has-without l ev c, not_queued))

  lost_words : (lost.state c ≡ pending none) × (lost.state ev ≡ pending (some c))
  unfolding lost
  lost_words = (ground (arith, other), ground (arith, other))

-- Disabling the last of several pending events leaves the tail at it. An idle event that is set
-- next is then pending and not among the events that the head of the queue leads to, and the
-- disabled event has a state word that counts as pending.
pub disable-set_lost :
    {q : Events} (rounds : ℕ) (ev c : Ev) (l : List Ev)
    → IsQueue q l
    → length l ≤ rounds
    → last l ≡ some ev
    → (l ≢ ev ∷ [])
    → q.state c ≡ idle
    → (q₁ q₂ : Events) × (disable rounds ev disabled q ≡ some q₁)
      × (set c q₁ ≡ some q₂)
      × Chain (λ e. after (q₂.state e)) q₂.head (without ev l)
      × (has c (without ev l) ≡ false)
      × (q₂.state c ≡ pending none)
      × (q₂.state ev ≡ pending (some c))
disable-set_lost {q} rounds ev c l i fuel le ne idle_c =
    let (h, v, e) = without_some ev l (λ e. ground arith) ne (without ev l) refl in
    (
      after_disable rounds ev c l i fuel le idle_c,
      lost rounds ev c l i fuel le idle_c,
      disable_lost rounds ev c l i fuel le idle_c,
      link_lost rounds ev c l i fuel le idle_c h
          (first_of _ (without ev l) h v e (after_disable-Chain rounds ev c l i fuel le idle_c)),
      lost-Chain rounds ev c l i fuel le idle_c,
      ground (arith, has-without l ev c, not_queued rounds ev c l i fuel le idle_c),
      (lost_words rounds ev c l i fuel le idle_c).0,
      (lost_words rounds ev c l i fuel le idle_c).1,
    )
