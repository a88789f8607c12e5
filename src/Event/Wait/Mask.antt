-- ===== src/Event/Wait/Mask.antt =====
-- The loops of lib/common/mlua.thread.c over the events of a mask visit just these events.
use native.Mathlib.Nat.{pow-succ', div-div-eq-div-mul}
use micro_lua.Base.{
  ℕ, zero, suc, ◌+◌, ◌-◌, ◌*◌, ◌/◌, ◌%◌, ◌^◌, ◌≤◌, ◌<◌, ◌≡◌, refl, sym, ap, ◌∙◌, inl, inr, Bool,
  true, false, ◌&&◌, some, List, [], ◌∷◌, arith, ◌==◌, if◌then◌else◌, Bool-cases, cons_ap, subst,
}
use micro_lua.Bits.{trailing_zeros}
use micro_lua.Thread.{Tid}
use micro_lua.Event.{Ev, Events, is_enabled, watch_event, unwatch_event}
use micro_lua.Event.Wait.{next_event, watch_events, unwatch_events, all_enabled}

-- The events of an array from `ev` on by the bits of a mask, the lowest first.
abbrev pub selected : (bits : ℕ) → Ev → (mask : ℕ) → List Ev
selected zero ev mask = []
selected (suc n) ev mask =
    if mask % 2 == 1 then ev ∷ selected n (ev + 4) (mask / 2) else selected n (ev + 4) (mask / 2)

-- The first event and those that the mask selects after it.
unfoldable pub events_of : Ev → (mask : ℕ) → List Ev
events_of ev mask = ev ∷ selected 31 (ev + 4) mask

halve : (mask c : ℕ) → mask / 2 / 2 ^ c ≡ mask / 2 ^ suc c
halve mask c = div-div-eq-div-mul mask 2 (2 ^ c) ∙ ap (λ k. mask / k) (sym (pow-succ' 2 c))

-- A step over the `c` zeros of a mask and the bit behind them.
record Skipped (n : ℕ) (ev : Ev) (mask c : ℕ) : Type 0 where
  pub within : c < n
  pub small : mask / 2 ^ suc c < 2 ^ (n - suc c)
  pub list :
      selected n ev mask ≡ (ev + 4 * c) ∷ selected (n - suc c) (ev + 4 * suc c) (mask / 2 ^ suc c)

Skipped-later :
    {n c : ℕ} {mask : ℕ} (ev : Ev)
    → (mask % 2 == 1) ≡ false
    → Skipped n (ev + 4) (mask / 2) c
    → Skipped (suc n) ev mask (suc c)
Skipped-later {n} {c} {mask} ev e k =
    let bits : n - suc c ≡ suc n - suc (suc c) = omega arith in
    record {
      within = omega (arith, k.within);
      small =
          subst (λ v. v < 2 ^ (suc n - suc (suc c))) (halve mask (suc c))
            (subst (λ b. mask / 2 / 2 ^ suc c < 2 ^ b) bits k.small);
      list = rw e (
          k.list
          ∙ cons_ap (omega arith) (
              ap (λ b. selected b (ev + 4 + 4 * suc c) (mask / 2 / 2 ^ suc c)) bits
              ∙ ap (λ a. selected (suc n - suc (suc c)) a (mask / 2 / 2 ^ suc c)) (omega arith)
              ∙ ap (selected (suc n - suc (suc c)) (ev + 4 * suc (suc c))) (halve mask (suc c))));
    }

Skipped-here :
    (n : ℕ) (ev : Ev) (mask : ℕ)
    → (mask % 2 == 1) ≡ true
    → mask < 2 ^ suc n
    → Skipped (suc n) ev mask 0
Skipped-here n ev mask e small =
    let bits : n ≡ suc n - 1 = omega arith in
    record {
      within = omega arith;
      small = subst (λ b. mask / 2 < 2 ^ b) bits (omega (arith, pow-succ' 2 n));
      list = rw e (cons_ap (omega arith) (ap (λ b. selected b (ev + 4) (mask / 2)) bits));
    }

skip_lem :
    (bits n : ℕ) (ev : Ev) (mask : ℕ)
    → 0 < mask
    → mask < 2 ^ n
    → n ≤ bits
    → Skipped n ev mask (trailing_zeros bits mask)
unfolding trailing_zeros
skip_lem bits zero ev mask pos small fits = absurd (omega arith)
skip_lem zero (suc n) ev mask pos small fits = absurd (omega arith)
skip_lem (suc b) (suc n) ev mask pos small fits = elim (Bool-cases (mask % 2 == 1)) [
  | inl e ↦ rw e (Skipped-here n ev mask e small)
  | inr e ↦ rw e (
      Skipped-later ev e (
        skip_lem b n (ev + 4) (mask / 2) (ground arith) (omega (arith, pow-succ' 2 n))
          (omega arith)))
]

-- The step of the loops from an event to the next one.
record Next (n : ℕ) (ev : Ev) (mask : ℕ) : Type 0 where
  pub left : ℕ
  pub less : left < n
  pub small : (next_event ev mask).1 < 2 ^ left
  pub list :
      selected n (ev + 4) mask
      ≡ (next_event ev mask).0 ∷ selected left ((next_event ev mask).0 + 4) (next_event ev mask).1

next_event_lem :
    (n : ℕ) (ev : Ev) (mask : ℕ) → (mask == 0) ≡ false → mask < 2 ^ n → n ≤ 32 → Next n ev mask
unfolding next_event
next_event_lem n ev mask pos small fits =
    let k = skip_lem 32 n (ev + 4) mask (ground arith) small fits in
    let c = trailing_zeros 32 mask in
    let one : suc c ≡ c + 1 = omega arith in
    record {
      left = n - suc c;
      less = omega (arith, k.within);
      small = subst (λ j. mask / 2 ^ j < 2 ^ (n - suc c)) one k.small;
      list =
          k.list
          ∙ cons_ap (omega arith) (
              ap (λ a. selected (n - suc c) a (mask / 2 ^ suc c)) (omega arith)
              ∙ ap (λ j. selected (n - suc c) (ev + 4 * (c + 1) + 4) (mask / 2 ^ j)) one);
    }

selected_none : (n : ℕ) (ev : Ev) → selected n ev 0 ≡ []
selected_none zero ev = refl
selected_none (suc n) ev = selected_none n (ev + 4)

-- What the loops do, as folds over the events.
abbrev pub watch_all : Tid → List Ev → Events → Events
watch_all t [] q = q
watch_all t (e ∷ es) q = watch_all t es (watch_event t e q)

abbrev pub unwatch_all : List Ev → Events → Events
unwatch_all [] q = q
unwatch_all (e ∷ es) q = unwatch_all es (unwatch_event e q)

abbrev pub enabled_all : List Ev → Events → Bool
enabled_all [] q = true
enabled_all (e ∷ es) q = is_enabled (q.state e) && enabled_all es q

last_event : (n : ℕ) (ev : Ev) (mask : ℕ) → (mask == 0) ≡ true → selected n (ev + 4) mask ≡ []
last_event n ev mask e =
    let zero_mask : mask ≡ 0 = ground arith in
    ap (selected n (ev + 4)) zero_mask ∙ selected_none n (ev + 4)

watch_from :
    (rounds n : ℕ) (t : Tid) (ev : Ev) (mask : ℕ) (q : Events)
    → mask < 2 ^ n
    → n ≤ 32
    → n < rounds
    → watch_events rounds t ev mask q ≡ some (watch_all t (ev ∷ selected n (ev + 4) mask) q)
unfolding watch_events
watch_from zero n t ev mask q small fits fuel = absurd (omega arith)
watch_from (suc k) n t ev mask q small fits fuel = elim (Bool-cases (mask == 0)) [
  | inl e ↦ rw (e, last_event n ev mask e) refl
  | inr e ↦
      (let x = next_event_lem n ev mask e small fits in
        rw (e, x.list)
          (watch_from k x.left t (next_event ev mask).0 (next_event ev mask).1 (watch_event t ev q)
            x.small (omega (arith, x.less)) (omega (arith, x.less))))
]

unwatch_from :
    (rounds n : ℕ) (ev : Ev) (mask : ℕ) (q : Events)
    → mask < 2 ^ n
    → n ≤ 32
    → n < rounds
    → unwatch_events rounds ev mask q ≡ some (unwatch_all (ev ∷ selected n (ev + 4) mask) q)
unfolding unwatch_events
unwatch_from zero n ev mask q small fits fuel = absurd (omega arith)
unwatch_from (suc k) n ev mask q small fits fuel = elim (Bool-cases (mask == 0)) [
  | inl e ↦ rw (e, last_event n ev mask e) refl
  | inr e ↦
      (let x = next_event_lem n ev mask e small fits in
        rw (e, x.list)
          (unwatch_from k x.left (next_event ev mask).0 (next_event ev mask).1 (unwatch_event ev q)
            x.small (omega (arith, x.less)) (omega (arith, x.less))))
]

enabled_from :
    (rounds n : ℕ) (ev : Ev) (mask : ℕ) (q : Events)
    → mask < 2 ^ n
    → n ≤ 32
    → n < rounds
    → all_enabled rounds ev mask q ≡ some (enabled_all (ev ∷ selected n (ev + 4) mask) q)
unfolding all_enabled
enabled_from zero n ev mask q small fits fuel = absurd (omega arith)
enabled_from (suc k) n ev mask q small fits fuel = elim (Bool-cases (is_enabled (q.state ev))) [
  | inr d ↦ rw d refl
  | inl d ↦ elim (Bool-cases (mask == 0)) [
    | inl e ↦ rw (d, e, last_event n ev mask e) refl
    | inr e ↦
        (let x = next_event_lem n ev mask e small fits in
          rw (d, e, x.list)
            (enabled_from k x.left (next_event ev mask).0 (next_event ev mask).1 q x.small
              (omega (arith, x.less)) (omega (arith, x.less))))
  ]
]

-- Within 32 rounds the loops over the events of a mask of 31 bits end, and they watch, stop to watch
-- and test just the first event and those that the mask selects after it.
pub watch_events_lem :
    (t : Tid) (ev : Ev) (mask : ℕ) (q : Events)
    → mask < 2 ^ 31
    → (watch_events 32 t ev mask q ≡ some (watch_all t (events_of ev mask) q))
      × (unwatch_events 32 ev mask q ≡ some (unwatch_all (events_of ev mask) q))
      × (all_enabled 32 ev mask q ≡ some (enabled_all (events_of ev mask) q))
unfolding events_of
watch_events_lem t ev mask q small = (
  watch_from 32 31 t ev mask q small (omega arith) (omega arith),
  unwatch_from 32 31 ev mask q small (omega arith) (omega arith),
  enabled_from 32 31 ev mask q small (omega arith) (omega arith),
)
