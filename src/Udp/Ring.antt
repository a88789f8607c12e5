-- ===== src/Udp/Ring.antt =====
-- The packets of the ring of lib/pico/lwip.udp.c, the oldest first.
use micro_lua.Base.{
  ℕ, zero, suc, ◌+◌, ◌-◌, ◌<◌, ◌≡◌, refl, sym, ap, ◌∙◌, false, List, [], ◌∷◌, ◌++◌, arith, ◌==◌,
  leb, if◌then◌else◌, update, length, cons_ap, eq_self,
}
use micro_lua.Udp.{Packet}

abbrev pub after_slot : (cap h : ℕ) → ℕ
after_slot cap h = if h + 1 == cap then 0 else h + 1

abbrev pub slot : (cap h n : ℕ) → ℕ
slot cap h n = if leb cap (h + n) then h + n - cap else h + n

abbrev pub ring : (cap : ℕ) → (ℕ → Packet) → (h n : ℕ) → List Packet
ring cap f h zero = []
ring cap f h (suc n) = f h ∷ ring cap f (after_slot cap h) n

after_slot_small : (cap h : ℕ) → h < cap → after_slot cap h < cap
after_slot_small cap h small = ground arith

slot_next :
    (cap h n : ℕ) → h < cap → suc n < cap → slot cap (after_slot cap h) n ≡ slot cap h (suc n)
slot_next cap h n small fits = ground arith

slot_apart : (cap h n : ℕ) → h < cap → suc n < cap → (slot cap h (suc n) == h) ≡ false
slot_apart cap h n small fits = ground arith

pub length-ring : (cap : ℕ) (f : ℕ → Packet) (h n : ℕ) → length (ring cap f h n) ≡ n
length-ring cap f h zero = refl
length-ring cap f h (suc n) = ap suc (length-ring cap f (after_slot cap h) n)

-- A packet that is written behind the others is the last one.
pub ring-update :
    (cap : ℕ) (f : ℕ → Packet) (h n : ℕ) (x : Packet)
    → h < cap
    → n < cap
    → ring cap (update f (slot cap h n) x) h (suc n) ≡ ring cap f h n ++ x ∷ []
ring-update cap f h zero x small fits = cons_ap (ground (arith, eq_self h)) refl
ring-update cap f h (suc n) x small fits = cons_ap (rw (slot_apart cap h n small fits) refl) (
    ap (λ k. ring cap (update f k x) (after_slot cap h) (suc n))
      (sym (slot_next cap h n small fits))
    ∙ ring-update cap f (after_slot cap h) n x (after_slot_small cap h small) (omega arith))
