-- ===== src/Bits/Counts.antt =====
-- What the counts of lib/common/mlua.bits.c say about a number, and about masks.
use native.Mathlib.Nat.{pow-succ', one-le-pow}
use micro_lua.Base.{
  ℕ, zero, suc, ◌-◌, ◌/◌, ◌%◌, ◌^◌, ◌≤◌, ◌<◌, ◌≡◌, refl, sym, ap, ◌∙◌, inl, inr, true, false, none,
  some, arith, ◌==◌, leb, if◌then◌else◌, Bool-cases, subst, ◌>>=◌,
}
use micro_lua.Value.{integer, int64}
use micro_lua.Bits.{leading_zeros, ones, parity, mod_ones, mod_parity, mod_mask}

-- A number but 0 stands just below the power of two that its leading zeros leave.
pub leading_zeros_lem :
    (bits v : ℕ)
    → 0 < v
    → v < 2 ^ bits
    → (leading_zeros bits v < bits)
      × (2 ^ (bits - 1 - leading_zeros bits v) ≤ v)
      × (v < 2 ^ (bits - leading_zeros bits v))
unfolding leading_zeros
leading_zeros_lem zero v pos small = absurd (omega arith)
leading_zeros_lem (suc n) v pos small =
    let n-same : n ≡ suc n - 1 - 0 = omega arith in
    let small' : v < 2 ^ (suc n - 0) = subst (λ k. v < 2 ^ k) (omega arith) small in
    elim (Bool-cases (leb (2 ^ n) v)) [
      | inl e ↦ rw e (omega arith, subst (λ k. 2 ^ k ≤ v) n-same (ground arith), small')
      | inr e ↦
          (let (less, low, high) = leading_zeros_lem n v pos (ground arith) in
            rw e (
              omega (arith, less),
              subst (λ k. 2 ^ k ≤ v) (omega arith) low,
              subst (λ k. v < 2 ^ k) (omega arith) high,
            ))
    ]

pub parity-ones : (bits v : ℕ) → parity bits v ≡ ones bits v % 2
unfolding parity ones
parity-ones zero v = refl
parity-ones (suc n) v = omega (arith, parity-ones n (v / 2))

half_mask : (k : ℕ) → ((2 ^ suc k - 1) % 2 ≡ 1) × ((2 ^ suc k - 1) / 2 ≡ 2 ^ k - 1)
half_mask k =
    let pos = one-le-pow k 2 (omega arith) in
    (omega (arith, pow-succ' 2 k, pos), omega (arith, pow-succ' 2 k, pos))

ones_none : (bits : ℕ) → ones bits 0 ≡ 0
unfolding ones
ones_none zero = refl
ones_none (suc n) = omega (arith, ones_none n)

pub ones-mask : (bits k : ℕ) → k ≤ bits → ones bits (2 ^ k - 1) ≡ k
unfolding ones
ones-mask zero zero h = refl
ones-mask zero (suc k) h = absurd (omega arith)
ones-mask (suc n) zero h = ones_none (suc n)
ones-mask (suc n) (suc k) h =
    let (low, high) = half_mask k in
    let rest = ap (ones n) high ∙ ones-mask n k (omega arith) in omega (arith, low, rest)

-- The ones of a value of so many bits that is a mask, and their parity.
counts_of :
    {bits k : ℕ} (h : k ≤ bits) → (ones bits (2 ^ k - 1) ≡ k) × (parity bits (2 ^ k - 1) ≡ k % 2)
counts_of {bits} {k} h =
    let same = ones-mask bits k h in (same, parity-ones bits (2 ^ k - 1) ∙ ap (λ n. n % 2) same)

narrow_mask : (k : ℕ) → leb k 32 ≡ true → mod_mask k ≡ some (integer (2 ^ k - 1))
unfolding mod_mask
narrow_mask k h = elim (Bool-cases (k == 32)) [
  | inl e ↦
      (let same : k ≡ 32 = ground arith in
        subst (λ n. mod_mask n ≡ some (integer (2 ^ n - 1))) (sym same) refl)
  | inr e ↦ ground arith
]

wide_mask : (k : ℕ) → leb k 32 ≡ false → leb k 64 ≡ true → mod_mask k ≡ some (int64 (2 ^ k - 1))
unfolding mod_mask
wide_mask k h h' = elim (Bool-cases (k == 64)) [
  | inl e ↦
      (let same : k ≡ 64 = ground arith in
        subst (λ n. mod_mask n ≡ some (int64 (2 ^ n - 1))) (sym same) refl)
  | inr e ↦ ground arith
]

no_mask : (k : ℕ) → leb k 64 ≡ false → mod_mask k ≡ none
unfolding mod_mask
no_mask k h = ground arith

-- A mask of at most 64 bits is a value with just so many ones, and their parity is that of the
-- number of bits; above 64 bits there is none.
pub mod_mask_lem :
    (k : ℕ)
    → (mod_mask k >>= mod_ones ≡ (if leb k 64 then some k else none))
      × (mod_mask k >>= mod_parity ≡ (if leb k 64 then some (k % 2) else none))
unfolding mod_ones mod_parity
mod_mask_lem k = elim (Bool-cases (leb k 64)) [
  | inr wide ↦ rw (no_mask k wide, wide) (refl, refl)
  | inl fits ↦ elim (Bool-cases (leb k 32)) [
    | inl e ↦
        (let (one, par) = counts_of {bits = 32} {k = k} (ground arith) in
          rw (narrow_mask k e, fits) (ap some one, ap some par))
    | inr e ↦
        (let (one, par) = counts_of {bits = 64} {k = k} (ground arith) in
          rw (wide_mask k e fits, fits) (ap some one, ap some par))
  ]
]
