-- ===== src/Module/Table.antt =====
-- The packed table of vertex values that lookup_g of core/module.c reads.
use native.Mathlib.Nat.{
  pow-succ', one-le-pow, div-div-eq-div-mul, add-mul-div_left, add-mul-mod_self_left,
}
use micro_lua.Base.{ℕ, zero, suc, ◌+◌, ◌-◌, ◌*◌, ◌/◌, ◌%◌, ◌^◌, ◌≤◌, ◌<◌, ◌≡◌, sym, ap, ◌∙◌, arith}
use micro_lua.Bits.{bit_or}
use micro_lua.Bits.Operators.{bit_or-apart}
use micro_lua.Memory.{Bytes}
use micro_lua.Array.Format.{word}

pub pow-add : (a b : ℕ) → 2 ^ (a + b) ≡ 2 ^ a * 2 ^ b
pow-add zero b = let e : 0 + b ≡ b = omega arith in ap (λ k. 2 ^ k) e ∙ omega arith
pow-add (suc a) b =
    let e : suc a + b ≡ suc (a + b) = omega arith in
    ap (λ k. 2 ^ k) e ∙ pow-succ' 2 (a + b) ∙ grind (arith, pow-add a b, pow-succ' 2 a)

low_apart : (s b v y : ℕ) → (v + 2 ^ s * (2 ^ b * y)) / 2 ^ s % 2 ^ b ≡ v / 2 ^ s % 2 ^ b
low_apart s b v y =
    ap (λ q. q % 2 ^ b) (add-mul-div_left v (2 ^ b * y) (one-le-pow s 2 (omega arith)))
    ∙ add-mul-mod_self_left (v / 2 ^ s) (2 ^ b) y

regroup : (v a b c y : ℕ) → v + a * (b * c) * y ≡ v + a * (b * (c * y))
regroup v a b c y = grind arith

-- What stands above the lowest bits does not count.
low_bits : (s b c v y : ℕ) → s + b ≤ c → (v + 2 ^ c * y) / 2 ^ s % 2 ^ b ≡ v / 2 ^ s % 2 ^ b
low_bits s b c v y h =
    let d = c - s - b in
    let e : c ≡ s + (b + d) = omega arith in
    let split : 2 ^ c ≡ 2 ^ s * (2 ^ b * 2 ^ d) =
      ap (λ k. 2 ^ k) e ∙ pow-add s (b + d) ∙ ap (λ k. 2 ^ s * k) (pow-add b d) in
    ap (λ x. (v + x * y) / 2 ^ s % 2 ^ b) split
    ∙ ap (λ w. w / 2 ^ s % 2 ^ b) (regroup v (2 ^ s) (2 ^ b) (2 ^ d) y)
    ∙ low_apart s b v (2 ^ d * y)

byte_skip : (b w k : ℕ) → b < 256 → (b + 256 * w) / (256 * k) ≡ w / k
byte_skip b w k h =
    let e : (b + 256 * w) / 256 ≡ w = omega arith in
    sym (div-div-eq-div-mul (b + 256 * w) 256 k) ∙ ap (λ x. x / k) e

pow_byte : (p : ℕ) → 2 ^ (8 * suc p) ≡ 256 * 2 ^ (8 * p)
pow_byte p = let e : 8 * suc p ≡ 8 + 8 * p = omega arith in ap (λ k. 2 ^ k) e ∙ pow-add 8 (8 * p)

pub word-skip :
    (m : Bytes) (at p n : ℕ)
    → ((a : ℕ) → m a < 256)
    → word m at (p + n) / 2 ^ (8 * p) ≡ word m (at + p) n
unfolding word
word-skip m at zero n h =
    let e : 0 + n ≡ n = omega arith in
    let e' : at ≡ at + 0 = omega arith in omega arith ∙ ap (word m at) e ∙ ap (λ a. word m a n) e'
word-skip m at (suc p) n h =
    let e : suc p + n ≡ suc (p + n) = omega arith in
    let e' : suc at + p ≡ at + suc p = omega arith in
    ap (λ k. word m at k / 2 ^ (8 * suc p)) e
    ∙ ap (λ k. word m at (suc (p + n)) / k) (pow_byte p)
    ∙ byte_skip (m at) (word m (suc at) (p + n)) (2 ^ (8 * p)) (h at)
    ∙ word-skip m (suc at) p n h
    ∙ ap (λ a. word m a n) e'

word_one : (m : Bytes) (at r : ℕ) → word m at (r + 1) ≡ m at + 2 ^ 8 * word m (at + 1) r
unfolding word
word_one m at r =
    let e : r + 1 ≡ suc r = omega arith in
    let e' : suc at ≡ at + 1 = omega arith in
    ap (word m at) e ∙ ap (λ a. m at + 256 * word m a r) e'

word_two :
    (m : Bytes) (at r : ℕ)
    → word m at (r + 2) ≡ m at + m (at + 1) * 2 ^ 8 + 2 ^ 16 * word m (at + 2) r
word_two m at r =
    let e : r + 2 ≡ r + 1 + 1 = omega arith in
    let e' : at + 1 + 1 ≡ at + 2 = omega arith in
    let next = word_one m (at + 1) r ∙ ap (λ a. m (at + 1) + 2 ^ 8 * word m a r) e' in
    ap (word m at) e ∙ word_one m at (r + 1) ∙ ap (λ w. m at + 2 ^ 8 * w) next ∙ omega arith

word_three :
    (m : Bytes) (at r : ℕ)
    → word m at (r + 3)
      ≡ m at + m (at + 1) * 2 ^ 8 + m (at + 2) * 2 ^ 16 + 2 ^ 24 * word m (at + 3) r
word_three m at r =
    let e : r + 3 ≡ r + 1 + 2 = omega arith in
    let e' : at + 2 + 1 ≡ at + 3 = omega arith in
    let next = word_one m (at + 2) r ∙ ap (λ a. m (at + 2) + 2 ^ 8 * word m a r) e' in
    ap (word m at) e
    ∙ word_two m at (r + 1)
    ∙ ap (λ w. m at + m (at + 1) * 2 ^ 8 + 2 ^ 16 * w) next
    ∙ omega arith

-- The bytes that lookup_g puts together are those that hold the bits from `s` on.
module _ (m : Bytes) (is_byte : (a : ℕ) → m a < 256) (at : ℕ) where
  or_two : bit_or 32 (m at) (m (at + 1) * 2 ^ 8) ≡ m at + m (at + 1) * 2 ^ 8
  or_two =
      bit_or-apart 32 8 (m at) (m (at + 1)) (is_byte at)
        (omega (arith, is_byte at, is_byte (at + 1)))

  or_three :
      bit_or 32 (bit_or 32 (m at) (m (at + 1) * 2 ^ 8)) (m (at + 2) * 2 ^ 16)
      ≡ m at + m (at + 1) * 2 ^ 8 + m (at + 2) * 2 ^ 16
  or_three =
      ap (λ w. bit_or 32 w (m (at + 2) * 2 ^ 16)) or_two
      ∙ bit_or-apart 32 16 (m at + m (at + 1) * 2 ^ 8) (m (at + 2))
          (omega (arith, is_byte at, is_byte (at + 1)))
          (omega (arith, is_byte at, is_byte (at + 1), is_byte (at + 2)))

  pub one_byte :
      (s b r : ℕ) → s + b ≤ 8 → 1 ≤ r → m at / 2 ^ s % 2 ^ b ≡ word m at r / 2 ^ s % 2 ^ b
  one_byte s b r h long =
      let e : r ≡ r - 1 + 1 = omega arith in
      sym (
        ap (λ k. word m at k / 2 ^ s % 2 ^ b) e
        ∙ ap (λ w. w / 2 ^ s % 2 ^ b) (word_one m at (r - 1))
        ∙ low_bits s b 8 (m at) (word m (at + 1) (r - 1)) h)

  pub two_bytes :
      (s b r : ℕ)
      → s + b ≤ 16
      → 2 ≤ r
      → bit_or 32 (m at) (m (at + 1) * 2 ^ 8) / 2 ^ s % 2 ^ b ≡ word m at r / 2 ^ s % 2 ^ b
  two_bytes s b r h long =
      let e : r ≡ r - 2 + 2 = omega arith in
      ap (λ w. w / 2 ^ s % 2 ^ b) or_two
      ∙ sym (
          ap (λ k. word m at k / 2 ^ s % 2 ^ b) e
          ∙ ap (λ w. w / 2 ^ s % 2 ^ b) (word_two m at (r - 2))
          ∙ low_bits s b 16 (m at + m (at + 1) * 2 ^ 8) (word m (at + 2) (r - 2)) h)

  pub three_bytes :
      (s b r : ℕ)
      → s + b ≤ 24
      → 3 ≤ r
      → bit_or 32 (bit_or 32 (m at) (m (at + 1) * 2 ^ 8)) (m (at + 2) * 2 ^ 16) / 2 ^ s % 2 ^ b
        ≡ word m at r / 2 ^ s % 2 ^ b
  three_bytes s b r h long =
      let e : r ≡ r - 3 + 3 = omega arith in
      ap (λ w. w / 2 ^ s % 2 ^ b) or_three
      ∙ sym (
          ap (λ k. word m at k / 2 ^ s % 2 ^ b) e
          ∙ ap (λ w. w / 2 ^ s % 2 ^ b) (word_three m at (r - 3))
          ∙ low_bits s b 24 (m at + m (at + 1) * 2 ^ 8 + m (at + 2) * 2 ^ 16)
              (word m (at + 3) (r - 3)) h)
