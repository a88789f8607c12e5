-- ===== src/Bits/Operators.antt =====
-- Numbers whose bits stand apart are added by the operator `|`.
use native.Mathlib.Nat.{pow-succ', div-div-eq-div-mul, mod-add-div}
use micro_lua.Base.{ℕ, zero, suc, ◌+◌, ◌*◌, ◌/◌, ◌%◌, ◌^◌, ◌<◌, ◌≡◌, ap, sym, ◌∙◌, arith}
use micro_lua.Bits.{bit_or, bit_xor}

bit_or_none : (n a b : ℕ) → a ≡ 0 → b < 2 ^ n → bit_or n a b ≡ b
unfolding bit_or
bit_or_none zero a b none small = omega arith
bit_or_none (suc n) a b none small =
    let rest = bit_or_none n (a / 2) (b / 2) (omega arith) (omega (arith, pow-succ' 2 n)) in
    ground (arith, rest)

bit_or_nothing : (a b : ℕ) → a + b < 1 → bit_or 0 a b ≡ a + b
unfolding bit_or
bit_or_nothing a b h = omega arith

twice : (b k : ℕ) → b * 2 ^ suc k ≡ 2 * (b * 2 ^ k)
twice b k = grind (arith, pow-succ' 2 k)

bit_or_step :
    (n a b c : ℕ) → b ≡ 2 * c → bit_or n (a / 2) (b / 2) ≡ a / 2 + c → bit_or (suc n) a b ≡ a + b
unfolding bit_or
bit_or_step n a b c even rest = ground (arith, rest)

pub bit_or-apart :
    (n k a b : ℕ) → a < 2 ^ k → a + b * 2 ^ k < 2 ^ n → bit_or n a (b * 2 ^ k) ≡ a + b * 2 ^ k
bit_or-apart n zero a b small fits =
    bit_or_none n a (b * 2 ^ 0) (omega arith) (omega arith) ∙ omega arith
bit_or-apart zero (suc k) a b small fits = bit_or_nothing a (b * 2 ^ suc k) (omega arith)
bit_or-apart (suc n) (suc k) a b small fits =
    let even = twice b k in
    let half : b * 2 ^ suc k / 2 ≡ b * 2 ^ k = omega arith in
    bit_or_step n a (b * 2 ^ suc k) (b * 2 ^ k) even (
      ap (bit_or n (a / 2)) half
      ∙ bit_or-apart n k (a / 2) b (omega (arith, pow-succ' 2 k)) (omega (arith, pow-succ' 2 n)))

split_mod : (v k : ℕ) → v % (2 * k) ≡ v % 2 + 2 * (v / 2 % k)
split_mod v k = grind (
  arith,
  ap (λ q. k * q) (div-div-eq-div-mul v 2 k),
  mod-add-div (v / 2) k,
  mod-add-div v (2 * k),
)

split_mod_pow : (v k : ℕ) → v % 2 ^ suc k ≡ v % 2 + 2 * (v / 2 % 2 ^ k)
split_mod_pow v k = ap (λ p. v % p) (pow-succ' 2 k) ∙ split_mod v (2 ^ k)

-- The low bits of a result depend on the low bits only.
pub bit_xor_low :
    (k j a a' b : ℕ) → a % 2 ^ k ≡ a' % 2 ^ k → bit_xor (k + j) a b % 2 ^ k ≡ bit_xor k a' b
unfolding bit_xor
bit_xor_low zero j a a' b h = omega arith
bit_xor_low (suc k) j a a' b h =
    let e : suc k + j ≡ suc (k + j) = omega arith in
    let parts = sym (split_mod_pow a k) ∙ h ∙ split_mod_pow a' k in
    let half : a / 2 % 2 ^ k ≡ a' / 2 % 2 ^ k = omega (arith, parts) in
    let rest = bit_xor_low k j (a / 2) (a' / 2) (b / 2) half in
    let r = bit_xor (k + j) (a / 2) (b / 2) in
    let x = (a % 2 + b % 2) % 2 + 2 * r in
    let upper : x / 2 ≡ r = omega arith in
    ap (λ n. bit_xor n a b % 2 ^ suc k) e
    ∙ split_mod_pow x k
    ∙ ap (λ y. x % 2 + 2 * (y % 2 ^ k)) upper
    ∙ omega (arith, rest, parts)
