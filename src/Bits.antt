-- ===== src/Bits.antt =====
-- Counts of bits and masks: lib/common/mlua.bits.c. A lua_Integer has 32 bits and an Int64 has 64. Of
-- 0 the counts of zeros are not defined in C, and here they are the width.
pub mod Counts
pub mod Operators
use micro_lua.Base.{
  ℕ, zero, suc, ◌+◌, ◌-◌, ◌*◌, ◌/◌, ◌%◌, ◌^◌, Option, none, some, ◌==◌, leb, ltb, if◌then◌else◌,
}
use micro_lua.Value.{Value, integer, int64}

-- `__builtin_clz`, `__builtin_ctz`, `__builtin_popcount` and `__builtin_parity` of so many bits.
pub leading_zeros : (bits : ℕ) → ℕ → ℕ
leading_zeros zero v = 0
leading_zeros (suc n) v = let rest = leading_zeros n v in if leb (2 ^ n) v then 0 else suc rest

unfoldable pub trailing_zeros : (bits : ℕ) → ℕ → ℕ
trailing_zeros zero v = 0
trailing_zeros (suc n) v = let rest = trailing_zeros n (v / 2) in if v % 2 == 1 then 0 else suc rest

pub ones : (bits : ℕ) → ℕ → ℕ
ones zero v = 0
ones (suc n) v = v % 2 + ones n (v / 2)

pub parity : (bits : ℕ) → ℕ → ℕ
parity zero v = 0
parity (suc n) v = (v % 2 + parity n (v / 2)) % 2

-- A count of an integer or an Int64; another value raises an error.
abbrev pub count : (ℕ → ℕ → ℕ) → Value → Option ℕ
count f (integer n) = some (f 32 n)
count f (int64 v) = some (f 64 v)
count f _ = none

pub mod_leading_zeros : Value → Option ℕ
mod_leading_zeros v = count leading_zeros v

pub mod_trailing_zeros : Value → Option ℕ
mod_trailing_zeros v = count trailing_zeros v

pub mod_ones : Value → Option ℕ
mod_ones v = count ones v

pub mod_parity : Value → Option ℕ
mod_parity v = count parity v

-- `mod_mask`; more than 64 bits raise an error.
pub mod_mask : (bits : ℕ) → Option Value
mod_mask bits =
    if ltb bits 32
    then some (integer (2 ^ bits - 1))
    else if bits == 32
    then some (integer (2 ^ 32 - 1))
    else if ltb bits 64
    then some (int64 (2 ^ bits - 1))
    else if bits == 64
    then some (int64 (2 ^ 64 - 1))
    else none

-- The operators `^` and `|` on so many bits.
pub bit_xor : (bits : ℕ) → ℕ → ℕ → ℕ
bit_xor zero a b = 0
bit_xor (suc n) a b = (a % 2 + b % 2) % 2 + 2 * bit_xor n (a / 2) (b / 2)

pub bit_or : (bits : ℕ) → ℕ → ℕ → ℕ
bit_or zero a b = 0
bit_or (suc n) a b =
    let rest = bit_or n (a / 2) (b / 2) in if a % 2 + b % 2 == 0 then 2 * rest else 1 + 2 * rest
