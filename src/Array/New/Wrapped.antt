-- ===== src/Array/New/Wrapped.antt =====
-- The size that the constructor of arrays in lib/common/mlua.array.c asks for may wrap.
use native.Mathlib.Nat.{mul-le-mul_right, mul-div-le}
use micro_lua.Base.{ℕ, ◌+◌, ◌-◌, ◌*◌, ◌/◌, ◌^◌, ◌≤◌, ◌<◌, ◌≡◌, refl, true, not, ◌&&◌, leb, arith}
use micro_lua.Memory.{returns}
use micro_lua.Array.{Array, ArrayVt, negative}
use micro_lua.Array.New.{new_checked, new_array, block_size}

-- A length and a capacity that the checks accept, with elements that leave no room for the header
-- below 2 ^ 32, make an array whose block has fewer than 24 bytes.
pub new_checked-wraps :
    (alloc : ℕ → ℕ) (len cap : ℕ) (vt : ArrayVt) (size : ℕ)
    → cap < 2 ^ 31
    → cap ≤ (2 ^ 32 - 1) / size
    → len ≤ cap
    → 2 ^ 32 ≤ 24 + cap * size
    → (block_size cap size < 24)
      × ((arr : Array) × (new_checked alloc len cap vt size ≡ returns arr) × (arr.cap ≡ cap))
unfolding new_checked
new_checked-wraps alloc len cap vt size h fits le over =
    let all : cap * size ≤ 2 ^ 32 - 1 =
      grind (arith, mul-le-mul_right size fits, mul-div-le (2 ^ 32 - 1) size) in
    let first : (not (negative cap) && leb cap ((2 ^ 32 - 1) / size)) ≡ true = ground arith in
    let second : (not (negative len) && leb len cap) ≡ true = ground arith in
    (omega arith, (new_array alloc len cap vt size, rw (first, second) refl, refl))
