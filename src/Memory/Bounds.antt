-- ===== src/Memory/Bounds.antt =====
-- The bounds check of lib/common/mlua.mem.c.
use micro_lua.Base.{ℕ, ◌+◌, ◌-◌, ◌^◌, ◌≤◌, ◌<◌, ◌≡◌, ◌↔◌, none, arith}
use micro_lua.Memory.{check_bounds}

-- A range whose end fits lua_Unsigned passes the check exactly when it lies in the buffer.
pub check_bounds_iff :
    (size off i len j : ℕ)
    → off + len < 2 ^ 32
    → (check_bounds size off i len j ≡ none) ↔ (off + len ≤ size)
unfolding check_bounds
check_bounds_iff size off i len j fits = ground arith

-- A length that is the bit pattern of -k, of k at most 2 ^ 31, with any buffer of less than 2 ^ 31
-- bytes: it passes the check exactly at the offsets from k up to the size of the buffer, although
-- the 2 ^ 32 - k bytes that the operation then takes it for are more than the buffer has. At any
-- other offset, 0 among them, it is refused.
pub check_bounds_wrap :
    (size off i k j : ℕ)
    → size < 2 ^ 31
    → off < 2 ^ 32
    → 0 < k
    → k ≤ 2 ^ 31
    → (check_bounds size off i (2 ^ 32 - k) j ≡ none) ↔ ((k ≤ off) × (off ≤ size))
unfolding check_bounds
check_bounds_wrap size off i k j small fits pos le = ground arith
