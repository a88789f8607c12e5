-- ===== src/Int64/Convert.antt =====
-- Conversions between integers and Int64, in lib/common/mlua.int64.c.
use micro_lua.Base.{
  ℕ, ◌+◌, ◌-◌, ◌*◌, ◌^◌, ◌<◌, ◌≡◌, refl, ap, ◌||◌, some, [], ◌∷◌, arith, leb, ltb, Bool-cases, inl,
  inr,
}
use micro_lua.Int64.{sign_extend, push_minint, check_int64, join_parts, new_parts}

-- A value that is pushed as an integer where it fits one, and as an Int64 else, is read back.
pub check_int64-push_minint : (v : ℕ) → v < 2 ^ 64 → check_int64 (push_minint v) ≡ some v
unfolding push_minint check_int64 sign_extend
check_int64-push_minint v h = elim (Bool-cases (ltb v (2 ^ 31) || leb (2 ^ 64 - 2 ^ 31) v)) [
  | inl e ↦ rw e (ap some (ground arith))
  | inr e ↦ rw e refl
]

-- Two integers joined, the low part first, are the number with these halves.
pub new_parts_lem :
    (lo hi : ℕ) → lo < 2 ^ 32 → hi < 2 ^ 32 → new_parts (lo ∷ hi ∷ []) ≡ some (hi * 2 ^ 32 + lo)
unfolding new_parts join_parts sign_extend
new_parts_lem lo hi h h' = ap some (ground arith)
