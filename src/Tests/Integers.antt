-- ===== src/Tests/Integers.antt =====
-- Conversions of 64-bit integers.
use micro_lua.Base.{true, false, ◌-◌, ◌%◌, ◌^◌, ◌≡◌, refl, some, [], ◌∷◌, arith}
use micro_lua.Int64.{string_to_int64, idiv, mod_of}
use micro_lua.Int64.Division.{signed, floor_quotient, floor_remainder, idiv_lem}
use micro_lua.Int64.Parse.{number, string_to_int64_lem}

-- " 1f" and " -1f" in base 16.
string_to_int64_lem_example :
    (string_to_int64 16 (32 ∷ 49 ∷ 102 ∷ []) ≡ some (number 16 0 (1 ∷ 15 ∷ []) % 2 ^ 64))
    × (string_to_int64 16 (32 ∷ 45 ∷ 49 ∷ 102 ∷ [])
        ≡ some ((2 ^ 64 - number 16 0 (1 ∷ 15 ∷ []) % 2 ^ 64) % 2 ^ 64))
string_to_int64_lem_example =
    string_to_int64_lem 16 1 (15 ∷ []) (32 ∷ []) [] (omega arith) (omega arith)
      (omega arith, (omega arith, tt)) (refl, tt) tt

-- -7 // 2 and -7 % 2.
idiv_lem_example :
    (idiv (signed true 7) (signed false 2) ≡ some (floor_quotient true false 7 2))
    × (mod_of (signed true 7) (signed false 2) ≡ some (floor_remainder true false 7 2))
idiv_lem_example = idiv_lem true false 7 2 (omega arith, omega arith) (omega arith) (omega arith)
