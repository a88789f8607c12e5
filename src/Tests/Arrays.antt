-- ===== src/Tests/Arrays.antt =====
-- Arrays of 16-bit and 3-byte integers.
use micro_lua.Base.{
  refl, ◌-◌, ◌^◌, ◌==◌, ◌≡◌, Bool, false, Option, none, some, List, [], ◌∷◌, arith,
}
use micro_lua.Value.{Value, integer, int64}
use micro_lua.Int64.{at_end, check_int64}
use micro_lua.Memory.{Bytes}
use micro_lua.Array.{Array, check_offset, append, set, index2, set_loop, element}
use micro_lua.Array.Format.{Coercions, vt_int16, vt_int32, vt_uint64, vt_int, check_integer, extend}
use micro_lua.Array.Format.Fixed.{vt_int16-IsVt, vt_int32-IsVt, vt_uint64-IsVt, fixed_stored}
use micro_lua.Array.Format.Sized.{vt_int-IsVt, sized_stored, int_value}
use micro_lua.Array.Codec.{IsVt}
use micro_lua.Array.New.{Floats, parse_digits, parse_size, new}
use micro_lua.Array.New.Kind.{kind_of, kind_stored, signed, unsigned, text}
use micro_lua.Array.New.Formed.{NewResult, new-IsArray}
use micro_lua.Array.Elements.{IsArray, contents, stored_all}
use micro_lua.Array.Extend.{Appended, SetAt, append-contents, set-SetAt}
use micro_lua.Array.Index.{named, index2_lem, offset_front, for_pairs, numbered, for_pairs_lem}
use micro_lua.Array.Overflow.{set_wraps}

abbrev no_coercions : Coercions
no_coercions = record { to_integer = λ v. none; to_string = λ v. none }

abbrev samples : Array
samples = record { vt = vt_int16 no_coercions; ptr = 4096; len = 2; cap = 4; size = 2 }

abbrev kept : Value → Option Value
kept = fixed_stored 2 (check_integer no_coercions) (extend 16)

samples-IsArray : IsArray samples kept
samples-IsArray = record {
  vt = vt_int16-IsVt no_coercions;
  pos = omega arith;
  used = omega arith;
  signed = omega arith;
  fits = omega arith;
}

abbrev blank : Bytes
blank a = 0

abbrev two : List Value
two = integer 7 ∷ integer (2 ^ 32 - 3) ∷ []

append-contents_example :
    Appended samples kept blank (stored_all kept two) (append samples two blank)
append-contents_example = append-contents two blank samples-IsArray (omega arith)

set-SetAt_example :
    SetAt samples kept
      (check_offset samples 3)
      2
      blank
      (stored_all kept two)
      (set samples 3 two blank)
set-SetAt_example =
    set-SetAt 3 two blank samples-IsArray
      (omega (arith, offset_front samples 3 (omega arith) (omega arith) (omega arith)))

-- The last element, from the end.
index2_lem_example : index2 samples (2 ^ 32 - 1) blank ≡ named (contents samples blank) (2 ^ 32 - 1)
index2_lem_example = index2_lem (2 ^ 32 - 1) blank samples-IsArray (omega arith)

for_pairs_lem_example : for_pairs samples 3 0 blank ≡ numbered 1 (contents samples blank)
for_pairs_lem_example = for_pairs_lem blank samples-IsArray

abbrev same_integer : Value → Value → Bool
same_integer (integer a) (integer b) = a == b
same_integer v w = false

set_wraps_example :
    set samples (2 ^ 31 - 1) two blank
    ≡ set_loop samples.vt 2 3 (element samples (2 ^ 31 - 2)) two blank
set_wraps_example =
    set_wraps (2 ^ 31 - 1) two blank samples-IsArray (omega arith) (omega arith) (omega arith)
      (omega arith)

vt_int-IsVt_example : IsVt (vt_int no_coercions) 3 (sized_stored no_coercions 3 (int_value 3))
vt_int-IsVt_example = vt_int-IsVt 3 (omega arith) (omega arith) no_coercions

-- Formats for floats that keep 4 and 8 bytes of an integer stand for the target's.
abbrev no_floats : Floats
no_floats = record { vt_float = vt_int32 no_coercions; vt_double = vt_uint64 }

abbrev kept_single : Value → Option Value
kept_single = fixed_stored 4 (check_integer no_coercions) (extend 32)

abbrev kept_double : Value → Option Value
kept_double = fixed_stored 8 check_int64 int64

new-IsArray_example :
    NewResult
      (kind_stored no_coercions kept_single kept_double)
      2
      5
      (some (signed 2))
      (new no_coercions no_floats (λ n. 0) (104 ∷ []) 2 (some 5))
unfolding at_end
new-IsArray_example =
    new-IsArray no_coercions no_floats kept_single kept_double (λ n. 0) (104 ∷ []) 2 (some 5)
      (record { of_float = vt_int32-IsVt no_coercions; of_double = vt_uint64-IsVt })
      (λ n h. omega arith)

-- "I3", "c12" and "i9"
three_bytes : kind_of (73 ∷ 51 ∷ []) ≡ some (unsigned 3)
unfolding parse_size parse_digits at_end
three_bytes = refl

twelve_bytes : kind_of (99 ∷ 49 ∷ 50 ∷ []) ≡ some (text 12)
unfolding parse_size parse_digits at_end
twelve_bytes = refl

nine_bytes : kind_of (105 ∷ 57 ∷ []) ≡ none
unfolding parse_size parse_digits at_end
nine_bytes = refl
