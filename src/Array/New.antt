-- ===== src/Array/New.antt =====
-- The constructor of arrays in lib/common/mlua.array.c. Formats are character codes of a string; its
-- end, or a zero, ends the format.
pub mod Formed
pub mod Kind
pub mod Parse
pub mod Wrapped
use micro_lua.Base.{
  ℕ, zero, suc, ◌+◌, ◌-◌, ◌*◌, ◌/◌, ◌%◌, ◌^◌, Bool, true, false, not, ◌&&◌, ◌||◌, Option, none,
  some, List, [], ◌∷◌, ◌==◌, leb, ltb, if◌then◌else◌, ◌>>=◌,
}
use micro_lua.Memory.{Outcome, returns, bad_argument, opt}
use micro_lua.Int64.{is_digit, at_end}
use micro_lua.Array.{Array, ArrayVt, negative}
use micro_lua.Array.Format.{
  Coercions, vt_int8, vt_uint8, vt_int16, vt_uint16, vt_int32, vt_uint32, vt_uint64, vt_int,
  vt_uint, vt_string,
}

-- The loop of `parse_size`, and the rest of the format.
unfoldable pub parse_digits : (size : ℕ) → List ℕ → ℕ × List ℕ
parse_digits size [] = (size, [])
parse_digits size (c ∷ cs) =
    let rest = parse_digits (size * 10 + (c - 48)) cs in
    if is_digit c && ltb size ((2 ^ 32 - 1 - 9) / 10) then rest else (size, c ∷ cs)

unfoldable pub parse_size : List ℕ → (def : ℕ) → ℕ × List ℕ
unfolding parse_digits
parse_size [] def = (def, [])
parse_size (c ∷ cs) def = if is_digit c then parse_digits (c - 48) cs else (def, c ∷ cs)

pub parse_int_size : List ℕ → (def : ℕ) → Option (ℕ × List ℕ)
unfolding parse_size
parse_int_size fmt def =
    let r = parse_size fmt def in if ltb 0 r.0 && leb r.0 8 then some r else none

pub int_vt : Coercions → (size : ℕ) → Option ArrayVt
int_vt co size =
    if size == 1
    then some (vt_int8 co)
    else if size == 2
    then some (vt_int16 co)
    else if size == 4
    then some (vt_int32 co)
    else if size == 8
    then some vt_uint64
    else if leb size 8
    then some (vt_int co)
    else none

pub uint_vt : Coercions → (size : ℕ) → Option ArrayVt
uint_vt co size =
    if size == 1
    then some (vt_uint8 co)
    else if size == 2
    then some (vt_uint16 co)
    else if size == 4
    then some (vt_uint32 co)
    else if size == 8
    then some vt_uint64
    else if leb size 8
    then some (vt_uint co)
    else none

-- The element formats of C's floating-point types, by their size: float, and double.
pub record Floats : Type 0 where
  pub vt_float : ArrayVt
  pub vt_double : ArrayVt

pub number_vt : Floats → (size : ℕ) → Option ArrayVt
number_vt fl size =
    if size == 4 then some fl.vt_float else if size == 8 then some fl.vt_double else none

abbrev pub string_vt : Coercions → ℕ × List ℕ → ℕ × Option ArrayVt × List ℕ
string_vt co (size, fmt) = (size, (if ltb 0 size then some (vt_string co) else none), fmt)

abbrev pub sized : (ℕ → Option ArrayVt) → ℕ × List ℕ → ℕ × Option ArrayVt × List ℕ
sized vt (size, fmt) = (size, vt size, fmt)

-- The switch of `array___new` on the first character: the size, the vtable and the rest.
pub format : Coercions → Floats → List ℕ → Option (ℕ × Option ArrayVt × List ℕ)
unfolding parse_int_size int_vt uint_vt number_vt
format co fl [] = some (0, none, [])
format co fl (c ∷ cs) =
    if c == 98
    then some (1, int_vt co 1, cs)
    else if c == 66
    then some (1, uint_vt co 1, cs)
    else if c == 104
    then some (2, int_vt co 2, cs)
    else if c == 72
    then some (2, uint_vt co 2, cs)
    else if c == 105
    then parse_int_size cs 4 >>= (λ r. some (sized (int_vt co) r))
    else if c == 73
    then parse_int_size cs 4 >>= (λ r. some (sized (uint_vt co) r))
    else if c == 108 || c == 106
    then some (4, int_vt co 4, cs)
    else if c == 76 || c == 74 || c == 84
    then some (4, uint_vt co 4, cs)
    else if c == 102
    then some (4, some fl.vt_float, cs)
    else if c == 100
    then some (8, some fl.vt_double, cs)
    else if c == 110
    then some (4, number_vt fl 4, cs)
    else if c == 99
    then some (string_vt co (parse_size cs 0))
    else some (0, none, cs)

-- The bytes that `lua_newuserdatauv` is asked for; the header of the array has 24.
abbrev pub block_size : (cap size : ℕ) → ℕ
block_size cap size = (24 + cap * size) % 2 ^ 32

abbrev pub new_array : (alloc : ℕ → ℕ) (len cap : ℕ) → ArrayVt → (size : ℕ) → Array
new_array alloc len cap vt size = record {
  vt = vt;
  ptr = (alloc (block_size cap size) + 24) % 2 ^ 32;
  len = len;
  cap = cap;
  size = size;
}

-- The checks of the capacity and the length, and the allocation.
pub new_checked : (alloc : ℕ → ℕ) (len cap : ℕ) → ArrayVt → (size : ℕ) → Outcome Array
new_checked alloc len cap vt size =
    if not (negative cap) && leb cap ((2 ^ 32 - 1) / size)
    then if not (negative len) && leb len cap
      then returns (new_array alloc len cap vt size)
      else bad_argument 2
    else bad_argument 3

abbrev pub new_format :
    (alloc : ℕ → ℕ) (len cap : ℕ) → Option (ℕ × Option ArrayVt × List ℕ) → Outcome Array
new_format alloc len cap (some (size, some vt, rest)) =
    if at_end rest then new_checked alloc len cap vt size else bad_argument 1
new_format alloc len cap _ = bad_argument 1

-- `array___new`
pub new :
    Coercions
    → Floats
    → (alloc : ℕ → ℕ) → (fmt : List ℕ) → (len : ℕ) → (cap : Option ℕ) → Outcome Array
new co fl alloc fmt len cap = new_format alloc len (opt cap len) (format co fl fmt)
