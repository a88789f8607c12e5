-- ===== src/Array/Format.antt =====
-- The formats of array elements: the vtables of lib/common/mlua.array.c, on a little-endian target.
pub mod Word
pub mod Fixed
pub mod Sized
pub mod Text
use micro_lua.Base.{
  ℕ, zero, suc, ◌+◌, ◌-◌, ◌*◌, ◌/◌, ◌%◌, ◌^◌, Bool, Option, none, some, List, [], ◌∷◌, ◌++◌, ◌==◌,
  leb, ltb, if◌then◌else◌, length, take, replicate,
}
use micro_lua.Value.{Value, integer, int64, string}
use micro_lua.Int64.{check_int64}
use micro_lua.Memory.{Bytes, load, store}
use micro_lua.Array.{ArrayVt, Written, written, raised}

-- The conversions of other values to integers and strings, which are Lua's.
pub record Coercions : Type 0 where
  pub to_integer : Value → Option ℕ
  pub to_string : Value → Option (List ℕ)

-- `luaL_checkinteger` and `luaL_checklstring`
abbrev pub check_integer : Coercions → Value → Option ℕ
check_integer co (integer n) = some n
check_integer co v = co.to_integer v

abbrev pub check_string : Coercions → Value → Option (List ℕ)
check_string co (string s) = some s
check_string co v = co.to_string v

-- A word of `n` bytes in memory, the lowest first, and its bytes.
unfoldable pub word : Bytes → (ptr n : ℕ) → ℕ
word m p zero = 0
word m p (suc n) = m p + 256 * word m (suc p) n

pub bytes_of : (n v : ℕ) → List ℕ
bytes_of zero v = []
bytes_of (suc n) v = v % 256 ∷ bytes_of n (v / 256)

abbrev pub store_checked : Bytes → (arg size ptr : ℕ) → Option ℕ → Written
store_checked m arg size p none = raised arg m
store_checked m arg size p (some n) = written (store m p (bytes_of size n))

-- A format with its own integer type: `set_uint8` to `set_uint64` with their getters.
abbrev pub fixed_vt : (size : ℕ) → (Value → Option ℕ) → (ℕ → Value) → ArrayVt
fixed_vt size check push = record {
  get = λ s p m. push (word m p size);
  set = λ s arg p v m. store_checked m arg size p (check v);
}

-- The conversion of a signed type of `bits` bits to lua_Integer.
abbrev pub extend : (bits : ℕ) → ℕ → Value
extend bits v = integer (if ltb v (2 ^ (bits - 1)) then v else v + (2 ^ 32 - 2 ^ bits))

module _ (co : Coercions) where
  pub vt_int8 : ArrayVt
  vt_int8 = fixed_vt 1 (check_integer co) (extend 8)

  pub vt_uint8 : ArrayVt
  vt_uint8 = fixed_vt 1 (check_integer co) integer

  pub vt_int16 : ArrayVt
  vt_int16 = fixed_vt 2 (check_integer co) (extend 16)

  pub vt_uint16 : ArrayVt
  vt_uint16 = fixed_vt 2 (check_integer co) integer

  pub vt_int32 : ArrayVt
  vt_int32 = fixed_vt 4 (check_integer co) (extend 32)

  pub vt_uint32 : ArrayVt
  vt_uint32 = fixed_vt 4 (check_integer co) integer

pub vt_uint64 : ArrayVt
vt_uint64 = fixed_vt 8 check_int64 int64

-- `read_uint` and `read_uint64`, for an accumulator of `bits` bits: from the highest byte.
pub read_loop : (bits : ℕ) → Bytes → (ptr n v : ℕ) → ℕ
read_loop bits m p zero v = v
read_loop bits m p (suc i) v = read_loop bits m p i (v * 256 % 2 ^ bits + m (p + i))

pub read_uint : (bits : ℕ) → Bytes → (ptr size : ℕ) → ℕ
unfolding read_loop
read_uint bits m p size = read_loop bits m p size 0

-- `(v ^ mask) - mask` for a mask of one bit.
abbrev pub extend_sign : (bits v mask : ℕ) → ℕ
extend_sign bits v mask =
    ((if v / mask % 2 == 0 then v + mask else v - mask) + 2 ^ bits - mask) % 2 ^ bits

abbrev pub get_int : (size ptr : ℕ) → Bytes → Value
get_int size p m =
    if leb size 4
    then integer (extend_sign 32 (read_uint 32 m p size) (2 ^ (size * 8 - 1)))
    else int64 (extend_sign 64 (read_uint 64 m p size) (2 ^ (size * 8 - 1)))

abbrev pub get_uint : (size ptr : ℕ) → Bytes → Value
get_uint size p m =
    if leb size 4 then integer (read_uint 32 m p size) else int64 (read_uint 64 m p size)

-- The last part of `set_uint`, which is reached for every size.
abbrev pub set_uint64_bytes : (size arg ptr : ℕ) → Value → Bytes → Written
set_uint64_bytes size arg p v m = store_checked m arg size p (check_int64 v)

-- `set_uint`: what it writes for an integer of at most 4 bytes it writes again.
abbrev pub small_first : (size arg ptr : ℕ) → Value → Bytes → Option ℕ → Written
small_first size arg p v m none = raised arg m
small_first size arg p v m (some n) = set_uint64_bytes size arg p v (store m p (bytes_of size n))

abbrev pub set_uint : Coercions → (size arg ptr : ℕ) → Value → Bytes → Written
set_uint co size arg p v m =
    if leb size 4
    then small_first size arg p v m (check_integer co v)
    else set_uint64_bytes size arg p v m

pub vt_int : Coercions → ArrayVt
vt_int co = record { get = get_int; set = set_uint co }

pub vt_uint : Coercions → ArrayVt
vt_uint co = record { get = get_uint; set = set_uint co }

-- A string is cut to the size, or padded with zeros.
abbrev pub pad : (size : ℕ) → List ℕ → List ℕ
pad size s = take size s ++ replicate (size - length s) 0

abbrev pub set_string : (size arg ptr : ℕ) → Bytes → Option (List ℕ) → Written
set_string size arg p m none = raised arg m
set_string size arg p m (some s) = written (store m p (pad size s))

pub vt_string : Coercions → ArrayVt
vt_string co = record {
  get = λ size p m. string (load m p size);
  set = λ size arg p v m. set_string size arg p m (check_string co v);
}
