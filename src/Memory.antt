-- ===== src/Memory.antt =====
-- Buffers: `MLuaBuffer` of core/include/mlua/util.h and the module mlua.mem of
-- lib/common/mlua.mem.c. Memory is a function from addresses to bytes; offsets and lengths are
-- numbers below 2 ^ 32, as lua_Unsigned has them.
pub mod Bytes
pub mod Bounds
pub mod Access
pub mod Each
use micro_lua.Base.{
  ℕ, zero, suc, ◌+◌, ◌-◌, ◌*◌, ◌%◌, ◌^◌, Bool, true, false, not, ◌&&◌, Option, none, some, List, [],
  ◌∷◌, ◌==◌, leb, ltb, if◌then◌else◌, update, length, ◌++◌,
}

abbrev pub Bytes : Type 0
Bytes = ℕ → ℕ

-- `memcpy` from memory, to memory, and `memset`.
unfoldable pub load : Bytes → (from len : ℕ) → List ℕ
load m from zero = []
load m from (suc len) = m from ∷ load m (suc from) len

pub store : Bytes → (to : ℕ) → List ℕ → Bytes
store m to [] = m
store m to (b ∷ bs) = store (update m to b) (suc to) bs

pub store_fill : Bytes → (to len value : ℕ) → Bytes
store_fill m to zero value = m
store_fill m to (suc len) value = store_fill (update m to (value % 2 ^ 8)) (suc to) len value

pub starts_with : (needle : List ℕ) → Bytes → ℕ → Bool
starts_with [] m at = true
starts_with (b ∷ bs) m at = (m at == b) && starts_with bs m (suc at)

-- `memmem`: the first of `count` addresses where the needle stands.
pub search : (needle : List ℕ) → Bytes → (from count : ℕ) → Option ℕ
unfolding starts_with
search needle m from zero = none
search needle m from (suc count) =
    let rest = search needle m (suc from) count in
    if starts_with needle m from then some from else rest

pub memmem : Bytes → (from len : ℕ) → (needle : List ℕ) → Option ℕ
unfolding search
memmem m from len needle =
    if leb (length needle) len then search needle m from (suc (len - length needle)) else none

-- `MLuaBufferVt`, by what its functions do to memory.
pub record BufferVt : Type 0 where
  pub read : (ptr off len : ℕ) → Bytes → List ℕ
  pub write : (ptr off : ℕ) → List ℕ → Bytes → Bytes
  pub fill : (ptr off len value : ℕ) → Bytes → Bytes
  pub find : (ptr off len : ℕ) → (needle : List ℕ) → Bytes → ℕ

-- `MLuaBuffer`
pub record Buffer : Type 0 where
  pub vt : Option BufferVt
  pub ptr : ℕ
  pub size : ℕ

pub buffer_read : Buffer → (off len : ℕ) → Bytes → List ℕ
buffer_read buf off len m = elim buf.vt [
  | some vt ↦ vt.read buf.ptr off len m
  | none ↦ load m ((buf.ptr + off) % 2 ^ 32) len
]

pub buffer_write : Buffer → (off : ℕ) → List ℕ → Bytes → Bytes
buffer_write buf off src m = elim buf.vt [
  | some vt ↦ vt.write buf.ptr off src m
  | none ↦ store m ((buf.ptr + off) % 2 ^ 32) src
]

pub buffer_fill : Buffer → (off len value : ℕ) → Bytes → Bytes
buffer_fill buf off len value m = elim buf.vt [
  | some vt ↦ vt.fill buf.ptr off len value m
  | none ↦ store_fill m ((buf.ptr + off) % 2 ^ 32) len value
]

-- LUA_MAXUNSIGNED stands for no result.
abbrev pub position : (ptr : ℕ) → Option ℕ → ℕ
position ptr none = 2 ^ 32 - 1
position ptr (some pos) = (pos + 2 ^ 32 - ptr) % 2 ^ 32

pub buffer_find : Buffer → (off len : ℕ) → (needle : List ℕ) → Bytes → ℕ
unfolding memmem
buffer_find buf off len needle m = elim buf.vt [
  | some vt ↦ vt.find buf.ptr off len needle m
  | none ↦ position buf.ptr (memmem m ((buf.ptr + off) % 2 ^ 32) len needle)
]

-- A call returns or raises an error about one of its arguments.
pub data Outcome (A : Type 0) : Type 0 where
  returns : A → Outcome A
  bad_argument : ℕ → Outcome A

-- `luaL_optinteger`
abbrev pub opt : Option ℕ → ℕ → ℕ
opt none def = def
opt (some n) def = n

-- The length when it is left out: `none` if it must be given.
pub optlen : Buffer → Option ℕ → (def : ℕ) → Option ℕ
optlen buf none def = if buf.size == 2 ^ 32 - 1 then none else some def
optlen buf (some n) def = some n

-- The number of the argument that is out of bounds.
pub check_bounds : (size off ioff len ilen : ℕ) → Option ℕ
check_bounds size off ioff len ilen =
    if leb off size then if leb ((off + len) % 2 ^ 32) size then none else some ilen else some ioff

abbrev pub checked : {A : Type 0} → Option ℕ → A → Outcome A
checked none a = returns a
checked (some i) a = bad_argument i

abbrev pub first_error : Option ℕ → Option ℕ → Option ℕ
first_error none o = o
first_error (some i) o = some i

pub read : Buffer → (off len : Option ℕ) → Bytes → Outcome (List ℕ)
unfolding check_bounds optlen buffer_read
read src off len m =
    let o = opt off 0 in
    elim (optlen src len ((src.size + 2 ^ 32 - o) % 2 ^ 32)) [
      | none ↦ bad_argument 3
      | some l ↦
          checked (check_bounds src.size o 2 l 3) (if l == 0 then [] else buffer_read src o l m)
    ]

pub read_cstr : Buffer → (off len : Option ℕ) → Bytes → Outcome (List ℕ)
unfolding check_bounds buffer_find buffer_read
read_cstr src off len m =
    let o = opt off 0 in
    let l = opt len ((src.size + 2 ^ 32 - o) % 2 ^ 32) in
    let end = buffer_find src o l (0 ∷ []) m in
    checked (check_bounds src.size o 2 l 3)
      (buffer_read src o (if end == 2 ^ 32 - 1 then l else (end + 2 ^ 32 - o) % 2 ^ 32) m)

pub write : Buffer → List ℕ → (off : Option ℕ) → Bytes → Outcome Bytes
unfolding check_bounds buffer_write
write dest src off m =
    let o = opt off 0 in
    checked (check_bounds dest.size o 3 (length src) 2) (buffer_write dest o src m)

pub fill : Buffer → (value off len : Option ℕ) → Bytes → Outcome Bytes
unfolding check_bounds optlen buffer_fill
fill dest value off len m = elim (optlen dest off 0) [
  | none ↦ bad_argument 3
  | some o ↦
      let l = opt len ((dest.size + 2 ^ 32 - o) % 2 ^ 32) in
      checked (check_bounds dest.size o 3 l 4) (buffer_fill dest o l (opt value 0) m)
]

pub find : Buffer → (needle : List ℕ) → (off len : Option ℕ) → Bytes → Outcome (Option ℕ)
unfolding check_bounds buffer_find
find src needle off len m =
    let o = opt off 0 in
    let l = opt len ((src.size + 2 ^ 32 - o) % 2 ^ 32) in
    let pos = buffer_find src o l needle m in
    checked
      (first_error (check_bounds src.size o 3 l 4)
        (if leb ((o + length needle) % 2 ^ 32) src.size then none else some 2))
      (if pos == 2 ^ 32 - 1 then none else some pos)

-- One read per byte.
pub get_bytes : Buffer → (off count : ℕ) → Bytes → List ℕ
unfolding buffer_read
get_bytes src off zero m = []
get_bytes src off (suc count) m =
    buffer_read src off 1 m ++ get_bytes src ((off + 1) % 2 ^ 32) count m

pub get : Buffer → (off : ℕ) → (len : Option ℕ) → Bytes → Outcome (List ℕ)
unfolding check_bounds get_bytes
get src off len m =
    let l = opt len 1 in checked (check_bounds src.size off 2 l 3) (get_bytes src off l m)

-- One write per value; a value is cut to a byte.
pub set_bytes : Buffer → (off : ℕ) → List ℕ → Bytes → Bytes
unfolding buffer_write
set_bytes dest off [] m = m
set_bytes dest off (v ∷ vs) m =
    set_bytes dest ((off + 1) % 2 ^ 32) vs (buffer_write dest off (v % 2 ^ 8 ∷ []) m)

pub set : Buffer → (off : ℕ) → (values : List ℕ) → Bytes → Outcome Bytes
unfolding check_bounds set_bytes
set dest off values m =
    checked (check_bounds dest.size off 2 (length values) (3 + (dest.size - off)))
      (set_bytes dest off values m)
