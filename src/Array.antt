-- ===== src/Array.antt =====
-- Arrays of values of one format: the class Array of lib/common/mlua.array.c. The values lie in the
-- memory of Memory.antt; offsets and lengths are bit patterns of 32 bits, negative from 2 ^ 31 on.
pub mod Format
pub mod New
pub mod Codec
pub mod Elements
pub mod Index
pub mod Extend
pub mod Fill
pub mod Compare
pub mod Overflow
use micro_lua.Base.{
  ℕ, zero, suc, ◌+◌, ◌-◌, ◌*◌, ◌%◌, ◌^◌, Bool, true, false, not, ◌&&◌, ◌||◌, Option, none, some,
  List, [], ◌∷◌, ◌++◌, leb, ltb, if◌then◌else◌, length,
}
use micro_lua.Value.{Value, nil}
use micro_lua.Memory.{Bytes, Buffer, Outcome, returns, bad_argument, opt}

-- A call that writes ends, or raises an error about an argument when a part may be written; 0 stands
-- for an error about none.
pub data Written : Type 0 where
  written : Bytes → Written
  raised : ℕ → Bytes → Written

abbrev pub and_then : Written → (Bytes → Written) → Written
and_then (written m) f = f m
and_then (raised arg m) f = raised arg m

abbrev pub memory : Written → Bytes
memory (written m) = m
memory (raised arg m) = m

-- `ArrayVT`, by what its functions do; of the array they read the size.
pub record ArrayVt : Type 0 where
  pub get : (size ptr : ℕ) → Bytes → Value
  pub set : (size arg ptr : ℕ) → Value → Bytes → Written

-- `struct Array`
pub record Array : Type 0 where
  pub vt : ArrayVt
  pub ptr : ℕ
  pub len : ℕ
  pub cap : ℕ
  pub size : ℕ

-- Signed comparisons of 32 bits.
abbrev pub negative : ℕ → Bool
negative a = leb (2 ^ 31) a

abbrev pub signed_lt : ℕ → ℕ → Bool
signed_lt a b = ltb ((a + 2 ^ 31) % 2 ^ 32) ((b + 2 ^ 31) % 2 ^ 32)

abbrev pub element : Array → (off : ℕ) → ℕ
element arr off = (arr.ptr + off * arr.size) % 2 ^ 32

-- `array_len`: the length, and the array with the new one.
pub len : Array → Option ℕ → Outcome (ℕ × Array)
len arr none = returns (arr.len, arr)
len arr (some n) =
    if not (negative n) && leb n arr.cap
    then returns
        (arr.len, record { vt = arr.vt; ptr = arr.ptr; len = n; cap = arr.cap; size = arr.size })
    else bad_argument 2

-- `array___buffer`, as mlua_get_buffer takes it.
pub buffer : Array → Buffer
buffer arr = record { vt = none; ptr = arr.ptr; size = arr.cap * arr.size % 2 ^ 32 }

-- The loop of `array___eq`; the equality of values is an argument.
pub eq_loop : (eq : Value → Value → Bool) (arr1 arr2 : Array) (count p1 p2 : ℕ) → Bytes → Bool
eq_loop eq arr1 arr2 zero p1 p2 m = true
eq_loop eq arr1 arr2 (suc i) p1 p2 m =
    let rest = eq_loop eq arr1 arr2 i ((p1 + arr1.size) % 2 ^ 32) ((p2 + arr2.size) % 2 ^ 32) m in
    if eq (arr1.vt.get arr1.size p1 m) (arr2.vt.get arr2.size p2 m) then rest else false

pub array_eq : (eq : Value → Value → Bool) (arr1 arr2 : Array) → Bytes → Bool
array_eq eq arr1 arr2 m =
    if not (leb arr1.len arr2.len && leb arr2.len arr1.len)
    then false
    else eq_loop eq arr1 arr2 arr1.len arr1.ptr arr2.ptr m

-- `array___repr`; what `repr` returns for a value is an argument.
pub repr_loop : (repr : Value → List ℕ) → Array → (count p : ℕ) → Bytes → List ℕ
repr_loop repr arr zero p m = []
repr_loop repr arr (suc i) p m =
    repr (arr.vt.get arr.size p m)
    ++ ((if ltb 0 i then 44 ∷ 32 ∷ [] else []) ++ repr_loop repr arr i ((p + arr.size) % 2 ^ 32) m)

pub array_repr : (repr : Value → List ℕ) → Array → Bytes → List ℕ
array_repr repr arr m = 123 ∷ (repr_loop repr arr arr.len arr.ptr m ++ 125 ∷ [])

-- Offsets count from 1, and negative ones from the end.
pub check_offset : Array → ℕ → ℕ
check_offset arr off = (off + (if negative off then arr.len else 2 ^ 32 - 1)) % 2 ^ 32

pub opt_offset : Array → Option ℕ → (def : ℕ) → ℕ
opt_offset arr none def = def
opt_offset arr (some off) def = check_offset arr off

-- `array___index2` and `array___newindex`
pub index2 : Array → (off : ℕ) → Bytes → Value
index2 arr off m =
    let o = check_offset arr off in
    if negative o || leb arr.len o then nil else arr.vt.get arr.size (element arr o) m

pub newindex : Array → (off : ℕ) → Value → Bytes → Written
newindex arr off v m =
    let o = check_offset arr off in
    if not (negative o) && ltb o arr.cap
    then arr.vt.set arr.size 3 (element arr o) v m
    else raised 2 m

-- The iterator of `array___pairs`, which starts at 0: the next offset and the value.
pub pairs_iter : Array → (off : ℕ) → Bytes → Option (ℕ × Value)
pairs_iter arr off m =
    if signed_lt off arr.len
    then some ((off + 1) % 2 ^ 32, arr.vt.get arr.size (element arr off) m)
    else none

-- `array_get`: the loop from an offset to the end.
pub get_loop : Array → (rounds off end : ℕ) → Bytes → List Value
get_loop arr zero off end m = []
get_loop arr (suc k) off end m =
    let rest = get_loop arr k ((off + 1) % 2 ^ 32) end m in
    if signed_lt off end
    then (if not (negative off) && ltb off arr.len
        then arr.vt.get arr.size (element arr off) m
        else nil)
      ∷ rest
    else []

-- What is pushed, and the number of results that is returned; `none` is the error about too many.
-- What lua_checkstack says is an argument.
pub get : (room : ℕ → Bool) → Array → (off : ℕ) → (len : Option ℕ) → Bytes → Option (List Value × ℕ)
get room arr off len m =
    let o = check_offset arr off in
    let l = opt len 1 in
    if negative l || leb l 0
    then some ([], 0)
    else if room (l + 1)
    then some (get_loop arr l o ((o + l) % 2 ^ 32) m, l)
    else none

-- The loop of `array_set` and `array_append` over the values.
pub set_loop : ArrayVt → (size arg ptr : ℕ) → List Value → Bytes → Written
set_loop vt size arg p [] m = written m
set_loop vt size arg p (v ∷ vs) m =
    and_then (vt.set size arg p v m) (λ m'. set_loop vt size (suc arg) ((p + size) % 2 ^ 32) vs m')

-- `array_set` from its offset on.
pub set_from : Array → (o : ℕ) → List Value → Bytes → Written
set_from arr o vs m =
    if not (negative o) && not (signed_lt arr.cap ((o + length vs) % 2 ^ 32))
    then set_loop arr.vt arr.size 3 (element arr o) vs m
    else raised 2 m

pub set : Array → (off : ℕ) → List Value → Bytes → Written
set arr off vs m = set_from arr (check_offset arr off) vs m

-- The length is stored when all values are written.
abbrev pub grow : Array → (new_len : ℕ) → Written → Array × Written
grow arr n (written m) =
    (record { vt = arr.vt; ptr = arr.ptr; len = n; cap = arr.cap; size = arr.size }, written m)
grow arr n (raised arg m) = (arr, raised arg m)

pub append : Array → List Value → Bytes → Array × Written
unfolding set_loop
append arr vs m =
    let n = (arr.len + length vs) % 2 ^ 32 in
    if signed_lt arr.cap n
    then (arr, raised 0 m)
    else grow arr n (set_loop arr.vt arr.size 2 (element arr arr.len) vs m)

pub fill_loop : ArrayVt → (size count ptr : ℕ) → Value → Bytes → Written
fill_loop vt size zero p v m = written m
fill_loop vt size (suc k) p v m =
    and_then (vt.set size 2 p v m) (λ m'. fill_loop vt size k ((p + size) % 2 ^ 32) v m')

-- `array_fill` from its length on.
pub fill_at : Array → Value → (off len : ℕ) → Bytes → Written
unfolding fill_loop
fill_at arr v o l m =
    if signed_lt arr.cap ((o + l) % 2 ^ 32)
    then raised 4 m
    else fill_loop arr.vt arr.size l (element arr o) v m

-- `array_fill` from its offset on.
pub fill_from : Array → Value → (o : ℕ) → (len : Option ℕ) → Bytes → Written
fill_from arr v o len m =
    let l = opt len (arr.cap - o) in
    if negative o || ltb arr.cap o
    then raised 3 m
    else fill_at arr v o (if negative l then 0 else l) m

pub fill : Array → Value → (off len : Option ℕ) → Bytes → Written
fill arr v off len m = fill_from arr v (opt_offset arr off 0) len m
