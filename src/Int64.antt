-- ===== src/Int64.antt =====
-- 64-bit integers beside a 32-bit lua_Integer: lib/common/mlua.int64.c. An int64_t is its bit
-- pattern, a number below 2 ^ 64; strings are lists of character codes of the C locale.
pub mod Convert
pub mod Parse
pub mod Division
use micro_lua.Base.{
  ℕ, zero, suc, ◌+◌, ◌-◌, ◌*◌, ◌/◌, ◌%◌, ◌^◌, Bool, true, false, not, ◌&&◌, ◌||◌, Option, none,
  some, List, [], ◌∷◌, ◌==◌, leb, ltb, if◌then◌else◌, ◌>>=◌,
}
use micro_lua.Value.{Value, integer, int64}

-- The conversion from lua_Integer extends the sign.
pub sign_extend : ℕ → ℕ
sign_extend n = if ltb n (2 ^ 31) then n else n + (2 ^ 64 - 2 ^ 32)

-- `mlua_push_minint`
pub push_minint : ℕ → Value
push_minint v = if ltb v (2 ^ 31) || leb (2 ^ 64 - 2 ^ 31) v then integer (v % 2 ^ 32) else int64 v

-- `mlua_check_int64`; other values raise an error: `none`.
unfoldable pub check_int64 : Value → Option ℕ
unfolding sign_extend
check_int64 (integer n) = some (sign_extend n)
check_int64 (int64 v) = some v
check_int64 _ = none

-- The parts of `int64___new`, from the lowest: `low` is 2 ^ 32 to the number of parts before, the
-- complement of `mask` and the factor of the shift. The sum is that of disjoint bits.
pub join_parts : (low value : ℕ) → List ℕ → ℕ
unfolding sign_extend
join_parts low value [] = value
join_parts low value (p ∷ ps) =
    join_parts (low * 2 ^ 32) (value % low + sign_extend p * low % 2 ^ 64) ps

-- `int64___new` of integers; more than two raise an error: `none`.
pub new_parts : List ℕ → Option ℕ
unfolding join_parts
new_parts (p ∷ q ∷ r ∷ ps) = none
new_parts ps = some (join_parts 1 0 ps)

-- `int64_tointeger`: `none` is a fail.
pub to_integer : ℕ → Option ℕ
unfolding sign_extend
to_integer v = if sign_extend (v % 2 ^ 32) == v then some (v % 2 ^ 32) else none

-- `isspace`, `isdigit`, `isalnum`, and the value of a digit or letter.
abbrev pub is_space : ℕ → Bool
is_space c = c == 32 || leb 9 c && leb c 13

abbrev pub is_digit : ℕ → Bool
is_digit c = leb 48 c && leb c 57

abbrev pub is_alnum : ℕ → Bool
is_alnum c = is_digit c || (leb 65 c && leb c 90 || leb 97 c && leb c 122)

abbrev pub to_upper : ℕ → ℕ
to_upper c = if leb 97 c && leb c 122 then c - 32 else c

pub digit_of : ℕ → ℕ
digit_of c = if is_digit c then c - 48 else to_upper c - 65 + 10

pub skip_space : List ℕ → List ℕ
skip_space [] = []
skip_space (c ∷ cs) = let rest = skip_space cs in if is_space c then rest else c ∷ cs

-- The loop over the digits: the value, and what follows. A digit that the base has not fails.
pub digits : (base value : ℕ) → List ℕ → Option (ℕ × List ℕ)
unfolding digit_of
digits base v [] = some (v, [])
digits base v (c ∷ cs) =
    let rest = digits base ((v * base + digit_of c) % 2 ^ 64) cs in
    if is_alnum c then if leb base (digit_of c) then none else rest else some (v, c ∷ cs)

-- The base that the character after a leading 0 sets, or 0.
prefix_base : ℕ → ℕ
prefix_base x = if x == 120 || x == 88 then 16 else if x == 111 then 8 else if x == 98 then 2 else 0

-- The base when none is given, and the digits behind its prefix.
pub base_of : (base : ℕ) → List ℕ → ℕ × List ℕ
unfolding prefix_base
base_of (suc b) cs = (suc b, cs)
base_of zero [] = (10, [])
base_of zero (c ∷ []) = (10, c ∷ [])
base_of zero (c ∷ x ∷ cs) =
    if c == 48 && not (prefix_base x == 0) then (prefix_base x, cs) else (10, c ∷ x ∷ cs)

-- The string ends at its end or at a zero byte.
unfoldable pub at_end : List ℕ → Bool
at_end [] = true
at_end (c ∷ cs) = c == 0

starts_alnum : List ℕ → Bool
starts_alnum [] = false
starts_alnum (c ∷ cs) = is_alnum c

-- Behind the digits only white space may stand.
pub finish : (neg : Bool) → ℕ × List ℕ → Option ℕ
finish neg (v, rest) =
    if at_end (skip_space rest) then some (if neg then (2 ^ 64 - v) % 2 ^ 64 else v) else none

pub parse_digits : (base : ℕ) (neg : Bool) → List ℕ → Option ℕ
parse_digits base neg cs = if starts_alnum cs then (digits base 0 cs >>= finish neg) else none

pub parse_number : (base : ℕ) (neg : Bool) → List ℕ → Option ℕ
parse_number base neg cs = parse_digits (base_of base cs).0 neg (base_of base cs).1

parse_sign : (base : ℕ) → List ℕ → Option ℕ
parse_sign base [] = parse_number base false []
parse_sign base (c ∷ cs) =
    if c == 45
    then parse_number base true cs
    else if c == 43
    then parse_number base false cs
    else parse_number base false (c ∷ cs)

-- `mlua_string_to_int64`
pub string_to_int64 : (base : ℕ) → List ℕ → Option ℕ
string_to_int64 base s = parse_sign base (skip_space s)

-- `__add`, `__sub`, `__mul`, `__unm` and `__bnot` of two Int64 or integers.
pub add : ℕ → ℕ → ℕ
add a b = (a + b) % 2 ^ 64

pub sub : ℕ → ℕ → ℕ
sub a b = (a + 2 ^ 64 - b) % 2 ^ 64

pub mul : ℕ → ℕ → ℕ
mul a b = a * b % 2 ^ 64

pub unm : ℕ → ℕ
unm a = (2 ^ 64 - a) % 2 ^ 64

pub bnot : ℕ → ℕ
bnot a = 2 ^ 64 - 1 - a

-- A pattern from 2 ^ 63 on is negative.
abbrev pub negative : ℕ → Bool
negative a = leb (2 ^ 63) a

-- `lhs >> n` of a signed value: the quotient rounded down.
pub arith_shift : (lhs n : ℕ) → ℕ
arith_shift lhs n = if negative lhs then 2 ^ 64 - 1 - (2 ^ 64 - 1 - lhs) / 2 ^ n else lhs / 2 ^ n

-- A shift to the right by `n`.
pub shift_right : (lhs n : ℕ) (arith : Bool) → ℕ
unfolding arith_shift
shift_right lhs n arith =
    if leb 64 n
    then if arith && negative lhs then 2 ^ 64 - 1 else 0
    else if arith
    then arith_shift lhs n
    else lhs / 2 ^ n

-- `shift_left`; for the least int64 the code negates beyond its range, and here it wraps.
pub shift_left : (lhs rhs : ℕ) (arith : Bool) → ℕ
unfolding shift_right
shift_left lhs rhs arith =
    if negative rhs
    then shift_right lhs (2 ^ 64 - rhs) arith
    else if leb 64 rhs
    then 0
    else lhs * 2 ^ rhs % 2 ^ 64

-- `__shl`, `__shr` and `ashr`
pub shl : (lhs rhs : ℕ) → ℕ
unfolding shift_left
shl lhs rhs = shift_left lhs rhs false

pub shr : (lhs rhs : ℕ) → ℕ
unfolding shift_left
shr lhs rhs = shift_left lhs ((2 ^ 64 - rhs) % 2 ^ 64) false

pub ashr : (lhs rhs : ℕ) → ℕ
unfolding shift_left
ashr lhs rhs = shift_left lhs ((2 ^ 64 - rhs) % 2 ^ 64) true

-- `ult`, and the signed comparisons of two Int64 or integers.
pub ult : ℕ → ℕ → Bool
ult a b = ltb a b

pub int64_lt : ℕ → ℕ → Bool
int64_lt a b = ltb ((a + 2 ^ 63) % 2 ^ 64) ((b + 2 ^ 63) % 2 ^ 64)

pub int64_le : ℕ → ℕ → Bool
int64_le a b = leb ((a + 2 ^ 63) % 2 ^ 64) ((b + 2 ^ 63) % 2 ^ 64)

-- The magnitude of a signed value, and the quotient and remainder of C, which round to zero.
pub magnitude : ℕ → ℕ
magnitude a = if negative a then 2 ^ 64 - a else a

pub signs_differ : ℕ → ℕ → Bool
signs_differ a b = if negative a then not (negative b) else negative b

pub quotient : (lhs rhs : ℕ) → ℕ
quotient lhs rhs =
    let q = magnitude lhs / magnitude rhs in
    if signs_differ lhs rhs then (2 ^ 64 - q) % 2 ^ 64 else q

pub remainder : (lhs rhs : ℕ) → ℕ
remainder lhs rhs =
    let r = magnitude lhs % magnitude rhs in if negative lhs then (2 ^ 64 - r) % 2 ^ 64 else r

-- `__idiv` and `__mod` of two Int64 or integers; a division by zero raises an error: `none`.
pub idiv : (lhs rhs : ℕ) → Option ℕ
idiv lhs rhs =
    if leb ((rhs + 1) % 2 ^ 64) 1
    then if rhs == 0 then none else some (unm lhs)
    else if signs_differ lhs rhs && not (remainder lhs rhs == 0)
    then some ((quotient lhs rhs + 2 ^ 64 - 1) % 2 ^ 64)
    else some (quotient lhs rhs)

pub mod_of : (lhs rhs : ℕ) → Option ℕ
mod_of lhs rhs =
    if leb ((rhs + 1) % 2 ^ 64) 1
    then if rhs == 0 then none else some 0
    else if not (remainder lhs rhs == 0) && signs_differ lhs rhs
    then some ((remainder lhs rhs + rhs) % 2 ^ 64)
    else some (remainder lhs rhs)
