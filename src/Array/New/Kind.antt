-- ===== src/Array/New/Kind.antt =====
-- What the formats of lib/common/mlua.array.c stand for: a table of their letters, with what an element of
-- each keeps of a value.
use micro_lua.Base.{ℕ, Bool, ◌&&◌, Option, none, some, List, [], ◌∷◌, ◌==◌, leb, ltb, if◌then◌else◌}
use micro_lua.Value.{Value, integer, int64}
use micro_lua.Int64.{at_end, check_int64}
use micro_lua.Array.Format.{Coercions, check_integer, extend}
use micro_lua.Array.Format.Fixed.{fixed_stored}
use micro_lua.Array.Format.Sized.{sized_stored, int_value, uint_value}
use micro_lua.Array.Format.Text.{string_stored}
use micro_lua.Array.New.{parse_size}

-- A kind of element, by its size in bytes.
pub data Kind : Type 0 where
  signed unsigned text : ℕ → Kind
  single double : Kind

abbrev pub kind_size : Kind → ℕ
kind_size (signed n) = n
kind_size (unsigned n) = n
kind_size (text n) = n
kind_size single = 4
kind_size double = 8

-- What a letter of a format stands for: a kind, or one whose size may follow in decimal.
pub data Letter : Type 0 where
  fixed : Kind → Letter
  sized_signed sized_unsigned sized_text : Letter

-- bBhHljLJTfdniIc
abbrev pub letters : List (ℕ × Letter)
letters =
    (98, fixed (signed 1))
    ∷ (66, fixed (unsigned 1))
    ∷ (104, fixed (signed 2))
    ∷ (72, fixed (unsigned 2))
    ∷ (105, sized_signed)
    ∷ (73, sized_unsigned)
    ∷ (108, fixed (signed 4))
    ∷ (106, fixed (signed 4))
    ∷ (76, fixed (unsigned 4))
    ∷ (74, fixed (unsigned 4))
    ∷ (84, fixed (unsigned 4))
    ∷ (102, fixed single)
    ∷ (100, fixed double)
    ∷ (110, fixed single)
    ∷ (99, sized_text)
    ∷ []

abbrev pub sized_kind : (ℕ → Kind) → Bool → ℕ × List ℕ → Option Kind
sized_kind f ok (n, rest) = if ok then if at_end rest then some (f n) else none else none

-- The kind that a letter and the rest of the format stand for. Integers have up to 8 bytes, 4 if no
-- size is given, and a text has a size over 0.
abbrev pub letter_kind : Letter → List ℕ → Option Kind
letter_kind (fixed k) cs = if at_end cs then some k else none
letter_kind sized_signed cs =
    let r = parse_size cs 4 in sized_kind signed (ltb 0 r.0 && leb r.0 8) r
letter_kind sized_unsigned cs =
    let r = parse_size cs 4 in sized_kind unsigned (ltb 0 r.0 && leb r.0 8) r
letter_kind sized_text cs = let r = parse_size cs 0 in sized_kind text (ltb 0 r.0) r

abbrev pub kind_from : List (ℕ × Letter) → ℕ → List ℕ → Option Kind
kind_from [] c cs = none
kind_from ((d, k) ∷ l) c cs = if c == d then letter_kind k cs else kind_from l c cs

abbrev pub kind_of : List ℕ → Option Kind
kind_of [] = none
kind_of (c ∷ cs) = kind_from letters c cs

-- What is read from an element of a kind when a value was set, if the value is one that it takes.
abbrev pub signed_stored : Coercions → ℕ → Value → Option Value
signed_stored co n =
    if n == 1
    then fixed_stored 1 (check_integer co) (extend 8)
    else if n == 2
    then fixed_stored 2 (check_integer co) (extend 16)
    else if n == 4
    then fixed_stored 4 (check_integer co) (extend 32)
    else if n == 8
    then fixed_stored 8 check_int64 int64
    else sized_stored co n (int_value n)

abbrev pub unsigned_stored : Coercions → ℕ → Value → Option Value
unsigned_stored co n =
    if n == 1
    then fixed_stored 1 (check_integer co) integer
    else if n == 2
    then fixed_stored 2 (check_integer co) integer
    else if n == 4
    then fixed_stored 4 (check_integer co) integer
    else if n == 8
    then fixed_stored 8 check_int64 int64
    else sized_stored co n (uint_value n)

abbrev pub kind_stored :
    Coercions → (single_stored double_stored : Value → Option Value) → Kind → Value → Option Value
kind_stored co single_stored double_stored (signed n) = signed_stored co n
kind_stored co single_stored double_stored (unsigned n) = unsigned_stored co n
kind_stored co single_stored double_stored (text n) = string_stored co n
kind_stored co single_stored double_stored single = single_stored
kind_stored co single_stored double_stored double = double_stored
