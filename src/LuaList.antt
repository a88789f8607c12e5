-- ===== src/LuaList.antt =====
-- Lists with an explicit length: lib/common/mlua.list.c. Positions are bit patterns of lua_Integer
-- below 2 ^ 32, and a length is below 2 ^ 31.
pub mod Contents
pub mod Edit
pub mod Query
use micro_lua.Base.{
  ℕ, zero, suc, ◌+◌, ◌-◌, ◌%◌, ◌^◌, Bool, true, false, ◌&&◌, Option, none, some, List, [], ◌∷◌,
  ◌++◌, ◌==◌, leb, ltb, if◌then◌else◌, update, length,
}
use micro_lua.Value.{Value, nil}

-- The positive integer keys of the table, and its field "n", which is nil or an integer.
pub record Table : Type 0 where
  pub at : ℕ → Value
  pub n : Option ℕ

-- `lua_rawlen` returns some border of the table: a parameter of what calls it.
abbrev pub Border : Type 0
Border = (ℕ → Value) → ℕ

-- `length`
unfoldable pub len : Border → Table → ℕ
len border t = elim t.n [ none ↦ border t.at | some k ↦ k ]

-- Clears `count` entries down from `i`.
pub clear_from : (i count : ℕ) → (ℕ → Value) → ℕ → Value
clear_from i zero at = at
clear_from i (suc count) at = clear_from (i - 1) count (update at i nil)

-- A negative length counts as 0.
abbrev pub not_negative : ℕ → ℕ
not_negative k = if ltb k (2 ^ 31) then k else 0

-- `list_len` with a new length: the old length.
pub set_len : Border → (new_len : ℕ) → Table → ℕ × Table
unfolding len clear_from
set_len border new_len t =
    let l = len border t in
    let k = not_negative new_len in
    (l, if k == l then t else record t { at = clear_from l (l - k) t.at; n = some k })

-- The values of `append` are set in ascending order, from position `i` on.
pub set_from : (i : ℕ) → List Value → (ℕ → Value) → ℕ → Value
set_from i [] at = at
set_from i (v ∷ vs) at = set_from (suc i) vs (update at i v)

abbrev pub new_table : Table
new_table = record { at = λ i. nil; n = none }

-- `list_append` with at least one value; nil for a list makes a new one.
pub append : Border → Option Table → List Value → Table
unfolding len set_from
append border none vs = record { at = set_from 1 vs (λ i. nil); n = some (length vs) }
append border (some t) vs =
    let l = len border t in
    record { at = set_from (suc l) vs t.at; n = some ((l + length vs) % 2 ^ 32) }

-- Moves `count` entries up by one, down from `i`.
pub shift_up : (i count : ℕ) → (ℕ → Value) → ℕ → Value
shift_up i zero at = at
shift_up i (suc count) at = shift_up (i - 1) count (update at i (at (i - 1)))

-- Whether the position, less one in lua_Unsigned, is below the length.
pub in_list : (pos len : ℕ) → Bool
in_list pos len = ltb ((pos + 2 ^ 32 - 1) % 2 ^ 32) len

-- `list_insert`: without a position at the end. `none`: the position is out of bounds.
pub insert : Border → Option Table → (pos : Option ℕ) → Value → Option Table
unfolding len in_list shift_up
insert border o pos v =
    let t : Table = elim o [ none ↦ new_table | some t ↦ t ] in
    let l : ℕ = elim o [ none ↦ 1 | some t ↦ len border t + 1 ] in
    elim pos [
      | none ↦ some (record { at = update t.at l v; n = some l })
      | some p ↦
          if in_list p l
          then some (record { at = update (shift_up l (l - p) t.at) p v; n = some l })
          else none
    ]

-- Moves `count` entries down by one, up from `i`.
pub shift_down : (i count : ℕ) → (ℕ → Value) → ℕ → Value
shift_down i zero at = at
shift_down i (suc count) at = shift_down (suc i) count (update at i (at (suc i)))

-- What `list_remove` checks of a position that is not the length: unlike `insert`, the position
-- behind the last element passes.
pub can_remove : (pos len : ℕ) → Bool
can_remove pos len = if pos == len then true else leb ((pos + 2 ^ 32 - 1) % 2 ^ 32) len

-- The result is `none` when there is nothing to remove.
pub remove : Border → (pos : Option ℕ) → Table → Option (Option Value × Table)
unfolding len can_remove shift_down
remove border pos t =
    let l = len border t in
    let p : ℕ = elim pos [ none ↦ l | some p ↦ p ] in
    if can_remove p l
    then if l == 0
      then some (none, t)
      else some (
        some (t.at p),
        record {
          at = update (shift_down p (l - p) t.at) (if leb p l then l else p) nil;
          n = some (l - 1);
        },
      )
    else none

-- `list_pack`
pub pack : List Value → Table
unfolding set_from
pack vs = record { at = set_from 1 vs (λ i. nil); n = some (length vs) }

-- `count` entries from `i` on.
pub entries : (i count : ℕ) → (ℕ → Value) → List Value
entries i zero at = []
entries i (suc count) at = at i ∷ entries (suc i) count at

-- `list_unpack`, for positive positions.
pub unpack : Border → (b e : Option ℕ) → Table → List Value
unfolding len entries
unpack border b e t =
    let first : ℕ = elim b [ none ↦ 1 | some k ↦ k ] in
    let end : ℕ = elim e [ none ↦ len border t | some k ↦ k ] in
    if ltb end first then [] else entries first (end - first + 1) t.at

-- The comparison of `list_find` and `list___eq`, which may call metamethods, is a parameter.
pub find_from : (eq : Value → Value → Bool) → Value → (i count : ℕ) → (ℕ → Value) → Option ℕ
find_from eq v i zero at = none
find_from eq v i (suc count) at =
    let rest = find_from eq v (suc i) count at in if eq v (at i) then some i else rest

-- Where `list_find` starts, for a bit pattern and the length.
pub start_of : (i len : ℕ) → ℕ
start_of i len =
    if ltb i (2 ^ 31)
    then if i == 0 then 1 else i
    else if leb len (2 ^ 32 - i)
    then 1
    else len - (2 ^ 32 - i) + 1

pub find : Border → (eq : Value → Value → Bool) → Value → (i : Option ℕ) → Table → Option ℕ
unfolding len start_of find_from
find border eq v i t =
    let l = len border t in
    let first = start_of (elim i [ none ↦ 1 | some k ↦ k ]) l in
    find_from eq v first (suc l - first) t.at

pub eq_from : (eq : Value → Value → Bool) → (i count : ℕ) → (at at' : ℕ → Value) → Bool
eq_from eq i zero at at' = true
eq_from eq i (suc count) at at' = eq (at i) (at' i) && eq_from eq (suc i) count at at'

-- `list___eq`
pub list_eq : Border → (eq : Value → Value → Bool) → Table → Table → Bool
unfolding len eq_from
list_eq border eq t t' =
    let l = len border t in if l == len border t' then eq_from eq 1 l t.at t'.at else false
