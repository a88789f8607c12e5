-- ===== src/Array/Overflow.antt =====
-- Offsets and lengths that wrap in the checks of lib/common/mlua.array.c.
use micro_lua.Base.{
  ℕ, ◌+◌, ◌-◌, ◌%◌, ◌^◌, ◌≤◌, ◌<◌, ◌≡◌, refl, ◌||◌, true, false, some, List, arith, Option, length,
  ltb,
}
use micro_lua.Value.{Value}
use micro_lua.Memory.{Bytes}
use micro_lua.Array.{
  Array, element, negative, signed_lt, check_offset, set, set_from, set_loop, fill, fill_from,
  fill_at, fill_loop, opt_offset, pairs_iter,
}
use micro_lua.Array.Elements.{IsArray}
use micro_lua.Array.Index.{offset_front}

module _ {arr : Array} {stored : Value → Option Value} (a : IsArray arr stored) where
  start : (off : ℕ) → 0 < off → off < 2 ^ 31 → check_offset arr off ≡ off - 1
  start off pos h = offset_front arr off (omega (arith, a.used, a.signed)) pos h

  fill_from-wrapped :
      (v : Value) (o l : ℕ) (m : Bytes)
      → o ≤ arr.cap
      → l < 2 ^ 31
      → 2 ^ 31 ≤ o + l
      → fill_from arr v o (some l) m ≡ fill_loop arr.vt arr.size l (element arr o) v m
  unfolding fill_from fill_at
  fill_from-wrapped v o l m le h over =
      let inside : (negative o || ltb arr.cap o) ≡ false = ground (arith, a.signed) in
      let pos : negative l ≡ false = ground arith in
      let room : signed_lt arr.cap ((o + l) % 2 ^ 32) ≡ false = ground (arith, a.signed) in
      rw (inside, pos, room) refl

  set_from-wrapped :
      (o : ℕ) (vs : List Value) (m : Bytes)
      → o < 2 ^ 31
      → length vs < 2 ^ 31
      → 2 ^ 31 ≤ o + length vs
      → set_from arr o vs m ≡ set_loop arr.vt arr.size 3 (element arr o) vs m
  unfolding set_from
  set_from-wrapped o vs m h h' over =
      let pos : negative o ≡ false = ground arith in
      let room : signed_lt arr.cap ((o + length vs) % 2 ^ 32) ≡ false = ground (arith, a.signed) in
      rw (pos, room) refl

-- A fill from an offset within the capacity whose end passes the largest lua_Integer is not refused:
-- it writes all of its length.
pub fill_wraps :
    {arr : Array} {stored : Value → Option Value} (v : Value) (off l : ℕ) (m : Bytes)
    → IsArray arr stored
    → 0 < off
    → off < 2 ^ 31
    → off - 1 ≤ arr.cap
    → l < 2 ^ 31
    → 2 ^ 31 ≤ off - 1 + l
    → fill arr v (some off) (some l) m ≡ fill_loop arr.vt arr.size l (element arr (off - 1)) v m
unfolding fill opt_offset
fill_wraps {arr} v off l m a pos h le small over =
    rw (start a off pos h) (fill_from-wrapped a v (off - 1) l m le small over)

-- A write of several values at a positive offset whose end passes the largest lua_Integer is not
-- refused, wherever the array ends: it writes all of the values.
pub set_wraps :
    {arr : Array} {stored : Value → Option Value} (off : ℕ) (vs : List Value) (m : Bytes)
    → IsArray arr stored
    → 0 < off
    → off < 2 ^ 31
    → length vs < 2 ^ 31
    → 2 ^ 31 ≤ off - 1 + length vs
    → set arr off vs m ≡ set_loop arr.vt arr.size 3 (element arr (off - 1)) vs m
unfolding set
set_wraps {arr} off vs m a pos h few over =
    rw (start a off pos h) (set_from-wrapped a (off - 1) vs m (omega arith) few over)

-- The iterator of an array reads an element at every negative offset, before the contents.
pub pairs_iter-negative :
    {arr : Array} {stored : Value → Option Value} (off : ℕ) (m : Bytes)
    → IsArray arr stored
    → 2 ^ 31 ≤ off
    → off < 2 ^ 32
    → pairs_iter arr off m ≡ some ((off + 1) % 2 ^ 32, arr.vt.get arr.size (element arr off) m)
unfolding pairs_iter
pairs_iter-negative {arr} off m a neg h =
    let before : signed_lt off arr.len ≡ true = ground (arith, a.used, a.signed) in rw before refl
