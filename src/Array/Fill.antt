-- ===== src/Array/Fill.antt =====
-- Fills of arrays in lib/common/mlua.array.c.
use micro_lua.Base.{
  ℕ, ◌+◌, ◌-◌, ◌%◌, ◌^◌, ◌≤◌, ◌<◌, ◌≡◌, refl, true, false, Option, none, some, arith, ltb,
  replicate, ◌||◌,
}
use micro_lua.Value.{Value}
use micro_lua.Memory.{Bytes, opt}
use micro_lua.Array.{
  Array, raised, negative, signed_lt, fill, fill_at, fill_from, check_offset, opt_offset,
}
use micro_lua.Array.Elements.{
  IsArray, slot, element_lem, stored_all, fill_loop_lem, fill_loop-apart,
}
use micro_lua.Array.Extend.{SetAt, range_fits, Beside-range}

module _ {arr : Array} {stored : Value → Option Value} (v : Value) (o l : ℕ) (m : Bytes)
    (a : IsArray arr stored) where
  fill_at-inside :
      o + l ≤ arr.cap
      → SetAt arr stored o l m (stored_all stored (replicate l v)) (fill_at arr v o l m)
  unfolding fill_at
  fill_at-inside le =
      let sum : (o + l) % 2 ^ 32 ≡ o + l = omega (arith, a.signed) in
      let room : signed_lt arr.cap (o + l) ≡ false = ground (arith, a.signed) in
      rw (sum, room, element_lem o a (omega arith))
        (
          fill_loop_lem a.vt (slot arr o) l v m (range_fits a o l le),
          λ j h k. a.vt.local (slot arr j) _ m (λ i l'.
              fill_loop-apart a.vt (slot arr o) l v m (slot arr j + i) (range_fits a o l le)
                (Beside-range arr o l j i h l')),
        )

  fill_from-inside :
      (len : Option ℕ)
      → opt len (arr.cap - o) ≡ l
      → o + l ≤ arr.cap
      → SetAt arr stored o l m (stored_all stored (replicate l v)) (fill_from arr v o len m)
  unfolding fill_from
  fill_from-inside len e le =
      let start : (negative o || ltb arr.cap o) ≡ false = ground (arith, a.signed) in
      let pos : negative l ≡ false = ground (arith, a.signed) in
      rw (e, start, pos) (fill_at-inside le)

  fill_from-outside : (len : Option ℕ) → arr.cap < o → fill_from arr v o len m ≡ raised 3 m
  unfolding fill_from
  fill_from-outside len gt =
      let start : (negative o || ltb arr.cap o) ≡ true = ground arith in rw start refl

-- A fill without bounds writes the value to every element up to the capacity.
pub fill_all :
    {arr : Array} {stored : Value → Option Value} (v : Value) (m : Bytes)
    → IsArray arr stored
    → SetAt arr stored 0 arr.cap m
        (stored_all stored (replicate arr.cap v))
        (fill arr v none none m)
unfolding fill opt_offset
fill_all {arr} v m a = fill_from-inside v 0 arr.cap m a none (omega arith) (omega arith)

-- A fill of a range within the capacity writes the value, as the format stores it, to every element
-- of the range and to no other.
pub fill-SetAt :
    {arr : Array} {stored : Value → Option Value} (v : Value) (off l : ℕ) (m : Bytes)
    → IsArray arr stored
    → check_offset arr off + l ≤ arr.cap
    → SetAt arr stored
        (check_offset arr off)
        l
        m
        (stored_all stored (replicate l v))
        (fill arr v (some off) (some l) m)
unfolding fill opt_offset
fill-SetAt {arr} v off l m a = fill_from-inside v (check_offset arr off) l m a (some l) refl

-- A fill from an offset beyond the capacity is refused.
pub fill_outside :
    {arr : Array} {stored : Value → Option Value} (v : Value) (off l : ℕ) (m : Bytes)
    → IsArray arr stored
    → arr.cap < check_offset arr off
    → fill arr v (some off) (some l) m ≡ raised 3 m
unfolding fill opt_offset
fill_outside {arr} v off l m a = fill_from-outside v (check_offset arr off) l m a (some l)
