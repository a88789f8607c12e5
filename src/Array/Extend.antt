-- ===== src/Array/Extend.antt =====
-- Writes of several values to an array: set and append of lib/common/mlua.array.c.
use micro_lua.Base.{
  ℕ, suc, ◌+◌, ◌*◌, ◌%◌, ◌^◌, ◌≤◌, ◌<◌, ◌≡◌, refl, sym, ap, ◌∙◌, ◌⊎◌, inl, inr, subst, true, false,
  Option, none, some, List, ◌++◌, arith, length,
}
use micro_lua.Value.{Value}
use micro_lua.Memory.{Bytes}
use micro_lua.Array.{
  Array, Written, written, raised, memory, negative, signed_lt, check_offset, set, set_from, append,
  grow, set_loop,
}
use micro_lua.Array.Codec.{Beside}
use micro_lua.Array.Elements.{
  IsArray, AllSet, contents, slot, slot_below, element_lem, stored_all, cells-append, cells_local,
  set_loop_lem, set_loop-apart,
}

module _ {arr : Array} {stored : Value → Option Value} (a : IsArray arr stored) where
  -- The end of a range within the capacity.
  pub range_fits : (o n : ℕ) → o + n ≤ arr.cap → slot arr o + n * arr.size < 2 ^ 32
  range_fits o n le =
      let top = slot_below arr (o + n) arr.cap le in
      let sum : slot arr o + n * arr.size ≡ slot arr (o + n) = grind arith in
      omega (arith, top, sum, a.fits)

  pub append_returns :
      (vs : List Value) (m : Bytes)
      → arr.len + length vs ≤ arr.cap
      → append arr vs m
        ≡ grow arr (arr.len + length vs) (set_loop arr.vt arr.size 2 (slot arr arr.len) vs m)
  unfolding append
  append_returns vs m le =
      let sum : (arr.len + length vs) % 2 ^ 32 ≡ arr.len + length vs = omega (arith, a.signed) in
      let room : signed_lt arr.cap (arr.len + length vs) ≡ false = ground (arith, a.signed) in
      rw (sum, room, element_lem arr.len a a.used) refl

  pub grown_IsArray :
      (n : ℕ)
      → n ≤ arr.cap
      → IsArray
          (record { vt = arr.vt; ptr = arr.ptr; len = n; cap = arr.cap; size = arr.size })
          stored
  grown_IsArray n le = record {
    vt = a.vt;
    pos = a.pos;
    used = le;
    signed = a.signed;
    fits = a.fits;
  }

-- What `append` does with values that are stored, or of which one is refused.
abbrev pub Appended :
    (arr : Array) (stored : Value → Option Value)
    → Bytes
    → Option (List Value)
    → Array × Written
    → Type 0
Appended arr stored m (some ws) r =
    (arr' : Array) × (m' : Bytes) × (r ≡ (arr', written m'))
    × (contents arr' m' ≡ contents arr m ++ ws)
    × IsArray arr' stored
Appended arr stored m none r =
    (arg : ℕ) × (m' : Bytes) × (r ≡ (arr, raised arg m')) × (contents arr m' ≡ contents arr m)

-- Values with which the length, below 2 ^ 31, would pass the capacity are refused, before anything is
-- written.
pub append-full :
    {arr : Array} {stored : Value → Option Value} (vs : List Value) (m : Bytes)
    → IsArray arr stored
    → arr.cap < arr.len + length vs
    → arr.len + length vs < 2 ^ 31
    → append arr vs m ≡ (arr, raised 0 m)
unfolding append
append-full {arr} vs m a gt few =
    let sum : (arr.len + length vs) % 2 ^ 32 ≡ arr.len + length vs = omega arith in
    let full : signed_lt arr.cap (arr.len + length vs) ≡ true = ground arith in rw (sum, full) refl

-- Values that fit the capacity are appended to the contents, as the format stores them, and the
-- array stays well-formed; when one of them is refused, the array keeps its length and its contents.
pub append-contents :
    {arr : Array} {stored : Value → Option Value} (vs : List Value) (m : Bytes)
    → IsArray arr stored
    → arr.len + length vs ≤ arr.cap
    → Appended arr stored m (stored_all stored vs) (append arr vs m)
append-contents {arr} {stored} vs m a le =
    subst (Appended arr stored m (stored_all stored vs)) (sym (append_returns a vs m le)) (
      of_loop (stored_all stored vs) (set_loop arr.vt arr.size 2 (slot arr arr.len) vs m)
        (set_loop_lem a.vt 2 (slot arr arr.len) vs m (range_fits a arr.len (length vs) le))
        (λ k l.
          set_loop-apart a.vt 2 (slot arr arr.len) vs m k (range_fits a arr.len (length vs) le)
            (inl l)))
  where
    of_loop :
        (os : Option (List Value)) (r : Written)
        → AllSet arr.vt arr.size (slot arr arr.len) (length vs) os r
        → ((k : ℕ) → k < slot arr arr.len → memory r k ≡ m k)
        → Appended arr stored m os (grow arr (arr.len + length vs) r)
    of_loop none r (arg, m', e) kept = (
      arg,
      m',
      ap (grow arr (arr.len + length vs)) e,
      cells_local a.vt arr.ptr arr.len m' m (λ k l l'. ap (λ r. memory r k) (sym e) ∙ kept k l'),
    )
    of_loop (some ws) r (m', e, c) kept = (
      record {
        vt = arr.vt;
        ptr = arr.ptr;
        len = arr.len + length vs;
        cap = arr.cap;
        size = arr.size;
      },
      m',
      ap (grow arr (arr.len + length vs)) e,
      cells-append arr.vt arr.size arr.ptr arr.len (length vs) (slot arr arr.len) m' refl ∙ (λ i.
          cells_local a.vt arr.ptr arr.len m' m (λ k l l'. ap (λ r. memory r k) (sym e) ∙ kept k l')
            i
          ++ c i),
      grown_IsArray a (arr.len + length vs) le,
    )

-- What a write of `n` values at an offset leaves.
abbrev pub SetAt :
    (arr : Array) (stored : Value → Option Value) (o n : ℕ)
    → Bytes
    → Option (List Value)
    → Written
    → Type 0
SetAt arr stored o n m os r =
    AllSet arr.vt arr.size (slot arr o) n os r
    × ((j : ℕ)
        → (j < o) ⊎ (o + n ≤ j)
        → j < arr.cap
        → arr.vt.get arr.size (slot arr j) (memory r) ≡ arr.vt.get arr.size (slot arr j) m)

pub Beside-range :
    (arr : Array) (o n j i : ℕ)
    → (j < o) ⊎ (o + n ≤ j)
    → i < arr.size
    → Beside (slot arr o) (n * arr.size) (slot arr j + i)
Beside-range arr o n j i (inl h) l = inl (grind (arith, slot_below arr (suc j) o h))
Beside-range arr o n j i (inr h) l = inr (grind (arith, slot_below arr (o + n) j h))

module _ {arr : Array} {stored : Value → Option Value} (o : ℕ) (vs : List Value) (m : Bytes)
    (a : IsArray arr stored) where
  set_from-inside :
      o + length vs ≤ arr.cap
      → SetAt arr stored o (length vs) m (stored_all stored vs) (set_from arr o vs m)
  unfolding set_from
  set_from-inside le =
      let sum : (o + length vs) % 2 ^ 32 ≡ o + length vs = omega (arith, a.signed) in
      let room : signed_lt arr.cap (o + length vs) ≡ false = ground (arith, a.signed) in
      let pos : negative o ≡ false = ground (arith, a.signed) in
      rw (pos, sum, room, element_lem o a (omega arith))
        (
          set_loop_lem a.vt 3 (slot arr o) vs m (range_fits a o (length vs) le),
          λ j h l. a.vt.local (slot arr j) _ m (λ i l'.
              set_loop-apart a.vt 3 (slot arr o) vs m (slot arr j + i)
                (range_fits a o (length vs) le) (Beside-range arr o (length vs) j i h l')),
        )

  set_from-outside :
      (2 ^ 31 ≤ o) ⊎ ((arr.cap < o + length vs) × (o + length vs < 2 ^ 31))
      → set_from arr o vs m ≡ raised 2 m
  unfolding set_from
  set_from-outside (inl h) = let neg : negative o ≡ true = ground arith in rw neg refl
  set_from-outside (inr h) =
      let sum : (o + length vs) % 2 ^ 32 ≡ o + length vs = omega (arith, h.0, h.1) in
      let pos : negative o ≡ false = ground (arith, h.0, h.1) in
      let full : signed_lt arr.cap (o + length vs) ≡ true = ground (arith, a.signed, h.0, h.1) in
      rw (pos, sum, full) refl

-- Values set at an offset from which they fit the capacity are read back from there as the format
-- stores them, unless one is refused, and no element outside of the range changes.
pub set-SetAt :
    {arr : Array} {stored : Value → Option Value} (off : ℕ) (vs : List Value) (m : Bytes)
    → IsArray arr stored
    → check_offset arr off + length vs ≤ arr.cap
    → SetAt arr stored
        (check_offset arr off)
        (length vs)
        m
        (stored_all stored vs)
        (set arr off vs m)
unfolding set
set-SetAt {arr} off vs m a = set_from-inside (check_offset arr off) vs m a

-- At a negative offset, or one from which the values pass the capacity and end below 2 ^ 31, nothing
-- is written.
pub set_outside :
    {arr : Array} {stored : Value → Option Value} (off : ℕ) (vs : List Value) (m : Bytes)
    → IsArray arr stored
    → (2 ^ 31 ≤ check_offset arr off)
      ⊎ ((arr.cap < check_offset arr off + length vs) × (check_offset arr off + length vs < 2 ^ 31))
    → set arr off vs m ≡ raised 2 m
unfolding set
set_outside {arr} off vs m a = set_from-outside (check_offset arr off) vs m a
