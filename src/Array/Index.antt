-- ===== src/Array/Index.antt =====
-- Reads of single elements of an array, its iteration and its slices: index2, newindex, pairs and
-- get of lib/common/mlua.array.c.
use micro_lua.Base.{
  ℕ, zero, suc, ◌+◌, ◌-◌, ◌%◌, ◌^◌, ◌≤◌, ◌<◌, ◌≡◌, refl, sym, ap, ◌∙◌, ◌⊎◌, inl, inr, true, false,
  not, ◌&&◌, ◌||◌, Option, none, some, List, [], ◌∷◌, arith, length, Bool-cases, leb, ltb,
  if◌then◌else◌, ◌==◌, get_or, cons_ap,
}
use micro_lua.Value.{Value, nil}
use micro_lua.Memory.{Bytes}
use micro_lua.Array.{
  Array, Written, written, raised, and_then, element, negative, signed_lt, check_offset, index2,
  newindex, pairs_iter, set, set_from, set_loop,
}
use micro_lua.Array.Elements.{
  IsArray, contents, cells, slot, element_lem, get_or-cells, length-cells,
}

-- The element of a list that an offset names: from 1, or from the end for a negative one.
abbrev pub named : List Value → (off : ℕ) → Value
named xs off =
    if negative off
    then if leb (2 ^ 32 - off) (length xs) then get_or xs (length xs - (2 ^ 32 - off)) nil else nil
    else if off == 0
    then nil
    else get_or xs (off - 1) nil

get_or-beyond : (xs : List Value) (i : ℕ) → length xs ≤ i → get_or xs i nil ≡ nil
get_or-beyond [] i h = refl
get_or-beyond (x ∷ xs) zero h = absurd (omega arith)
get_or-beyond (x ∷ xs) (suc i) h = get_or-beyond xs i (omega arith)

module _ {arr : Array} {stored : Value → Option Value} (a : IsArray arr stored) (m : Bytes) where
  pub get_or-contents :
      (i : ℕ) → i < arr.len → get_or (contents arr m) i nil ≡ arr.vt.get arr.size (element arr i) m
  get_or-contents i h =
      get_or-cells arr.vt arr.size arr.ptr arr.len i m h
      ∙ ap (λ p. arr.vt.get arr.size p m) (sym (element_lem i a (omega (arith, a.used))))

  length-contents : length (contents arr m) ≡ arr.len
  length-contents = length-cells arr.vt arr.size arr.ptr arr.len m

  -- The element at an offset that is computed, as the reads show it.
  abbrev shown : ℕ → Value
  shown o = if negative o || leb arr.len o then nil else arr.vt.get arr.size (element arr o) m

  shown_lem : (o : ℕ) → o < 2 ^ 31 → shown o ≡ get_or (contents arr m) o nil
  shown_lem o h = elim (Bool-cases (leb arr.len o)) [
    | inl e ↦ ground (arith, get_or-beyond (contents arr m) o, length-contents)
    | inr e ↦ ground (arith, get_or-contents o)
  ]

  shown_negative : (o : ℕ) → 2 ^ 31 ≤ o → shown o ≡ nil
  shown_negative o h = ground arith

-- The offset that is computed, in each of the four ranges.
module _ (arr : Array) (off : ℕ) (l : arr.len < 2 ^ 31) where
  pub offset_front : 0 < off → off < 2 ^ 31 → check_offset arr off ≡ off - 1
  unfolding check_offset
  offset_front pos h = let front : negative off ≡ false = ground arith in rw front (omega arith)

  offset_zero : off ≡ 0 → check_offset arr off ≡ 2 ^ 32 - 1
  unfolding check_offset
  offset_zero e = rw e refl

  offset_back :
      off < 2 ^ 32 → 2 ^ 32 - off ≤ arr.len → check_offset arr off ≡ arr.len - (2 ^ 32 - off)
  unfolding check_offset
  offset_back h le = let back : negative off ≡ true = ground arith in rw back (omega arith)

  offset_before :
      2 ^ 31 ≤ off
      → arr.len < 2 ^ 32 - off
      → (2 ^ 31 ≤ check_offset arr off) × (check_offset arr off < 2 ^ 32)
  unfolding check_offset
  offset_before neg gt =
      let back : negative off ≡ true = ground arith in rw back (omega arith, omega arith)

-- A read at any offset gives the element of the contents that it names, from the front or from the
-- end, and nil if there is none.
pub index2_lem :
    {arr : Array} {stored : Value → Option Value} (off : ℕ) (m : Bytes)
    → IsArray arr stored
    → off < 2 ^ 32
    → index2 arr off m ≡ named (contents arr m) off
unfolding index2
index2_lem {arr} off m a h =
    let small : arr.len < 2 ^ 31 = omega (arith, a.used, a.signed) in
    rw (length-contents a m) (elim (Bool-cases (negative off)) [
      | inl e ↦ elim (Bool-cases (leb (2 ^ 32 - off) arr.len)) [
        | inl le ↦
            rw (e, le, offset_back arr off small h (ground arith)) (shown_lem a m _ (omega arith))
        | inr gt ↦
            rw (e, gt)
              (shown_negative a m _ ((offset_before arr off small (ground arith) (ground arith)).0))
      ]
      | inr e ↦ elim (Bool-cases (off == 0)) [
        | inl z ↦
            rw (e, z, offset_zero arr off small (ground arith))
              (shown_negative a m (2 ^ 32 - 1) (omega arith))
        | inr nz ↦
            rw (e, nz, offset_front arr off small (ground arith) (ground arith))
              (shown_lem a m _ (ground arith))
      ]
    ])

and_then-written : (r : Written) → and_then r (λ m'. written m') ≡ r
and_then-written (written m) = refl
and_then-written (raised arg m) = refl

-- No offset is the last lua_Integer, after which a range would wrap.
offset-lt :
    (arr : Array) (off : ℕ)
    → off < 2 ^ 32
    → arr.len < 2 ^ 31
    → (2 ^ 31 ≤ check_offset arr off) ⊎ (check_offset arr off < 2 ^ 31 - 1)
unfolding check_offset
offset-lt arr off h l = elim (Bool-cases (negative off)) [
  | inl e ↦ rw e (elim (Bool-cases (leb (2 ^ 32) (off + arr.len))) [
    | inl over ↦ inr (ground arith)
    | inr under ↦ inl (ground arith)
  ])
  | inr e ↦
      rw e
        (elim (Bool-cases (off == 0)) [ inl z ↦ inl (ground arith) | inr nz ↦ inr (ground arith) ])
]

-- A write at any offset is that of one value by `set`.
pub newindex-set :
    {arr : Array} {stored : Value → Option Value} (off : ℕ) (v : Value) (m : Bytes)
    → IsArray arr stored
    → off < 2 ^ 32
    → newindex arr off v m ≡ set arr off (v ∷ []) m
unfolding newindex set set_from set_loop
newindex-set {arr} off v m a h =
    by_offset (check_offset arr off) (offset-lt arr off h (omega (arith, a.used, a.signed)))
  where
    by_offset :
        (o : ℕ)
        → (2 ^ 31 ≤ o) ⊎ (o < 2 ^ 31 - 1)
        → (if not (negative o) && ltb o arr.cap
            then arr.vt.set arr.size 3 (element arr o) v m
            else raised 2 m)
          ≡ set_from arr o (v ∷ []) m
    by_offset o (inl neg) = let e : negative o ≡ true = ground arith in rw e refl
    by_offset o (inr low) =
        let e : negative o ≡ false = ground arith in
        let f : signed_lt arr.cap ((o + 1) % 2 ^ 32) ≡ not (ltb o arr.cap) =
          ground (arith, a.signed) in
        rw (e, f)
          (elim (Bool-cases (ltb o arr.cap)) [
            | inl k ↦ rw k (sym (and_then-written (arr.vt.set arr.size 3 (element arr o) v m)))
            | inr k ↦ rw k refl
          ])

-- The values that a generic `for` over an array sees, with the offsets, for a number of rounds.
abbrev pub next_pair : (rest : ℕ → List (ℕ × Value)) → Option (ℕ × Value) → List (ℕ × Value)
next_pair rest none = []
next_pair rest (some (next, v)) = (next, v) ∷ rest next

abbrev pub for_pairs : Array → (rounds off : ℕ) → Bytes → List (ℕ × Value)
for_pairs arr zero off m = []
for_pairs arr (suc k) off m = next_pair (λ next. for_pairs arr k next m) (pairs_iter arr off m)

abbrev pub numbered : ℕ → List Value → List (ℕ × Value)
numbered i [] = []
numbered i (x ∷ xs) = (i, x) ∷ numbered (suc i) xs

module _ {arr : Array} {stored : Value → Option Value} (a : IsArray arr stored) (m : Bytes) where
  iter_done : (off : ℕ) → off ≡ arr.len → pairs_iter arr off m ≡ none
  unfolding pairs_iter
  iter_done off e =
      let done : signed_lt off arr.len ≡ false = ground (arith, a.used, a.signed) in rw done refl

  iter_next :
      (off p : ℕ)
      → off < arr.len
      → p ≡ slot arr off
      → pairs_iter arr off m ≡ some (suc off, arr.vt.get arr.size p m)
  unfolding pairs_iter
  iter_next off p l f =
      let more : signed_lt off arr.len ≡ true = ground (arith, a.used, a.signed) in
      let next : (off + 1) % 2 ^ 32 ≡ suc off = omega (arith, a.used, a.signed) in
      let at : element arr off ≡ p = element_lem off a (omega (arith, a.used)) ∙ sym f in
      rw (more, next, at) refl

  for_pairs_from :
      (rest off p : ℕ)
      → off + rest ≡ arr.len
      → p ≡ slot arr off
      → for_pairs arr (suc rest) off m ≡ numbered (suc off) (cells arr.vt arr.size p rest m)
  for_pairs_from zero off p e f = ap (next_pair _) (iter_done off (omega arith))
  for_pairs_from (suc rest) off p e f =
      ap (next_pair (λ next. for_pairs arr (suc rest) next m)) (iter_next off p (omega arith) f)
      ∙ cons_ap refl (for_pairs_from rest (suc off) (p + arr.size) (omega arith) (grind arith))

-- Iteration ends after the elements, and sees each once, in order, with its offset from 1.
pub for_pairs_lem :
    {arr : Array} {stored : Value → Option Value} (m : Bytes)
    → IsArray arr stored
    → for_pairs arr (suc arr.len) 0 m ≡ numbered 1 (contents arr m)
for_pairs_lem {arr} m a = for_pairs_from a m arr.len 0 arr.ptr (omega arith) (omega arith)
