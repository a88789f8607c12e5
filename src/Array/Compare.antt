-- ===== src/Array/Compare.antt =====
-- Comparison, printing and slices of arrays in lib/common/mlua.array.c.
use native.Mathlib.Nat.{mod-eq_of_lt}
use micro_lua.Base.{
  ℕ, zero, suc, ◌+◌, ◌-◌, ◌*◌, ◌%◌, ◌^◌, ◌≤◌, ◌<◌, ◌≡◌, refl, sym, ap, ◌∙◌, inl, inr, Bool, true,
  false, not, ◌&&◌, ◌||◌, Option, some, List, [], ◌∷◌, ◌++◌, map, arith, length, Bool-cases, leb,
  ltb, take, drop, cons_ap, subst, append-nil,
}
use micro_lua.Value.{Value}
use micro_lua.Memory.{Bytes}
use micro_lua.Array.{
  Array, ArrayVt, element, negative, signed_lt, check_offset, array_eq, eq_loop, array_repr,
  repr_loop, get, get_loop,
}
use micro_lua.Array.Elements.{IsArray, contents, cells, slot, element_lem, length-cells, used_fits}
use micro_lua.Array.Index.{offset_front}

-- Two lists of the same length whose values are equal in pairs.
abbrev pub pairwise : (eq : Value → Value → Bool) → List Value → List Value → Bool
pairwise eq [] [] = true
pairwise eq [] (y ∷ ys) = false
pairwise eq (x ∷ xs) [] = false
pairwise eq (x ∷ xs) (y ∷ ys) = eq x y && pairwise eq xs ys

pairwise-length :
    (eq : Value → Value → Bool) (xs ys : List Value)
    → ¬ (length xs ≡ length ys)
    → pairwise eq xs ys ≡ false
pairwise-length eq [] [] h = absurd (h refl)
pairwise-length eq [] (y ∷ ys) h = refl
pairwise-length eq (x ∷ xs) [] h = refl
pairwise-length eq (x ∷ xs) (y ∷ ys) h =
    ground (arith, pairwise-length eq xs ys (λ e. h (ap suc e)))

below : (p n size : ℕ) → p + suc n * size < 2 ^ 32 → (p + size) % 2 ^ 32 ≡ p + size
below p n size h = mod-eq_of_lt (grind arith)

eq_loop_lem :
    (eq : Value → Value → Bool) (arr1 arr2 : Array) (n p1 p2 : ℕ) (m : Bytes)
    → p1 + n * arr1.size < 2 ^ 32
    → p2 + n * arr2.size < 2 ^ 32
    → eq_loop eq arr1 arr2 n p1 p2 m
      ≡ pairwise eq (cells arr1.vt arr1.size p1 n m) (cells arr2.vt arr2.size p2 n m)
unfolding eq_loop
eq_loop_lem eq arr1 arr2 zero p1 p2 m h h' = refl
eq_loop_lem eq arr1 arr2 (suc n) p1 p2 m h h' =
    rw (below p1 n arr1.size h, below p2 n arr2.size h')
      (ground (
        arith,
        eq_loop_lem eq arr1 arr2 n (p1 + arr1.size) (p2 + arr2.size) m (grind arith) (grind arith),
      ))

-- Two arrays are equal exactly if their contents are, whatever their formats.
pub array_eq_lem :
    {arr1 arr2 : Array} {stored1 stored2 : Value → Option Value} (eq : Value → Value → Bool)
    (m : Bytes)
    → IsArray arr1 stored1
    → IsArray arr2 stored2
    → array_eq eq arr1 arr2 m ≡ pairwise eq (contents arr1 m) (contents arr2 m)
unfolding array_eq
array_eq_lem {arr1} {arr2} eq m a1 a2 =
    elim (Bool-cases (leb arr1.len arr2.len && leb arr2.len arr1.len)) [
      | inl e ↦
          let same : arr1.len ≡ arr2.len = ground arith in
          rw e (
            eq_loop_lem eq arr1 arr2 arr1.len arr1.ptr arr2.ptr m (used_fits a1)
              (subst (λ n. arr2.ptr + n * arr2.size < 2 ^ 32) (sym same) (used_fits a2))
            ∙ ap (λ n. pairwise eq (contents arr1 m) (cells arr2.vt arr2.size arr2.ptr n m)) same)
      | inr e ↦ rw e (
          sym (
            pairwise-length eq (contents arr1 m) (contents arr2 m) (λ h. absurd (
              ground (
                arith,
                length-cells arr1.vt arr1.size arr1.ptr arr1.len m,
                length-cells arr2.vt arr2.size arr2.ptr arr2.len m,
              )))))
    ]

-- The texts of a list with a comma and a space between them.
abbrev pub joined : List (List ℕ) → List ℕ
joined [] = []
joined (x ∷ []) = x
joined (x ∷ y ∷ xs) = x ++ (44 ∷ 32 ∷ joined (y ∷ xs))

repr_loop_lem :
    (repr : Value → List ℕ) (arr : Array) (n p : ℕ) (m : Bytes)
    → p + n * arr.size < 2 ^ 32
    → repr_loop repr arr n p m ≡ joined (map repr (cells arr.vt arr.size p n m))
unfolding repr_loop
repr_loop_lem repr arr zero p m h = refl
repr_loop_lem repr arr (suc zero) p m h = append-nil (repr (arr.vt.get arr.size p m))
repr_loop_lem repr arr (suc (suc n)) p m h =
    let more : ltb 0 (suc n) ≡ true = ground arith in
    rw (below p (suc n) arr.size h) (
      ap (λ t. repr (arr.vt.get arr.size p m) ++ t)
        (rw more
          (ap (λ t. 44 ∷ 32 ∷ t) (repr_loop_lem repr arr (suc n) (p + arr.size) m (grind arith)))))

-- The text of an array is that of its contents, in braces.
pub array_repr_lem :
    {arr : Array} {stored : Value → Option Value} (repr : Value → List ℕ) (m : Bytes)
    → IsArray arr stored
    → array_repr repr arr m ≡ 123 ∷ (joined (map repr (contents arr m)) ++ 125 ∷ [])
unfolding array_repr
array_repr_lem {arr} repr m a =
    ap (λ t. 123 ∷ (t ++ 125 ∷ [])) (repr_loop_lem repr arr arr.len arr.ptr m (used_fits a))

take-cells :
    (vt : ArrayVt) (size p n k : ℕ) (m : Bytes)
    → k ≤ n
    → take k (cells vt size p n m) ≡ cells vt size p k m
take-cells vt size p n zero m h = refl
take-cells vt size p zero (suc k) m h = absurd (omega arith)
take-cells vt size p (suc n) (suc k) m h =
    cons_ap refl (take-cells vt size (p + size) n k m (omega arith))

drop-cells :
    (vt : ArrayVt) (size p n k q : ℕ) (m : Bytes)
    → q ≡ p + k * size
    → k ≤ n
    → drop k (cells vt size p n m) ≡ cells vt size q (n - k) m
drop-cells vt size p n zero q m e h =
    let same : p ≡ q = omega arith in
    let all : n ≡ n - 0 = omega arith in λ i. cells vt size (same i) (all i) m
drop-cells vt size p zero (suc k) q m e h = absurd (omega arith)
drop-cells vt size p (suc n) (suc k) q m e h =
    drop-cells vt size (p + size) n k q m (grind arith) (omega arith)
    ∙ ap (λ j. cells vt size q j m) (omega arith)

get_loop_lem :
    {arr : Array} {stored : Value → Option Value} (n o p : ℕ) (m : Bytes)
    → IsArray arr stored
    → o + n ≤ arr.len
    → p ≡ slot arr o
    → get_loop arr n o (o + n) m ≡ cells arr.vt arr.size p n m
unfolding get_loop
get_loop_lem zero o p m a le e = refl
get_loop_lem {arr} (suc n) o p m a le e =
    let go : signed_lt o (o + suc n) ≡ true = ground (arith, a.used, a.signed) in
    let inside : (not (negative o) && ltb o arr.len) ≡ true = ground (arith, a.used, a.signed) in
    let at : element arr o ≡ p = element_lem o a (omega (arith, a.used)) ∙ sym e in
    let next : (o + 1) % 2 ^ 32 ≡ suc o = omega (arith, a.used, a.signed) in
    let end : o + suc n ≡ suc o + n = omega arith in
    rw (go, inside, at, next, end)
      (cons_ap refl (get_loop_lem n (suc o) (p + arr.size) m a (omega arith) (grind arith)))

-- A slice within the contents, for which the stack has room, is returned in order.
pub get-contents :
    {arr : Array} {stored : Value → Option Value} (room : ℕ → Bool) (off n : ℕ) (m : Bytes)
    → IsArray arr stored
    → 0 < off
    → 0 < n
    → off - 1 + n ≤ arr.len
    → room (n + 1) ≡ true
    → get room arr off (some n) m ≡ some (take n (drop (off - 1) (contents arr m)), n)
unfolding get
get-contents {arr} room off n m a pos count le h =
    let start : check_offset arr off ≡ off - 1 =
      offset_front arr off (omega (arith, a.used, a.signed)) pos
        (omega (arith, a.used, a.signed)) in
    let some_left : (negative n || leb n 0) ≡ false = ground (arith, a.used, a.signed) in
    let end : (off - 1 + n) % 2 ^ 32 ≡ off - 1 + n = omega (arith, a.used, a.signed) in
    rw (some_left, h, start, end)
      (ap (λ vs. some (vs, n))
        (get_loop_lem n (off - 1) (slot arr (off - 1)) m a le refl
          ∙ sym (
              ap (take n)
                (drop-cells arr.vt arr.size arr.ptr arr.len (off - 1) _ m refl (omega arith))
              ∙ take-cells arr.vt arr.size (slot arr (off - 1)) (arr.len - (off - 1)) n m
                  (omega arith))))
