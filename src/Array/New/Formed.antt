-- ===== src/Array/New/Formed.antt =====
-- What the constructor of arrays in lib/common/mlua.array.c makes.
use native.Mathlib.Nat.{mod-eq_of_lt, mod-lt, mul-le-mul_right, mul-div-le, div-add-mod'}
use micro_lua.Base.{
  ℕ, ◌+◌, ◌-◌, ◌*◌, ◌/◌, ◌%◌, ◌^◌, ◌≤◌, ◌<◌, ◌≡◌, refl, sym, subst, ◌⊎◌, inl, inr, Bool, true,
  false, not, ◌&&◌, Option, none, some, List, leb, ltb, arith, Bool-cases,
}
use micro_lua.Value.{Value}
use micro_lua.Memory.{Outcome, returns, bad_argument, opt}
use micro_lua.Int64.{at_end}
use micro_lua.Array.{Array, ArrayVt, negative}
use micro_lua.Array.Codec.{IsVt}
use micro_lua.Array.Elements.{IsArray}
use micro_lua.Array.Format.{Coercions}
use micro_lua.Array.New.Kind.{Kind, kind_size, kind_of, kind_stored}
use micro_lua.Array.New.{Floats, format, new_checked, new_array, new_format, new, block_size}
use micro_lua.Array.New.Parse.{IsElement, IsFormat, IsFloats, format-IsFormat}

-- The result for a length, a capacity and what the format stands for.
abbrev pub NewResult :
    (stores : Kind → Value → Option Value) (len cap : ℕ) → Option Kind → Outcome Array → Type 0
NewResult stores len cap none o = o ≡ bad_argument 1
NewResult stores len cap (some k) o =
    ((2 ^ 31 ≤ cap ⊎ 2 ^ 32 ≤ cap * kind_size k) × (o ≡ bad_argument 3))
    ⊎ (cap < 2 ^ 31)
      × (cap * kind_size k < 2 ^ 32)
      × (((cap < len) × (o ≡ bad_argument 2))
          ⊎ (len ≤ cap)
            × ((arr : Array) × (o ≡ returns arr)
                × (arr.len ≡ len)
                × (arr.cap ≡ cap)
                × (arr.size ≡ kind_size k)
                × IsVt arr.vt (kind_size k) (stores k)
                × (2 ^ 32 ≤ 24 + cap * kind_size k ⊎ IsArray arr (stores k))))

-- The check of the capacity is one of the elements' bytes.
fits_size : (cap size : ℕ) → cap ≤ (2 ^ 32 - 1) / size → cap * size < 2 ^ 32
fits_size cap size fits = grind (arith, mul-le-mul_right size fits, mul-div-le (2 ^ 32 - 1) size)

beyond_size : (cap size : ℕ) → 0 < size → (2 ^ 32 - 1) / size < cap → 2 ^ 32 ≤ cap * size
beyond_size cap size pos over =
    let q = (2 ^ 32 - 1) / size in
    let parts : q * size + (2 ^ 32 - 1) % size ≡ 2 ^ 32 - 1 = div-add-mod' (2 ^ 32 - 1) size in
    let short : (2 ^ 32 - 1) % size < size = mod-lt (2 ^ 32 - 1) pos in
    let more : (q + 1) * size ≤ cap * size = mul-le-mul_right size (omega (arith, over)) in
    grind (arith, parts, short, more)

refused_cap :
    (cap size : ℕ)
    → 0 < size
    → (not (negative cap) && leb cap ((2 ^ 32 - 1) / size)) ≡ false
    → 2 ^ 31 ≤ cap ⊎ 2 ^ 32 ≤ cap * size
refused_cap cap size pos e = elim (Bool-cases (negative cap)) [
  | inl f ↦ inl (ground arith)
  | inr f ↦ inr (beyond_size cap size pos (ground arith))
]

module _ (alloc : ℕ → ℕ) (mapped : (n : ℕ) → n < 2 ^ 32 → alloc n + n < 2 ^ 32) (len cap : ℕ) where
  block_fits :
      (size : ℕ)
      → 24 + cap * size < 2 ^ 32
      → (alloc (block_size cap size) + 24) % 2 ^ 32 + cap * size < 2 ^ 32
  block_fits size small =
      let whole : block_size cap size ≡ 24 + cap * size = mod-eq_of_lt small in
      let room = mapped (block_size cap size) (subst (λ b. b < 2 ^ 32) (sym whole) small) in
      omega (arith, whole, room)

  made-IsArray :
      (size : ℕ) (vt : ArrayVt) (stored : Value → Option Value)
      → 0 < size
      → IsVt vt size stored
      → len ≤ cap
      → cap < 2 ^ 31
      → 2 ^ 32 ≤ 24 + cap * size ⊎ IsArray (new_array alloc len cap vt size) stored
  made-IsArray size vt stored pos law le small =
      elim (Bool-cases (ltb (24 + cap * size) (2 ^ 32))) [
        | inl e ↦ inr (record {
          vt = law;
          pos = pos;
          used = le;
          signed = small;
          fits = block_fits size (ground arith);
        })
        | inr e ↦ inl (ground arith)
      ]

  module _ (stores : Kind → Value → Option Value) where
    new_checked_lem :
        (vt : ArrayVt) (k : Kind)
        → 0 < kind_size k
        → IsVt vt (kind_size k) (stores k)
        → NewResult stores len cap (some k) (new_checked alloc len cap vt (kind_size k))
    unfolding new_checked
    new_checked_lem vt k pos law =
        let size = kind_size k in
        elim (Bool-cases (not (negative cap) && leb cap ((2 ^ 32 - 1) / size))) [
          | inl e ↦ rw e (
              let small : cap < 2 ^ 31 = ground arith in
              inr (
                small,
                fits_size cap size (ground arith),
                elim (Bool-cases (not (negative len) && leb len cap)) [
                  | inl f ↦ rw f (
                      let le : len ≤ cap = ground arith in
                      inr (
                        le,
                        (
                          new_array alloc len cap vt size,
                          refl,
                          refl,
                          refl,
                          refl,
                          law,
                          made-IsArray size vt (stores k) pos law le small,
                        ),
                      ))
                  | inr f ↦ rw f (inl (ground arith, refl))
                ],
              ))
          | inr e ↦ rw e (inl (refused_cap cap size pos (ground arith), refl))
        ]

  module _ (co : Coercions) (single_stored double_stored : Value → Option Value) where
    sized_lem :
        (size : ℕ) (vt : ArrayVt) (k : Option Kind)
        → IsElement co single_stored double_stored true size vt k
        → NewResult
            (kind_stored co single_stored double_stored)
            len
            cap
            k
            (new_checked alloc len cap vt size)
    sized_lem size vt none h = absurd (cc h)
    sized_lem size vt (some k) (same, pos, law) =
        let stores = kind_stored co single_stored double_stored in
        let size_law = subst (λ n. IsVt vt n (stores k)) same law in
        rw same (new_checked_lem stores vt k (omega (arith, pos, same)) size_law)

    new_format_lem :
        (o : Option (ℕ × Option ArrayVt × List ℕ)) (k : Option Kind)
        → IsFormat co single_stored double_stored o k
        → NewResult
            (kind_stored co single_stored double_stored)
            len
            cap
            k
            (new_format alloc len cap o)
    new_format_lem none k h = rw h refl
    new_format_lem (some (size, none, rest)) k h = rw h refl
    new_format_lem (some (size, some vt, rest)) k h =
        let at : (b : Bool) → Type 0 = λ b. IsElement co single_stored double_stored b size vt k in
        elim (Bool-cases (at_end rest)) [
          | inl e ↦ rw e (sized_lem size vt k (subst at e h))
          | inr e ↦ rw e (rw (subst at e h) refl)
        ]

-- What the constructor does for any format, length and capacity. A format that stands for no kind of
-- element raises an error about the first argument, a capacity or a number of bytes out of range one about
-- the third, and a length above the capacity one about the second. Otherwise an array is made with this length
-- and capacity, with the size of the kind and with a vtable that keeps what the kind stores. The array is
-- well-formed unless its elements and its header take 2 ^ 32 bytes or more. An allocated block is taken to
-- lie in the address space, and the formats of floating-point numbers to keep the contract of a format.
pub new-IsArray :
    (co : Coercions) (fl : Floats) (single_stored double_stored : Value → Option Value)
    (alloc : ℕ → ℕ) (fmt : List ℕ) (len : ℕ) (cap : Option ℕ)
    → IsFloats fl single_stored double_stored
    → ((n : ℕ) → n < 2 ^ 32 → alloc n + n < 2 ^ 32)
    → NewResult
        (kind_stored co single_stored double_stored)
        len
        (opt cap len)
        (kind_of fmt)
        (new co fl alloc fmt len cap)
unfolding new
new-IsArray co fl single_stored double_stored alloc fmt len cap floats mapped =
    new_format_lem alloc mapped len (opt cap len) co single_stored double_stored (format co fl fmt)
      (kind_of fmt) (format-IsFormat co single_stored double_stored fl floats fmt)
