-- ===== src/Array/New/Parse.antt =====
-- The formats that the constructor of arrays in lib/common/mlua.array.c parses.
use micro_lua.Base.{
  ℕ, ◌≤◌, ◌<◌, ◌≡◌, refl, sym, subst, inl, inr, Bool, true, false, ◌&&◌, ◌||◌, Option, none, some,
  List, [], ◌∷◌, ◌==◌, ==_iff, leb, ltb, ◌>>=◌, if◌then◌else◌, arith, Bool-cases,
}
use micro_lua.Value.{Value}
use micro_lua.Int64.{at_end}
use micro_lua.Array.{ArrayVt}
use micro_lua.Array.Codec.{IsVt}
use micro_lua.Array.Format.{
  Coercions, vt_int8, vt_uint8, vt_int16, vt_uint16, vt_int32, vt_uint32, vt_string,
}
use micro_lua.Array.Format.Fixed.{
  vt_int8-IsVt, vt_uint8-IsVt, vt_int16-IsVt, vt_uint16-IsVt, vt_int32-IsVt, vt_uint32-IsVt,
  vt_uint64-IsVt,
}
use micro_lua.Array.Format.Sized.{vt_int-IsVt, vt_uint-IsVt}
use micro_lua.Array.Format.Text.{vt_string-IsVt}
use micro_lua.Array.New.Kind.{
  Kind, signed, unsigned, text, single, double, kind_size, sized_kind, kind_of, kind_stored,
  signed_stored, unsigned_stored,
}
use micro_lua.Array.New.{
  Floats, parse_size, parse_int_size, int_vt, uint_vt, number_vt, string_vt, sized, format,
}

-- A vtable that keeps its contract for a size and what it stores.
abbrev HasVt : (size : ℕ) → Option ArrayVt → (Value → Option Value) → Type 0
HasVt size none stored = true ≡ false
HasVt size (some vt) stored = IsVt vt size stored

HasVt-if :
    (size : ℕ) (b : Bool) (x y : Option ArrayVt) (f g : Value → Option Value)
    → (b ≡ true → HasVt size x f)
    → (b ≡ false → HasVt size y g)
    → HasVt size (if b then x else y) (if b then f else g)
HasVt-if size true x y f g p q = p refl
HasVt-if size false x y f g p q = q refl

at_size :
    (size n : ℕ) {vt : ArrayVt} {stored : Value → Option Value}
    → IsVt vt n stored
    → (size == n) ≡ true
    → HasVt size (some vt) stored
at_size size n {vt} {stored} law e = subst (λ k. IsVt vt k stored) (sym ((==_iff size n).0 e)) law

module _ (co : Coercions) (size : ℕ) (pos : 0 < size) (fits : size ≤ 8) where
  int_vt-HasVt : HasVt size (int_vt co size) (signed_stored co size)
  unfolding int_vt
  int_vt-HasVt =
      let small : leb size 8 ≡ true = ground arith in
      HasVt-if size (size == 1) _ _ _ _ (at_size size 1 (vt_int8-IsVt co)) (λ _.
        HasVt-if size (size == 2) _ _ _ _ (at_size size 2 (vt_int16-IsVt co)) (λ _.
          HasVt-if size (size == 4) _ _ _ _ (at_size size 4 (vt_int32-IsVt co)) (λ _.
            HasVt-if size (size == 8) _ _ _ _ (at_size size 8 vt_uint64-IsVt)
              (λ _. rw small (vt_int-IsVt size pos fits co)))))

  uint_vt-HasVt : HasVt size (uint_vt co size) (unsigned_stored co size)
  unfolding uint_vt
  uint_vt-HasVt =
      let small : leb size 8 ≡ true = ground arith in
      HasVt-if size (size == 1) _ _ _ _ (at_size size 1 (vt_uint8-IsVt co)) (λ _.
        HasVt-if size (size == 2) _ _ _ _ (at_size size 2 (vt_uint16-IsVt co)) (λ _.
          HasVt-if size (size == 4) _ _ _ _ (at_size size 4 (vt_uint32-IsVt co)) (λ _.
            HasVt-if size (size == 8) _ _ _ _ (at_size size 8 vt_uint64-IsVt)
              (λ _. rw small (vt_uint-IsVt size pos fits co)))))

-- The formats of floating-point numbers keep the contract, too.
pub record IsFloats (fl : Floats) (single_stored double_stored : Value → Option Value)
    : Type 0 where
  pub of_float : IsVt fl.vt_float 4 single_stored
  pub of_double : IsVt fl.vt_double 8 double_stored

module _ (co : Coercions) (single_stored double_stored : Value → Option Value) where
  abbrev stores : Kind → Value → Option Value
  stores = kind_stored co single_stored double_stored

  -- A parsed format is that of a kind, when the string ends behind it.
  abbrev pub IsElement : (ends : Bool) → (size : ℕ) → ArrayVt → Option Kind → Type 0
  IsElement false size vt k = k ≡ none
  IsElement true size vt none = true ≡ false
  IsElement true size vt (some k) = (size ≡ kind_size k) × (0 < size) × IsVt vt size (stores k)

  abbrev pub IsFormat : Option (ℕ × Option ArrayVt × List ℕ) → Option Kind → Type 0
  IsFormat none k = k ≡ none
  IsFormat (some (size, none, rest)) k = k ≡ none
  IsFormat (some (size, some vt, rest)) k = IsElement (at_end rest) size vt k

  IsFormat-some :
      (o : Option ArrayVt) (rest : List ℕ) (k : Kind)
      → 0 < kind_size k
      → HasVt (kind_size k) o (stores k)
      → IsFormat (some (kind_size k, o, rest)) (if at_end rest then some k else none)
  IsFormat-some none rest k pos law = absurd (cc law)
  IsFormat-some (some vt) rest k pos law = elim (Bool-cases (at_end rest)) [
    | inl e ↦ rw e (refl, pos, law)
    | inr e ↦ rw e refl
  ]

  IsFormat-if :
      (b : Bool) (x y : Option (ℕ × Option ArrayVt × List ℕ)) (k k' : Option Kind)
      → IsFormat x k
      → IsFormat y k'
      → IsFormat (if b then x else y) (if b then k else k')
  IsFormat-if true x y k k' f g = f
  IsFormat-if false x y k k' f g = g

  IsFormat-or :
      (b c : Bool) (x y : Option (ℕ × Option ArrayVt × List ℕ)) (k k' : Option Kind)
      → IsFormat x k
      → IsFormat (if c then x else y) k'
      → IsFormat (if b || c then x else y) (if b then k else k')
  IsFormat-or true c x y k k' f g = f
  IsFormat-or false c x y k k' f g = g

  IsFormat-or_or :
      (a b c : Bool) (x y : Option (ℕ × Option ArrayVt × List ℕ)) (k k' : Option Kind)
      → IsFormat x k
      → IsFormat (if c then x else y) k'
      → IsFormat (if a || b || c then x else y) (if a then k else if b then k else k')
  IsFormat-or_or true b c x y k k' f g = f
  IsFormat-or_or false true c x y k k' f g = f
  IsFormat-or_or false false c x y k k' f g = g

  sized-IsFormat :
      (vt : ℕ → Option ArrayVt) (kind : ℕ → Kind)
      → ((n : ℕ) → kind_size (kind n) ≡ n)
      → ((n : ℕ) → 0 < n → n ≤ 8 → HasVt n (vt n) (stores (kind n)))
      → (cs : List ℕ)
      → IsFormat (parse_int_size cs 4 >>= (λ r. some (sized vt r))) (
          sized_kind kind
            (ltb 0 (parse_size cs 4).0 && leb (parse_size cs 4).0 8)
            (parse_size cs 4))
  unfolding parse_int_size
  sized-IsFormat vt kind same law cs =
      let r = parse_size cs 4 in
      elim (Bool-cases (ltb 0 r.0 && leb r.0 8)) [
        | inl e ↦ rw e (
            subst
              (λ n. IsFormat (some (n, vt r.0, r.1)) (if at_end r.1 then some (kind r.0) else none))
              (same r.0)
              (IsFormat-some (vt r.0) r.1 (kind r.0) (rw (same r.0) (ground arith))
                (rw (same r.0) (law r.0 (ground arith) (ground arith)))))
        | inr e ↦ rw e refl
      ]

  text-IsFormat :
      (r : ℕ × List ℕ) → IsFormat (some (string_vt co r)) (sized_kind text (ltb 0 r.0) r)
  text-IsFormat (n, rest) = elim (Bool-cases (ltb 0 n)) [
    | inl e ↦
        rw e
          (IsFormat-some (some (vt_string co)) rest (text n) (ground arith) (vt_string-IsVt co n))
    | inr e ↦ rw e refl
  ]

  module _ (fl : Floats) (floats : IsFloats fl single_stored double_stored) where
    pub format-IsFormat : (fmt : List ℕ) → IsFormat (format co fl fmt) (kind_of fmt)
    unfolding format number_vt int_vt uint_vt
    format-IsFormat [] = refl
    format-IsFormat (c ∷ cs) =
        let int1 =
          IsFormat-some (some (vt_int8 co)) cs (signed 1) (omega arith) (vt_int8-IsVt co) in
        let uint1 =
          IsFormat-some (some (vt_uint8 co)) cs (unsigned 1) (omega arith) (vt_uint8-IsVt co) in
        let int2 =
          IsFormat-some (some (vt_int16 co)) cs (signed 2) (omega arith) (vt_int16-IsVt co) in
        let uint2 =
          IsFormat-some (some (vt_uint16 co)) cs (unsigned 2) (omega arith) (vt_uint16-IsVt co) in
        let int4 =
          IsFormat-some (some (vt_int32 co)) cs (signed 4) (omega arith) (vt_int32-IsVt co) in
        let uint4 =
          IsFormat-some (some (vt_uint32 co)) cs (unsigned 4) (omega arith) (vt_uint32-IsVt co) in
        let float4 = IsFormat-some (some fl.vt_float) cs single (omega arith) floats.of_float in
        let float8 = IsFormat-some (some fl.vt_double) cs double (omega arith) floats.of_double in
        let ints = sized-IsFormat (int_vt co) signed (λ n. refl) (int_vt-HasVt co) cs in
        let uints = sized-IsFormat (uint_vt co) unsigned (λ n. refl) (uint_vt-HasVt co) cs in
        IsFormat-if (c == 98) _ _ _ _ int1 (
          IsFormat-if (c == 66) _ _ _ _ uint1 (
            IsFormat-if (c == 104) _ _ _ _ int2 (
              IsFormat-if (c == 72) _ _ _ _ uint2 (
                IsFormat-if (c == 105) _ _ _ _ ints (
                  IsFormat-if (c == 73) _ _ _ _ uints (
                    IsFormat-or (c == 108) (c == 106) _ _ _ _ int4 (
                      IsFormat-if (c == 106) _ _ _ _ int4 (
                        IsFormat-or_or (c == 76) (c == 74) (c == 84) _ _ _ _ uint4 (
                          IsFormat-if (c == 84) _ _ _ _ uint4 (
                            IsFormat-if (c == 102) _ _ _ _ float4 (
                              IsFormat-if (c == 100) _ _ _ _ float8 (
                                IsFormat-if (c == 110) _ _ _ _ float4 (
                                  IsFormat-if (c == 99) _ _ _ _ (text-IsFormat (parse_size cs 0))
                                    refl)))))))))))))
