-- ===== src/Int64/Division.antt =====
-- Division with rounding down, and its remainder, in lib/common/mlua.int64.c.
use native.Mathlib.Nat.{div-eq_of_lt-le, mod-add-div, mod-lt, div-le_self}
use micro_lua.Base.{
  ℕ, ◌+◌, ◌-◌, ◌*◌, ◌/◌, ◌%◌, ◌^◌, ◌≤◌, ◌<◌, ◌≡◌, refl, ap, ◌∙◌, inl, inr, Bool, true, false, not,
  ◌&&◌, some, arith, ◌==◌, leb, if◌then◌else◌, Bool-cases,
}
use micro_lua.Int64.{negative, magnitude, signs_differ, quotient, remainder, unm, idiv, mod_of}

-- The pattern of a number with a sign.
abbrev pub signed : (minus : Bool) (a : ℕ) → ℕ
signed minus a = if minus then (2 ^ 64 - a) % 2 ^ 64 else a

-- The quotient rounded up.
abbrev pub ceiling : ℕ → ℕ → ℕ
ceiling a b = (a + b - 1) / b

ceiling_lem : (a b : ℕ) → 0 < b → ceiling a b ≡ (if a % b == 0 then a / b else a / b + 1)
ceiling_lem a b pos = elim (Bool-cases (a % b == 0)) [
  | inl e ↦ rw e (
      div-eq_of_lt-le b (grind (arith, mod-add-div a b, mod-lt a pos))
        (grind (arith, mod-add-div a b, mod-lt a pos)))
  | inr e ↦ rw e (
      div-eq_of_lt-le b (grind (arith, mod-add-div a b, mod-lt a pos))
        (grind (arith, mod-add-div a b, mod-lt a pos)))
]

-- A number that an int64 of this sign has.
abbrev pub Fits : (minus : Bool) (a : ℕ) → Type 0
Fits true a = (0 < a) × (a ≤ 2 ^ 63)
Fits false a = a < 2 ^ 63

negative-signed : (s : Bool) (a : ℕ) → Fits s a → negative (signed s a) ≡ s
negative-signed true a h = ground (arith, h.0, h.1)
negative-signed false a h = ground arith

magnitude-signed : (s : Bool) (a : ℕ) → Fits s a → magnitude (signed s a) ≡ a
unfolding magnitude
magnitude-signed true a h = rw (negative-signed true a h) (omega (arith, h.0, h.1))
magnitude-signed false a h = rw (negative-signed false a h) refl

abbrev pub same : Bool → Bool → Bool
same true t = t
same false t = not t

module _ (s t : Bool) (a b : ℕ) (ha : Fits s a) (hb : Fits t b) (pos : 0 < b) where
  differ_lem : signs_differ (signed s a) (signed t b) ≡ not (same s t)
  unfolding signs_differ
  differ_lem = rw (negative-signed s a ha, negative-signed t b hb) (by_signs s t)
    where
      by_signs : (s t : Bool) → (if s then not t else t) ≡ not (same s t)
      by_signs true t = refl
      by_signs false true = refl
      by_signs false false = refl

  quotient_lem : quotient (signed s a) (signed t b) ≡ signed (not (same s t)) (a / b)
  unfolding quotient
  quotient_lem = rw (magnitude-signed s a ha, magnitude-signed t b hb, differ_lem) refl

  remainder_lem : remainder (signed s a) (signed t b) ≡ signed s (a % b)
  unfolding remainder
  remainder_lem = rw (magnitude-signed s a ha, magnitude-signed t b hb, negative-signed s a ha) refl

quotient_small : (a b : ℕ) → a / b ≤ a
quotient_small a b = div-le_self a b

-- The quotient and the remainder of C before they are corrected, for a divisor but 0 and -1.
idiv_other :
    (s t : Bool) (a b : ℕ)
    → Fits s a
    → Fits t b
    → 0 < b
    → leb ((signed t b + 1) % 2 ^ 64) 1 ≡ false
    → idiv (signed s a) (signed t b) ≡ (
        if not (same s t) && not (signed s (a % b) == 0)
        then some ((signed (not (same s t)) (a / b) + 2 ^ 64 - 1) % 2 ^ 64)
        else some (signed (not (same s t)) (a / b)))
unfolding idiv
idiv_other s t a b ha hb pos e =
    rw
      (
        e,
        differ_lem s t a b ha hb pos,
        quotient_lem s t a b ha hb pos,
        remainder_lem s t a b ha hb pos,
      )
      refl

mod_other :
    (s t : Bool) (a b : ℕ)
    → Fits s a
    → Fits t b
    → 0 < b
    → leb ((signed t b + 1) % 2 ^ 64) 1 ≡ false
    → mod_of (signed s a) (signed t b) ≡ (
        if not (signed s (a % b) == 0) && not (same s t)
        then some ((signed s (a % b) + signed t b) % 2 ^ 64)
        else some (signed s (a % b)))
unfolding mod_of
mod_other s t a b ha hb pos e =
    rw (e, differ_lem s t a b ha hb pos, remainder_lem s t a b ha hb pos) refl

-- The results, with the quotient rounded down and the remainder to go with it.
abbrev pub floor_quotient : (s t : Bool) (a b : ℕ) → ℕ
floor_quotient s t a b = if same s t then a / b else signed true (ceiling a b)

abbrev pub floor_remainder : (s t : Bool) (a b : ℕ) → ℕ
floor_remainder s t a b = if same s t then signed s (a % b) else signed t (ceiling a b * b - a)

rest_lem : (a b : ℕ) → 0 < b → (a % b == 0) ≡ false → ceiling a b * b - a ≡ b - a % b
rest_lem a b pos e = rw (ceiling_lem a b pos, e) (grind (arith, mod-add-div a b, mod-lt a pos))

whole_lem : (a b : ℕ) → 0 < b → (a % b == 0) ≡ true → ceiling a b * b - a ≡ 0
whole_lem a b pos e = rw (ceiling_lem a b pos, e) (grind (arith, mod-add-div a b, mod-lt a pos))

-- The corrections, with quotient, remainder and the results as variables.
correct_quotient :
    (s : Bool) (q r c : ℕ)
    → q ≤ 2 ^ 63
    → r ≤ 2 ^ 63
    → c ≡ (if r == 0 then q else q + 1)
    → (if true && not (signed s r == 0)
        then some ((signed true q + 2 ^ 64 - 1) % 2 ^ 64)
        else some (signed true q))
      ≡ some (signed true c)
correct_quotient true q r c h h' e = ground arith
correct_quotient false q r c h h' e = ground arith

correct_remainder :
    (s : Bool) (r b x : ℕ)
    → r < b
    → b ≤ 2 ^ 63
    → x ≡ (if r == 0 then 0 else b - r)
    → (if not (signed s r == 0) && true
        then some ((signed s r + signed (not s) b) % 2 ^ 64)
        else some (signed s r))
      ≡ some (signed (not s) x)
correct_remainder true r b x h h' e = ground arith
correct_remainder false r b x h h' e = ground arith

down_lem : (a b : ℕ) → 0 < b → ceiling a b * b - a ≡ (if a % b == 0 then 0 else b - a % b)
down_lem a b pos = elim (Bool-cases (a % b == 0)) [
  | inl e ↦ rw e (whole_lem a b pos e)
  | inr e ↦ rw e (rest_lem a b pos e)
]

Fits-le : (s : Bool) (a : ℕ) → Fits s a → a ≤ 2 ^ 63
Fits-le true a h = h.1
Fits-le false a h = omega arith

-- Divisors but -1.
module _ (s t : Bool) (a b : ℕ) (ha : Fits s a) (hb : Fits t b) (pos : 0 < b)
    (e : leb ((signed t b + 1) % 2 ^ 64) 1 ≡ false) where
  same_signs :
      same s t ≡ true
      → (idiv (signed s a) (signed t b) ≡ some (floor_quotient s t a b))
        × (mod_of (signed s a) (signed t b) ≡ some (floor_remainder s t a b))
  same_signs k = (
    idiv_other s t a b ha hb pos e ∙ rw k refl,
    mod_other s t a b ha hb pos e
        ∙ rw k (elim (Bool-cases (not (signed s (a % b) == 0))) [
          | inl z ↦ rw z refl
          | inr z ↦ rw z refl
        ]),
  )

  quotient_rounded :
      same s t ≡ false → idiv (signed s a) (signed t b) ≡ some (floor_quotient s t a b)
  quotient_rounded k =
      idiv_other s t a b ha hb pos e
      ∙ rw k (
          correct_quotient s (a / b) (a % b) (ceiling a b)
            (omega (arith, quotient_small a b, Fits-le s a ha))
            (omega (arith, mod-lt a pos, Fits-le t b hb)) (ceiling_lem a b pos))

  remainder_rounded :
      same s t ≡ false
      → t ≡ not s
      → mod_of (signed s a) (signed t b) ≡ some (floor_remainder s t a b)
  remainder_rounded k n =
      mod_other s t a b ha hb pos e
      ∙ rw (k, n)
          (correct_remainder s (a % b) b (ceiling a b * b - a) (mod-lt a pos) (Fits-le t b hb)
            (down_lem a b pos))

idiv_any :
    (s t : Bool) (a b : ℕ)
    → Fits s a
    → Fits t b
    → 0 < b
    → leb ((signed t b + 1) % 2 ^ 64) 1 ≡ false
    → (idiv (signed s a) (signed t b) ≡ some (floor_quotient s t a b))
      × (mod_of (signed s a) (signed t b) ≡ some (floor_remainder s t a b))
idiv_any true true a b ha hb pos e = same_signs true true a b ha hb pos e refl
idiv_any false false a b ha hb pos e = same_signs false false a b ha hb pos e refl
idiv_any true false a b ha hb pos e = (
  quotient_rounded true false a b ha hb pos e refl,
  remainder_rounded true false a b ha hb pos e refl refl,
)
idiv_any false true a b ha hb pos e = (
  quotient_rounded false true a b ha hb pos e refl,
  remainder_rounded false true a b ha hb pos e refl refl,
)

-- The divisor -1.
idiv_minus_one :
    (s : Bool) (a : ℕ)
    → Fits s a
    → (idiv (signed s a) (signed true 1) ≡ some (floor_quotient s true a 1))
      × (mod_of (signed s a) (signed true 1) ≡ some (floor_remainder s true a 1))
unfolding idiv mod_of unm
idiv_minus_one true a h = (ap some (omega (arith, h.0, h.1)), ap some (omega arith))
idiv_minus_one false a h = (ap some (omega arith), ap some (omega arith))

-- For an int64 and a divisor that is not 0, given by sign and magnitude, `__idiv` is the quotient
-- rounded down and `__mod` the remainder that goes with it, which has the sign of the divisor; the
-- quotient of the least int64 and -1 wraps.
pub idiv_lem :
    (s t : Bool) (a b : ℕ)
    → Fits s a
    → Fits t b
    → 0 < b
    → (idiv (signed s a) (signed t b) ≡ some (floor_quotient s t a b))
      × (mod_of (signed s a) (signed t b) ≡ some (floor_remainder s t a b))
idiv_lem s false a b ha hb pos = idiv_any s false a b ha hb pos (ground arith)
idiv_lem s true a b ha hb pos = elim (Bool-cases (b == 1)) [
  | inl e ↦ (let one : b ≡ 1 = ground arith in rw one (idiv_minus_one s a ha))
  | inr e ↦ idiv_any s true a b ha hb pos (ground (arith, hb.0, hb.1))
]
