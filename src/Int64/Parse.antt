-- ===== src/Int64/Parse.antt =====
-- `mlua_string_to_int64` of lib/common/mlua.int64.c reads the numbers that are written.
use micro_lua.Base.{
  ℕ, zero, suc, ◌+◌, ◌-◌, ◌*◌, ◌/◌, ◌%◌, ◌^◌, ◌≤◌, ◌<◌, ◌≡◌, refl, sym, ◌∙◌, ap, Bool, true, false,
  none, some, List, [], ◌∷◌, ◌++◌, arith, ◌==◌, leb, ltb, if◌then◌else◌, ◌>>=◌,
}
use native.Mathlib.Nat.{add-mul-mod_self_left}
use micro_lua.Int64.{
  is_space, is_alnum, digit_of, skip_space, digits, base_of, at_end, starts_alnum, finish,
  parse_digits, parse_number, parse_sign, string_to_int64,
}

-- A digit as it is printed.
abbrev pub char_of : ℕ → ℕ
char_of d = if ltb d 10 then 48 + d else 87 + d

abbrev pub text_of : List ℕ → List ℕ
text_of [] = []
text_of (d ∷ ds) = char_of d ∷ text_of ds

-- The number that digits stand for, from the highest, behind `v`.
abbrev pub number : (base v : ℕ) → List ℕ → ℕ
number base v [] = v
number base v (d ∷ ds) = number base (v * base + d) ds

abbrev pub AllBelow : ℕ → List ℕ → Type 0
AllBelow base [] = Unit
AllBelow base (d ∷ ds) = (d < base) × AllBelow base ds

abbrev pub AllSpace : List ℕ → Type 0
AllSpace [] = Unit
AllSpace (c ∷ cs) = (is_space c ≡ true) × AllSpace cs

char_of-is_alnum : (d : ℕ) → d < 36 → is_alnum (char_of d) ≡ true
char_of-is_alnum d h = ground arith

digit_of-char_of : (d : ℕ) → d < 36 → digit_of (char_of d) ≡ d
unfolding digit_of
digit_of-char_of d h = ground arith

split_word :
    (q r v base d : ℕ) → v ≡ 2 ^ 64 * q + r → v * base + d ≡ r * base + d + 2 ^ 64 * (q * base)
split_word q r v base d e = rw e (grind arith)

wrap_step : (v base d : ℕ) → (v % 2 ^ 64 * base + d) % 2 ^ 64 ≡ (v * base + d) % 2 ^ 64
wrap_step v base d = sym (
    ap (λ n. n % 2 ^ 64) (split_word (v / 2 ^ 64) (v % 2 ^ 64) v base d (omega arith))
    ∙ add-mul-mod_self_left (v % 2 ^ 64 * base + d) (2 ^ 64) (v / 2 ^ 64 * base))

digits_lem :
    (base v : ℕ) (ds rest : List ℕ)
    → base ≤ 36
    → AllBelow base ds
    → starts_alnum rest ≡ false
    → digits base (v % 2 ^ 64) (text_of ds ++ rest) ≡ some (number base v ds % 2 ^ 64, rest)
unfolding digits starts_alnum
digits_lem base v [] [] h below stop = refl
digits_lem base v [] (c ∷ cs) h below stop = rw stop refl
digits_lem base v (d ∷ ds) rest h below stop =
    let valid : leb base d ≡ false = ground (arith, below.0) in
    rw
      (
        char_of-is_alnum d (omega (arith, below.0)),
        digit_of-char_of d (omega (arith, below.0)),
        valid,
        wrap_step v base d,
      )
      (digits_lem base (v * base + d) ds rest h below.1 stop)

skip_space_all : (cs : List ℕ) → AllSpace cs → skip_space cs ≡ []
unfolding skip_space
skip_space_all [] h = refl
skip_space_all (c ∷ cs) h = rw h.0 (skip_space_all cs h.1)

skip_space_lem :
    (before : List ℕ) (c : ℕ) (cs : List ℕ)
    → AllSpace before
    → is_space c ≡ false
    → skip_space (before ++ c ∷ cs) ≡ c ∷ cs
unfolding skip_space
skip_space_lem [] c cs h e = rw e refl
skip_space_lem (b ∷ before) c cs h e = rw h.0 (skip_space_lem before c cs h.1 e)

space_not_alnum : (cs : List ℕ) → AllSpace cs → starts_alnum cs ≡ false
unfolding starts_alnum
space_not_alnum [] h = refl
space_not_alnum (c ∷ cs) h = ground (arith, h.0)

abbrev signed : Bool → ℕ → ℕ
signed neg v = if neg then (2 ^ 64 - v) % 2 ^ 64 else v

module _ (b d : ℕ) (ds after : List ℕ) (neg : Bool) (h : suc b ≤ 36)
    (below : AllBelow (suc b) (d ∷ ds)) (spaces : AllSpace after) where
  starts : starts_alnum (text_of (d ∷ ds) ++ after) ≡ true
  unfolding starts_alnum
  starts = char_of-is_alnum d (omega (arith, below.0))

  read :
      digits (suc b) 0 (text_of (d ∷ ds) ++ after)
      ≡ some (number (suc b) 0 (d ∷ ds) % 2 ^ 64, after)
  read = digits_lem (suc b) 0 (d ∷ ds) after h below (space_not_alnum after spaces)

  finished :
      finish neg (number (suc b) 0 (d ∷ ds) % 2 ^ 64, after)
      ≡ some (signed neg (number (suc b) 0 (d ∷ ds) % 2 ^ 64))
  unfolding finish at_end
  finished = rw (skip_space_all after spaces) refl

  parse_number_lem :
      parse_number (suc b) neg (text_of (d ∷ ds) ++ after)
      ≡ some (signed neg (number (suc b) 0 (d ∷ ds) % 2 ^ 64))
  unfolding parse_number base_of parse_digits
  parse_number_lem =
      ap (λ o. if o then (digits (suc b) 0 (text_of (d ∷ ds) ++ after) >>= finish neg) else none)
        starts
      ∙ ap (λ o. o >>= finish neg) read
      ∙ finished

parse_minus : (base : ℕ) (cs : List ℕ) → parse_sign base (45 ∷ cs) ≡ parse_number base true cs
unfolding parse_sign
parse_minus base cs = refl

parse_unsigned :
    (base c : ℕ) (cs : List ℕ)
    → (c == 45) ≡ false
    → (c == 43) ≡ false
    → parse_sign base (c ∷ cs) ≡ parse_number base false (c ∷ cs)
unfolding parse_sign
parse_unsigned base c cs e e' = rw (e, e') refl

-- A number that is written with digits and lower case letters of a base from 2 to 36, with white
-- space before and behind, is read as its low 64 bits, and with a minus sign before it as those of
-- its negation.
pub string_to_int64_lem :
    (base d : ℕ) (ds before after : List ℕ)
    → 2 ≤ base
    → base ≤ 36
    → AllBelow base (d ∷ ds)
    → AllSpace before
    → AllSpace after
    → (string_to_int64 base (before ++ (text_of (d ∷ ds) ++ after))
        ≡ some (number base 0 (d ∷ ds) % 2 ^ 64))
      × (string_to_int64 base (before ++ (45 ∷ (text_of (d ∷ ds) ++ after)))
          ≡ some ((2 ^ 64 - number base 0 (d ∷ ds) % 2 ^ 64) % 2 ^ 64))
unfolding string_to_int64
string_to_int64_lem zero d ds before after low h below spaces spaces' = absurd (omega arith)
string_to_int64_lem (suc b) d ds before after low h below spaces spaces' =
    let small : d < 36 = omega (arith, below.0) in
    let not_space : is_space (char_of d) ≡ false = ground arith in
    (
      ap (parse_sign (suc b))
            (skip_space_lem before (char_of d) (text_of ds ++ after) spaces not_space)
          ∙ parse_unsigned (suc b) (char_of d) (text_of ds ++ after) (ground arith) (ground arith)
          ∙ parse_number_lem b d ds after false h below spaces',
      ap (parse_sign (suc b)) (skip_space_lem before 45 (text_of (d ∷ ds) ++ after) spaces refl)
          ∙ parse_minus (suc b) (text_of (d ∷ ds) ++ after)
          ∙ parse_number_lem b d ds after true h below spaces',
    )
