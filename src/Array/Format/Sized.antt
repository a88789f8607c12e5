-- ===== src/Array/Format/Sized.antt =====
-- The formats of integers of any size up to 8 bytes, in lib/common/mlua.array.c.
use native.Mathlib.Nat.{
  pow-succ', div-eq_of_lt, div-eq-sub-div, add-mod_right, mod-eq_of_lt, pow-le-pow_right,
}
use micro_lua.Base.{
  ℕ, zero, suc, ◌+◌, ◌-◌, ◌*◌, ◌/◌, ◌%◌, ◌^◌, ◌≤◌, ◌<◌, ◌≡◌, refl, ap, ◌∙◌, subst, Option, none,
  some, true, false, inl, inr, arith, ◌>>=◌, ltb, leb, if◌then◌else◌, Bool-cases,
}
use micro_lua.Value.{Value, integer, int64}
use micro_lua.Int64.{check_int64}
use micro_lua.Memory.{Bytes, store}
use micro_lua.Array.{ArrayVt, memory}
use micro_lua.Array.Codec.{IsVt, SetResult, Beside}
use micro_lua.Array.Format.{
  Coercions, check_integer, vt_int, vt_uint, store_checked, small_first, set_uint, get_int,
  get_uint, extend_sign, word, bytes_of,
}
use micro_lua.Array.Format.Word.{word-store, store_small, read_uint-word, read_uint_local, word-lt}
use micro_lua.Array.Format.Fixed.{store-Beside, store_checked-Beside}

-- The number of `bits` bits that extends the sign of a word with the top bit `mask`.
abbrev pub signed : (bits mask w : ℕ) → ℕ
signed bits mask w = if ltb w mask then w else w + 2 ^ bits - 2 * mask

extend_sign_lem :
    (bits mask w : ℕ)
    → w < 2 * mask
    → 2 * mask ≤ 2 ^ bits
    → extend_sign bits w mask ≡ signed bits mask w
extend_sign_lem bits mask w small fits = elim (Bool-cases (ltb w mask)) [
  | inl e ↦
      rw (e, div-eq_of_lt {n = w} {m = mask} (ground arith))
        (ap (λ n. n % 2 ^ bits) (omega arith)
          ∙ add-mod_right w (2 ^ bits)
          ∙ mod-eq_of_lt (ground arith))
  | inr e ↦ rw (e, quotient e) (mod-eq_of_lt (ground arith) ∙ ground arith)
]
  where
    quotient : ltb w mask ≡ false → w / mask ≡ 1
    quotient e =
        div-eq-sub-div (ground arith) (ground arith) ∙ ap (λ q. q + 1) (div-eq_of_lt (ground arith))

-- The range of a word of `size` bytes.
pow_eight : (e : ℕ) → 2 ^ suc (suc (suc (suc (suc (suc (suc (suc e))))))) ≡ 256 * 2 ^ e
pow_eight e = omega (
  arith,
  pow-succ' 2 e,
  pow-succ' 2 (suc e),
  pow-succ' 2 (suc (suc e)),
  pow-succ' 2 (suc (suc (suc e))),
  pow-succ' 2 (suc (suc (suc (suc e)))),
  pow-succ' 2 (suc (suc (suc (suc (suc e))))),
  pow-succ' 2 (suc (suc (suc (suc (suc (suc e)))))),
  pow-succ' 2 (suc (suc (suc (suc (suc (suc (suc e))))))),
)

pow-double : (size : ℕ) → 0 < size → 256 ^ size ≡ 2 * 2 ^ (size * 8 - 1)
pow-double zero pos = absurd (omega arith)
pow-double (suc zero) pos = refl
pow-double (suc (suc n)) pos =
    let next : 2 ^ (suc (suc n) * 8 - 1) ≡ 256 * 2 ^ (suc n * 8 - 1) =
      ap (λ e. 2 ^ e) (omega arith) ∙ pow_eight (suc n * 8 - 1) in
    omega (arith, pow-succ' 256 (suc n), pow-double (suc n) (omega arith), next)

-- What the getters make of a word.
abbrev pub int_value : (size w : ℕ) → Value
int_value size w =
    if leb size 4
    then integer (signed 32 (2 ^ (size * 8 - 1)) w)
    else int64 (signed 64 (2 ^ (size * 8 - 1)) w)

abbrev pub uint_value : (size w : ℕ) → Value
uint_value size w = if leb size 4 then integer w else int64 w

-- The number that `set_uint` stores.
abbrev pub number : Coercions → (size : ℕ) → Value → Option ℕ
number co size v =
    if leb size 4 then (check_integer co v >>= (λ n. check_int64 v)) else check_int64 v

abbrev pub sized_stored : Coercions → (size : ℕ) → (push : ℕ → Value) → Value → Option Value
sized_stored co size push v = number co size v >>= (λ n. some (push (n % 256 ^ size)))

abbrev Small : Bytes → (p size : ℕ) → Type 0
Small m p size = (i : ℕ) → i < size → m (p + i) < 256

module _ (co : Coercions) (size : ℕ) (get : (size ptr : ℕ) → Bytes → Value) (push : ℕ → Value)
    (reads : (p : ℕ) (m : Bytes) → Small m p size → get size p m ≡ push (word m p size)) where
  abbrev sized_vt : ArrayVt
  sized_vt = record { get = get; set = set_uint co }

  get-store :
      (p n : ℕ) (m : Bytes) → get size p (store m p (bytes_of size n)) ≡ push (n % 256 ^ size)
  get-store p n m = reads p _ (λ i l. store_small m p size n i l) ∙ ap push (word-store m p size n)

  last_set :
      (arg p : ℕ) (m : Bytes) (o : Option ℕ)
      → SetResult sized_vt size arg p
          (o >>= (λ n. some (push (n % 256 ^ size))))
          (store_checked m arg size p o)
  last_set arg p m none = (m, refl)
  last_set arg p m (some n) = (store m p (bytes_of size n), refl, get-store p n m)

  first_set :
      (arg p : ℕ) (v : Value) (m : Bytes) (o : Option ℕ)
      → SetResult sized_vt size arg p
          ((o >>= (λ n. check_int64 v)) >>= (λ n. some (push (n % 256 ^ size))))
          (small_first size arg p v m o)
  first_set arg p v m none = (m, refl)
  first_set arg p v m (some n) = last_set arg p (store m p (bytes_of size n)) (check_int64 v)

  sized_set :
      (arg p : ℕ) (v : Value) (m : Bytes)
      → SetResult sized_vt size arg p (sized_stored co size push v) (set_uint co size arg p v m)
  sized_set arg p v m = elim (Bool-cases (leb size 4)) [
    | inl e ↦ rw e (first_set arg p v m (check_integer co v))
    | inr e ↦ rw e (last_set arg p m (check_int64 v))
  ]

  first-Beside :
      (arg p : ℕ) (v : Value) (m : Bytes) (o : Option ℕ) (a : ℕ)
      → Beside p size a
      → memory (small_first size arg p v m o) a ≡ m a
  first-Beside arg p v m none a h = refl
  first-Beside arg p v m (some n) a h =
      store_checked-Beside _ arg p size (check_int64 v) a h ∙ store-Beside m p size n a h

  sized-Beside :
      (arg p : ℕ) (v : Value) (m : Bytes) (a : ℕ)
      → Beside p size a
      → memory (set_uint co size arg p v m) a ≡ m a
  sized-Beside arg p v m a h = elim (Bool-cases (leb size 4)) [
    | inl e ↦ rw e (first-Beside arg p v m (check_integer co v) a h)
    | inr e ↦ rw e (store_checked-Beside m arg p size (check_int64 v) a h)
  ]

  sized-IsVt :
      ((p : ℕ) (m m' : Bytes)
        → ((i : ℕ) → i < size → m (p + i) ≡ m' (p + i))
        → get size p m ≡ get size p m')
      → IsVt sized_vt size (sized_stored co size push)
  sized-IsVt get_local = record { sets = sized_set; apart = sized-Beside; local = get_local }

module _ (size : ℕ) (pos : 0 < size) (fits : size ≤ 8) where
  range : 256 ^ size ≡ 2 * 2 ^ (size * 8 - 1)
  range = pow-double size pos

  get_int_local :
      (p : ℕ) (m m' : Bytes)
      → ((i : ℕ) → i < size → m (p + i) ≡ m' (p + i))
      → get_int size p m ≡ get_int size p m'
  get_int_local p m m' h =
      rw (read_uint_local 32 p size m m' h, read_uint_local 64 p size m m' h) refl

  get_uint_local :
      (p : ℕ) (m m' : Bytes)
      → ((i : ℕ) → i < size → m (p + i) ≡ m' (p + i))
      → get_uint size p m ≡ get_uint size p m'
  get_uint_local p m m' h =
      rw (read_uint_local 32 p size m m' h, read_uint_local 64 p size m m' h) refl

  wide : 256 ^ size ≤ 2 ^ 64
  wide = pow-le-pow_right {n = 256} (omega arith) fits

  narrow : leb size 4 ≡ true → 256 ^ size ≤ 2 ^ 32
  narrow e = pow-le-pow_right {n = 256} (omega arith) {j = 4} (ground arith)

  get_uint-word :
      (p : ℕ) (m : Bytes) → Small m p size → get_uint size p m ≡ uint_value size (word m p size)
  get_uint-word p m small = elim (Bool-cases (leb size 4)) [
    | inl e ↦ rw e (ap integer (read_uint-word 32 m p size small (narrow e)))
    | inr e ↦ rw e (ap int64 (read_uint-word 64 m p size small wide))
  ]

  get_int-word :
      (p : ℕ) (m : Bytes) → Small m p size → get_int size p m ≡ int_value size (word m p size)
  get_int-word p m small =
      let below : word m p size < 2 * 2 ^ (size * 8 - 1) =
        subst (λ k. word m p size < k) range (word-lt m p size small) in
      elim (Bool-cases (leb size 4)) [
        | inl e ↦ rw e (
            ap integer (
              rw (read_uint-word 32 m p size small (narrow e)) (
                extend_sign_lem 32 (2 ^ (size * 8 - 1)) (word m p size) below
                  (subst (λ k. k ≤ 2 ^ 32) range (narrow e)))))
        | inr e ↦ rw e (
            ap int64 (
              rw (read_uint-word 64 m p size small wide) (
                extend_sign_lem 64 (2 ^ (size * 8 - 1)) (word m p size) below
                  (subst (λ k. k ≤ 2 ^ 64) range wide))))
      ]

  module _ (co : Coercions) where
    -- Integers of up to 8 bytes are kept modulo their range, and read with or without a sign.
    pub vt_int-IsVt : IsVt (vt_int co) size (sized_stored co size (int_value size))
    unfolding vt_int
    vt_int-IsVt = sized-IsVt co size get_int (int_value size) get_int-word get_int_local

    pub vt_uint-IsVt : IsVt (vt_uint co) size (sized_stored co size (uint_value size))
    unfolding vt_uint
    vt_uint-IsVt = sized-IsVt co size get_uint (uint_value size) get_uint-word get_uint_local
