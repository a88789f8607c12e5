-- ===== src/Array/Format/Word.antt =====
-- Words of memory and their bytes, as lib/common/mlua.array.c reads and writes them.
use native.Mathlib.Nat.{
  pow-succ', div-div-eq-div-mul, mod-add-div, mod-eq_of_lt, one-le-pow, mul-le-mul_right,
}
use micro_lua.Base.{
  ℕ, zero, suc, ◌+◌, ◌*◌, ◌/◌, ◌%◌, ◌^◌, ◌≤◌, ◌<◌, ◌≡◌, refl, sym, ap, ◌∙◌, subst, List, [], ◌∷◌,
  arith, length, get_or,
}
use micro_lua.Memory.{Bytes, load, store}
use micro_lua.Memory.Bytes.{load-store}
use micro_lua.Array.Format.{word, bytes_of, read_loop, read_uint}

pub length-bytes_of : (n v : ℕ) → length (bytes_of n v) ≡ n
unfolding bytes_of
length-bytes_of zero v = refl
length-bytes_of (suc n) v = ap suc (length-bytes_of n (v / 256))

from_bytes : List ℕ → ℕ
from_bytes [] = 0
from_bytes (b ∷ bs) = b + 256 * from_bytes bs

word-load : (m : Bytes) (p n : ℕ) → word m p n ≡ from_bytes (load m p n)
unfolding word from_bytes load
word-load m p zero = refl
word-load m p (suc n) = ap (λ w. m p + 256 * w) (word-load m (suc p) n)

split_mod : (v k : ℕ) → v % 256 + 256 * (v / 256 % k) ≡ v % (256 * k)
split_mod v k = grind (
  arith,
  ap (λ q. k * q) (div-div-eq-div-mul v 256 k),
  mod-add-div (v / 256) k,
  mod-add-div v (256 * k),
)

from_bytes-bytes_of : (n v : ℕ) → from_bytes (bytes_of n v) ≡ v % 256 ^ n
unfolding from_bytes bytes_of
from_bytes-bytes_of zero v = omega arith
from_bytes-bytes_of (suc n) v =
    rw (pow-succ' 256 n)
      (ap (λ w. v % 256 + 256 * w) (from_bytes-bytes_of n (v / 256)) ∙ split_mod v (256 ^ n))

-- What is stored in `n` bytes is read back modulo 2 ^ (8 * n).
pub word-store : (m : Bytes) (p n v : ℕ) → word (store m p (bytes_of n v)) p n ≡ v % 256 ^ n
word-store m p n v =
    word-load _ p n
    ∙ ap from_bytes (
        ap (load (store m p (bytes_of n v)) p) (sym (length-bytes_of n v))
        ∙ load-store m p (bytes_of n v))
    ∙ from_bytes-bytes_of n v

pub load_local :
    (p n : ℕ) (m m' : Bytes) → ((i : ℕ) → i < n → m (p + i) ≡ m' (p + i)) → load m p n ≡ load m' p n
unfolding load
load_local p zero m m' h = refl
load_local p (suc n) m m' h =
    let first : m p ≡ m' p = subst (λ a. m a ≡ m' a) (omega arith) (h 0 (omega arith)) in
    λ i.
      first i
      ∷ load_local (suc p) n m m'
          (λ j l. subst (λ a. m a ≡ m' a) (omega arith) (h (suc j) (omega arith))) i

pub word_local :
    (p n : ℕ) (m m' : Bytes) → ((i : ℕ) → i < n → m (p + i) ≡ m' (p + i)) → word m p n ≡ word m' p n
word_local p n m m' h =
    word-load m p n ∙ ap from_bytes (load_local p n m m' h) ∙ sym (word-load m' p n)

word_zero : (m : Bytes) (p : ℕ) → word m p 0 ≡ 0
unfolding word
word_zero m p = refl

-- Steps of the two readings, with the powers of 256 as variables.
top_step :
    (a b w x y k k' : ℕ)
    → b ≡ y * k + w
    → y ≡ x
    → k' ≡ 256 * k
    → a + 256 * b ≡ x * k' + (a + 256 * w)
top_step a b w x y k k' e e' e'' = rw (e, e', e'') (grind arith)

keep_step : (v k top : ℕ) → 1 ≤ k → (v + 1) * (256 * k) ≤ top → v * 256 < top
keep_step v zero top pos h = absurd (omega arith)
keep_step v (suc k) top pos h = grind arith

fit_step : (v b k top : ℕ) → b < 256 → (v + 1) * (256 * k) ≤ top → (v * 256 + b + 1) * k ≤ top
fit_step v b k top small h =
    let le : (v * 256 + b + 1) * k ≤ (v * 256 + 256) * k = mul-le-mul_right k (omega arith) in
    grind arith

last_step : (v x k k' w r : ℕ) → k' ≡ 256 * k → r ≡ x * k + w → (v * 256 + x) * k + w ≡ v * k' + r
last_step v x k k' w r e e' = rw (e, e') (grind arith)

-- The highest byte of a word.
word_top : (m : Bytes) (p n : ℕ) → word m p (suc n) ≡ m (p + n) * 256 ^ n + word m p n
unfolding word
word_top m p zero = grind arith
word_top m p (suc n) =
    top_step (m p) (word m (suc p) (suc n)) (word m (suc p) n) (m (p + suc n)) (m (suc p + n))
      (256 ^ n) (256 ^ suc n) (word_top m (suc p) n) (ap m (omega arith)) (pow-succ' 256 n)

load_at : (m : Bytes) (p n i : ℕ) → i < n → get_or (load m p n) i 0 ≡ m (p + i)
unfolding load
load_at m p zero i h = absurd (omega arith)
load_at m p (suc n) zero h = ap m (omega arith)
load_at m p (suc n) (suc i) h = load_at m (suc p) n i (omega arith) ∙ ap m (omega arith)

bytes_of_small : (n v i : ℕ) → get_or (bytes_of n v) i 0 < 256
unfolding bytes_of
bytes_of_small zero v i = omega arith
bytes_of_small (suc n) v zero = omega arith
bytes_of_small (suc n) v (suc i) = bytes_of_small n (v / 256) i

-- What is stored are bytes.
pub store_small : (m : Bytes) (p n v i : ℕ) → i < n → store m p (bytes_of n v) (p + i) < 256
store_small m p n v i h =
    subst (λ b. b < 256)
      (ap (λ bs. get_or bs i 0)
          (sym (load-store m p (bytes_of n v)) ∙ ap (load _ p) (length-bytes_of n v))
        ∙ load_at _ p n i h)
      (bytes_of_small n v i)

-- The reading loop does not wrap for a word that its accumulator holds.
read_loop-word :
    (bits : ℕ) (m : Bytes) (p n v : ℕ)
    → ((i : ℕ) → i < n → m (p + i) < 256)
    → (v + 1) * 256 ^ n ≤ 2 ^ bits
    → read_loop bits m p n v ≡ v * 256 ^ n + word m p n
unfolding read_loop
read_loop-word bits m p zero v small fits = rw (word_zero m p) (omega arith)
read_loop-word bits m p (suc n) v small fits =
    let top = small n (omega arith) in
    let wide : (v + 1) * (256 * 256 ^ n) ≤ 2 ^ bits =
      subst (λ k. (v + 1) * k ≤ 2 ^ bits) (pow-succ' 256 n) fits in
    let kept : v * 256 % 2 ^ bits ≡ v * 256 =
      mod-eq_of_lt (keep_step v (256 ^ n) (2 ^ bits) (one-le-pow n 256 (omega arith)) wide) in
    rw kept (
      read_loop-word bits m p n (v * 256 + m (p + n)) (λ i l. small i (omega arith))
        (fit_step v (m (p + n)) (256 ^ n) (2 ^ bits) top wide)
      ∙ last_step v (m (p + n)) (256 ^ n) (256 ^ suc n) (word m p n) (word m p (suc n))
          (pow-succ' 256 n) (word_top m p n))

pub read_uint-word :
    (bits : ℕ) (m : Bytes) (p n : ℕ)
    → ((i : ℕ) → i < n → m (p + i) < 256)
    → 256 ^ n ≤ 2 ^ bits
    → read_uint bits m p n ≡ word m p n
unfolding read_uint
read_uint-word bits m p n small fits = read_loop-word bits m p n 0 small (omega arith) ∙ omega arith

read_loop_local :
    (bits p n v : ℕ) (m m' : Bytes)
    → ((i : ℕ) → i < n → m (p + i) ≡ m' (p + i))
    → read_loop bits m p n v ≡ read_loop bits m' p n v
unfolding read_loop
read_loop_local bits p zero v m m' h = refl
read_loop_local bits p (suc n) v m m' h =
    ap (λ b. read_loop bits m p n (v * 256 % 2 ^ bits + b)) (h n (omega arith))
    ∙ read_loop_local bits p n _ m m' (λ i l. h i (omega arith))

pub read_uint_local :
    (bits p n : ℕ) (m m' : Bytes)
    → ((i : ℕ) → i < n → m (p + i) ≡ m' (p + i))
    → read_uint bits m p n ≡ read_uint bits m' p n
unfolding read_uint
read_uint_local bits p n m m' h = read_loop_local bits p n 0 m m' h

pub word-lt : (m : Bytes) (p n : ℕ) → ((i : ℕ) → i < n → m (p + i) < 256) → word m p n < 256 ^ n
unfolding word
word-lt m p zero small = omega arith
word-lt m p (suc n) small =
    let first : m p < 256 = subst (λ a. m a < 256) (omega arith) (small 0 (omega arith)) in
    let rest =
      word-lt m (suc p) n
        (λ i l. subst (λ a. m a < 256) (omega arith) (small (suc i) (omega arith))) in
    subst (λ k. m p + 256 * word m (suc p) n < k) (sym (pow-succ' 256 n)) (omega arith)
