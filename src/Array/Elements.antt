-- ===== src/Array/Elements.antt =====
-- The contents of an array as a list, and the loops of lib/common/mlua.array.c over its elements.
use native.Mathlib.Nat.{mul-le-mul_right, mod-eq_of_lt}
use micro_lua.Base.{
  ℕ, zero, suc, ◌+◌, ◌*◌, ◌%◌, ◌^◌, ◌≤◌, ◌<◌, ◌≡◌, refl, sym, ap, ◌∙◌, inl, inr, Option, none, some,
  List, [], ◌∷◌, ◌++◌, arith, length, ◌>>=◌, cons_ap, get_or, replicate,
}
use micro_lua.Value.{Value, nil}
use micro_lua.Memory.{Bytes}
use micro_lua.Array.{
  Array, ArrayVt, Written, written, raised, memory, and_then, element, set_loop, fill_loop,
}
use micro_lua.Array.Codec.{IsVt, SetResult, Beside}

-- The values of `n` elements from an address on, and of a whole array.
abbrev pub cells : ArrayVt → (size p n : ℕ) → Bytes → List Value
cells vt size p zero m = []
cells vt size p (suc n) m = vt.get size p m ∷ cells vt size (p + size) n m

abbrev pub slot : Array → ℕ → ℕ
slot arr i = arr.ptr + i * arr.size

abbrev pub contents : Array → Bytes → List Value
contents arr m = cells arr.vt arr.size arr.ptr arr.len m

-- An array whose format keeps its contract, and that lies in the address space.
pub record IsArray (arr : Array) (stored : Value → Option Value) : Type 0 where
  pub vt : IsVt arr.vt arr.size stored
  pub pos : 0 < arr.size
  pub used : arr.len ≤ arr.cap
  pub signed : arr.cap < 2 ^ 31
  pub fits : arr.ptr + arr.cap * arr.size < 2 ^ 32

-- What a list of values is stored as; `none` if one of them is refused.
abbrev pub stored_all : (Value → Option Value) → List Value → Option (List Value)
stored_all stored [] = some []
stored_all stored (v ∷ vs) = stored v >>= (λ w. stored_all stored vs >>= (λ ws. some (w ∷ ws)))

pub slot_below : (arr : Array) (i j : ℕ) → i ≤ j → slot arr i ≤ slot arr j
slot_below arr i j le = omega (arith, mul-le-mul_right arr.size le)

pub element_lem :
    {arr : Array} {stored : Value → Option Value} (i : ℕ)
    → IsArray arr stored
    → i ≤ arr.cap
    → element arr i ≡ slot arr i
element_lem {arr} i a le = omega (arith, slot_below arr i arr.cap le, a.fits)

pub used_fits :
    {arr : Array} {stored : Value → Option Value}
    → IsArray arr stored
    → arr.ptr + arr.len * arr.size < 2 ^ 32
used_fits {arr} a = omega (arith, slot_below arr arr.len arr.cap a.used, a.fits)

pub length-cells : (vt : ArrayVt) (size p n : ℕ) (m : Bytes) → length (cells vt size p n m) ≡ n
length-cells vt size p zero m = refl
length-cells vt size p (suc n) m = ap suc (length-cells vt size (p + size) n m)

pub cells-append :
    (vt : ArrayVt) (size p n k q : ℕ) (m : Bytes)
    → q ≡ p + n * size
    → cells vt size p (n + k) m ≡ cells vt size p n m ++ cells vt size q k m
cells-append vt size p zero k q m e =
    let same : p ≡ q = omega arith in
    let all : 0 + k ≡ k = omega arith in λ i. cells vt size (same i) (all i) m
cells-append vt size p (suc n) k q m e =
    let more : suc n + k ≡ suc (n + k) = omega arith in
    ap (λ j. cells vt size p j m) more
    ∙ cons_ap refl (cells-append vt size (p + size) n k q m (grind arith))

pub get_or-cells :
    (vt : ArrayVt) (size p n i : ℕ) (m : Bytes)
    → i < n
    → get_or (cells vt size p n m) i nil ≡ vt.get size (p + i * size) m
get_or-cells vt size p zero i m h = absurd (omega arith)
get_or-cells vt size p (suc n) zero m h = ap (λ q. vt.get size q m) (omega arith)
get_or-cells vt size p (suc n) (suc i) m h =
    get_or-cells vt size (p + size) n i m (omega arith) ∙ ap (λ q. vt.get size q m) (grind arith)

-- The values that a loop writes are read back in order, or a value is refused.
abbrev pub AllSet : ArrayVt → (size p n : ℕ) → Option (List Value) → Written → Type 0
AllSet vt size p n (some ws) r = (m' : Bytes) × (r ≡ written m') × (cells vt size p n m' ≡ ws)
AllSet vt size p n none r = (arg : ℕ) × (m' : Bytes) × (r ≡ raised arg m')

Beside-first : (size p n a : ℕ) → Beside p (suc n * size) a → Beside p size a
Beside-first size p n a (inl h) = inl h
Beside-first size p n a (inr h) = inr (grind arith)

Beside-rest : (size p n a : ℕ) → Beside p (suc n * size) a → Beside (p + size) (n * size) a
Beside-rest size p n a (inl h) = inl (omega arith)
Beside-rest size p n a (inr h) = inr (grind arith)

module _ {vt : ArrayVt} {size : ℕ} {stored : Value → Option Value} (law : IsVt vt size stored) where
  pub cells_local :
      (p n : ℕ) (m m' : Bytes)
      → ((a : ℕ) → p ≤ a → a < p + n * size → m a ≡ m' a)
      → cells vt size p n m ≡ cells vt size p n m'
  cells_local p zero m m' h = refl
  cells_local p (suc n) m m' h =
      cons_ap (law.local p m m' (λ i l. h (p + i) (omega arith) (grind arith)))
        (cells_local (p + size) n m m' (λ a l l'. h a (omega arith) (grind arith)))

  after_set :
      (p n arg : ℕ) (f : Bytes → Written) (o : Option Value) (os : Option (List Value))
      (r : Written)
      → SetResult vt size arg p o r
      → ((m' : Bytes) → AllSet vt size (p + size) n os (f m'))
      → ((m' : Bytes) (a : ℕ) → a < p + size → memory (f m') a ≡ m' a)
      → AllSet vt size p (suc n) (o >>= (λ w. os >>= (λ ws. some (w ∷ ws)))) (and_then r f)
  after_set p n arg f none os r (m', e) rest kept = (arg, m', ap (λ r. and_then r f) e)
  after_set p n arg f (some w) none r (m', e, g) rest kept =
      ((rest m').0, (rest m').1, ap (λ r. and_then r f) e ∙ (rest m').2)
  after_set p n arg f (some w) (some ws) r (m', e, g) rest kept = (
    (rest m').0,
    ap (λ r. and_then r f) e ∙ (rest m').1,
    cons_ap
        (law.local p _ m'
            (λ i l. ap (λ r. memory r (p + i)) (sym ((rest m').1)) ∙ kept m' (p + i) (omega arith))
          ∙ g)
        ((rest m').2),
  )

  and_then-apart :
      (f : Bytes → Written) (a : ℕ) (m : Bytes) (r : Written)
      → memory r a ≡ m a
      → ((m' : Bytes) → memory (f m') a ≡ m' a)
      → memory (and_then r f) a ≡ m a
  and_then-apart f a m (written m') e h = h m' ∙ e
  and_then-apart f a m (raised arg m') e h = e

  pub set_loop-apart :
      (arg p : ℕ) (vs : List Value) (m : Bytes) (a : ℕ)
      → p + length vs * size < 2 ^ 32
      → Beside p (length vs * size) a
      → memory (set_loop vt size arg p vs m) a ≡ m a
  unfolding set_loop
  set_loop-apart arg p [] m a fits h = refl
  set_loop-apart arg p (v ∷ vs) m a fits h =
      let next : (p + size) % 2 ^ 32 ≡ p + size = mod-eq_of_lt (grind arith) in
      rw next (
        and_then-apart (λ m'. set_loop vt size (suc arg) (p + size) vs m') a m
          (vt.set size arg p v m) (law.apart arg p v m a (Beside-first size p _ a h))
          (λ m'.
            set_loop-apart (suc arg) (p + size) vs m' a (grind arith) (Beside-rest size p _ a h)))

  pub set_loop_lem :
      (arg p : ℕ) (vs : List Value) (m : Bytes)
      → p + length vs * size < 2 ^ 32
      → AllSet vt size p (length vs) (stored_all stored vs) (set_loop vt size arg p vs m)
  unfolding set_loop
  set_loop_lem arg p [] m fits = (m, refl, refl)
  set_loop_lem arg p (v ∷ vs) m fits =
      let next : (p + size) % 2 ^ 32 ≡ p + size = mod-eq_of_lt (grind arith) in
      rw next (
        after_set p (length vs) arg (λ m'. set_loop vt size (suc arg) (p + size) vs m') (stored v)
          (stored_all stored vs) (vt.set size arg p v m) (law.sets arg p v m)
          (λ m'. set_loop_lem (suc arg) (p + size) vs m' (grind arith))
          (λ m' a l. set_loop-apart (suc arg) (p + size) vs m' a (grind arith) (inl l)))

  pub fill_loop-apart :
      (p n : ℕ) (v : Value) (m : Bytes) (a : ℕ)
      → p + n * size < 2 ^ 32
      → Beside p (n * size) a
      → memory (fill_loop vt size n p v m) a ≡ m a
  unfolding fill_loop
  fill_loop-apart p zero v m a fits h = refl
  fill_loop-apart p (suc n) v m a fits h =
      let next : (p + size) % 2 ^ 32 ≡ p + size = mod-eq_of_lt (grind arith) in
      rw next (
        and_then-apart (λ m'. fill_loop vt size n (p + size) v m') a m (vt.set size 2 p v m)
          (law.apart 2 p v m a (Beside-first size p _ a h))
          (λ m'. fill_loop-apart (p + size) n v m' a (grind arith) (Beside-rest size p _ a h)))

  pub fill_loop_lem :
      (p n : ℕ) (v : Value) (m : Bytes)
      → p + n * size < 2 ^ 32
      → AllSet vt size p n (stored_all stored (replicate n v)) (fill_loop vt size n p v m)
  unfolding fill_loop
  fill_loop_lem p zero v m fits = (m, refl, refl)
  fill_loop_lem p (suc n) v m fits =
      let next : (p + size) % 2 ^ 32 ≡ p + size = mod-eq_of_lt (grind arith) in
      rw next (
        after_set p n 2 (λ m'. fill_loop vt size n (p + size) v m') (stored v)
          (stored_all stored (replicate n v)) (vt.set size 2 p v m) (law.sets 2 p v m)
          (λ m'. fill_loop_lem (p + size) n v m' (grind arith))
          (λ m' a l. fill_loop-apart (p + size) n v m' a (grind arith) (inl l)))
