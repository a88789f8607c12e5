-- ===== src/Base/Lists.antt =====
-- Lists measured and indexed by native numbers, under the library's names.
use Prim.Native.Nat.{ℕ, zero, suc, ◌+◌, ◌≤◌}
use mathlib.Core.Path.{◌≡◌, refl}
use mathlib.Core.Bool.{Bool, true, false, ◌||◌}
use mathlib.Core.List.{List, [], ◌∷◌, ◌++◌}
use mathlib.Core.Option.{Option, none, some}
use native.Mathlib.Omega.{arith}
use micro_lua.Base.Tests.{◌==◌, if◌then◌else◌}

module _ {ℓ} {A : Type ℓ} where
  abbrev pub length : List A → ℕ
  length [] = 0
  length (x ∷ xs) = suc (length xs)

  abbrev pub get_or : List A → ℕ → A → A
  get_or [] i d = d
  get_or (x ∷ xs) zero d = x
  get_or (x ∷ xs) (suc i) d = get_or xs i d

  abbrev pub take : ℕ → List A → List A
  take zero xs = []
  take (suc n) [] = []
  take (suc n) (x ∷ xs) = x ∷ take n xs

  abbrev pub drop : ℕ → List A → List A
  drop zero xs = xs
  drop (suc n) [] = []
  drop (suc n) (x ∷ xs) = drop n xs

  abbrev pub replicate : ℕ → A → List A
  replicate zero a = []
  replicate (suc n) a = a ∷ replicate n a

  abbrev pub last : List A → Option A
  last [] = none
  last (x ∷ []) = some x
  last (x ∷ y ∷ xs) = last (y ∷ xs)

  pub cons_ap : {x y : A} {xs ys : List A} → x ≡ y → xs ≡ ys → x ∷ xs ≡ y ∷ ys
  cons_ap e f = λ i. e i ∷ f i

  pub length-append : (xs ys : List A) → length (xs ++ ys) ≡ length xs + length ys
  length-append [] ys = omega arith
  length-append (x ∷ xs) ys = omega (arith, length-append xs ys)

  pub last-append_one : (xs : List A) (x : A) → last (xs ++ x ∷ []) ≡ some x
  last-append_one [] x = refl
  last-append_one (y ∷ []) x = refl
  last-append_one (y ∷ z ∷ xs) x = last-append_one (z ∷ xs) x

-- Membership of a number, and lists that name nothing twice.
abbrev pub has : ℕ → List ℕ → Bool
has a [] = false
has a (x ∷ xs) = (a == x) || has a xs

abbrev pub Distinct : List ℕ → Type 0
Distinct [] = Unit
Distinct (x ∷ xs) = (has x xs ≡ false) × Distinct xs

pub has-append : (a : ℕ) (xs ys : List ℕ) → has a (xs ++ ys) ≡ (has a xs || has a ys)
has-append a [] ys = refl
has-append a (x ∷ xs) ys = ground (arith, has-append a xs ys)

pub Distinct-append :
    (xs ys : List ℕ)
    → Distinct xs
    → Distinct ys
    → ((a : ℕ) → has a xs ≡ true → has a ys ≡ false)
    → Distinct (xs ++ ys)
Distinct-append [] ys p q apart = q
Distinct-append (x ∷ xs) ys p q apart = (
  ground (arith, has-append x xs ys, apart x, p.0),
  Distinct-append xs ys p.1 q (λ a h. ground (arith, apart a)),
)

pub last-has : (xs : List ℕ) (e : ℕ) → last xs ≡ some e → has e xs ≡ true
last-has [] e h = absurd (cc h)
last-has (x ∷ []) e h = ground arith
last-has (x ∷ y ∷ xs) e h = ground (arith, last-has (y ∷ xs) e h)

pub last-cons-ne-none {ℓ} : {A : Type ℓ} (x : A) (xs : List A) → ¬ (last (x ∷ xs) ≡ none)
last-cons-ne-none x [] h = cc h
last-cons-ne-none x (y ∷ xs) h = last-cons-ne-none y xs h

pub last-append-cons : (xs : List ℕ) (y : ℕ) (ys : List ℕ) → last (xs ++ y ∷ ys) ≡ last (y ∷ ys)
last-append-cons [] y ys = refl
last-append-cons (x ∷ []) y ys = refl
last-append-cons (x ∷ x' ∷ xs) y ys = last-append-cons (x' ∷ xs) y ys

-- A list that names nothing twice is no longer than one that has all that it names.
remove : ℕ → List ℕ → List ℕ
remove a [] = []
remove a (x ∷ xs) = if a == x then xs else x ∷ remove a xs

length-remove : (a : ℕ) (xs : List ℕ) → has a xs ≡ true → length xs ≡ suc (length (remove a xs))
unfolding remove
length-remove a [] h = absurd (cc h)
length-remove a (x ∷ xs) h = ground (arith, length-remove a xs)

has-remove :
    (a b : ℕ) (xs : List ℕ) → has b xs ≡ true → (b == a) ≡ false → has b (remove a xs) ≡ true
unfolding remove
has-remove a b [] h ne = h
has-remove a b (x ∷ xs) h ne = ground (arith, has-remove a b xs)

pub length_le_of_subset :
    (xs ys : List ℕ)
    → Distinct xs
    → ((a : ℕ) → has a xs ≡ true → has a ys ≡ true)
    → length xs ≤ length ys
length_le_of_subset [] ys d sub = omega arith
length_le_of_subset (x ∷ xs) ys d sub = omega (
  arith,
  length-remove x ys (sub x (ground arith)),
  length_le_of_subset xs (remove x ys) d.1
      (λ a h. has-remove x a ys (sub a (ground arith)) (ground arith)),
)
