-- ===== src/Memory/Bytes.antt =====
-- Copies, fills and searches in memory: what `memcpy`, `memset` and `memmem` are to the buffers of
-- core/include/mlua/util.h.
use micro_lua.Base.{
  ℕ, zero, suc, ◌+◌, ◌%◌, ◌^◌, ◌≤◌, ◌<◌, ◌≡◌, refl, ◌∙◌, ◌⊎◌, inl, inr, true, false, Option, none,
  some, List, [], ◌∷◌, arith, ◌==◌, update, length, replicate, Bool-cases, eq_self, cons_ap,
}
use micro_lua.Memory.{Bytes, load, store, store_fill, starts_with, search}

pub store_apart :
    (m : Bytes) (to : ℕ) (bs : List ℕ) (a : ℕ)
    → (a < to) ⊎ (to + length bs ≤ a)
    → store m to bs a ≡ m a
unfolding store
store_apart m to [] a h = refl
store_apart m to (b ∷ bs) a (inl h) =
    store_apart (update m to b) (suc to) bs a (inl (omega arith)) ∙ ground arith
store_apart m to (b ∷ bs) a (inr h) =
    store_apart (update m to b) (suc to) bs a (inr (omega arith)) ∙ ground arith

pub load-store : (m : Bytes) (to : ℕ) (bs : List ℕ) → load (store m to bs) to (length bs) ≡ bs
unfolding load store
load-store m to [] = refl
load-store m to (b ∷ bs) =
    let first : store (update m to b) (suc to) bs to ≡ b =
      store_apart (update m to b) (suc to) bs to (inl (omega arith)) ∙ ground (arith, eq_self to) in
    cons_ap first (load-store (update m to b) (suc to) bs)

pub store_fill_apart :
    (m : Bytes) (to len v : ℕ) (a : ℕ) → (a < to) ⊎ (to + len ≤ a) → store_fill m to len v a ≡ m a
unfolding store_fill
store_fill_apart m to zero v a h = refl
store_fill_apart m to (suc len) v a (inl h) =
    store_fill_apart (update m to (v % 2 ^ 8)) (suc to) len v a (inl (omega arith)) ∙ ground arith
store_fill_apart m to (suc len) v a (inr h) =
    store_fill_apart (update m to (v % 2 ^ 8)) (suc to) len v a (inr (omega arith)) ∙ ground arith

pub load-store_fill :
    (m : Bytes) (to len v : ℕ) → load (store_fill m to len v) to len ≡ replicate len (v % 2 ^ 8)
unfolding load store_fill
load-store_fill m to zero v = refl
load-store_fill m to (suc len) v =
    let w = v % 2 ^ 8 in
    let first : store_fill (update m to w) (suc to) len v to ≡ w =
      store_fill_apart (update m to w) (suc to) len v to (inl (omega arith))
      ∙ ground (arith, eq_self to) in
    cons_ap first (load-store_fill (update m to w) (suc to) len v)

-- `starts_with` is a comparison of the bytes.
pub starts_with-load :
    (needle : List ℕ) (m : Bytes) (at : ℕ)
    → starts_with needle m at ≡ true
    → load m at (length needle) ≡ needle
unfolding starts_with load
starts_with-load [] m at h = refl
starts_with-load (b ∷ bs) m at h = ground (arith, starts_with-load bs m (suc at))

pub load-starts_with :
    (needle : List ℕ) (m : Bytes) (at : ℕ)
    → load m at (length needle) ≡ needle
    → starts_with needle m at ≡ true
unfolding starts_with load
load-starts_with [] m at h = refl
load-starts_with (b ∷ bs) m at h = ground (arith, load-starts_with bs m (suc at))

-- What a search from `from` over `count` addresses says.
abbrev pub Searched : List ℕ → Bytes → (from count : ℕ) → Option ℕ → Type 0
Searched needle m from count none =
    (a : ℕ) → from ≤ a → a < from + count → starts_with needle m a ≡ false
Searched needle m from count (some at) =
    (from ≤ at)
    × (at < from + count)
    × (starts_with needle m at ≡ true)
    × ((a : ℕ) → from ≤ a → a < at → starts_with needle m a ≡ false)

Searched-here :
    (needle : List ℕ) (m : Bytes) (from count : ℕ)
    → starts_with needle m from ≡ true
    → Searched needle m from (suc count) (some from)
Searched-here needle m from count h = (omega arith, omega arith, h, λ a k l. absurd (omega arith))

Searched-later :
    (needle : List ℕ) (m : Bytes) (from count : ℕ) (o : Option ℕ)
    → starts_with needle m from ≡ false
    → Searched needle m (suc from) count o
    → Searched needle m from (suc count) o
Searched-later needle m from count none h s = λ a k l. elim (Bool-cases (from == a)) [
  | inl e ↦ ground arith
  | inr e ↦ s a (ground arith) (ground arith)
]
Searched-later needle m from count (some at) h s = (
  omega (arith, s.0),
  omega (arith, s.1),
  s.2,
  λ a k' l'. elim (Bool-cases (from == a)) [
    | inl e ↦ ground arith
    | inr e ↦ s.3 a (ground arith) (ground arith)
  ],
)

pub search_lem :
    (needle : List ℕ) (m : Bytes) (from count : ℕ)
    → Searched needle m from count (search needle m from count)
unfolding search
search_lem needle m from zero = λ a k l. absurd (omega arith)
search_lem needle m from (suc count) = elim (Bool-cases (starts_with needle m from)) [
  | inl e ↦ rw e (Searched-here needle m from count e)
  | inr e ↦ rw e (Searched-later needle m from count _ e (search_lem needle m (suc from) count))
]
