-- ===== src/LuaList/Query.antt =====
-- Reads of a list in lib/common/mlua.list.c: unpack, find and eq.
use micro_lua.Base.{
  ℕ, zero, suc, ◌+◌, ◌-◌, ◌^◌, ◌≤◌, ◌<◌, ◌≡◌, refl, sym, ◌∙◌, ap, true, false, none, some, Bool,
  Option, [], ◌↔◌, arith, ◌==◌, ltb, take, drop, Bool-cases, inl, inr,
}
use micro_lua.Value.{Value}
use micro_lua.LuaList.{
  Border, Table, len, entries, unpack, find, find_from, start_of, eq_from, list_eq,
}
use micro_lua.LuaList.Contents.{contents, entries_at, take-entries, drop-entries}

empty_entries : (n : ℕ) (f : ℕ → Value) → n < 1 → [] ≡ entries 1 n f
unfolding entries
empty_entries zero f h = refl
empty_entries (suc n) f h = absurd (omega arith)

unpack_all : (border : Border) (t : Table) → unpack border none none t ≡ contents border t
unfolding unpack
unpack_all border t = elim (Bool-cases (ltb (len border t) 1)) [
  | inl h ↦ rw h (empty_entries (len border t) t.at (ground arith))
  | inr h ↦ rw h (entries_at 1 1 (len border t - 1 + 1) (len border t) t.at refl (ground arith))
]

unpack_part :
    (border : Border) (t : Table) (b e : ℕ)
    → 0 < b
    → b ≤ e
    → e ≤ len border t
    → unpack border (some b) (some e) t ≡ take (e - (b - 1)) (drop (b - 1) (contents border t))
unfolding unpack
unpack_part border t b e pos le fits =
    let order : ltb e b ≡ false = ground arith in
    rw order (
      entries_at b (1 + (b - 1)) (e - b + 1) (e - (b - 1)) t.at (omega arith) (omega arith)
      ∙ sym (take-entries (1 + (b - 1)) (e - (b - 1)) (len border t - (b - 1)) t.at (omega arith))
      ∙ ap (take (e - (b - 1))) (sym (drop-entries 1 (b - 1) (len border t) t.at (omega arith))))

-- `unpack` gives the contents between two positions of the list, all of them without arguments, and
-- nothing when the second comes before the first.
pub unpack_lem :
    (border : Border) (t : Table) (b e : ℕ)
    → (unpack border none none t ≡ contents border t)
      × (0 < b
          → b ≤ e
          → e ≤ len border t
          → unpack border (some b) (some e) t
            ≡ take (e - (b - 1)) (drop (b - 1) (contents border t)))
      × (e < b → unpack border (some b) (some e) t ≡ [])
unfolding unpack
unpack_lem border t b e =
    (unpack_all border t, λ pos le fits. unpack_part border t b e pos le fits, λ h. ground arith)

-- What a search over `count` positions from `i` says.
abbrev pub Sought : (Value → Bool) → (at : ℕ → Value) → (i count : ℕ) → Option ℕ → Type 0
Sought is at i count none = (j : ℕ) → i ≤ j → j < i + count → is (at j) ≡ false
Sought is at i count (some k) =
    (i ≤ k) × (k < i + count) × (is (at k) ≡ true) × ((j : ℕ) → i ≤ j → j < k → is (at j) ≡ false)

module _ (eq : Value → Value → Bool) (v : Value) (at : ℕ → Value) (i count : ℕ) where
  Sought-here : eq v (at i) ≡ true → Sought (eq v) at i (suc count) (some i)
  Sought-here h = (omega arith, omega arith, h, λ j a b. absurd (omega arith))

  Sought-later :
      (o : Option ℕ)
      → eq v (at i) ≡ false
      → Sought (eq v) at (suc i) count o
      → Sought (eq v) at i (suc count) o
  Sought-later none h s = λ j a b. elim (Bool-cases (i == j)) [
    | inl e ↦ ground arith
    | inr e ↦ s j (ground arith) (ground arith)
  ]
  Sought-later (some k) h s = (
    omega (arith, s.0),
    omega (arith, s.1),
    s.2,
    λ j a b. elim (Bool-cases (i == j)) [
      | inl e ↦ ground arith
      | inr e ↦ s.3 j (ground arith) (ground arith)
    ],
  )

find_from_lem :
    (eq : Value → Value → Bool) (v : Value) (at : ℕ → Value) (i count : ℕ)
    → Sought (eq v) at i count (find_from eq v i count at)
unfolding find_from
find_from_lem eq v at i zero = λ j a b. absurd (omega arith)
find_from_lem eq v at i (suc count) = elim (Bool-cases (eq v (at i))) [
  | inl e ↦ rw e (Sought-here eq v at i count e)
  | inr e ↦ rw e (Sought-later eq v at i count _ e (find_from_lem eq v at (suc i) count))
]

-- The search finds the first position, from the start on, whose entry equals the value, and nothing
-- exactly if there is none up to the end of the list. It starts at 1 without a position or with 0,
-- at the position given, or for -k at the k-th position from the end and at 1 when the list is
-- shorter.
pub list_find_lem :
    (border : Border) (eq : Value → Value → Bool) (v : Value) (t : Table) (i k : ℕ)
    → Sought
        (eq v)
        t.at
        (start_of i (len border t))
        (suc (len border t) - start_of i (len border t))
        (find border eq v (some i) t)
      × (find border eq v none t ≡ find border eq v (some 1) t)
      × (start_of 0 (len border t) ≡ 1)
      × (0 < i → i < 2 ^ 31 → start_of i (len border t) ≡ i)
      × (0 < k
          → k ≤ 2 ^ 31
          → k < len border t
          → start_of (2 ^ 32 - k) (len border t) ≡ suc (len border t) - k)
      × (0 < k → k ≤ 2 ^ 31 → len border t ≤ k → start_of (2 ^ 32 - k) (len border t) ≡ 1)
unfolding find start_of
list_find_lem border eq v t i k = (
  find_from_lem eq v t.at (start_of i (len border t)) _,
  refl,
  refl,
  λ pos small. ground arith,
  λ pos small h. ground arith,
  λ pos small h. ground arith,
)

-- All entries from `i` on are equal.
eq_from_lem :
    (eq : Value → Value → Bool) (i count : ℕ) (f g : ℕ → Value)
    → (eq_from eq i count f g ≡ true) ↔ ((j : ℕ) → i ≤ j → j < i + count → eq (f j) (g j) ≡ true)
unfolding eq_from
eq_from_lem eq i zero f g = ((λ h j a b. absurd (omega arith)), λ h. refl)
eq_from_lem eq i (suc count) f g = (
  λ h j a b. elim (Bool-cases (i == j)) [
    | inl e ↦ ground arith
    | inr e ↦ (eq_from_lem eq (suc i) count f g).0 (ground arith) j (ground arith) (ground arith)
  ],
  λ h.
      ground (
        arith,
        h i,
        (eq_from_lem eq (suc i) count f g).1 (λ j a b. h j (omega arith) (omega arith)),
      ),
)

-- Two lists are equal exactly when they have the same length and equal entries at each position.
pub list_eq_lem :
    (border : Border) (eq : Value → Value → Bool) (t t' : Table)
    → (list_eq border eq t t' ≡ true) ↔ (
        (len border t ≡ len border t')
        × ((j : ℕ) → 0 < j → j ≤ len border t → eq (t.at j) (t'.at j) ≡ true))
unfolding list_eq
list_eq_lem border eq t t' = elim (Bool-cases (len border t == len border t')) [
  | inl e ↦ rw e (
    (λ h. (
      ground arith,
      λ j a b. (eq_from_lem eq 1 (len border t) t.at t'.at).0 h j a (omega arith),
    )),
    λ h. (eq_from_lem eq 1 (len border t) t.at t'.at).1 (λ j a b. h.1 j a (omega arith)),
  )
  | inr e ↦ rw e ((λ h. absurd (cc h)), λ h. absurd (ground (arith, h.0)))
]
