-- ===== src/LuaList/Contents.antt =====
-- The abstract view of a list of lib/common/mlua.list.c: its entries from 1 up to its length.
use micro_lua.Base.{
  ℕ, zero, suc, ◌+◌, ◌-◌, ◌≤◌, ◌<◌, ◌≡◌, refl, ◌∙◌, ap, List, [], ◌∷◌, ◌++◌, arith, leb, ltb,
  if◌then◌else◌, update, length, take, drop, cons_ap,
}
use micro_lua.Value.{Value, nil}
use micro_lua.LuaList.{Border, Table, len, entries, set_from, shift_up, shift_down, clear_from}

abbrev pub contents : Border → Table → List Value
contents border t = entries 1 (len border t) t.at

pub entries_at :
    (i i' count count' : ℕ) (f : ℕ → Value)
    → i ≡ i'
    → count ≡ count'
    → entries i count f ≡ entries i' count' f
entries_at i i' count count' f e e' = λ x. entries (e x) (e' x) f

pub entries-ext :
    (i count : ℕ) (f g : ℕ → Value)
    → ((j : ℕ) → i ≤ j → j < i + count → f j ≡ g j)
    → entries i count f ≡ entries i count g
unfolding entries
entries-ext i zero f g h = refl
entries-ext i (suc count) f g h =
    cons_ap (h i (omega arith) (omega arith))
      (entries-ext (suc i) count f g (λ j a b. h j (omega arith) (omega arith)))

pub entries-append :
    (i a b : ℕ) (f : ℕ → Value) → entries i (a + b) f ≡ entries i a f ++ entries (i + a) b f
unfolding entries
entries-append i zero b f = entries_at i (i + 0) (0 + b) b f (omega arith) (omega arith)
entries-append i (suc a) b f =
    entries_at i i (suc a + b) (suc (a + b)) f refl (omega arith)
    ∙ cons_ap refl (
        entries-append (suc i) a b f
        ∙ ap (λ l. entries (suc i) a f ++ l)
            (entries_at (suc i + a) (i + suc a) b b f (omega arith) refl))

pub length-entries : (i count : ℕ) (f : ℕ → Value) → length (entries i count f) ≡ count
unfolding entries
length-entries i zero f = refl
length-entries i (suc count) f = ap suc (length-entries (suc i) count f)

-- Entries of a table moved by one.
pub entries-shift :
    (i count : ℕ) (f g : ℕ → Value)
    → ((j : ℕ) → i ≤ j → j < i + count → f (suc j) ≡ g j)
    → entries (suc i) count f ≡ entries i count g
unfolding entries
entries-shift i zero f g h = refl
entries-shift i (suc count) f g h =
    cons_ap (h i (omega arith) (omega arith))
      (entries-shift (suc i) count f g (λ j a b. h j (omega arith) (omega arith)))

pub take-entries :
    (i k count : ℕ) (f : ℕ → Value) → k ≤ count → take k (entries i count f) ≡ entries i k f
unfolding entries
take-entries i zero count f h = refl
take-entries i (suc k) zero f h = absurd (omega arith)
take-entries i (suc k) (suc count) f h = cons_ap refl (take-entries (suc i) k count f (omega arith))

pub drop-entries :
    (i k count : ℕ) (f : ℕ → Value)
    → k ≤ count
    → drop k (entries i count f) ≡ entries (i + k) (count - k) f
unfolding entries
drop-entries i zero count f h = entries_at i (i + 0) count (count - 0) f (omega arith) (omega arith)
drop-entries i (suc k) zero f h = absurd (omega arith)
drop-entries i (suc k) (suc count) f h =
    drop-entries (suc i) k count f (omega arith)
    ∙ entries_at (suc i + k) (i + suc k) (count - k) (suc count - suc k) f (omega arith)
        (omega arith)

-- What the loops leave at a position.
pub shift_up_at :
    (i count : ℕ) (f : ℕ → Value) (j : ℕ)
    → count < i
    → shift_up i count f j
      ≡ (if ltb (i - count) j then (if leb j i then f (j - 1) else f j) else f j)
unfolding shift_up
shift_up_at i zero f j h = ground arith
shift_up_at i (suc count) f j h =
    shift_up_at (i - 1) count (update f i (f (i - 1))) j (omega arith) ∙ ground arith

pub shift_down_at :
    (i count : ℕ) (f : ℕ → Value) (j : ℕ)
    → shift_down i count f j
      ≡ (if leb i j then (if ltb j (i + count) then f (suc j) else f j) else f j)
unfolding shift_down
shift_down_at i zero f j = ground arith
shift_down_at i (suc count) f j =
    shift_down_at (suc i) count (update f i (f (suc i))) j ∙ ground arith

pub clear_from_at :
    (i count : ℕ) (f : ℕ → Value) (j : ℕ)
    → count ≤ i
    → clear_from i count f j ≡ (if ltb (i - count) j then (if leb j i then nil else f j) else f j)
unfolding clear_from
clear_from_at i zero f j h = ground arith
clear_from_at i (suc count) f j h =
    clear_from_at (i - 1) count (update f i nil) j (omega arith) ∙ ground arith

pub set_from_below :
    (i : ℕ) (vs : List Value) (f : ℕ → Value) (j : ℕ) → j < i → set_from i vs f j ≡ f j
unfolding set_from
set_from_below i [] f j h = refl
set_from_below i (v ∷ vs) f j h =
    set_from_below (suc i) vs (update f i v) j (omega arith) ∙ ground arith

pub entries-set_from :
    (i : ℕ) (vs : List Value) (f : ℕ → Value) → entries i (length vs) (set_from i vs f) ≡ vs
unfolding set_from entries
entries-set_from i [] f = refl
entries-set_from i (v ∷ vs) f =
    cons_ap (set_from_below (suc i) vs (update f i v) i (omega arith) ∙ ground arith)
      (entries-set_from (suc i) vs (update f i v))
