-- ===== src/Thread/Chain.antt =====
-- Linked lists through NEXT: the abstract view of the active queue and of the timer list of
-- lib/common/mlua.thread.c, and the pointer writes on them.
use micro_lua.Base.{
  ◌≤◌, ◌≡◌, refl, true, false, Option, none, some, List, [], ◌∷◌, ◌++◌, arith, ◌==◌, if◌then◌else◌,
  update, has, last, Distinct, length, last-has, eq_self, inl, inr, Bool-cases,
}
use micro_lua.Thread.{Tid}

-- From `p` the NEXT pointers lead through `l` to nil.
abbrev pub Chain : (Tid → Option Tid) → Option Tid → List Tid → Type 0
Chain next p [] = p ≡ none
Chain next p (t ∷ l) = (p ≡ some t) × Chain next (next t) l

-- What is left of a list when one thread leaves it.
abbrev pub without : Tid → List Tid → List Tid
without t [] = []
without t (x ∷ l) = if t == x then l else x ∷ without t l

pub transfer :
    (next : Tid → Option Tid) (p q : Option Tid) (l k : List Tid)
    → p ≡ q
    → l ≡ k
    → Chain next p l
    → Chain next q k
transfer next p q l k e f c = rw (← e, ← f) c

-- A chain survives any change of NEXT outside its own threads.
pub frame :
    (next next' : Tid → Option Tid) (p : Option Tid) (l : List Tid)
    → Chain next p l
    → ((t : Tid) → has t l ≡ true → next' t ≡ next t)
    → Chain next' p l
frame next next' p [] c same = c
frame next next' p (t ∷ l) c same = (
  c.0,
  rw (same t (ground (arith, eq_self t)))
      (frame next next' (next t) l c.1 (λ u h. same u (ground arith))),
)

pub frame-update :
    (next : Tid → Option Tid) (p : Option Tid) (l : List Tid) (t : Tid) (q : Option Tid)
    → Chain next p l
    → has t l ≡ false
    → Chain (update next t q) p l
frame-update next p l t q c out = frame next _ p l c (λ u h. ground arith)

first_is_not_last :
    (x : Tid) (l : List Tid) (e : Tid) → has x l ≡ false → has e l ≡ true → (e == x) ≡ false
first_is_not_last x l e out inside = elim (Bool-cases (e == x)) [
  | inl same ↦ ground arith
  | inr other ↦ other
]

-- Linking a list behind the last thread of another.
pub link :
    (next : Tid → Option Tid) (p : Option Tid) (l : List Tid) (e : Tid) (q : Option Tid)
    (k : List Tid)
    → Chain next p l
    → last l ≡ some e
    → Distinct l
    → Chain next q k
    → has e k ≡ false
    → Chain (update next e q) p (l ++ k)
link next p [] e q k c le d ck out = absurd (cc le)
link next p (x ∷ []) e q k c le d ck out =
    let x_e : x ≡ e = ground arith in (c.0, rw (x_e, eq_self e) (frame-update next q k e q ck out))
link next p (x ∷ y ∷ l) e q k c le d ck out = (
  c.0,
  rw (first_is_not_last x (y ∷ l) e d.0 (last-has (y ∷ l) e le))
      (link next (next x) (y ∷ l) e q k c.1 le d.1 ck out),
)

-- Cutting a list behind the last thread of its first part.
pub cut :
    (next : Tid → Option Tid) (p : Option Tid) (l : List Tid) (e : Tid) (k : List Tid)
    → Chain next p (l ++ k)
    → last l ≡ some e
    → Distinct l
    → Chain (update next e none) p l
cut next p [] e k c le d = absurd (cc le)
cut next p (x ∷ []) e k c le d = (c.0, ground arith)
cut next p (x ∷ y ∷ l) e k c le d = (
  c.0,
  rw (first_is_not_last x (y ∷ l) e d.0 (last-has (y ∷ l) e le))
      (cut next (next x) (y ∷ l) e k c.1 le d.1),
)

pub without-here : (t x : Tid) (l : List Tid) → (x == t) ≡ true → without t (x ∷ l) ≡ l
without-here t x l e = ground arith

pub without-later :
    (t x : Tid) (l : List Tid) → (x == t) ≡ false → without t (x ∷ l) ≡ x ∷ without t l
without-later t x l e = ground arith

pub has-without : (l : List Tid) (t u : Tid) → has u (without t l) ≡ true → has u l ≡ true
has-without [] t u h = h
has-without (x ∷ l) t u h = ground (arith, has-without l t u)

pub not-has-without : (l : List Tid) (t : Tid) → Distinct l → has t (without t l) ≡ false
not-has-without [] t d = refl
not-has-without (x ∷ l) t d = ground (arith, not-has-without l t d.1)

pub has-without_ne :
    (l : List Tid) (t u : Tid) → has u l ≡ true → (u == t) ≡ false → has u (without t l) ≡ true
has-without_ne [] t u h ne = h
has-without_ne (x ∷ l) t u h ne = ground (arith, has-without_ne l t u)

pub Distinct-without : (l : List Tid) (t : Tid) → Distinct l → Distinct (without t l)
Distinct-without [] t d = tt
Distinct-without (x ∷ l) t d = elim (Bool-cases (t == x)) [
  | inl e ↦ rw e d.1
  | inr e ↦ rw e (ground (arith, has-without l t x), Distinct-without l t d.1)
]

pub length-without : (l : List Tid) (t : Tid) → length (without t l) ≤ length l
length-without [] t = omega arith
length-without (x ∷ l) t = ground (arith, length-without l t)
