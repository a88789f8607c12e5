-- ===== src/LuaList/Edit.antt =====
-- Changes of a list in lib/common/mlua.list.c against the list of its contents.
use micro_lua.Base.{
  ℕ, suc, ◌+◌, ◌-◌, ◌^◌, ◌≤◌, ◌<◌, ◌≡◌, refl, sym, ◌∙◌, ap, true, false, none, some, List, [], ◌∷◌,
  ◌++◌, arith, ◌==◌, leb, ltb, if◌then◌else◌, update, length, take, drop, cons_ap, Bool-cases, inl,
  inr,
}
use micro_lua.Value.{Value, nil}
use micro_lua.LuaList.{
  Border, Table, len, entries, set_from, shift_up, shift_down, clear_from, append, insert, remove,
  set_len, in_list, can_remove, pack, not_negative,
}
use micro_lua.LuaList.Contents.{
  contents, entries_at, entries-ext, entries-append, entries-shift, take-entries, drop-entries,
  shift_up_at, shift_down_at, clear_from_at, set_from_below, entries-set_from,
}

len-append :
    (border : Border) (t : Table) (vs : List Value)
    → len border t + length vs < 2 ^ 31
    → len border (append border (some t) vs) ≡ len border t + length vs
unfolding append len
len-append border t vs h = omega arith

-- Values appended to a list, up to a length below 2 ^ 31, come behind its contents in their order.
pub append_lem :
    (border : Border) (t : Table) (vs : List Value)
    → len border t + length vs < 2 ^ 31
    → contents border (append border (some t) vs) ≡ contents border t ++ vs
unfolding append
append_lem border t vs h =
    entries_at 1 1 (len border (append border (some t) vs)) (len border t + length vs)
      (set_from (suc (len border t)) vs t.at) refl (len-append border t vs h)
    ∙ entries-append 1 (len border t) (length vs) (set_from (suc (len border t)) vs t.at)
    ∙ ap (λ l. l ++ entries (1 + len border t) (length vs) (set_from (suc (len border t)) vs t.at))
        (entries-ext 1 (len border t) _ t.at
          (λ j a b. set_from_below (suc (len border t)) vs t.at j (omega arith)))
    ∙ ap (λ l. entries 1 (len border t) t.at ++ l)
        (entries_at (1 + len border t) (suc (len border t)) (length vs) (length vs)
            (set_from (suc (len border t)) vs t.at) (omega arith) refl
          ∙ entries-set_from (suc (len border t)) vs t.at)

-- Around position `p`.
module _ (f g : ℕ → Value) (l p : ℕ) (v : Value) (pos : 0 < p) (le : p ≤ suc l)
    (below : (j : ℕ) → j < p → g j ≡ f j) (here : g p ≡ v)
    (above : (j : ℕ) → p ≤ j → j ≤ l → g (suc j) ≡ f j) where
  front : entries 1 (p - 1) g ≡ take (p - 1) (entries 1 l f)
  front =
      entries-ext 1 (p - 1) g f (λ j a b. below j (omega arith))
      ∙ sym (take-entries 1 (p - 1) l f (omega arith))

  back : entries (suc p) (suc l - p) g ≡ drop (p - 1) (entries 1 l f)
  back =
      entries-shift p (suc l - p) g f (λ j a b. above j a (omega arith))
      ∙ entries_at p (1 + (p - 1)) (suc l - p) (l - (p - 1)) f (omega arith) (omega arith)
      ∙ sym (drop-entries 1 (p - 1) l f (omega arith))

  entries-inserted :
      entries 1 (suc l) g ≡ take (p - 1) (entries 1 l f) ++ v ∷ drop (p - 1) (entries 1 l f)
  unfolding entries
  entries-inserted =
      entries_at 1 1 (suc l) (p - 1 + suc (suc l - p)) g refl (omega arith)
      ∙ entries-append 1 (p - 1) (suc (suc l - p)) g
      ∙ ap (λ k. k ++ entries (1 + (p - 1)) (suc (suc l - p)) g) front
      ∙ ap (λ k. take (p - 1) (entries 1 l f) ++ k)
          (entries_at (1 + (p - 1)) p (suc (suc l - p)) (suc (suc l - p)) g (omega arith) refl
            ∙ cons_ap here back)

module _ (border : Border) (t : Table) (p : ℕ) (v : Value) where
  inserted : Table
  inserted = record {
    at = update (shift_up (len border t + 1) (len border t + 1 - p) t.at) p v;
    n = some (len border t + 1);
  }

  insert_refused : in_list p (len border t + 1) ≡ false → insert border (some t) (some p) v ≡ none
  unfolding insert
  insert_refused h = rw h refl

  module _ (fits : len border t < 2 ^ 31 - 1) where
    refused_below : p ≡ 0 → in_list p (len border t + 1) ≡ false
    unfolding in_list
    refused_below e = ground arith

    refused_above : p < 2 ^ 32 → len border t + 1 < p → in_list p (len border t + 1) ≡ false
    unfolding in_list
    refused_above small h = ground arith

    module _ (pos : 0 < p) (le : p ≤ len border t + 1) where
      passes : in_list p (len border t + 1) ≡ true
      unfolding in_list
      passes = ground arith

      insert_ran : insert border (some t) (some p) v ≡ some inserted
      unfolding insert inserted
      insert_ran = rw passes refl

      len-inserted : len border inserted ≡ suc (len border t)
      unfolding inserted len
      len-inserted = omega arith

      moved :
          (j : ℕ)
          → inserted.at j ≡ (
              if p == j
              then v
              else if ltb p j
              then (if leb j (len border t + 1) then t.at (j - 1) else t.at j)
              else t.at j)
      unfolding inserted
      moved j =
          ground (arith, shift_up_at (len border t + 1) (len border t + 1 - p) t.at j (omega arith))

      contents-inserted :
          contents border inserted
          ≡ take (p - 1) (contents border t) ++ v ∷ drop (p - 1) (contents border t)
      contents-inserted =
          entries_at 1 1 (len border inserted) (suc (len border t)) inserted.at refl len-inserted
          ∙ entries-inserted t.at inserted.at (len border t) p v pos (omega arith)
              (λ j h. ground (arith, moved j)) (ground (arith, moved p))
              (λ j a b. moved (suc j) ∙ ground arith)

-- For a list of less than 2 ^ 31 - 1 elements, inserting at a position from 1 up to one behind the
-- list puts the value before the elements from that position on, and keeps all others in their
-- order. Position 0, and one further behind or negative, is refused.
pub insert_lem :
    (border : Border) (t : Table) (p : ℕ) (v : Value)
    → len border t < 2 ^ 31 - 1
    → p < 2 ^ 32
    → (0 < p
        → p ≤ len border t + 1
        → (t' : Table) × (insert border (some t) (some p) v ≡ some t')
          × (contents border t'
              ≡ take (p - 1) (contents border t) ++ v ∷ drop (p - 1) (contents border t)))
      × (p ≡ 0 → insert border (some t) (some p) v ≡ none)
      × (len border t + 1 < p → insert border (some t) (some p) v ≡ none)
insert_lem border t p v fits small = (
  λ pos le. (
    inserted border t p v,
    insert_ran border t p v fits pos le,
    contents-inserted border t p v fits pos le,
  ),
  λ e. insert_refused border t p v (refused_below border t p v fits e),
  λ h. insert_refused border t p v (refused_above border t p v fits small h),
)

-- A removal.
module _ (border : Border) (t : Table) (p : ℕ) (pos : 0 < p) where
  removed : Table
  removed = record {
    at =
        update (shift_down p (len border t - p) t.at)
          (if leb p (len border t) then len border t else p) nil;
    n = some (len border t - 1);
  }

  can : len border t < 2 ^ 31 → p ≤ len border t + 1 → can_remove p (len border t) ≡ true
  unfolding can_remove
  can fits le = ground arith

  cannot : len border t + 1 < p → p < 2 ^ 32 → can_remove p (len border t) ≡ false
  unfolding can_remove
  cannot h small = ground arith

  remove_ran :
      0 < len border t
      → can_remove p (len border t) ≡ true
      → remove border (some p) t ≡ some (some (t.at p), removed)
  unfolding remove removed
  remove_ran h c =
      let some_left : (len border t == 0) ≡ false = ground arith in rw (c, some_left) refl

  len-removed : len border removed ≡ len border t - 1
  unfolding removed len
  len-removed = refl

  removed_at :
      (j : ℕ) → j < len border t → removed.at j ≡ (if leb p j then t.at (suc j) else t.at j)
  unfolding removed
  removed_at j h = ground (arith, shift_down_at p (len border t - p) t.at j)

  removed_front :
      (k : ℕ) → k < p → k < len border t → entries 1 k removed.at ≡ take k (contents border t)
  removed_front k h h' =
      entries-ext 1 k removed.at t.at (λ j a b. ground (arith, removed_at j))
      ∙ sym (take-entries 1 k (len border t) t.at (omega arith))

  removed_back :
      p ≤ len border t → entries p (len border t - p) removed.at ≡ drop p (contents border t)
  removed_back le =
      sym
        (entries-shift p (len border t - p) t.at removed.at (λ j a b. ground (arith, removed_at j)))
      ∙ entries_at (suc p) (1 + p) (len border t - p) (len border t - p) t.at (omega arith) refl
      ∙ sym (drop-entries 1 p (len border t) t.at le)

  contents-removed :
      p ≤ len border t
      → contents border removed ≡ take (p - 1) (contents border t) ++ drop p (contents border t)
  contents-removed le =
      entries_at 1 1 (len border removed) (p - 1 + (len border t - p)) removed.at refl
        (omega (arith, len-removed))
      ∙ entries-append 1 (p - 1) (len border t - p) removed.at
      ∙ ap (λ k. k ++ entries (1 + (p - 1)) (len border t - p) removed.at)
          (removed_front (p - 1) (omega arith) (omega arith))
      ∙ ap (λ k. take (p - 1) (contents border t) ++ k)
          (entries_at (1 + (p - 1)) p (len border t - p) (len border t - p) removed.at (omega arith)
              refl
            ∙ removed_back le)

  removed_end :
      0 < len border t
      → p ≡ len border t + 1
      → contents border removed ≡ take (len border t - 1) (contents border t)
  removed_end h e =
      entries_at 1 1 (len border removed) (len border t - 1) removed.at refl len-removed
      ∙ removed_front (len border t - 1) (omega arith) (omega arith)

  remove_refused : can_remove p (len border t) ≡ false → remove border (some p) t ≡ none
  unfolding remove
  remove_refused c = rw c refl

-- For a list that is not empty: an element is removed and returned, and those behind it move up.
-- The position behind the last element passes the check too: the entry there is returned, and the
-- last element drops out of the list. A position further behind, or negative, is refused.
pub remove_lem :
    (border : Border) (t : Table) (p : ℕ)
    → 0 < len border t
    → len border t < 2 ^ 31
    → 0 < p
    → p < 2 ^ 32
    → (p ≤ len border t
        → (t' : Table) × (remove border (some p) t ≡ some (some (t.at p), t'))
          × (contents border t' ≡ take (p - 1) (contents border t) ++ drop p (contents border t)))
      × (p ≡ len border t + 1
          → (t' : Table) × (remove border (some p) t ≡ some (some (t.at p), t'))
            × (contents border t' ≡ take (len border t - 1) (contents border t)))
      × (len border t + 1 < p → remove border (some p) t ≡ none)
remove_lem border t p some_left fits pos small = (
  λ le. (
    removed border t p pos,
    remove_ran border t p pos some_left (can border t p pos fits (omega arith)),
    contents-removed border t p pos le,
  ),
  λ e. (
    removed border t p pos,
    remove_ran border t p pos some_left (can border t p pos fits (omega arith)),
    removed_end border t p pos some_left e,
  ),
  λ h. remove_refused border t p pos (cannot border t p pos h small),
)

module _ (border : Border) (t : Table) (k : ℕ) where
  cleared : Table
  cleared = record {
    at = clear_from (len border t) (len border t - not_negative k) t.at;
    n = some (not_negative k);
  }

  cleared_contents : contents border cleared ≡ entries 1 (not_negative k) t.at
  unfolding cleared len
  cleared_contents =
      entries-ext 1 (not_negative k)
        (clear_from (len border t) (len border t - not_negative k) t.at) t.at
        (λ j a b.
          clear_from_at (len border t) (len border t - not_negative k) t.at j (omega arith)
          ∙ ground arith)

  contents-set_len : contents border (set_len border k t).1 ≡ entries 1 (not_negative k) t.at
  unfolding set_len cleared
  contents-set_len = elim (Bool-cases (not_negative k == len border t)) [
    | inl e ↦ rw e (entries_at 1 1 (len border t) (not_negative k) t.at refl (ground arith))
    | inr e ↦ rw e cleared_contents
  ]

  set_len_old : (set_len border k t).0 ≡ len border t
  unfolding set_len
  set_len_old = refl

empty : (f : ℕ → Value) {l : List Value} → l ≡ entries 1 0 f → l ≡ []
unfolding entries
empty f e = e

-- Setting the length cuts the list, or makes it longer; a negative length empties it. The old length
-- is returned.
pub set_len_lem :
    (border : Border) (t : Table) (k : ℕ)
    → len border t < 2 ^ 31
    → ((set_len border k t).0 ≡ len border t)
      × (k ≤ len border t → contents border (set_len border k t).1 ≡ take k (contents border t))
      × (2 ^ 31 ≤ k → contents border (set_len border k t).1 ≡ [])
      × (len border t ≤ k
          → k < 2 ^ 31
          → contents border (set_len border k t).1
            ≡ contents border t ++ entries (1 + len border t) (k - len border t) t.at)
set_len_lem border t k fits = (
  set_len_old border t k,
  λ h.
      contents-set_len border t k
      ∙ entries_at 1 1 (not_negative k) k t.at refl (ground arith)
      ∙ sym (take-entries 1 k (len border t) t.at h),
  λ h.
      contents-set_len border t k
      ∙ empty t.at (entries_at 1 1 (not_negative k) 0 t.at refl (ground arith)),
  λ h small.
      contents-set_len border t k
      ∙ entries_at 1 1 (not_negative k) (len border t + (k - len border t)) t.at refl (ground arith)
      ∙ entries-append 1 (len border t) (k - len border t) t.at,
)

-- The values of `pack` are the contents of the list.
pub pack_lem : (border : Border) (vs : List Value) → contents border (pack vs) ≡ vs
unfolding pack len
pack_lem border vs = entries-set_from 1 vs (λ i. nil)
