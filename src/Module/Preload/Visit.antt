-- ===== src/Module/Preload/Visit.antt =====
-- A loop over the registry of core/module.c, by `pairs`.
use micro_lua.Base.{
  ℕ, zero, suc, ◌≡◌, refl, sym, ap, subst, Bool, true, false, ◌||◌, Option, none, some, List, [],
  ◌∷◌, ◌++◌, append_assoc, arith, eq_self, ◌>>=◌, length,
}
use micro_lua.Module.Preload.{MLuaModule, same_text, index, after, next}

-- The generic `for` of Lua over the registry, from a key on; `none`: the rounds ran out.
abbrev pub visit_next :
    (MLuaModule → Option (List MLuaModule)) → Option MLuaModule → Option (List MLuaModule)
visit_next f none = some []
visit_next f (some m) = f m >>= λ rest. some (m ∷ rest)

abbrev pub visits :
    (rounds : ℕ) → List MLuaModule → (key : Option (List ℕ)) → Option (List MLuaModule)
visits zero ms key = none
visits (suc k) ms key = visit_next (λ m. visits k ms (some m.name)) (next ms key)

-- The names of a registry are distinct.
abbrev pub has_name : List ℕ → List MLuaModule → Bool
has_name name [] = false
has_name name (m ∷ ms) = same_text name m.name || has_name name ms

abbrev pub DistinctNames : List MLuaModule → Type 0
DistinctNames [] = Unit
DistinctNames (m ∷ ms) = (has_name m.name ms ≡ false) × DistinctNames ms

same_text_self : (s : List ℕ) → same_text s s ≡ true
unfolding same_text
same_text_self [] = refl
same_text_self (c ∷ s) = rw (eq_self c) (same_text_self s)

apart_from :
    (name : List ℕ) (pre : List MLuaModule) (m : MLuaModule) (post : List MLuaModule)
    → has_name name (pre ++ m ∷ post) ≡ false
    → same_text name m.name ≡ false
apart_from name [] m post h = ground arith
apart_from name (p ∷ pre) m post h = apart_from name pre m post (ground arith)

-- The loop up to a name leaves what is behind its module, and the look-up finds that module.
after_lem :
    (pre : List MLuaModule) (m : MLuaModule) (post : List MLuaModule)
    → DistinctNames (pre ++ m ∷ post)
    → (after (pre ++ m ∷ post) m.name ≡ post) × (index (pre ++ m ∷ post) m.name ≡ some m.open_fn)
unfolding after index
after_lem [] m post d = rw (same_text_self m.name) (refl, refl)
after_lem (p ∷ pre) m post (apart, d) =
    rw (apart_from p.name pre m post apart) (after_lem pre m post d)

visits_from :
    (pre : List MLuaModule) (m : MLuaModule) (post : List MLuaModule)
    → DistinctNames (pre ++ m ∷ post)
    → visits (suc (length post)) (pre ++ m ∷ post) (some m.name) ≡ some post
unfolding next
visits_from pre m [] d = rw ((after_lem pre m [] d).0) refl
visits_from pre m (m' ∷ post) d =
    let all = append_assoc pre (m ∷ []) (m' ∷ post) in
    let d' = subst DistinctNames (sym all) d in
    let rest =
      subst (λ ms. visits (suc (length post)) ms (some m'.name) ≡ some post) all
        (visits_from (pre ++ m ∷ []) m' post d') in
    rw ((after_lem pre m (m' ∷ post) d).0)
      (ap (λ (o : Option (List MLuaModule)). o >>= λ ms. some (m' ∷ ms)) rest)

visits_all : (ms : List MLuaModule) → DistinctNames ms → visits (suc (length ms)) ms none ≡ some ms
unfolding next
visits_all [] d = refl
visits_all (m ∷ ms) d =
    ap (λ (o : Option (List MLuaModule)). o >>= λ rest. some (m ∷ rest)) (visits_from [] m ms d)

-- In a registry whose names are distinct, a loop over it ends within a round more than there are
-- modules and sees each of them once, in order, and the look-up of its name finds it.
pub visits_lem :
    (pre : List MLuaModule) (m : MLuaModule) (post : List MLuaModule)
    → DistinctNames (pre ++ m ∷ post)
    → (visits (suc (length (pre ++ m ∷ post))) (pre ++ m ∷ post) none ≡ some (pre ++ m ∷ post))
      × (index (pre ++ m ∷ post) m.name ≡ some m.open_fn)
visits_lem pre m post d = (visits_all (pre ++ m ∷ post) d, (after_lem pre m post d).1)
