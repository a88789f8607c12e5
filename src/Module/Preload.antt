-- ===== src/Module/Preload.antt =====
-- The registry of modules, through which core/module.c finds the modules that are linked in: an
-- array of names and functions that open them.
pub mod Visit
use micro_lua.Base.{
  ℕ, Bool, true, false, ◌&&◌, Option, none, some, List, [], ◌∷◌, ◌==◌, if◌then◌else◌,
}

-- `MLuaModule`
pub record MLuaModule : Type 0 where
  pub name : List ℕ
  pub open_fn : ℕ

-- `strcmp` with the result 0
unfoldable pub same_text : List ℕ → List ℕ → Bool
same_text [] [] = true
same_text [] (c ∷ t) = false
same_text (c ∷ s) [] = false
same_text (c ∷ s) (d ∷ t) = c == d && same_text s t

-- `Preload___index`; `none`: no result.
pub index : List MLuaModule → (name : List ℕ) → Option ℕ
index [] name = none
index (m ∷ ms) name =
    let rest = index ms name in if same_text m.name name then some m.open_fn else rest

-- The loop of `Preload_next` up to a name.
pub after : List MLuaModule → (name : List ℕ) → List MLuaModule
after [] name = []
after (m ∷ ms) name = let rest = after ms name in if same_text m.name name then ms else rest

abbrev pub first : List MLuaModule → Option MLuaModule
first [] = none
first (m ∷ ms) = some m

-- `Preload_next`, by a name or nil.
pub next : List MLuaModule → (key : Option (List ℕ)) → Option MLuaModule
next ms none = first ms
next ms (some name) = first (after ms name)
