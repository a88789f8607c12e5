-- ===== src/Tests/Listing.antt =====
-- A list of three entries, with more behind its end.
use micro_lua.Base.{
  ℕ, ◌+◌, ◌-◌, ◌≤◌, ◌<◌, ◌≡◌, ◌==◌, Bool, false, none, some, ◌∷◌, ◌++◌, arith, take, drop,
}
use micro_lua.Value.{Value, nil, integer}
use micro_lua.LuaList.{Border, Table, len, insert, remove}
use micro_lua.LuaList.Contents.{contents}
use micro_lua.LuaList.Edit.{insert_lem, remove_lem}

abbrev no_border : Border
no_border at = 0

abbrev three : Table
three = record { at = λ i. integer (10 + i); n = some 3 }

abbrev same_integer : Value → Value → Bool
same_integer (integer a) (integer b) = a == b
same_integer _ _ = false

abbrev second : ℕ
second = 2

insert_lem_example :
    (0 < 2
      → 2 ≤ len no_border three + 1
      → (t' : Table) × (insert no_border (some three) (some 2) nil ≡ some t')
        × (contents no_border t'
            ≡ take (2 - 1) (contents no_border three)
              ++ nil ∷ drop (2 - 1) (contents no_border three)))
    × (second ≡ 0 → insert no_border (some three) (some 2) nil ≡ none)
    × (len no_border three + 1 < 2 → insert no_border (some three) (some 2) nil ≡ none)
unfolding len
insert_lem_example = insert_lem no_border three 2 nil (omega arith) (omega arith)

remove_lem_example :
    (4 ≤ len no_border three
      → (t' : Table) × (remove no_border (some 4) three ≡ some (some (integer 14), t'))
        × (contents no_border t'
            ≡ take (4 - 1) (contents no_border three) ++ drop 4 (contents no_border three)))
    × (4 ≡ len no_border three + 1
        → (t' : Table) × (remove no_border (some 4) three ≡ some (some (integer 14), t'))
          × (contents no_border t' ≡ take (len no_border three - 1) (contents no_border three)))
    × (len no_border three + 1 < 4 → remove no_border (some 4) three ≡ none)
unfolding len
remove_lem_example =
    remove_lem no_border three 4 (omega arith) (omega arith) (omega arith) (omega arith)
