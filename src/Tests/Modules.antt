-- ===== src/Tests/Modules.antt =====
-- A small hash table in memory, a registry of three modules, and masks.
use micro_lua.Base.{ℕ, ◌≡◌, ◌<◌, refl, some, none, List, [], ◌∷◌, arith, ◌==◌, if◌then◌else◌}
use micro_lua.Memory.{Bytes}
use micro_lua.Array.Format.{word}
use micro_lua.Module.{MLuaSymHash, perfect_hash}
use micro_lua.Module.Lookup.{packed}
use micro_lua.Module.Generator as Generator
use micro_lua.Module.Generator.Hash.{IsPacked, perfect_hash_lem}
use micro_lua.Module.Preload.{MLuaModule, index, same_text}
use micro_lua.Module.Preload.Visit.{DistinctNames, visits, visits_lem}

abbrev values : List ℕ
values = 1 ∷ 2 ∷ 3 ∷ 4 ∷ 5 ∷ []

abbrev table : Bytes
table = λ a. if a == 64 then 209 else if a == 65 then 88 else 0

abbrev small_hash : MLuaSymHash
small_hash = record { g = 64; seed1 = 1; seed2 = 8; nkeys = 5; ng = 5; bits = 3 }

table_word : word table 64 2 ≡ packed 3 values
unfolding word
table_word = refl

small_hash-IsPacked : IsPacked table small_hash values
small_hash-IsPacked = record {
  is_byte = λ a. ground arith;
  len = 2;
  sizes = (omega arith, omega arith, omega arith);
  table = table_word;
  below = (omega arith, (omega arith, (omega arith, (omega arith, (omega arith, tt)))));
  count = refl;
  pos = omega arith;
}

perfect_hash_lem_example :
    (perfect_hash table (97 ∷ 98 ∷ []) small_hash
      ≡ Generator.perfect_hash (97 ∷ 98 ∷ []) values 1 8 5)
    × (perfect_hash table (97 ∷ 98 ∷ []) small_hash < 5)
perfect_hash_lem_example =
    perfect_hash_lem table small_hash values (97 ∷ 98 ∷ []) small_hash-IsPacked
      (omega arith, (omega arith, tt)) (omega arith)

abbrev first_module : MLuaModule
first_module = record { name = 97 ∷ []; open_fn = 1 }

abbrev second_module : MLuaModule
second_module = record { name = 97 ∷ 98 ∷ []; open_fn = 2 }

abbrev third_module : MLuaModule
third_module = record { name = 98 ∷ []; open_fn = 3 }

abbrev registry : List MLuaModule
registry = first_module ∷ second_module ∷ third_module ∷ []

registry-DistinctNames : DistinctNames registry
unfolding same_text
registry-DistinctNames = (refl, (refl, (refl, tt)))

visits_lem_example :
    (visits 4 registry none ≡ some registry) × (index registry (97 ∷ 98 ∷ []) ≡ some 2)
visits_lem_example =
    visits_lem (first_module ∷ []) second_module (third_module ∷ []) registry-DistinctNames
