-- ===== src/Module/Generator.antt =====
-- The generator of hashed symbol tables, tools/gen/gen.lua: the hash of a name as it has it, and the
-- index of a name in a table. A Lua integer has 64 bits here, and the list of the vertex values is
-- counted from 0.
pub mod Hash
use micro_lua.Base.{ℕ, ◌+◌, ◌*◌, ◌%◌, ◌^◌, List, [], ◌∷◌, length, get_or}
use micro_lua.Bits.{bit_xor}

pub hash_loop : (key : List ℕ) → (seed : ℕ) → ℕ
hash_loop [] seed = seed
hash_loop (c ∷ key) seed = hash_loop key (bit_xor 64 seed c * 19 % 2 ^ 64)

pub hash : (key : List ℕ) → (seed : ℕ) → ℕ
hash key seed = hash_loop key seed % 2 ^ 31

pub perfect_hash : (key g : List ℕ) → (seed1 seed2 nkeys : ℕ) → ℕ
perfect_hash key g seed1 seed2 nkeys =
    (get_or g (hash key seed1 % length g) 0 + get_or g (hash key seed2 % length g) 0) % nkeys
