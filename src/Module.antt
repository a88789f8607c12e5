-- ===== src/Module.antt =====
-- Symbol tables and the registry of modules: core/module.c. A hashed symbol table is perfect: it
-- maps each of its names to the index of its field, without comparing names. The table of vertex
-- values is packed in memory, with so many bits for each of them.
mod Table
pub mod Lookup
pub mod Generator
pub mod Preload
use micro_lua.Base.{
  ℕ, zero, suc, ◌+◌, ◌-◌, ◌*◌, ◌/◌, ◌%◌, ◌^◌, Bool, true, false, ◌&&◌, Option, none, some, List, [],
  ◌∷◌, ◌==◌, ltb, if◌then◌else◌, ◌>>=◌,
}
use micro_lua.Bits.{bit_xor, bit_or}
use micro_lua.Value.{Value}
use micro_lua.Memory.{Bytes}

-- `MLuaSymHash`: the fields are known by their indexes.
pub record MLuaSymHash : Type 0 where
  pub g : ℕ
  pub seed1 : ℕ
  pub seed2 : ℕ
  pub nkeys : ℕ
  pub ng : ℕ
  pub bits : ℕ

-- The bytes of a key, which end at a zero or with the list; a char has no sign, as on ARM.
pub hash : (key : List ℕ) → (seed : ℕ) → ℕ
hash [] seed = seed % 2 ^ 31
hash (c ∷ key) seed =
    let rest = hash key (bit_xor 32 seed c * 19 % 2 ^ 32) in if c == 0 then seed % 2 ^ 31 else rest

pub lookup_g : Bytes → (g index bits : ℕ) → ℕ
lookup_g m g index bits =
    let bi = index * bits % 2 ^ 32 in
    let at = g + bi / 8 in
    let shift = bi % 8 in
    let two = bit_or 32 (m at) (m (at + 1) * 2 ^ 8) in
    let three = bit_or 32 two (m (at + 2) * 2 ^ 16) in
    let value =
      if ltb 8 (bits + shift) then if ltb 16 (bits + shift) then three else two else m at in
    if bits == 0 then 0 else value / 2 ^ shift % 2 ^ bits

pub perfect_hash : Bytes → (key : List ℕ) → MLuaSymHash → ℕ
perfect_hash m key h =
    (lookup_g m h.g (hash key h.seed1 % h.ng) h.bits
      + lookup_g m h.g (hash key h.seed2 % h.ng) h.bits)
    % 2 ^ 32
    % h.nkeys

-- What an access to a class finds: a value of the class table, a field of the hash table, or what
-- `index2` does.
pub data Found : Type 0 where
  in_class : Value → Found
  in_hash : ℕ → Found
  by_index2 : Found

-- `hash___index`, by the value of the class table, if any, and the text of a key that is a string or
-- a number.
pub hash_index : Bytes → MLuaSymHash → Option Value → (key : Option (List ℕ)) → Found
hash_index m h (some v) key = in_class v
hash_index m h none none = by_index2
hash_index m h none (some key) = if ltb 0 h.nkeys then in_hash (perfect_hash m key h) else by_index2
