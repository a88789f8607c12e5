-- ===== src/Value.antt =====
-- Lua values as the modelled code tells them apart, for the default build: a lua_Integer has 32
-- bits (MLUA_INT=INT) and is written as its bit pattern, and an mlua.Int64 as a pattern of 64 bits.
use micro_lua.Base.{ℕ, Bool, true, false, List}

pub data Value : Type 0 where
  nil : Value
  boolean : Bool → Value
  integer : ℕ → Value
  int64 : ℕ → Value
  string : List ℕ → Value
  other : ℕ → Value

-- `lua_toboolean`
abbrev pub to_boolean : Value → Bool
to_boolean nil = false
to_boolean (boolean b) = b
to_boolean _ = true
