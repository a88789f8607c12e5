-- ===== src/Module/Generator/Hash.antt =====
-- The perfect hash of core/module.c is the one of the generator, tools/gen/gen.lua.
use native.Mathlib.Nat.{mod-lt, one-le-pow, pow-le-pow_right}
use micro_lua.Base.{
  ℕ, zero, suc, ◌+◌, ◌*◌, ◌%◌, ◌^◌, ◌≤◌, ◌<◌, ◌≡◌, refl, sym, ap, ◌∙◌, subst, false, List, [], ◌∷◌,
  arith, ◌==◌, length, get_or,
}
use micro_lua.Bits.{bit_xor}
use micro_lua.Bits.Operators.{bit_xor_low}
use micro_lua.Memory.{Bytes}
use micro_lua.Array.Format.{word}
use micro_lua.Module.{lookup_g, perfect_hash, hash, MLuaSymHash}
use micro_lua.Module.Generator as Generator
use micro_lua.Module.Lookup.{packed, AllBelow, lookup_g-packed}

-- The text of a C string: no character is zero.
abbrev pub NoZero : List ℕ → Type 0
NoZero [] = Unit
NoZero (c ∷ cs) = (0 < c) × NoZero cs

hash_from :
    (key : List ℕ) (s s' : ℕ)
    → NoZero key
    → s' % 2 ^ 32 ≡ s % 2 ^ 32
    → hash key s ≡ Generator.hash_loop key s' % 2 ^ 31
unfolding hash Generator.hash_loop
hash_from [] s s' h same = omega arith
hash_from (c ∷ key) s s' (pos, h) same =
    let some_char : (c == 0) ≡ false = ground arith in
    let low = bit_xor_low 32 32 s' s c same in
    rw some_char (
      hash_from key (bit_xor 32 s c * 19 % 2 ^ 32) (bit_xor 64 s' c * 19 % 2 ^ 64) h
        (omega (arith, low)))

-- The hash of a text on 32 bits is the generator's on 64 bits.
pub hash_lem : (key : List ℕ) (seed : ℕ) → NoZero key → hash key seed ≡ Generator.hash key seed
unfolding Generator.hash
hash_lem key seed h = hash_from key seed seed h refl

below_get : (k : ℕ) (vs : List ℕ) (i : ℕ) → 0 < k → AllBelow k vs → get_or vs i 0 < k
below_get k [] i pos h = pos
below_get k (v ∷ vs) zero pos (h, hs) = h
below_get k (v ∷ vs) (suc i) pos (h, hs) = below_get k vs i pos hs

-- A hash table whose vertex values stand in memory.
pub record IsPacked (m : Bytes) (h : MLuaSymHash) (vs : List ℕ) : Type 0 where
  pub is_byte : (a : ℕ) → m a < 256
  pub len : ℕ
  pub sizes : (h.bits ≤ 17) × (len ≤ 2 ^ 28) × (length vs * h.bits ≤ 8 * len)
  pub table : word m h.g len ≡ packed h.bits vs
  pub below : AllBelow (2 ^ h.bits) vs
  pub count : length vs ≡ h.ng
  pub pos : 0 < h.ng

vertex :
    {m : Bytes} {h : MLuaSymHash} {vs : List ℕ} (p : IsPacked m h vs) (key : List ℕ) (seed : ℕ)
    → NoZero key
    → lookup_g m h.g (hash key seed % h.ng) h.bits
      ≡ get_or vs (Generator.hash key seed % length vs) 0
vertex {m} {h} {vs} p key seed text =
    let i = hash key seed % h.ng in
    let inside : i < length vs = subst (λ n. i < n) (sym p.count) (mod-lt (hash key seed) p.pos) in
    lookup_g-packed m h.g p.len h.bits vs i p.is_byte p.table p.below p.sizes inside
    ∙ ap (λ n. get_or vs (hash key seed % n) 0) (sym p.count)
    ∙ ap (λ n. get_or vs (n % length vs) 0) (hash_lem key seed text)

vertex_small :
    {m : Bytes} {h : MLuaSymHash} {vs : List ℕ} (p : IsPacked m h vs) (i : ℕ)
    → get_or vs i 0 < 2 ^ 17
vertex_small {m} {h} {vs} p i =
    let widest = pow-le-pow_right {n = 2} (omega arith) {j = 17} p.sizes.0 in
    omega (arith, below_get (2 ^ h.bits) vs i (one-le-pow h.bits 2 (omega arith)) p.below, widest)

add_small : (a b n : ℕ) → a < 2 ^ 17 → b < 2 ^ 17 → (a + b) % 2 ^ 32 % n ≡ (a + b) % n
add_small a b n small small' = let e : (a + b) % 2 ^ 32 ≡ a + b = omega arith in ap (λ w. w % n) e

-- The index that a table in memory gives to a text is the one that the generator computes from the
-- values, and it is below the number of keys, if there are any.
pub perfect_hash_lem :
    (m : Bytes) (h : MLuaSymHash) (vs key : List ℕ)
    → IsPacked m h vs
    → NoZero key
    → 0 < h.nkeys
    → (perfect_hash m key h ≡ Generator.perfect_hash key vs h.seed1 h.seed2 h.nkeys)
      × (perfect_hash m key h < h.nkeys)
unfolding perfect_hash Generator.perfect_hash
perfect_hash_lem m h vs key p text some_keys =
    let index = λ (seed : ℕ). Generator.hash key seed % length vs in
    (
      ap (λ a. (a + lookup_g m h.g (hash key h.seed2 % h.ng) h.bits) % 2 ^ 32 % h.nkeys)
            (vertex p key h.seed1 text)
          ∙ ap (λ b. (get_or vs (index h.seed1) 0 + b) % 2 ^ 32 % h.nkeys)
              (vertex p key h.seed2 text)
          ∙ add_small (get_or vs (index h.seed1) 0) (get_or vs (index h.seed2) 0) h.nkeys
              (vertex_small p (index h.seed1)) (vertex_small p (index h.seed2)),
      mod-lt
          ((lookup_g m h.g (hash key h.seed1 % h.ng) h.bits
              + lookup_g m h.g (hash key h.seed2 % h.ng) h.bits)
            % 2 ^ 32)
          some_keys,
    )
