-- ===== src/Module/Lookup.antt =====
-- What lookup_g and perfect_hash of core/module.c read of a packed table.
use native.Mathlib.Nat.{
  div-div-eq-div-mul, one-le-pow, mul-le-mul_right, zero-mod, zero-div, mod-eq_of_lt, div-eq_of_lt,
  add-mul-div_left, add-mul-mod_self_left,
}
use micro_lua.Base.{
  ℕ, zero, suc, ◌+◌, ◌-◌, ◌*◌, ◌/◌, ◌%◌, ◌^◌, ◌≤◌, ◌<◌, ◌≡◌, sym, ap, ◌∙◌, inl, inr, false, List,
  [], ◌∷◌, arith, ◌==◌, ltb, Bool-cases, length, get_or,
}
use micro_lua.Memory.{Bytes}
use micro_lua.Array.Format.{word}
use micro_lua.Module.{lookup_g}
use micro_lua.Module.Table.{pow-add, word-skip, one_byte, two_bytes, three_bytes}

-- The bits of a number from a position on stand in the bytes from an eighth of it on.
word_bits :
    (m : Bytes) (g n bi : ℕ)
    → ((a : ℕ) → m a < 256)
    → bi / 8 ≤ n
    → word m g n / 2 ^ bi ≡ word m (g + bi / 8) (n - bi / 8) / 2 ^ (bi % 8)
word_bits m g n bi is_byte h =
    let e : bi ≡ 8 * (bi / 8) + bi % 8 = omega arith in
    let e' : n ≡ bi / 8 + (n - bi / 8) = omega arith in
    ap (λ k. word m g n / 2 ^ k) e
    ∙ ap (λ k. word m g n / k) (pow-add (8 * (bi / 8)) (bi % 8))
    ∙ sym (div-div-eq-div-mul (word m g n) (2 ^ (8 * (bi / 8))) (2 ^ (bi % 8)))
    ∙ ap (λ w. w / 2 ^ (bi % 8))
        (ap (λ k. word m g k / 2 ^ (8 * (bi / 8))) e' ∙ word-skip m g (bi / 8) (n - bi / 8) is_byte)

-- A look-up reads the value at its index of the number that the table is, of up to 17 bits.
pub lookup_g_lem :
    (m : Bytes) (g n i bits : ℕ)
    → ((a : ℕ) → m a < 256)
    → bits ≤ 17
    → (i * bits + bits ≤ 8 * n) × (n ≤ 2 ^ 28)
    → lookup_g m g i bits ≡ word m g n / 2 ^ (i * bits) % 2 ^ bits
unfolding lookup_g
lookup_g_lem m g n i zero is_byte narrow inside =
    let one : word m g n / 2 ^ (i * 0) % 2 ^ 0 ≡ 0 = omega arith in sym one
lookup_g_lem m g n i (suc b) is_byte narrow (inside, small) =
    let bi = i * suc b in
    let same : bi % 2 ^ 32 ≡ bi = omega arith in
    let some_bits : (suc b == 0) ≡ false = ground arith in
    let r = n - bi / 8 in
    let s = bi % 8 in
    let at = g + bi / 8 in
    let whole = sym (ap (λ w. w % 2 ^ suc b) (word_bits m g n bi is_byte (omega arith))) in
    rw (same, some_bits)
      (elim (Bool-cases (ltb 8 (suc b + s))) [
        | inr e ↦ rw e (one_byte m is_byte at s (suc b) r (ground arith) (ground arith) ∙ whole)
        | inl e ↦ elim (Bool-cases (ltb 16 (suc b + s))) [
          | inr e' ↦
              rw (e, e') (two_bytes m is_byte at s (suc b) r (ground arith) (ground arith) ∙ whole)
          | inl e' ↦
              rw (e, e')
                (three_bytes m is_byte at s (suc b) r (ground arith) (ground arith) ∙ whole)
        ]
      ])

-- The number that holds values in so many bits each, the first one lowest.
abbrev pub packed : (bits : ℕ) → List ℕ → ℕ
packed bits [] = 0
packed bits (v ∷ vs) = v + 2 ^ bits * packed bits vs

abbrev pub AllBelow : (k : ℕ) → List ℕ → Type 0
AllBelow k [] = Unit
AllBelow k (v ∷ vs) = (v < k) × AllBelow k vs

packed_lem :
    (bits i : ℕ) (vs : List ℕ)
    → AllBelow (2 ^ bits) vs
    → packed bits vs / 2 ^ (i * bits) % 2 ^ bits ≡ get_or vs i 0
packed_lem bits i [] h = ap (λ w. w % 2 ^ bits) (zero-div (2 ^ (i * bits))) ∙ zero-mod (2 ^ bits)
packed_lem bits zero (v ∷ vs) (h, hs) =
    let e : 0 * bits ≡ 0 = omega arith in
    let whole : packed bits (v ∷ vs) / 1 ≡ packed bits (v ∷ vs) = omega arith in
    ap (λ k. packed bits (v ∷ vs) / 2 ^ k % 2 ^ bits) e
    ∙ ap (λ w. w % 2 ^ bits) whole
    ∙ add-mul-mod_self_left v (2 ^ bits) (packed bits vs)
    ∙ mod-eq_of_lt h
packed_lem bits (suc i) (v ∷ vs) (h, hs) =
    let e : suc i * bits ≡ bits + i * bits = grind arith in
    let first : (v + 2 ^ bits * packed bits vs) / 2 ^ bits ≡ packed bits vs =
      add-mul-div_left v (packed bits vs) (one-le-pow bits 2 (omega arith))
      ∙ ap (λ k. k + packed bits vs) (div-eq_of_lt h)
      ∙ omega arith in
    ap (λ k. packed bits (v ∷ vs) / 2 ^ k % 2 ^ bits) e
    ∙ ap (λ k. packed bits (v ∷ vs) / k % 2 ^ bits) (pow-add bits (i * bits))
    ∙ ap (λ w. w % 2 ^ bits)
        (sym (div-div-eq-div-mul (v + 2 ^ bits * packed bits vs) (2 ^ bits) (2 ^ (i * bits))))
    ∙ ap (λ w. w / 2 ^ (i * bits) % 2 ^ bits) first
    ∙ packed_lem bits i vs hs

-- A look-up in a table of values, which are packed in so many bits each, is the value.
pub lookup_g-packed :
    (m : Bytes) (g n bits : ℕ) (vs : List ℕ) (i : ℕ)
    → ((a : ℕ) → m a < 256)
    → word m g n ≡ packed bits vs
    → AllBelow (2 ^ bits) vs
    → (bits ≤ 17) × (n ≤ 2 ^ 28) × (length vs * bits ≤ 8 * n)
    → i < length vs
    → lookup_g m g i bits ≡ get_or vs i 0
lookup_g-packed m g n bits vs i is_byte table below (narrow, small, inside) h =
    let fits : i * bits + bits ≤ 8 * n = grind (arith, mul-le-mul_right bits h) in
    lookup_g_lem m g n i bits is_byte narrow (fits, small)
    ∙ ap (λ w. w / 2 ^ (i * bits) % 2 ^ bits) table
    ∙ packed_lem bits i vs below
