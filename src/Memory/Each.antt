-- ===== src/Memory/Each.antt =====
-- The byte-wise access of `mod_get` and `mod_set` in lib/common/mlua.mem.c.
use micro_lua.Base.{
  ℕ, zero, suc, ◌+◌, ◌-◌, ◌%◌, ◌^◌, ◌≤◌, ◌<◌, ◌≡◌, refl, sym, ◌∙◌, some, List, [], ◌∷◌, arith,
  length, ap, cons_ap, subst,
}
use micro_lua.Memory.{
  Bytes, Buffer, returns, load, store, buffer_read, buffer_write, get, get_bytes, set, set_bytes,
}
use micro_lua.Memory.Bytes.{load-store, store_apart}
use micro_lua.Memory.Access.{IsRaw, Apart, raw_read, raw_write, in_bounds}

abbrev pub low_bytes : List ℕ → List ℕ
low_bytes [] = []
low_bytes (v ∷ vs) = v % 2 ^ 8 ∷ low_bytes vs

length-low_bytes : (vs : List ℕ) → length (low_bytes vs) ≡ length vs
length-low_bytes [] = refl
length-low_bytes (v ∷ vs) = ap suc (length-low_bytes vs)

module _ {buf : Buffer} (r : IsRaw buf) where
  next_offset : (off : ℕ) → off < buf.size → (off + 1) % 2 ^ 32 ≡ suc off
  next_offset off h = omega (arith, r.fits)

  get_bytes_lem :
      (off count : ℕ) (m : Bytes)
      → off + count ≤ buf.size
      → get_bytes buf off count m ≡ load m (buf.ptr + off) count
  unfolding get_bytes load
  get_bytes_lem off zero m h = refl
  get_bytes_lem off (suc count) m h =
      let first : buffer_read buf off 1 m ≡ m (buf.ptr + off) ∷ [] =
        raw_read r off 1 m (omega arith) in
      rw (first, next_offset off (omega arith))
        (cons_ap refl
          (get_bytes_lem (suc off) count m (omega arith) ∙ ap (λ a. load m a count) (omega arith)))

  set_bytes_lem :
      (off : ℕ) (vs : List ℕ) (m : Bytes)
      → off + length vs ≤ buf.size
      → set_bytes buf off vs m ≡ store m (buf.ptr + off) (low_bytes vs)
  unfolding set_bytes store
  set_bytes_lem off [] m h = refl
  set_bytes_lem off (v ∷ vs) m h =
      let next : buf.ptr + suc off ≡ suc (buf.ptr + off) = omega arith in
      let first : buffer_write buf off (v % 2 ^ 8 ∷ []) m ≡ _ =
        raw_write r off (v % 2 ^ 8 ∷ []) m (omega arith) in
      rw (first, next_offset off (omega arith))
        (set_bytes_lem (suc off) vs (store m (buf.ptr + off) (v % 2 ^ 8 ∷ [])) (omega arith)
          ∙ ap (λ a. store (store m (buf.ptr + off) (v % 2 ^ 8 ∷ [])) a (low_bytes vs)) next)

-- Values that are set inside of a raw buffer are got back, each cut to its low byte, and no byte
-- outside of the range that they take is changed.
pub set-get :
    {buf : Buffer} (off : ℕ) (values : List ℕ) (m : Bytes)
    → IsRaw buf
    → off + length values ≤ buf.size
    → (m' : Bytes) × (set buf off values m ≡ returns m')
      × (get buf off (some (length values)) m' ≡ returns (low_bytes values))
      × ((a : ℕ) → Apart buf off (length values) a → m' a ≡ m a)
unfolding set get
set-get {buf} off values m r h =
    let m' = store m (buf.ptr + off) (low_bytes values) in
    let n : length (low_bytes values) ≡ length values = length-low_bytes values in
    (
      m',
      rw (in_bounds buf.size off 2 (length values) (3 + (buf.size - off)) h (omega (arith, r.fits)))
          (ap returns (set_bytes_lem r off values m h)),
      rw (in_bounds buf.size off 2 (length values) 3 h (omega (arith, r.fits))) (
          ap returns (
            get_bytes_lem r off (length values) m' h
            ∙ subst (λ k. load m' (buf.ptr + off) k ≡ low_bytes values) n
                (load-store m (buf.ptr + off) (low_bytes values)))),
      λ a k.
          store_apart m (buf.ptr + off) (low_bytes values) a
            (subst (λ j. Apart buf off j a) (sym n) k),
    )
