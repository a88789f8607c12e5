-- ===== src/Memory/Access.antt =====
-- Reads, writes, fills and searches of raw buffers, in lib/common/mlua.mem.c.
use micro_lua.Base.{
  ℕ, zero, suc, ◌+◌, ◌-◌, ◌%◌, ◌^◌, ◌≤◌, ◌<◌, ◌≡◌, refl, ◌∙◌, ◌⊎◌, inl, inr, true, false, Option,
  none, some, List, [], arith, ◌==◌, leb, if◌then◌else◌, length, replicate, Bool-cases, ap, subst,
}
use micro_lua.Memory.{
  Bytes, Buffer, returns, bad_argument, load, store, store_fill, buffer_read, buffer_write,
  buffer_fill, buffer_find, position, memmem, starts_with, check_bounds, optlen, read, write, fill,
  find, get, set,
}
use micro_lua.Memory.Bytes.{
  load-store, store_apart, load-store_fill, store_fill_apart, Searched, search_lem,
  starts_with-load, load-starts_with,
}

-- A raw buffer that lies in the address space.
pub record IsRaw (buf : Buffer) : Type 0 where
  pub raw : buf.vt ≡ none
  pub mapped : 0 < buf.ptr
  pub fits : buf.ptr + buf.size < 2 ^ 32

-- Outside of the buffer's range, or of the part that a call names.
abbrev pub Apart : Buffer → (off len : ℕ) → ℕ → Type 0
Apart buf off len a = (a < buf.ptr + off) ⊎ (buf.ptr + off + len ≤ a)

pub in_bounds :
    (size off i len j : ℕ) → off + len ≤ size → size < 2 ^ 32 → check_bounds size off i len j ≡ none
unfolding check_bounds
in_bounds size off i len j h fits = ground arith

module _ {buf : Buffer} (r : IsRaw buf) where
  address : (off : ℕ) → off ≤ buf.size → (buf.ptr + off) % 2 ^ 32 ≡ buf.ptr + off
  address off h = omega (arith, r.fits)

  pub raw_read :
      (off len : ℕ) (m : Bytes)
      → off ≤ buf.size
      → buffer_read buf off len m ≡ load m (buf.ptr + off) len
  unfolding buffer_read
  raw_read off len m h = rw r.raw (ap (λ a. load m a len) (address off h))

  pub raw_write :
      (off : ℕ) (src : List ℕ) (m : Bytes)
      → off ≤ buf.size
      → buffer_write buf off src m ≡ store m (buf.ptr + off) src
  unfolding buffer_write
  raw_write off src m h = rw r.raw (ap (λ a. store m a src) (address off h))

  raw_fill :
      (off len v : ℕ) (m : Bytes)
      → off ≤ buf.size
      → buffer_fill buf off len v m ≡ store_fill m (buf.ptr + off) len v
  unfolding buffer_fill
  raw_fill off len v m h = rw r.raw (ap (λ a. store_fill m a len v) (address off h))

load-nil : (m : Bytes) (a len : ℕ) → (len == 0) ≡ true → [] ≡ load m a len
unfolding load
load-nil m a zero h = refl
load-nil m a (suc len) h = absurd (ground arith)

read_returns :
    {buf : Buffer} (off len : ℕ) (m : Bytes)
    → IsRaw buf
    → off + len ≤ buf.size
    → read buf (some off) (some len) m ≡ returns (load m (buf.ptr + off) len)
unfolding read optlen
read_returns {buf} off len m r h = rw (in_bounds buf.size off 2 len 3 h (omega (arith, r.fits))) (
    ap returns (elim (Bool-cases (len == 0)) [
      | inl e ↦ rw e (load-nil m (buf.ptr + off) len e)
      | inr e ↦ rw e (raw_read r off len m (omega arith))
    ]))

write_returns :
    {buf : Buffer} (src : List ℕ) (off : ℕ) (m : Bytes)
    → IsRaw buf
    → off + length src ≤ buf.size
    → write buf src (some off) m ≡ returns (store m (buf.ptr + off) src)
unfolding write
write_returns {buf} src off m r h =
    rw (in_bounds buf.size off 3 (length src) 2 h (omega (arith, r.fits)))
      (ap returns (raw_write r off src m (omega arith)))

-- A string that is written inside of a raw buffer of the address space is read back from there,
-- and no byte outside of the range that it takes is changed.
pub write-read :
    {buf : Buffer} (src : List ℕ) (off : ℕ) (m : Bytes)
    → IsRaw buf
    → off + length src ≤ buf.size
    → (m' : Bytes) × (write buf src (some off) m ≡ returns m')
      × (read buf (some off) (some (length src)) m' ≡ returns src)
      × ((a : ℕ) → Apart buf off (length src) a → m' a ≡ m a)
write-read {buf} src off m r h = (
  store m (buf.ptr + off) src,
  write_returns src off m r h,
  read_returns off (length src) _ r h ∙ ap returns (load-store m (buf.ptr + off) src),
  λ a k. store_apart m (buf.ptr + off) src a k,
)

-- A range of a raw buffer that is filled is read back as that many copies of the value's low byte,
-- and no byte outside of the range is changed.
pub fill-read :
    {buf : Buffer} (value off len : ℕ) (m : Bytes)
    → IsRaw buf
    → off + len ≤ buf.size
    → (m' : Bytes) × (fill buf (some value) (some off) (some len) m ≡ returns m')
      × (read buf (some off) (some len) m' ≡ returns (replicate len (value % 2 ^ 8)))
      × ((a : ℕ) → Apart buf off len a → m' a ≡ m a)
unfolding fill optlen
fill-read {buf} value off len m r h = (
  store_fill m (buf.ptr + off) len value,
  rw (in_bounds buf.size off 3 len 4 h (omega (arith, r.fits)))
      (ap returns (raw_fill r off len value m (omega arith))),
  read_returns off len _ r h ∙ ap returns (load-store_fill m (buf.ptr + off) len value),
  λ a k. store_fill_apart m (buf.ptr + off) len value a k,
)

outside :
    (size off i len j : ℕ)
    → size < off + len
    → off + len < 2 ^ 32
    → (x : ℕ) × (check_bounds size off i len j ≡ some x)
unfolding check_bounds
outside size off i len j h fits = elim (Bool-cases (leb off size)) [
  | inl e ↦ (j, ground arith)
  | inr e ↦ (i, ground arith)
]

-- A range that ends below 2 ^ 32 and not in the buffer is refused by every operation, before
-- memory is touched.
pub out_of_bounds_lem :
    (buf : Buffer) (off len : ℕ) (src : List ℕ) (m : Bytes)
    → buf.size < off + len
    → off + len < 2 ^ 32
    → length src ≡ len
    → ((i : ℕ) × (read buf (some off) (some len) m ≡ bad_argument i))
      × ((i : ℕ) × (write buf src (some off) m ≡ bad_argument i))
      × ((i : ℕ) × (fill buf (some 0) (some off) (some len) m ≡ bad_argument i))
      × ((i : ℕ) × (find buf src (some off) (some len) m ≡ bad_argument i))
      × ((i : ℕ) × (get buf off (some len) m ≡ bad_argument i))
      × ((i : ℕ) × (set buf off src m ≡ bad_argument i))
unfolding read write fill find get set optlen
out_of_bounds_lem buf off len src m h fits e = (
  ((outside buf.size off 2 len 3 h fits).0, rw ((outside buf.size off 2 len 3 h fits).1) refl),
  ((outside buf.size off 3 len 2 h fits).0, rw (e, (outside buf.size off 3 len 2 h fits).1) refl),
  ((outside buf.size off 3 len 4 h fits).0, rw ((outside buf.size off 3 len 4 h fits).1) refl),
  ((outside buf.size off 3 len 4 h fits).0, rw ((outside buf.size off 3 len 4 h fits).1) refl),
  ((outside buf.size off 2 len 3 h fits).0, rw ((outside buf.size off 2 len 3 h fits).1) refl),
  (
    (outside buf.size off 2 len (3 + (buf.size - off)) h fits).0,
    rw (e, (outside buf.size off 2 len (3 + (buf.size - off)) h fits).1) refl,
  ),
)

-- What `memmem` says of a range.
abbrev Scanned : List ℕ → Bytes → (from len : ℕ) → Option ℕ → Type 0
Scanned needle m from len none =
    (a : ℕ) → from ≤ a → a + length needle ≤ from + len → starts_with needle m a ≡ false
Scanned needle m from len (some at) =
    (from ≤ at)
    × (at + length needle ≤ from + len)
    × (starts_with needle m at ≡ true)
    × ((a : ℕ) → from ≤ a → a < at → starts_with needle m a ≡ false)

scan :
    (needle : List ℕ) (m : Bytes) (from len : ℕ) (o : Option ℕ)
    → length needle ≤ len
    → Searched needle m from (suc (len - length needle)) o
    → Scanned needle m from len o
scan needle m from len none h s = λ a k l. s a k (omega arith)
scan needle m from len (some at) h s = (s.0, omega (arith, s.1), s.2, s.3)

memmem_lem :
    (needle : List ℕ) (m : Bytes) (from len : ℕ)
    → Scanned needle m from len (memmem m from len needle)
unfolding memmem
memmem_lem needle m from len = elim (Bool-cases (leb (length needle) len)) [
  | inl e ↦ rw e (
      scan needle m from len _ (ground arith)
        (search_lem needle m from (suc (len - length needle))))
  | inr e ↦ rw e (λ a k l. absurd (ground arith))
]

module _ {buf : Buffer} (needle : List ℕ) (off len : ℕ) (m : Bytes) (r : IsRaw buf)
    (h : off + len ≤ buf.size) (h' : off + length needle ≤ buf.size) where
  fits_needle : leb ((off + length needle) % 2 ^ 32) buf.size ≡ true
  fits_needle = ground (arith, r.fits)

  find_checked :
      find buf needle (some off) (some len) m
      ≡ returns (
          if buffer_find buf off len needle m == 2 ^ 32 - 1
          then none
          else some (buffer_find buf off len needle m))
  unfolding find
  find_checked = rw (in_bounds buf.size off 3 len 4 h (omega (arith, r.fits)), fits_needle) refl

  raw_find :
      buffer_find buf off len needle m ≡ position buf.ptr (memmem m (buf.ptr + off) len needle)
  unfolding buffer_find
  raw_find =
      rw r.raw (ap (λ a. position buf.ptr (memmem m a len needle)) (address r off (omega arith)))

  find_none :
      memmem m (buf.ptr + off) len needle ≡ none
      → find buf needle (some off) (some len) m ≡ returns none
  find_none e = find_checked ∙ rw (raw_find ∙ ap (position buf.ptr) e) refl

  find_some :
      (at : ℕ)
      → memmem m (buf.ptr + off) len needle ≡ some at
      → Scanned needle m (buf.ptr + off) len (some at)
      → find buf needle (some off) (some len) m ≡ returns (some (at - buf.ptr))
  find_some at e s =
      let value : position buf.ptr (some at) ≡ at - buf.ptr =
        omega (arith, s.0, s.1, r.fits, r.mapped) in
      let small : (at - buf.ptr == 2 ^ 32 - 1) ≡ false =
        ground (arith, s.0, s.1, r.fits, r.mapped) in
      find_checked ∙ rw (raw_find ∙ ap (position buf.ptr) e ∙ value, small) refl

-- Where the needle stands in a raw buffer.
abbrev pub StandsAt : Buffer → List ℕ → Bytes → ℕ → Type 0
StandsAt buf needle m off = load m (buf.ptr + off) (length needle) ≡ needle

-- The two results of a search.
abbrev pub FindResult : Buffer → List ℕ → (off len : ℕ) → Bytes → Type 0
FindResult buf needle off len m =
    ((find buf needle (some off) (some len) m ≡ returns none)
      × ((k : ℕ) → off ≤ k → k + length needle ≤ off + len → ¬ (StandsAt buf needle m k)))
    ⊎ ((p : ℕ) × (find buf needle (some off) (some len) m ≡ returns (some p))
        × (off ≤ p)
        × (p + length needle ≤ off + len)
        × (StandsAt buf needle m p)
        × ((k : ℕ) → off ≤ k → k < p → ¬ (StandsAt buf needle m k)))

-- A search of a range of a raw buffer, for a needle that fits the buffer from the start of the
-- range on, finds the first place in the range where the needle stands as a whole, and returns
-- nothing exactly if there is none.
pub find_lem :
    {buf : Buffer} (needle : List ℕ) (off len : ℕ) (m : Bytes)
    → IsRaw buf
    → off + len ≤ buf.size
    → off + length needle ≤ buf.size
    → FindResult buf needle off len m
find_lem {buf} needle off len m r h h' =
    by_memmem (memmem m (buf.ptr + off) len needle) refl (memmem_lem needle m (buf.ptr + off) len)
  where
    by_memmem :
        (o : Option ℕ)
        → memmem m (buf.ptr + off) len needle ≡ o
        → Scanned needle m (buf.ptr + off) len o
        → FindResult buf needle off len m
    by_memmem none e s = inl (
      find_none needle off len m r h h' e,
      λ k a b c. absurd (
          ground (
            arith,
            s (buf.ptr + k) (omega arith) (omega arith),
            load-starts_with needle m (buf.ptr + k) c,
          )),
    )
    by_memmem (some at) e s = inr (
      at - buf.ptr,
      find_some needle off len m r h h' at e s,
      omega (arith, s.0),
      omega (arith, s.0, s.1),
      subst (λ a. load m a (length needle) ≡ needle) (omega (arith, s.0))
          (starts_with-load needle m at s.2),
      λ k a b c. absurd (
          ground (
            arith,
            s.3 (buf.ptr + k) (omega arith) (omega arith),
            load-starts_with needle m (buf.ptr + k) c,
          )),
    )
