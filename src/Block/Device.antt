-- ===== src/Block/Device.antt =====
-- The memory block device of lib/common/mlua.block.mem.c as a device: reads give what was written or
-- erased last, and nothing outside of the buffer is touched.
use micro_lua.Base.{
  ℕ, zero, suc, ◌+◌, ◌-◌, ◌*◌, ◌/◌, ◌%◌, ◌^◌, ◌≤◌, ◌<◌, ◌≡◌, refl, ◌∙◌, ◌⊎◌, ◌↔◌, true, Option,
  some, List, arith, length, ap, replicate,
}
use native.Mathlib.Omega.{div_fact, mod_fact}
use native.Mathlib.Nat.{mul-mod_right, mod-le}
use micro_lua.Memory.{Bytes, Buffer, load, store, store_fill, opt}
use micro_lua.Memory.Bytes.{load-store, store_apart, load-store_fill, store_fill_apart}
use micro_lua.Memory.Access.{IsRaw}
use micro_lua.Block.{Dev, ok, in_dev, mem_dev_read, mem_dev_write, mem_dev_erase, new}

-- The device lies in the address space.
pub record IsDev (dev : Dev) : Type 0 where
  pub fits : dev.start + dev.size < 2 ^ 32

abbrev pub Elsewhere : Dev → (off len : ℕ) → ℕ → Type 0
Elsewhere dev off len a = (a < dev.start + off) ⊎ (dev.start + off + len ≤ a)

accepts :
    (dev : Dev) (off size : ℕ) → IsDev dev → off + size ≤ dev.size → in_dev dev off size ≡ true
unfolding in_dev
accepts dev off size d h = ground (arith, d.fits)

module _ (dev : Dev) (d : IsDev dev) where
  address : (off : ℕ) → off ≤ dev.size → (dev.start + off) % 2 ^ 32 ≡ dev.start + off
  address off h = omega (arith, d.fits)

  dev_read :
      (off size : ℕ) (m : Bytes)
      → off + size ≤ dev.size
      → mem_dev_read dev off size m ≡ ok (load m (dev.start + off) size)
  unfolding mem_dev_read
  dev_read off size m h =
      rw (accepts dev off size d h) (ap (λ a. ok (load m a size)) (address off (omega arith)))

  dev_write :
      (off : ℕ) (src : List ℕ) (m : Bytes)
      → off + length src ≤ dev.size
      → mem_dev_write dev off src m ≡ ok (store m (dev.start + off) src)
  unfolding mem_dev_write
  dev_write off src m h =
      rw (accepts dev off (length src) d h)
        (ap (λ a. ok (store m a src)) (address off (omega arith)))

  dev_erase :
      (off size : ℕ) (m : Bytes)
      → off + size ≤ dev.size
      → mem_dev_erase dev off size m ≡ ok (store_fill m (dev.start + off) size (2 ^ 8 - 1))
  unfolding mem_dev_erase
  dev_erase off size m h =
      rw (accepts dev off size d h)
        (ap (λ a. ok (store_fill m a size (2 ^ 8 - 1))) (address off (omega arith)))

-- What is written inside of a device in the address space is read back, and no other byte is
-- changed.
pub mem_dev_write-read :
    (dev : Dev) (off : ℕ) (src : List ℕ) (m : Bytes)
    → IsDev dev
    → off + length src ≤ dev.size
    → (m' : Bytes) × (mem_dev_write dev off src m ≡ ok m')
      × (mem_dev_read dev off (length src) m' ≡ ok src)
      × ((a : ℕ) → Elsewhere dev off (length src) a → m' a ≡ m a)
mem_dev_write-read dev off src m d h = (
  store m (dev.start + off) src,
  dev_write dev d off src m h,
  dev_read dev d off (length src) _ h ∙ ap ok (load-store m (dev.start + off) src),
  λ a k. store_apart m (dev.start + off) src a k,
)

-- An erased range inside of a device in the address space reads as bytes 255, and no other byte is
-- changed.
pub mem_dev_erase-read :
    (dev : Dev) (off size : ℕ) (m : Bytes)
    → IsDev dev
    → off + size ≤ dev.size
    → (m' : Bytes) × (mem_dev_erase dev off size m ≡ ok m')
      × (mem_dev_read dev off size m' ≡ ok (replicate size 255))
      × ((a : ℕ) → Elsewhere dev off size a → m' a ≡ m a)
mem_dev_erase-read dev off size m d h = (
  store_fill m (dev.start + off) size (2 ^ 8 - 1),
  dev_erase dev d off size m h,
  dev_read dev d off size _ h ∙ ap ok (load-store_fill m (dev.start + off) size (2 ^ 8 - 1)),
  λ a k. store_fill_apart m (dev.start + off) size (2 ^ 8 - 1) a k,
)

-- A range whose end is below 2 ^ 64 passes the check of read, write and erase exactly when it ends
-- in the device. One whose end is not passes, too, when its end wrapped at 2 ^ 64 does not pass that
-- of the device: so does one that starts k bytes before a device of less than 2 ^ 32 bytes, its
-- offset the bit pattern of -k, when it is at least k bytes long and ends in the device.
pub in_dev_lem :
    (dev : Dev) (off size k : ℕ)
    → (off + size < 2 ^ 64 → (in_dev dev off size ≡ true) ↔ (off + size ≤ dev.size))
      × (off < 2 ^ 64
          → size < 2 ^ 64
          → 2 ^ 64 ≤ off + size
          → (in_dev dev off size ≡ true) ↔ (off + size ≤ dev.size + 2 ^ 64))
      × (0 < k
          → k ≤ size
          → size ≤ dev.size + k
          → k < 2 ^ 64
          → dev.size < 2 ^ 32
          → in_dev dev (2 ^ 64 - k) size ≡ true)
unfolding in_dev
in_dev_lem dev off size k =
    (λ fits. ground arith, λ small small' wraps. ground arith, λ pos le fits small d. ground arith)

whole_blocks : (n e : ℕ) → n - n % suc e ≡ suc e * (n / suc e)
whole_blocks n e = omega (arith, div_fact n e)

-- The device that is made of a raw buffer, with an erase size over 0, starts with it, covers whole
-- erase blocks of it and leaves out less than one.
pub new_lem :
    (buf : Buffer) (write_size : Option ℕ) (e : ℕ)
    → IsRaw buf
    → 0 < e
    → (dev : Dev) × (new buf write_size (some e) ≡ some dev)
      × IsDev dev
      × (dev.start ≡ buf.ptr)
      × (dev.size % e ≡ 0)
      × (dev.size ≤ buf.size)
      × (buf.size < dev.size + e)
unfolding new
new_lem buf write_size zero r pos = absurd (omega arith)
new_lem buf write_size (suc e) r pos = (
  record {
    start = buf.ptr;
    size = buf.size - buf.size % suc e;
    read_size = 1;
    write_size = opt write_size 256;
    erase_size = suc e;
  },
  ground (arith, r.raw),
  record { fits = omega (arith, r.fits) },
  refl,
  ap (λ n. n % suc e) (whole_blocks buf.size e) ∙ mul-mod_right (suc e) (buf.size / suc e),
  omega arith,
  omega (arith, mod_fact buf.size e, mod-le buf.size (suc e)),
)
