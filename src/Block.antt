-- ===== src/Block.antt =====
-- Block devices: the methods of lib/common/mlua.block.c over the device of
-- lib/common/mlua.block.mem.c. The device's offsets are numbers below 2 ^ 64; sizes are size_t of
-- 32 bits.
pub mod Device
use micro_lua.Base.{
  ℕ, zero, suc, ◌+◌, ◌-◌, ◌%◌, ◌^◌, Bool, true, false, Option, none, some, List, leb, ltb,
  if◌then◌else◌, length,
}
use micro_lua.Memory.{Bytes, Buffer, load, store, store_fill, opt}

-- `Dev` of mlua.block.mem.c, with the fields of `MLuaBlockDev` that are data.
pub record Dev : Type 0 where
  pub start : ℕ
  pub size : ℕ
  pub read_size : ℕ
  pub write_size : ℕ
  pub erase_size : ℕ

-- MLUA_EOK with a value, or MLUA_EINVAL.
pub data DevResult (A : Type 0) : Type 0 where
  ok : A → DevResult A
  einval : DevResult A

-- The sum is one of uint64_t.
pub in_dev : Dev → (off size : ℕ) → Bool
in_dev dev off size = leb ((off + size) % 2 ^ 64) dev.size

-- `d->start + off` is an address of 32 bits.
pub mem_dev_read : Dev → (off size : ℕ) → Bytes → DevResult (List ℕ)
unfolding in_dev
mem_dev_read dev off size m =
    if in_dev dev off size then ok (load m ((dev.start + off) % 2 ^ 32) size) else einval

pub mem_dev_write : Dev → (off : ℕ) → List ℕ → Bytes → DevResult Bytes
unfolding in_dev
mem_dev_write dev off src m =
    if in_dev dev off (length src) then ok (store m ((dev.start + off) % 2 ^ 32) src) else einval

pub mem_dev_erase : Dev → (off size : ℕ) → Bytes → DevResult Bytes
unfolding in_dev
mem_dev_erase dev off size m =
    if in_dev dev off size
    then ok (store_fill m ((dev.start + off) % 2 ^ 32) size (2 ^ 8 - 1))
    else einval

-- A buffer with a vtable is refused; an erase size of 0 would be a division by zero: `none`.
pub new : Buffer → (write_size erase_size : Option ℕ) → Option Dev
new buf write_size erase_size = elim buf.vt [
  | some vt ↦ none
  | none ↦ elim (opt erase_size 256) [
    | zero ↦ none
    | suc e ↦ some record {
      start = buf.ptr;
      size = buf.size - buf.size % suc e;
      read_size = 1;
      write_size = opt write_size 256;
      erase_size = suc e;
    }
  ]
]
