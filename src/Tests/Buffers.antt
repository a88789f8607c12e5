-- ===== src/Tests/Buffers.antt =====
-- A raw buffer of 16 bytes and a block device in it.
use micro_lua.Base.{
  ℕ, ◌+◌, ◌-◌, ◌%◌, ◌^◌, ◌≤◌, ◌<◌, ◌≡◌, ◌↔◌, ◌≤◌, refl, true, none, some, [], ◌∷◌, arith,
}
use micro_lua.Memory.{Bytes, Buffer, returns, check_bounds, read, write}
use micro_lua.Memory.Bounds.{check_bounds_wrap}
use micro_lua.Memory.Access.{IsRaw, Apart, write-read}
use micro_lua.Block.{Dev, ok, in_dev, mem_dev_read, mem_dev_write}
use micro_lua.Block.Device.{IsDev, Elsewhere, mem_dev_write-read, in_dev_lem}

abbrev buf : Buffer
buf = record { vt = none; ptr = 1000; size = 16 }

abbrev ascending : Bytes
ascending a = a % 256

buf-IsRaw : IsRaw buf
buf-IsRaw = record { raw = refl; mapped = omega arith; fits = omega arith }

check_bounds_wrap_example : (check_bounds 16 12 2 (2 ^ 32 - 4) 3 ≡ none) ↔ ((4 ≤ 12) × (12 ≤ 16))
check_bounds_wrap_example =
    check_bounds_wrap 16 12 2 4 3 (omega arith) (omega arith) (omega arith) (omega arith)

write-read_example :
    (m' : Bytes) × (write buf (7 ∷ 8 ∷ []) (some 14) ascending ≡ returns m')
    × (read buf (some 14) (some 2) m' ≡ returns (7 ∷ 8 ∷ []))
    × ((a : ℕ) → Apart buf 14 2 a → m' a ≡ ascending a)
write-read_example = write-read (7 ∷ 8 ∷ []) 14 ascending buf-IsRaw (omega arith)

abbrev dev : Dev
dev = record { start = 1000; size = 16; read_size = 1; write_size = 4; erase_size = 8 }

dev-IsDev : IsDev dev
dev-IsDev = record { fits = omega arith }

mem_dev_write-read_example :
    (m' : Bytes) × (mem_dev_write dev 14 (7 ∷ 8 ∷ []) ascending ≡ ok m')
    × (mem_dev_read dev 14 2 m' ≡ ok (7 ∷ 8 ∷ []))
    × ((a : ℕ) → Elsewhere dev 14 2 a → m' a ≡ ascending a)
mem_dev_write-read_example =
    mem_dev_write-read dev 14 (7 ∷ 8 ∷ []) ascending dev-IsDev (omega arith)

in_dev_lem_example :
    (9 + 8 < 2 ^ 64 → (in_dev dev 9 8 ≡ true) ↔ (9 + 8 ≤ 16))
    × (9 < 2 ^ 64 → 8 < 2 ^ 64 → 2 ^ 64 ≤ 9 + 8 → (in_dev dev 9 8 ≡ true) ↔ (9 + 8 ≤ 16 + 2 ^ 64))
    × (0 < 4 → 4 ≤ 8 → 8 ≤ 16 + 4 → 4 < 2 ^ 64 → 16 < 2 ^ 32 → in_dev dev (2 ^ 64 - 4) 8 ≡ true)
in_dev_lem_example = in_dev_lem dev 9 8 4
