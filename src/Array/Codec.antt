-- ===== src/Array/Codec.antt =====
-- What the element formats of lib/common/mlua.array.c promise to the operations of arrays.
use micro_lua.Base.{ℕ, ◌+◌, ◌≤◌, ◌<◌, ◌≡◌, ◌⊎◌, Option, none, some}
use micro_lua.Value.{Value}
use micro_lua.Memory.{Bytes}
use micro_lua.Array.{ArrayVt, Written, written, raised, memory}

-- Outside of an element.
abbrev pub Beside : (ptr size a : ℕ) → Type 0
Beside ptr size a = (a < ptr) ⊎ (ptr + size ≤ a)

-- What `set` does with a value that is stored as another, or refused.
abbrev pub SetResult : ArrayVt → (size arg ptr : ℕ) → Option Value → Written → Type 0
SetResult vt size arg ptr (some w) r = (m' : Bytes) × (r ≡ written m') × (vt.get size ptr m' ≡ w)
SetResult vt size arg ptr none r = (m' : Bytes) × (r ≡ raised arg m')

-- The contract of a vtable for one size: a value reads as what `stored` says of it, a value that is
-- not stored is refused, and nothing beside the element is read or written.
pub record IsVt (vt : ArrayVt) (size : ℕ) (stored : Value → Option Value) : Type 0 where
  pub sets :
      (arg ptr : ℕ) (v : Value) (m : Bytes)
      → SetResult vt size arg ptr (stored v) (vt.set size arg ptr v m)
  pub apart :
      (arg ptr : ℕ) (v : Value) (m : Bytes) (a : ℕ)
      → Beside ptr size a
      → memory (vt.set size arg ptr v m) a ≡ m a
  pub local :
      (ptr : ℕ) (m m' : Bytes)
      → ((i : ℕ) → i < size → m (ptr + i) ≡ m' (ptr + i))
      → vt.get size ptr m ≡ vt.get size ptr m'
