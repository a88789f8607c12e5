-- ===== src/Array/Format/Fixed.antt =====
-- The formats with an integer type of their own, in lib/common/mlua.array.c.
use micro_lua.Base.{
  ℕ, ◌+◌, ◌%◌, ◌^◌, ◌≤◌, ◌<◌, ◌≡◌, refl, sym, ap, ◌⊎◌, subst, Option, none, some, ◌>>=◌,
}
use micro_lua.Value.{Value, integer, int64}
use micro_lua.Int64.{check_int64}
use micro_lua.Memory.{Bytes, store}
use micro_lua.Memory.Bytes.{store_apart}
use micro_lua.Array.{memory}
use micro_lua.Array.Codec.{IsVt, SetResult, Beside}
use micro_lua.Array.Format.{
  fixed_vt, store_checked, bytes_of, Coercions, check_integer, extend, vt_int8, vt_uint8, vt_int16,
  vt_uint16, vt_int32, vt_uint32, vt_uint64,
}
use micro_lua.Array.Format.Word.{word-store, word_local, length-bytes_of}

pub store-Beside :
    (m : Bytes) (p size n a : ℕ) → Beside p size a → store m p (bytes_of size n) a ≡ m a
store-Beside m p size n a h =
    store_apart m p (bytes_of size n) a
      (subst (λ l. (a < p) ⊎ (p + l ≤ a)) (sym (length-bytes_of size n)) h)

pub store_checked-Beside :
    (m : Bytes) (arg p size : ℕ) (o : Option ℕ) (a : ℕ)
    → Beside p size a
    → memory (store_checked m arg size p o) a ≡ m a
store_checked-Beside m arg p size none a h = refl
store_checked-Beside m arg p size (some n) a h = store-Beside m p size n a h

module _ (size : ℕ) (check : Value → Option ℕ) (push : ℕ → Value) where
  abbrev pub fixed_stored : Value → Option Value
  fixed_stored v = check v >>= (λ n. some (push (n % 256 ^ size)))

  fixed_set :
      (arg p : ℕ) (m : Bytes) (o : Option ℕ)
      → SetResult
          (fixed_vt size check push)
          size
          arg
          p
          (o >>= (λ n. some (push (n % 256 ^ size))))
          (store_checked m arg size p o)
  fixed_set arg p m none = (m, refl)
  fixed_set arg p m (some n) = (store m p (bytes_of size n), refl, ap push (word-store m p size n))

  -- Such a format keeps the value modulo the range of its type.
  pub fixed-IsVt : IsVt (fixed_vt size check push) size fixed_stored
  fixed-IsVt = record {
    sets = λ arg p v m. fixed_set arg p m (check v);
    apart = λ arg p v m a h. store_checked-Beside m arg p size (check v) a h;
    local = λ p m m' h. ap push (word_local p size m m' h);
  }

module _ (co : Coercions) where
  pub vt_int8-IsVt : IsVt (vt_int8 co) 1 (fixed_stored 1 (check_integer co) (extend 8))
  unfolding vt_int8
  vt_int8-IsVt = fixed-IsVt 1 (check_integer co) (extend 8)

  pub vt_uint8-IsVt : IsVt (vt_uint8 co) 1 (fixed_stored 1 (check_integer co) integer)
  unfolding vt_uint8
  vt_uint8-IsVt = fixed-IsVt 1 (check_integer co) integer

  pub vt_int16-IsVt : IsVt (vt_int16 co) 2 (fixed_stored 2 (check_integer co) (extend 16))
  unfolding vt_int16
  vt_int16-IsVt = fixed-IsVt 2 (check_integer co) (extend 16)

  pub vt_uint16-IsVt : IsVt (vt_uint16 co) 2 (fixed_stored 2 (check_integer co) integer)
  unfolding vt_uint16
  vt_uint16-IsVt = fixed-IsVt 2 (check_integer co) integer

  pub vt_int32-IsVt : IsVt (vt_int32 co) 4 (fixed_stored 4 (check_integer co) (extend 32))
  unfolding vt_int32
  vt_int32-IsVt = fixed-IsVt 4 (check_integer co) (extend 32)

  pub vt_uint32-IsVt : IsVt (vt_uint32 co) 4 (fixed_stored 4 (check_integer co) integer)
  unfolding vt_uint32
  vt_uint32-IsVt = fixed-IsVt 4 (check_integer co) integer

pub vt_uint64-IsVt : IsVt vt_uint64 8 (fixed_stored 8 check_int64 int64)
unfolding vt_uint64
vt_uint64-IsVt = fixed-IsVt 8 check_int64 int64
