-- ===== src/Array/Format/Text.antt =====
-- The string format of lib/common/mlua.array.c.
use micro_lua.Base.{
  ℕ, zero, suc, ◌+◌, ◌-◌, ◌≤◌, ◌<◌, ◌≡◌, refl, sym, ap, ◌∙◌, ◌⊎◌, subst, Option, none, some, List,
  [], ◌∷◌, ◌>>=◌, arith, length, take, replicate, length-append,
}
use micro_lua.Value.{Value, string}
use micro_lua.Memory.{Bytes, load, store}
use micro_lua.Memory.Bytes.{store_apart, load-store}
use micro_lua.Array.{memory}
use micro_lua.Array.Codec.{IsVt, SetResult, Beside}
use micro_lua.Array.Format.{Coercions, check_string, pad, set_string, vt_string}
use micro_lua.Array.Format.Word.{load_local}

length-replicate : (n v : ℕ) → length (replicate n v) ≡ n
length-replicate zero v = refl
length-replicate (suc n) v = ap suc (length-replicate n v)

length-take : (n : ℕ) (s : List ℕ) → length (take n s) + (n - length s) ≡ n
length-take zero s = omega arith
length-take (suc n) [] = omega arith
length-take (suc n) (x ∷ s) = omega (arith, length-take n s)

pub length-pad : (size : ℕ) (s : List ℕ) → length (pad size s) ≡ size
length-pad size s = omega (
  arith,
  length-append (take size s) (replicate (size - length s) 0),
  length-replicate (size - length s) 0,
  length-take size s,
)

abbrev pub string_stored : Coercions → (size : ℕ) → Value → Option Value
string_stored co size v = check_string co v >>= (λ s. some (string (pad size s)))

module _ (co : Coercions) (size : ℕ) where
  load-pad : (m : Bytes) (p : ℕ) (s : List ℕ) → load (store m p (pad size s)) p size ≡ pad size s
  load-pad m p s =
      ap (load (store m p (pad size s)) p) (sym (length-pad size s)) ∙ load-store m p (pad size s)

  string_set :
      (arg p : ℕ) (m : Bytes) (o : Option (List ℕ))
      → SetResult
          (vt_string co)
          size
          arg
          p
          (o >>= (λ s. some (string (pad size s))))
          (set_string size arg p m o)
  unfolding vt_string
  string_set arg p m none = (m, refl)
  string_set arg p m (some s) = (store m p (pad size s), refl, ap string (load-pad m p s))

  set_string-Beside :
      (arg p : ℕ) (m : Bytes) (o : Option (List ℕ)) (a : ℕ)
      → Beside p size a
      → memory (set_string size arg p m o) a ≡ m a
  set_string-Beside arg p m none a h = refl
  set_string-Beside arg p m (some s) a h =
      store_apart m p (pad size s) a
        (subst (λ l. (a < p) ⊎ (p + l ≤ a)) (sym (length-pad size s)) h)

  -- A string is kept when it has the size, and else cut or padded to it.
  pub vt_string-IsVt : IsVt (vt_string co) size (string_stored co size)
  unfolding vt_string
  vt_string-IsVt = record {
    sets = λ arg p v m. string_set arg p m (check_string co v);
    apart = λ arg p v m a h. set_string-Beside arg p m (check_string co v) a h;
    local = λ p m m' h. ap string (load_local p size m m' h);
  }
