-- ===== src/Thread/Suspend.antt =====
-- How a thread gives up the processor in lib/common/mlua.thread.c: what `yield`, `suspend` and
-- `shutdown` hand to the scheduling loop.
use micro_lua.Base.{
  ◌≡◌, refl, inl, inr, Bool, true, false, Option, none, some, [], ◌∷◌, if◌then◌else◌, subst,
}
use micro_lua.Value.{Value, nil, boolean, integer, int64, string, other}
use micro_lua.Time.{is_time}
use micro_lua.Thread.Loop.{CoResult, yielded}
use micro_lua.Thread.Loop.Between.{IsResult}

-- `mod_yield`
pub mod_yield : CoResult
mod_yield = yielded []

-- `mod_suspend`: `none` is the error about an argument that is no time.
pub mod_suspend : Value → Option CoResult
mod_suspend nil = some (yielded (nil ∷ []))
mod_suspend v = if is_time v then some (yielded (v ∷ [])) else none

-- `mod_shutdown`, with the result of main() and whether it is an error.
pub mod_shutdown : (result raise : Value) → CoResult
mod_shutdown result raise = yielded (result ∷ raise ∷ [])

abbrev Taken : Option CoResult → Type 0
Taken none = Unit
Taken (some r) = IsResult r

-- What `suspend` hands to the scheduling loop, if it does not raise an error, is a result that the
-- loop can take.
pub suspend-IsResult : (v : Value) (r : CoResult) → mod_suspend v ≡ some r → IsResult r
unfolding mod_suspend
suspend-IsResult v r h = subst Taken h (taken v)
  where
    timed :
        (v : Value) (b : Bool) → is_time v ≡ b → Taken (if b then some (yielded (v ∷ [])) else none)
    timed v true e = inr e
    timed v false e = tt

    taken : (v : Value) → Taken (mod_suspend v)
    taken nil = inl refl
    taken (boolean b) = timed (boolean b) _ refl
    taken (integer n) = timed (integer n) _ refl
    taken (int64 n) = timed (int64 n) _ refl
    taken (string s) = timed (string s) _ refl
    taken (other n) = timed (other n) _ refl
