-- ===== src/Base/Store.antt =====
-- Physical memory as a function from addresses to the value stored there.
use Prim.Native.Nat.{ℕ}
use mathlib.Core.Path.{◌≡◌}
use mathlib.Core.Logic.{◌≢◌}
use native.Mathlib.Omega.{arith}
use boreal_os.Base.Tests.{◌==◌, if◌then◌else◌}

abbrev pub Store : Type 0
Store = ℕ → ℕ

unfoldable pub store : Store → ℕ → ℕ → Store
store m a v x = if a == x then v else m x

pub store_self : (m : Store) (a v : ℕ) → store m a v a ≡ v
unfolding store
store_self m a v = ground arith

pub store_ne : (m : Store) (a v x : ℕ) → a ≢ x → store m a v x ≡ m x
unfolding store
store_ne m a v x h = ground arith
