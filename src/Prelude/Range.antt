-- ===== src/Prelude/Range.antt =====
-- range(n) as a list, and membership in it.
use Prim.Native.Nat.{ℕ, zero, suc}
use mathlib.Core.Path.{◌≡◌}
use mathlib.Core.List.{List, [], ◌∷◌, ◌++◌}
use native.Mathlib.Omega.{arith}
use trace_mind.Prelude.Tests.{ltb, nat_HasEq}
use trace_mind.Prelude.Lists.{contains, contains-append}

-- list(range(n))
unfoldable pub range : ℕ → List ℕ
range zero = []
range (suc n) = range n ++ n ∷ []

pub contains-range : (n i : ℕ) → contains (range n) i ≡ ltb i n
unfolding range
contains-range zero i = ground arith
contains-range (suc n) i = ground (arith, contains-append (range n) (n ∷ []) i, contains-range n i)
