-- ===== src/Prelude/Missing.antt =====
-- The entries of a dictionary whose keys are not in a list: a measure that falls as the list grows.
use Prim.Native.Nat.{ℕ, suc, ◌≤◌, ◌<◌}
use mathlib.Core.Path.{◌≡◌}
use mathlib.Core.Logic.{inl, inr}
use mathlib.Core.Bool.{true, false}
use mathlib.Core.List.{List, [], ◌∷◌}
use native.Mathlib.Omega.{arith}
use trace_mind.Prelude.Tests.{◌==◌, nat_HasEq, if◌then◌else◌, Bool-cases, eq_iff_at}
use trace_mind.Prelude.Lists.{contains, length}
use trace_mind.Prelude.Dicts.{Dict, keys}

module _ {V : Type 0} where
  pub missing : List ℕ → Dict ℕ V → ℕ
  missing sat [] = 0
  missing sat ((sid, v) ∷ es) = if contains sat sid then missing sat es else suc (missing sat es)

  pub missing-le-length : (sat : List ℕ) (es : Dict ℕ V) → missing sat es ≤ length es
  unfolding missing
  missing-le-length sat [] = omega arith
  missing-le-length sat ((sid, v) ∷ es) = ground (arith, missing-le-length sat es)

  pub missing-cons-le :
      (x : ℕ) (sat : List ℕ) (es : Dict ℕ V) → missing (x ∷ sat) es ≤ missing sat es
  unfolding missing
  missing-cons-le x sat [] = omega arith
  missing-cons-le x sat ((sid, v) ∷ es) = ground (arith, missing-cons-le x sat es)

  pub missing-cons-lt :
      (x : ℕ) (sat : List ℕ) (es : Dict ℕ V)
      → contains sat x ≡ false
      → contains (keys es) x ≡ true
      → missing (x ∷ sat) es < missing sat es
  unfolding missing
  missing-cons-lt x sat [] h k = cc
  missing-cons-lt x sat ((sid, v) ∷ es) h k = elim (Bool-cases (sid == x)) [
    | inl same ↦
        let e : sid ≡ x = (eq_iff_at sid x).0 same in ground (arith, missing-cons-le x sat es)
    | inr other ↦ ground (arith, missing-cons-lt x sat es)
  ]
