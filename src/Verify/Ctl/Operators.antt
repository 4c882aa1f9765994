-- ===== src/Verify/Ctl/Operators.antt =====
-- Each set that `_sat` builds, against what it should hold.
use trace_mind.Prelude.{
  ℕ, zero, suc, ◌+◌, ◌<◌, ◌≡◌, refl, Bool, true, false, not, ◌&&◌, inl, inr, ◌↔◌, none, some, List,
  [], ◌∷◌, Dict, keys, lookup, lookup-keys, contains, contains-keep, Distinct, length, get_elem?,
  nat_HasEq, ◌==◌, eq_iff_at, Bool-cases, arith, subst, ltb,
}
use trace_mind.Prelude.Range.{contains-range}
use trace_mind.Verify.State.{State}
use trace_mind.Verify.Explorer.{ExplorationResult, succs_of}
use trace_mind.Verify.Ctl.Sat.{some_in, select, complement, all_states, ex_states}
use trace_mind.Verify.Ctl.Meaning.{Edge, IsModel}
use trace_mind.Verify.Ctl.Until.{In, some_in-elim, some_in-intro, succs_of-eq, lookup_of_Edge}

-- The value of a test at position i, false past the end.
abbrev pub test_at : {S : Type 0} → (S → Bool) → List S → ℕ → Bool
test_at p states i = elim (get_elem? states i) [ none ↦ false | some st ↦ p st ]

select-below :
    {S : Type 0} (p : S → Bool) (k i : ℕ) (states : List S)
    → i < k
    → contains (select p k states) i ≡ false
select-below p k i [] h = refl
select-below p k i (st ∷ states) h =
    ground (arith, select-below p (suc k) i states (omega arith), eq_iff_at k i)

pub contains-select :
    {S : Type 0} (p : S → Bool) (k i : ℕ) (states : List S)
    → contains (select p k states) (k + i) ≡ test_at p states i
contains-select p k i [] = refl
contains-select p k zero (st ∷ states) =
    ground (arith, select-below p (suc k) (k + 0) states (omega arith), eq_iff_at k (k + 0))
contains-select p k (suc i) (st ∷ states) =
    let e : k + suc i ≡ suc k + i = omega arith in
    rw e (ground (arith, contains-select p (suc k) i states, eq_iff_at k (suc k + i)))

ex-elim :
    (sat : List ℕ) (es : Dict ℕ (List ℕ)) (i : ℕ)
    → Distinct (keys es)
    → In (ex_states sat es) i
    → (l : List ℕ) × (lookup i es ≡ some l) × (some_in sat l ≡ true)
unfolding lookup
ex-elim sat [] i d h = absurd (cc)
ex-elim sat ((sid, succs) ∷ es) i d h = elim (Bool-cases (sid == i)) [
  | inl same ↦ elim (Bool-cases (some_in sat succs)) [
    | inl yes_in ↦ (succs, ground arith, yes_in)
    | inr out ↦
        let (l, e, p) = ex-elim sat es i d.1 (rw out at h) in
        let e' : sid ≡ i = (eq_iff_at sid i).0 same in absurd (ground (arith, lookup-keys es i l e))
  ]
  | inr other ↦ let (l, e, p) = ex-elim sat es i d.1 (ground arith) in (l, ground arith, p)
]

ex-intro :
    (sat : List ℕ) (es : Dict ℕ (List ℕ)) (i : ℕ) (l : List ℕ)
    → lookup i es ≡ some l
    → some_in sat l ≡ true
    → In (ex_states sat es) i
unfolding lookup
ex-intro sat [] i l h p = cc
ex-intro sat ((sid, succs) ∷ es) i l h p = elim (Bool-cases (sid == i)) [
  | inl same ↦ ground arith
  | inr other ↦ ground (arith, ex-intro sat es i l)
]

module _ (m : ExplorationResult State) where
  abbrev Below : ℕ → Type 0
  Below i = i < length m.states

  pub contains-complement :
      (xs : List ℕ) (i : ℕ)
      → contains (complement m xs) i ≡ (ltb i (length m.states) && not (contains xs i))
  contains-complement xs i = ground (
    arith,
    contains-keep (λ j. not (contains xs j)) (all_states m) i,
    contains-range (length m.states) i,
  )

  pub complement_iff : (xs : List ℕ) (i : ℕ) → In (complement m xs) i ↔ (Below i × ¬ (In xs i))
  complement_iff xs i = (
    λ h. (ground (arith, contains-complement xs i), λ c. ground (arith, contains-complement xs i)),
    λ (b, c). elim (Bool-cases (contains xs i)) [
      | inl in_xs ↦ absurd (c in_xs)
      | inr out ↦ ground (arith, contains-complement xs i)
    ],
  )

  module _ (w : IsModel m) where
    pub ex_iff :
        (xs : List ℕ) (i : ℕ) → In (ex_states xs m.edges) i ↔ ((j : ℕ) × Edge m.edges i j × In xs j)
    ex_iff xs i = (
      λ h.
          let (l, e, p) = ex-elim xs m.edges i w.distinct h in
          let (j, in_l, in_xs) = some_in-elim xs l p in
          (j, subst (λ ys. In ys j) (succs_of-eq m.edges i l e) in_l, in_xs),
      λ (j, e, in_xs).
          ex-intro xs m.edges i (succs_of m.edges i) (lookup_of_Edge m.edges i j e)
            (some_in-intro xs (succs_of m.edges i) j e in_xs),
    )
