-- ===== src/Verify/Ctl/Fixpoint.antt =====
-- The loops `while changed` of `_sat`: a set of states grows by the states that a test admits,
-- until one pass over the edges adds none.
use trace_mind.Prelude.Missing.{missing, missing-le-length, missing-cons-lt}
use trace_mind.Prelude.{
  ℕ, zero, suc, ◌≤◌, ◌<◌, ◌≡◌, refl, Bool, true, false, not, ◌&&◌, ◌||◌, List, [], ◌∷◌, arith,
  if◌then◌else◌, ◌==◌, nat_HasEq, Dict, keys, contains, length, Bool-cases, inl, inr, eq_iff_at,
  subst,
}

-- Does a test admit a state, given the set so far, the state and its successors?
abbrev pub Admit : Type 0
Admit = List ℕ → ℕ → List ℕ → Bool

module _ (admit : Admit) where
  -- The body of the `for` loop: `sat` with the state, if it is new and admitted.
  abbrev adds : List ℕ → ℕ → List ℕ → Bool
  adds sat sid succs = not (contains sat sid) && admit sat sid succs

  -- for sid, succs in model.edges.items(): ... with `changed`
  unfoldable pub pass : Dict ℕ (List ℕ) → List ℕ → Bool → List ℕ × Bool
  pass [] sat changed = (sat, changed)
  pass ((sid, succs) ∷ es) sat changed =
      pass es (if adds sat sid succs then sid ∷ sat else sat) (adds sat sid succs || changed)

  -- while changed: ...
  unfoldable pub grow : ℕ → Dict ℕ (List ℕ) → List ℕ → List ℕ
  grow zero edges sat = sat
  grow (suc fuel) edges sat =
      let (sat', changed) = pass edges sat false in
      let more = grow fuel edges sat' in if changed then more else sat'

-- One pass for each edge list, and one that adds none.
unfoldable pub least : Admit → Dict ℕ (List ℕ) → List ℕ → List ℕ
unfolding grow pass
least admit edges sat = grow admit (suc (length edges)) edges sat

module _ (admit : Admit) where
  pub contains-pass :
      (es : Dict ℕ (List ℕ)) (sat : List ℕ) (c : Bool) (i : ℕ)
      → contains sat i ≡ true
      → contains (pass admit es sat c).0 i ≡ true
  unfolding pass
  contains-pass [] sat c i h = h
  contains-pass ((sid, succs) ∷ es) sat c i h =
      contains-pass es (if adds admit sat sid succs then sid ∷ sat else sat)
        (adds admit sat sid succs || c) i (ground arith)

  missing-pass :
      (full es : Dict ℕ (List ℕ)) (sat : List ℕ) (c : Bool)
      → ((k : ℕ) → contains (keys es) k ≡ true → contains (keys full) k ≡ true)
      → (missing (pass admit es sat c).0 full ≤ missing sat full)
        × ((pass admit es sat c).1 ≡ true
            → c ≡ false
            → missing (pass admit es sat c).0 full < missing sat full)
  unfolding pass
  missing-pass full [] sat c sub = (omega arith, λ h k. cc)
  missing-pass full ((sid, succs) ∷ es) sat c sub = elim (Bool-cases (adds admit sat sid succs)) [
    | inl new ↦
        let (le, _) = missing-pass full es (sid ∷ sat) true (λ k h. sub k (ground arith)) in
        let here = sub sid (ground (arith, eq_iff_at sid sid)) in
        let lt = missing-cons-lt sid sat full (ground arith) here in
        rw (new, pass) (omega arith, λ _ _. omega arith)
    | inr old ↦ rw (old, pass) (missing-pass full es sat c (λ k h. sub k (ground arith)))
  ]

  -- No entry is left that the test would admit.
  abbrev pub Closed : List ℕ → Dict ℕ (List ℕ) → Type 0
  Closed sat [] = Unit
  Closed sat ((sid, succs) ∷ es) =
      (admit sat sid succs ≡ true → contains sat sid ≡ true) × Closed sat es

  pass-unchanged :
      (es : Dict ℕ (List ℕ)) (sat : List ℕ) (c : Bool)
      → (pass admit es sat c).1 ≡ false
      → (c ≡ false) × ((pass admit es sat c).0 ≡ sat) × Closed sat es
  unfolding pass
  pass-unchanged [] sat c h = (h, refl, tt)
  pass-unchanged ((sid, succs) ∷ es) sat c h = elim (Bool-cases (adds admit sat sid succs)) [
    | inl new ↦
        let (bad, _, _) = pass-unchanged es (sid ∷ sat) true (rw (new, pass) at h) in absurd (cc)
    | inr old ↦
        let (same, eq, rest) = pass-unchanged es sat c (rw (old, pass) at h) in
        (same, rw (old, pass) eq, (λ p. ground arith, rest))
  ]

  pub contains-grow :
      (fuel : ℕ) (es : Dict ℕ (List ℕ)) (sat : List ℕ) (i : ℕ)
      → contains sat i ≡ true
      → contains (grow admit fuel es sat) i ≡ true
  unfolding grow
  contains-grow zero es sat i h = h
  contains-grow (suc fuel) es sat i h =
      let kept = contains-pass es sat false i h in
      elim (Bool-cases (pass admit es sat false).1) [
        | inl again ↦ rw again (contains-grow fuel es (pass admit es sat false).0 i kept)
        | inr stop ↦ rw stop kept
      ]

  grow-Closed :
      (fuel : ℕ) (es : Dict ℕ (List ℕ)) (sat : List ℕ)
      → missing sat es < fuel
      → Closed (grow admit fuel es sat) es
  unfolding grow
  grow-Closed zero es sat h = absurd (omega arith)
  grow-Closed (suc fuel) es sat h = elim (Bool-cases (pass admit es sat false).1) [
    | inl again ↦
        let (_, falls) = missing-pass es es sat false (λ k p. p) in
        let lt = falls again refl in
        rw again (grow-Closed fuel es (pass admit es sat false).0 (omega arith))
    | inr stop ↦ let (_, same, closed) = pass-unchanged es sat false stop in rw (stop, same) closed
  ]

  module _ {ℓ} (P : ℕ → Type ℓ) where
    -- What one entry may add has the property, if all that is in the set has it.
    abbrev pub Sound : Dict ℕ (List ℕ) → Type ℓ
    Sound [] = Unit
    Sound ((sid, succs) ∷ es) =
        ((sat : List ℕ)
          → ((i : ℕ) → contains sat i ≡ true → P i)
          → admit sat sid succs ≡ true
          → P sid)
        × Sound es

    pass_sound :
        (es : Dict ℕ (List ℕ)) (sat : List ℕ) (c : Bool)
        → Sound es
        → ((i : ℕ) → contains sat i ≡ true → P i)
        → (i : ℕ) → contains (pass admit es sat c).0 i ≡ true
        → P i
    unfolding pass
    pass_sound [] sat c rules h i m = h i m
    pass_sound ((sid, succs) ∷ es) sat c rules h i m =
        elim (Bool-cases (adds admit sat sid succs)) [
          | inl new ↦
              let here = rules.0 sat h (ground arith) in
              pass_sound es (sid ∷ sat) true rules.1 (extend here) i (rw (new, pass) at m)
          | inr old ↦ pass_sound es sat c rules.1 h i (rw (old, pass) at m)
        ]
      where
        extend : P sid → (j : ℕ) → contains (sid ∷ sat) j ≡ true → P j
        extend p j mj = elim (Bool-cases (sid == j)) [
          | inl same ↦ subst P ((eq_iff_at sid j).0 same) p
          | inr other ↦ h j (ground arith)
        ]

    grow_sound :
        (fuel : ℕ) (es : Dict ℕ (List ℕ)) (sat : List ℕ)
        → Sound es
        → ((i : ℕ) → contains sat i ≡ true → P i)
        → (i : ℕ) → contains (grow admit fuel es sat) i ≡ true
        → P i
    unfolding grow
    grow_sound zero es sat rules h i m = h i m
    grow_sound (suc fuel) es sat rules h i m =
        let sat' = (pass admit es sat false).0 in
        let h' = pass_sound es sat false rules h in
        elim (Bool-cases (pass admit es sat false).1) [
          | inl again ↦ grow_sound fuel es sat' rules h' i (rw (again, grow) at m)
          | inr stop ↦ h' i (rw (stop, grow) at m)
        ]

    pub least_sound :
        (es : Dict ℕ (List ℕ)) (sat : List ℕ)
        → Sound es
        → ((i : ℕ) → contains sat i ≡ true → P i)
        → (i : ℕ) → contains (least admit es sat) i ≡ true
        → P i
    unfolding least
    least_sound es sat = grow_sound (suc (length es)) es sat

  pub contains-least :
      (es : Dict ℕ (List ℕ)) (sat : List ℕ) (i : ℕ)
      → contains sat i ≡ true
      → contains (least admit es sat) i ≡ true
  unfolding least
  contains-least es sat = contains-grow (suc (length es)) es sat

  -- The passes that `least` allows are enough: the last one added nothing.
  pub least-Closed : (es : Dict ℕ (List ℕ)) (sat : List ℕ) → Closed (least admit es sat) es
  unfolding least
  least-Closed es sat =
      grow-Closed (suc (length es)) es sat (omega (arith, missing-le-length sat es))
