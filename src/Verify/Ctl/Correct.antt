-- ===== src/Verify/Ctl/Correct.antt =====
-- check_ctl of tm/verify/ctl.py returns the states at which the formula holds.
use trace_mind.Prelude.{
  ℕ, ◌+◌, ◌<◌, ◌≡◌, refl, true, inl, inr, ◌↔◌, List, [], ◌∷◌, contains, contains-keep,
  contains-append, String, length, get_elem?, get_elem?-lt, nat_HasEq, eq_iff_at, Bool-cases,
  Option-cases, arith, subst,
}
use trace_mind.Verify.State.{State}
use trace_mind.Verify.Explorer.{ExplorationResult, succs_of}
use trace_mind.Verify.Ctl.Syntax.{
  Op, UntilOp, Predicate, Expr, predicate, neg, conj, disj, ctl, until, ex, ef, eg, af, ag, eu, au,
  eval_predicate,
}
use trace_mind.Verify.Ctl.Sat.{sat, sat_ctl, sat_until}
use trace_mind.Verify.Ctl.Meaning.{
  ExistsUntil, AlwaysUntil, Invariably, IsModel, Means, MeansOp, MeansUntil,
}
use trace_mind.Verify.Ctl.Until.{In, least_some, least_all}
use trace_mind.Verify.Ctl.Operators.{contains-select, complement_iff, ex_iff}
use trace_mind.Verify.Ctl.Temporal.{exists-map, always-map, ef_iff, af_iff, ag_iff, eg_iff}

module _ (m : ExplorationResult State) (w : IsModel m) where
  abbrev Below : ℕ → Type 0
  Below i = i < length m.states

  exists_bounded :
      {L R : ℕ → Type 0} {i : ℕ} → ((j : ℕ) → R j → Below j) → ExistsUntil m.edges L R i → Below i
  exists_bounded b (ExistsUntil.now {i} r) = b i r
  exists_bounded b (ExistsUntil.later {i} {j} l e rest) = (w.bounded i j e).0

  always_bounded :
      {L R : ℕ → Type 0} {i : ℕ} → ((j : ℕ) → R j → Below j) → AlwaysUntil m.edges L R i → Below i
  always_bounded b (AlwaysUntil.now {i} r) = b i r
  always_bounded b (AlwaysUntil.later {i} l more rest) = first (succs_of m.edges i) refl
    where
      first : (xs : List ℕ) → xs ≡ succs_of m.edges i → Below i
      first [] e = absurd (ground arith)
      first (x ∷ xs) e = (w.bounded i x (subst (λ ys. In ys x) e (ground (arith, eq_iff_at x x)))).0

  MeansOp-bounded :
      (op : Op) {P : ℕ → Type 0} (i : ℕ) → ((j : ℕ) → P j → Below j) → MeansOp m op P i → Below i
  MeansOp-bounded ex i b (j, e, p) = (w.bounded i j e).0
  MeansOp-bounded ef i b h = exists_bounded b h
  MeansOp-bounded af i b h = always_bounded b h
  MeansOp-bounded eg i b (xs, h, inv) = b i (inv.always i h)
  MeansOp-bounded ag i b h = h.0

  Invariably-map :
      {P Q : ℕ → Type 0} (xs : List ℕ)
      → ((j : ℕ) → P j → Q j)
      → Invariably m.edges P xs
      → Invariably m.edges Q xs
  Invariably-map xs f inv = record { always = λ j h. f j (inv.always j h); goes_on = inv.goes_on }

  -- An operator over a set that holds the states with P.
  sat_ctl_iff :
      (op : Op) (P : ℕ → Type 0) (xs : List ℕ)
      → ((j : ℕ) → In xs j ↔ P j)
      → ((j : ℕ) → P j → Below j)
      → (i : ℕ) → In (sat_ctl m op xs) i ↔ MeansOp m op P i
  unfolding sat_ctl
  sat_ctl_iff ex P xs same b i = (
    λ h. let (j, e, p) = (ex_iff m w xs i).0 h in (j, e, (same j).0 p),
    λ (j, e, p). (ex_iff m w xs i).1 (j, e, (same j).1 p),
  )
  sat_ctl_iff ef P xs same b i = (
    λ h. exists-map m.edges (λ _ l. l) (λ j. (same j).0) ((ef_iff m w xs i).0 h),
    λ h. (ef_iff m w xs i).1 (exists-map m.edges (λ _ l. l) (λ j. (same j).1) h),
  )
  sat_ctl_iff af P xs same b i = (
    λ h. always-map m.edges (λ _ l. l) (λ j. (same j).0) ((af_iff m w xs i).0 h),
    λ h. (af_iff m w xs i).1 (always-map m.edges (λ _ l. l) (λ j. (same j).1) h),
  )
  sat_ctl_iff eg P xs same b i =
      let both = eg_iff m w xs i (λ j h. b j ((same j).0 h)) in
      (
        λ h. let (ys, hy, inv) = both.0 h in (ys, hy, Invariably-map ys (λ j. (same j).0) inv),
        λ (ys, hy, inv). both.1 (ys, hy, Invariably-map ys (λ j. (same j).1) inv),
      )
  sat_ctl_iff ag P xs same b i = (
    λ h. let (bound, every) = (ag_iff m w xs i).0 h in (bound, λ j r. (same j).0 (every j r)),
    λ (bound, every). (ag_iff m w xs i).1 (bound, λ j r. (same j).1 (every j r)),
  )

  sat_until_iff :
      (op : UntilOp) (P Q : ℕ → Type 0) (xs ys : List ℕ)
      → ((j : ℕ) → In xs j ↔ P j)
      → ((j : ℕ) → In ys j ↔ Q j)
      → (i : ℕ) → In (sat_until m op xs ys) i ↔ MeansUntil m op P Q i
  unfolding sat_until
  sat_until_iff eu P Q xs ys p q i =
      let both = least_some m.edges (contains xs) ys w.distinct i in
      (
        λ h. exists-map m.edges (λ j. (p j).0) (λ j. (q j).0) (both.0 h),
        λ h. both.1 (exists-map m.edges (λ j. (p j).1) (λ j. (q j).1) h),
      )
  sat_until_iff au P Q xs ys p q i =
      let both = least_all m.edges (contains xs) ys w.distinct i in
      (
        λ h. always-map m.edges (λ j. (p j).0) (λ j. (q j).0) (both.0 h),
        λ h. both.1 (always-map m.edges (λ j. (p j).1) (λ j. (q j).1) h),
      )

module _ (enabled : State → List String) (m : ExplorationResult State) (w : IsModel m) where
  Means-bounded : (e : Expr) (i : ℕ) → Means enabled m e i → i < length m.states
  Means-bounded (predicate p) i (st, at, h) = get_elem?-lt m.states i at
  Means-bounded (neg e) i h = h.0
  Means-bounded (conj e f) i h = Means-bounded e i h.0
  Means-bounded (disj e f) i (inl h) = Means-bounded e i h
  Means-bounded (disj e f) i (inr h) = Means-bounded f i h
  Means-bounded (ctl op e) i h = MeansOp-bounded m w op i (Means-bounded e) h
  Means-bounded (until eu e f) i h = exists_bounded m w (Means-bounded f) h
  Means-bounded (until au e f) i h = always_bounded m w (Means-bounded f) h

  predicate_iff :
      (p : Predicate) (i : ℕ) → In (sat m enabled (predicate p)) i ↔ Means enabled m (predicate p) i
  unfolding sat
  predicate_iff p i =
      let at = contains-select (eval_predicate enabled p) 0 i m.states in
      let same : 0 + i ≡ i = omega arith in
      (
        λ h. elim (Option-cases (get_elem? m.states i)) [
          | inl past ↦ absurd (ground (arith, at, same))
          | inr (st, e) ↦ (st, e, ground (arith, at, same))
        ],
        λ (st, e, h). ground (arith, at, same),
      )

-- For an explored model whose edges join its states and whose keys are distinct, and whatever the
-- enabled steps are: a state is in the set that `_sat` returns for a formula if and only if the
-- formula holds there, by the meaning over paths, for every operator and nesting.
pub sat_correct :
    (enabled : State → List String) (m : ExplorationResult State)
    → IsModel m
    → (e : Expr) (i : ℕ) → (contains (sat m enabled e) i ≡ true) ↔ Means enabled m e i
unfolding sat
sat_correct enabled m w (predicate p) i = predicate_iff enabled m w p i
sat_correct enabled m w (neg e) i = (
  λ h.
      let (b, out) = (complement_iff m (sat m enabled e) i).0 h in
      (b, λ holds. out ((sat_correct enabled m w e i).1 holds)),
  λ (b, out).
      (complement_iff m (sat m enabled e) i).1
        (b, λ inside. out ((sat_correct enabled m w e i).0 inside)),
)
sat_correct enabled m w (conj e f) i =
    let both = contains-keep (contains (sat m enabled f)) (sat m enabled e) i in
    let ih = sat_correct enabled m w e i in
    let ih' = sat_correct enabled m w f i in
    (
      λ h. (ih.0 (ground (arith, both)), ih'.0 (ground (arith, both))),
      λ (p, q). let p' = ih.1 p in let q' = ih'.1 q in ground (arith, both),
    )
sat_correct enabled m w (disj e f) i =
    let either = contains-append (sat m enabled e) (sat m enabled f) i in
    let ih = sat_correct enabled m w e i in
    let ih' = sat_correct enabled m w f i in
    (
      λ h. elim (Bool-cases (contains (sat m enabled e) i)) [
        | inl left ↦ inl (ih.0 left)
        | inr other ↦ inr (ih'.0 (ground (arith, either)))
      ],
      elim [
        | inl p ↦ let p' = ih.1 p in ground (arith, either)
        | inr q ↦ let q' = ih'.1 q in ground (arith, either)
      ],
    )
sat_correct enabled m w (ctl op e) i =
    sat_ctl_iff m w op (Means enabled m e) (sat m enabled e) (λ j. sat_correct enabled m w e j)
      (Means-bounded enabled m w e) i
sat_correct enabled m w (until op e f) i =
    sat_until_iff m w op (Means enabled m e) (Means enabled m f) (sat m enabled e) (sat m enabled f)
      (λ j. sat_correct enabled m w e j) (λ j. sat_correct enabled m w f j) i
