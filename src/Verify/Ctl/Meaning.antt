-- ===== src/Verify/Ctl/Meaning.antt =====
-- What the formulas of tm/verify/ctl.py mean over an explored model, with no reference to sets or
-- loops: paths, and the states on them. A state without successors ends its paths.
use trace_mind.Prelude.{
  ℕ, ◌<◌, ◌≡◌, true, false, ◌⊎◌, some, List, Dict, keys, contains, Distinct, String, length,
  get_elem?, is_empty, nat_HasEq,
}
use trace_mind.Verify.State.{State}
use trace_mind.Verify.Explorer.{ExplorationResult, succs_of}
use trace_mind.Verify.Ctl.Syntax.{
  Op, UntilOp, Expr, predicate, neg, conj, disj, ctl, until, ex, ef, eg, af, ag, eu, au,
  eval_predicate,
}

module _ (edges : Dict ℕ (List ℕ)) where
  abbrev pub Edge : ℕ → ℕ → Type 0
  Edge i j = contains (succs_of edges i) j ≡ true

  -- Some path from i has L at each state until one with R.
  pub data ExistsUntil (L R : ℕ → Type 0) : ℕ → Type 0 where
    now : {i : ℕ} → R i → ExistsUntil L R i
    later : {i j : ℕ} → L i → Edge i j → ExistsUntil L R j → ExistsUntil L R i

  -- Every path from i has L at each state until one with R, and has one with R.
  pub data AlwaysUntil (L R : ℕ → Type 0) : ℕ → Type 0 where
    now : {i : ℕ} → R i → AlwaysUntil L R i
    later :
        {i : ℕ}
        → L i
        → is_empty (succs_of edges i) ≡ false
        → ((j : ℕ) → Edge i j → AlwaysUntil L R j)
        → AlwaysUntil L R i

  -- j can be reached from i.
  pub data Reach : ℕ → ℕ → Type 0 where
    here : {i : ℕ} → Reach i i
    step : {i j k : ℕ} → Edge i j → Reach j k → Reach i k

  -- A set of states with P, each of which ends the path or has a successor in the set.
  pub record Invariably (P : ℕ → Type 0) (xs : List ℕ) : Type 0 where
    pub always : (j : ℕ) → contains xs j ≡ true → P j
    pub goes_on :
        (j : ℕ)
        → contains xs j ≡ true
        → (is_empty (succs_of edges j) ≡ true) ⊎ ((k : ℕ) × Edge j k × (contains xs k ≡ true))

-- The edges join states of the model, and no key stands twice.
pub record IsModel {S : Type 0} (m : ExplorationResult S) : Type 0 where
  pub distinct : Distinct (keys m.edges)
  pub bounded : (i j : ℕ) → Edge m.edges i j → (i < length m.states) × (j < length m.states)

abbrev pub Always : ℕ → Type 0
Always i = Unit

module _ {S : Type 0} (m : ExplorationResult S) where
  abbrev pub MeansOp : Op → (ℕ → Type 0) → ℕ → Type 0
  MeansOp ex P i = (j : ℕ) × Edge m.edges i j × P j
  MeansOp ef P i = ExistsUntil m.edges Always P i
  MeansOp af P i = AlwaysUntil m.edges Always P i
  MeansOp eg P i = (xs : List ℕ) × (contains xs i ≡ true) × Invariably m.edges P xs
  MeansOp ag P i = (i < length m.states) × ((j : ℕ) → Reach m.edges i j → P j)

  abbrev pub MeansUntil : UntilOp → (ℕ → Type 0) → (ℕ → Type 0) → ℕ → Type 0
  MeansUntil eu L R i = ExistsUntil m.edges L R i
  MeansUntil au L R i = AlwaysUntil m.edges L R i

module _ (enabled : State → List String) (m : ExplorationResult State) where
  -- The formula holds at state number i.
  abbrev pub Means : Expr → ℕ → Type 0
  Means (predicate p) i =
      (st : State) × (get_elem? m.states i ≡ some st) × (eval_predicate enabled p st ≡ true)
  Means (neg e) i = (i < length m.states) × ¬ (Means e i)
  Means (conj e f) i = Means e i × Means f i
  Means (disj e f) i = Means e i ⊎ Means f i
  Means (ctl op e) i = MeansOp m op (Means e) i
  Means (until op e f) i = MeansUntil m op (Means e) (Means f) i
