-- ===== src/Verify/Checker.antt =====
-- tm/verify/invariants.py, and the explorer over the adapter of a plan.
use trace_mind.Prelude.{
  ℕ, zero, suc, ◌+◌, ◌<◌, ◌≡◌, refl, Bool, true, false, inl, inr, ◌↔◌, Option, none, some, List, [],
  ◌∷◌, sym, ◌∙◌, String, get_elem?, nat_HasEq, text_HasEq, Bool-cases, Option-cases, arith,
  if◌then◌else◌,
}
use trace_mind.Verify.State.{State, Payload, stable_hash}
use trace_mind.Verify.Adapter.{TraceMindAdapter, initial_state, successors, is_deadlocked}
use trace_mind.Verify.Explorer.{System, ExplorationResult, finished, run, path_to}
use trace_mind.Verify.Explorer.Invariant.{ReachesIn}
use trace_mind.Verify.Explorer.Results.{Respects, run_complete}
use trace_mind.Verify.Ctl.Syntax.{Expr, has_ctl_nodes, eval_state_expr, eval_state_expr-total}

-- The adapter of a plan as the explorer sees it; `none` is an exception before the first round.
unfoldable pub system_of : (Payload → String) → String → TraceMindAdapter → Option (System State)
unfolding stable_hash
system_of digest mode a = elim (initial_state a) [
  | none ↦ none
  | some root ↦ elim (stable_hash digest mode root) [
    | none ↦ none
    | some _ ↦ some (record {
      root = root;
      successors = successors a;
      is_deadlocked = is_deadlocked a;
      hash = λ s. elim (stable_hash digest mode s) [ none ↦ "" | some h ↦ h ];
    })
  ]
]

-- InvariantResult. `parsed` is what parse_expr made of the text, none for a parse error; the reason
-- is the constructor.
pub data Verdict : Type 0 where
  parse_error has_ctl holds : Verdict
  violated : ℕ → List ℕ → Verdict

-- The first state, from number i on, at which the formula is false. A ValueError cannot occur here,
-- see eval_state_expr-total, and is passed over.
unfoldable pub first_violation : (State → List String) → Expr → ℕ → List State → Option ℕ
unfolding eval_state_expr
first_violation enabled e i [] = none
first_violation enabled e i (st ∷ states) =
    let later = first_violation enabled e (suc i) states in
    elim (eval_state_expr enabled e st) [ none ↦ later | some b ↦ if b then later else some i ]

unfoldable pub check_invariant :
    (State → List String) → ExplorationResult State → Option Expr → Verdict
unfolding first_violation has_ctl_nodes
check_invariant enabled model none = parse_error
check_invariant enabled model (some e) =
    if has_ctl_nodes e then has_ctl else elim (first_violation enabled e 0 model.states) [
      | none ↦ holds
      | some i ↦ violated i (path_to model i)
    ]

module _ (enabled : State → List String) (e : Expr) (plain : has_ctl_nodes e ≡ false) where
  -- Without a violation the formula is true at every state.
  none_violated :
      (k : ℕ) (states : List State)
      → first_violation enabled e k states ≡ none
      → (i : ℕ) (st : State) → get_elem? states i ≡ some st
      → eval_state_expr enabled e st ≡ some true
  unfolding first_violation
  none_violated k [] h i st at = cc
  none_violated k (u ∷ states) h zero st at =
      let (b, value) = eval_state_expr-total enabled e u plain in
      let same : u ≡ st = ground arith in rw (← same) (ground (arith, value))
  none_violated k (u ∷ states) h (suc i) st at =
      let (b, value) = eval_state_expr-total enabled e u plain in
      none_violated (suc k) states (ground (arith, value)) i st at

  -- A violation is reported at the first state where the formula is false.
  first_violated :
      (k v : ℕ) (states : List State)
      → first_violation enabled e k states ≡ some v
      → (i : ℕ) × (v ≡ k + i)
        × ((st : State) × (get_elem? states i ≡ some st)
            × (eval_state_expr enabled e st ≡ some false))
        × ((j : ℕ) (st : State)
            → j < i
            → get_elem? states j ≡ some st
            → eval_state_expr enabled e st ≡ some true)
  unfolding first_violation
  first_violated k v [] h = absurd (cc)
  first_violated k v (u ∷ states) h =
      let (b, value) = eval_state_expr-total enabled e u plain in
      elim (Bool-cases b) [
        | inr bad ↦ (
          0,
          ground (arith, value),
          (u, refl, ground (arith, value)),
          λ j st lt. absurd (omega arith),
        )
        | inl good ↦
            let (i, eq, here, before) = first_violated (suc k) v states (ground (arith, value)) in
            (suc i, omega arith, here, earlier i value good before)
      ]
    where
      earlier :
          (i : ℕ) {b : Bool}
          → eval_state_expr enabled e u ≡ some b
          → b ≡ true
          → ((j : ℕ) (st : State)
              → j < i
              → get_elem? states j ≡ some st
              → eval_state_expr enabled e st ≡ some true)
          → (j : ℕ) (st : State) → j < suc i
          → get_elem? (u ∷ states) j ≡ some st
          → eval_state_expr enabled e st ≡ some true
      earlier i value good before zero st lt at =
          let same : u ≡ st = ground arith in rw (← same) (ground (arith, value))
      earlier i value good before (suc j) st lt at = before j st (omega arith) at

-- For a formula without temporal operators, check_invariants reports that it holds exactly if it is
-- true at every state of the model; and where it reports a violation, the formula is false at the
-- state, true at all states before it, and the path is the one to that state.
pub check_invariant_correct :
    (enabled : State → List String) (model : ExplorationResult State) (e : Expr)
    → has_ctl_nodes e ≡ false
    → ((check_invariant enabled model (some e) ≡ holds) ↔ (
        (i : ℕ) (st : State)
        → get_elem? model.states i ≡ some st
        → eval_state_expr enabled e st ≡ some true))
      × ((v : ℕ) (path : List ℕ)
          → check_invariant enabled model (some e) ≡ violated v path
          → (path ≡ path_to model v)
            × ((st : State) × (get_elem? model.states v ≡ some st)
                × (eval_state_expr enabled e st ≡ some false))
            × ((j : ℕ) (st : State)
                → j < v
                → get_elem? model.states j ≡ some st
                → eval_state_expr enabled e st ≡ some true))
unfolding check_invariant
check_invariant_correct enabled model e plain =
    elim (Option-cases (first_violation enabled e 0 model.states)) [
      | inl clean ↦ (
        (λ _. none_violated enabled e plain 0 model.states clean, λ _. ground arith),
        λ v path bad. absurd (ground arith),
      )
      | inr (w, bad) ↦
          let (i, at, here, before) = first_violated enabled e plain 0 w model.states bad in
          let same : i ≡ w = omega arith in
          (
            (
              λ good. absurd (ground arith),
              λ every.
                  let (st, there, false_there) = here in
                  absurd (cc (every i st there, false_there)),
            ),
            λ v path report.
                let v' : w ≡ v = ground arith in
                let i' : i ≡ v = same ∙ v' in (ground arith, rw i' at here, rw i' at before),
          )
    ]

-- Let a search return, with states of one hash having successors of the same hashes and all runs
-- shorter than max_depth. If an invariant that reads the same at states of one hash is reported to
-- hold, it is true at every state that the adapter reaches, not only at those of the model.
pub invariant_everywhere :
    (enabled : State → List String) (sys : System State) (max_depth fuel : ℕ)
    (model : ExplorationResult State) (e : Expr)
    → run sys max_depth fuel ≡ finished model
    → Respects sys
    → ((d : ℕ) (st : State) → ReachesIn sys d st → d < max_depth)
    → ((a b : State)
        → sys.hash a ≡ sys.hash b
        → eval_state_expr enabled e a ≡ eval_state_expr enabled e b)
    → has_ctl_nodes e ≡ false
    → check_invariant enabled model (some e) ≡ holds
    → (d : ℕ) (st : State) → ReachesIn sys d st
    → eval_state_expr enabled e st ≡ some true
invariant_everywhere enabled sys max_depth fuel model e done respects shallow blind plain ok d st
      path =
    let (i, st', at, same) =
      run_complete sys max_depth fuel model done respects shallow d st path in
    blind st st' (sym same) ∙ ((check_invariant_correct enabled model e plain).0).0 ok i st' at
