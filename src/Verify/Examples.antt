-- ===== src/Verify/Examples.antt =====
-- Runs of the model checker on small plans: two steps, the second of which waits for the first.
use trace_mind.Prelude.{
  lookup, ℕ, zero, suc, ◌<◌, ◌≡◌, refl, Bool, true, false, ◌⊎◌, ap, ◌↔◌, ◌≢◌, none, some, List, [],
  ◌∷◌, arith, inl, inr, sym, ◌∙◌, subst, keys, put, contains, Distinct, String, length, get_elem?,
  nat_HasEq, text_HasEq, has_key, eq_iff_at, Bool-cases, if◌then◌else◌,
}
use trace_mind.Verify.State.{State, Payload, bool, stable_hash}
use trace_mind.Verify.Selectors.{matches, selector_to_path}
use trace_mind.Verify.Adapter.{
  StepSpec, Rule, Plan, TraceMindAdapter, initial_state, run_step, enabled_steps, successors,
  is_deadlocked,
}
use trace_mind.Verify.Adapter.Laws.{IsValid, StepEffect, enabled_steps_iff, run_step_effect}
use trace_mind.Verify.Adapter.Runs.{reaches-IsValid}
use trace_mind.Verify.Explorer.{System, ExplorationResult, finished, out_of_fuel, run, path_to}
use trace_mind.Verify.Explorer.Invariant.{ReachesIn, root, next}
use trace_mind.Verify.Explorer.Results.{Explores, Respects, run-Explores, run_complete}
use trace_mind.Verify.Explorer.Ends.{rounds, run_ends}
use trace_mind.Verify.Explorer.Paths.{IsPath, Stops, last_of, path_to_correct}
use trace_mind.Verify.Checker.{
  system_of, check_invariant, holds, violated, check_invariant_correct, invariant_everywhere,
}
use trace_mind.Verify.Ctl.Syntax.{
  eval_predicate, Expr, predicate, neg, disj, ctl, af, eval_state_expr, has_ctl_nodes,
}
use mathlib.Core.List.{Memᴰ}
use mathlib.Core.List.Memᴰ
use trace_mind.Prelude.Range.{range}
use trace_mind.Verify.Ctl.Fixpoint.{least}
use trace_mind.Verify.Ctl.Sat.{sat}
use trace_mind.Verify.Ctl.Meaning.{Means}
use trace_mind.Verify.Ctl.Correct.{sat_correct}

-- fetch is pending and writes raw; a rule then triggers clean, which reads raw and replaces it.
abbrev fetch : StepSpec
fetch = record { name = "fetch"; reads = []; writes = "raw" ∷ []; clears = [] }

abbrev clean : StepSpec
clean = record { name = "clean"; reads = "raw" ∷ []; writes = "ready" ∷ []; clears = "raw" ∷ [] }

abbrev on_raw : Rule
on_raw = record { name = "on_raw"; triggers = "raw" ∷ []; steps = "clean" ∷ [] }

abbrev plan : Plan
plan = record { steps = ("fetch", fetch) ∷ ("clean", clean) ∷ []; rules = on_raw ∷ [] }

abbrev adapter : TraceMindAdapter
adapter = record {
  plan = plan;
  initial_store = [];
  changed_paths = [];
  initial_pending = "fetch" ∷ "fetch" ∷ [];
  initial_done = [];
}

abbrev at_start : State
at_start = record { store = []; pending = "fetch" ∷ []; done = []; events = [] }

abbrev fetched : State
fetched = record {
  store = ("raw", bool true) ∷ [];
  pending = "clean" ∷ [];
  done = "fetch" ∷ [];
  events = "step:fetch" ∷ [];
}

abbrev cleaned : State
cleaned = record {
  store = ("ready", bool true) ∷ [];
  pending = [];
  done = "fetch" ∷ "clean" ∷ [];
  events = "step:fetch" ∷ "step:clean" ∷ [];
}

starts : initial_state adapter ≡ some at_start
unfolding initial_state
starts = refl

fetches : run_step plan at_start "fetch" fetch ≡ some fetched
unfolding run_step matches selector_to_path
fetches = refl

first_step : successors adapter at_start ≡ some (("fetch", fetched) ∷ [])
unfolding successors matches selector_to_path
first_step = refl

steps : successors adapter fetched ≡ some (("clean", cleaned) ∷ [])
unfolding successors matches selector_to_path
steps = refl

-- A hash that tells the states of this plan apart, by the number of steps done.
abbrev tag : ℕ → String
tag zero = "none"
tag (suc zero) = "one"
tag (suc (suc n)) = "more"

abbrev digest : Payload → String
digest p = elim p.scheduling [ none ↦ "" | some (pending, done, events) ↦ tag (length done) ]

abbrev system : System State
system = record {
  root = at_start;
  successors = successors adapter;
  is_deadlocked = is_deadlocked adapter;
  hash = λ s. elim (stable_hash digest "full" s) [ none ↦ "" | some h ↦ h ];
}

system_ok : system_of digest "full" adapter ≡ some system
unfolding system_of initial_state
system_ok = refl

abbrev model : ExplorationResult State
model = record {
  states = at_start ∷ fetched ∷ cleaned ∷ [];
  edges = (0, 1 ∷ []) ∷ (1, 2 ∷ []) ∷ [];
  predecessors = (1, (0, "fetch")) ∷ (2, (1, "clean")) ∷ [];
  deadlocks = [];
}

run_ok : run system 5 10 ≡ finished model
unfolding run successors stable_hash is_deadlocked matches selector_to_path
run_ok = refl

explored : Explores system 5 model
explored = run-Explores system 5 10 model run_ok

run-Explores_example : Explores system 5 model
run-Explores_example = run-Explores system 5 10 model run_ok

-- AF done(clean), at the start
abbrev formula : Expr
formula = ctl af (predicate (record { name = "done"; value = some "clean" }))

sat_correct_example :
    (contains (sat model (enabled_steps adapter) formula) 0 ≡ true)
    ↔ Means (enabled_steps adapter) model formula 0
sat_correct_example = sat_correct (enabled_steps adapter) model explored.model formula 0

formula_holds : contains (sat model (enabled_steps adapter) formula) 0 ≡ true
unfolding sat range eval_predicate least
formula_holds = refl

run_ends_example : run system 2 4 ≢ out_of_fuel
unfolding rounds successors matches selector_to_path
run_ends_example = run_ends system 2 4 (omega arith)

path_to_correct_example :
    IsPath model.edges (path_to model 2)
    × Distinct (path_to model 2)
    × (last_of 0 (path_to model 2) ≡ 2)
    × Stops model.predecessors (path_to model 2)
path_to_correct_example = path_to_correct model 2 explored.parents (omega arith)

enabled_steps_iff_example :
    ((x : String)
      → (contains (enabled_steps adapter fetched) x ≡ true) ↔ (
          (contains fetched.pending x ≡ true)
          × ((spec : StepSpec) × (lookup x plan.steps ≡ some spec)
              × ((r : String) → contains spec.reads r ≡ true → has_key r fetched.store ≡ true))))
    × Distinct (enabled_steps adapter fetched)
enabled_steps_iff_example = enabled_steps_iff adapter fetched

run_step_effect_example : StepEffect plan "clean" clean fetched cleaned × IsValid cleaned
unfolding run_step matches selector_to_path
run_step_effect_example =
    run_step_effect plan fetched cleaned "clean" clean
      (record { pending = (refl, tt); done = (refl, tt) }) refl

reaches-IsValid_example : IsValid fetched
reaches-IsValid_example =
    reaches-IsValid digest "full" adapter system system_ok tt 1 fetched
      (next "fetch" root first_step (Memᴰ.head refl))

-- A system whose states of one hash have the same successors.
abbrev has_raw : State → Bool
has_raw s = contains (keys s.store) "raw"

abbrev small : System State
small = record {
  root = at_start;
  successors = λ s. some (if has_raw s then [] else ("fetch", fetched) ∷ []);
  is_deadlocked = λ s. false;
  hash = λ s. if has_raw s then "raw" else "bare";
}

abbrev small_model : ExplorationResult State
small_model = record {
  states = at_start ∷ fetched ∷ [];
  edges = (0, 1 ∷ []) ∷ [];
  predecessors = (1, (0, "fetch")) ∷ [];
  deadlocks = [];
}

small_ok : run small 2 5 ≡ finished small_model
unfolding run put
small_ok = refl

two_hashes : ¬ (◌≡◌ {A = String} "raw" "bare")
two_hashes h = let same = (eq_iff_at {A = String} "raw" "bare").1 h in ground arith

same_hash : (a b : State) → small.hash a ≡ small.hash b → has_raw a ≡ has_raw b
same_hash a b h = elim (Bool-cases (has_raw a)) [
  | inl p ↦ elim (Bool-cases (has_raw b)) [
    | inl q ↦ p ∙ sym q
    | inr q ↦ absurd (two_hashes (rw (p, q) at h))
  ]
  | inr p ↦ elim (Bool-cases (has_raw b)) [
    | inl q ↦ absurd (two_hashes (sym (rw (p, q) at h)))
    | inr q ↦ p ∙ sym q
  ]
]

small-Respects : Respects small
small-Respects a b xs ys h sa sb label nxt m =
    let e = same_hash a b h in
    let same : xs ≡ ys = ground arith in (label, nxt, subst (λ l. Memᴰ (label, nxt) l) same m, refl)

small_reach :
    (d : ℕ) (st : State)
    → ReachesIn small d st
    → ((d ≡ 0) × (st ≡ at_start)) ⊎ ((d ≡ 1) × (st ≡ fetched))
small_reach zero st root = inl (refl, refl)
small_reach (suc d) nxt (next {st = st} {succ = succ} label r s m) = elim (small_reach d st r) [
  | inl (z, e) ↦
      let one : succ ≡ ("fetch", fetched) ∷ [] = ground arith in
      elim (Memᴰ.cases_cons (rw one at m)) [
        | inl same ↦ inr (omega arith, ap (λ (t : String × State). t.1) same)
        | inr more ↦ absurd (Memᴰ.not-nil more)
      ]
  | inr (z, e) ↦ let nothing : succ ≡ [] = ground arith in absurd (Memᴰ.not-nil (rw nothing at m))
]

small_depth : (d : ℕ) (st : State) → ReachesIn small d st → d < 2
small_depth d st r = elim (small_reach d st r) [
  | inl (z, e) ↦ omega arith
  | inr (z, e) ↦ omega arith
]

run_complete_example :
    (i : ℕ) × (st' : State) × (get_elem? small_model.states i ≡ some st')
    × (small.hash st' ≡ small.hash fetched)
run_complete_example =
    run_complete small 2 5 small_model small_ok small-Respects small_depth 1 fetched
      (next "fetch" root refl (Memᴰ.head refl))

-- raw is there, or it is not
abbrev raw_or_not : Expr
raw_or_not =
    disj (predicate (record { name = "has"; value = some "raw" }))
      (neg (predicate (record { name = "HAS"; value = some "raw" })))

raw_value : (s : State) → eval_state_expr (enabled_steps adapter) raw_or_not s ≡ some true
unfolding eval_state_expr
raw_value s = elim (Bool-cases (has_key "raw" s.store)) [
  | inl p ↦ ground arith
  | inr p ↦ ground arith
]

raw_same :
    (a b : State)
    → small.hash a ≡ small.hash b
    → eval_state_expr (enabled_steps adapter) raw_or_not a
      ≡ eval_state_expr (enabled_steps adapter) raw_or_not b
raw_same a b h = raw_value a ∙ sym (raw_value b)

plain_raw : has_ctl_nodes raw_or_not ≡ false
unfolding has_ctl_nodes
plain_raw = refl

raw_holds : check_invariant (enabled_steps adapter) small_model (some raw_or_not) ≡ holds
unfolding check_invariant has_key
raw_holds = refl

invariant_everywhere_example :
    eval_state_expr (enabled_steps adapter) raw_or_not fetched ≡ some true
invariant_everywhere_example =
    invariant_everywhere (enabled_steps adapter) small 2 5 small_model raw_or_not small_ok
      small-Respects small_depth raw_same plain_raw raw_holds 1 fetched
      (next "fetch" root refl (Memᴰ.head refl))

abbrev raw : Expr
raw = predicate (record { name = "has"; value = some "raw" })

raw_plain : has_ctl_nodes raw ≡ false
unfolding has_ctl_nodes
raw_plain = refl

check_invariant_correct_example :
    ((check_invariant (enabled_steps adapter) model (some raw) ≡ holds) ↔ (
      (i : ℕ) (st : State)
      → get_elem? model.states i ≡ some st
      → eval_state_expr (enabled_steps adapter) raw st ≡ some true))
    × ((v : ℕ) (path : List ℕ)
        → check_invariant (enabled_steps adapter) model (some raw) ≡ violated v path
        → (path ≡ path_to model v)
          × ((st : State) × (get_elem? model.states v ≡ some st)
              × (eval_state_expr (enabled_steps adapter) raw st ≡ some false))
          × ((j : ℕ) (st : State)
              → j < v
              → get_elem? model.states j ≡ some st
              → eval_state_expr (enabled_steps adapter) raw st ≡ some true))
check_invariant_correct_example =
    check_invariant_correct (enabled_steps adapter) model raw raw_plain
