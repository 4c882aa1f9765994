-- ===== src/Pipeline/Tests.antt =====
-- Runs of the pipeline engine: a plan of two rules, whose second rule has a step that can raise.
use trace_mind.Prelude.{
  ℕ, ◌+◌, ◌≡◌, refl, true, Option, none, some, List, [], ◌∷◌, String, if◌then◌else◌, ◌==◌,
  nat_HasEq, text_HasEq, lookup, all,
}
use trace_mind.Verify.Selectors.{Key, key, matches}
use trace_mind.Verify.Adapter.{StepSpec, collect_steps}
use trace_mind.Pipeline.{returned, raised, RunnableStep, RunnablePlan, Telling, run_pipeline}
use trace_mind.Pipeline.Traces.{Follows, is_ok}
use trace_mind.Pipeline.Collected.{run_pipeline-collect_steps}

abbrev spec : String → StepSpec
spec name = record { name = name; reads = []; writes = "x" ∷ []; clears = [] }

abbrev add_one : RunnableStep ℕ
add_one = record { spec = spec "add_one"; fn = λ n. returned (n + 1) }

abbrev below_two : RunnableStep ℕ
below_two = record {
  spec = spec "below_two";
  fn = λ n. if n == 2 then raised "ValueError: two" else returned (n + 10);
}

abbrev plan : RunnablePlan ℕ
plan = record {
  steps = ("add_one", add_one) ∷ ("below_two", below_two) ∷ [];
  rules =
      record { name = "first"; triggers = "a.*" ∷ []; steps = "add_one" ∷ [] }
      ∷ record { name = "never"; triggers = "b" ∷ []; steps = "unknown" ∷ [] }
      ∷ record {
        name = "second";
        triggers = "b" ∷ "a.b" ∷ [];
        steps = "below_two" ∷ "add_one" ∷ [];
      }
      ∷ [];
}

abbrev changed : List (List Key)
changed = (key "a" ∷ key "b" ∷ []) ∷ []

abbrev the_run : ℕ → Option (ℕ × Telling ℕ)
the_run n = run_pipeline (λ t. t) some matches plan n changed

abbrev told : Option (ℕ × Telling ℕ) → Telling ℕ
told none = record { ticks = 0; spans = []; recorded = [] }
told (some (n, w)) = w

-- From 0 all steps return; from 1 the second rule stops at its first step.
returns_all : the_run 0 ≡ some (12, told (the_run 0))
unfolding run_pipeline matches lookup
returns_all = refl

unknown_step : run_pipeline (λ t. t) some matches plan 0 ((key "b" ∷ []) ∷ []) ≡ none
unfolding run_pipeline matches lookup
unknown_step = refl

all_ok : all is_ok (told (the_run 0)).spans ≡ true
unfolding run_pipeline matches lookup
all_ok = refl

run_pipeline-collect_steps_example :
    (names : List String) × (collect_steps plan.rules changed ≡ some names)
    × Follows some plan.steps names (told (the_run 0)).spans
run_pipeline-collect_steps_example =
    run_pipeline-collect_steps (λ t. t) some plan 0 12 changed (told (the_run 0)) returns_all all_ok
