-- ===== src/Pipeline.antt =====
-- tm/pipeline/engine.py: the engine that runs the steps of a plan. A step is a pure function, as its
-- comment asks, so that a step that raises leaves the context as it was. The clock, the copy through
-- JSON and the matcher are parameters; the sink and the recorder return, and what they were called
-- with is kept. `none` is an exception that leaves `run`.
mod Traces
mod Collected
mod Schedule
mod Tests
use trace_mind.Prelude.{
  ℕ, suc, Bool, true, false, Option, none, some, List, [], ◌∷◌, ◌++◌, String, if◌then◌else◌,
  text_HasEq, Dict, lookup,
}
use trace_mind.Verify.Selectors.{Key}
use trace_mind.Verify.Adapter.{StepSpec, Rule, ◌>>=◌}

-- What a step's function does; the text is the one that `run` makes of the exception.
pub data Answer (C : Type 0) : Type 0 where
  returned : C → Answer C
  raised : String → Answer C

-- A StepSpec with its function.
pub record RunnableStep (C : Type 0) : Type 0 where
  pub spec : StepSpec
  pub fn : C → Answer C

pub record RunnablePlan (C : Type 0) : Type 0 where
  pub steps : Dict String (RunnableStep C)
  pub rules : List Rule

pub record TraceSpan (C : Type 0) : Type 0 where
  pub rule : String
  pub step : String
  pub t0 : ℕ
  pub t1 : ℕ
  pub inputs : C
  pub outputs : C
  pub reads : List String
  pub writes : List String
  pub error : Option String

-- What a run has asked and told so far: how often it read the clock, the calls of the sink, and the
-- calls of the recorder.
pub record Telling (C : Type 0) : Type 0 where
  pub ticks : ℕ
  pub spans : List (TraceSpan C)
  pub recorded : List (String × (String × String))

abbrev pub silent : {C : Type 0} → Telling C
silent = record { ticks = 0; spans = []; recorded = [] }

-- The inner loop of `_match_any`, over the changed paths.
abbrev pub match_one : (String → List Key → Option Bool) → String → List (List Key) → Option Bool
match_one matcher e [] = some false
match_one matcher e (path ∷ paths) =
    let more = match_one matcher e paths in
    elim (matcher e path) [ none ↦ none | some hit ↦ if hit then some true else more ]

unfoldable pub match_any :
    (String → List Key → Option Bool) → List String → List (List Key) → Option Bool
match_any matcher [] changed = some false
match_any matcher (e ∷ exprs) changed =
    let more = match_any matcher exprs changed in
    elim (match_one matcher e changed) [ none ↦ none | some hit ↦ if hit then some true else more ]

abbrev pub status_of : Option String → String
status_of none = "ok"
status_of (some _) = "error"

abbrev pub entry_of_span : {C : Type 0} → TraceSpan C → String × (String × String)
entry_of_span sp = (sp.rule, (sp.step, status_of sp.error))

-- The calls of the sink and of the recorder for one step.
abbrev pub tell : {C : Type 0} → TraceSpan C → Telling C → Telling C
tell sp w = record {
  ticks = suc (suc w.ticks);
  spans = w.spans ++ sp ∷ [];
  recorded = w.recorded ++ entry_of_span sp ∷ [];
}

module _ {C : Type 0} (now : ℕ → ℕ) where
  abbrev pub span_of : String → RunnableStep C → C → C → Option String → Telling C → TraceSpan C
  span_of rule s before after error w = record {
    rule = rule;
    step = s.spec.name;
    t0 = now w.ticks;
    t1 = now (suc w.ticks);
    inputs = before;
    outputs = after;
    reads = s.spec.reads;
    writes = s.spec.writes;
    error = error;
  }

  module _ (copy : C → Option C) (steps : Dict String (RunnableStep C)) where
    -- The loop over the steps of a rule.
    unfoldable pub run_steps : String → List String → C → Telling C → Option (C × Telling C)
    run_steps rule [] ctx w = some (ctx, w)
    run_steps rule (name ∷ names) ctx w = elim (lookup name steps) [
      | none ↦ none
      | some s ↦ elim (copy ctx) [
        | none ↦ none
        | some before ↦ elim (s.fn ctx) [
          | returned after ↦
              run_steps rule names after (tell (span_of rule s before after none w) w)
          | raised e ↦ some (ctx, tell (span_of rule s before ctx (some e) w) w)
        ]
      ]
    ]

    -- The loop over the rules.
    unfoldable pub run_rules :
        (String → List Key → Option Bool)
        → List (List Key)
        → List Rule
        → C
        → Telling C
        → Option (C × Telling C)
    unfolding run_steps match_any
    run_rules matcher changed [] ctx w = some (ctx, w)
    run_rules matcher changed (rule ∷ rules) ctx w = do
      hit ← match_any matcher rule.triggers changed
      out ← (if hit then run_steps rule.name rule.steps ctx w else some (ctx, w))
      run_rules matcher changed rules out.0 out.1

  unfoldable pub run_pipeline :
      (C → Option C)
      → (String → List Key → Option Bool)
      → RunnablePlan C
      → C
      → List (List Key)
      → Option (C × Telling C)
  unfolding run_rules
  run_pipeline copy matcher plan ctx changed =
      run_rules copy plan.steps matcher changed plan.rules ctx silent
