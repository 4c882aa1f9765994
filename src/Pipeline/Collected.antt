-- ===== src/Pipeline/Collected.antt =====
-- The steps that `Pipeline.run` in tm/pipeline/engine.py runs, and the whole of its spans.
use trace_mind.Prelude.{
  ℕ, ◌≡◌, refl, sym, ◌∙◌, subst, inl, inr, Bool, true, false, Option, some, List, [], ◌∷◌, ◌++◌,
  String, Option-cases, all, map, arith, if◌then◌else◌, text_HasEq, Dict,
}
use trace_mind.Verify.Selectors.{Key, matches}
use trace_mind.Verify.Adapter.{Rule, ◌>>=◌, trigger_hits, rule_triggered, collect_steps}
use trace_mind.Pipeline.{
  RunnableStep, RunnablePlan, Telling, silent, match_one, match_any, entry_of_span, run_steps,
  run_rules, run_pipeline,
}
use trace_mind.Pipeline.Traces.{
  Chained, Follows, Part, Part-none, Part-append, Parted, run_steps-Parted, is_ok,
}

-- The steps of the rules that the changed paths trigger.
chosen : (String → List Key → Option Bool) → List (List Key) → List Rule → Option (List String)
chosen matcher changed [] = some []
chosen matcher changed (rule ∷ rules) = do
  hit ← match_any matcher rule.triggers changed
  more ← chosen matcher changed rules
  some (if hit then rule.steps ++ more else more)

module _ {C : Type 0} (now : ℕ → ℕ) (copy : C → Option C) (steps : Dict String (RunnableStep C))
    (matcher : String → List Key → Option Bool) (changed : List (List Key)) where
  run_rules-Part :
      (rules : List Rule) (ctx last : C) (w w' : Telling C)
      → run_rules now copy steps matcher changed rules ctx w ≡ some (last, w')
      → (names : List String) × (chosen matcher changed rules ≡ some names)
        × Part copy steps names ctx w last w'
  unfolding run_rules chosen Parted
  run_rules-Part [] ctx last w w' h =
      let same : (ctx, w) ≡ (last, w') = cc in
      (
        [],
        refl,
        subst (λ (o : C × Telling C). Part copy steps [] ctx w o.0 o.1) same
            (Part-none copy steps ctx w),
      )
  run_rules-Part (rule ∷ rules) ctx last w w' h =
      elim (Option-cases (match_any matcher rule.triggers changed)) [
        | inl bad ↦ absurd (ground arith)
        | inr (false, misses) ↦
            let (names, all, p) = run_rules-Part rules ctx last w w' (ground arith) in
            (names, ground arith, p)
        | inr (true, hits) ↦
            elim (Option-cases (run_steps now copy steps rule.name rule.steps ctx w)) [
              | inl bad ↦ absurd (ground arith)
              | inr ((mid, w1), ran) ↦
                  let (names, all, p) = run_rules-Part rules mid last w1 w' (ground arith) in
                  let first = run_steps-Parted copy steps now rule.name rule.steps ctx w in
                  (
                    rule.steps ++ names,
                    ground arith,
                    Part-append copy steps rule.steps names ctx mid last w w1 w' (rw ran at first)
                        p,
                  )
            ]
      ]

-- The engine and the adapter of tm/verify test the triggers of a rule alike.
match_one-trigger_hits :
    (e : String) (changed : List (List Key)) → match_one matches e changed ≡ trigger_hits e changed
match_one-trigger_hits e [] = refl
match_one-trigger_hits e (path ∷ paths) = ground (arith, match_one-trigger_hits e paths)

match_any-rule_triggered :
    (exprs : List String) (changed : List (List Key))
    → match_any matches exprs changed ≡ rule_triggered exprs changed
unfolding match_any rule_triggered
match_any-rule_triggered [] changed = refl
match_any-rule_triggered (e ∷ exprs) changed =
    ground (arith, match_one-trigger_hits e changed, match_any-rule_triggered exprs changed)

chosen-collect_steps :
    (changed : List (List Key)) (rules : List Rule)
    → chosen matches changed rules ≡ collect_steps rules changed
unfolding chosen collect_steps
chosen-collect_steps changed [] = refl
chosen-collect_steps changed (rule ∷ rules) =
    rw (match_any-rule_triggered rule.triggers changed, chosen-collect_steps changed rules) refl

module _ {C : Type 0} (now : ℕ → ℕ) (copy : C → Option C) (plan : RunnablePlan C) (ctx last : C)
    (changed : List (List Key)) (w : Telling C) where
  -- Let a run return. Its spans lead from the given context to the one returned: each is of a step of
  -- the plan, was run at the context that the span before it put out, has the copy of that context
  -- as its inputs, and puts out what the step returned, or, where the step raised, the same context
  -- with the text of the exception as its error. The recorder heard of the same steps in the same
  -- order, as ok just if the span has no error.
  pub run_pipeline-Chained :
      (matcher : String → List Key → Option Bool)
      → run_pipeline now copy matcher plan ctx changed ≡ some (last, w)
      → Chained copy plan.steps ctx w.spans last × (w.recorded ≡ map entry_of_span w.spans)
  unfolding run_pipeline
  run_pipeline-Chained matcher h =
      let (names, all, p) =
        run_rules-Part now copy plan.steps matcher changed plan.rules ctx last silent w h in
      (rw p.spans p.chained, rw (p.recorded, p.spans) refl)

  -- Let a run with the matcher of tm/pipeline/selectors.py return, with no error in a span. Then the
  -- steps that the adapter of tm/verify collects for the plan and the paths are the steps that were
  -- run, in their order.
  pub run_pipeline-collect_steps :
      run_pipeline now copy matches plan ctx changed ≡ some (last, w)
      → all is_ok w.spans ≡ true
      → (names : List String) × (collect_steps plan.rules changed ≡ some names)
        × Follows copy plan.steps names w.spans
  unfolding run_pipeline
  run_pipeline-collect_steps h ok =
      let (names, all_of, p) =
        run_rules-Part now copy plan.steps matches changed plan.rules ctx last silent w h in
      (
        names,
        sym (chosen-collect_steps changed plan.rules) ∙ all_of,
        rw p.spans (p.whole (rw p.spans at ok)),
      )
