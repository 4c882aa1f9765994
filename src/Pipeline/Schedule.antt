-- ===== src/Pipeline/Schedule.antt =====
-- Which steps `Pipeline.run` in tm/pipeline/engine.py runs, and where a rule stops.
use trace_mind.Prelude.{
  ◌≡◌, Bool, true, false, Option, none, some, List, [], ◌∷◌, ◌++◌, String, text_HasEq, Dict, lookup,
}
use trace_mind.Verify.Selectors.{Key}
use trace_mind.Verify.Adapter.{Rule}
use trace_mind.Pipeline.{RunnableStep, TraceSpan, Telling, match_any}

module _ {C : Type 0} (steps : Dict String (RunnableStep C)) where
  -- The spans of one rule: a span for each of its steps in order, up to the first that raised.
  pub Covers : String → List String → List (TraceSpan C) → Type 0
  Covers rule [] sps = sps ≡ []
  Covers rule (name ∷ names) [] = ⊥
  Covers rule (name ∷ names) (sp ∷ sps) =
      (sp.rule ≡ rule)
      × ((s : RunnableStep C) × (lookup name steps ≡ some s) × (sp.step ≡ s.spec.name))
      × elim sp.error [ none ↦ Covers rule names sps | some _ ↦ sps ≡ [] ]

  module _ (matcher : String → List Key → Option Bool) (changed : List (List Key)) where
    -- The spans of the rules that the changed paths trigger, one rule after the other.
    pub Scheduled : List Rule → List (TraceSpan C) → Type 0
    Scheduled [] sps = sps ≡ []
    Scheduled (rule ∷ rules) sps = elim (match_any matcher rule.triggers changed) [
      | none ↦ ⊥
      | some false ↦ Scheduled rules sps
      | some true ↦
          (front : List (TraceSpan C)) × ((rest : List (TraceSpan C)) × (sps ≡ front ++ rest)
            × Covers rule.name rule.steps front
            × Scheduled rules rest)
    ]

  Covered : String → List String → Telling C → Option (C × Telling C) → Type 0
  Covered rule names w none = Unit
  Covered rule names w (some (last, w')) =
      (added : List (TraceSpan C)) × (w'.spans ≡ w.spans ++ added) × Covers rule names added
