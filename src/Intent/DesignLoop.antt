-- ===== src/Intent/DesignLoop.antt =====
-- tm/intent/design_loop.py: the steps of a design session, their order and their entry gates.
use trace_mind.Prelude.{ℕ, ◌+◌, ◌≡◌, refl, Bool, true, false, Option, none, some, ◌⊎◌, inl, inr}

pub data DesignStep : Type 0 where
  draft check_5w1h propose refine verify accept sealed : DesignStep

pub data TurnAction : Type 0 where
  propose refine check_5w1h verify accept clarify note : TurnAction

pub data SessionStatus : Type 0 where
  working sealed : SessionStatus

-- The requirement of a StepGate.
pub data Requirement : Type 0 where
  completeness_no_error verify_passed human_signoff_and_all_dims_closed : Requirement

-- DESIGN_STEP_ORDER.index(step)
unfoldable pub index_of : DesignStep → ℕ
index_of DesignStep.draft = 0
index_of DesignStep.check_5w1h = 1
index_of DesignStep.propose = 2
index_of DesignStep.refine = 3
index_of DesignStep.verify = 4
index_of DesignStep.accept = 5
index_of DesignStep.sealed = 6

-- The step after a step in DESIGN_STEP_ORDER, `next_step` of tm/intent/session.py.
unfoldable pub next_step : DesignStep → Option DesignStep
next_step DesignStep.draft = some DesignStep.check_5w1h
next_step DesignStep.check_5w1h = some DesignStep.propose
next_step DesignStep.propose = some DesignStep.refine
next_step DesignStep.refine = some DesignStep.verify
next_step DesignStep.verify = some DesignStep.accept
next_step DesignStep.accept = some DesignStep.sealed
next_step DesignStep.sealed = none

-- ENTRY_GATES
unfoldable pub entry_gate_for : DesignStep → Option Requirement
entry_gate_for DesignStep.verify = some completeness_no_error
entry_gate_for DesignStep.accept = some verify_passed
entry_gate_for DesignStep.sealed = some human_signoff_and_all_dims_closed
entry_gate_for _ = none

-- step in HUMAN_ONLY_STEPS
unfoldable pub is_human_only : DesignStep → Bool
is_human_only DesignStep.accept = true
is_human_only DesignStep.sealed = true
is_human_only _ = false

-- _STEP_ENTRY_ACTION of tm/intent/session.py; the draft step is never entered by advance.
unfoldable pub entry_action : DesignStep → TurnAction
entry_action DesignStep.check_5w1h = TurnAction.check_5w1h
entry_action DesignStep.propose = TurnAction.propose
entry_action DesignStep.refine = TurnAction.refine
entry_action DesignStep.verify = TurnAction.verify
entry_action DesignStep.accept = TurnAction.accept
entry_action DesignStep.draft = TurnAction.note
entry_action DesignStep.sealed = TurnAction.note

-- A step forward goes up by one in the order, and only from the last step there is none.
pub next_step-index :
    (s : DesignStep)
    → ((next_step s ≡ none) × (s ≡ DesignStep.sealed))
      ⊎ ((t : DesignStep) × (next_step s ≡ some t) × (index_of t ≡ index_of s + 1))
unfolding next_step index_of
next_step-index DesignStep.draft = inr (DesignStep.check_5w1h, refl, refl)
next_step-index DesignStep.check_5w1h = inr (DesignStep.propose, refl, refl)
next_step-index DesignStep.propose = inr (DesignStep.refine, refl, refl)
next_step-index DesignStep.refine = inr (DesignStep.verify, refl, refl)
next_step-index DesignStep.verify = inr (DesignStep.accept, refl, refl)
next_step-index DesignStep.accept = inr (DesignStep.sealed, refl, refl)
next_step-index DesignStep.sealed = inl (refl, refl)
