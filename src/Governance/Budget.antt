-- ===== src/Governance/Budget.antt =====
-- BudgetTracker of tm/governance/budget.py, in units of a fixed size. A negative use counts as 0.
use trace_mind.Prelude.{
  ℕ, ◌≡◌, true, false, not, ◌&&◌, Option, none, some, arith, if◌then◌else◌, nat_HasEq, leb, ltb,
  ◌↔◌,
}
use trace_mind.Governance.Window.{RollingWindow, new_window, observe, total}
use trace_mind.Governance.Rate.{LimitSettings, reached, is_limited}

pub record BudgetTracker : Type 0 where
  pub tokens : RollingWindow
  pub cost : RollingWindow

pub data BudgetKind : Type 0 where
  tokens cost : BudgetKind

-- BudgetDecision: `refused` has the reason BUDGET_EXCEEDED.
pub data BudgetDecision : Type 0 where
  accepted : BudgetDecision
  refused : BudgetKind → BudgetDecision

module _ (settings : LimitSettings) where
  unfoldable pub new_budget : ℕ → ℕ → BudgetTracker
  unfolding new_window
  new_budget minute hour = record { tokens = new_window minute; cost = new_window hour }

  -- The half of `can_accept` about the cost.
  unfoldable pub check_cost : ℕ → BudgetTracker → BudgetDecision × BudgetTracker
  unfolding total
  check_cost now b =
      let current = total now b.cost in
      elim settings.cost_per_hour [
        | none ↦ (accepted, b)
        | some limit ↦ (
          if leb limit current.0 then refused BudgetKind.cost else accepted,
          record b { cost = current.1 },
        )
      ]

  unfoldable pub can_accept : ℕ → BudgetTracker → BudgetDecision × BudgetTracker
  unfolding total check_cost
  can_accept now b =
      let current = total now b.tokens in
      let seen = record b { tokens = current.1 } in
      if not settings.enabled then (accepted, b) else elim settings.tokens_per_min [
        | none ↦ check_cost now b
        | some limit ↦
            if leb limit current.0 then (refused BudgetKind.tokens, seen) else check_cost now seen
      ]

  -- Uses that are missing or zero are not recorded.
  unfoldable pub record_use : Option ℕ → Option ℕ → ℕ → RollingWindow → RollingWindow
  unfolding observe
  record_use limit used now w = elim used [
    | none ↦ w
    | some value ↦ if is_limited limit && ltb 0 value then observe value now w else w
  ]

  -- record
  unfoldable pub record_usage : Option ℕ → Option ℕ → ℕ → BudgetTracker → BudgetTracker
  unfolding record_use
  record_usage used_tokens used_cost now b = if not settings.enabled then b else record {
    tokens = record_use settings.tokens_per_min used_tokens now b.tokens;
    cost = record_use settings.cost_per_hour used_cost now b.cost;
  }

  abbrev pub amount : Option ℕ → RollingWindow → ℕ → Option ℕ
  unfolding total
  amount none w now = none
  amount (some limit) w now = some (total now w).0

  abbrev pub after : Option ℕ → RollingWindow → ℕ → RollingWindow
  unfolding total
  after none w now = w
  after (some limit) w now = (total now w).1

  unfoldable pub snapshot : ℕ → BudgetTracker → (Option ℕ × Option ℕ) × BudgetTracker
  snapshot now b = (
    (amount settings.tokens_per_min b.tokens now, amount settings.cost_per_hour b.cost now),
    record {
      tokens = after settings.tokens_per_min b.tokens now;
      cost = after settings.cost_per_hour b.cost now;
    },
  )

-- An enabled tracker accepts exactly if neither budget that is set has been reached by the use in
-- its window; it names the tokens if theirs has been, and the cost only if the tokens have not.
can_accept_iff :
    (settings : LimitSettings) (now : ℕ) (b : BudgetTracker)
    → settings.enabled ≡ true
    → (((can_accept settings now b).0 ≡ accepted) ↔ (
        (reached settings.tokens_per_min (total now b.tokens).0 ≡ false)
        × (reached settings.cost_per_hour (total now b.cost).0 ≡ false)))
      × (((can_accept settings now b).0 ≡ refused BudgetKind.tokens)
          ↔ (reached settings.tokens_per_min (total now b.tokens).0 ≡ true))
unfolding can_accept check_cost
can_accept_iff settings now b on =
    ((λ h. (ground arith, ground arith), λ h. ground arith), (λ h. ground arith, λ h. ground arith))
