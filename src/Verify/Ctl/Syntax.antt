-- ===== src/Verify/Ctl/Syntax.antt =====
-- The formulas of tm/verify/ctl.py, and their evaluation at one state.
use trace_mind.Prelude.{
  ◌≡◌, refl, Bool, true, false, not, ◌&&◌, ◌||◌, Option, none, some, List, String, if◌then◌else◌,
  text_HasEq, has_key, contains, is_empty, arith, nat_HasEq,
}
use trace_mind.Prelude.Text.{lower_is}
use trace_mind.Verify.State.{State}

pub data Op : Type 0 where
  ex ef eg af ag : Op

pub data UntilOp : Type 0 where
  eu au : UntilOp

pub record Predicate : Type 0 where
  pub name : String
  pub value : Option String

pub data Expr : Type 0 where
  predicate : Predicate → Expr
  neg : Expr → Expr
  conj disj : Expr → Expr → Expr
  ctl : Op → Expr → Expr
  until : UntilOp → Expr → Expr → Expr

-- `enabled` is the adapter's `enabled_steps`.
unfoldable pub eval_predicate : (State → List String) → Predicate → State → Bool
unfolding has_key
eval_predicate enabled pred s =
    if lower_is pred.name "terminal" then is_empty (enabled s) else elim pred.value [
      | none ↦ false
      | some v ↦
          if lower_is pred.name "has"
          then has_key v s.store
          else if lower_is pred.name "pending"
          then contains s.pending v
          else if lower_is pred.name "done"
          then contains s.done v
          else false
    ]

unfoldable pub has_ctl_nodes : Expr → Bool
has_ctl_nodes (predicate p) = false
has_ctl_nodes (neg e) = has_ctl_nodes e
has_ctl_nodes (conj e f) = has_ctl_nodes e || has_ctl_nodes f
has_ctl_nodes (disj e f) = has_ctl_nodes e || has_ctl_nodes f
has_ctl_nodes (ctl op e) = true
has_ctl_nodes (until op e f) = true

-- `none` is the ValueError on a temporal operator; the right operand is read only if needed.
unfoldable pub eval_state_expr : (State → List String) → Expr → State → Option Bool
unfolding eval_predicate
eval_state_expr enabled (predicate p) s = some (eval_predicate enabled p s)
eval_state_expr enabled (neg e) s = elim (eval_state_expr enabled e s) [
  | none ↦ none
  | some b ↦ some (not b)
]
eval_state_expr enabled (conj e f) s =
    let right = eval_state_expr enabled f s in
    elim (eval_state_expr enabled e s) [ none ↦ none | some b ↦ if b then right else some false ]
eval_state_expr enabled (disj e f) s =
    let right = eval_state_expr enabled f s in
    elim (eval_state_expr enabled e s) [ none ↦ none | some b ↦ if b then some true else right ]
eval_state_expr enabled (ctl op e) s = none
eval_state_expr enabled (until op e f) s = none

-- A formula without temporal operators has a value at every state.
pub eval_state_expr-total :
    (enabled : State → List String) (e : Expr) (s : State)
    → has_ctl_nodes e ≡ false
    → (b : Bool) × (eval_state_expr enabled e s ≡ some b)
unfolding eval_state_expr has_ctl_nodes
eval_state_expr-total enabled (predicate p) s h = (eval_predicate enabled p s, refl)
eval_state_expr-total enabled (neg e) s h =
    let (b, eq) = eval_state_expr-total enabled e s h in (not b, ground (arith, eq))
eval_state_expr-total enabled (conj e f) s h =
    let (b, eq) = eval_state_expr-total enabled e s (ground arith) in
    let (c, eq') = eval_state_expr-total enabled f s (ground arith) in (b && c, ground arith)
eval_state_expr-total enabled (disj e f) s h =
    let (b, eq) = eval_state_expr-total enabled e s (ground arith) in
    let (c, eq') = eval_state_expr-total enabled f s (ground arith) in (b || c, ground arith)
eval_state_expr-total enabled (ctl op e) s h = cc
eval_state_expr-total enabled (until op e f) s h = cc
