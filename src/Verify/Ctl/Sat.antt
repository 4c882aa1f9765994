-- ===== src/Verify/Ctl/Sat.antt =====
-- `_sat` of tm/verify/ctl.py: the states of an explored model that satisfy a formula. A set of
-- states is a list of their numbers. The recursive calls of `_sat` on ¬child are the complement of
-- the set of the child, which `_sat(Not(child))` is.
use trace_mind.Prelude.{
  ℕ, suc, Bool, not, ◌&&◌, List, [], ◌∷◌, ◌++◌, if◌then◌else◌, nat_HasEq, Dict, String, keys,
  contains, length, keep, any, all, is_empty,
}
use trace_mind.Prelude.Range.{range}
use trace_mind.Verify.State.{State}
use trace_mind.Verify.Explorer.{ExplorationResult}
use trace_mind.Verify.Ctl.Syntax.{
  Op, UntilOp, Expr, predicate, neg, conj, disj, ctl, until, ex, ef, eg, af, ag, eu, au,
  eval_predicate,
}
use trace_mind.Verify.Ctl.Fixpoint.{Admit, least}

-- any(nxt in sat for nxt in succs)
abbrev pub some_in : List ℕ → List ℕ → Bool
some_in sat succs = any (contains sat) succs

-- succs and all(nxt in sat for nxt in succs)
abbrev pub all_in : List ℕ → List ℕ → Bool
all_in sat succs = not (is_empty succs) && all (contains sat) succs

abbrev pub admit_ef : Admit
admit_ef sat sid succs = some_in sat succs

abbrev pub admit_af : Admit
admit_af sat sid succs = all_in sat succs

abbrev pub admit_eu : List ℕ → Admit
admit_eu left sat sid succs = contains left sid && some_in sat succs

abbrev pub admit_au : List ℕ → Admit
admit_au left sat sid succs = contains left sid && all_in sat succs

-- {i for i, st in enumerate(states) if p(st)}, from the number i on
abbrev pub select : {S : Type 0} → (S → Bool) → ℕ → List S → List ℕ
select p i [] = []
select p i (st ∷ states) = if p st then i ∷ select p (suc i) states else select p (suc i) states

-- {sid for sid, succs in edges.items() if any(nxt in sat for nxt in succs)}
abbrev pub ex_states : List ℕ → Dict ℕ (List ℕ) → List ℕ
ex_states sat [] = []
ex_states sat ((sid, succs) ∷ es) =
    if some_in sat succs then sid ∷ ex_states sat es else ex_states sat es

module _ (model : ExplorationResult State) where
  abbrev pub all_states : List ℕ
  all_states = range (length model.states)

  -- all_states - sat
  abbrev pub complement : List ℕ → List ℕ
  complement sat = keep (λ i. not (contains sat i)) all_states

  -- The states without an entry in edges that are in the set.
  abbrev pub terminals_in : List ℕ → List ℕ
  terminals_in sat = keep (λ i. not (contains (keys model.edges) i) && contains sat i) all_states

  unfoldable pub ef_states : List ℕ → List ℕ
  ef_states sat = least admit_ef model.edges sat

  unfoldable pub af_states : List ℕ → List ℕ
  af_states sat = terminals_in sat ++ least admit_af model.edges sat

  unfoldable pub sat_ctl : Op → List ℕ → List ℕ
  unfolding ef_states af_states
  sat_ctl ex child = ex_states child model.edges
  sat_ctl ef child = ef_states child
  sat_ctl af child = af_states child
  sat_ctl eg child = complement (af_states (complement child))
  sat_ctl ag child = complement (ef_states (complement child))

  unfoldable pub sat_until : UntilOp → List ℕ → List ℕ → List ℕ
  sat_until eu left right = least (admit_eu left) model.edges right
  sat_until au left right = least (admit_au left) model.edges right

  unfoldable pub sat : (State → List String) → Expr → List ℕ
  unfolding sat_ctl sat_until
  sat enabled (predicate p) = select (eval_predicate enabled p) 0 model.states
  sat enabled (neg e) = complement (sat enabled e)
  sat enabled (conj e f) = keep (contains (sat enabled f)) (sat enabled e)
  sat enabled (disj e f) = sat enabled e ++ sat enabled f
  sat enabled (ctl op e) = sat_ctl op (sat enabled e)
  sat enabled (until op e f) = sat_until op (sat enabled e) (sat enabled f)
