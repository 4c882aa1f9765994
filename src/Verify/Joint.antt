-- ===== src/Verify/Joint.antt =====
-- JointAdapter of tm/verify/joint.py: components that move one at a time. What an operation writes to
-- the memo is returned with its result; an exception of a component ends the run, and is `none`.
pub mod Product
pub mod Steps
pub mod Refines
mod Tests
use trace_mind.Prelude.{
  ℕ, zero, suc, Bool, true, false, not, ◌&&◌, ◌||◌, Option, none, some, String, List, [], ◌∷◌, ◌++◌,
  if◌then◌else◌, ◌==◌, nat_HasEq, text_HasEq, Dict, lookup, put, length, contains, is_empty, any,
  map,
}
use trace_mind.Prelude.Text.{decimal}
use trace_mind.Verify.State.{State, Value, Payload, stable_hash}
use trace_mind.Verify.Adapter.{◌>>=◌}
use Prim.Native.String.{◌++◌ as text_append}

pub record ComponentAdapter : Type 0 where
  pub initial_state : Option State
  pub successors : State → Option (List (String × State))
  pub enabled_steps : State → List String

pub record JointAdapter : Type 0 where
  pub components : List ComponentAdapter
  pub component_ids : List String

abbrev pub Memo : Type 0
Memo = Dict String (List State)

-- prefix + name, for each name
abbrev pub prefixed : String → List String → List String
prefixed prefix [] = []
prefixed prefix (name ∷ names) = text_append prefix name ∷ prefixed prefix names

abbrev pub merge_store : String → Dict String Value → Dict String Value → Dict String Value
merge_store prefix [] store = store
merge_store prefix ((k, v) ∷ d) store = merge_store prefix d (put (text_append prefix k) v store)

-- The loop of `_project`, over the identifiers and the states together.
unfoldable pub project_from : List String → List State → State → State
project_from (id ∷ ids) (st ∷ sts) acc =
    let prefix = text_append id "." in
    project_from ids sts (record {
      store = merge_store prefix st.store acc.store;
      pending = acc.pending ++ prefixed prefix st.pending;
      done = acc.done ++ prefixed prefix st.done;
      events = acc.events ++ prefixed prefix st.events;
    })
project_from ids sts acc = acc

unfoldable pub project : List String → List State → State
project ids sts = project_from ids sts (record { store = []; pending = []; done = []; events = [] })

abbrev default_ids : ℕ → List ComponentAdapter → List String
default_ids i [] = []
default_ids i (c ∷ cs) = text_append "agent" (decimal i) ∷ default_ids (suc i) cs

abbrev repeats : List String → Bool
repeats [] = false
repeats (id ∷ ids) = contains ids id || repeats ids

-- The ValueErrors, in the order of the tests.
pub data Rejection : Type 0 where
  no_component wrong_count repeated_id empty_id : Rejection

pub data Built : Type 0 where
  built : JointAdapter → Built
  rejected : Rejection → Built

unfoldable pub from_components : List ComponentAdapter → Option (List String) → Built
from_components components component_ids =
    if is_empty components then rejected no_component else elim component_ids [
      | none ↦ built (record { components = components; component_ids = default_ids 0 components })
      | some ids ↦
          if not (length ids == length components)
          then rejected wrong_count
          else if repeats ids
          then rejected repeated_id
          else if any (λ id. id == "") ids
          then rejected empty_id
          else built (record { components = components; component_ids = ids })
    ]

abbrev pub start_all : List ComponentAdapter → Option (List State)
start_all [] = some []
start_all (c ∷ cs) = do st ← c.initial_state; sts ← start_all cs; some (st ∷ sts)

-- tuple(x if j == i else st for j, st in enumerate(joint))
abbrev pub replace_at : ℕ → State → List State → List State
replace_at i x [] = []
replace_at zero x (st ∷ sts) = x ∷ sts
replace_at (suc i) x (st ∷ sts) = st ∷ replace_at i x sts

-- `digest` is the hash of what identifies a state.
module _ (digest : Payload → String) where
  abbrev pub hash_full : State → String
  hash_full s = elim (stable_hash digest "full" s) [ none ↦ "" | some h ↦ h ]

  module _ (a : JointAdapter) where
    unfoldable pub initial_joint : Memo → Option (State × Memo)
    initial_joint memo = do
      joint ← start_all a.components
      some (
        project a.component_ids joint,
        put (hash_full (project a.component_ids joint)) joint memo,
      )

    -- `_lookup_joint`; `none` is the KeyError.
    unfoldable pub lookup_joint : Memo → State → Option (List State)
    lookup_joint memo s = lookup (hash_full s) memo

    -- The inner loop of `successors`: the moves of component i.
    unfoldable pub move_one :
        ℕ → String → List State → List (String × State) → Memo → List (String × State) × Memo
    move_one i id joint [] memo = ([], memo)
    move_one i id joint ((label, st) ∷ moves) memo =
        let new_joint = replace_at i st joint in
        let projected = project a.component_ids new_joint in
        let (out, memo') = move_one i id joint moves (put (hash_full projected) new_joint memo) in
        ((text_append id (text_append ":" label), projected) ∷ out, memo')

    -- The outer loop, over components, identifiers and states together.
    unfoldable pub move_all :
        ℕ
        → List ComponentAdapter
        → List String
        → List State
        → List State
        → Memo
        → Option (List (String × State) × Memo)
    move_all i (c ∷ cs) (id ∷ ids) (st ∷ sts) joint memo = do
      moves ← c.successors st
      later ← move_all (suc i) cs ids sts joint (move_one i id joint moves memo).1
      some ((move_one i id joint moves memo).0 ++ later.0, later.1)
    move_all i cs ids sts joint memo = some ([], memo)

    unfoldable pub joint_successors : State → Memo → Option (List (String × State) × Memo)
    joint_successors s memo = do
      joint ← lookup_joint memo s
      move_all 0 a.components a.component_ids joint joint memo

    abbrev enabled_from : List ComponentAdapter → List String → List State → List String
    enabled_from (c ∷ cs) (id ∷ ids) (st ∷ sts) =
        prefixed (text_append id ".") (c.enabled_steps st) ++ enabled_from cs ids sts
    enabled_from cs ids sts = []

    unfoldable pub joint_enabled_steps : State → Memo → List String
    joint_enabled_steps s memo = elim (lookup_joint memo s) [
      | none ↦ []
      | some joint ↦ enabled_from a.components a.component_ids joint
    ]

    unfoldable pub joint_is_deadlocked : State → Memo → Bool
    joint_is_deadlocked s memo = not (is_empty s.pending) && is_empty (joint_enabled_steps s memo)
