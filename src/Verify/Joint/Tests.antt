-- ===== src/Verify/Joint/Tests.antt =====
-- Two components, of which the first makes one step and the second none.
use trace_mind.Prelude.{
  ◌≡◌, refl, sym, ◌∙◌, ap, subst, ◌⊎◌, inl, inr, none, some, String, List, [], ◌∷◌, if◌then◌else◌,
  is_empty, put, text_HasEq,
}
use trace_mind.Prelude.Text.{decimal}
use mathlib.Core.List.{Memᴰ}
use mathlib.Core.List.Memᴰ
use trace_mind.Verify.State.{State, Payload, stable_hash}
use trace_mind.Verify.Joint.{
  ComponentAdapter, JointAdapter, Memo, project, project_from, initial_joint, joint_successors,
  from_components, built,
}
use trace_mind.Verify.Joint.Product.{product, Reachable, initially, stepped}
use trace_mind.Verify.Joint.Refines.{Distinguishes, Runs, began, key_of, joint_refines_product}
use trace_mind.Verify.Joint.Steps.{projected}

abbrev waiting : State
waiting = record { store = []; pending = "go" ∷ []; done = []; events = [] }

abbrev gone : State
gone = record { store = []; pending = []; done = "go" ∷ []; events = [] }

abbrev walker : ComponentAdapter
walker = record {
  initial_state = some waiting;
  successors = λ s. if is_empty s.pending then some [] else some (("go", gone) ∷ []);
  enabled_steps = λ s. s.pending;
}

abbrev idler : ComponentAdapter
idler = record { initial_state = some gone; successors = λ s. some []; enabled_steps = λ s. [] }

abbrev pair : JointAdapter
pair = record { components = walker ∷ idler ∷ []; component_ids = "agent0" ∷ "agent1" ∷ [] }

pair_built : from_components (walker ∷ idler ∷ []) none ≡ built pair
unfolding from_components decimal
pair_built = refl

abbrev digest : Payload → String
digest p = elim p.scheduling [
  | none ↦ ""
  | some (pending, done, events) ↦ if is_empty pending then "end" else "start"
]

abbrev at_first : List State
at_first = waiting ∷ gone ∷ []

abbrev at_last : List State
at_last = gone ∷ gone ∷ []

the_step : product pair.components pair.component_ids at_first ≡ some (("agent0:go", at_last) ∷ [])
unfolding product
the_step = refl

no_step : product pair.components pair.component_ids at_last ≡ some []
unfolding product
no_step = refl

abbrev IsOne : List State → Type 0
IsOne j = (at_first ≡ j) ⊎ (at_last ≡ j)

joint_inj : {j j' : List State} → some j ≡ some j' → j ≡ j'
joint_inj h = cc

list_inj : {u v : List (String × List State)} → some u ≡ some v → u ≡ v
list_inj h = cc

only :
    (l : String) (j : List State)
    → Memᴰ {A = String × List State} (l, j) (("agent0:go", at_last) ∷ [])
    → at_last ≡ j
only l j m = elim (Memᴰ.cases_cons m) [
  | inl same ↦ sym (ap (λ x. x.1) same)
  | inr later ↦ absurd (Memᴰ.not-nil later)
]

Reachable-IsOne : (j : List State) → Reachable pair j → IsOne j
Reachable-IsOne j (initially start) = inl (joint_inj start)
Reachable-IsOne j (stepped {joint = joint} {label = label} {steps = steps} r h m) =
    elim (Reachable-IsOne joint r) [
      | inl same ↦
          let steps_are =
            list_inj (sym the_step ∙ ap (product pair.components pair.component_ids) same ∙ h) in
          inr (only label j (subst (λ s. Memᴰ (label, j) s) (sym steps_are) m))
      | inr same ↦
          let steps_are =
            list_inj (sym no_step ∙ ap (product pair.components pair.component_ids) same ∙ h) in
          absurd (Memᴰ.not-nil (subst (λ s. Memᴰ (label, j) s) (sym steps_are) m))
    ]

first_key : key_of digest pair at_first ≡ "start"
unfolding project project_from stable_hash
first_key = refl

last_key : key_of digest pair at_last ≡ "end"
unfolding project project_from stable_hash
last_key = refl

keys_differ : ◌≡◌ {A = String} "start" "end" → ⊥
keys_differ h = cc

tells_apart : Distinguishes digest pair
tells_apart j j' r r' same = elim (Reachable-IsOne j r) [
  | inl here ↦ elim (Reachable-IsOne j' r') [
    | inl there ↦ sym here ∙ there
    | inr there ↦ absurd (
        keys_differ (
          sym first_key
          ∙ ap (key_of digest pair) here
          ∙ same
          ∙ ap (key_of digest pair) (sym there)
          ∙ last_key))
  ]
  | inr here ↦ elim (Reachable-IsOne j' r') [
    | inr there ↦ sym here ∙ there
    | inl there ↦ absurd (
        keys_differ (
          sym first_key
          ∙ ap (key_of digest pair) there
          ∙ sym same
          ∙ ap (key_of digest pair) (sym here)
          ∙ last_key))
  ]
]

abbrev first_memo : Memo
first_memo = put "start" at_first []

started : Runs digest pair tells_apart first_memo (at_first ∷ [])
unfolding initial_joint project project_from stable_hash put
started = began {s = project pair.component_ids at_first} refl refl

joint_refines_product_example :
    (memo' : Memo) × (joint_successors digest pair (project pair.component_ids at_first) first_memo
      ≡ some (projected pair.component_ids (("agent0:go", at_last) ∷ []), memo'))
joint_refines_product_example =
    joint_refines_product digest pair tells_apart at_first (("agent0:go", at_last) ∷ []) started
      (Memᴰ.head refl) the_step
