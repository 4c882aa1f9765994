-- ===== src/Verify/Adapter.antt =====
-- tm/verify/adapter.py: a plan's steps and rules (tm/pipeline/engine.py) as a transition system.
-- `none` is a ValueError from a malformed selector.
pub mod Laws
pub mod Runs
use trace_mind.Prelude.{
  ℕ, zero, suc, ◌≡◌, refl, Bool, true, false, not, ◌&&◌, ◌||◌, Option, none, some, List, [], ◌∷◌,
  ◌++◌, String, arith, if◌then◌else◌, ◌==◌, text_HasEq, Dict, keys, lookup, put, without, has_key,
  contains, remove_first, is_empty, all, map,
}
use trace_mind.Verify.Selectors.{Key, matches, selector_to_path}
use trace_mind.Verify.State.{Value, State, bool}
use Prim.Native.String.{◌++◌ as text_append}

infixl 5 ◌>>=◌
abbrev pub ◌>>=◌ {ℓ κ} : {A : Type ℓ} {B : Type κ} → Option A → (A → Option B) → Option B
none >>= f = none
some a >>= f = f a

pub record StepSpec : Type 0 where
  pub name : String
  pub reads : List String
  pub writes : List String
  pub clears : List String

pub record Rule : Type 0 where
  pub name : String
  pub triggers : List String
  pub steps : List String

pub record Plan : Type 0 where
  pub steps : Dict String StepSpec
  pub rules : List Rule

pub record TraceMindAdapter : Type 0 where
  pub plan : Plan
  pub initial_store : Dict String Value
  pub changed_paths : List (List Key)
  pub initial_pending : List String
  pub initial_done : List String

-- The inner loop of `_rule_triggered`, over the changed paths.
abbrev pub trigger_hits : String → List (List Key) → Option Bool
trigger_hits trig [] = some false
trigger_hits trig (path ∷ paths) =
    let more = trigger_hits trig paths in
    elim (matches trig path) [ none ↦ none | some hit ↦ if hit then some true else more ]

unfoldable pub rule_triggered : List String → List (List Key) → Option Bool
rule_triggered [] paths = some false
rule_triggered (trig ∷ triggers) paths =
    let more = rule_triggered triggers paths in
    elim (trigger_hits trig paths) [ none ↦ none | some hit ↦ if hit then some true else more ]

unfoldable pub collect_steps : List Rule → List (List Key) → Option (List String)
unfolding rule_triggered
collect_steps [] paths = some []
collect_steps (rule ∷ rules) paths = do
  hit ← rule_triggered rule.triggers paths
  more ← collect_steps rules paths
  some (if hit then rule.steps ++ more else more)

abbrev pub to_paths : List String → Option (List (List Key))
to_paths [] = some []
to_paths (w ∷ ws) = do p ← selector_to_path w; ps ← to_paths ws; some (p ∷ ps)

-- Keep the first of equal entries.
unfoldable pub dedupe : List String → List String → List String
dedupe seen [] = []
dedupe seen (x ∷ xs) =
    let fresh = x ∷ dedupe (x ∷ seen) xs in
    let old = dedupe seen xs in if contains seen x then old else fresh

-- TraceMindAdapter.from_plan
unfoldable pub from_plan :
    Plan → Dict String Value → List String → List String → List String → Option TraceMindAdapter
from_plan plan store changed pending finished = do
  paths ← to_paths changed
  some (record {
    plan = plan;
    initial_store = store;
    changed_paths = paths;
    initial_pending = pending;
    initial_done = finished;
  })

unfoldable pub initial_state : TraceMindAdapter → Option State
unfolding collect_steps dedupe
initial_state a = do
  triggered ← collect_steps a.plan.rules a.changed_paths
  some (record {
    store = a.initial_store;
    pending = dedupe [] (a.initial_pending ++ triggered);
    done = a.initial_done;
    events = [];
  })

unfoldable pub reads_available : StepSpec → Dict String Value → Bool
unfolding has_key
reads_available spec store = all (λ r. has_key r store) spec.reads

-- Is a pending step known, with all that it reads in the store?
unfoldable pub is_enabled : Plan → State → String → Bool
unfolding reads_available
is_enabled plan s name = elim (lookup name plan.steps) [
  | none ↦ false
  | some spec ↦ reads_available spec s.store
]

-- The loop of `enabled_steps`; `enabled` is the list built so far.
unfoldable pub collect_enabled : Plan → State → List String → List String → List String
unfolding is_enabled
collect_enabled plan s enabled [] = enabled
collect_enabled plan s enabled (name ∷ names) =
    collect_enabled plan s
      (if is_enabled plan s name && not (contains enabled name)
        then enabled ++ name ∷ []
        else enabled)
      names

unfoldable pub enabled_steps : TraceMindAdapter → State → List String
unfolding collect_enabled
enabled_steps a s = collect_enabled a.plan s [] s.pending

abbrev pub write_all : List String → Dict String Value → Dict String Value
write_all [] store = store
write_all (w ∷ ws) store = write_all ws (put w (bool true) store)

abbrev pub clear_all : List String → Dict String Value → Dict String Value
clear_all [] store = store
clear_all (c ∷ cs) store = clear_all cs (without c store)

abbrev pub add_new : List String → List String → List String
add_new old [] = old
add_new old (x ∷ xs) = add_new (if contains old x then old else old ++ x ∷ []) xs

unfoldable pub run_step : Plan → State → String → StepSpec → Option State
unfolding collect_steps put without
run_step plan s name spec = do
  paths ← to_paths spec.writes
  triggered ← collect_steps plan.rules paths
  some (record {
    store = clear_all spec.clears (write_all spec.writes s.store);
    pending = add_new (remove_first name s.pending) triggered;
    done = if contains s.done name then s.done else s.done ++ name ∷ [];
    events = s.events ++ text_append "step:" name ∷ [];
  })

abbrev pub run_enabled : Plan → State → List String → Option (List (String × State))
run_enabled plan s [] = some []
run_enabled plan s (name ∷ names) =
    let later = run_enabled plan s names in
    elim (lookup name plan.steps) [
      | none ↦ later
      | some spec ↦ do s' ← run_step plan s name spec; more ← later; some ((name, s') ∷ more)
    ]

unfoldable pub successors : TraceMindAdapter → State → Option (List (String × State))
unfolding enabled_steps run_step lookup
successors a s = run_enabled a.plan s (enabled_steps a s)

unfoldable pub is_deadlocked : TraceMindAdapter → State → Bool
unfolding enabled_steps
is_deadlocked a s = not (is_empty s.pending) && is_empty (enabled_steps a s)
