-- ===== src/Verify/Adapter/Runs.antt =====
-- The states that the adapter of a plan reaches have no doubled entries.
use trace_mind.Prelude.{
  ℕ, ◌≡◌, refl, true, false, not, ◌&&◌, ◌||◌, some, List, [], ◌∷◌, ◌++◌, String, inl, inr, ap,
  arith, text_HasEq, lookup, contains, contains-append, Distinct, Bool-cases, Option-cases,
  eq_iff_at,
}
use mathlib.Core.List.{Memᴰ}
use mathlib.Core.List.Memᴰ
use trace_mind.Verify.State.{State}
use trace_mind.Verify.State.{Payload, stable_hash}
use trace_mind.Verify.Adapter.{
  StepSpec, Plan, TraceMindAdapter, collect_steps, dedupe, initial_state, is_enabled, enabled_steps,
  run_step, run_enabled, successors,
}
use trace_mind.Verify.Adapter.Laws.{IsValid, run_step_effect, enabled_steps_lem}
use trace_mind.Verify.Explorer.{System}
use trace_mind.Verify.Explorer.Invariant.{ReachesIn}
use trace_mind.Verify.Checker.{system_of}

Distinct-dedupe :
    (seen xs : List String)
    → Distinct (dedupe seen xs)
      × ((x : String) → contains seen x ≡ true → contains (dedupe seen xs) x ≡ false)
unfolding dedupe
Distinct-dedupe seen [] = (tt, λ x h. refl)
Distinct-dedupe seen (y ∷ xs) = elim (Bool-cases (contains seen y)) [
  | inl old ↦ rw (old, dedupe) (Distinct-dedupe seen xs)
  | inr new ↦
      let (d, out) = Distinct-dedupe (y ∷ seen) xs in
      rw (new, dedupe)
        ((out y (ground (arith, eq_iff_at y y)), d), λ x h. ground (arith, out x, eq_iff_at y x))
]

contains-dedupe :
    (seen xs : List String) (x : String)
    → contains (dedupe seen xs) x ≡ (contains xs x && not (contains seen x))
unfolding dedupe
contains-dedupe seen [] x = refl
contains-dedupe seen (y ∷ xs) x =
    ground (arith, contains-dedupe (y ∷ seen) xs x, contains-dedupe seen xs x, eq_iff_at y x)

-- The pending steps at the start are those given and those that the changed paths trigger, each
-- once; the store and the steps done are those given.
initial_state_lem :
    (a : TraceMindAdapter) (s : State) (triggered : List String)
    → initial_state a ≡ some s
    → collect_steps a.plan.rules a.changed_paths ≡ some triggered
    → Distinct s.pending
      × ((x : String)
          → contains s.pending x ≡ (contains a.initial_pending x || contains triggered x))
      × (s.store ≡ a.initial_store)
      × (s.done ≡ a.initial_done)
      × (s.events ≡ [])
unfolding initial_state
initial_state_lem a s triggered h found =
    let pending : s.pending ≡ dedupe [] (a.initial_pending ++ triggered) = ground arith in
    (
      rw pending (Distinct-dedupe [] (a.initial_pending ++ triggered)).0,
      λ x. rw pending (
          ground (
            arith,
            contains-dedupe [] (a.initial_pending ++ triggered) x,
            contains-append a.initial_pending triggered x,
          )),
      ground arith,
      ground arith,
      ground arith,
    )

run_enabled-elim :
    (plan : Plan) (s : State) (names : List String) (succ : List (String × State)) (name : String)
    (s' : State)
    → run_enabled plan s names ≡ some succ
    → Memᴰ (name, s') succ
    → (contains names name ≡ true)
      × ((spec : StepSpec) × (lookup name plan.steps ≡ some spec)
          × (run_step plan s name spec ≡ some s'))
run_enabled-elim plan s [] succ name s' h m =
    let none_left : succ ≡ [] = ground arith in absurd (Memᴰ.not-nil (rw none_left at m))
run_enabled-elim plan s (x ∷ names) succ name s' h m = elim (Option-cases (lookup x plan.steps)) [
  | inl unknown ↦
      let (among, rest) = run_enabled-elim plan s names succ name s' (ground arith) m in
      (ground arith, rest)
  | inr (spec, known) ↦ elim (Option-cases (run_step plan s x spec)) [
    | inl bad ↦ absurd (ground arith)
    | inr (u, ran) ↦ elim (Option-cases (run_enabled plan s names)) [
      | inl bad ↦ absurd (ground arith)
      | inr (more, later) ↦
          let all_of : succ ≡ (x, u) ∷ more = ground arith in
          elim (Memᴰ.cases_cons (rw all_of at m)) [
            | inl same ↦
                let p : name ≡ x = ap (λ (t : String × State). t.0) same in
                let q : s' ≡ u = ap (λ (t : String × State). t.1) same in
                (ground (arith, eq_iff_at x name), (spec, rw p known, rw (p, q) ran))
            | inr rest ↦
                let (among, found) = run_enabled-elim plan s names more name s' later rest in
                (ground arith, found)
          ]
    ]
  ]
]

-- Each successor is made by running an enabled step of the plan.
successors_lem :
    (a : TraceMindAdapter) (s s' : State) (succ : List (String × State)) (name : String)
    → successors a s ≡ some succ
    → Memᴰ (name, s') succ
    → (contains s.pending name ≡ true)
      × (is_enabled a.plan s name ≡ true)
      × ((spec : StepSpec) × (lookup name a.plan.steps ≡ some spec)
          × (run_step a.plan s name spec ≡ some s'))
unfolding successors
successors_lem a s s' succ name h m =
    let (among, found) = run_enabled-elim a.plan s (enabled_steps a s) succ name s' h m in
    let same = (enabled_steps_lem a s).0 name in (ground arith, ground arith, found)

system_of-successors :
    (digest : Payload → String) (mode : String) (a : TraceMindAdapter) (sys : System State)
    → system_of digest mode a ≡ some sys
    → sys.successors ≡ successors a
unfolding system_of
system_of-successors digest mode a sys made = elim (Option-cases (initial_state a)) [
  | inl bad ↦ absurd (ground arith)
  | inr (root, good) ↦ elim (Option-cases (stable_hash digest mode root)) [
    | inl bad ↦ absurd (ground arith)
    | inr (h, hashed) ↦ ground arith
  ]
]

-- Let the system of a plan start with no step done twice. Every state that it reaches, in any
-- number of steps, has no step pending twice and none done twice.
pub reaches-IsValid :
    (digest : Payload → String) (mode : String) (a : TraceMindAdapter) (sys : System State)
    → system_of digest mode a ≡ some sys
    → Distinct a.initial_done
    → (d : ℕ) (st : State) → ReachesIn sys d st
    → IsValid st
unfolding system_of
reaches-IsValid digest mode a sys made once d st (ReachesIn.root) =
    elim (Option-cases (collect_steps a.plan.rules a.changed_paths)) [
      | inl bad ↦ absurd (unfold initial_state in ground arith)
      | inr (triggered, found) ↦
          let start : initial_state a ≡ some sys.root = ground arith in
          let (pending, _, _, done, _) = initial_state_lem a sys.root triggered start found in
          record { pending = pending; done = rw done once }
    ]
reaches-IsValid digest mode a sys made once d st
      (ReachesIn.next {d = d'} {st = before} {succ = succ} label path steps among) =
    let valid = reaches-IsValid digest mode a sys made once d' before path in
    let same : sys.successors ≡ successors a = system_of-successors digest mode a sys made in
    let steps' : successors a before ≡ some succ = rw same at steps in
    let (_, _, (spec, _, ran)) = successors_lem a before st succ label steps' among in
    (run_step_effect a.plan before st label spec valid ran).1
