-- ===== src/Verify/Explorer/Paths.antt =====
-- `path_to` of tm/verify/explorer.py: the path that a counterexample shows.
use trace_mind.Prelude.{
  ℕ, zero, suc, ◌<◌, ◌≡◌, refl, true, false, Option, none, some, List, [], ◌⊎◌, inl, inr, ◌∷◌,
  arith, nat_HasEq, text_HasEq, Dict, String, lookup, lookup-keys, contains, length, leb,
  Bool-cases, Option-cases, Distinct,
}
use trace_mind.Prelude.Missing.{missing, missing-le-length, missing-cons-lt}
use trace_mind.Verify.Explorer.{ExplorationResult, back, path_to}
use trace_mind.Verify.Explorer.Invariant.{Edge}

-- Each state of the list has an edge to the next.
abbrev pub IsPath : Dict ℕ (List ℕ) → List ℕ → Type 0
IsPath edges [] = Unit
IsPath edges (i ∷ []) = Unit
IsPath edges (i ∷ j ∷ xs) = Edge edges i j × IsPath edges (j ∷ xs)

abbrev pub last_of : ℕ → List ℕ → ℕ
last_of d [] = d
last_of d (x ∷ xs) = last_of x xs

abbrev pub head_of : List ℕ → Option ℕ
head_of [] = none
head_of (x ∷ xs) = some x

module _ (edges : Dict ℕ (List ℕ)) (preds : Dict ℕ (ℕ × String))
    (parents : (j i : ℕ) (label : String) → lookup j preds ≡ some (i, label) → Edge edges i j) where
  back-IsPath :
      (fuel : ℕ) (cur : ℕ) (rest : List ℕ) (d : ℕ)
      → IsPath edges (cur ∷ rest)
      → Distinct (cur ∷ rest)
      → IsPath edges (back fuel preds (cur ∷ rest) cur)
        × Distinct (back fuel preds (cur ∷ rest) cur)
        × (last_of d (back fuel preds (cur ∷ rest) cur) ≡ last_of cur rest)
  unfolding back
  back-IsPath zero cur rest d p u = (p, u, refl)
  back-IsPath (suc fuel) cur rest d p u = elim (Option-cases (lookup cur preds)) [
    | inl top ↦ rw (top, back) (p, u, refl)
    | inr ((prev, label), e) ↦ elim (Bool-cases (contains (cur ∷ rest) prev)) [
      | inl cycle ↦ rw (e, back, cycle) (p, u, refl)
      | inr new ↦
          rw (e, back, new)
            (back-IsPath fuel prev (cur ∷ rest) d (parents cur prev label e, p) (new, u))
    ]
  ]

-- The path begins at a state without a predecessor, or with one that is on the path.
abbrev pub Stops : Dict ℕ (ℕ × String) → List ℕ → Type 0
Stops preds [] = ⊥
Stops preds (i ∷ xs) =
    (lookup i preds ≡ none)
    ⊎ ((prev : ℕ) × (label : String) × (lookup i preds ≡ some (prev, label))
        × (contains (i ∷ xs) prev ≡ true))

back-Stops :
    (preds : Dict ℕ (ℕ × String)) (fuel cur : ℕ) (rest : List ℕ)
    → missing rest preds < fuel
    → contains rest cur ≡ false
    → Stops preds (back fuel preds (cur ∷ rest) cur)
unfolding back
back-Stops preds zero cur rest h new = absurd (omega arith)
back-Stops preds (suc fuel) cur rest h new = elim (Option-cases (lookup cur preds)) [
  | inl top ↦ rw (top, back) (inl top)
  | inr ((prev, label), e) ↦ elim (Bool-cases (contains (cur ∷ rest) prev)) [
    | inl cycle ↦ rw (e, back, cycle) (inr (prev, label, e, cycle))
    | inr fresh ↦
        let less = missing-cons-lt cur rest preds new (lookup-keys preds cur (prev, label) e) in
        rw (e, back, fresh) (back-Stops preds fuel prev (cur ∷ rest) (omega arith) fresh)
  ]
]

-- Where each predecessor is the source of an edge, the path to a state of the model follows edges,
-- visits no state twice, ends at the state, and was not cut short: it begins at a state that has
-- no predecessor or whose predecessor it holds.
pub path_to_correct :
    {S : Type 0} (r : ExplorationResult S) (target : ℕ)
    → ((j i : ℕ) (label : String) → lookup j r.predecessors ≡ some (i, label) → Edge r.edges i j)
    → target < length r.states
    → IsPath r.edges (path_to r target)
      × Distinct (path_to r target)
      × (last_of 0 (path_to r target) ≡ target)
      × Stops r.predecessors (path_to r target)
unfolding path_to
path_to_correct r target parents h =
    let inside : leb (length r.states) target ≡ false = ground arith in
    let fuel = suc (length r.predecessors) in
    let (p, u, l) = back-IsPath r.edges r.predecessors parents fuel target [] 0 tt (refl, tt) in
    rw inside (
      p,
      u,
      l,
      back-Stops r.predecessors fuel target [] (omega (arith, missing-le-length [] r.predecessors))
          refl,
    )
