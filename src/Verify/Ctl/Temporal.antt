-- ===== src/Verify/Ctl/Temporal.antt =====
-- The temporal operators of `_sat` are those of Meaning: paths by least fixpoints, and the two
-- operators that the code computes by complements.
use trace_mind.Prelude.{
  ℕ, ◌<◌, ◌≡◌, refl, true, false, not, ◌&&◌, inl, inr, ◌↔◌, List, Dict, keys, contains,
  contains-keep, contains-append, length, is_empty, nat_HasEq, Bool-cases, arith,
}
use trace_mind.Verify.State.{State}
use trace_mind.Verify.Explorer.{ExplorationResult, succs_of}
use trace_mind.Verify.Ctl.Fixpoint.{least}
use trace_mind.Verify.Ctl.Sat.{
  some_in, complement, all_states, terminals_in, admit_af, ef_states, af_states,
}
use trace_mind.Verify.Ctl.Meaning.{
  Edge, ExistsUntil, AlwaysUntil, Reach, Invariably, IsModel, Always,
}
use trace_mind.Verify.Ctl.Until.{In, some_in-elim, some_in-intro, least_some, least_all}
use trace_mind.Verify.Ctl.Operators.{complement_iff}

module _ (edges : Dict ℕ (List ℕ)) {L L' R R' : ℕ → Type 0} (f : (j : ℕ) → L j → L' j)
    (g : (j : ℕ) → R j → R' j) where
  pub exists-map : {i : ℕ} → ExistsUntil edges L R i → ExistsUntil edges L' R' i
  exists-map (ExistsUntil.now {i} h) = ExistsUntil.now (g i h)
  exists-map (ExistsUntil.later {i} l e rest) = ExistsUntil.later (f i l) e (exists-map rest)

  pub always-map : {i : ℕ} → AlwaysUntil edges L R i → AlwaysUntil edges L' R' i
  always-map (AlwaysUntil.now {i} h) = AlwaysUntil.now (g i h)
  always-map (AlwaysUntil.later {i} l e rest) =
      AlwaysUntil.later (f i l) e (λ j step. always-map (rest j step))

-- What can be reached and has R makes the existential path.
pub exists_of_Reach :
    (edges : Dict ℕ (List ℕ)) {R : ℕ → Type 0} {i j : ℕ}
    → Reach edges i j
    → R j
    → ExistsUntil edges Always R i
exists_of_Reach edges Reach.here r = ExistsUntil.now r
exists_of_Reach edges (Reach.step e rest) r = ExistsUntil.later tt e (exists_of_Reach edges rest r)

pub Reach-of_exists :
    (edges : Dict ℕ (List ℕ)) {R : ℕ → Type 0} {i : ℕ}
    → ExistsUntil edges Always R i
    → (j : ℕ) × Reach edges i j × R j
Reach-of_exists edges (ExistsUntil.now {i} r) = (i, Reach.here, r)
Reach-of_exists edges (ExistsUntil.later l e rest) =
    let (j, path, r) = Reach-of_exists edges rest in (j, Reach.step e path, r)

module _ (m : ExplorationResult State) (w : IsModel m) where
  abbrev Below : ℕ → Type 0
  Below i = i < length m.states

  Reach-bounded : {i j : ℕ} → Below i → Reach m.edges i j → Below j
  Reach-bounded b Reach.here = b
  Reach-bounded b (Reach.step {i} {j} e rest) = Reach-bounded (w.bounded i j e).1 rest

  pub ef_iff : (xs : List ℕ) (i : ℕ) → In (ef_states m xs) i ↔ ExistsUntil m.edges Always (In xs) i
  unfolding ef_states
  ef_iff xs i =
      let both = least_some m.edges (λ _. true) xs w.distinct i in
      (
        λ h. exists-map m.edges (λ _ _. tt) (λ _ r. r) (both.0 h),
        λ h. both.1 (exists-map m.edges (λ _ _. refl) (λ _ r. r) h),
      )

  pub af_iff : (xs : List ℕ) (i : ℕ) → In (af_states m xs) i ↔ AlwaysUntil m.edges Always (In xs) i
  unfolding af_states
  af_iff xs i =
      let both = least_all m.edges (λ _. true) xs w.distinct i in
      let union = contains-append (terminals_in m xs) (least admit_af m.edges xs) i in
      let ends =
        contains-keep (λ j. not (contains (keys m.edges) j) && contains xs j) (all_states m) i in
      (
        λ h. elim (Bool-cases (contains (least admit_af m.edges xs) i)) [
          | inl grown ↦ always-map m.edges (λ _ _. tt) (λ _ r. r) (both.0 grown)
          | inr other ↦ AlwaysUntil.now (ground (arith, union, ends))
        ],
        λ h.
            let grown = both.1 (always-map m.edges (λ _ _. refl) (λ _ r. r) h) in
            ground (arith, union),
      )

  -- AG by complements: every state that can be reached is in the set.
  pub ag_iff :
      (xs : List ℕ) (i : ℕ)
      → In (complement m (ef_states m (complement m xs))) i
        ↔ (Below i × ((j : ℕ) → Reach m.edges i j → In xs j))
  ag_iff xs i = (
    λ h.
        let (b, none_out) = (complement_iff m (ef_states m (complement m xs)) i).0 h in
        (
          b,
          λ j path. elim (Bool-cases (contains xs j)) [
            | inl inside ↦ inside
            | inr out ↦
                let bad = (complement_iff m xs j).1 (Reach-bounded b path, λ c. cc) in
                absurd
                  (none_out ((ef_iff (complement m xs) i).1 (exists_of_Reach m.edges path bad)))
          ],
        ),
    λ (b, all_in_xs). (complement_iff m (ef_states m (complement m xs)) i).1 (
      b,
      λ h.
          let (j, path, bad) = Reach-of_exists m.edges ((ef_iff (complement m xs) i).0 h) in
          ((complement_iff m xs j).0 bad).1 (all_in_xs j path),
    ),
  )

  -- No path from a state of such a set leaves it for good.
  never_leaves :
      (xs ys : List ℕ) {i : ℕ}
      → Invariably m.edges (In xs) ys
      → In ys i
      → ¬ AlwaysUntil m.edges Always (In (complement m xs)) i
  never_leaves xs ys inv h (AlwaysUntil.now {i} out) =
      ((complement_iff m xs i).0 out).1 (inv.always i h)
  never_leaves xs ys inv h (AlwaysUntil.later {i} l more rest) = elim (inv.goes_on i h) [
    | inl ends ↦ absurd (cc (more, ends))
    | inr (k, e, in_ys) ↦ never_leaves xs ys inv in_ys (rest k e)
  ]

  abbrev stays : List ℕ → List ℕ
  stays xs = complement m (af_states m (complement m xs))

  stays-inside : (xs : List ℕ) (j : ℕ) → In (stays xs) j → In xs j
  stays-inside xs j h = elim (Bool-cases (contains xs j)) [
    | inl inside ↦ inside
    | inr out ↦
        let (b, never) = (complement_iff m (af_states m (complement m xs)) j).0 h in
        absurd (
          never (
            (af_iff (complement m xs) j).1
              (AlwaysUntil.now ((complement_iff m xs j).1 (b, λ c. cc)))))
  ]

  -- A state without a successor in `stays` cannot avoid leaving the set.
  stays-next :
      (xs : List ℕ) (j : ℕ)
      → In (stays xs) j
      → is_empty (succs_of m.edges j) ≡ false
      → (k : ℕ) × Edge m.edges j k × In (stays xs) k
  stays-next xs j h more = elim (Bool-cases (some_in (stays xs) (succs_of m.edges j))) [
    | inl found ↦ some_in-elim (stays xs) (succs_of m.edges j) found
    | inr not_found ↦
        let (b, never) = (complement_iff m (af_states m (complement m xs)) j).0 h in
        absurd
          (never ((af_iff (complement m xs) j).1 (AlwaysUntil.later tt more (leaves not_found))))
  ]
    where
      leaves :
          some_in (stays xs) (succs_of m.edges j) ≡ false
          → (k : ℕ) → Edge m.edges j k
          → AlwaysUntil m.edges Always (In (complement m xs)) k
      leaves none_in k e = elim (Bool-cases (contains (af_states m (complement m xs)) k)) [
        | inl out ↦ (af_iff (complement m xs) k).0 out
        | inr keeps ↦
            let in_stays =
              (complement_iff m (af_states m (complement m xs)) k).1
                ((w.bounded j k e).1, λ c. cc) in
            absurd (cc (some_in-intro (stays xs) (succs_of m.edges j) k e in_stays, none_in))
      ]

  -- EG by complements: the state lies in a set that no path has to leave.
  pub eg_iff :
      (xs : List ℕ) (i : ℕ)
      → ((j : ℕ) → In xs j → Below j)
      → In (stays xs) i ↔ ((ys : List ℕ) × In ys i × Invariably m.edges (In xs) ys)
  eg_iff xs i bound = (
    λ h. (
      stays xs,
      h,
      record {
        always = stays-inside xs;
        goes_on = λ j hj. elim (Bool-cases (is_empty (succs_of m.edges j))) [
          | inl ends ↦ inl ends
          | inr more ↦ inr (stays-next xs j hj more)
        ];
      },
    ),
    λ (ys, h, inv). (complement_iff m (af_states m (complement m xs)) i).1 (
      bound i (inv.always i h),
      λ c. never_leaves xs ys inv h ((af_iff (complement m xs) i).0 c),
    ),
  )
