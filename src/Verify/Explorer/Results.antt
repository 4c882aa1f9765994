-- ===== src/Verify/Explorer/Results.antt =====
-- What `run` of tm/verify/explorer.py returns.
use trace_mind.Prelude.{
  ℕ, zero, suc, ◌≤◌, ◌<◌, ◌≡◌, refl, true, some, List, [], ◌⊎◌, inl, inr, sym, ap, ◌∙◌, subst, ◌∷◌,
  arith, nat_HasEq, text_HasEq, String, lookup, put, contains, get_elem?, get_elem?-lt,
  Option-cases, eq_iff_at,
}
use mathlib.Core.List.{Memᴰ}
use trace_mind.Verify.Explorer.{
  System, Search, ExplorationResult, depth_of, expand, loop, start, run, bounded_successors,
  finished,
}
use trace_mind.Verify.Explorer.Invariant.{Edge, ReachesIn, Transition, Inv}
use mathlib.Core.List.Memᴰ
use trace_mind.Verify.Explorer.Loop.{LoopInv, round_keeps}
use trace_mind.Verify.Ctl.Meaning.{IsModel}

pub List-cases {ℓ} :
    {A : Type ℓ} (xs : List A) → (xs ≡ []) ⊎ ((x : A) × (rest : List A) × (xs ≡ x ∷ rest))
List-cases [] = inl refl
List-cases (x ∷ xs) = inr (x, xs, refl)

module _ {S : Type 0} (sys : System S) (max_depth : ℕ) where
  -- The result in terms of the adapter alone.
  pub record Explores (r : ExplorationResult S) : Type 0 where
    pub model : IsModel r
    pub root_first : get_elem? r.states 0 ≡ some sys.root
    pub reachable : (i : ℕ) (st : S) → get_elem? r.states i ≡ some st → (d : ℕ) × ReachesIn sys d st
    pub unique :
        (i j : ℕ) (st st' : S)
        → get_elem? r.states i ≡ some st
        → get_elem? r.states j ≡ some st'
        → sys.hash st ≡ sys.hash st'
        → i ≡ j
    pub real_edges :
        (i j : ℕ)
        → Edge r.edges i j
        → (st st' : S) × (get_elem? r.states i ≡ some st)
          × (get_elem? r.states j ≡ some st')
          × Transition sys st st'
    pub all_edges :
        (i : ℕ) (st : S)
        → get_elem? r.states i ≡ some st
        → ((succ : List (String × S)) × (sys.successors st ≡ some succ)
            × ((label : String) (nxt : S)
                → Memᴰ (label, nxt) succ
                → (j : ℕ) × (st' : S) × (get_elem? r.states j ≡ some st')
                  × (sys.hash st' ≡ sys.hash nxt)
                  × Edge r.edges i j))
          ⊎ ((d : ℕ) × (max_depth ≤ d) × ReachesIn sys d st)
    pub dead :
        (i : ℕ)
        → contains r.deadlocks i ≡ true
        → (st : S) × (get_elem? r.states i ≡ some st) × (sys.is_deadlocked st ≡ true)
    pub parents :
        (j i : ℕ) (label : String) → lookup j r.predecessors ≡ some (i, label) → Edge r.edges i j

  abbrev result_of : Search S → ExplorationResult S
  result_of s = record {
    states = s.states;
    edges = s.edges;
    predecessors = s.predecessors;
    deadlocks = s.deadlocks;
  }

  at_end : (s : Search S) → LoopInv sys max_depth s → s.queue ≡ [] → Explores (result_of s)
  at_end s h empty = record {
    model = record {
      distinct = h.inv.distinct;
      bounded = λ i j e.
          let (st, st', at, at', _) = h.inv.edge_at i j e in
          (get_elem?-lt s.states i at, get_elem?-lt s.states j at');
    };
    root_first = h.inv.root_at;
    reachable = λ i st at. (depth_of s.depths i, h.inv.reached i st at);
    unique = λ i j st st' at at' same.
        let p = h.inv.numbered i st at in
        let q = h.inv.numbered j st' at' in
        let same' : lookup (sys.hash st) s.seen ≡ lookup (sys.hash st') s.seen =
          ap (λ k. lookup k s.seen) same in
        cc;
    real_edges = h.inv.edge_at;
    all_edges = λ i st at. elim (h.explored i st at) [
      | inl waits ↦ absurd (Memᴰ.not-nil (subst (Memᴰ (i, st)) empty waits))
      | inr (inl found) ↦ inl found
      | inr (inr deep) ↦ inr (depth_of s.depths i, deep, h.inv.reached i st at)
    ];
    dead = h.dead;
    parents = h.inv.pred_at;
  }

  loop-Explores :
      (fuel : ℕ) (s : Search S) {r : ExplorationResult S}
      → LoopInv sys max_depth s
      → loop sys max_depth fuel s ≡ finished r
      → Explores r
  unfolding loop
  loop-Explores zero s h e = cc
  loop-Explores (suc fuel) s {r} h e = elim (List-cases s.queue) [
    | inl empty ↦
        let same : result_of s ≡ r = ground (arith, rw (empty, loop) at e) in
        subst Explores same (at_end s h empty)
    | inr ((sid, st), rest, q) ↦
        elim (Option-cases (bounded_successors sys max_depth (depth_of s.depths sid) st)) [
          | inl bad ↦ absurd (cc (rw (q, loop, bad) at e))
          | inr (succ, good) ↦
              loop-Explores fuel (expand sys max_depth sid st succ (record s { queue = rest }))
                (round_keeps sys max_depth s sid st rest h q succ good) (rw (q, loop, good) at e)
        ]
  ]

  start-Inv : Inv sys (start sys max_depth)
  unfolding start lookup put
  start-Inv = record {
    root_at = refl;
    seen_at = λ h i e. (
      sys.root,
      let z : i ≡ 0 = ground (arith, eq_iff_at (sys.hash sys.root) h) in rw z,
      ground (arith, eq_iff_at (sys.hash sys.root) h),
    );
    numbered = numbered_at;
    depths_lt = λ i d e. ground (arith, eq_iff_at 0 i);
    reached = reached_at;
    distinct = tt;
    edge_at = λ i j e. absurd (cc);
    pred_at = λ j i l e. cc;
  }
    where
      numbered_at :
          (i : ℕ) (st : S)
          → get_elem? (sys.root ∷ []) i ≡ some st
          → lookup (sys.hash st) (put (sys.hash sys.root) 0 []) ≡ some i
      numbered_at zero st at =
          let e : sys.root ≡ st = ground arith in
          rw (← e) (ground (arith, eq_iff_at (sys.hash sys.root) (sys.hash sys.root)))
      numbered_at (suc i) st at = cc

      reached_at :
          (i : ℕ) (st : S)
          → get_elem? (sys.root ∷ []) i ≡ some st
          → ReachesIn sys (depth_of (put 0 0 []) i) st
      reached_at zero st at =
          let e : sys.root ≡ st = ground arith in subst (ReachesIn sys 0) e ReachesIn.root
      reached_at (suc i) st at = cc

  start-LoopInv : LoopInv sys max_depth (start sys max_depth)
  unfolding start
  start-LoopInv = record {
    inv = start-Inv;
    valid = λ i st m.
        let e : (i, st) ≡ (0, sys.root) = Memᴰ.eq_of_singleton m in
        rw (ap (λ (t : ℕ × S). t.0) e, ap (λ (t : ℕ × S). t.1) e);
    explored = λ i st at. inl (waits i st at);
    dead = λ i m. absurd (cc);
  }
    where
      waits :
          (i : ℕ) (st : S)
          → get_elem? (sys.root ∷ []) i ≡ some st
          → Memᴰ {A = ℕ × S} (i, st) ((0, sys.root) ∷ [])
      waits zero st at = let e : sys.root ≡ st = ground arith in rw (← e) (Memᴰ.head refl)
      waits (suc i) st at = absurd (cc)

-- Whatever the adapter, the depth and the fuel, a search that returns has the root as state 0,
-- holds only states that the adapter reaches, no two of one hash, and only edges between states of
-- the result that the adapter's transitions make (up to the hash of the target); a state has an
-- edge for each of its successors unless it is reached in at least max_depth steps; what is listed
-- as a deadlock is one, and each predecessor is the source of an edge.
pub run-Explores :
    {S : Type 0} (sys : System S) (max_depth fuel : ℕ) (r : ExplorationResult S)
    → run sys max_depth fuel ≡ finished r
    → Explores sys max_depth r
unfolding run
run-Explores sys max_depth fuel r e =
    loop-Explores sys max_depth fuel (start sys max_depth) (start-LoopInv sys max_depth) e

-- States of one hash have successors of the same hashes.
abbrev pub Respects : {S : Type 0} → System S → Type 0
Respects {S} sys =
    (a b : S) (xs ys : List (String × S))
    → sys.hash a ≡ sys.hash b
    → sys.successors a ≡ some xs
    → sys.successors b ≡ some ys
    → (label : String) (nxt : S) → Memᴰ (label, nxt) xs
    → (label' : String) × (nxt' : S) × Memᴰ (label', nxt') ys × (sys.hash nxt' ≡ sys.hash nxt)

-- If states of one hash have successors of the same hashes, and no state is reached in max_depth or
-- more steps, then a search that returns holds, for every state that the adapter reaches, a state
-- of the same hash.
pub run_complete :
    {S : Type 0} (sys : System S) (max_depth fuel : ℕ) (r : ExplorationResult S)
    → run sys max_depth fuel ≡ finished r
    → Respects sys
    → ((d : ℕ) (st : S) → ReachesIn sys d st → d < max_depth)
    → (d : ℕ) (st : S) → ReachesIn sys d st
    → (i : ℕ) × (st' : S) × (get_elem? r.states i ≡ some st') × (sys.hash st' ≡ sys.hash st)
run_complete sys max_depth fuel r e respects shallow d st (ReachesIn.root) =
    (0, sys.root, (run-Explores sys max_depth fuel r e).root_first, refl)
run_complete {S} sys max_depth fuel r e respects shallow d st
      (ReachesIn.next {d = d'} {st = before} {succ = succ} label path steps among) =
    let explores = run-Explores sys max_depth fuel r e in
    let (i, seen, at, same) = run_complete sys max_depth fuel r e respects shallow d' before path in
    elim (explores.all_edges i seen at) [
      | inl (succ', steps', covers) ↦
          let (label', nxt', among', same') =
            respects before seen succ succ' (sym same) steps steps' label st among in
          let (j, st', at', same'', _) = covers label' nxt' among' in (j, st', at', same'' ∙ same')
      | inr (k, deep, long) ↦ absurd (omega (arith, shallow k seen long))
    ]
