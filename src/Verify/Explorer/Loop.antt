-- ===== src/Verify/Explorer/Loop.antt =====
-- The invariant of the `while` loop of tm/verify/explorer.py, and that a round keeps it.
use trace_mind.Prelude.{
  ℕ, ◌≤◌, ◌≡◌, refl, true, ◌&&◌, some, List, [], ◌⊎◌, inl, inr, sym, ◌∙◌, subst, ◌∷◌, ◌++◌, arith,
  if◌then◌else◌, nat_HasEq, text_HasEq, String, contains, contains-append, leb, get_elem?, is_empty,
  get_elem?-lt, Bool-cases, eq_iff_at,
}
use mathlib.Core.List.{Memᴰ}
use trace_mind.Verify.Explorer.{
  System, Search, depth_of, discover, connect, visit, visit_all, expand, bounded_successors,
}
use trace_mind.Verify.Explorer.Invariant.{Inv, Grows, Grows-refl}
use mathlib.Core.List.Memᴰ
use trace_mind.Verify.Explorer.Rounds.{Queues, Reached, Reached-Grows, visit_all-Swept}

module _ {S : Type 0} (sys : System S) (max_depth : ℕ) where
  -- All successors of a state are there with their edges, or the depth is used up.
  abbrev pub Explored : Search S → ℕ → S → Type 0
  Explored s i st =
      ((succ : List (String × S)) × (sys.successors st ≡ some succ)
        × ((label : String) (nxt : S) → Memᴰ (label, nxt) succ → Reached sys max_depth s i nxt))
      ⊎ (max_depth ≤ depth_of s.depths i)

  pub record LoopInv (s : Search S) : Type 0 where
    pub inv : Inv sys s
    pub valid : (i : ℕ) (st : S) → Memᴰ (i, st) s.queue → get_elem? s.states i ≡ some st
    pub explored :
        (i : ℕ) (st : S) → get_elem? s.states i ≡ some st → Memᴰ (i, st) s.queue ⊎ Explored s i st
    pub dead :
        (i : ℕ)
        → contains s.deadlocks i ≡ true
        → (st : S) × (get_elem? s.states i ≡ some st) × (sys.is_deadlocked st ≡ true)

  Explored-Grows :
      {s t : Search S} (i : ℕ) (st : S)
      → Grows sys s t
      → get_elem? s.states i ≡ some st
      → Explored s i st
      → Explored t i st
  Explored-Grows i st g at (inl (succ, e, all_there)) =
      inl (succ, e, λ l n m. Reached-Grows sys max_depth i n g (all_there l n m))
  Explored-Grows {s} {t} i st g at (inr deep) =
      inr (rw (g.depths i (get_elem?-lt s.states i at)) deep)

  Inv-record :
      {s : Search S} (q : List (ℕ × S)) (dl : List ℕ)
      → Inv sys s
      → Inv sys (record s { queue = q; deadlocks = dl })
  Inv-record q dl inv = record {
    root_at = inv.root_at;
    seen_at = inv.seen_at;
    numbered = inv.numbered;
    depths_lt = inv.depths_lt;
    reached = inv.reached;
    distinct = inv.distinct;
    edge_at = inv.edge_at;
    pred_at = inv.pred_at;
  }

  deadlocks-visit :
      (sid depth : ℕ) (x : String × S) (s : Search S)
      → (visit sys max_depth sid depth x s).deadlocks ≡ s.deadlocks
  unfolding visit discover connect
  deadlocks-visit sid depth (label, nxt) s = ground arith

  deadlocks-visit_all :
      (sid depth : ℕ) (xs : List (String × S)) (s : Search S)
      → (visit_all sys max_depth sid depth xs s).deadlocks ≡ s.deadlocks
  unfolding visit_all
  deadlocks-visit_all sid depth [] s = refl
  deadlocks-visit_all sid depth (x ∷ xs) s =
      deadlocks-visit_all sid depth xs (visit sys max_depth sid depth x s)
      ∙ deadlocks-visit sid depth x s

  module _ (s : Search S) (sid : ℕ) (st : S) (rest : List (ℕ × S)) (h : LoopInv s)
      (q : s.queue ≡ (sid, st) ∷ rest) where
    at_sid : get_elem? s.states sid ≡ some st
    at_sid = h.valid sid st (rw q (Memᴰ.head refl))

    abbrev marks : List (String × S) → List ℕ
    marks succ =
        if is_empty succ && sys.is_deadlocked st then s.deadlocks ++ sid ∷ [] else s.deadlocks

    abbrev popped : List (String × S) → Search S
    popped succ = record s { queue = rest; deadlocks = marks succ }

    dead_popped :
        (succ : List (String × S)) (i : ℕ)
        → contains (marks succ) i ≡ true
        → (u : S) × (get_elem? s.states i ≡ some u) × (sys.is_deadlocked u ≡ true)
    dead_popped succ i m = elim (Bool-cases (contains s.deadlocks i)) [
      | inl old ↦ h.dead i old
      | inr new ↦
          let e : sid ≡ i =
            ground (arith, contains-append s.deadlocks (sid ∷ []) i, eq_iff_at sid i) in
          (st, rw e at at_sid, ground arith)
    ]

    -- What is left to do after a round, once the popped state itself is explored.
    round_lem :
        (succ : List (String × S)) (t : Search S)
        → Inv sys t
        → Grows sys (popped succ) t
        → Queues (popped succ) t
        → t.deadlocks ≡ marks succ
        → Explored t sid st
        → LoopInv t
    round_lem succ t inv g queues dl done = record {
      inv = inv;
      valid = queues.valid (λ i u m. h.valid i u (rw q (Memᴰ.tail m)));
      explored = λ i u at. elim (queues.fresh i u at) [
        | inr waits ↦ inl waits
        | inl old ↦ elim (h.explored i u old) [
          | inr past ↦ inr (Explored-Grows {s = popped succ} i u g old past)
          | inl queued ↦ elim (Memᴰ.cases_cons (rw q at queued)) [
            | inr waits ↦ inl (queues.kept i u waits)
            | inl same ↦ inr (subst (λ (p : ℕ × S). Explored t (p.0) (p.1)) (sym same) done)
          ]
        ]
      ];
      dead = λ i m. let (u, at, d) = dead_popped succ i (rw dl at m) in (u, g.states i u at, d);
    }

    pub round_keeps :
        (succ : List (String × S))
        → bounded_successors sys max_depth (depth_of s.depths sid) st ≡ some succ
        → LoopInv (expand sys max_depth sid st succ (record s { queue = rest }))
    unfolding expand bounded_successors
    round_keeps succ e = elim (Bool-cases (leb max_depth (depth_of s.depths sid))) [
      | inl deep ↦
          let none_left : [] ≡ succ = ground arith in
          let queues : Queues (popped []) (popped []) = record {
            valid = λ v. v;
            kept = λ i u m. m;
            fresh = λ i u a. inl a;
          } in
          subst (λ xs. LoopInv (visit_all sys max_depth sid (depth_of s.depths sid) xs (popped xs)))
            none_left
            (unfold visit_all in
              round_lem [] (popped []) (Inv-record rest (marks []) h.inv)
                (Grows-refl sys (popped [])) queues refl (inr (ground arith)))
      | inr shallow ↦
          let steps : sys.successors st ≡ some succ = ground arith in
          let swept =
            visit_all-Swept sys max_depth sid st succ steps succ (popped succ)
              (depth_of s.depths sid) (Inv-record rest (marks succ) h.inv) at_sid refl
              (λ l n m. m) in
          round_lem succ (visit_all sys max_depth sid (depth_of s.depths sid) succ (popped succ))
            swept.inv swept.grows swept.queues
            (deadlocks-visit_all sid (depth_of s.depths sid) succ (popped succ))
            (inl (succ, steps, swept.covers))
    ]
