-- ===== src/Verify/Explorer/Steps.antt =====
-- Each step of the search keeps the invariant, and what was there before.
use trace_mind.Prelude.{
  ℕ, suc, ◌+◌, ◌<◌, ◌≡◌, refl, ◌&&◌, ◌||◌, none, some, [], inl, inr, sym, ap, subst, ◌∷◌, arith,
  ◌==◌, nat_HasEq, text_HasEq, String, lookup, lookup-put, contains, length, length-append,
  get_elem?, get_elem?-append_left, get_elem?-append_last, get_elem?-lt, get_elem?-concat,
  Bool-cases, eq_iff_at,
}
use trace_mind.Verify.Explorer.{System, Search, succs_of, depth_of, discover, connect}
use trace_mind.Verify.Explorer.Invariant.{
  Edge, contains-add_edge, Distinct-add_edge, lookup-set_default, ReachesIn, Transition, Inv, Grows,
}

module _ {S : Type 0} (sys : System S) (max_depth : ℕ) where
  module _ (depth : ℕ) (nxt : S) (s : Search S) (inv : Inv sys s)
      (new : lookup (sys.hash nxt) s.seen ≡ none) (path : ReachesIn sys (suc depth) nxt) where
    abbrev found : Search S
    unfolding discover
    found = discover sys max_depth depth nxt (sys.hash nxt) s

    discover-depth : (i : ℕ) → i < length s.states → depth_of found.depths i ≡ depth_of s.depths i
    unfolding discover
    discover-depth i h =
        ground (
          arith,
          lookup-put (length s.states) i (depth + 1) s.depths,
          eq_iff_at (length s.states) i,
        )

    discover-seen : (h : String) (i : ℕ) → lookup h s.seen ≡ some i → lookup h found.seen ≡ some i
    unfolding discover
    discover-seen h i e = elim (Bool-cases (sys.hash nxt == h)) [
      | inl same ↦
          let at = (eq_iff_at (sys.hash nxt) h).0 same in
          absurd (cc (subst (λ k. lookup k s.seen ≡ none) at new))
      | inr other ↦ ground (arith, lookup-put (sys.hash nxt) h (length s.states) s.seen)
    ]

    discover-numbered :
        (i : ℕ) (st : S)
        → get_elem? found.states i ≡ some st
        → lookup (sys.hash st) found.seen ≡ some i
    unfolding discover
    discover-numbered i st at = elim (get_elem?-concat s.states nxt i at) [
      | inl old ↦ discover-seen (sys.hash st) i (inv.numbered i st old)
      | inr (last, same) ↦
          let h = lookup-put (sys.hash nxt) (sys.hash st) (length s.states) s.seen in
          ground (arith, h, ap sys.hash same, eq_iff_at (sys.hash nxt) (sys.hash st))
    ]

    discover-seen_at :
        (h : String) (i : ℕ)
        → lookup h found.seen ≡ some i
        → (st : S) × (get_elem? found.states i ≡ some st) × (sys.hash st ≡ h)
    unfolding discover
    discover-seen_at h i e = elim (Bool-cases (sys.hash nxt == h)) [
      | inl same ↦
          let nid : i ≡ length s.states =
            ground (arith, lookup-put (sys.hash nxt) h (length s.states) s.seen) in
          (nxt, rw nid (get_elem?-append_last s.states nxt), (eq_iff_at (sys.hash nxt) h).0 same)
      | inr other ↦
          let (st, at, same) =
            inv.seen_at h i
              (ground (arith, lookup-put (sys.hash nxt) h (length s.states) s.seen)) in
          (st, get_elem?-append_left s.states (nxt ∷ []) i at, same)
    ]

    discover-reached :
        (i : ℕ) (st : S)
        → get_elem? found.states i ≡ some st
        → ReachesIn sys (depth_of found.depths i) st
    unfolding discover
    discover-reached i st at = elim (get_elem?-concat s.states nxt i at) [
      | inl old ↦
          subst (λ d. ReachesIn sys d st) (sym (discover-depth i (get_elem?-lt s.states i old)))
            (inv.reached i st old)
      | inr (last, same) ↦
          let d : suc depth ≡ depth_of found.depths i = ground (
            arith,
            lookup-put (length s.states) i (depth + 1) s.depths,
            eq_iff_at (length s.states) i,
          ) in
          subst (λ k. ReachesIn sys k st) d (subst (ReachesIn sys (suc depth)) (sym same) path)
    ]

    pub discover-Inv : Inv sys (discover sys max_depth depth nxt (sys.hash nxt) s)
    unfolding discover
    discover-Inv = record {
      root_at = get_elem?-append_left s.states (nxt ∷ []) 0 inv.root_at;
      seen_at = discover-seen_at;
      numbered = discover-numbered;
      depths_lt = λ i d e. ground (
        arith,
        lookup-put (length s.states) i (depth + 1) s.depths,
        inv.depths_lt i d,
        length-append s.states (nxt ∷ []),
        eq_iff_at (length s.states) i,
      );
      reached = discover-reached;
      distinct = inv.distinct;
      edge_at = λ i j e.
          let (st, st', at, at', step) = inv.edge_at i j e in
          (
            st,
            st',
            get_elem?-append_left s.states (nxt ∷ []) i at,
            get_elem?-append_left s.states (nxt ∷ []) j at',
            step,
          );
      pred_at = inv.pred_at;
    }

    pub discover-Grows : Grows sys s (discover sys max_depth depth nxt (sys.hash nxt) s)
    unfolding discover
    discover-Grows = record {
      states = λ i st h. get_elem?-append_left s.states (nxt ∷ []) i h;
      seen = discover-seen;
      edges = λ i j e. e;
      depths = discover-depth;
    }

  module _ (sid nid : ℕ) (label : String) (s : Search S) (inv : Inv sys s) where
    edge-connect :
        (i j : ℕ)
        → contains (succs_of (connect sys max_depth sid nid label s).edges i) j
          ≡ ((sid == i && nid == j) || contains (succs_of s.edges i) j)
    unfolding connect
    edge-connect i j = contains-add_edge sid nid i j s.edges

    pub connect-Grows : Grows sys s (connect sys max_depth sid nid label s)
    unfolding connect
    connect-Grows = record {
      states = λ i st h. h;
      seen = λ h i e. e;
      edges = λ i j e. ground (arith, edge-connect i j);
      depths = λ i h. refl;
    }

    pub connect-Edge : Edge (connect sys max_depth sid nid label s).edges sid nid
    connect-Edge = ground (arith, edge-connect sid nid, eq_iff_at sid sid, eq_iff_at nid nid)

    pub connect-Inv :
        (st st' : S)
        → get_elem? s.states sid ≡ some st
        → get_elem? s.states nid ≡ some st'
        → Transition sys st st'
        → Inv sys (connect sys max_depth sid nid label s)
    unfolding connect
    connect-Inv st st' at at' step = record {
      root_at = inv.root_at;
      seen_at = inv.seen_at;
      numbered = inv.numbered;
      depths_lt = inv.depths_lt;
      reached = inv.reached;
      distinct = Distinct-add_edge sid nid s.edges inv.distinct;
      edge_at = λ i j e. elim (Bool-cases (sid == i && nid == j)) [
        | inl new ↦
            let p : sid ≡ i = ground arith in
            let q : nid ≡ j = ground arith in (st, st', rw p at at, rw q at at', step)
        | inr old ↦ inv.edge_at i j (ground (arith, edge-connect i j))
      ];
      pred_at = λ j i l e. elim (lookup-set_default nid j (sid, label) s.predecessors e) [
        | inl old ↦ ground (arith, edge-connect i j, inv.pred_at j i l old)
        | inr (p, q) ↦
            let p' : sid ≡ i = cc (ap (λ (t : ℕ × String). t.0) q) in
            ground (arith, edge-connect i j, eq_iff_at sid i, eq_iff_at nid j)
      ];
    }
