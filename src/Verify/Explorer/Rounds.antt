-- ===== src/Verify/Explorer/Rounds.antt =====
-- One round of the search: all successors of a state are found and connected, and new states wait
-- in the queue.
use trace_mind.Prelude.{
  ℕ, suc, ◌≡◌, refl, none, some, List, [], ◌⊎◌, inl, inr, sym, ap, ◌∙◌, subst, ◌∷◌, nat_HasEq,
  text_HasEq, String, lookup, length, get_elem?, get_elem?-append_left, get_elem?-append_last,
  get_elem?-lt, get_elem?-concat, Option-cases,
}
use mathlib.Core.List.{Memᴰ}
use trace_mind.Verify.Explorer.{System, Search, depth_of, discover, connect, visit, visit_all}
use trace_mind.Verify.Explorer.Invariant.{
  Edge, ReachesIn, Transition, Inv, Grows, Grows-refl, Grows-trans,
}
use mathlib.Core.List.Memᴰ
use trace_mind.Verify.Explorer.Steps.{
  discover-Inv, discover-Grows, connect-Inv, connect-Grows, connect-Edge,
}

module _ {S : Type 0} where
  -- The queue holds states under their numbers, all the states that are new, and what it held.
  pub record Queues (s t : Search S) : Type 0 where
    pub valid :
        ((i : ℕ) (st : S) → Memᴰ (i, st) s.queue → get_elem? s.states i ≡ some st)
        → (i : ℕ) (st : S) → Memᴰ (i, st) t.queue
        → get_elem? t.states i ≡ some st
    pub kept : (i : ℕ) (st : S) → Memᴰ (i, st) s.queue → Memᴰ (i, st) t.queue
    pub fresh :
        (i : ℕ) (st : S)
        → get_elem? t.states i ≡ some st
        → (get_elem? s.states i ≡ some st) ⊎ Memᴰ (i, st) t.queue

  pub Queues-trans : {s t u : Search S} → Queues s t → Queues t u → Queues s u
  Queues-trans q r = record {
    valid = λ v. r.valid (q.valid v);
    kept = λ i st m. r.kept i st (q.kept i st m);
    fresh = λ i st at. elim (r.fresh i st at) [
      | inl old ↦ elim (q.fresh i st old) [
        | inl older ↦ inl older
        | inr waits ↦ inr (r.kept i st waits)
      ]
      | inr waits ↦ inr waits
    ];
  }

module _ {S : Type 0} (sys : System S) (max_depth : ℕ) where
  -- A state of the search with the hash of nxt, to which an edge leads.
  abbrev pub Reached : Search S → ℕ → S → Type 0
  Reached s sid nxt =
      (j : ℕ) × (st : S) × (get_elem? s.states j ≡ some st)
      × (sys.hash st ≡ sys.hash nxt)
      × Edge s.edges sid j

  pub Reached-Grows :
      {s t : Search S} (sid : ℕ) (nxt : S) → Grows sys s t → Reached s sid nxt → Reached t sid nxt
  Reached-Grows sid nxt g (j, st, at, same, e) = (j, st, g.states j st at, same, g.edges sid j e)

  discover-Queues :
      (depth : ℕ) (nxt : S) (h : String) (s : Search S)
      → Queues s (discover sys max_depth depth nxt h s)
  unfolding discover
  discover-Queues depth nxt h s = record {
    valid = λ v i st m. elim (Memᴰ.append_cases s.queue m) [
      | inl old ↦ get_elem?-append_left s.states (nxt ∷ []) i (v i st old)
      | inr last ↦
          let e : (i, st) ≡ (length s.states, nxt) = Memᴰ.eq_of_singleton last in
          let e' : i ≡ length s.states = ap (λ (t : ℕ × S). t.0) e in
          rw (e', ap (λ (t : ℕ × S). t.1) e) (get_elem?-append_last s.states nxt)
    ];
    kept = λ i st m. Memᴰ.append_left ((length s.states, nxt) ∷ []) m;
    fresh = λ i st at. elim (get_elem?-concat s.states nxt i at) [
      | inl old ↦ inl old
      | inr (last, same) ↦ inr (Memᴰ.append_right s.queue (Memᴰ.head (λ k. (last k, same k))))
    ];
  }

  connect-Queues :
      (sid nid : ℕ) (label : String) (s : Search S)
      → Queues s (connect sys max_depth sid nid label s)
  unfolding connect
  connect-Queues sid nid label s = record {
    valid = λ v. v;
    kept = λ i st m. m;
    fresh = λ i st at. inl at;
  }

  -- What a visit leaves: the invariant, all that was there, and an edge to the state visited.
  pub record Visited (s t : Search S) (sid : ℕ) (nxt : S) : Type 0 where
    pub inv : Inv sys t
    pub grows : Grows sys s t
    pub queues : Queues s t
    pub reached : Reached t sid nxt

  module _ (sid : ℕ) (st : S) (full : List (String × S))
      (steps : sys.successors st ≡ some full) where
    abbrev step_to :
        (label : String) (nxt st' : S)
        → Memᴰ (label, nxt) full
        → sys.hash nxt ≡ sys.hash st'
        → Transition sys st st'
    step_to label nxt st' among same = record {
      label = label;
      target = nxt;
      succ = full;
      steps = steps;
      among = among;
      same_hash = same;
    }

    connect-Visited :
        (label : String) (nxt st' : S) (s : Search S) (nid : ℕ)
        → Inv sys s
        → get_elem? s.states sid ≡ some st
        → get_elem? s.states nid ≡ some st'
        → sys.hash st' ≡ sys.hash nxt
        → Memᴰ (label, nxt) full
        → Visited s (connect sys max_depth sid nid label s) sid nxt
    unfolding connect
    connect-Visited label nxt st' s nid inv at at' same among = record {
      inv =
          connect-Inv sys max_depth sid nid label s inv st st' at at'
            (step_to label nxt st' among (sym same));
      grows = connect-Grows sys max_depth sid nid label s inv;
      queues = connect-Queues sid nid label s;
      reached = (nid, st', at', same, connect-Edge sys max_depth sid nid label s inv);
    }

    discover-Visited :
        (label : String) (nxt : S) (s : Search S) (depth : ℕ)
        → Inv sys s
        → get_elem? s.states sid ≡ some st
        → depth ≡ depth_of s.depths sid
        → Memᴰ (label, nxt) full
        → lookup (sys.hash nxt) s.seen ≡ none
        → Visited s
            (connect sys max_depth sid
              (length s.states)
              label
              (discover sys max_depth depth nxt (sys.hash nxt) s))
            sid
            nxt
    discover-Visited label nxt s depth inv at d among new =
        let here = subst (λ k. ReachesIn sys k st) (sym d) (inv.reached sid st at) in
        let path : ReachesIn sys (suc depth) nxt = ReachesIn.next label here steps among in
        let s' = discover sys max_depth depth nxt (sys.hash nxt) s in
        let grows = discover-Grows sys max_depth depth nxt s inv new path in
        let done =
          connect-Visited label nxt nxt s' (length s.states)
            (discover-Inv sys max_depth depth nxt s inv new path) (grows.states sid st at)
            (unfold discover in get_elem?-append_last s.states nxt) refl among in
        record {
          inv = done.inv;
          grows = Grows-trans sys grows done.grows;
          queues = Queues-trans (discover-Queues depth nxt (sys.hash nxt) s) done.queues;
          reached = done.reached;
        }

    visit-Visited :
        (label : String) (nxt : S) (s : Search S) (depth : ℕ)
        → Inv sys s
        → get_elem? s.states sid ≡ some st
        → depth ≡ depth_of s.depths sid
        → Memᴰ (label, nxt) full
        → Visited s (visit sys max_depth sid depth (label, nxt) s) sid nxt
    unfolding visit
    visit-Visited label nxt s depth inv at d among =
        elim (Option-cases (lookup (sys.hash nxt) s.seen)) [
          | inl new ↦ rw (new, visit) (discover-Visited label nxt s depth inv at d among new)
          | inr (nid, old) ↦
              let (st', at', same) = inv.seen_at (sys.hash nxt) nid old in
              rw (old, visit) (connect-Visited label nxt st' s nid inv at at' same among)
        ]

    -- After the `for` loop every successor in the list has an edge from sid.
    pub record Swept (s t : Search S) (xs : List (String × S)) : Type 0 where
      pub inv : Inv sys t
      pub grows : Grows sys s t
      pub queues : Queues s t
      pub covers : (label : String) (nxt : S) → Memᴰ (label, nxt) xs → Reached t sid nxt

    pub visit_all-Swept :
        (xs : List (String × S)) (s : Search S) (depth : ℕ)
        → Inv sys s
        → get_elem? s.states sid ≡ some st
        → depth ≡ depth_of s.depths sid
        → ((label : String) (nxt : S) → Memᴰ (label, nxt) xs → Memᴰ (label, nxt) full)
        → Swept s (visit_all sys max_depth sid depth xs s) xs
    unfolding visit_all
    visit_all-Swept [] s depth inv at d sub = record {
      inv = inv;
      grows = Grows-refl sys s;
      queues = record { valid = λ v. v; kept = λ i u m. m; fresh = λ i u h. inl h };
      covers = λ label nxt m. absurd (Memᴰ.not-nil m);
    }
    visit_all-Swept ((label, nxt) ∷ xs) s depth inv at d sub =
        let one = visit-Visited label nxt s depth inv at d (sub label nxt (Memᴰ.head refl)) in
        let s' = visit sys max_depth sid depth (label, nxt) s in
        let rest =
          visit_all-Swept xs s' depth one.inv (one.grows.states sid st at)
            (d ∙ sym (one.grows.depths sid (get_elem?-lt s.states sid at)))
            (λ l n m. sub l n (Memᴰ.tail m)) in
        record {
          inv = rest.inv;
          grows = Grows-trans sys one.grows rest.grows;
          queues = Queues-trans one.queues rest.queues;
          covers = λ l n m. elim (Memᴰ.cases_cons m) [
            | inl same ↦
                subst (Reached (visit_all sys max_depth sid depth xs s') sid)
                  (sym (ap (λ (t : String × S). t.1) same))
                  (Reached-Grows sid nxt rest.grows one.reached)
            | inr later ↦ rest.covers l n later
          ];
        }
