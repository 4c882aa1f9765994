-- ===== src/Verify/Explorer/Ends.antt =====
-- The search of tm/verify/explorer.py ends: the tree of runs of at most max_depth steps bounds the
-- rounds of its loop.
use trace_mind.Prelude.{
  ℕ, zero, suc, ◌+◌, ◌-◌, ◌≤◌, ◌<◌, ◌≡◌, refl, ◌&&◌, none, some, List, [], ◌≢◌, inl, inr, ap, ◌∷◌,
  ◌++◌, arith, if◌then◌else◌, nat_HasEq, text_HasEq, Dict, String, lookup, put, lookup-put, length,
  length-append, leb, is_empty, Bool-cases, Option-cases, eq_iff_at,
}
use trace_mind.Verify.Explorer.{
  System, Search, depth_of, discover, connect, visit, visit_all, expand, loop, start, run,
  bounded_successors, out_of_fuel,
}
use trace_mind.Verify.Explorer.Results.{List-cases}

module _ {S : Type 0} (sys : System S) (max_depth : ℕ) where
  -- The rounds for a state with k steps to go, and for its successors.
  abbrev sum_with : (S → ℕ) → List (String × S) → ℕ
  sum_with f [] = 0
  sum_with f ((label, nxt) ∷ xs) = f nxt + sum_with f xs

  unfoldable pub rounds : ℕ → S → ℕ
  rounds zero st = 1
  rounds (suc k) st = elim (sys.successors st) [
    | none ↦ 1
    | some succ ↦ suc (sum_with (rounds k) succ)
  ]

  -- The rounds for what waits in the queue.
  weight : Dict ℕ ℕ → List (ℕ × S) → ℕ
  weight depths [] = 0
  weight depths ((i, st) ∷ q) = rounds (max_depth - depth_of depths i) st + weight depths q

  weight-append :
      (depths : Dict ℕ ℕ) (q : List (ℕ × S)) (i : ℕ) (st : S)
      → weight depths (q ++ (i, st) ∷ [])
        ≡ weight depths q + rounds (max_depth - depth_of depths i) st
  unfolding weight
  weight-append depths [] i st = omega arith
  weight-append depths ((j, u) ∷ q) i st = omega (arith, weight-append depths q i st)

  -- All numbers in the queue are below n.
  abbrev Below : ℕ → List (ℕ × S) → Type 0
  Below n [] = Unit
  Below n ((i, st) ∷ q) = (i < n) × Below n q

  Below-append : (n : ℕ) (q : List (ℕ × S)) (st : S) → Below n q → Below (n + 1) (q ++ (n, st) ∷ [])
  Below-append n [] st h = (omega arith, tt)
  Below-append n ((i, u) ∷ q) st h = (omega (arith, h.0), Below-append n q st h.1)

  weight-ext :
      (n d : ℕ) (depths : Dict ℕ ℕ) (q : List (ℕ × S))
      → Below n q
      → weight (put n d depths) q ≡ weight depths q
  unfolding weight
  weight-ext n d depths [] h = refl
  weight-ext n d depths ((i, st) ∷ q) h =
      let same : depth_of (put n d depths) i ≡ depth_of depths i =
        ground (arith, lookup-put n i d depths, eq_iff_at n i, h.0) in
      rw same (
        ap (λ (w : ℕ). rounds (max_depth - depth_of depths i) st + w) (weight-ext n d depths q h.1))

  abbrev load : Search S → ℕ
  load s = weight s.depths s.queue

  visit-load :
      (sid depth : ℕ) (label : String) (nxt : S) (s : Search S)
      → Below (length s.states) s.queue
      → Below
          (length (visit sys max_depth sid depth (label, nxt) s).states)
          (visit sys max_depth sid depth (label, nxt) s).queue
        × (load (visit sys max_depth sid depth (label, nxt) s)
            ≤ load s + rounds (max_depth - (depth + 1)) nxt)
  unfolding visit discover connect
  visit-load sid depth label nxt s b = elim (Option-cases (lookup (sys.hash nxt) s.seen)) [
    | inl new ↦
        let n = length s.states in
        let d : depth_of (put n (depth + 1) s.depths) n ≡ depth + 1 =
          ground (arith, lookup-put n n (depth + 1) s.depths, eq_iff_at n n) in
        rw (new, visit)
          (
            rw length-append (Below-append n s.queue nxt b),
            rw (weight-append, d, weight-ext n (depth + 1) s.depths s.queue b) (omega arith),
          )
    | inr (nid, old) ↦ rw (old, visit) (b, omega arith)
  ]

  visit_all-load :
      (sid depth : ℕ) (xs : List (String × S)) (s : Search S)
      → Below (length s.states) s.queue
      → Below
          (length (visit_all sys max_depth sid depth xs s).states)
          (visit_all sys max_depth sid depth xs s).queue
        × (load (visit_all sys max_depth sid depth xs s)
            ≤ load s + sum_with (rounds (max_depth - (depth + 1))) xs)
  unfolding visit_all
  visit_all-load sid depth [] s b = (b, omega arith)
  visit_all-load sid depth ((label, nxt) ∷ xs) s b =
      let (b', le) = visit-load sid depth label nxt s b in
      let (b'', le') =
        visit_all-load sid depth xs (visit sys max_depth sid depth (label, nxt) s) b' in
      (b'', omega arith)

  rounds_of :
      (d : ℕ) (st : S) (succ : List (String × S))
      → bounded_successors sys max_depth d st ≡ some succ
      → sum_with (rounds (max_depth - (d + 1))) succ < rounds (max_depth - d) st
  unfolding bounded_successors rounds
  rounds_of d st succ e = elim (Bool-cases (leb max_depth d)) [
    | inl deep ↦
        let none_left : [] ≡ succ = ground arith in
        let z : max_depth - d ≡ 0 = ground arith in rw (← none_left, z) (omega arith)
    | inr shallow ↦
        let steps : sys.successors st ≡ some succ = ground arith in
        let more : max_depth - d ≡ suc (max_depth - (d + 1)) = ground arith in
        rw (more, rounds, steps) (omega arith)
  ]

  loop_ends :
      (fuel : ℕ) (s : Search S)
      → Below (length s.states) s.queue
      → load s < fuel
      → loop sys max_depth fuel s ≢ out_of_fuel
  unfolding loop expand weight
  loop_ends zero s b h = absurd (omega arith)
  loop_ends (suc fuel) s b h = elim (List-cases s.queue) [
    | inl empty ↦ rw (empty, loop) (λ e. cc)
    | inr ((sid, st), rest, q) ↦
        elim (Option-cases (bounded_successors sys max_depth (depth_of s.depths sid) st)) [
          | inl bad ↦ rw (q, loop, bad) (λ e. cc)
          | inr (succ, good) ↦
              let less = rounds_of (depth_of s.depths sid) st succ good in
              let both =
                visit_all-load sid (depth_of s.depths sid) succ
                  (record s {
                    queue = rest;
                    deadlocks =
                        if is_empty succ && sys.is_deadlocked st
                        then s.deadlocks ++ sid ∷ []
                        else s.deadlocks;
                  })
                  (rw q at b).1 in
              let start_load = rw q at h in
              rw (q, loop, good)
                (loop_ends fuel (expand sys max_depth sid st succ (record s { queue = rest }))
                  both.0 (omega (arith, both.1)))
        ]
  ]

-- With more fuel than the number of runs of at most max_depth steps from the root (their tree has
-- `rounds max_depth root` nodes), the search returns or an exception of the adapter leaves it.
pub run_ends :
    {S : Type 0} (sys : System S) (max_depth fuel : ℕ)
    → rounds sys max_depth max_depth sys.root < fuel
    → run sys max_depth fuel ≢ out_of_fuel
unfolding run start weight lookup put
run_ends sys max_depth fuel h =
    loop_ends sys max_depth fuel (start sys max_depth) (omega arith, tt)
      (let whole : max_depth - 0 ≡ max_depth = omega arith in rw whole (omega arith))
