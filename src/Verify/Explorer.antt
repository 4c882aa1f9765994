-- ===== src/Verify/Explorer.antt =====
-- tm/verify/explorer.py: the breadth-first search for the states reachable within a depth. The
-- adapter is an interface, which the adapter of a plan fills (Verify/Checker).
pub mod Invariant
pub mod Steps
pub mod Rounds
pub mod Loop
pub mod Results
pub mod Ends
pub mod Paths
use trace_mind.Prelude.{
  ℕ, zero, suc, ◌+◌, ◌≤◌, ◌<◌, ◌≡◌, refl, Bool, true, false, not, ◌&&◌, ◌||◌, Option, none, some,
  List, [], ◌∷◌, ◌++◌, arith, if◌then◌else◌, ◌==◌, nat_HasEq, text_HasEq, Dict, String, keys,
  lookup, put, has_key, contains, length, leb, get_elem?, is_empty,
}

-- What the search asks of an adapter; `hash` is `stable_hash` at the mode of the run. `none` is an
-- exception of `successors`.
pub record System (S : Type 0) : Type 0 where
  pub root : S
  pub successors : S → Option (List (String × S))
  pub is_deadlocked : S → Bool
  pub hash : S → String

pub record ExplorationResult (S : Type 0) : Type 0 where
  pub states : List S
  pub edges : Dict ℕ (List ℕ)
  pub predecessors : Dict ℕ (ℕ × String)
  pub deadlocks : List ℕ

-- The local variables of `run`.
pub record Search (S : Type 0) : Type 0 where
  pub states : List S
  pub edges : Dict ℕ (List ℕ)
  pub predecessors : Dict ℕ (ℕ × String)
  pub deadlocks : List ℕ
  pub seen : Dict String ℕ
  pub depths : Dict ℕ ℕ
  pub queue : List (ℕ × S)

pub data Outcome (S : Type 0) : Type 0 where
  finished : ExplorationResult S → Outcome S
  raised out_of_fuel : Outcome S

-- edges[sid], empty for a missing key
abbrev pub succs_of : Dict ℕ (List ℕ) → ℕ → List ℕ
succs_of edges i = elim (lookup i edges) [ none ↦ [] | some l ↦ l ]

-- edges[sid].append(nid), on a defaultdict
unfoldable pub add_edge : ℕ → ℕ → Dict ℕ (List ℕ) → Dict ℕ (List ℕ)
add_edge i j edges = put i (succs_of edges i ++ j ∷ []) edges

-- dict.setdefault
unfoldable pub set_default {ℓ} : {V : Type ℓ} → ℕ → V → Dict ℕ V → Dict ℕ V
unfolding has_key
set_default k v d = if has_key k d then d else put k v d

-- depths.get(sid, 0)
abbrev pub depth_of : Dict ℕ ℕ → ℕ → ℕ
depth_of depths i = elim (lookup i depths) [ none ↦ 0 | some d ↦ d ]

module _ {S : Type 0} (sys : System S) (max_depth : ℕ) where
  -- A state not seen before gets the next number and is queued.
  unfoldable pub discover : ℕ → S → String → Search S → Search S
  discover depth nxt h s =
      let nid = length s.states in
      record s {
        states = s.states ++ nxt ∷ [];
        seen = put h nid s.seen;
        depths = put nid (depth + 1) s.depths;
        queue = s.queue ++ (nid, nxt) ∷ [];
      }

  -- edges[sid].append(nid) and predecessors.setdefault(nid, (sid, label))
  unfoldable pub connect : ℕ → ℕ → String → Search S → Search S
  unfolding add_edge set_default
  connect sid nid label s = record s {
    edges = add_edge sid nid s.edges;
    predecessors = set_default nid (sid, label) s.predecessors;
  }

  -- The body of the `for` loop over the successors.
  unfoldable pub visit : ℕ → ℕ → String × S → Search S → Search S
  unfolding discover connect
  visit sid depth (label, nxt) s = elim (lookup (sys.hash nxt) s.seen) [
    | some nid ↦ connect sid nid label s
    | none ↦ connect sid (length s.states) label (discover depth nxt (sys.hash nxt) s)
  ]

  unfoldable pub visit_all : ℕ → ℕ → List (String × S) → Search S → Search S
  unfolding visit
  visit_all sid depth [] s = s
  visit_all sid depth (x ∷ xs) s = visit_all sid depth xs (visit sid depth x s)

  -- successors(st) within the depth, else none
  unfoldable pub bounded_successors : ℕ → S → Option (List (String × S))
  bounded_successors depth st = if leb max_depth depth then some [] else sys.successors st

  -- One round of the `while` loop, after (sid, st) left the queue.
  unfoldable pub expand : ℕ → S → List (String × S) → Search S → Search S
  unfolding visit_all
  expand sid st succ s = visit_all sid (depth_of s.depths sid) succ (record s {
    deadlocks =
        if is_empty succ && sys.is_deadlocked st then s.deadlocks ++ sid ∷ [] else s.deadlocks;
  })

  unfoldable pub loop : ℕ → Search S → Outcome S
  unfolding expand bounded_successors
  loop zero s = out_of_fuel
  loop (suc fuel) s = elim s.queue [
    | [] ↦ finished (record {
      states = s.states;
      edges = s.edges;
      predecessors = s.predecessors;
      deadlocks = s.deadlocks;
    })
    | (sid, st) ∷ rest ↦ elim (bounded_successors (depth_of s.depths sid) st) [
      | none ↦ raised
      | some succ ↦ loop fuel (expand sid st succ (record s { queue = rest }))
    ]
  ]

  unfoldable pub start : Search S
  start = record {
    states = sys.root ∷ [];
    edges = [];
    predecessors = [];
    deadlocks = [];
    seen = put (sys.hash sys.root) 0 [];
    depths = put 0 0 [];
    queue = (0, sys.root) ∷ [];
  }

  unfoldable pub run : ℕ → Outcome S
  unfolding loop start
  run fuel = loop fuel start

-- The loop of `path_to`, backwards along `predecessors`, which stops at a state seen before; `path`
-- is in the order that the caller gets.
unfoldable pub back : ℕ → Dict ℕ (ℕ × String) → List ℕ → ℕ → List ℕ
back zero preds path cur = path
back (suc fuel) preds path cur = elim (lookup cur preds) [
  | none ↦ path
  | some (prev, label) ↦ if contains path prev then path else back fuel preds (prev ∷ path) prev
]

unfoldable pub path_to : {S : Type 0} → ExplorationResult S → ℕ → List ℕ
unfolding back
path_to r target =
    if leb (length r.states) target
    then []
    else back (suc (length r.predecessors)) r.predecessors (target ∷ []) target
