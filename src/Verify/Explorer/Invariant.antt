-- ===== src/Verify/Explorer/Invariant.antt =====
-- What holds of the search at every moment: the numbers of the states, and where they come from.
use trace_mind.Prelude.{
  ℕ, zero, suc, ◌<◌, ◌≡◌, refl, true, ◌&&◌, ◌||◌, some, List, [], ◌⊎◌, inl, inr, ◌∙◌, ◌∷◌, ◌++◌,
  arith, ◌==◌, nat_HasEq, text_HasEq, Dict, String, keys, lookup, put, lookup-put, has_key,
  contains, contains-append, length, get_elem?, get_elem?-lt, Bool-cases, Option-cases, eq_iff_at,
  Distinct,
}
use mathlib.Core.List.{Memᴰ}
use trace_mind.Verify.Explorer.{System, Search, succs_of, add_edge, set_default, depth_of}

abbrev pub Edge : Dict ℕ (List ℕ) → ℕ → ℕ → Type 0
Edge edges i j = contains (succs_of edges i) j ≡ true

-- A new edge, and all the old ones.
pub contains-add_edge :
    (a b i j : ℕ) (edges : Dict ℕ (List ℕ))
    → contains (succs_of (add_edge a b edges) i) j
      ≡ ((a == i && b == j) || contains (succs_of edges i) j)
unfolding add_edge
contains-add_edge a b i j edges = elim (Bool-cases (a == i)) [
  | inl same ↦
      let e : a ≡ i = (eq_iff_at a i).0 same in
      ground (
        arith,
        lookup-put a i (succs_of edges a ++ b ∷ []) edges,
        contains-append (succs_of edges a) (b ∷ []) j,
      )
  | inr other ↦ ground (arith, lookup-put a i (succs_of edges a ++ b ∷ []) edges)
]

contains-keys-put :
    {V : Type 0} (k j : ℕ) (v : V) (d : Dict ℕ V)
    → contains (keys (put k v d)) j ≡ (k == j || contains (keys d) j)
unfolding put
contains-keys-put k j v [] = ground arith
contains-keys-put k j v ((i, w) ∷ d) =
    ground (arith, contains-keys-put k j v d, eq_iff_at i k, eq_iff_at i j, eq_iff_at k j)

Distinct-put :
    {V : Type 0} (k : ℕ) (v : V) (d : Dict ℕ V) → Distinct (keys d) → Distinct (keys (put k v d))
unfolding put
Distinct-put k v [] h = (refl, tt)
Distinct-put k v ((i, w) ∷ d) h = elim (Bool-cases (i == k)) [
  | inl same ↦ rw (same, put) h
  | inr other ↦
      rw (other, put)
        (
          ground (arith, contains-keys-put k i v d, eq_iff_at i k, eq_iff_at k i),
          Distinct-put k v d h.1,
        )
]

pub Distinct-add_edge :
    (a b : ℕ) (edges : Dict ℕ (List ℕ))
    → Distinct (keys edges)
    → Distinct (keys (add_edge a b edges))
unfolding add_edge
Distinct-add_edge a b edges = Distinct-put a (succs_of edges a ++ b ∷ []) edges

pub lookup-set_default :
    {V : Type 0} (k j : ℕ) (v : V) (d : Dict ℕ V) {u : V}
    → lookup j (set_default k v d) ≡ some u
    → (lookup j d ≡ some u) ⊎ ((k ≡ j) × (u ≡ v))
unfolding set_default has_key
lookup-set_default k j v d {u} h = elim (Option-cases (lookup k d)) [
  | inl new ↦ elim (Bool-cases (k == j)) [
    | inl same ↦ inr ((eq_iff_at k j).0 same, ground (arith, lookup-put k j v d))
    | inr other ↦ inl (ground (arith, lookup-put k j v d))
  ]
  | inr (w, old) ↦ inl (ground arith)
]

module _ {S : Type 0} (sys : System S) where
  -- A state reached from the root in a number of steps.
  pub data ReachesIn : ℕ → S → Type 0 where
    root : ReachesIn 0 sys.root
    next :
        {d : ℕ} {st nxt : S} {succ : List (String × S)} (label : String)
        → ReachesIn d st
        → sys.successors st ≡ some succ
        → Memᴰ (label, nxt) succ
        → ReachesIn (suc d) nxt

  -- The adapter takes st to a state with the hash of st'.
  pub record Transition (st st' : S) : Type 0 where
    pub label : String
    pub target : S
    pub succ : List (String × S)
    pub steps : sys.successors st ≡ some succ
    pub among : Memᴰ (label, target) succ
    pub same_hash : sys.hash target ≡ sys.hash st'

  pub record Inv (s : Search S) : Type 0 where
    pub root_at : get_elem? s.states 0 ≡ some sys.root
    pub seen_at :
        (h : String) (i : ℕ)
        → lookup h s.seen ≡ some i
        → (st : S) × (get_elem? s.states i ≡ some st) × (sys.hash st ≡ h)
    pub numbered :
        (i : ℕ) (st : S) → get_elem? s.states i ≡ some st → lookup (sys.hash st) s.seen ≡ some i
    pub depths_lt : (i d : ℕ) → lookup i s.depths ≡ some d → i < length s.states
    pub reached :
        (i : ℕ) (st : S) → get_elem? s.states i ≡ some st → ReachesIn (depth_of s.depths i) st
    pub distinct : Distinct (keys s.edges)
    pub edge_at :
        (i j : ℕ)
        → Edge s.edges i j
        → (st st' : S) × (get_elem? s.states i ≡ some st)
          × (get_elem? s.states j ≡ some st')
          × Transition st st'
    pub pred_at :
        (j i : ℕ) (label : String) → lookup j s.predecessors ≡ some (i, label) → Edge s.edges i j

  -- What one moment of the search leaves to the later ones.
  pub record Grows (s t : Search S) : Type 0 where
    pub states : (i : ℕ) (st : S) → get_elem? s.states i ≡ some st → get_elem? t.states i ≡ some st
    pub seen : (h : String) (i : ℕ) → lookup h s.seen ≡ some i → lookup h t.seen ≡ some i
    pub edges : (i j : ℕ) → Edge s.edges i j → Edge t.edges i j
    pub depths : (i : ℕ) → i < length s.states → depth_of t.depths i ≡ depth_of s.depths i

  pub Grows-refl : (s : Search S) → Grows s s
  Grows-refl s = record {
    states = λ i st h. h;
    seen = λ h i e. e;
    edges = λ i j e. e;
    depths = λ i h. refl;
  }

  length-le : {s t : Search S} → Grows s t → (i : ℕ) → i < length s.states → i < length t.states
  length-le {s} {t} g i h =
      let (st, e) = at s.states i h in get_elem?-lt t.states i (g.states i st e)
    where
      at : (xs : List S) (k : ℕ) → k < length xs → (st : S) × (get_elem? xs k ≡ some st)
      at [] k lt = absurd (omega arith)
      at (x ∷ xs) zero lt = (x, refl)
      at (x ∷ xs) (suc k) lt = at xs k (omega arith)

  pub Grows-trans : {s t u : Search S} → Grows s t → Grows t u → Grows s u
  Grows-trans {s} {t} {u} g k = record {
    states = λ i st h. k.states i st (g.states i st h);
    seen = λ h i e. k.seen h i (g.seen h i e);
    edges = λ i j e. k.edges i j (g.edges i j e);
    depths = λ i h. k.depths i (length-le g i h) ∙ g.depths i h;
  }
