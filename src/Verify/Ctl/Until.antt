-- ===== src/Verify/Ctl/Until.antt =====
-- The least fixpoints of `_sat` are the until operators over paths.
use trace_mind.Prelude.{
  ℕ, ◌≡◌, refl, Bool, true, false, ◌&&◌, inl, inr, ◌↔◌, some, List, [], ◌∷◌, Dict, keys, lookup,
  lookup-keys, contains, Distinct, is_empty, all, nat_HasEq, ◌==◌, eq_iff_at, Bool-cases, arith,
  subst,
}
use trace_mind.Verify.Explorer.{succs_of}
use trace_mind.Verify.Ctl.Fixpoint.{
  Admit, least, Closed, Sound, least_sound, contains-least, least-Closed,
}
use trace_mind.Verify.Ctl.Sat.{some_in, all_in}
use trace_mind.Verify.Ctl.Meaning.{Edge, ExistsUntil, AlwaysUntil}

abbrev pub In : List ℕ → ℕ → Type 0
In xs i = contains xs i ≡ true

-- A guard on the state and a test on its successors, as in all four loops.
abbrev pub admit_some : (ℕ → Bool) → Admit
admit_some guard sat sid succs = guard sid && some_in sat succs

abbrev pub admit_all : (ℕ → Bool) → Admit
admit_all guard sat sid succs = guard sid && all_in sat succs

-- With distinct keys, a rule for each looked up entry is a rule for each entry.
Sound-of_lookup {ℓ} :
    (admit : Admit) (P : ℕ → Type ℓ) (es : Dict ℕ (List ℕ))
    → Distinct (keys es)
    → ((i : ℕ) (l : List ℕ)
        → lookup i es ≡ some l
        → (sat : List ℕ) → ((j : ℕ) → In sat j → P j)
        → admit sat i l ≡ true
        → P i)
    → Sound admit P es
unfolding lookup
Sound-of_lookup admit P [] d rule = tt
Sound-of_lookup admit P ((sid, succs) ∷ es) d rule = (
  rule sid succs (ground (arith, eq_iff_at sid sid)),
  Sound-of_lookup admit P es d.1
      (λ i l h. rule i l (ground (arith, lookup-keys es i l h, eq_iff_at sid i))),
)

Closed-lookup :
    (admit : Admit) (sat : List ℕ) (es : Dict ℕ (List ℕ)) (i : ℕ) (l : List ℕ)
    → Closed admit sat es
    → lookup i es ≡ some l
    → admit sat i l ≡ true
    → In sat i
unfolding lookup
Closed-lookup admit sat [] i l c h a = cc
Closed-lookup admit sat ((sid, succs) ∷ es) i l c h a = elim (Bool-cases (sid == i)) [
  | inl same ↦ let e : sid ≡ i = (eq_iff_at sid i).0 same in ground (arith, c.0)
  | inr other ↦ Closed-lookup admit sat es i l c.1 (ground arith) a
]

pub some_in-elim : (sat succs : List ℕ) → some_in sat succs ≡ true → (j : ℕ) × In succs j × In sat j
some_in-elim sat [] h = absurd (cc)
some_in-elim sat (x ∷ succs) h = elim (Bool-cases (contains sat x)) [
  | inl first ↦ (x, ground (arith, eq_iff_at x x), first)
  | inr not_first ↦ let (j, m, i) = some_in-elim sat succs (ground arith) in (j, ground arith, i)
]

pub some_in-intro : (sat succs : List ℕ) (j : ℕ) → In succs j → In sat j → some_in sat succs ≡ true
some_in-intro sat [] j m i = cc
some_in-intro sat (x ∷ succs) j m i = ground (arith, eq_iff_at x j, some_in-intro sat succs j)

all-elim : (sat succs : List ℕ) (j : ℕ) → all (contains sat) succs ≡ true → In succs j → In sat j
all-elim sat [] j h m = cc
all-elim sat (x ∷ succs) j h m = ground (arith, eq_iff_at x j, all-elim sat succs j)

all-intro :
    (sat succs : List ℕ) → ((j : ℕ) → In succs j → In sat j) → all (contains sat) succs ≡ true
all-intro sat [] h = refl
all-intro sat (x ∷ succs) h =
    ground
      (arith, h x (ground (arith, eq_iff_at x x)), all-intro sat succs (λ j m. h j (ground arith)))

-- An entry that is there, from one of its successors.
pub lookup_of_Edge :
    (edges : Dict ℕ (List ℕ)) (i j : ℕ) → Edge edges i j → lookup i edges ≡ some (succs_of edges i)
lookup_of_Edge edges i j h = ground arith

lookup_of_successors :
    (edges : Dict ℕ (List ℕ)) (i : ℕ)
    → is_empty (succs_of edges i) ≡ false
    → lookup i edges ≡ some (succs_of edges i)
lookup_of_successors edges i h = ground arith

pub succs_of-eq :
    (edges : Dict ℕ (List ℕ)) (i : ℕ) (l : List ℕ) → lookup i edges ≡ some l → l ≡ succs_of edges i
succs_of-eq edges i l h = ground arith

module _ (edges : Dict ℕ (List ℕ)) (guard : ℕ → Bool) (right : List ℕ) where
  abbrev Guarded : ℕ → Type 0
  Guarded i = guard i ≡ true

  some_complete :
      {i : ℕ} → ExistsUntil edges Guarded (In right) i → In (least (admit_some guard) edges right) i
  some_complete (ExistsUntil.now {i} h) = contains-least (admit_some guard) edges right i h
  some_complete (ExistsUntil.later {i} {j} g e rest) =
      let sat = least (admit_some guard) edges right in
      let found = some_in-intro sat (succs_of edges i) j e (some_complete rest) in
      Closed-lookup (admit_some guard) sat edges i (succs_of edges i)
        (least-Closed (admit_some guard) edges right) (lookup_of_Edge edges i j e) (rw g found)

  all_complete :
      {i : ℕ} → AlwaysUntil edges Guarded (In right) i → In (least (admit_all guard) edges right) i
  all_complete (AlwaysUntil.now {i} h) = contains-least (admit_all guard) edges right i h
  all_complete (AlwaysUntil.later {i} g e rest) =
      let sat = least (admit_all guard) edges right in
      let found = all-intro sat (succs_of edges i) (λ j m. all_complete (rest j m)) in
      Closed-lookup (admit_all guard) sat edges i (succs_of edges i)
        (least-Closed (admit_all guard) edges right) (lookup_of_successors edges i e)
        (rw (g, e) found)

  module _ (d : Distinct (keys edges)) where
    some_rule :
        (i : ℕ) (l : List ℕ)
        → lookup i edges ≡ some l
        → (sat : List ℕ) → ((j : ℕ) → In sat j → ExistsUntil edges Guarded (In right) j)
        → admit_some guard sat i l ≡ true
        → ExistsUntil edges Guarded (In right) i
    some_rule i l e sat h a =
        let (j, m, s) = some_in-elim sat l (ground arith) in
        ExistsUntil.later (ground arith) (subst (λ xs. In xs j) (succs_of-eq edges i l e) m) (h j s)

    -- A state is in the least fixpoint with `any` exactly if some path from it is guarded until it
    -- meets the set.
    pub least_some :
        (i : ℕ)
        → In (least (admit_some guard) edges right) i ↔ ExistsUntil edges Guarded (In right) i
    least_some i = (
      least_sound (admit_some guard) (ExistsUntil edges Guarded (In right)) edges right
          (Sound-of_lookup (admit_some guard) (ExistsUntil edges Guarded (In right)) edges d
            some_rule)
          (λ j h. ExistsUntil.now h) i,
      some_complete,
    )

    all_rule :
        (i : ℕ) (l : List ℕ)
        → lookup i edges ≡ some l
        → (sat : List ℕ) → ((j : ℕ) → In sat j → AlwaysUntil edges Guarded (In right) j)
        → admit_all guard sat i l ≡ true
        → AlwaysUntil edges Guarded (In right) i
    all_rule i l e sat h a =
        let same = succs_of-eq edges i l e in
        AlwaysUntil.later (ground arith) (subst (λ xs. is_empty xs ≡ false) same (ground arith))
          (λ j m. h j (all-elim sat l j (ground arith) (rw (← same) at m)))

    -- The same with `all`, for every path.
    pub least_all :
        (i : ℕ)
        → In (least (admit_all guard) edges right) i ↔ AlwaysUntil edges Guarded (In right) i
    least_all i = (
      least_sound (admit_all guard) (AlwaysUntil edges Guarded (In right)) edges right
          (Sound-of_lookup (admit_all guard) (AlwaysUntil edges Guarded (In right)) edges d
            all_rule)
          (λ j h. AlwaysUntil.now h) i,
      all_complete,
    )
