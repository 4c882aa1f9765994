-- ===== src/Intent/Journal/Chain.antt =====
-- The journal is a chain: appending keeps it intact and numbered, and its last hash fixes it.
use trace_mind.Prelude.{
  ℕ, suc, ◌+◌, ◌≡◌, refl, Option, some, String, arith, List, [], ◌∷◌, ◌++◌, inl, inr, length, ◌==◌,
  nat_HasEq, text_HasEq, eq_iff_at, Bool-cases, Option-cases, ◌↔◌, sym, ap, ◌∙◌, subst,
}
use trace_mind.Intent.DesignLoop.{TurnAction}
use trace_mind.Intent.Journal.{
  Turn, TurnPayload, turn_payload, genesis_prev_hash, max_seq, next_seq, hash_or, last_hash,
  new_turn, append_turn, verify_from, verify_journal,
}

-- The hash after the turns, from the hash before them.
abbrev pub end_hash : String → List Turn → String
end_hash prev [] = prev
end_hash prev (t ∷ ts) = end_hash (hash_or t.turn_hash prev) ts

-- The turns are numbered from i on.
abbrev pub Numbered : ℕ → List Turn → Type 0
Numbered i [] = Unit
Numbered i (t ∷ ts) = (t.seq ≡ i) × Numbered (suc i) ts

max_seq-Numbered :
    (i : ℕ) (t : Turn) (ts : List Turn) → Numbered i (t ∷ ts) → max_seq (t ∷ ts) ≡ i + length ts
max_seq-Numbered i t [] h = ground (arith, h.0)
max_seq-Numbered i t (u ∷ ts) h = ground (arith, h.0, max_seq-Numbered (suc i) u ts h.1)

next_seq-Numbered : (ts : List Turn) → Numbered 0 ts → next_seq ts ≡ length ts
unfolding next_seq
next_seq-Numbered [] h = refl
next_seq-Numbered (t ∷ ts) h = omega (arith, max_seq-Numbered 0 t ts h)

Numbered-concat :
    (i : ℕ) (ts : List Turn) (t : Turn)
    → Numbered i ts
    → t.seq ≡ i + length ts
    → Numbered i (ts ++ t ∷ [])
Numbered-concat i [] t h e = (omega (arith, e), tt)
Numbered-concat i (u ∷ ts) t h e = (h.0, Numbered-concat (suc i) ts t h.1 (omega (arith, e)))

module _ (digest : TurnPayload → String) where
  -- Each turn carries the hash of its content and of its predecessor.
  abbrev pub Linked : String → List Turn → Type 0
  Linked prev [] = Unit
  Linked prev (t ∷ ts) =
      (t.turn_hash ≡ some (digest (turn_payload t prev))) × Linked (digest (turn_payload t prev)) ts

  Linked-iff :
      (i : ℕ) (prev : String) (ts : List Turn)
      → (verify_from digest i prev ts ≡ []) ↔ Linked prev ts
  unfolding verify_from
  Linked-iff i prev [] = (λ _. tt, λ _. refl)
  Linked-iff i prev (t ∷ ts) = elim (Option-cases t.turn_hash) [
    | inl lost ↦ (λ h. absurd (ground arith), λ l. absurd (cc (l.0, lost)))
    | inr (h, there) ↦
        let expected = digest (turn_payload t prev) in
        elim (Bool-cases (h == expected)) [
          | inl same ↦
              let e : h ≡ expected = (eq_iff_at h expected).0 same in
              let ih = Linked-iff (suc i) h ts in
              (
                λ v. (cc, subst (λ k. Linked k ts) e (ih.0 (ground arith))),
                λ l. let rest = ih.1 (subst (λ k. Linked k ts) (sym e) l.1) in ground arith,
              )
          | inr other ↦ (
            λ v. absurd (ground arith),
            λ l.
                let e : h ≡ expected = cc (l.0, there) in
                absurd (cc ((eq_iff_at h expected).1 e, other)),
          )
        ]
  ]

  last_hash-Linked :
      (prev : String) (t : Turn) (ts : List Turn)
      → Linked prev (t ∷ ts)
      → end_hash prev (t ∷ ts) ≡ last_hash (t ∷ ts)
  unfolding last_hash
  last_hash-Linked prev t [] l = ground (arith, l.0)
  last_hash-Linked prev t (u ∷ ts) l =
      let h : hash_or t.turn_hash prev ≡ digest (turn_payload t prev) = ground (arith, l.0) in
      rw h (last_hash-Linked (digest (turn_payload t prev)) u ts l.1)

  Linked-concat :
      (prev : String) (ts : List Turn) (t : Turn)
      → Linked prev ts
      → t.turn_hash ≡ some (digest (turn_payload t (end_hash prev ts)))
      → Linked prev (ts ++ t ∷ [])
  Linked-concat prev [] t l e = (e, tt)
  Linked-concat prev (u ∷ ts) t l e =
      let h : hash_or u.turn_hash prev ≡ digest (turn_payload u prev) = ground (arith, l.0) in
      (l.0, Linked-concat (digest (turn_payload u prev)) ts t l.1 (rw h at e))

  last_hash-eq-end :
      (ts : List Turn) → Linked genesis_prev_hash ts → last_hash ts ≡ end_hash genesis_prev_hash ts
  unfolding last_hash
  last_hash-eq-end [] l = refl
  last_hash-eq-end (t ∷ ts) l = sym (last_hash-Linked genesis_prev_hash t ts l)

  -- An appended turn extends the chain and the numbers.
  pub append_turn-Linked :
      (ts : List Turn) (role : String) (action : TurnAction) (input output provider : Option String)
      → Linked genesis_prev_hash ts
      → Linked genesis_prev_hash (append_turn digest ts role action input output provider)
  unfolding append_turn turn_payload
  append_turn-Linked ts role action input output provider l =
      Linked-concat genesis_prev_hash ts (new_turn digest ts role action input output provider) l
        (rw (last_hash-eq-end ts l))

  pub append_turn-Numbered :
      (ts : List Turn) (role : String) (action : TurnAction) (input output provider : Option String)
      → Numbered 0 ts
      → Numbered 0 (append_turn digest ts role action input output provider)
  unfolding append_turn
  append_turn-Numbered ts role action input output provider n =
      Numbered-concat 0 ts (new_turn digest ts role action input output provider) n
        (omega (arith, next_seq-Numbered ts n))

  chain_unique :
      (inj : (a b : TurnPayload) → digest a ≡ digest b → a ≡ b) (p q : String) (ts us : List Turn)
      → Linked p ts
      → Linked q us
      → length ts ≡ length us
      → end_hash p ts ≡ end_hash q us
      → (ts ≡ us) × (p ≡ q)
  unfolding turn_payload
  chain_unique inj p q [] [] l k len e = (refl, e)
  chain_unique inj p q [] (u ∷ us) l k len e = absurd (omega arith)
  chain_unique inj p q (t ∷ ts) [] l k len e = absurd (omega arith)
  chain_unique inj p q (t ∷ ts) (u ∷ us) l k len e =
      let ht : hash_or t.turn_hash p ≡ digest (turn_payload t p) = ground (arith, l.0) in
      let hu : hash_or u.turn_hash q ≡ digest (turn_payload u q) = ground (arith, k.0) in
      let ends : end_hash (digest (turn_payload t p)) ts ≡ end_hash (digest (turn_payload u q)) us =
        sym (ap (λ h. end_hash h ts) ht) ∙ e ∙ ap (λ h. end_hash h us) hu in
      let (tails, links) =
        chain_unique inj (digest (turn_payload t p)) (digest (turn_payload u q)) ts us l.1 k.1
          (omega arith) ends in
      let same = inj (turn_payload t p) (turn_payload u q) links in
      same_turn same (l.0 ∙ ap some links ∙ sym k.0) tails
    where
      same_turn :
          turn_payload t p ≡ turn_payload u q
          → t.turn_hash ≡ u.turn_hash
          → ts ≡ us
          → (t ∷ ts ≡ u ∷ us) × (p ≡ q)
      same_turn e h r = (
        λ i.
            record {
              seq = (e i).seq;
              role = (e i).role;
              action = (e i).action;
              input_ref = (e i).input_ref;
              output_ref = (e i).output_ref;
              provider = (e i).provider;
              turn_hash = h i;
            }
            ∷ r i,
        λ i. (e i).prev_hash,
      )

-- verify_journal finds no issue exactly in the journals whose turns carry the hash of their content
-- and of their predecessor.
pub verify_journal_iff :
    (digest : TurnPayload → String) (ts : List Turn)
    → (verify_journal digest ts ≡ []) ↔ Linked digest genesis_prev_hash ts
unfolding verify_journal
verify_journal_iff digest ts = Linked-iff digest 0 genesis_prev_hash ts

-- If no two payloads have one hash, two journals of one length in which verify_journal finds no
-- issue and whose last hashes agree are equal: a change to any turn shows in the last hash.
pub journal_tamper_evident :
    (digest : TurnPayload → String) (ts us : List Turn)
    → ((a b : TurnPayload) → digest a ≡ digest b → a ≡ b)
    → verify_journal digest ts ≡ []
    → verify_journal digest us ≡ []
    → length ts ≡ length us
    → last_hash ts ≡ last_hash us
    → ts ≡ us
journal_tamper_evident digest ts us inj v w len e =
    let l = (verify_journal_iff digest ts).0 v in
    let k = (verify_journal_iff digest us).0 w in
    (chain_unique digest inj genesis_prev_hash genesis_prev_hash ts us l k len
      (sym (last_hash-eq-end digest ts l) ∙ e ∙ last_hash-eq-end digest us k)).0
