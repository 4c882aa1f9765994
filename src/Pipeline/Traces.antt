-- ===== src/Pipeline/Traces.antt =====
-- The spans of `Pipeline.run` in tm/pipeline/engine.py, against what the steps and the rules do.
use trace_mind.Prelude.{
  ℕ, ◌≡◌, refl, sym, inl, inr, ◌⊎◌, Bool, true, false, Option, none, some, List, [], ◌∷◌, ◌++◌,
  String, Option-cases, all, map, arith, text_HasEq, Dict, lookup, append_nil, append_assoc,
}
use mathlib.Core.List.{map-append}
use trace_mind.Pipeline.{
  Answer, returned, raised, RunnableStep, TraceSpan, Telling, entry_of_span, tell, span_of,
  run_steps,
}

abbrev pub is_ok : {C : Type 0} → TraceSpan C → Bool
is_ok sp = elim sp.error [ none ↦ true | some _ ↦ false ]

pub Answer-cases :
    {C : Type 0} (a : Answer C) → ((c : C) × (a ≡ returned c)) ⊎ ((e : String) × (a ≡ raised e))
Answer-cases (returned c) = inl (c, refl)
Answer-cases (raised e) = inr (e, refl)

-- What a span says of an answer that its step gave at a context.
pub Says : {C : Type 0} → C → Answer C → TraceSpan C → Type 0
Says ctx (returned after) sp = (sp.outputs ≡ after) × (sp.error ≡ none)
Says ctx (raised e) sp = (sp.outputs ≡ ctx) × (sp.error ≡ some e)

-- A span tells the truth about a step, run at a context.
pub record Tells {C : Type 0} (copy : C → Option C) (s : RunnableStep C) (ctx : C)
    (sp : TraceSpan C) : Type 0 where
  pub named : sp.step ≡ s.spec.name
  pub read : sp.reads ≡ s.spec.reads
  pub wrote : sp.writes ≡ s.spec.writes
  pub inputs : copy ctx ≡ some sp.inputs
  pub answer : Says ctx (s.fn ctx) sp

module _ {C : Type 0} (copy : C → Option C) (steps : Dict String (RunnableStep C)) where
  -- Spans that lead from a context to a context, each true of a step of the plan, each run at the
  -- context that the one before it put out.
  pub Chained : C → List (TraceSpan C) → C → Type 0
  Chained ctx [] last = ctx ≡ last
  Chained ctx (sp ∷ sps) last =
      ((name : String) × ((s : RunnableStep C) × (lookup name steps ≡ some s)
          × Tells copy s ctx sp))
      × Chained sp.outputs sps last

  -- Spans for these names, in their order and without a gap.
  pub Follows : List String → List (TraceSpan C) → Type 0
  Follows [] [] = Unit
  Follows (name ∷ names) (sp ∷ sps) =
      ((s : RunnableStep C) × (lookup name steps ≡ some s) × (sp.step ≡ s.spec.name))
      × Follows names sps
  Follows _ _ = ⊥

  -- A part of a run: what it added to what was told.
  pub record Part (names : List String) (ctx : C) (w : Telling C) (last : C) (w' : Telling C)
      : Type 0 where
    pub added : List (TraceSpan C)
    pub spans : w'.spans ≡ w.spans ++ added
    pub recorded : w'.recorded ≡ w.recorded ++ map entry_of_span added
    pub chained : Chained ctx added last
    pub whole : all is_ok added ≡ true → Follows names added

  Chained-append :
      (ctx mid last : C) (xs ys : List (TraceSpan C))
      → Chained ctx xs mid
      → Chained mid ys last
      → Chained ctx (xs ++ ys) last
  unfolding Chained
  Chained-append ctx mid last [] ys a b = rw a b
  Chained-append ctx mid last (x ∷ xs) ys a b = (a.0, Chained-append x.outputs mid last xs ys a.1 b)

  Follows-append :
      (ms ns : List String) (xs ys : List (TraceSpan C))
      → Follows ms xs
      → Follows ns ys
      → Follows (ms ++ ns) (xs ++ ys)
  unfolding Follows
  Follows-append [] ns [] ys a b = b
  Follows-append [] ns (x ∷ xs) ys a b = absurd a
  Follows-append (m ∷ ms) ns [] ys a b = absurd a
  Follows-append (m ∷ ms) ns (x ∷ xs) ys a b = (a.0, Follows-append ms ns xs ys a.1 b)

  all_ok-append :
      (xs ys : List (TraceSpan C))
      → all is_ok (xs ++ ys) ≡ true
      → (all is_ok xs ≡ true) × (all is_ok ys ≡ true)
  all_ok-append [] ys h = (refl, h)
  all_ok-append (x ∷ xs) ys h =
      let (front, back) = all_ok-append xs ys (ground arith) in (ground arith, back)

  pub Part-none : (ctx : C) (w : Telling C) → Part [] ctx w ctx w
  unfolding Chained Follows
  Part-none ctx w = record {
    added = [];
    spans = sym (append_nil w.spans);
    recorded = sym (append_nil w.recorded);
    chained = refl;
    whole = λ h. tt;
  }

  pub Part-append :
      (ms ns : List String) (ctx mid last : C) (w w1 w2 : Telling C)
      → Part ms ctx w mid w1
      → Part ns mid w1 last w2
      → Part (ms ++ ns) ctx w last w2
  Part-append ms ns ctx mid last w w1 w2 p q = record {
    added = p.added ++ q.added;
    spans = simp (q.spans, p.spans, append_assoc);
    recorded = simp (q.recorded, p.recorded, append_assoc, map-append entry_of_span);
    chained = Chained-append ctx mid last p.added q.added p.chained q.chained;
    whole = λ h.
        let (a, b) = all_ok-append p.added q.added h in
        Follows-append ms ns p.added q.added (p.whole a) (q.whole b);
  }

  -- One step, told by one span.
  Part-told :
      (names : List String) (name : String) (s : RunnableStep C) (ctx : C) (w : Telling C)
      (sp : TraceSpan C)
      → lookup name steps ≡ some s
      → Tells copy s ctx sp
      → (all is_ok (sp ∷ []) ≡ true → Follows names (sp ∷ []))
      → Part names ctx w sp.outputs (tell sp w)
  unfolding Chained
  Part-told names name s ctx w sp known t whole = record {
    added = sp ∷ [];
    spans = refl;
    recorded = refl;
    chained = ((name, (s, known, t)), refl);
    whole = whole;
  }

  span_of-Tells :
      (now : ℕ → ℕ) (rule : String) (s : RunnableStep C) (ctx before after : C)
      (error : Option String) (w : Telling C)
      → copy ctx ≡ some before
      → Says ctx (s.fn ctx) (span_of now rule s before after error w)
      → Tells copy s ctx (span_of now rule s before after error w)
  span_of-Tells now rule s ctx before after error w copied says = record {
    named = refl;
    read = refl;
    wrote = refl;
    inputs = copied;
    answer = says;
  }

  -- A part of a run, where it does not end in an exception.
  unfoldable pub Parted : List String → C → Telling C → Option (C × Telling C) → Type 0
  Parted names ctx w none = Unit
  Parted names ctx w (some (last, w')) = Part names ctx w last w'

  Parted-then :
      (ms ns : List String) (ctx mid : C) (w w1 : Telling C) (o : Option (C × Telling C))
      → Part ms ctx w mid w1
      → Parted ns mid w1 o
      → Parted (ms ++ ns) ctx w o
  unfolding Parted
  Parted-then ms ns ctx mid w w1 none p q = tt
  Parted-then ms ns ctx mid w w1 (some (last, w')) p q = Part-append ms ns ctx mid last w w1 w' p q

  pub run_steps-Parted :
      (now : ℕ → ℕ) (rule : String) (names : List String) (ctx : C) (w : Telling C)
      → Parted names ctx w (run_steps now copy steps rule names ctx w)
  unfolding run_steps Follows Says Parted
  run_steps-Parted now rule [] ctx w = Part-none ctx w
  run_steps-Parted now rule (name ∷ names) ctx w = elim (Option-cases (lookup name steps)) [
    | inl unknown ↦ rw (unknown, run_steps, Parted) tt
    | inr (s, known) ↦ elim (Option-cases (copy ctx)) [
      | inl bad ↦ rw (known, bad, run_steps, Parted) tt
      | inr (before, copied) ↦ elim (Answer-cases (s.fn ctx)) [
        | inl (after, gave) ↦
            let sp = span_of now rule s before after none w in
            let t =
              span_of-Tells now rule s ctx before after none w copied (rw gave (refl, refl)) in
            rw (known, copied, gave, run_steps, Parted)
              (Parted-then (name ∷ []) names ctx after w (tell sp w)
                (run_steps now copy steps rule names after (tell sp w))
                (Part-told (name ∷ []) name s ctx w sp known t (λ ok. ((s, known, refl), tt)))
                (run_steps-Parted now rule names after (tell sp w)))
        | inr (e, threw) ↦
            let sp = span_of now rule s before ctx (some e) w in
            let t =
              span_of-Tells now rule s ctx before ctx (some e) w copied (rw threw (refl, refl)) in
            rw (known, copied, threw, run_steps, Parted)
              (Part-told (name ∷ names) name s ctx w sp known t (λ ok. cc))
      ]
    ]
  ]
