-- ===== src/Intent/Session/Effects.antt =====
-- What advance of tm/intent/session.py asks, and what it does.
use trace_mind.Prelude.{
  ℕ, suc, ◌==◌, ◌≤◌, ◌⊎◌, refl, ◌++◌, ◌∷◌, [], ◌≡◌, Bool, true, ◌||◌, Option, none, some, String,
  arith, if◌then◌else◌, nat_HasEq, text_HasEq, inl, inr, ◌↔◌, sym, ap, ◌∙◌, Option-cases, eq_iff_at,
}
use trace_mind.Intent.DesignLoop.{
  DesignStep, SessionStatus, Requirement, next_step, entry_gate_for, is_human_only, index_of,
  entry_action, next_step-index,
}
use trace_mind.Intent.Session.State.{
  SignOff, Session, ok, GateFacts, satisfies, is_valid_role, is_working, is_sealed_step, or_else,
  is_some,
}
use trace_mind.Intent.Journal.{next_seq, last_hash, append_turn, new_turn}
use trace_mind.Intent.Session.Moves.{Digests, enter, finish, advance_to, advance}

abbrev pub gate_holds : GateFacts → Option Requirement → Bool
gate_holds facts none = true
gate_holds facts (some r) = satisfies facts r

-- What each guard of `advance` to a target tests.
pub record Passes (s : Session) (facts : GateFacts) (role : String) (sign_off : Option SignOff)
    (target : DesignStep) : Type 0 where
  pub next : next_step s.current_step ≡ some target
  pub by_role : is_valid_role role ≡ true
  pub open_session : is_working s.status ≡ true
  pub by_human : is_human_only target ≡ true → role ≡ "human"
  pub gate : gate_holds facts (entry_gate_for target) ≡ true
  pub signed : is_sealed_step target ≡ true → (is_some sign_off || is_some s.sign_off) ≡ true

-- What `enter` makes.
abbrev pub entered :
    Digests → Session → String → Option SignOff → Option String → DesignStep → Session
entered d s role sign_off note target =
    enter d s target (if is_sealed_step target then SessionStatus.sealed else s.status)
      (if is_sealed_step target then or_else sign_off s.sign_off else s.sign_off) role note

module _ (d : Digests) (s : Session) (facts : GateFacts) (role : String) (sign_off : Option SignOff)
    (note : Option String) where
  advance-eq :
      (target : DesignStep)
      → Passes s facts role sign_off target
      → advance d s facts role sign_off note ≡ ok (entered d s role sign_off note target)
  unfolding advance advance_to finish
  advance-eq target a = elim (Option-cases (entry_gate_for target)) [
    | inl ungated ↦
        ground
          (arith, a.next, a.by_role, a.open_session, a.by_human, a.signed, eq_iff_at role "human")
    | inr (r, gated) ↦ ground (
      arith,
      a.next,
      a.by_role,
      a.open_session,
      a.by_human,
      a.gate,
      a.signed,
      eq_iff_at role "human",
    )
  ]

  pub advance-inv :
      (t : Session)
      → advance d s facts role sign_off note ≡ ok t
      → (target : DesignStep) × Passes s facts role sign_off target
        × (t ≡ entered d s role sign_off note target)
  unfolding advance advance_to finish
  advance-inv t h = elim (Option-cases (next_step s.current_step)) [
    | inl last ↦ absurd (ground arith)
    | inr (target, next) ↦ (
      target,
      record {
        next = next;
        by_role = ground arith;
        open_session = ground arith;
        by_human = λ p. ground (arith, eq_iff_at role "human");
        gate = ground arith;
        signed = λ p. ground arith;
      },
      ground arith,
    )
  ]

-- What a step asks to be entered by `advance`.
abbrev pub MayEnter : GateFacts → DesignStep → Type 0
MayEnter facts DesignStep.verify = facts.no_error ≡ true
MayEnter facts DesignStep.accept = facts.verified ≡ true
MayEnter facts DesignStep.sealed = facts.closed ≡ true
MayEnter facts _ = Unit

-- What `advance` to a target asks of the session and of who calls it.
pub record Allows (s : Session) (facts : GateFacts) (role : String) (sign_off : Option SignOff)
    (target : DesignStep) : Type 0 where
  pub next : index_of target ≡ suc (index_of s.current_step)
  pub by_role : (role ≡ "human") ⊎ (role ≡ "agent")
  pub open_session : s.status ≡ SessionStatus.working
  pub by_human : (target ≡ DesignStep.accept) ⊎ (target ≡ DesignStep.sealed) → role ≡ "human"
  pub gate : MayEnter facts target
  pub signed : target ≡ DesignStep.sealed → (is_some sign_off || is_some s.sign_off) ≡ true

abbrev pub status_after : DesignStep → SessionStatus → SessionStatus
status_after DesignStep.sealed status = SessionStatus.sealed
status_after _ status = status

abbrev pub sign_off_after : DesignStep → Option SignOff → Option SignOff → Option SignOff
sign_off_after DesignStep.sealed (some given) old = some given
sign_off_after _ given old = old

-- The session at the target, with one more turn.
abbrev pub advanced :
    Digests → Session → String → Option SignOff → Option String → DesignStep → Session
advanced d s role sign_off note target = record s {
  current_step = target;
  status = status_after target s.status;
  sign_off = sign_off_after target sign_off s.sign_off;
  turns =
      s.turns
      ++ record {
        seq = next_seq s.turns;
        role = role;
        action = entry_action target;
        input_ref = none;
        output_ref = note;
        provider = none;
        turn_hash = some (
            d.turn (record {
              seq = next_seq s.turns;
              role = role;
              action = entry_action target;
              input_ref = none;
              output_ref = note;
              provider = none;
              prev_hash = last_hash s.turns;
            }));
      }
        ∷ [];
}

pub entered-advanced :
    (d : Digests) (s : Session) (role : String) (sign_off : Option SignOff) (note : Option String)
    (target : DesignStep)
    → entered d s role sign_off note target ≡ advanced d s role sign_off note target
unfolding enter append_turn new_turn
entered-advanced d s role none remark DesignStep.sealed = refl
entered-advanced d s role (some given) remark DesignStep.sealed = refl
entered-advanced d s role sign_off remark DesignStep.draft = refl
entered-advanced d s role sign_off remark DesignStep.check_5w1h = refl
entered-advanced d s role sign_off remark DesignStep.propose = refl
entered-advanced d s role sign_off remark DesignStep.refine = refl
entered-advanced d s role sign_off remark DesignStep.verify = refl
entered-advanced d s role sign_off remark DesignStep.accept = refl

-- DESIGN_STEP_ORDER[i]
step_at : ℕ → DesignStep
step_at n =
    if n == 0
    then DesignStep.draft
    else if n == 1
    then DesignStep.check_5w1h
    else if n == 2
    then DesignStep.propose
    else if n == 3
    then DesignStep.refine
    else if n == 4
    then DesignStep.verify
    else if n == 5
    then DesignStep.accept
    else DesignStep.sealed

step_inj : {t u : DesignStep} → some t ≡ some u → t ≡ u
step_inj h = cc

step_at-index_of : (t : DesignStep) → step_at (index_of t) ≡ t
unfolding step_at index_of
step_at-index_of DesignStep.draft = refl
step_at-index_of DesignStep.check_5w1h = refl
step_at-index_of DesignStep.propose = refl
step_at-index_of DesignStep.refine = refl
step_at-index_of DesignStep.verify = refl
step_at-index_of DesignStep.accept = refl
step_at-index_of DesignStep.sealed = refl

index_of-le : (t : DesignStep) → index_of t ≤ 6
unfolding index_of
index_of-le t = ground arith

next_step_iff : (s t : DesignStep) → (next_step s ≡ some t) ↔ (index_of t ≡ suc (index_of s))
unfolding index_of
next_step_iff s t = elim (next_step-index s) [
  | inl (last, at) ↦ (
    λ h. absurd (cc),
    λ h.
        let top : index_of s ≡ 6 = ap index_of at in
        let low = index_of-le t in absurd (omega (arith, h, top, low)),
  )
  | inr (u, next, above) ↦ (
    λ h. let same : u ≡ t = step_inj (sym next ∙ h) in rw (← same) (omega (arith, above)),
    λ h.
        let level : index_of u ≡ index_of t = omega (arith, above, h) in
        let same : u ≡ t = sym (step_at-index_of u) ∙ ap step_at level ∙ step_at-index_of t in
        next ∙ ap some same,
  )
]

gate_holds-MayEnter :
    (facts : GateFacts) (target : DesignStep)
    → (gate_holds facts (entry_gate_for target) ≡ true) ↔ MayEnter facts target
unfolding entry_gate_for satisfies
gate_holds-MayEnter facts DesignStep.draft = (λ h. tt, λ h. refl)
gate_holds-MayEnter facts DesignStep.check_5w1h = (λ h. tt, λ h. refl)
gate_holds-MayEnter facts DesignStep.propose = (λ h. tt, λ h. refl)
gate_holds-MayEnter facts DesignStep.refine = (λ h. tt, λ h. refl)
gate_holds-MayEnter facts DesignStep.verify = (λ h. h, λ h. h)
gate_holds-MayEnter facts DesignStep.accept = (λ h. h, λ h. h)
gate_holds-MayEnter facts DesignStep.sealed = (λ h. h, λ h. h)

human_only_iff :
    (target : DesignStep)
    → (is_human_only target ≡ true) ↔ ((target ≡ DesignStep.accept) ⊎ (target ≡ DesignStep.sealed))
unfolding is_human_only
human_only_iff target = (λ h. ground arith, λ h. ground arith)

sealed_step_iff :
    (target : DesignStep) → (is_sealed_step target ≡ true) ↔ (target ≡ DesignStep.sealed)
sealed_step_iff target = (λ h. ground arith, λ h. ground arith)

pub working_iff :
    (status : SessionStatus) → (is_working status ≡ true) ↔ (status ≡ SessionStatus.working)
working_iff status = (λ h. ground arith, λ h. ground arith)

valid_role_iff :
    (role : String) → (is_valid_role role ≡ true) ↔ ((role ≡ "human") ⊎ (role ≡ "agent"))
valid_role_iff role =
    let human = eq_iff_at role "human" in
    let agent = eq_iff_at role "agent" in (λ h. ground arith, λ h. ground arith)

Passes-Allows :
    (s : Session) (facts : GateFacts) (role : String) (sign_off : Option SignOff)
    (target : DesignStep)
    → Passes s facts role sign_off target ↔ Allows s facts role sign_off target
Passes-Allows s facts role sign_off target = (
  λ p. record {
    next = (next_step_iff s.current_step target).0 p.next;
    by_role = (valid_role_iff role).0 p.by_role;
    open_session = (working_iff s.status).0 p.open_session;
    by_human = λ h. p.by_human ((human_only_iff target).1 h);
    gate = (gate_holds-MayEnter facts target).0 p.gate;
    signed = λ h. p.signed ((sealed_step_iff target).1 h);
  },
  λ a. record {
    next = (next_step_iff s.current_step target).1 a.next;
    by_role = (valid_role_iff role).1 a.by_role;
    open_session = (working_iff s.status).1 a.open_session;
    by_human = λ h. a.by_human ((human_only_iff target).0 h);
    gate = (gate_holds-MayEnter facts target).1 a.gate;
    signed = λ h. a.signed ((sealed_step_iff target).0 h);
  },
)

-- `advance` returns a session exactly if some target is the next step in the order and all of this
-- holds: the role is "human" or "agent", the session is working, the steps accept and sealed are
-- taken by a human, the facts that the target asks for hold, and a seal has a sign-off, given now or
-- before. The session returned is at the target; it is sealed if that is the last step, and then has
-- the sign-off given or else the old one; it has one more turn, of that role, with the action of the
-- step, the note, and a hash that binds it to the turn before; all else is as it was.
pub advance_iff :
    (d : Digests) (s : Session) (facts : GateFacts) (role : String) (sign_off : Option SignOff)
    (note : Option String) (t : Session)
    → (advance d s facts role sign_off note ≡ ok t) ↔ (
        (target : DesignStep) × Allows s facts role sign_off target
        × (t ≡ advanced d s role sign_off note target))
advance_iff d s facts role sign_off note t = (
  λ h.
      let (target, p, e) = advance-inv d s facts role sign_off note t h in
      (
        target,
        (Passes-Allows s facts role sign_off target).0 p,
        e ∙ entered-advanced d s role sign_off note target,
      ),
  λ (target, a, e).
      advance-eq d s facts role sign_off note target
        ((Passes-Allows s facts role sign_off target).1 a)
      ∙ ap ok (entered-advanced d s role sign_off note target ∙ sym e),
)
