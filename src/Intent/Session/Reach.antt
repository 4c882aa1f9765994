-- ===== src/Intent/Session/Reach.antt =====
-- The sessions that the transitions of tm/intent/session.py reach from a new one.
use trace_mind.Prelude.{
  ◌<◌, ◌≡◌, refl, Bool, true, ◌&&◌, ◌||◌, Option, none, some, String, arith, List, [], ◌∷◌, ◌++◌,
  length, ◌==◌, nat_HasEq, text_HasEq, ltb, Dict, ap, ◌∙◌, subst, eq_iff_at, eq_refl,
}
use Prim.Native.String.{◌++◌ as text_append}
use trace_mind.Intent.DesignLoop.{
  DesignStep, TurnAction, index_of, next_step, is_human_only, entry_action,
}
use trace_mind.Intent.Journal.{new_turn, append_turn, genesis_prev_hash}
use trace_mind.Intent.Journal.Chain.{Linked, Numbered, append_turn-Linked, append_turn-Numbered}
use trace_mind.Intent.Gate.{Report}
use trace_mind.Intent.Session.State.{
  DispositionKind, SignOff, Session, ok, GateFacts, new_session, is_working,
}
use trace_mind.Intent.Session.Text.{clar_id}
use trace_mind.Intent.Session.Moves.{Digests, enter, advance, revert, clarify, clarification_of}
use trace_mind.Intent.Session.Audit.{is_named}
use trace_mind.Intent.Session.Seal.{
  embed_completeness, seal, sign_off_core, sign_off_of, seal_gate, no_error,
}
use trace_mind.Intent.Session.Effects.{advance-inv}
use trace_mind.Intent.Session.Valid.{
  is_accept, human_accepted, Accounted, IsValid, Move, advances, reverts, clarifies, embeds, seals,
  Reaches, new, move, human_accepted-append, is_named-append, Accounted-append, Accounted-concat,
  last_but_one, earlier_is_open,
}

module _ (d : Digests) (s : Session) (v : IsValid d s) where
  -- A turn more keeps what the journal says.
  more_turns :
      (role : String) (action : TurnAction) (input output provider : Option String) (t : Session)
      → t.turns ≡ append_turn d.turn s.turns role action input output provider
      → t.clarifications ≡ s.clarifications
      → Linked d.turn genesis_prev_hash t.turns
        × Numbered 0 t.turns
        × Accounted d t.turns t.clarifications
        × (human_accepted t.turns
            ≡ (human_accepted s.turns || (is_accept action && role == "human")))
  unfolding append_turn new_turn
  more_turns role action input output provider t e c =
      let turn = new_turn d.turn s.turns role action input output provider in
      (
        rw e (append_turn-Linked d.turn s.turns role action input output provider v.linked),
        rw e (append_turn-Numbered d.turn s.turns role action input output provider v.numbered),
        rw (e, c) (Accounted-append d s.turns (turn ∷ []) s.clarifications v.accounted),
        rw e (ground (arith, human_accepted-append s.turns (turn ∷ []))),
      )

  -- The step before the seal is the accept step, which a human took.
  accepts_target :
      (target : DesignStep) (role : String)
      → next_step s.current_step ≡ some target
      → (is_human_only target ≡ true → role ≡ "human")
      → 4 < index_of target
      → (human_accepted s.turns || (is_accept (entry_action target) && role == "human")) ≡ true
  unfolding index_of is_human_only entry_action
  accepts_target DesignStep.accept role next human h =
      let e : role ≡ "human" = human refl in ground (arith, eq_iff_at role "human")
  accepts_target DesignStep.sealed role next human h =
      let before = v.accepted (last_but_one s.current_step next) in ground arith
  accepts_target DesignStep.draft role next human h = absurd (omega arith)
  accepts_target DesignStep.check_5w1h role next human h = absurd (omega arith)
  accepts_target DesignStep.propose role next human h = absurd (omega arith)
  accepts_target DesignStep.refine role next human h = absurd (omega arith)
  accepts_target DesignStep.verify role next human h = absurd (omega arith)

  pub advance-IsValid :
      (facts : GateFacts) (role : String) (sign_off : Option SignOff) (note : Option String)
      (t : Session)
      → advance d s facts role sign_off note ≡ ok t
      → IsValid d t
  unfolding enter
  advance-IsValid facts role sign_off note t h =
      let (target, a, e) = advance-inv d s facts role sign_off note t h in
      let (linked, numbered, accounted, accepts) =
        more_turns role (entry_action target) none note none t (ap (λ (x : Session). x.turns) e)
          (ap (λ (x : Session). x.clarifications) e) in
      record {
        linked = linked;
        numbered = numbered;
        accounted = accounted;
        sealed_last = rw e (ground (arith, a.open_session));
        signed = λ h. ground (arith, a.open_session, a.signed);
        accepted = λ h.
            accepts
            ∙ accepts_target target role a.next a.by_human
                (subst (λ (x : Session). 4 < index_of x.current_step) e h);
      }

  pub revert-IsValid :
      (step : DesignStep) (role reason : String) (t : Session)
      → revert d s step role reason ≡ ok t
      → IsValid d t
  unfolding revert
  revert-IsValid step role reason t h =
      let open_session : is_working s.status ≡ true = ground arith in
      let back : ltb (index_of step) (index_of s.current_step) ≡ true = ground arith in
      let output = some (text_append "revert: " reason) in
      let e : t ≡ record s {
        current_step = step;
        turns = append_turn d.turn s.turns role TurnAction.note none output none;
      } =
        ground arith in
      let (linked, numbered, accounted, accepts) =
        more_turns role TurnAction.note none output none t (ap (λ (x : Session). x.turns) e)
          (ap (λ (x : Session). x.clarifications) e) in
      record {
        linked = linked;
        numbered = numbered;
        accounted = accounted;
        sealed_last = rw e (ground (arith, open_session, earlier_is_open step s.current_step back));
        signed = λ h. ground (arith, open_session, ap (λ (x : Session). x.status) e);
        accepted = λ late.
            let late' = subst (λ (x : Session). 4 < index_of x.current_step) e late in
            ground (arith, accepts, back, late', v.accepted);
      }

  pub embed-IsValid :
      (report : Report) (t : Session) → embed_completeness s report ≡ ok t → IsValid d t
  unfolding embed_completeness
  embed-IsValid report t h =
      let e : t ≡ record s { completeness = some report } = ground arith in
      rw e (record {
        linked = v.linked;
        numbered = v.numbered;
        accounted = v.accounted;
        sealed_last = v.sealed_last;
        signed = v.signed;
        accepted = v.accepted;
      })

  pub clarify-IsValid :
      (disposition role : String) (question warning_ref : Option String)
      (reason resolution : String) (t : Session)
      → clarify d s disposition role question warning_ref reason resolution ≡ ok t
      → IsValid d t
  unfolding clarify clarification_of append_turn new_turn
  clarify-IsValid disposition role question warning_ref reason resolution t h =
      let c = clarification_of d s disposition question warning_ref reason resolution in
      let output = some (clar_id (length s.clarifications)) in
      let turn = new_turn d.turn s.turns role TurnAction.clarify warning_ref output none in
      let open_session : is_working s.status ≡ true = ground arith in
      let e : t ≡ record s {
        clarifications =
            s.clarifications ++ record { record_of = c; record_hash = d.clarification c } ∷ [];
        turns = append_turn d.turn s.turns role TurnAction.clarify warning_ref output none;
      } =
        ground arith in
      let turns' = append_turn d.turn s.turns role TurnAction.clarify warning_ref output none in
      let named : is_named c.clar_id turns' ≡ true =
        ground (arith, is_named-append c.clar_id s.turns (turn ∷ []), eq_refl c.clar_id) in
      rw e (record {
        linked =
            append_turn-Linked d.turn s.turns role TurnAction.clarify warning_ref output none
              v.linked;
        numbered =
            append_turn-Numbered d.turn s.turns role TurnAction.clarify warning_ref output none
              v.numbered;
        accounted =
            Accounted-concat d turns' s.clarifications
              (record { record_of = c; record_hash = d.clarification c })
              (Accounted-append d s.turns (turn ∷ []) s.clarifications v.accounted) refl named;
        sealed_last = v.sealed_last;
        signed = v.signed;
        accepted =
            λ late. ground (arith, human_accepted-append s.turns (turn ∷ []), v.accepted late);
      })

  pub seal-IsValid :
      (signer : String) (report : Report) (dispositions : Dict String DispositionKind)
      (verified : Bool) (scope : Option (List String)) (hash : Option String)
      (existing : List String) (signed_at : Option String) (t : Session)
      → seal d s signer report dispositions verified scope hash existing signed_at ≡ ok t
      → IsValid d t
  unfolding seal
  seal-IsValid signer report dispositions verified scope hash existing signed_at t h =
      advance-IsValid
        (record { no_error = no_error s.completeness; verified = verified; closed = true }) "human"
        (some (
          sign_off_of d (
            sign_off_core d s signer report dispositions scope
              (seal_gate report verified hash existing) signed_at)))
        none t (ground arith)

  pub Move-IsValid : (t : Session) → Move d s t → IsValid d t
  Move-IsValid t (advances facts role sign_off note h) =
      advance-IsValid facts role sign_off note t h
  Move-IsValid t (reverts step role reason h) = revert-IsValid step role reason t h
  Move-IsValid t (clarifies disposition role question warning_ref reason resolution h) =
      clarify-IsValid disposition role question warning_ref reason resolution t h
  Move-IsValid t (embeds report h) = embed-IsValid report t h
  Move-IsValid t (seals signer report dispositions verified scope hash existing signed_at h) =
      seal-IsValid signer report dispositions verified scope hash existing signed_at t h

new_session-IsValid :
    (d : Digests) (session_id root_intent_ref : String)
    → IsValid d (new_session session_id root_intent_ref)
unfolding new_session index_of
new_session-IsValid d session_id root_intent_ref = record {
  linked = tt;
  numbered = tt;
  accounted = tt;
  sealed_last = refl;
  signed = λ h. absurd (ground arith);
  accepted = λ late. absurd (omega arith);
}

-- Every session that transitions reach from a new one is valid: its turns are hash-linked and
-- numbered from 0, it is sealed exactly at the last step, a sealed one has a sign-off, from the accept step
-- on a human has accepted, and every clarification is hashed and named by a clarify turn.
pub Reaches-IsValid : (d : Digests) (s : Session) → Reaches d s → IsValid d s
Reaches-IsValid d s (new session_id root_intent_ref) =
    new_session-IsValid d session_id root_intent_ref
Reaches-IsValid d t (move {s = s} r m) = Move-IsValid d s (Reaches-IsValid d s r) t m
