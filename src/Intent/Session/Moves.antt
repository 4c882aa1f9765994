-- ===== src/Intent/Session/Moves.antt =====
-- The transitions of tm/intent/session.py: advance, revert and clarify.
use trace_mind.Prelude.{
  not, ◌&&◌, ◌||◌, Option, none, some, String, [], ◌∷◌, ◌++◌, if◌then◌else◌, length, ◌==◌,
  nat_HasEq, text_HasEq, ltb,
}
use Prim.Native.String.{◌++◌ as text_append}
use trace_mind.Intent.DesignLoop.{
  DesignStep, TurnAction, SessionStatus, index_of, next_step, entry_gate_for, is_human_only,
  entry_action,
}
use trace_mind.Intent.Journal.{TurnPayload, next_seq, append_turn}
use trace_mind.Intent.Session.State.{
  SignOff, SignOffCore, Clarification, Session, bad_role, read_only, at_terminal_step, human_only,
  no_sign_off, no_reason, not_earlier, unknown_disposition, reason_required, gate_unsatisfied,
  Result, ok, err, ◌>>◌, require, GateFacts, satisfies, is_valid_role, is_working, is_sealed_step,
  or_else, is_some,
}
use trace_mind.Intent.Gate.{GateReport}
use trace_mind.Prelude.Text.{is_blank}
use trace_mind.Intent.Session.Text.{clar_id, or_none, is_disposition, disposition_requires_reason}

-- The body hashes, one for each kind of content.
pub record Digests : Type 0 where
  pub turn : TurnPayload → String
  pub clarification : Clarification → String
  pub gate_report : GateReport → String
  pub sign_off : SignOffCore → String

module _ (digests : Digests) where
  -- The last part of `advance`, once all guards have passed.
  unfoldable pub enter :
      Session → DesignStep → SessionStatus → Option SignOff → String → Option String → Session
  unfolding append_turn entry_action
  enter s target status sign_off role note = record s {
    current_step = target;
    status = status;
    sign_off = sign_off;
    turns = append_turn digests.turn s.turns role (entry_action target) none note none;
  }

  -- The end of `advance`: the seal wants a sign-off.
  unfoldable pub finish :
      Session → DesignStep → String → Option SignOff → Option String → Result Session
  unfolding enter
  finish s target role sign_off note =
      let signed = enter s target SessionStatus.sealed (or_else sign_off s.sign_off) role note in
      if is_sealed_step target
      then (require (is_some sign_off || is_some s.sign_off) no_sign_off >> ok signed)
      else ok (enter s target s.status s.sign_off role note)

  -- `advance` from the target step on.
  unfoldable pub advance_to :
      Session → GateFacts → DesignStep → String → Option SignOff → Option String → Result Session
  unfolding finish is_human_only entry_gate_for satisfies
  advance_to s facts target role sign_off note = do
    require (not (is_human_only target) || role == "human") human_only
    elim (entry_gate_for target) [
      | none ↦ ok tt
      | some r ↦ require (satisfies facts r) (gate_unsatisfied r)
    ]
    finish s target role sign_off note

  unfoldable pub advance :
      Session → GateFacts → String → Option SignOff → Option String → Result Session
  unfolding advance_to next_step
  advance s facts role sign_off note = do
    require (is_valid_role role) bad_role
    require (is_working s.status) read_only
    elim (next_step s.current_step) [
      | none ↦ err at_terminal_step
      | some target ↦ advance_to s facts target role sign_off note
    ]

  unfoldable pub revert : Session → DesignStep → String → String → Result Session
  unfolding append_turn index_of is_blank
  revert s to_step role reason = do
    require (is_valid_role role) bad_role
    require (is_working s.status) read_only
    require (not (is_blank reason)) no_reason
    require (ltb (index_of to_step) (index_of s.current_step)) not_earlier
    ok (record s {
      current_step = to_step;
      turns =
          append_turn digests.turn s.turns role TurnAction.note none
            (some (text_append "revert: " reason)) none;
    })

  -- The record that `clarify` stores.
  unfoldable pub clarification_of :
      Session → String → Option String → Option String → String → String → Clarification
  unfolding clar_id next_seq
  clarification_of s disposition question warning_ref reason resolution = record {
    clar_id = clar_id (length s.clarifications);
    turn_seq = next_seq s.turns;
    warning_ref = warning_ref;
    question = question;
    disposition = disposition;
    reason = or_none reason;
    resolution = or_none resolution;
  }

  unfoldable pub clarify :
      Session → String → String → Option String → Option String → String → String → Result Session
  unfolding append_turn clarification_of is_disposition disposition_requires_reason is_blank
  clarify s disposition role question warning_ref reason resolution = do
    require (is_valid_role role) bad_role
    require (is_working s.status) read_only
    require (is_disposition disposition) unknown_disposition
    require (not (disposition_requires_reason disposition && is_blank reason)) reason_required
    let c = clarification_of s disposition question warning_ref reason resolution
    ok (record s {
      clarifications =
          s.clarifications ++ record { record_of = c; record_hash = digests.clarification c } ∷ [];
      turns =
          append_turn digests.turn s.turns role TurnAction.clarify warning_ref
            (some (clar_id (length s.clarifications))) none;
    })
