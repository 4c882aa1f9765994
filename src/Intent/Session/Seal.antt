-- ===== src/Intent/Session/Seal.antt =====
-- The completeness report of a session, and its seal (tm/intent/session.py).
use trace_mind.Prelude.{
  Bool, true, false, not, ◌&&◌, Option, none, some, String, List, [], ◌∷◌, ◌==◌, nat_HasEq,
  text_HasEq, Dict,
}
use trace_mind.Intent.DesignLoop.{DesignStep, next_step}
use trace_mind.Intent.Gate.{Report, GateReport, evaluate_consistency}
use trace_mind.Intent.Session.State.{
  DispositionKind, resolved, waived, dynamic, SignOff, SignOffCore, Session, read_only, no_signer,
  not_at_accept, not_closed, Result, ok, ◌>>◌, require, GateFacts, is_working,
}
use trace_mind.Prelude.Text.{is_blank}
use trace_mind.Intent.Session.Moves.{Digests, advance}

-- embed_completeness, with the report of the 5W1H check
unfoldable pub embed_completeness : Session → Report → Result Session
embed_completeness s report =
    require (is_working s.status) read_only >> ok (record s { completeness = some report })

unfoldable pub no_error : Option Report → Bool
no_error none = false
no_error (some r) = elim r.errors [ none ↦ false | some n ↦ n == 0 ]

unfoldable pub gate_facts_for : Session → Bool → Bool → GateFacts
unfolding no_error
gate_facts_for s verified closed = record {
  no_error = no_error s.completeness;
  verified = verified;
  closed = closed;
}

-- The dispositions that a sign-off records: those that waive a dimension or leave it dynamic.
unfoldable pub closures : Dict String DispositionKind → Dict String DispositionKind
closures [] = []
closures ((dim, resolved) ∷ d) = closures d
closures ((dim, waived) ∷ d) = (dim, waived) ∷ closures d
closures ((dim, dynamic) ∷ d) = (dim, dynamic) ∷ closures d

unfoldable pub or_scope : Option (List String) → List String → List String
or_scope none refs = refs
or_scope (some scope) refs = scope

abbrev pub leads_to_seal : Option DesignStep → Bool
leads_to_seal (some DesignStep.sealed) = true
leads_to_seal _ = false

-- The gate that `seal` asks, over the report of the 5W1H check in mode "seal".
unfoldable pub seal_gate : Report → Bool → Option String → List String → GateReport
unfolding evaluate_consistency
seal_gate report verified hash existing =
    evaluate_consistency (some report) (some report.profile) (some verified) true hash existing []

unfoldable pub sign_off_core :
    Digests
    → Session
    → String
    → Report
    → Dict String DispositionKind
    → Option (List String)
    → GateReport
    → Option String
    → SignOffCore
sign_off_core digests s signer report dispositions scope gate signed_at = record {
  signer = signer;
  scope = or_scope scope s.produced_refs;
  completeness_snapshot = report;
  dispositions = closures dispositions;
  gate_report_hash = digests.gate_report gate;
  signed_at = signed_at;
}

unfoldable pub sign_off_of : Digests → SignOffCore → SignOff
sign_off_of digests core = record {
  signer = core.signer;
  scope = core.scope;
  completeness_snapshot = core.completeness_snapshot;
  dispositions = core.dispositions;
  gate_report_hash = core.gate_report_hash;
  signed_at = core.signed_at;
  sign_hash = digests.sign_off core;
}

-- `report` is the outcome of the 5W1H check in mode "seal".
unfoldable pub seal :
    Digests
    → Session
    → String
    → Report
    → Dict String DispositionKind
    → Bool
    → Option (List String)
    → Option String
    → List String
    → Option String
    → Result Session
unfolding advance seal_gate sign_off_core sign_off_of no_error is_blank next_step
seal digests s signer report dispositions verified scope hash existing signed_at = do
  require (is_working s.status) read_only
  require (not (is_blank signer)) no_signer
  require (leads_to_seal (next_step s.current_step)) not_at_accept
  let gate = seal_gate report verified hash existing
  require (report.sealed && gate.passed) not_closed
  advance digests s
      (record { no_error = no_error s.completeness; verified = verified; closed = true }) "human"
      (some (
        sign_off_of digests
          (sign_off_core digests s signer report dispositions scope gate signed_at)))
      none
