-- ===== src/Intent/Session/State.antt =====
-- The session of tm/intent/session.py. The artifact's loader admits only the words of the enumerations
-- for status and step; metadata holds the clarifications alone.
use trace_mind.Prelude.{
  ℕ, Bool, true, false, ◌||◌, Option, none, some, String, List, [], ◌==◌, nat_HasEq, text_HasEq,
  Dict,
}
use trace_mind.Intent.DesignLoop.{
  DesignStep, SessionStatus, Requirement, completeness_no_error, verify_passed,
  human_signoff_and_all_dims_closed,
}
use trace_mind.Intent.Journal.{Turn}
use trace_mind.Intent.Gate.{Report}

pub data DispositionKind : Type 0 where
  resolved waived dynamic : DispositionKind

-- The part of a sign-off that is hashed; a disposition is the dimension with its kind.
pub record SignOffCore : Type 0 where
  pub signer : String
  pub scope : List String
  pub completeness_snapshot : Report
  pub dispositions : Dict String DispositionKind
  pub gate_report_hash : String
  pub signed_at : Option String

pub record SignOff : Type 0 where
  pub signer : String
  pub scope : List String
  pub completeness_snapshot : Report
  pub dispositions : Dict String DispositionKind
  pub gate_report_hash : String
  pub signed_at : Option String
  pub sign_hash : String

pub record Clarification : Type 0 where
  pub clar_id : String
  pub turn_seq : ℕ
  pub warning_ref : Option String
  pub question : Option String
  pub disposition : String
  pub reason : Option String
  pub resolution : Option String

pub record Recorded : Type 0 where
  pub record_of : Clarification
  pub record_hash : String

pub record Session : Type 0 where
  pub session_id : String
  pub root_intent_ref : String
  pub status : SessionStatus
  pub current_step : DesignStep
  pub turns : List Turn
  pub completeness : Option Report
  pub produced_refs : List String
  pub sign_off : Option SignOff
  pub clarifications : List Recorded

-- SessionTransitionError, by the guard that raises it.
pub data Error : Type 0 where
  bad_role read_only at_terminal_step human_only no_sign_off no_reason not_earlier : Error
  unknown_disposition reason_required no_signer not_at_accept not_closed : Error
  gate_unsatisfied : Requirement → Error

pub data Result {ℓ} (A : Type ℓ) : Type ℓ where
  ok : A → Result A
  err : Error → Result A

infixl 5 ◌>>◌
abbrev pub ◌>>◌ {ℓ} : {A : Type ℓ} → Result (Unit {0}) → Result A → Result A
ok _ >> k = k
err e >> k = err e

abbrev pub require : Bool → Error → Result (Unit {0})
require true e = ok tt
require false e = err e

pub record GateFacts : Type 0 where
  pub no_error : Bool
  pub verified : Bool
  pub closed : Bool

-- GateFacts.satisfies
unfoldable pub satisfies : GateFacts → Requirement → Bool
satisfies f completeness_no_error = f.no_error
satisfies f verify_passed = f.verified
satisfies f human_signoff_and_all_dims_closed = f.closed

unfoldable pub new_session : String → String → Session
new_session session_id root_intent_ref = record {
  session_id = session_id;
  root_intent_ref = root_intent_ref;
  status = SessionStatus.working;
  current_step = DesignStep.draft;
  turns = [];
  completeness = none;
  produced_refs = [];
  sign_off = none;
  clarifications = [];
}

abbrev pub is_valid_role : String → Bool
is_valid_role role = role == "human" || role == "agent"

abbrev pub is_working : SessionStatus → Bool
is_working SessionStatus.working = true
is_working SessionStatus.sealed = false

abbrev pub is_sealed_step : DesignStep → Bool
is_sealed_step DesignStep.sealed = true
is_sealed_step _ = false

abbrev pub or_else {ℓ} : {A : Type ℓ} → Option A → Option A → Option A
or_else none b = b
or_else (some a) b = some a

abbrev pub is_some {ℓ} : {A : Type ℓ} → Option A → Bool
is_some none = false
is_some (some a) = true
