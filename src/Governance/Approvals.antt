-- ===== src/Governance/Approvals.antt =====
-- tm/governance/hitl.py: requests for the approval of a person. Times are milliseconds, and an
-- operation reads the clock once. The store is the list of its lines that are JSON; the audit trail
-- is left out. A refusal is the exception that is raised, with the state it leaves.
use trace_mind.Prelude.{
  ℕ, zero, suc, ◌+◌, Bool, true, false, not, ◌&&◌, ◌||◌, Option, none, some, String, List, [], ◌∷◌,
  ◌++◌, if◌then◌else◌, ◌==◌, nat_HasEq, text_HasEq, leb, ltb, Dict, lookup, put, without, has_key,
  keys, values, keep, drop, length, contains, is_empty,
}
use trace_mind.Prelude.Text.{lower_is, strip, or_else_text}
pub mod Manager
pub mod Agreement
pub mod Replay
pub mod Refusals
mod Tests

pub data ApprovalDecision : Type 0 where
  approve deny timeout : ApprovalDecision

-- ApprovalDecision.value
abbrev pub decision_value : ApprovalDecision → String
decision_value approve = "approve"
decision_value deny = "deny"
decision_value timeout = "timeout"

-- `P` is what a request carries along.
pub record ApprovalRecord (P : Type 0) : Type 0 where
  pub approval_id : String
  pub flow : String
  pub step : String
  pub reason : String
  pub requested_by : String
  pub ttl_ms : ℕ
  pub default_decision : ApprovalDecision
  pub actors : List String
  pub created_at : ℕ
  pub payload : P
  pub status : String
  pub decided_at : Option ℕ
  pub decided_by : Option String
  pub note : Option String

pub record HitlConfig : Type 0 where
  pub enabled : Bool
  pub default_ttl_ms : ℕ
  pub queue_size : ℕ
  pub persistent : Bool

-- The lines of the store: a request, a decision.
pub record RequestEntry (P : Type 0) : Type 0 where
  pub approval_id : String
  pub flow : String
  pub step : String
  pub reason : String
  pub requested_by : String
  pub ttl_ms : ℕ
  pub default : String
  pub actors : List String
  pub created_at : ℕ
  pub payload : P

pub record DecisionEntry : Type 0 where
  pub approval_id : String
  pub decision : String
  pub actor : String
  pub note : Option String
  pub ts : ℕ

pub data StoreEntry (P : Type 0) : Type 0 where
  requested : RequestEntry P → StoreEntry P
  decided : DecisionEntry → StoreEntry P
  unknown_entry : StoreEntry P

-- The manager with the store it reads and writes; `store_offset` lines of it are read.
pub record HitlManager (P : Type 0) : Type 0 where
  pub config : HitlConfig
  pub pending : Dict String (ApprovalRecord P)
  pub store_offset : ℕ
  pub store : List (StoreEntry P)

-- The arguments of `submit`.
pub record Request (P : Type 0) : Type 0 where
  pub flow : String
  pub step : String
  pub reason : String
  pub requested_by : String
  pub ttl_ms : Option ℕ
  pub default : String
  pub actors : List String
  pub payload : P

pub data Refusal : Type 0 where
  disabled queue_full unknown_approval unsupported_decision approval_expired : Refusal

pub data Answer (A : Type 0) : Type 0 where
  answer : A → Answer A
  refused : Refusal → Answer A

abbrev pub default_of : String → ApprovalDecision
default_of text = if lower_is text "approve" then approve else deny

abbrev pub is_nonempty : String → Bool
is_nonempty String.[] = false
is_nonempty (String.◌∷◌ c s) = true

-- _normalize_decision; `none` is the ValueError. Lowering leaves white space as it is.
unfoldable pub normalize_decision : String → Option ApprovalDecision
unfolding strip
normalize_decision value =
    let word = strip value in
    if lower_is word "approve"
      || lower_is word "approved"
      || lower_is word "ok"
      || lower_is word "yes"
    then some approve
    else if lower_is word "deny"
        || lower_is word "denied"
        || lower_is word "reject"
        || lower_is word "rejected"
        || lower_is word "no"
    then some deny
    else none

module _ {P : Type 0} where
  abbrev pub has_expired : ℕ → ApprovalRecord P → Bool
  has_expired now r = r.status == "pending" && ltb 0 r.ttl_ms && leb (r.created_at + r.ttl_ms) now

  -- The record made of a line of the store.
  abbrev pub record_from : RequestEntry P → ApprovalRecord P
  record_from q = record {
    approval_id = q.approval_id;
    flow = q.flow;
    step = q.step;
    reason = q.reason;
    requested_by = q.requested_by;
    ttl_ms = q.ttl_ms;
    default_decision = default_of q.default;
    actors = keep is_nonempty q.actors;
    created_at = q.created_at;
    payload = q.payload;
    status = "pending";
    decided_at = none;
    decided_by = none;
    note = none;
  }

  -- The line of the store for a record.
  abbrev pub entry_of : ApprovalRecord P → RequestEntry P
  entry_of r = record {
    approval_id = r.approval_id;
    flow = r.flow;
    step = r.step;
    reason = r.reason;
    requested_by = r.requested_by;
    ttl_ms = r.ttl_ms;
    default = decision_value r.default_decision;
    actors = r.actors;
    created_at = r.created_at;
    payload = r.payload;
  }

  unfoldable pub apply_store_entry :
      Bool → Dict String (ApprovalRecord P) → StoreEntry P → Dict String (ApprovalRecord P)
  apply_store_entry initial pending (requested q) =
      if initial || not (has_key q.approval_id pending)
      then put q.approval_id (record_from q) pending
      else pending
  apply_store_entry initial pending (decided d) = without d.approval_id pending
  apply_store_entry initial pending unknown_entry = pending

  unfoldable pub apply_entries :
      Bool → Dict String (ApprovalRecord P) → List (StoreEntry P) → Dict String (ApprovalRecord P)
  apply_entries initial pending [] = pending
  apply_entries initial pending (e ∷ es) =
      apply_entries initial (apply_store_entry initial pending e) es
