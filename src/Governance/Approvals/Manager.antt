-- ===== src/Governance/Approvals/Manager.antt =====
-- The operations of `HitlManager`, tm/governance/hitl.py. Each reads the clock once.
use trace_mind.Prelude.{
  ℕ, Bool, true, false, not, ◌&&◌, Option, none, some, String, List, [], ◌∷◌, ◌++◌, if◌then◌else◌,
  ◌==◌, nat_HasEq, text_HasEq, leb, Dict, lookup, put, without, keys, values, keep, drop, length,
}
use trace_mind.Prelude.Text.{or_else_text}
use trace_mind.Governance.Approvals.{
  ApprovalDecision, decision_value, ApprovalRecord, HitlConfig, DecisionEntry, StoreEntry,
  requested, decided, HitlManager, Request, Answer, answer, refused, disabled, queue_full,
  unknown_approval, unsupported_decision, approval_expired, default_of, is_nonempty,
  normalize_decision, has_expired, entry_of, apply_entries,
}

abbrev pub decision_entry : ℕ → String → ApprovalDecision → String → Option String → DecisionEntry
decision_entry now approval_id d actor note = record {
  approval_id = approval_id;
  decision = decision_value d;
  actor = or_else_text actor "unknown";
  note = note;
  ts = now;
}

module _ {P : Type 0} where
  -- HitlManager.__init__; a store that is not there yet is an empty one.
  unfoldable pub new_manager : HitlConfig → List (StoreEntry P) → HitlManager P
  new_manager config store = record {
    config = config;
    pending = if config.persistent then apply_entries true [] store else [];
    store_offset = if config.persistent then length store else 0;
    store = store;
  }

  unfoldable pub sync_store : HitlManager P → HitlManager P
  sync_store s =
      if s.config.persistent
      then record s {
        pending = apply_entries false s.pending (drop s.store_offset s.store);
        store_offset = length s.store;
      }
      else s

  unfoldable pub append_store : StoreEntry P → HitlManager P → HitlManager P
  append_store e s =
      if s.config.persistent
      then record s { store = s.store ++ (e ∷ []); store_offset = length (s.store ++ (e ∷ [])) }
      else s

  abbrev pub request_record : ℕ → String → HitlConfig → Request P → ApprovalRecord P
  request_record now approval_id config q = record {
    approval_id = approval_id;
    flow = q.flow;
    step = q.step;
    reason = q.reason;
    requested_by = q.requested_by;
    ttl_ms = elim q.ttl_ms [ none ↦ config.default_ttl_ms | some ttl ↦ ttl ];
    default_decision = default_of q.default;
    actors = keep is_nonempty q.actors;
    created_at = now;
    payload = q.payload;
    status = "pending";
    decided_at = none;
    decided_by = none;
    note = none;
  }

  -- `submit`, with the store read.
  unfoldable pub file_request :
      ℕ → String → Request P → HitlManager P → Answer (ApprovalRecord P) × HitlManager P
  file_request now approval_id q s =
      if not (s.config.queue_size == 0) && leb s.config.queue_size (length s.pending)
      then (refused queue_full, s)
      else let r = request_record now approval_id s.config q in
        (
          answer r,
          append_store (requested (entry_of r))
              (record s { pending = put approval_id r s.pending }),
        )

  -- `approval_id` is the uuid drawn.
  unfoldable pub submit :
      ℕ → String → Request P → HitlManager P → Answer (ApprovalRecord P) × HitlManager P
  submit now approval_id q s =
      if not s.config.enabled
      then (refused disabled, s)
      else file_request now approval_id q (sync_store s)

  abbrev pub timed_out : ℕ → String → Option String → ApprovalRecord P → ApprovalRecord P
  timed_out now actor note r = record r {
    status = "timeout";
    decided_at = some now;
    decided_by = some actor;
    note = note;
  }

  abbrev pub decided_record :
      ℕ → ApprovalDecision → String → Option String → ApprovalRecord P → ApprovalRecord P
  decided_record now d actor note r = record r {
    status = decision_value d;
    decided_at = some now;
    decided_by = some (or_else_text actor "unknown");
    note = note;
  }

  -- `decide`, with the store read.
  unfoldable pub settle :
      ℕ
      → String
      → String
      → String
      → Option String
      → HitlManager P
      → Answer (ApprovalRecord P) × HitlManager P
  settle now approval_id decision actor note s = elim (lookup approval_id s.pending) [
    | none ↦ (refused unknown_approval, s)
    | some r ↦
        if not (r.status == "pending") then (answer r, s) else elim (normalize_decision decision) [
          | none ↦ (refused unsupported_decision, s)
          | some d ↦
              if has_expired now r
              then (
                refused approval_expired,
                record s {
                  pending =
                      put approval_id (timed_out now (or_else_text actor "system") note r)
                        s.pending;
                },
              )
              else (
                answer (decided_record now d actor note r),
                append_store (decided (decision_entry now approval_id d actor note))
                    (record s { pending = without approval_id s.pending }),
              )
        ]
  ]

  unfoldable pub decide :
      ℕ
      → String
      → String
      → String
      → Option String
      → HitlManager P
      → Answer (ApprovalRecord P) × HitlManager P
  decide now approval_id decision actor note s =
      settle now approval_id decision actor note (sync_store s)

  -- _mark_expired
  abbrev pub mark_expired : ℕ → ApprovalRecord P → ApprovalRecord P
  mark_expired now r = record r {
    status = "timeout";
    decided_at = some now;
    decided_by = some "system";
  }

  -- `get`, with the store read.
  unfoldable pub find_open : ℕ → String → HitlManager P → Option (ApprovalRecord P) × HitlManager P
  find_open now approval_id s = elim (lookup approval_id s.pending) [
    | none ↦ (none, s)
    | some r ↦
        if has_expired now r
        then (none, record s { pending = put approval_id (mark_expired now r) s.pending })
        else (some r, s)
  ]

  unfoldable pub get_approval :
      ℕ → String → HitlManager P → Option (ApprovalRecord P) × HitlManager P
  get_approval now approval_id s = find_open now approval_id (sync_store s)

  abbrev pub has_expired_at : ℕ → Dict String (ApprovalRecord P) → String → Bool
  has_expired_at now d approval_id = elim (lookup approval_id d) [
    | none ↦ false
    | some r ↦ has_expired now r
  ]

  -- for approval_id in expired: self._pending.pop(approval_id, None)
  unfoldable pub pop_all :
      List String → Dict String (ApprovalRecord P) → Dict String (ApprovalRecord P)
  pop_all [] d = d
  pop_all (approval_id ∷ ids) d = pop_all ids (without approval_id d)

  -- `pending`, with the store read.
  unfoldable pub expire_all : ℕ → HitlManager P → List (ApprovalRecord P) × HitlManager P
  expire_all now s =
      let left = pop_all (keep (has_expired_at now s.pending) (keys s.pending)) s.pending in
      (values left, record s { pending = left })

  unfoldable pub pending_approvals : ℕ → HitlManager P → List (ApprovalRecord P) × HitlManager P
  pending_approvals now s = expire_all now (sync_store s)
