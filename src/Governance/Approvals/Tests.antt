-- ===== src/Governance/Approvals/Tests.antt =====
-- A run of an approval manager: two requests, of which one is approved and one times out.
use trace_mind.Prelude.{
  ◌≡◌, text_HasEq, ◌↔◌, refl, true, false, none, String, [], ◌∷◌, arith, lookup, put, without,
  has_key, ◌⊎◌, ◌<◌, ◌+◌,
}
use trace_mind.Governance.Approvals.{
  ApprovalRecord, HitlConfig, HitlManager, Request, refused, approval_expired, normalize_decision,
  apply_entries, approve,
}
use trace_mind.Governance.Approvals.Manager.{
  new_manager, submit, file_request, decide, settle, sync_store, append_store, pending_approvals,
  request_record, decided_record,
}
use trace_mind.Governance.Approvals.Agreement.{Agree, stored}
use trace_mind.Governance.Approvals.Replay.{started, submits, decides, lists, Reaches-Agree}
use trace_mind.Governance.Approvals.Refusals.{
  Refuses, approvals, denials, says, decide-Refuses_iff, decide_in_time,
}

abbrev config : HitlConfig
config = record { enabled = true; default_ttl_ms = 100; queue_size = 2; persistent = true }

abbrev request : Request String
request = record {
  flow = "f";
  step = "s";
  reason = "why";
  requested_by = "agent";
  ttl_ms = none;
  default = "Approve";
  actors = "ann" ∷ "" ∷ [];
  payload = "{}";
}

abbrev empty : HitlManager String
empty = new_manager config []

abbrev two_open : HitlManager String
two_open = (submit 8 "b" request (submit 5 "a" request empty).1).1

abbrev one_left : HitlManager String
one_left = (decide 50 "a" " OK " "ann" none two_open).1

Reaches-Agree_example :
    Agree 200
      (lookup "b" (pending_approvals 200 one_left).1.pending)
      (lookup "b" (stored (pending_approvals 200 one_left).1))
Reaches-Agree_example =
    Reaches-Agree config refl
      (lists 200
        (decides 50 "a" " OK " "ann" none
          (submits 8 "b" request (submits 5 "a" request (started []) (omega arith)) (omega arith))
          (omega arith))
        (omega arith))
      "b"

decide-Refuses_iff_example :
    (((decide 300 "b" "yes" "ann" none one_left).0 ≡ refused approval_expired)
      ↔ Refuses 300 "yes" (lookup "b" (sync_store one_left).pending) approval_expired)
    × ((decide 300 "b" "yes" "ann" none one_left).0 ≡ refused approval_expired
        → (decide 300 "b" "yes" "ann" none one_left).1.store ≡ one_left.store)
decide-Refuses_iff_example = decide-Refuses_iff 300 "b" "yes" "ann" none one_left approval_expired

too_late : (decide 300 "b" "yes" "ann" none one_left).0 ≡ refused approval_expired
unfolding decide sync_store settle lookup submit new_manager file_request apply_entries append_store
    put normalize_decision without
too_late = refl

abbrev asked : ApprovalRecord String
asked = request_record 5 "a" config request

decide_in_time_example :
    ((asked.ttl_ms ≡ 0) ⊎ (50 < asked.created_at + asked.ttl_ms))
    × (((says approvals " OK " ≡ true)
          × ((decided_record 50 approve "ann" none asked).status ≡ "approve"))
        ⊎ ((says denials " OK " ≡ true)
            × ((decided_record 50 approve "ann" none asked).status ≡ "deny")))
    × (has_key "a" (decide 50 "a" " OK " "ann" none two_open).1.pending ≡ false)
unfolding decide sync_store settle lookup submit new_manager file_request apply_entries append_store
    put normalize_decision without
decide_in_time_example =
    decide_in_time 50 "a" " OK " "ann" none two_open asked
      (decided_record 50 approve "ann" none asked) refl refl refl
