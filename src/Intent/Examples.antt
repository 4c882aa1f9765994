-- ===== src/Intent/Examples.antt =====
-- A design session in its first steps, its journal, and a gate that lets a report pass.
use trace_mind.Prelude.{
  ap, ◌≢◌, ◌≡◌, refl, true, false, ◌↔◌, ◌⊎◌, none, some, List, [], ◌∷◌, String, nat_HasEq,
  text_HasEq, contains,
}
use trace_mind.Intent.DesignLoop.{DesignStep, TurnAction}
use trace_mind.Intent.Journal.{Turn, verify_journal, genesis_prev_hash, append_turn}
use trace_mind.Intent.Journal.Chain.{Linked, verify_journal_iff}
use trace_mind.Intent.Gate.{Report, evaluate_consistency, evaluate_consistency_iff}
use trace_mind.Intent.Session.State.{Session, GateFacts, ok, new_session}
use trace_mind.Intent.Session.Moves.{Digests, advance}
use trace_mind.Intent.Session.Audit.{verify_clarifications}
use trace_mind.Intent.Session.Seal.{seal, or_scope, closures}
use trace_mind.Intent.Session.Effects.{Allows, advanced, advance_iff}
use trace_mind.Intent.Session.Valid.{IsValid, Reaches, new, move, advances}
use trace_mind.Intent.Session.Reach.{Reaches-IsValid}
use trace_mind.Intent.Session.Closed.{audits_clean, MaySeal, sealed_session, seal_iff}

abbrev digests : Digests
digests = record {
  turn = λ t. t.role;
  clarification = λ c. c.clar_id;
  gate_report = λ g. "gate";
  sign_off = λ c. c.signer;
}

abbrev no_facts : GateFacts
no_facts = record { no_error = false; verified = false; closed = false }

abbrev fresh : Session
fresh = new_session "s1" "root"

abbrev begun : Session
begun = advanced digests fresh "agent" none none DesignStep.check_5w1h

begins : advance digests fresh no_facts "agent" none none ≡ ok begun
unfolding advance new_session
begins = refl

begun_reached : Reaches digests begun
begun_reached = move (new "s1" "root") (advances no_facts "agent" none none begins)

abbrev two_turns : List Turn
two_turns =
    append_turn digests.turn (append_turn digests.turn [] "human" TurnAction.note none none none)
      "agent" TurnAction.propose none none none

verify_journal_iff_example :
    (verify_journal digests.turn two_turns ≡ []) ↔ Linked digests.turn genesis_prev_hash two_turns
verify_journal_iff_example = verify_journal_iff digests.turn two_turns

abbrev clean_report : Report
clean_report = record { errors = some 0; profile = "base"; sealed = true }

report_inj : {r q : Report} → some r ≡ some q → r ≡ q
report_inj h = cc

counted : (r : Report) → some clean_report ≡ some r → r.errors ≢ none
counted r same uncounted = let e = ap (λ (q : Report). q.errors) (report_inj same) in cc

evaluate_consistency_iff_example :
    ((evaluate_consistency
        (some clean_report)
        (some "base")
        (some true)
        true
        (some "h")
        []
        []).passed
      ≡ true)
    ↔ (((r : Report) × (some clean_report ≡ some r) × (r.errors ≡ some 0))
        × ((some true ≡ some true) ⊎ ((some true ≡ none) × (true ≡ false)))
        × ((h : String) → some "h" ≡ some h → (h ≡ "") ⊎ (contains [] h ≡ false)))
evaluate_consistency_iff_example =
    evaluate_consistency_iff (some clean_report) (some "base") (some true) true (some "h") [] []
      counted

advance_iff_example : (advance digests fresh no_facts "agent" none none ≡ ok begun) ↔ (
    (target : DesignStep) × Allows fresh no_facts "agent" none target
    × (begun ≡ advanced digests fresh "agent" none none target))
advance_iff_example = advance_iff digests fresh no_facts "agent" none none begun

Reaches-IsValid_example : IsValid digests begun
Reaches-IsValid_example = Reaches-IsValid digests begun begun_reached

audits_clean_example :
    (verify_journal digests.turn begun.turns ≡ []) × (verify_clarifications digests begun ≡ [])
audits_clean_example = audits_clean digests begun begun_reached

-- A session that waits for the seal.
abbrev waiting : Session
waiting = record fresh { current_step = DesignStep.accept; produced_refs = "r1" ∷ [] }

seal_iff_example :
    (seal digests waiting "ada" clean_report [] true none (some "h") [] none
      ≡ ok (sealed_session digests waiting "ada" clean_report [] none (some "h") [] none))
    ↔ (MaySeal waiting "ada" clean_report true (some "h") []
        × (sealed_session digests waiting "ada" clean_report [] none (some "h") [] none
            ≡ sealed_session digests waiting "ada" clean_report [] none (some "h") [] none))
seal_iff_example =
    seal_iff digests waiting "ada" clean_report [] true none (some "h") [] none
      (sealed_session digests waiting "ada" clean_report [] none (some "h") [] none)
      (counted clean_report refl)

seals_waiting :
    seal digests waiting "ada" clean_report [] true none (some "h") [] none
    ≡ ok (sealed_session digests waiting "ada" clean_report [] none (some "h") [] none)
unfolding evaluate_consistency seal new_session or_scope closures
seals_waiting = refl
