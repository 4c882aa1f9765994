-- ===== src/Intent/Session/Closed.antt =====
-- What the audits, the seal and the read-only guard of tm/intent/session.py come to.
use trace_mind.Prelude.{
  keep, contains, ◌⊎◌, ◌≢◌, inl, inr, Option-cases, ℕ, suc, ◌≡◌, refl, Bool, true, false, Option,
  none, some, String, arith, List, [], ◌∷◌, nat_HasEq, text_HasEq, Dict, ◌↔◌, sym, ap, ◌∙◌,
  eq_iff_at,
}
use trace_mind.Intent.DesignLoop.{
  DesignStep, SessionStatus, next_step, entry_gate_for, is_human_only,
}
use trace_mind.Intent.Journal.{Turn, verify_journal}
use trace_mind.Intent.Journal.Chain.{verify_journal_iff}
use trace_mind.Intent.Gate.{Report, GateReport, evaluate_consistency, evaluate_consistency_iff}
use trace_mind.Intent.Session.State.{
  DispositionKind, resolved, waived, dynamic, SignOff, SignOffCore, Recorded, Session, ok,
  is_working, satisfies,
}
use trace_mind.Prelude.Text.{is_blank}
use trace_mind.Intent.Session.Moves.{Digests, advance, advance_to, finish}
use trace_mind.Intent.Session.Audit.{audit_from, verify_clarifications}
use trace_mind.Intent.Session.Seal.{
  seal, seal_gate, closures, or_scope, sign_off_core, sign_off_of, leads_to_seal,
}
use trace_mind.Intent.Session.Effects.{advanced, entered, entered-advanced, working_iff}
use trace_mind.Intent.Session.Valid.{Accounted, Reaches}
use trace_mind.Intent.Session.Reach.{Reaches-IsValid}

audit_from-nil :
    (d : Digests) (turns : List Turn) (i : ℕ) (rs : List Recorded)
    → Accounted d turns rs
    → audit_from d turns i rs ≡ []
unfolding audit_from
audit_from-nil d turns i [] h = refl
audit_from-nil d turns i (r ∷ rs) (hash, named, rest) =
    let ih = audit_from-nil d turns (suc i) rs rest in
    ground (arith, eq_iff_at r.record_hash (d.clarification r.record_of))

-- Neither audit of a session that transitions reach from a new one finds anything: verify_journal
-- and verify_clarifications are both empty.
pub audits_clean :
    (d : Digests) (s : Session)
    → Reaches d s
    → (verify_journal d.turn s.turns ≡ []) × (verify_clarifications d s ≡ [])
unfolding verify_clarifications
audits_clean d s r =
    let v = Reaches-IsValid d s r in
    (
      (verify_journal_iff d.turn s.turns).1 v.linked,
      audit_from-nil d s.turns 0 s.clarifications v.accounted,
    )

-- What `seal` tests.
record Passes (s : Session) (signer : String) (report : Report) (gate : GateReport) : Type 0 where
  open_session : is_working s.status ≡ true
  human : is_blank signer ≡ false
  at_accept : s.current_step ≡ DesignStep.accept
  closed : report.sealed ≡ true
  passed : gate.passed ≡ true

-- What `seal` asks: of the session, of the signer, of the report of the 5W1H check in mode "seal", of
-- the verification, and of the hash of the candidate.
pub record MaySeal (s : Session) (signer : String) (report : Report) (verified : Bool)
    (hash : Option String) (existing : List String) : Type 0 where
  pub open_session : s.status ≡ SessionStatus.working
  pub human : is_blank signer ≡ false
  pub at_accept : s.current_step ≡ DesignStep.accept
  pub closed : report.sealed ≡ true
  pub complete : report.errors ≡ some 0
  pub proved : verified ≡ true
  pub new_hash : (h : String) → hash ≡ some h → (h ≡ "") ⊎ (contains existing h ≡ false)

leads_to_seal-accept :
    (step : DesignStep) → leads_to_seal (next_step step) ≡ true → step ≡ DesignStep.accept
unfolding next_step
leads_to_seal-accept DesignStep.accept h = refl
leads_to_seal-accept DesignStep.draft h = ground arith
leads_to_seal-accept DesignStep.check_5w1h h = ground arith
leads_to_seal-accept DesignStep.propose h = ground arith
leads_to_seal-accept DesignStep.refine h = ground arith
leads_to_seal-accept DesignStep.verify h = ground arith
leads_to_seal-accept DesignStep.sealed h = ground arith

ok_injective : {a b : Session} → ok a ≡ ok b → a ≡ b
ok_injective h = ground arith

abbrev pub is_residual : String × DispositionKind → Bool
is_residual (dim, resolved) = false
is_residual (dim, waived) = true
is_residual (dim, dynamic) = true

closures-keep : (d : Dict String DispositionKind) → closures d ≡ keep is_residual d
unfolding closures
closures-keep [] = refl
closures-keep ((dim, resolved) ∷ d) = closures-keep d
closures-keep ((dim, waived) ∷ d) = ap (λ l. (dim, waived) ∷ l) (closures-keep d)
closures-keep ((dim, dynamic) ∷ d) = ap (λ l. (dim, dynamic) ∷ l) (closures-keep d)

report_inj : {r q : Report} → some r ≡ some q → r ≡ q
report_inj h = cc

flag_inj : {b c : Bool} → some b ≡ some c → b ≡ c
flag_inj h = cc

module _ (d : Digests) (s : Session) (signer : String) (report : Report)
    (dispositions : Dict String DispositionKind) (scope : Option (List String))
    (hash : Option String) (existing : List String) (signed_at : Option String) where
  -- What is signed: the waived and the dynamic dispositions, the scope given or else what the session
  -- produced, and the hash of the report of the gate, asked with a passed verification.
  abbrev pub signed_core : SignOffCore
  signed_core = record {
    signer = signer;
    scope = elim scope [ none ↦ s.produced_refs | some refs ↦ refs ];
    completeness_snapshot = report;
    dispositions = keep is_residual dispositions;
    gate_report_hash = d.gate_report (
        evaluate_consistency (some report) (some report.profile) (some true) true hash existing []);
    signed_at = signed_at;
  }

  abbrev pub signed : SignOff
  signed = record {
    signer = signed_core.signer;
    scope = signed_core.scope;
    completeness_snapshot = signed_core.completeness_snapshot;
    dispositions = signed_core.dispositions;
    gate_report_hash = signed_core.gate_report_hash;
    signed_at = signed_core.signed_at;
    sign_hash = d.sign_off signed_core;
  }

  -- The session at the last step, sealed and signed, with one more turn.
  abbrev pub sealed_session : Session
  sealed_session = advanced d s "human" (some signed) none DesignStep.sealed

  sign_off_core-signed :
      sign_off_core d s signer report dispositions scope
        (seal_gate report true hash existing)
        signed_at
      ≡ signed_core
  unfolding sign_off_core or_scope seal_gate
  sign_off_core-signed = elim (Option-cases scope) [
    | inl whole ↦ simp (whole, closures-keep) refl
    | inr (refs, given) ↦ simp (given, closures-keep) refl
  ]

  sign_off_of-signed : sign_off_of d signed_core ≡ signed
  unfolding sign_off_of
  sign_off_of-signed = refl

  signed_by_seal :
      sign_off_of d (
        sign_off_core d s signer report dispositions scope
          (seal_gate report true hash existing)
          signed_at)
      ≡ signed
  signed_by_seal = ap (sign_off_of d) sign_off_core-signed ∙ sign_off_of-signed

  seal-eq :
      (verified : Bool)
      → Passes s signer report (seal_gate report verified hash existing)
      → seal d s signer report dispositions verified scope hash existing signed_at
        ≡ ok (
            entered d s "human"
              (some (
                sign_off_of d (
                  sign_off_core d s signer report dispositions scope
                    (seal_gate report verified hash existing)
                    signed_at)))
              none
              DesignStep.sealed)
  unfolding seal advance advance_to finish next_step entry_gate_for is_human_only satisfies
  seal-eq verified m = ground (arith, m.open_session, m.human, m.at_accept, m.closed, m.passed)

  seal-inv :
      (verified : Bool) (t : Session)
      → seal d s signer report dispositions verified scope hash existing signed_at ≡ ok t
      → Passes s signer report (seal_gate report verified hash existing)
  unfolding seal
  seal-inv verified t h =
      let at_accept : s.current_step ≡ DesignStep.accept =
        leads_to_seal-accept s.current_step (ground arith) in
      record {
        open_session = ground arith;
        human = ground arith;
        at_accept = at_accept;
        closed = ground arith;
        passed = ground arith;
      }

  seal_gate_iff :
      (verified : Bool)
      → report.errors ≢ none
      → ((seal_gate report verified hash existing).passed ≡ true) ↔ (
          (report.errors ≡ some 0)
          × (verified ≡ true)
          × ((h : String) → hash ≡ some h → (h ≡ "") ⊎ (contains existing h ≡ false)))
  unfolding seal_gate
  seal_gate_iff verified counted =
      let gate =
        evaluate_consistency_iff (some report) (some report.profile) (some verified) true hash
          existing []
          (λ r same uncounted.
            counted (ap (λ (q : Report). q.errors) (report_inj same) ∙ uncounted)) in
      (
        λ h.
            let ((r, same, clean), c, new) = gate.0 h in
            (
              ap (λ (q : Report). q.errors) (report_inj same) ∙ clean,
              elim c [ inl good ↦ flag_inj good | inr (bad, _) ↦ absurd (cc) ],
              new,
            ),
        λ (clean, good, new). gate.1 ((report, refl, clean), inl (ap some good), new),
      )

-- Let the report of the 5W1H check have an error count. `seal` succeeds exactly if the session is
-- working and at the accept step, the signer is not blank, the report counts every dimension as
-- closed and no error, the verification passed, and the hash of the candidate, if there is one that
-- is not empty, is not among those that exist. The session that results is at the last step and
-- sealed. Its sign-off has the signer, the scope given or else what the session produced, the report,
-- the waived and the dynamic dispositions, the hash of the gate's report, the time, and a hash of all
-- that. The session has one more turn, of the human, bound to the turn before; all else is as it was.
pub seal_iff :
    (d : Digests) (s : Session) (signer : String) (report : Report)
    (dispositions : Dict String DispositionKind) (verified : Bool) (scope : Option (List String))
    (hash : Option String) (existing : List String) (signed_at : Option String) (t : Session)
    → report.errors ≢ none
    → (seal d s signer report dispositions verified scope hash existing signed_at ≡ ok t) ↔ (
        MaySeal s signer report verified hash existing
        × (t ≡ sealed_session d s signer report dispositions scope hash existing signed_at))
seal_iff d s signer report dispositions verified scope hash existing signed_at t counted =
    let gate =
      seal_gate_iff d s signer report dispositions scope hash existing signed_at verified counted in
    let made : Bool → Session = λ v.
      entered d s "human"
        (some (
          sign_off_of d (
            sign_off_core d s signer report dispositions scope (seal_gate report v hash existing)
              signed_at)))
        none DesignStep.sealed in
    let last : made true
        ≡ sealed_session d s signer report dispositions scope hash existing signed_at =
      ap (λ so. entered d s "human" (some so) none DesignStep.sealed)
        (signed_by_seal d s signer report dispositions scope hash existing signed_at)
      ∙ entered-advanced d s "human"
          (some (signed d s signer report dispositions scope hash existing signed_at)) none
          DesignStep.sealed in
    (
      λ h.
          let p =
            seal-inv d s signer report dispositions scope hash existing signed_at verified t h in
          let (clean, good, new) = gate.0 p.passed in
          let eq =
            seal-eq d s signer report dispositions scope hash existing signed_at verified p in
          (
            record {
              open_session = (working_iff s.status).0 p.open_session;
              human = p.human;
              at_accept = p.at_accept;
              closed = p.closed;
              complete = clean;
              proved = good;
              new_hash = new;
            },
            ok_injective (sym h ∙ eq) ∙ ap made good ∙ last,
          ),
      λ (m, e).
          let p : Passes s signer report (seal_gate report verified hash existing) = record {
            open_session = (working_iff s.status).1 m.open_session;
            human = m.human;
            at_accept = m.at_accept;
            closed = m.closed;
            passed = gate.1 (m.complete, m.proved, m.new_hash);
          } in
          seal-eq d s signer report dispositions scope hash existing signed_at verified p
          ∙ ap ok (ap made m.proved ∙ last ∙ sym e),
    )
