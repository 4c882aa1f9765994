-- ===== src/Governance/Approvals/Refusals.antt =====
-- The answers of `decide` of tm/governance/hitl.py.
use trace_mind.Prelude.{
  ℕ, Bool, true, false, ◌≡◌, refl, sym, ◌∙◌, ap, subst, ◌↔◌, inl, inr, Option, none, some, String,
  ◌==◌, nat_HasEq, text_HasEq, lookup, arith, Bool-cases, Option-cases, has_key, has_key-without,
  ◌≢◌, eq_refl, eq_iff_at, ltb, List, [], ◌∷◌, ◌⊎◌, ◌<◌, ◌≤◌, ◌+◌, ◌||◌, any, if◌then◌else◌,
}
use trace_mind.Prelude.Text.{lower_is, strip}
use trace_mind.Governance.Approvals.{
  ApprovalDecision, ApprovalRecord, StoreEntry, HitlManager, Answer, answer, refused, Refusal,
  disabled, queue_full, unknown_approval, unsupported_decision, approval_expired, approve, deny,
  normalize_decision, has_expired, decision_value,
}
use trace_mind.Governance.Approvals.Manager.{sync_store, settle, decide, append_store}

-- The words that approve and those that deny, and whether a decision is one of some words, whatever
-- its case and the white space around it.
abbrev pub approvals : List String
approvals = "approve" ∷ "approved" ∷ "ok" ∷ "yes" ∷ []

abbrev pub denials : List String
denials = "deny" ∷ "denied" ∷ "reject" ∷ "rejected" ∷ "no" ∷ []

abbrev pub says : List String → String → Bool
says words decision = any (lower_is (strip decision)) words

normalize_decision-says :
    (decision : String)
    → normalize_decision decision ≡ (
        if says approvals decision
        then some approve
        else if says denials decision
        then some deny
        else none)
unfolding normalize_decision
normalize_decision-says decision = ground arith

some_inj : {c d : ApprovalDecision} → some c ≡ some d → c ≡ d
some_inj h = cc

module _ {P : Type 0} where
  -- The time of a request is over: it has a limit, which is reached.
  abbrev pub IsOver : ℕ → ApprovalRecord P → Type 0
  IsOver now r = (0 < r.ttl_ms) × (r.created_at + r.ttl_ms ≤ now)

  -- Why a decision on an approval is refused, where `found` is what memory has of it.
  abbrev pub Refuses : ℕ → String → Option (ApprovalRecord P) → Refusal → Type 0
  Refuses now decision found unknown_approval = found ≡ none
  Refuses now decision found unsupported_decision =
      (r : ApprovalRecord P) × (found ≡ some r)
      × (r.status ≡ "pending")
      × (says approvals decision ≡ false)
      × (says denials decision ≡ false)
  Refuses now decision found approval_expired =
      (r : ApprovalRecord P) × (found ≡ some r)
      × (r.status ≡ "pending")
      × IsOver now r
      × ((says approvals decision || says denials decision) ≡ true)
  Refuses now decision found disabled = ⊥
  Refuses now decision found queue_full = ⊥

  -- Why `settle` refuses, in its own tests.
  abbrev Declines : ℕ → String → Option (ApprovalRecord P) → Refusal → Type 0
  Declines now decision found unknown_approval = found ≡ none
  Declines now decision found unsupported_decision =
      (r : ApprovalRecord P) × (found ≡ some r)
      × ((r.status == "pending") ≡ true)
      × (normalize_decision decision ≡ none)
  Declines now decision found approval_expired =
      (r : ApprovalRecord P) × (found ≡ some r)
      × (has_expired now r ≡ true)
      × ((normalize_decision decision ≡ none) → ⊥)
  Declines now decision found disabled = ⊥
  Declines now decision found queue_full = ⊥

  refused_inj :
      {e f : Refusal} → ◌≡◌ {A = Answer (ApprovalRecord P)} (refused e) (refused f) → e ≡ f
  refused_inj h = cc

  has_expired-open :
      (now : ℕ) (r : ApprovalRecord P) → has_expired now r ≡ true → (r.status == "pending") ≡ true
  has_expired-open now r h = ground (arith, h)

  refusal_reason :
      (now : ℕ) (i decision actor : String) (remark : Option String) (s : HitlManager P)
      (e : Refusal)
      → (settle now i decision actor remark s).0 ≡ refused e
      → Declines now decision (lookup i s.pending) e
  unfolding settle
  refusal_reason now i decision actor remark s e = elim (Option-cases (lookup i s.pending)) [
    | inl unknown ↦
        rw (unknown, settle) (λ h. subst (Declines now decision none) (refused_inj h) refl)
    | inr (r, found) ↦
        rw (found, settle)
          (elim (Bool-cases (r.status == "pending")) [
            | inr settled ↦ rw settled (λ h. cc)
            | inl is_open ↦ rw is_open (elim (Option-cases (normalize_decision decision)) [
              | inl unsupported ↦ rw unsupported (λ h.
                  subst (Declines now decision (some r)) (refused_inj h)
                    (r, refl, is_open, unsupported))
              | inr (d, supported) ↦ rw supported (elim (Bool-cases (has_expired now r)) [
                | inl over ↦ rw over (λ h.
                    subst (Declines now decision (some r)) (refused_inj h)
                      (r, refl, over, λ no. cc))
                | inr in_time ↦ rw in_time (λ h. cc)
              ])
            ])
          ])
  ]

  reason-Declines :
      (now : ℕ) (i decision actor : String) (remark : Option String) (s : HitlManager P)
      (e : Refusal)
      → Declines now decision (lookup i s.pending) e
      → (settle now i decision actor remark s).0 ≡ refused e
  unfolding settle
  reason-Declines now i decision actor remark s unknown_approval h = rw (h, settle) refl
  reason-Declines now i decision actor remark s unsupported_decision (r, found, is_open, bad) =
      rw (found, settle) (rw is_open (rw bad refl))
  reason-Declines now i decision actor remark s approval_expired (r, found, over, supported) =
      elim (Option-cases (normalize_decision decision)) [
        | inl bad ↦ absurd (supported bad)
        | inr (d, good) ↦
            rw (found, settle) (rw (has_expired-open now r over) (rw good (rw over refl)))
      ]
  reason-Declines now i decision actor remark s disabled h = absurd h
  reason-Declines now i decision actor remark s queue_full h = absurd h

  Declines-Refuses :
      (now : ℕ) (decision : String) (found : Option (ApprovalRecord P)) (e : Refusal)
      → Declines now decision found e ↔ Refuses now decision found e
  Declines-Refuses now decision found unknown_approval = (λ h. h, λ h. h)
  Declines-Refuses now decision found unsupported_decision =
      let word = normalize_decision-says decision in
      (
        λ (r, at, is_open, bad).
            (r, at, (eq_iff_at r.status "pending").0 is_open, ground arith, ground arith),
        λ (r, at, is_open, no_yes, no_no).
            (r, at, (eq_iff_at r.status "pending").1 is_open, ground arith),
      )
  Declines-Refuses now decision found approval_expired =
      let word = normalize_decision-says decision in
      (
        λ (r, at, over, good).
            let is_open = (eq_iff_at r.status "pending").0 (has_expired-open now r over) in
            (
              r,
              at,
              is_open,
              (ground arith, ground arith),
              elim (Bool-cases (says approvals decision || says denials decision)) [
                | inl known ↦ known
                | inr unknown ↦ absurd (good (ground arith))
              ],
            ),
        λ (r, at, is_open, (limited, late), known).
            let still = (eq_iff_at r.status "pending").1 is_open in
            (r, at, ground arith, λ none_of. ground arith),
      )
  Declines-Refuses now decision found disabled = (λ h. h, λ h. h)
  Declines-Refuses now decision found queue_full = (λ h. h, λ h. h)

  sync_store-store : (s : HitlManager P) → (sync_store s).store ≡ s.store
  unfolding sync_store
  sync_store-store s = elim (Bool-cases s.config.persistent) [
    | inl stored ↦ simp stored refl
    | inr unstored ↦ simp unstored refl
  ]

  settle-store :
      (now : ℕ) (i decision actor : String) (remark : Option String) (s : HitlManager P)
      (e : Refusal)
      → (settle now i decision actor remark s).0 ≡ refused e
      → (settle now i decision actor remark s).1.store ≡ s.store
  unfolding settle
  settle-store now i decision actor remark s e = elim (Option-cases (lookup i s.pending)) [
    | inl unknown ↦ rw (unknown, settle) (λ h. refl)
    | inr (r, found) ↦
        rw (found, settle)
          (elim (Bool-cases (r.status == "pending")) [
            | inr settled ↦ rw settled (λ h. cc)
            | inl is_open ↦ rw is_open (elim (Option-cases (normalize_decision decision)) [
              | inl unsupported ↦ rw unsupported (λ h. refl)
              | inr (d, supported) ↦ rw supported (elim (Bool-cases (has_expired now r)) [
                | inl over ↦ rw over (λ h. refl)
                | inr in_time ↦ rw in_time (λ h. cc)
              ])
            ])
          ])
  ]

  -- A decision is refused as unknown just if the approval is not in memory after the store is read;
  -- as unsupported just if it is open and the word, without white space around it and in small
  -- letters, is none of those that approve or deny; as expired just if it is open, has a time limit
  -- that is reached, and the word approves or denies; and for no other reason. A refusal writes
  -- nothing to the store.
  pub decide-Refuses_iff :
      (now : ℕ) (i decision actor : String) (remark : Option String) (s : HitlManager P)
      (e : Refusal)
      → (((decide now i decision actor remark s).0 ≡ refused e)
          ↔ Refuses now decision (lookup i (sync_store s).pending) e)
        × ((decide now i decision actor remark s).0 ≡ refused e
            → (decide now i decision actor remark s).1.store ≡ s.store)
  unfolding decide
  decide-Refuses_iff now i decision actor remark s e =
      let reasons = Declines-Refuses now decision (lookup i (sync_store s).pending) e in
      (
        (
          λ h. reasons.0 (refusal_reason now i decision actor remark (sync_store s) e h),
          λ h. reason-Declines now i decision actor remark (sync_store s) e (reasons.1 h),
        ),
        λ h. settle-store now i decision actor remark (sync_store s) e h ∙ sync_store-store s,
      )

  append_store-pending :
      (e : StoreEntry P) (s : HitlManager P) → (append_store e s).pending ≡ s.pending
  unfolding append_store
  append_store-pending e s = elim (Bool-cases s.config.persistent) [
    | inl stored ↦ simp stored refl
    | inr unstored ↦ simp unstored refl
  ]

  answer_inj : {r r' : ApprovalRecord P} → answer r ≡ answer r' → r ≡ r'
  answer_inj h = cc

  settle_in_time :
      (now : ℕ) (i decision actor : String) (remark : Option String) (s : HitlManager P)
      (r r' : ApprovalRecord P)
      → lookup i s.pending ≡ some r
      → (r.status == "pending") ≡ true
      → (settle now i decision actor remark s).0 ≡ answer r'
      → (has_expired now r ≡ false)
        × (normalize_decision decision ≢ none)
        × ((d : ApprovalDecision)
            → normalize_decision decision ≡ some d
            → r'.status ≡ decision_value d)
        × (has_key i (settle now i decision actor remark s).1.pending ≡ false)
  unfolding settle
  settle_in_time now i decision actor remark s r r' found is_open =
      rw (found, settle)
        (rw is_open (elim (Option-cases (normalize_decision decision)) [
          | inl bad ↦ rw bad (λ h. cc)
          | inr (d, good) ↦ rw good (elim (Bool-cases (has_expired now r)) [
            | inl over ↦ rw over (λ h. cc)
            | inr in_time ↦ rw in_time (λ h. (
              ground (arith, in_time, is_open),
              λ no. cc,
              λ d' same.
                  ap (λ q. q.status) (sym (answer_inj h)) ∙ ap decision_value (some_inj same),
              rw append_store-pending (has_key-without i i s.pending ∙ rw (eq_refl i) refl),
            ))
          ])
        ]))

  -- A decision on an open approval that is answered came in time: the request has no time limit, or
  -- it is not reached. Either the word is one that approves and the answer has the status "approve",
  -- or it is one that denies and the answer has the status "deny"; the approval is no longer in
  -- memory.
  pub decide_in_time :
      (now : ℕ) (i decision actor : String) (remark : Option String) (s : HitlManager P)
      (r r' : ApprovalRecord P)
      → lookup i (sync_store s).pending ≡ some r
      → r.status ≡ "pending"
      → (decide now i decision actor remark s).0 ≡ answer r'
      → ((r.ttl_ms ≡ 0) ⊎ (now < r.created_at + r.ttl_ms))
        × (((says approvals decision ≡ true) × (r'.status ≡ "approve"))
            ⊎ ((says denials decision ≡ true) × (r'.status ≡ "deny")))
        × (has_key i (decide now i decision actor remark s).1.pending ≡ false)
  unfolding decide
  decide_in_time now i decision actor remark s r r' found is_open answered =
      let still = (eq_iff_at r.status "pending").1 is_open in
      let word = normalize_decision-says decision in
      let (in_time, known, status, gone) =
        settle_in_time now i decision actor remark (sync_store s) r r' found still answered in
      (
        elim (Bool-cases (ltb 0 r.ttl_ms)) [
          | inl limited ↦ inr (ground arith)
          | inr unlimited ↦ inl (ground arith)
        ],
        elim (Bool-cases (says approvals decision)) [
          | inl yes_said ↦ inl (yes_said, status approve (rw yes_said at word))
          | inr no_yes ↦ elim (Bool-cases (says denials decision)) [
            | inl no_said ↦ inr (no_said, status deny (rw (no_yes, no_said) at word))
            | inr no_no ↦ absurd (known (rw (no_yes, no_no) at word))
          ]
        ],
        gone,
      )
