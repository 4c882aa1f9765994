-- ===== src/Governance/Approvals/Replay.antt =====
-- Memory and store over the calls of an approval manager (tm/governance/hitl.py).
use trace_mind.Prelude.{
  ℕ, ◌≤◌, true, false, not, ◌&&◌, ◌≡◌, refl, sym, ◌∙◌, ap, subst, inl, inr, Option, none, some,
  String, List, [], ◌∷◌, ◌++◌, if◌then◌else◌, ◌==◌, nat_HasEq, text_HasEq, leb, Dict, lookup, put,
  without, lookup-put, lookup-without, eq_iff_at, arith, Bool-cases, Option-cases, keys, keep,
  length, contains, contains-keep, lookup-keys,
}
use trace_mind.Governance.Approvals.{
  ApprovalRecord, HitlConfig, StoreEntry, requested, decided, HitlManager, Request,
  normalize_decision, has_expired, entry_of, apply_entries, apply_store_entry,
}
use trace_mind.Prelude.Text.{or_else_text}
use trace_mind.Governance.Approvals.Manager.{
  new_manager, sync_store, append_store, request_record, submit, timed_out, decision_entry,
  file_request, settle, find_open, expire_all, decide, mark_expired, get_approval, has_expired_at,
  pop_all, pending_approvals,
}
use trace_mind.Governance.Approvals.Agreement.{
  Agree, stored, Agrees, apply_entries-append, request_record-stored, Agree-later, sync_store-same,
  Agree-over, Agree-gone, Agree-same, pop_all-lookup,
}

module _ {P : Type 0} where
  -- The sequences of calls of a manager alone on its store; t is the time of the last call.
  pub data Reaches (config : HitlConfig) : ℕ → HitlManager P → Type 0 where
    started : (store : List (StoreEntry P)) → Reaches config 0 (new_manager config store)
    submits :
        {t : ℕ} {s : HitlManager P} (now : ℕ) (approval_id : String) (q : Request P)
        → Reaches config t s
        → t ≤ now
        → Reaches config now (submit now approval_id q s).1
    decides :
        {t : ℕ} {s : HitlManager P} (now : ℕ) (approval_id decision actor : String)
        (remark : Option String)
        → Reaches config t s
        → t ≤ now
        → Reaches config now (decide now approval_id decision actor remark s).1
    gets :
        {t : ℕ} {s : HitlManager P} (now : ℕ) (approval_id : String)
        → Reaches config t s
        → t ≤ now
        → Reaches config now (get_approval now approval_id s).1
    lists :
        {t : ℕ} {s : HitlManager P} (now : ℕ)
        → Reaches config t s
        → t ≤ now
        → Reaches config now (pending_approvals now s).1

  module _ (config : HitlConfig) (on : config.persistent ≡ true) where
    later :
        {t : ℕ} {s : HitlManager P} (now : ℕ) → t ≤ now → Agrees config t s → Agrees config now s
    later now le a = record {
      same_config = a.same_config;
      all_read = a.all_read;
      agree = λ i. Agree-later now _ _ le (a.agree i);
    }

    -- Memory changes, and the store does not.
    in_memory :
        {t : ℕ} {s : HitlManager P} (now : ℕ) (d : Dict String (ApprovalRecord P))
        → Agrees config t s
        → ((i : String) → Agree now (lookup i d) (lookup i (apply_entries true [] s.store)))
        → Agrees config now (record s { pending = d })
    in_memory now d a agree = record {
      same_config = a.same_config;
      all_read = a.all_read;
      agree = agree;
    }

    -- Memory and the store change together.
    in_both :
        {t : ℕ} {s : HitlManager P} (now : ℕ) (d : Dict String (ApprovalRecord P))
        (e : StoreEntry P)
        → Agrees config t s
        → ((i : String)
            → Agree now
                (lookup i d)
                (lookup i (apply_store_entry true (apply_entries true [] s.store) e)))
        → Agrees config now (append_store e (record s { pending = d }))
    unfolding append_store
    in_both {s = s} now d e a agree =
        let both = record s {
          pending = d;
          store = s.store ++ (e ∷ []);
          store_offset = length (s.store ++ (e ∷ []));
        } in
        let done : Agrees config now both = record {
          same_config = a.same_config;
          all_read = refl;
          agree = λ i. rw (apply_entries-append [] s.store e) (agree i);
        } in
        simp (ap (λ c. c.persistent) a.same_config ∙ on) done

    synced : {t : ℕ} {s : HitlManager P} → Agrees config t s → sync_store s ≡ s
    synced {s = s} a = sync_store-same config s on a.same_config a.all_read

    -- An open approval that is over is marked as timed out in memory.
    marked :
        {t : ℕ} {s : HitlManager P} (now : ℕ) (i : String) (r r' : ApprovalRecord P)
        → Agrees config t s
        → t ≤ now
        → lookup i s.pending ≡ some r
        → has_expired now r ≡ true
        → r'.status ≡ "timeout"
        → Agrees config now (record s { pending = put i r' s.pending })
    marked {s = s} now i r r' a le found over is_marked = in_memory now (put i r' s.pending) a (λ j.
        simp lookup-put (elim (Bool-cases (i == j)) [
          | inl here ↦
              let same = (eq_iff_at i j).0 here in
              simp here (
                Agree-over now r r' _ over is_marked (
                  subst (λ k. Agree now (some r) (lookup k (apply_entries true [] s.store))) same
                    (subst (λ o. Agree now o (lookup i (apply_entries true [] s.store))) found
                      ((later now le a).agree i))))
          | inr other ↦ simp other ((later now le a).agree j)
        ]))

    file_request-Agrees :
        {t : ℕ} {s : HitlManager P} (now : ℕ) (i : String) (q : Request P)
        → t ≤ now
        → Agrees config t s
        → Agrees config now (file_request now i q s).1
    unfolding file_request apply_store_entry
    file_request-Agrees {s = s} now i q le a =
        elim (Bool-cases
          (not (s.config.queue_size == 0) && leb s.config.queue_size (length s.pending))) [
            | inl full ↦ simp full (later now le a)
            | inr room ↦
                let r = request_record now i s.config q in
                simp room (
                  in_both now (put i r s.pending) (requested (entry_of r)) a (λ j.
                    simp (lookup-put, request_record-stored)
                      (elim (Bool-cases (i == j)) [
                        | inl here ↦ simp here (inl refl)
                        | inr other ↦ simp other ((later now le a).agree j)
                      ])))
          ]

    settle-Agrees :
        {t : ℕ} {s : HitlManager P} (now : ℕ) (i decision actor : String) (remark : Option String)
        → t ≤ now
        → Agrees config t s
        → Agrees config now (settle now i decision actor remark s).1
    unfolding settle apply_store_entry
    settle-Agrees {s = s} now i decision actor remark le a =
        elim (Option-cases (lookup i s.pending)) [
          | inl unknown ↦ rw (unknown, settle) (later now le a)
          | inr (r, found) ↦
              rw (found, settle)
                (elim (Bool-cases (not (r.status == "pending"))) [
                  | inl settled ↦ rw settled (later now le a)
                  | inr is_open ↦ rw is_open (elim (Option-cases (normalize_decision decision)) [
                    | inl unsupported ↦ rw unsupported (later now le a)
                    | inr (d, supported) ↦ rw supported (elim (Bool-cases (has_expired now r)) [
                      | inl over ↦ rw over (
                          marked now i r (timed_out now (or_else_text actor "system") remark r) a le
                            found over refl)
                      | inr in_time ↦ rw in_time (
                          in_both now (without i s.pending)
                            (decided (decision_entry now i d actor remark)) a
                            (λ j. simp lookup-without (elim (Bool-cases (i == j)) [
                              | inl here ↦ simp here tt
                              | inr other ↦ simp other ((later now le a).agree j)
                            ])))
                    ])
                  ])
                ])
        ]

    find_open-Agrees :
        {t : ℕ} {s : HitlManager P} (now : ℕ) (i : String)
        → t ≤ now
        → Agrees config t s
        → Agrees config now (find_open now i s).1
    unfolding find_open
    find_open-Agrees {s = s} now i le a = elim (Option-cases (lookup i s.pending)) [
      | inl unknown ↦ rw (unknown, find_open) (later now le a)
      | inr (r, found) ↦
          rw (found, find_open)
            (elim (Bool-cases (has_expired now r)) [
              | inl over ↦ rw over (marked now i r (mark_expired now r) a le found over refl)
              | inr in_time ↦ rw in_time (later now le a)
            ])
    ]

    expired_or_same :
        (now : ℕ) (s : HitlManager P) (j : String)
        → Agree now (lookup j s.pending) (lookup j (apply_entries true [] s.store))
        → Agree now
            (if contains (keys s.pending) j && has_expired_at now s.pending j
              then none
              else lookup j s.pending)
            (lookup j (apply_entries true [] s.store))
    expired_or_same now s j agree = elim (Option-cases (lookup j s.pending)) [
      | inl unknown ↦
          let off : (contains (keys s.pending) j && has_expired_at now s.pending j) ≡ false =
            ground (arith, unknown) in
          simp off agree
      | inr (r, found) ↦
          let here = lookup-keys s.pending j r found in
          let at : has_expired_at now s.pending j ≡ has_expired now r =
            rw (found, has_expired_at) refl in
          let agree' =
            subst (λ o. Agree now o (lookup j (apply_entries true [] s.store))) found agree in
          elim (Bool-cases (has_expired now r)) [
            | inl over ↦ simp (here, at ∙ over) (Agree-gone now r _ over agree')
            | inr in_time ↦ simp (here, at ∙ in_time) agree
          ]
    ]

    expire_all-Agrees :
        {t : ℕ} {s : HitlManager P} (now : ℕ)
        → t ≤ now
        → Agrees config t s
        → Agrees config now (expire_all now s).1
    unfolding expire_all
    expire_all-Agrees {s = s} now le a =
        let over = keep (has_expired_at now s.pending) (keys s.pending) in
        in_memory now (pop_all over s.pending) a (λ j.
          simp (pop_all-lookup, contains-keep) (expired_or_same now s j ((later now le a).agree j)))

    Reaches-Agrees : {t : ℕ} {s : HitlManager P} → Reaches config t s → Agrees config t s
    unfolding new_manager submit decide get_approval pending_approvals
    Reaches-Agrees (started store) =
        let fresh : HitlManager P = record {
          config = config;
          pending = apply_entries true [] store;
          store_offset = length store;
          store = store;
        } in
        let a : Agrees config 0 fresh = record {
          same_config = refl;
          all_read = refl;
          agree = λ i. Agree-same 0 _;
        } in
        simp on a
    Reaches-Agrees (submits {s = s} now i q r le) =
        let a = Reaches-Agrees r in
        elim (Bool-cases s.config.enabled) [
          | inr off ↦ simp off (later now le a)
          | inl enabled ↦ simp enabled (
              subst (λ u. Agrees config now (file_request now i q u).1) (sym (synced a))
                (file_request-Agrees now i q le a))
        ]
    Reaches-Agrees (decides now i decision actor remark r le) =
        let a = Reaches-Agrees r in
        subst (λ u. Agrees config now (settle now i decision actor remark u).1) (sym (synced a))
          (settle-Agrees now i decision actor remark le a)
    Reaches-Agrees (gets now i r le) =
        let a = Reaches-Agrees r in
        subst (λ u. Agrees config now (find_open now i u).1) (sym (synced a))
          (find_open-Agrees now i le a)
    Reaches-Agrees (lists now r le) =
        let a = Reaches-Agrees r in
        subst (λ u. Agrees config now (expire_all now u).1) (sym (synced a))
          (expire_all-Agrees now le a)

    -- After any sequence of calls, what the manager has in memory of an approval is what a manager
    -- started on the store then has of it; only an approval that timed out may be marked so, or be
    -- gone, while the store still lists it. The manager is persistent and alone on its store, the
    -- clock does not go back.
    pub Reaches-Agree :
        {t : ℕ} {s : HitlManager P}
        → Reaches config t s
        → (i : String) → Agree t (lookup i s.pending) (lookup i (stored s))
    unfolding new_manager
    Reaches-Agree {t = t} {s = s} r i =
        let a = Reaches-Agrees r in simp (ap (λ c. c.persistent) a.same_config ∙ on) (a.agree i)
