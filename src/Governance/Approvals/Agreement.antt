-- ===== src/Governance/Approvals/Agreement.antt =====
-- What memory has of an approval against what the store has of it.
use trace_mind.Prelude.{
  ℕ, ◌+◌, ◌≤◌, ◌<◌, true, ◌≡◌, refl, sym, ◌∙◌, ap, subst, ◌⊎◌, inl, inr, Option, none, some, String,
  List, [], ◌∷◌, ◌++◌, if◌then◌else◌, nat_HasEq, text_HasEq, Dict, lookup, without, lookup-without,
  eq_iff_at, arith, Bool-cases, drop, drop-length, keep-keep, length, contains,
}
use trace_mind.Governance.Approvals.{
  decision_value, ApprovalRecord, HitlConfig, StoreEntry, HitlManager, Request, default_of,
  is_nonempty, has_expired, entry_of, record_from, apply_entries, apply_store_entry,
}
use trace_mind.Prelude.Text.{lower_is}
use trace_mind.Governance.Approvals.Manager.{new_manager, sync_store, request_record, pop_all}

default_of-value : (text : String) → default_of (decision_value (default_of text)) ≡ default_of text
default_of-value text = elim (Bool-cases (lower_is text "approve")) [
  | inl granted ↦ rw granted refl
  | inr not_granted ↦ rw not_granted refl
]

module _ {P : Type 0} where
  -- The time of a request was over at t.
  abbrev pub Lapsed : ℕ → ApprovalRecord P → Type 0
  Lapsed t r = (0 < r.ttl_ms) × (r.created_at + r.ttl_ms ≤ t)

  -- What memory has of an approval at t, and what the store has: the same, or in memory it has
  -- timed out, of which the store says nothing.
  abbrev pub Agree : ℕ → Option (ApprovalRecord P) → Option (ApprovalRecord P) → Type 0
  Agree t none none = Unit
  Agree t none (some q) = Lapsed t q
  Agree t (some r) none = ⊥
  Agree t (some r) (some q) = (r ≡ q) ⊎ ((r.status ≡ "timeout") × Lapsed t q)

  -- What a manager that is started on the store has in memory.
  abbrev pub stored : HitlManager P → Dict String (ApprovalRecord P)
  stored s = (new_manager s.config s.store).pending

  pub record Agrees (config : HitlConfig) (t : ℕ) (s : HitlManager P) : Type 0 where
    pub same_config : s.config ≡ config
    pub all_read : s.store_offset ≡ length s.store
    pub agree :
        (i : String) → Agree t (lookup i s.pending) (lookup i (apply_entries true [] s.store))

  pub apply_entries-append :
      (d : Dict String (ApprovalRecord P)) (es : List (StoreEntry P)) (e : StoreEntry P)
      → apply_entries true d (es ++ (e ∷ [])) ≡ apply_store_entry true (apply_entries true d es) e
  unfolding apply_entries
  apply_entries-append d [] e = refl
  apply_entries-append d (x ∷ es) e = apply_entries-append (apply_store_entry true d x) es e

  -- A request is read from the store as it was submitted.
  pub request_record-stored :
      (now : ℕ) (i : String) (config : HitlConfig) (q : Request P)
      → record_from (entry_of (request_record now i config q)) ≡ request_record now i config q
  request_record-stored now i config q =
      rw (default_of-value q.default, keep-keep is_nonempty q.actors) refl

  pub Agree-later :
      {t : ℕ} (u : ℕ) (a b : Option (ApprovalRecord P)) → t ≤ u → Agree t a b → Agree u a b
  Agree-later u none none le h = tt
  Agree-later u none (some q) le h = (h.0, omega arith)
  Agree-later u (some r) none le h = h
  Agree-later u (some r) (some q) le h = elim h [
    | inl same ↦ inl same
    | inr (over, lapsed) ↦ inr (over, (lapsed.0, omega arith))
  ]

  pub sync_store-same :
      (config : HitlConfig) (s : HitlManager P)
      → config.persistent ≡ true
      → s.config ≡ config
      → s.store_offset ≡ length s.store
      → sync_store s ≡ s
  unfolding sync_store apply_entries
  sync_store-same config s on same read =
      let none_left = ap (λ n. drop n s.store) read ∙ drop-length s.store in
      rw (ap (λ c. c.persistent) same ∙ on, none_left, sym read) refl

  Lapsed-has_expired :
      (now : ℕ) (r : ApprovalRecord P)
      → has_expired now r ≡ true
      → Lapsed now r × (r.status ≡ "pending")
  Lapsed-has_expired now r h = (ground (arith, h), ground (arith, h, eq_iff_at r.status "pending"))

  -- An approval that memory marks as timed out.
  pub Agree-over :
      (now : ℕ) (r r' : ApprovalRecord P) (b : Option (ApprovalRecord P))
      → has_expired now r ≡ true
      → r'.status ≡ "timeout"
      → Agree now (some r) b
      → Agree now (some r') b
  Agree-over now r r' none over marked h = h
  Agree-over now r r' (some q) over marked h = elim h [
    | inl same ↦ inr (marked, subst (Lapsed now) same (Lapsed-has_expired now r over).0)
    | inr (was, lapsed) ↦ inr (marked, lapsed)
  ]

  pub Agree-gone :
      (now : ℕ) (r : ApprovalRecord P) (b : Option (ApprovalRecord P))
      → has_expired now r ≡ true
      → Agree now (some r) b
      → Agree now none b
  Agree-gone now r none over h = tt
  Agree-gone now r (some q) over h = elim h [
    | inl same ↦ subst (Lapsed now) same (Lapsed-has_expired now r over).0
    | inr (was, lapsed) ↦ lapsed
  ]

  pub Agree-same : (t : ℕ) (a : Option (ApprovalRecord P)) → Agree t a a
  Agree-same t none = tt
  Agree-same t (some r) = inl refl

  pub pop_all-lookup :
      (ids : List String) (d : Dict String (ApprovalRecord P)) (i : String)
      → lookup i (pop_all ids d) ≡ (if contains ids i then none else lookup i d)
  unfolding pop_all
  pop_all-lookup [] d i = refl
  pop_all-lookup (j ∷ ids) d i =
      rw (pop_all-lookup ids (without j d) i, lookup-without j i d) (ground arith)
