-- ===== src/Intent/Gate.antt =====
-- tm/intent/consistency_gate.py: the hard checks before a session is sealed. The texts of the
-- details are left out: a check is its name and whether it passed.
use trace_mind.Prelude.{
  ℕ, ◌≡◌, refl, Bool, true, false, not, ◌||◌, Option, none, some, String, arith, List, [], ◌∷◌,
  if◌then◌else◌, ◌==◌, nat_HasEq, text_HasEq, contains, contains-keep, eq_iff_at, keep, is_empty,
  ◌↔◌, ◌⊎◌, ◌≢◌, inl, inr, Bool-cases,
}

-- What the gate and the session read of a completeness report: summary.errors, none where there is
-- no such number, `profile`, and whether `sealed` is True.
pub record Report : Type 0 where
  pub errors : Option ℕ
  pub profile : String
  pub sealed : Bool

pub data CheckName : Type 0 where
  completeness no_contradiction no_exact_duplicate : CheckName

pub record GateCheck : Type 0 where
  pub name : CheckName
  pub passed : Bool

pub record GateReport : Type 0 where
  pub passed : Bool
  pub hard_checks : List GateCheck
  pub soft_warnings : List String
  pub completeness_profile : Option String
  pub blocking_reasons : List CheckName

-- A missing count reads as 0 here.
unfoldable pub completeness_check : Option Report → GateCheck
completeness_check none = record { name = completeness; passed = false }
completeness_check (some r) = record {
  name = completeness;
  passed = elim r.errors [ none ↦ true | some n ↦ n == 0 ];
}

unfoldable pub no_contradiction_check : Option Bool → Bool → GateCheck
no_contradiction_check (some b) require_verify = record { name = no_contradiction; passed = b }
no_contradiction_check none require_verify = record {
  name = no_contradiction;
  passed = not require_verify;
}

-- `none` and the empty text skip the check.
unfoldable pub no_exact_duplicate_check : Option String → List String → GateCheck
no_exact_duplicate_check none existing = record { name = no_exact_duplicate; passed = true }
no_exact_duplicate_check (some h) existing = record {
  name = no_exact_duplicate;
  passed = h == "" || not (contains (keep (λ k. not (k == "")) existing) h);
}

abbrev failed_names : List GateCheck → List CheckName
failed_names [] = []
failed_names (c ∷ cs) = if c.passed then failed_names cs else c.name ∷ failed_names cs

unfoldable pub evaluate_consistency :
    Option Report
    → Option String
    → Option Bool
    → Bool
    → Option String
    → List String
    → List String
    → GateReport
unfolding completeness_check no_contradiction_check no_exact_duplicate_check
evaluate_consistency report profile verify_passed require_verify hash existing warnings =
    let hard =
      completeness_check report
      ∷ no_contradiction_check verify_passed require_verify
      ∷ no_exact_duplicate_check hash existing
      ∷ [] in
    let blocking = failed_names hard in
    let of_report : Option String = elim report [ none ↦ none | some r ↦ some r.profile ] in
    record {
      passed = is_empty blocking;
      hard_checks = hard;
      soft_warnings = warnings;
      completeness_profile = elim profile [
        | none ↦ of_report
        | some p ↦ if p == "" then of_report else some p
      ];
      blocking_reasons = blocking;
    }

completeness_iff :
    (report : Option Report)
    → ((completeness_check report).passed ≡ true)
      ↔ ((r : Report) × (report ≡ some r) × ((r.errors ≡ none) ⊎ (r.errors ≡ some 0)))
unfolding completeness_check
completeness_iff none = (λ h. absurd (cc), λ (r, e, _). absurd (cc))
completeness_iff (some r) = (
  λ h. (r, refl, ground arith),
  λ (r', e, n). let same : r ≡ r' = ground arith in rw same (ground arith),
)

contradiction_iff :
    (v : Option Bool) (required : Bool)
    → ((no_contradiction_check v required).passed ≡ true)
      ↔ ((v ≡ some true) ⊎ ((v ≡ none) × (required ≡ false)))
unfolding no_contradiction_check
contradiction_iff v required = (λ h. ground arith, λ h. ground arith)

duplicate_iff :
    (hash : Option String) (existing : List String)
    → ((no_exact_duplicate_check hash existing).passed ≡ true)
      ↔ ((h : String) → hash ≡ some h → (h ≡ "") ⊎ (contains existing h ≡ false))
unfolding no_exact_duplicate_check
duplicate_iff none existing = (λ _ h e. absurd (cc), λ _. refl)
duplicate_iff (some k) existing =
    let kept = contains-keep (λ j. not (j == "")) existing k in
    (
      λ p h e.
          let same : k ≡ h = ground arith in
          rw (← same) (elim (Bool-cases (k == "")) [
            | inl empty ↦ inl ((eq_iff_at k "").0 empty)
            | inr full ↦ inr (ground (arith, kept))
          ]),
      λ all_fresh. elim (all_fresh k refl) [
        | inl empty ↦ ground (arith, eq_iff_at k "")
        | inr fresh ↦ ground (arith, kept)
      ],
    )

pub evaluate_consistency_lem :
    (report : Option Report) (profile : Option String) (verify_passed : Option Bool)
    (require_verify : Bool) (hash : Option String) (existing warnings : List String)
    → ((evaluate_consistency report profile verify_passed require_verify hash existing
          warnings).passed
        ≡ true)
      ↔ (((r : Report) × (report ≡ some r) × ((r.errors ≡ none) ⊎ (r.errors ≡ some 0)))
          × ((verify_passed ≡ some true) ⊎ ((verify_passed ≡ none) × (require_verify ≡ false)))
          × ((h : String) → hash ≡ some h → (h ≡ "") ⊎ (contains existing h ≡ false)))
unfolding evaluate_consistency
evaluate_consistency_lem report profile verify_passed require_verify hash existing warnings = (
  λ h. (
    (completeness_iff report).0 (ground arith),
    (contradiction_iff verify_passed require_verify).0 (ground arith),
    (duplicate_iff hash existing).0 (ground arith),
  ),
  λ (r, c, d).
      let r' = (completeness_iff report).1 r in
      let c' = (contradiction_iff verify_passed require_verify).1 c in
      let d' = (duplicate_iff hash existing).1 d in ground arith,
)

-- Let the report, where there is one, have an error count. The gate passes exactly if there is a
-- report and its error count is zero, the verification passed or was not run and is not required,
-- and the hash of the candidate, if there is one that is not empty, is not among the existing hashes;
-- the warnings have no part in it.
pub evaluate_consistency_iff :
    (report : Option Report) (profile : Option String) (verify_passed : Option Bool)
    (require_verify : Bool) (hash : Option String) (existing warnings : List String)
    → ((r : Report) → report ≡ some r → r.errors ≢ none)
    → ((evaluate_consistency report profile verify_passed require_verify hash existing
          warnings).passed
        ≡ true)
      ↔ (((r : Report) × (report ≡ some r) × (r.errors ≡ some 0))
          × ((verify_passed ≡ some true) ⊎ ((verify_passed ≡ none) × (require_verify ≡ false)))
          × ((h : String) → hash ≡ some h → (h ≡ "") ⊎ (contains existing h ≡ false)))
evaluate_consistency_iff report profile verify_passed require_verify hash existing warnings
      counted =
    let cases =
      evaluate_consistency_lem report profile verify_passed require_verify hash existing warnings in
    (
      λ h.
          let ((r, there, n), c, d) = cases.0 h in
          (
            (
              r,
              there,
              elim n [ inl uncounted ↦ absurd (counted r there uncounted) | inr clean ↦ clean ],
            ),
            c,
            d,
          ),
      λ ((r, there, clean), c, d). cases.1 ((r, there, inr clean), c, d),
    )
