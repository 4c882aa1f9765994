-- ===== src/Intent/Session/Audit.antt =====
-- verify_clarifications of tm/intent/session.py.
use trace_mind.Prelude.{
  ℕ, suc, Bool, true, false, ◌&&◌, ◌||◌, Option, none, some, String, List, [], ◌∷◌, ◌++◌,
  if◌then◌else◌, ◌==◌, nat_HasEq, text_HasEq,
}
use trace_mind.Intent.DesignLoop.{TurnAction}
use trace_mind.Intent.Journal.{Turn}
use trace_mind.Intent.Session.State.{Recorded, Session}
use trace_mind.Intent.Session.Moves.{Digests}

abbrev pub is_clarify : TurnAction → Bool
is_clarify TurnAction.clarify = true
is_clarify _ = false

abbrev pub refers : Option String → String → Bool
refers none c = false
refers (some r) c = r == c

-- clar_id in clar_turn_refs
abbrev pub is_named : String → List Turn → Bool
is_named c [] = false
is_named c (t ∷ ts) = (is_clarify t.action && refers t.output_ref c) || is_named c ts

pub data ClarIssue : Type 0 where
  hash_mismatch not_linked : ℕ → ClarIssue

-- The loop of verify_clarifications, from record number i on.
unfoldable pub audit_from : Digests → List Turn → ℕ → List Recorded → List ClarIssue
audit_from digests turns i [] = []
audit_from digests turns i (r ∷ rs) =
    (if r.record_hash == digests.clarification r.record_of then [] else hash_mismatch i ∷ [])
    ++ ((if is_named r.record_of.clar_id turns then [] else not_linked i ∷ [])
        ++ audit_from digests turns (suc i) rs)

unfoldable pub verify_clarifications : Digests → Session → List ClarIssue
unfolding audit_from
verify_clarifications digests s = audit_from digests s.turns 0 s.clarifications
