-- ===== src/Intent/Session/Text.antt =====
-- The texts that tm/intent/session.py and tm/intent/clarify.py test and build.
use trace_mind.Prelude.{
  ℕ, Bool, Option, none, some, String, [], ◌∷◌, if◌then◌else◌, ◌==◌, nat_HasEq, text_HasEq,
  contains,
}
use trace_mind.Prelude.Text.{decimal}
use Prim.Native.String.{◌++◌ as text_append}

-- f"clar.{n}"
unfoldable pub clar_id : ℕ → String
unfolding decimal
clar_id n = text_append "clar." (decimal n)

-- `x or None` for a text
abbrev pub or_none : String → Option String
or_none s = if s == "" then none else some s

-- CLARIFY_DISPOSITIONS and disposition_requires_reason of tm/intent/clarify.py
unfoldable pub is_disposition : String → Bool
is_disposition d =
    contains ("confirmed_distinct" ∷ "merge" ∷ "supplement" ∷ "amend_constraint" ∷ []) d

unfoldable pub disposition_requires_reason : String → Bool
disposition_requires_reason d = d == "confirmed_distinct"
