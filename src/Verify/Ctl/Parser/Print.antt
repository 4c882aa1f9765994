-- ===== src/Verify/Ctl/Parser/Print.antt =====
-- A printer of formulas into tokens, with brackets only where precedence asks for them.
use trace_mind.Prelude.{
  true, false, ◌≡◌, ◌||◌, none, some, String, List, [], ◌∷◌, ◌++◌, ◌==◌, text_HasEq,
}
use trace_mind.Prelude.Text.{lower_is, strip, join}
use trace_mind.Verify.Ctl.Syntax.{
  Op, ex, ef, eg, af, ag, UntilOp, eu, au, Predicate, Expr, predicate, neg, conj, disj, ctl, until,
}
use trace_mind.Verify.Ctl.Parser.{op_of, until_of}

abbrev pub op_name : Op → String
op_name ex = "EX"
op_name ef = "EF"
op_name eg = "EG"
op_name af = "AF"
op_name ag = "AG"

abbrev pub until_name : UntilOp → String
until_name eu = "EU"
until_name au = "AU"

abbrev pub in_brackets : List String → List String
in_brackets ts = "(" ∷ (ts ++ (")" ∷ []))

-- What a position takes without brackets: anything, no `||` at the top, or no `&&` either.
pub data Level : Type 0 where
  whole factor atom : Level

abbrev pub print_predicate : Predicate → List String
print_predicate p = elim p.value [ none ↦ p.name ∷ [] | some v ↦ p.name ∷ in_brackets (v ∷ []) ]

abbrev pub print : Level → Expr → List String
print l (predicate p) = print_predicate p
print l (neg e) = "!" ∷ print atom e
print whole (disj e f) = print whole e ++ ("||" ∷ print factor f)
print factor (disj e f) = in_brackets (print whole e ++ ("||" ∷ print factor f))
print atom (disj e f) = in_brackets (print whole e ++ ("||" ∷ print factor f))
print whole (conj e f) = print factor e ++ ("&&" ∷ print atom f)
print factor (conj e f) = print factor e ++ ("&&" ∷ print atom f)
print atom (conj e f) = in_brackets (print factor e ++ ("&&" ∷ print atom f))
print l (ctl op e) = op_name op ∷ print atom e
print l (until op e f) = until_name op ∷ in_brackets (print whole e ++ ("," ∷ print whole f))

-- A name that begins nothing but a predicate.
pub record IsName (t : String) : Type 0 where
  pub not_neg : (t == "!" || t == "NOT") ≡ false
  pub not_op : op_of t ≡ none
  pub not_until : until_of t ≡ none
  pub not_bracket : (t == "(") ≡ false
  pub not_peer : lower_is t "peer" ≡ false

-- "Terminal" is spelled so and has no value; a value is one token, without white space around it.
abbrev pub CanPrint : Predicate → Type 0
CanPrint p =
    IsName p.name
    × (lower_is p.name "terminal" ≡ true → p ≡ record { name = "Terminal"; value = none })
    × ((v : String)
        → p.value ≡ some v
        → (strip (join (v ∷ [])) ≡ v) × ((v == "") ≡ false) × ((v == ")") ≡ false))

abbrev pub AllPrint : Expr → Type 0
AllPrint (predicate p) = CanPrint p
AllPrint (neg e) = AllPrint e
AllPrint (conj e f) = AllPrint e × AllPrint f
AllPrint (disj e f) = AllPrint e × AllPrint f
AllPrint (ctl op e) = AllPrint e
AllPrint (until op e f) = AllPrint e × AllPrint f
