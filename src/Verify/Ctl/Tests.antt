-- ===== src/Verify/Ctl/Tests.antt =====
-- Texts and trees of formulas.
use trace_mind.Prelude.{
  ◌≡◌, ◌≢◌, refl, some, none, [], ◌∷◌, List, String, subst, ◌==◌, text_HasEq, false,
}
use trace_mind.Verify.Ctl.Syntax.{Expr, af, eu, predicate, neg, conj, disj, ctl, until}
use trace_mind.Verify.Ctl.Parser.{
  parsed, fault, out_of_fuel, index_error, value_error, parse_expr, parse_tokens,
  parse_predicate_expr, parse_predicate, operands,
}
use trace_mind.Prelude.Text.{strip, join}
use trace_mind.Verify.Ctl.Parser.Ends.{parse_expr_ends}
use trace_mind.Verify.Ctl.Parser.Print.{CanPrint}
use trace_mind.Verify.Ctl.Parser.RoundTrip.{parse_tokens-print}

parse_expr_ends_example : parse_expr "EU((has(a), " ≢ out_of_fuel
parse_expr_ends_example = parse_expr_ends "EU((has(a), "

abbrev done_x : Expr
done_x = predicate (record { name = "done"; value = some "x" })

abbrev at_rest : Expr
at_rest = predicate (record { name = "Terminal"; value = none })

-- AF (done(x) || Terminal) && !done(x)
abbrev sample : Expr
sample = conj (ctl af (disj done_x at_rest)) (neg done_x)

abbrev sample_tokens : List String
sample_tokens =
    "AF" ∷ "(" ∷ "done" ∷ "(" ∷ "x" ∷ ")" ∷ "||" ∷ "Terminal" ∷ ")" ∷ "&&" ∷ "!" ∷ "done" ∷ "("
    ∷ "x" ∷ ")" ∷ []

some_inj : {u v : String} → some u ≡ some v → u ≡ v
some_inj e = cc

abbrev IsValue : String → Type 0
IsValue v = (strip (join (v ∷ [])) ≡ v) × ((v == "") ≡ false) × ((v == ")") ≡ false)

done_x-CanPrint : CanPrint (record { name = "done"; value = some "x" })
unfolding strip
done_x-CanPrint = (
  record { not_neg = refl; not_op = refl; not_until = refl; not_bracket = refl; not_peer = refl },
  λ h. cc,
  λ v found. subst IsValue (some_inj found) (refl, refl, refl),
)

at_rest-CanPrint : CanPrint (record { name = "Terminal"; value = none })
at_rest-CanPrint = (
  record { not_neg = refl; not_op = refl; not_until = refl; not_bracket = refl; not_peer = refl },
  λ h. refl,
  λ v found. cc,
)

parse_tokens-print_example : parse_tokens sample_tokens ≡ parsed sample []
parse_tokens-print_example =
    parse_tokens-print sample ((done_x-CanPrint, at_rest-CanPrint), done_x-CanPrint)

precedence :
    parse_expr "has(a.b) || !done(x) && AF terminal"
    ≡ parsed
        (disj (predicate (record { name = "has"; value = some "a.b" })) (
          conj
            (neg (predicate (record { name = "done"; value = some "x" })))
            (ctl af (predicate (record { name = "Terminal"; value = none })))))
        []
unfolding parse_expr parse_predicate operands strip
precedence = refl

peers :
    parse_expr "EU(peer(a, has(x)), Terminal)"
    ≡ parsed
        (until eu
          (predicate (record { name = "has"; value = some "a.x" }))
          (predicate (record { name = "Terminal"; value = none })))
        []
unfolding parse_expr parse_predicate operands strip
peers = refl

cut_off : parse_expr "peer(" ≡ fault index_error
unfolding parse_expr parse_predicate operands strip
cut_off = refl

peer_named_like_an_operator : parse_expr "peer(AGENT1, has(x))" ≡ fault value_error
unfolding parse_expr parse_predicate operands strip
peer_named_like_an_operator = refl

left_over : parse_predicate_expr "done(x))" ≡ fault value_error
unfolding parse_predicate_expr strip
left_over = refl
