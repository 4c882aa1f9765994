-- ===== src/Verify/Ctl/Parser.antt =====
-- `parse_expr` and `parse_predicate_expr` of tm/verify/ctl.py, on the tokens that are left. The
-- nested functions call one another on fuel, of which there are 3 units for each token and 3 more.
use trace_mind.Prelude.{
  ℕ, zero, suc, ◌+◌, ◌*◌, Bool, true, false, not, ◌&&◌, ◌||◌, Option, none, some, String, List, [],
  ◌∷◌, if◌then◌else◌, ◌==◌, nat_HasEq, text_HasEq, length, contains, is_empty,
}
use trace_mind.Prelude.Text.{lower_is, strip, join}
use trace_mind.Verify.Ctl.Syntax.{
  Op, ex, ef, eg, af, ag, UntilOp, eu, au, Predicate, Expr, predicate, neg, conj, disj, ctl, until,
}
use trace_mind.Verify.Ctl.Tokens.{tokenize}
use Prim.Native.String.{◌++◌ as text_append}
pub mod Ends
pub mod Print
pub mod Chains
pub mod RoundTrip

-- A ValueError, or the IndexError of `pop` behind the last token.
pub data Fault : Type 0 where
  value_error index_error : Fault

pub data Parsed (A : Type 0) : Type 0 where
  parsed : A → List String → Parsed A
  fault : Fault → Parsed A
  out_of_fuel : Parsed A

-- "...".strip() or None
abbrev pub none_if_empty : String → Option String
none_if_empty s = if s == "" then none else some s

-- The tokens up to the next ")", and those behind it.
abbrev pub arguments : List String → Option (List String × List String)
arguments [] = none
arguments (t ∷ ts) =
    let later = arguments ts in
    if t == ")"
    then some ([], ts)
    else elim later [ none ↦ none | some (parts, rest) ↦ some (t ∷ parts, rest) ]

abbrev pub named : String → Option String → Predicate
named head value =
    if lower_is head "terminal"
    then record { name = "Terminal"; value = none }
    else record { name = head; value = value }

abbrev pub call : String → List String → Parsed Predicate
call head [] = parsed (named head none) []
call head (t ∷ ts) =
    if t == "("
    then elim (arguments ts) [
      | none ↦ fault value_error
      | some (parts, rest) ↦ parsed (named head (none_if_empty (strip (join parts)))) rest
    ]
    else parsed (named head none) (t ∷ ts)

abbrev pub skip_close : List String → List String
skip_close [] = []
skip_close (t ∷ ts) = if t == ")" then ts else t ∷ ts

-- peer(agent, inner) is the predicate of `inner`, its value behind the agent's name.
abbrev pub peer_of : String → Parsed Predicate → Parsed Predicate
peer_of agent (parsed inner rest) = elim inner.value [
  | none ↦ fault value_error
  | some v ↦
      if lower_is inner.name "has" || lower_is inner.name "pending" || lower_is inner.name "done"
      then parsed
          (record { name = inner.name; value = some (text_append agent (text_append "." v)) })
          (skip_close rest)
      else fault value_error
]
peer_of agent (fault f) = fault f
peer_of agent out_of_fuel = out_of_fuel

unfoldable pub parse_predicate : List String → Parsed Predicate
parse_predicate [] = fault index_error
parse_predicate (head ∷ []) = if lower_is head "peer" then fault value_error else call head []
parse_predicate (head ∷ bracket ∷ []) =
    if lower_is head "peer"
    then if bracket == "(" then fault index_error else fault value_error
    else call head (bracket ∷ [])
parse_predicate (head ∷ bracket ∷ agent ∷ []) =
    if lower_is head "peer"
    then if bracket == "(" then fault index_error else fault value_error
    else call head (bracket ∷ agent ∷ [])
parse_predicate (head ∷ bracket ∷ agent ∷ t ∷ ts) =
    let behind = parse_predicate ts in
    let here = parse_predicate (t ∷ ts) in
    if lower_is head "peer"
    then if bracket == "("
      then peer_of agent (if t == "," then behind else here)
      else fault value_error
    else call head (bracket ∷ agent ∷ t ∷ ts)

abbrev pub is_and : String → Bool
is_and t = t == "&&" || t == "AND"

abbrev pub is_or : String → Bool
is_or t = t == "||" || t == "OR"

-- tok in {"EX", "EF", "EG", "AF", "AG"}
abbrev pub op_of : String → Option Op
op_of t =
    if t == "EX"
    then some ex
    else if t == "EF"
    then some ef
    else if t == "EG"
    then some eg
    else if t == "AF"
    then some af
    else if t == "AG"
    then some ag
    else none

abbrev pub until_of : String → Option UntilOp
until_of t = if t == "EU" then some eu else if t == "AU" then some au else none

-- The rest of the parser, behind what is read.
infixl 3 ◌>>=◌
abbrev pub ◌>>=◌ : {A B : Type 0} → Parsed A → (A → List String → Parsed B) → Parsed B
parsed a rest >>= continue = continue a rest
fault f >>= continue = fault f
out_of_fuel >>= continue = out_of_fuel

-- The token that must come next, which is popped.
abbrev pub expect : {B : Type 0} → String → (List String → Parsed B) → List String → Parsed B
expect word continue [] = fault value_error
expect word continue (t ∷ ts) = if t == word then continue ts else fault value_error

-- The loop of `parse_and` and of `parse_or`: `make` joins what is read with the next operand.
unfoldable pub operands :
    (String → Bool)
    → (Expr → Expr → Expr)
    → (List String → Parsed Expr)
    → ℕ
    → Expr
    → List String
    → Parsed Expr
operands is_op make operand zero node ts = out_of_fuel
operands is_op make operand (suc fuel) node [] = parsed node []
operands is_op make operand (suc fuel) node (t ∷ ts) = elim (is_op t) [
  | false ↦ parsed node (t ∷ ts)
  | true ↦ operand ts >>= λ right rest. operands is_op make operand fuel (make node right) rest
]

abbrev pub chain :
    (String → Bool)
    → (Expr → Expr → Expr)
    → (List String → Parsed Expr)
    → ℕ
    → List String
    → Parsed Expr
chain is_op make operand fuel ts =
    operand ts >>= λ node rest. operands is_op make operand fuel node rest

abbrev pub both : UntilOp → Parsed Expr → (List String → Parsed Expr) → Parsed Expr
both op first whole = first >>= λ left.
    expect "," (λ ts. whole ts >>= λ right. expect ")" (parsed (until op left right)))

-- `unary` and `whole` parse an operand and a formula, with less fuel.
abbrev pub unary_step :
    (List String → Parsed Expr) → (List String → Parsed Expr) → List String → Parsed Expr
unary_step unary whole [] = fault value_error
unary_step unary whole (t ∷ ts) =
    if t == "!" || t == "NOT" then (unary ts >>= λ e. parsed (neg e)) else elim (op_of t) [
      | some op ↦ unary ts >>= λ e. parsed (ctl op e)
      | none ↦ elim (until_of t) [
        | some op ↦ expect "(" (λ ts. both op (whole ts) whole) ts
        | none ↦
            if t == "("
            then (whole ts >>= λ e. expect ")" (parsed e))
            else parse_predicate (t ∷ ts) >>= λ p. parsed (predicate p)
      ]
    ]

unfoldable mutual
  pub parse_unary : ℕ → List String → Parsed Expr
  parse_unary zero ts = out_of_fuel
  parse_unary (suc fuel) ts = unary_step (λ ts. parse_unary fuel ts) (λ ts. parse_or fuel ts) ts

  pub parse_and : ℕ → List String → Parsed Expr
  parse_and zero ts = out_of_fuel
  parse_and (suc fuel) ts = chain is_and conj (λ ts. parse_unary fuel ts) fuel ts

  pub parse_or : ℕ → List String → Parsed Expr
  parse_or zero ts = out_of_fuel
  parse_or (suc fuel) ts = chain is_or disj (λ ts. parse_and fuel ts) fuel ts

abbrev pub whole_input : {A : Type 0} → Parsed A → Parsed A
whole_input (parsed a []) = parsed a []
whole_input (parsed a (t ∷ ts)) = fault value_error
whole_input (fault f) = fault f
whole_input out_of_fuel = out_of_fuel

unfoldable pub parse_tokens : List String → Parsed Expr
unfolding parse_or
parse_tokens ts = whole_input (parse_or (3 * length ts + 3) ts)

unfoldable pub parse_expr : String → Parsed Expr
unfolding tokenize parse_tokens
parse_expr text = parse_tokens (tokenize text)

-- `_parse_predicate_call`
abbrev plain_call : String → List String → Parsed Predicate
plain_call head [] = parsed (record { name = head; value = none }) []
plain_call head (t ∷ ts) =
    if t == "("
    then elim (arguments ts) [
      | none ↦ fault value_error
      | some (parts, rest) ↦
          parsed
            (record {
              name = head;
              value = if is_empty parts then none else some (strip (join parts));
            })
            rest
    ]
    else parsed (record { name = head; value = none }) (t ∷ ts)

abbrev the_predicate : Parsed Expr → Parsed Predicate
the_predicate (parsed (predicate p) rest) = parsed p rest
the_predicate (parsed e rest) = fault value_error
the_predicate (fault f) = fault f
the_predicate out_of_fuel = out_of_fuel

abbrev predicate_of_tokens : List String → Parsed Predicate
predicate_of_tokens [] = fault value_error
predicate_of_tokens (head ∷ ts) =
    if lower_is head "peer"
    then the_predicate (parse_tokens (head ∷ ts))
    else whole_input (plain_call head ts)

unfoldable pub parse_predicate_expr : String → Parsed Predicate
unfolding tokenize
parse_predicate_expr text = predicate_of_tokens (tokenize text)
