-- ===== src/Verify/Ctl/Parser/Ends.antt =====
-- The tokens and the fuel that the parser of tm/verify/ctl.py uses up.
use trace_mind.Prelude.{
  ℕ, zero, suc, ◌+◌, ◌*◌, ◌-◌, ◌≤◌, ◌<◌, Bool, true, false, ◌≡◌, some, String, List, [], ◌∷◌,
  if◌then◌else◌, ◌==◌, text_HasEq, length, arith, Bool-cases, Option-cases, inl, inr, ◌≢◌, ◌||◌,
  nat_HasEq,
}
use trace_mind.Prelude.Text.{lower_is}
use trace_mind.Verify.Ctl.Syntax.{Predicate, Expr, neg, ctl, UntilOp, conj, disj}
use trace_mind.Verify.Ctl.Tokens.{tokenize}
use trace_mind.Verify.Ctl.Parser.{
  Parsed, parsed, fault, out_of_fuel, arguments, call, skip_close, peer_of, parse_predicate, is_and,
  is_or, op_of, until_of, expect, ◌>>=◌, operands, chain, unary_step, parse_unary, parse_and,
  parse_or, whole_input, parse_tokens, parse_expr, both,
}

-- What is left has at most n tokens.
abbrev pub Within : {A : Type 0} → ℕ → Parsed A → Type 0
Within n (parsed a rest) = length rest ≤ n
Within n (fault f) = Unit
Within n out_of_fuel = ⊥

Within-mono : {A : Type 0} {m n : ℕ} (r : Parsed A) → Within m r → m ≤ n → Within n r
Within-mono (parsed a rest) w le = omega arith
Within-mono (fault f) w le = w
Within-mono out_of_fuel w le = w

if-Within :
    {A : Type 0} (n : ℕ) (b : Bool) (r s : Parsed A)
    → Within n r
    → Within n s
    → Within n (if b then r else s)
if-Within n true r s w v = w
if-Within n false r s w v = v

bind-Within :
    {A B : Type 0} {m : ℕ} (n : ℕ) (r : Parsed A) (k : A → List String → Parsed B)
    → Within m r
    → ((a : A) (rest : List String) → length rest ≤ m → Within n (k a rest))
    → Within n (r >>= k)
bind-Within n (parsed a rest) k w next = next a rest w
bind-Within n (fault f) k w next = tt
bind-Within n out_of_fuel k w next = w

expect-Within :
    {B : Type 0} (n : ℕ) (word : String) (k : List String → Parsed B) (ts : List String)
    → ((rest : List String) → length rest < length ts → Within n (k rest))
    → Within n (expect word k ts)
expect-Within n word k [] next = tt
expect-Within n word k (t ∷ ts) next = if-Within n (t == word) _ _ (next ts (omega arith)) tt

arguments_shorten :
    (ts parts rest : List String) → arguments ts ≡ some (parts, rest) → length rest < length ts
arguments_shorten [] parts rest eq = cc
arguments_shorten (t ∷ ts) parts rest eq = elim (Option-cases (arguments ts)) [
  | inl missing ↦ ground arith
  | inr ((before, behind), found) ↦
      let lt = arguments_shorten ts before behind found in ground arith
]

call-Within : (head : String) (ts : List String) → Within (length ts) (call head ts)
call-Within head [] = omega arith
call-Within head (t ∷ ts) = elim (Bool-cases (t == "(")) [
  | inl bracket ↦ elim (Option-cases (arguments ts)) [
    | inl missing ↦ rw (bracket, missing) tt
    | inr ((parts, rest), found) ↦
        let lt = arguments_shorten ts parts rest found in rw (bracket, found) (omega arith)
  ]
  | inr plain ↦ rw plain (omega arith)
]

skip_close_le : (ts : List String) → length (skip_close ts) ≤ length ts
skip_close_le [] = omega arith
skip_close_le (t ∷ ts) =
    elim (t == ")") as (λ b. length (if b then ts else t ∷ ts) ≤ suc (length ts)) [
      | true ↦ omega arith
      | false ↦ omega arith
    ]

peer_of-Within :
    (n : ℕ) (agent : String) (r : Parsed Predicate) → Within n r → Within n (peer_of agent r)
peer_of-Within n agent (parsed inner rest) w = elim (Option-cases inner.value) [
  | inl missing ↦ rw missing tt
  | inr (v, found) ↦
      let le = skip_close_le rest in
      rw found (
        if-Within n
          (lower_is inner.name "has" || lower_is inner.name "pending" || lower_is inner.name "done")
          _ _ (omega arith) tt)
]
peer_of-Within n agent (fault f) w = tt
peer_of-Within n agent out_of_fuel w = w

parse_predicate-Within : (ts : List String) → Within (length ts - 1) (parse_predicate ts)
unfolding parse_predicate
parse_predicate-Within [] = tt
parse_predicate-Within (head ∷ []) = if-Within 0 (lower_is head "peer") _ _ tt (omega arith)
parse_predicate-Within (head ∷ bracket ∷ []) =
    if-Within 1 (lower_is head "peer") _ _ (if-Within 1 (bracket == "(") _ _ tt tt)
      (call-Within head (bracket ∷ []))
parse_predicate-Within (head ∷ bracket ∷ agent ∷ []) =
    if-Within 2 (lower_is head "peer") _ _ (if-Within 2 (bracket == "(") _ _ tt tt)
      (call-Within head (bracket ∷ agent ∷ []))
parse_predicate-Within (head ∷ bracket ∷ agent ∷ t ∷ ts) =
    let n = length (bracket ∷ agent ∷ t ∷ ts) in
    let behind =
      Within-mono {n = n} (parse_predicate ts) (parse_predicate-Within ts) (omega arith) in
    let here =
      Within-mono {n = n} (parse_predicate (t ∷ ts)) (parse_predicate-Within (t ∷ ts))
        (omega arith) in
    Within-mono _
      (if-Within n (lower_is head "peer") _ _
        (if-Within n (bracket == "(") _ _
          (peer_of-Within n agent
            (if t == "," then parse_predicate ts else parse_predicate (t ∷ ts))
            (if-Within n (t == ",") _ _ behind here))
          tt)
        (call-Within head (bracket ∷ agent ∷ t ∷ ts)))
      (omega arith)

-- A parser of operands that uses up a token, on lists of at most n tokens.
abbrev Reads : ℕ → (List String → Parsed Expr) → Type 0
Reads n operand = (ts : List String) → length ts ≤ n → Within (length ts - 1) (operand ts)

operands-Within :
    (is_op : String → Bool) (make : Expr → Expr → Expr) (operand : List String → Parsed Expr)
    (fuel : ℕ) (node : Expr) (ts : List String)
    → Reads (length ts) operand
    → length ts < fuel
    → Within (length ts) (operands is_op make operand fuel node ts)
unfolding operands
operands-Within is_op make operand zero node ts reads lt = absurd (omega arith)
operands-Within is_op make operand (suc fuel) node [] reads lt = omega arith
operands-Within is_op make operand (suc fuel) node (t ∷ ts) reads lt =
    elim (is_op t)
      as (λ b. Within (suc (length ts)) (elim b [
        | false ↦ parsed node (t ∷ ts)
        | true ↦
            operand ts >>= λ right rest. operands is_op make operand fuel (make node right) rest
      ])) [
        | false ↦ omega arith
        | true ↦
            bind-Within (suc (length ts)) (operand ts) _ (reads ts (omega arith)) (λ right rest le.
              Within-mono (operands is_op make operand fuel (make node right) rest)
                (operands-Within is_op make operand fuel (make node right) rest
                  (λ us h. reads us (omega arith)) (omega arith))
                (omega arith))
      ]

chain-Within :
    (is_op : String → Bool) (make : Expr → Expr → Expr) (operand : List String → Parsed Expr)
    (fuel : ℕ) (ts : List String)
    → Reads (length ts) operand
    → length ts < fuel
    → Within (length ts - 1) (chain is_op make operand fuel ts)
chain-Within is_op make operand fuel ts reads lt =
    bind-Within (length ts - 1) (operand ts) _ (reads ts (omega arith)) (λ node rest le.
      Within-mono (operands is_op make operand fuel node rest)
        (operands-Within is_op make operand fuel node rest (λ us h. reads us (omega arith))
          (omega arith))
        (omega arith))

both-Within :
    (op : UntilOp) (whole : List String → Parsed Expr) (ts : List String)
    → Reads (length ts) whole
    → Within (length ts - 1) (both op (whole ts) whole)
both-Within op whole ts w =
    let n = length ts - 1 in
    bind-Within n (whole ts) _ (w ts (omega arith)) (λ left rest le.
      expect-Within n "," _ rest (λ us lt.
        bind-Within n (whole us) _ (w us (omega arith))
          (λ right vs le'. expect-Within n ")" _ vs (λ ws lt'. omega arith))))

unary_step-Within :
    (unary whole : List String → Parsed Expr) (ts : List String)
    → Reads (length ts - 1) unary
    → Reads (length ts - 1) whole
    → Within (length ts - 1) (unary_step unary whole ts)
unary_step-Within unary whole [] u w = tt
unary_step-Within unary whole (t ∷ ts) u w =
    let n = length ts in
    let again : (make : Expr → Expr) → Within n (unary ts >>= λ e. parsed (make e)) =
      λ make. bind-Within n (unary ts) _ (u ts (omega arith)) (λ e rest le. omega arith) in
    Within-mono _
      (if-Within n (t == "!" || t == "NOT") _ _ (again neg) (elim (Option-cases (op_of t)) [
        | inr (op, found) ↦ rw found (again (ctl op))
        | inl plain ↦ rw plain (elim (Option-cases (until_of t)) [
          | inr (op, found) ↦ rw found (
              expect-Within n "(" _ ts (λ rest lt.
                Within-mono (both op (whole rest) whole)
                  (both-Within op whole rest (λ us h. w us (omega arith))) (omega arith)))
          | inl other ↦ rw other (
              if-Within n (t == "(") _ _
                (bind-Within n (whole ts) _ (w ts (omega arith))
                  (λ e rest le. expect-Within n ")" _ rest (λ left lt. omega arith)))
                (bind-Within n (parse_predicate (t ∷ ts)) _ (parse_predicate-Within (t ∷ ts))
                  (λ p rest le. omega arith)))
        ])
      ]))
      (omega arith)

mutual
  unfolding parse_unary

  parse_unary-Within :
      (fuel : ℕ) (ts : List String)
      → 3 * length ts < fuel
      → Within (length ts - 1) (parse_unary fuel ts)
  parse_unary-Within zero ts lt = absurd (omega arith)
  parse_unary-Within (suc fuel) [] lt = tt
  parse_unary-Within (suc fuel) (t ∷ ts) lt =
      unary_step-Within (λ us. parse_unary fuel us) (λ us. parse_or fuel us) (t ∷ ts)
        (λ us le. parse_unary-Within fuel us (omega arith))
        (λ us le. parse_or-Within fuel us (omega arith))

  parse_and-Within :
      (fuel : ℕ) (ts : List String)
      → 3 * length ts + 1 < fuel
      → Within (length ts - 1) (parse_and fuel ts)
  parse_and-Within zero ts lt = absurd (omega arith)
  parse_and-Within (suc fuel) ts lt =
      chain-Within is_and conj (λ us. parse_unary fuel us) fuel ts
        (λ us le. parse_unary-Within fuel us (omega arith)) (omega arith)

  pub parse_or-Within :
      (fuel : ℕ) (ts : List String)
      → 3 * length ts + 2 < fuel
      → Within (length ts - 1) (parse_or fuel ts)
  parse_or-Within zero ts lt = absurd (omega arith)
  parse_or-Within (suc fuel) ts lt =
      chain-Within is_or disj (λ us. parse_and fuel us) fuel ts
        (λ us le. parse_and-Within fuel us (omega arith)) (omega arith)

whole_input-returns : {A : Type 0} (n : ℕ) (r : Parsed A) → Within n r → whole_input r ≢ out_of_fuel
whole_input-returns n (parsed a []) w = λ e. cc
whole_input-returns n (parsed a (t ∷ ts)) w = λ e. cc
whole_input-returns n (fault f) w = λ e. cc
whole_input-returns n out_of_fuel w = absurd w

-- The parser always comes to an end: the fuel that `parse_expr` gives is enough for every text.
pub parse_expr_ends : (text : String) → parse_expr text ≢ out_of_fuel
unfolding parse_expr parse_tokens
parse_expr_ends text =
    let ts = tokenize text in
    whole_input-returns (length ts - 1) (parse_or (3 * length ts + 3) ts)
      (parse_or-Within (3 * length ts + 3) ts (omega arith))
