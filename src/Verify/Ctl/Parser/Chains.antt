-- ===== src/Verify/Ctl/Parser/Chains.antt =====
-- Operands, chains of them and brackets, in the parser of tm/verify/ctl.py.
use trace_mind.Prelude.{
  ℕ, zero, suc, ◌+◌, ◌*◌, ◌≤◌, ◌<◌, Bool, true, false, ◌≡◌, refl, ◌∙◌, ap, String, List, [], ◌∷◌,
  ◌++◌, ◌==◌, text_HasEq, length, length-append, append_assoc, subst, arith, nat_HasEq,
}
use trace_mind.Verify.Ctl.Syntax.{Expr, conj, disj}
use trace_mind.Verify.Ctl.Parser.{
  Parsed, parsed, is_and, is_or, operands, parse_unary, parse_and, parse_or,
}
use trace_mind.Verify.Ctl.Parser.Print.{in_brackets}

-- What comes next, if anything does, is not such a token.
abbrev pub Avoids : (String → Bool) → List String → Type 0
Avoids p [] = Unit
Avoids p (t ∷ ts) = p t ≡ false

abbrev pub is_open : String → Bool
is_open t = t == "("

abbrev pub ReadsAtom : List String → Expr → Type 0
ReadsAtom toks e =
    (n : ℕ) (rest : List String)
    → Avoids is_open rest
    → 3 * length (toks ++ rest) < n
    → parse_unary n (toks ++ rest) ≡ parsed e rest

abbrev pub ReadsFactor : List String → Expr → Type 0
ReadsFactor toks e =
    (n : ℕ) (rest : List String)
    → Avoids is_open rest
    → 3 * length (toks ++ rest) < n
    → (m : ℕ) × (length rest < m)
      × (parse_and (suc n) (toks ++ rest) ≡ operands is_and conj (λ ts. parse_unary n ts) m e rest)

abbrev pub ReadsWhole : List String → Expr → Type 0
ReadsWhole toks e =
    (n : ℕ) (rest : List String)
    → Avoids is_open rest
    → Avoids is_and rest
    → 3 * length (toks ++ rest) + 1 < n
    → (m : ℕ) × (length rest < m)
      × (parse_or (suc n) (toks ++ rest) ≡ operands is_or disj (λ ts. parse_and n ts) m e rest)

operands_stop :
    (is_op : String → Bool) (make : Expr → Expr → Expr) (operand : List String → Parsed Expr)
    (m : ℕ) (e : Expr) (rest : List String)
    → Avoids is_op rest
    → length rest < m
    → operands is_op make operand m e rest ≡ parsed e rest
unfolding operands
operands_stop is_op make operand zero e rest av lt = absurd (omega arith)
operands_stop is_op make operand (suc m) e [] av lt = refl
operands_stop is_op make operand (suc m) e (t ∷ ts) av lt = rw (av, operands) refl

-- One more operand is read.
operands_step :
    (is_op : String → Bool) (make : Expr → Expr → Expr) (operand : List String → Parsed Expr)
    (m : ℕ) (e f : Expr) (t : String) (ts rest : List String)
    → is_op t ≡ true
    → operand ts ≡ parsed f rest
    → length rest ≤ length ts
    → length (t ∷ ts) < m
    → (m' : ℕ) × (length rest < m')
      × (operands is_op make operand m e (t ∷ ts) ≡ operands is_op make operand m' (make e f) rest)
unfolding operands
operands_step is_op make operand zero e f t ts rest is_t eq le lt = absurd (omega arith)
operands_step is_op make operand (suc m) e f t ts rest is_t eq le lt =
    (m, omega arith, rw (is_t, eq, operands) refl)

behind_le : (xs ys : List String) → length ys ≤ length (xs ++ ys)
behind_le xs ys = rw (length-append xs ys) (omega arith)

pub atom-factor : (toks : List String) (e : Expr) → ReadsAtom toks e → ReadsFactor toks e
unfolding parse_unary
atom-factor toks e reads n rest av lt =
    let le = behind_le toks rest in (n, omega arith, rw (reads n rest av lt, parse_and) refl)

factor_done :
    (toks : List String) (e : Expr)
    → ReadsFactor toks e
    → (n : ℕ) (rest : List String) → Avoids is_open rest
    → Avoids is_and rest
    → 3 * length (toks ++ rest) < n
    → parse_and (suc n) (toks ++ rest) ≡ parsed e rest
factor_done toks e reads n rest av av' lt =
    let (m, more, eq) = reads n rest av lt in
    eq ∙ operands_stop is_and conj (λ ts. parse_unary n ts) m e rest av' more

pub factor-whole : (toks : List String) (e : Expr) → ReadsFactor toks e → ReadsWhole toks e
unfolding parse_unary
factor-whole toks e reads zero rest av av' lt = absurd (omega arith)
factor-whole toks e reads (suc n) rest av av' lt =
    let le = behind_le toks rest in
    (suc n, omega arith, rw (factor_done toks e reads n rest av av' (omega arith)) refl)

pub whole_done :
    (toks : List String) (e : Expr)
    → ReadsWhole toks e
    → (n : ℕ) (rest : List String) → Avoids is_open rest
    → Avoids is_and rest
    → Avoids is_or rest
    → 3 * length (toks ++ rest) + 2 < n
    → parse_or n (toks ++ rest) ≡ parsed e rest
whole_done toks e reads zero rest av av' av'' lt = absurd (omega arith)
whole_done toks e reads (suc n) rest av av' av'' lt =
    let (m, more, eq) = reads n rest av av' (omega arith) in
    eq ∙ operands_stop is_or disj (λ ts. parse_and n ts) m e rest av'' more

pub conj-factor :
    (te tf : List String) (e f : Expr)
    → ReadsFactor te e
    → ReadsAtom tf f
    → ReadsFactor (te ++ ("&&" ∷ tf)) (conj e f)
conj-factor te tf e f reads reads' n rest av lt =
    let next = "&&" ∷ (tf ++ rest) in
    let split = append_assoc te ("&&" ∷ tf) rest in
    let lt' : 3 * length (te ++ next) < n = subst (λ ts. 3 * length ts < n) split lt in
    let le = behind_le te next in
    let (m, more, eq) = reads n next refl lt' in
    let (m', more', eq') =
      operands_step is_and conj (λ ts. parse_unary n ts) m e f "&&" (tf ++ rest) rest refl
        (reads' n rest av (omega arith)) (behind_le tf rest) more in
    (m', more', ap (λ ts. parse_and (suc n) ts) split ∙ eq ∙ eq')

pub disj-whole :
    (te tf : List String) (e f : Expr)
    → ReadsWhole te e
    → ReadsFactor tf f
    → ReadsWhole (te ++ ("||" ∷ tf)) (disj e f)
disj-whole te tf e f reads reads' zero rest av av' lt = absurd (omega arith)
disj-whole te tf e f reads reads' (suc n) rest av av' lt =
    let next = "||" ∷ (tf ++ rest) in
    let split = append_assoc te ("||" ∷ tf) rest in
    let lt' : 3 * length (te ++ next) + 1 < suc n =
      subst (λ ts. 3 * length ts + 1 < suc n) split lt in
    let le = behind_le te next in
    let (m, more, eq) = reads (suc n) next refl refl lt' in
    let (m', more', eq') =
      operands_step is_or disj (λ ts. parse_and (suc n) ts) m e f "||" (tf ++ rest) rest refl
        (factor_done tf f reads' n rest av av' (omega arith)) (behind_le tf rest) more in
    (m', more', ap (λ ts. parse_or (suc (suc n)) ts) split ∙ eq ∙ eq')

pub brackets_split :
    (toks rest : List String) → in_brackets toks ++ rest ≡ "(" ∷ (toks ++ (")" ∷ rest))
brackets_split toks rest = ap (λ l. "(" ∷ l) (append_assoc toks (")" ∷ []) rest)

pub whole-atom :
    (toks : List String) (e : Expr) → ReadsWhole toks e → ReadsAtom (in_brackets toks) e
unfolding parse_unary
whole-atom toks e reads zero rest av lt = absurd (omega arith)
whole-atom toks e reads (suc n) rest av lt =
    let split = brackets_split toks rest in
    let lt' : 3 * length ("(" ∷ (toks ++ (")" ∷ rest))) < suc n =
      subst (λ ts. 3 * length ts < suc n) split lt in
    let inside = whole_done toks e reads n (")" ∷ rest) refl refl refl (omega arith) in
    ap (λ ts. parse_unary (suc n) ts) split ∙ rw (inside, parse_unary) refl
