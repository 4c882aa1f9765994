-- ===== src/Verify/Ctl/Parser/RoundTrip.antt =====
-- The parser of tm/verify/ctl.py against the printer of Print.
use trace_mind.Prelude.{
  append_nil, zero, suc, ◌+◌, ◌*◌, ◌<◌, true, false, ◌≡◌, refl, sym, ◌∙◌, ap, subst, append_assoc,
  length-append, Option, none, some, String, List, [], ◌∷◌, ◌++◌, ◌==◌, text_HasEq, length, arith,
  Bool-cases, Option-cases, inl, inr, ◌||◌, nat_HasEq,
}
use trace_mind.Prelude.Text.{lower_is}
use trace_mind.Verify.Ctl.Syntax.{
  Op, ex, ef, eg, af, ag, eu, au, Predicate, Expr, neg, ctl, until, UntilOp, predicate, conj, disj,
}
use trace_mind.Verify.Ctl.Parser.{
  parsed, call, named, parse_predicate, op_of, until_of, parse_unary, parse_or, parse_tokens,
}
use trace_mind.Verify.Ctl.Parser.Chains.{
  Avoids, is_open, ReadsAtom, ReadsFactor, ReadsWhole, atom-factor, factor-whole, whole_done,
  conj-factor, disj-whole, brackets_split, whole-atom,
}
use trace_mind.Verify.Ctl.Parser.Print.{
  op_name, until_name, in_brackets, whole, factor, atom, print, print_predicate, CanPrint, AllPrint,
}

parse_predicate-call :
    (name : String) (ts : List String)
    → lower_is name "peer" ≡ false
    → parse_predicate (name ∷ ts) ≡ call name ts
unfolding parse_predicate
parse_predicate-call name [] h = rw h refl
parse_predicate-call name (a ∷ []) h = rw h refl
parse_predicate-call name (a ∷ b ∷ []) h = rw h refl
parse_predicate-call name (a ∷ b ∷ c ∷ ts) h = rw h refl

call-plain :
    (name : String) (ts : List String)
    → Avoids is_open ts
    → call name ts ≡ parsed (named name none) ts
call-plain name [] av = refl
call-plain name (t ∷ ts) av = rw av refl

named-print :
    (p : Predicate)
    → (lower_is p.name "terminal" ≡ true → p ≡ record { name = "Terminal"; value = none })
    → named p.name p.value ≡ p
named-print p spelled = elim (Bool-cases (lower_is p.name "terminal")) [
  | inl terminal ↦ rw terminal (sym (spelled terminal))
  | inr other ↦ rw other refl
]

-- A predicate's tokens are one predicate's.
call-print :
    (p : Predicate) (rest : List String)
    → CanPrint p
    → Avoids is_open rest
    → (ts : List String) × (print_predicate p ++ rest ≡ p.name ∷ ts)
      × (call p.name ts ≡ parsed p rest)
call-print p rest (name, spelled, value_ok) av =
    let same : Option String → Type 0 = λ o. parsed (named p.name o) rest ≡ parsed p rest in
    let whole_name : same p.value = ap (λ q. parsed q rest) (named-print p spelled) in
    elim (Option-cases p.value) [
      | inl plain ↦ (rest, rw plain refl, call-plain p.name rest av ∙ subst same plain whole_name)
      | inr (v, found) ↦
          let (stripped, full, inner) = value_ok v found in
          (
            "(" ∷ v ∷ ")" ∷ rest,
            rw found refl,
            rw (inner, stripped, full) (subst same found whole_name),
          )
    ]

predicate-atom : (p : Predicate) → CanPrint p → ReadsAtom (print_predicate p) (predicate p)
unfolding parse_unary
predicate-atom p ok zero rest av lt = absurd (omega arith)
predicate-atom p ok (suc n) rest av lt =
    let (ts, split, eq) = call-print p rest ok av in
    let name = ok.0 in
    ap (λ ts. parse_unary (suc n) ts) split
    ∙ rw
        (
          name.not_neg,
          name.not_op,
          name.not_until,
          name.not_bracket,
          parse_predicate-call p.name ts name.not_peer,
          eq,
        )
        refl

neg-atom : (toks : List String) (e : Expr) → ReadsAtom toks e → ReadsAtom ("!" ∷ toks) (neg e)
unfolding parse_unary
neg-atom toks e reads zero rest av lt = absurd (omega arith)
neg-atom toks e reads (suc n) rest av lt = rw (reads n rest av (omega arith)) refl

op_names :
    (op : Op)
    → ((op_name op == "!" || op_name op == "NOT") ≡ false) × (op_of (op_name op) ≡ some op)
op_names ex = (refl, refl)
op_names ef = (refl, refl)
op_names eg = (refl, refl)
op_names af = (refl, refl)
op_names ag = (refl, refl)

until_names :
    (op : UntilOp)
    → ((until_name op == "!" || until_name op == "NOT") ≡ false)
      × (op_of (until_name op) ≡ none)
      × (until_of (until_name op) ≡ some op)
until_names eu = (refl, refl, refl)
until_names au = (refl, refl, refl)

ctl-atom :
    (op : Op) (toks : List String) (e : Expr)
    → ReadsAtom toks e
    → ReadsAtom (op_name op ∷ toks) (ctl op e)
unfolding parse_unary
ctl-atom op toks e reads zero rest av lt = absurd (omega arith)
ctl-atom op toks e reads (suc n) rest av lt =
    let (plain, found) = op_names op in rw (plain, found, reads n rest av (omega arith)) refl

until-atom :
    (op : UntilOp) (te tf : List String) (e f : Expr)
    → ReadsWhole te e
    → ReadsWhole tf f
    → ReadsAtom (until_name op ∷ in_brackets (te ++ ("," ∷ tf))) (until op e f)
unfolding parse_unary
until-atom op te tf e f reads reads' zero rest av lt = absurd (omega arith)
until-atom op te tf e f reads reads' (suc n) rest av lt =
    let (plain, no_op, found) = until_names op in
    let behind = tf ++ (")" ∷ rest) in
    let split =
      brackets_split (te ++ ("," ∷ tf)) rest
      ∙ ap (λ l. "(" ∷ l) (append_assoc te ("," ∷ tf) (")" ∷ rest)) in
    let lt' : 3 * suc (length ("(" ∷ (te ++ ("," ∷ behind)))) < suc n =
      subst (λ ts. 3 * suc (length ts) < suc n) split lt in
    let len = length-append te ("," ∷ behind) in
    let left = whole_done te e reads n ("," ∷ behind) refl refl refl (omega arith) in
    let right = whole_done tf f reads' n (")" ∷ rest) refl refl refl (omega arith) in
    ap (λ ts. parse_unary (suc n) (until_name op ∷ ts)) split
    ∙ rw (plain, no_op, found, left, right) refl

record Reads (e : Expr) : Type 0 where
  on_atom : ReadsAtom (print atom e) e
  on_factor : ReadsFactor (print factor e) e
  on_whole : ReadsWhole (print whole e) e

from_atom :
    (toks : List String) (e : Expr) → ReadsAtom toks e → ReadsFactor toks e × ReadsWhole toks e
from_atom toks e reads = let f = atom-factor toks e reads in (f, factor-whole toks e f)

print-Reads : (e : Expr) → AllPrint e → Reads e
print-Reads (predicate p) ok =
    let a = predicate-atom p ok in
    let (f, w) = from_atom (print_predicate p) (predicate p) a in
    record { on_atom = a; on_factor = f; on_whole = w }
print-Reads (neg e) ok =
    let a = neg-atom (print atom e) e (print-Reads e ok).on_atom in
    let (f, w) = from_atom ("!" ∷ print atom e) (neg e) a in
    record { on_atom = a; on_factor = f; on_whole = w }
print-Reads (ctl op e) ok =
    let a = ctl-atom op (print atom e) e (print-Reads e ok).on_atom in
    let (f, w) = from_atom (op_name op ∷ print atom e) (ctl op e) a in
    record { on_atom = a; on_factor = f; on_whole = w }
print-Reads (until op e f) (ok, ok') =
    let a =
      until-atom op (print whole e) (print whole f) e f (print-Reads e ok).on_whole
        (print-Reads f ok').on_whole in
    let (g, w) = from_atom (print atom (until op e f)) (until op e f) a in
    record { on_atom = a; on_factor = g; on_whole = w }
print-Reads (conj e f) (ok, ok') =
    let g =
      conj-factor (print factor e) (print atom f) e f (print-Reads e ok).on_factor
        (print-Reads f ok').on_atom in
    let w = factor-whole (print whole (conj e f)) (conj e f) g in
    let a = whole-atom (print whole (conj e f)) (conj e f) w in
    record { on_atom = a; on_factor = g; on_whole = w }
print-Reads (disj e f) (ok, ok') =
    let w =
      disj-whole (print whole e) (print factor f) e f (print-Reads e ok).on_whole
        (print-Reads f ok').on_factor in
    let a = whole-atom (print whole (disj e f)) (disj e f) w in
    record {
      on_atom = a;
      on_factor = atom-factor (print factor (disj e f)) (disj e f) a;
      on_whole = w;
    }

-- The parser reads the tokens of a printed formula as that formula, whatever its precedences and
-- its nesting, and leaves nothing. The predicates of the formula must be of this form: the name is no
-- operator (a negation, a temporal operator, an until), no opening bracket, and not "peer" in any
-- case; a name that is "terminal" in any case is spelled "Terminal" and has no value; and a value, if
-- there is one, is one token that is not empty, not a closing bracket, and without white space around
-- it.
pub parse_tokens-print : (e : Expr) → AllPrint e → parse_tokens (print whole e) ≡ parsed e []
unfolding parse_tokens
parse_tokens-print e ok =
    let toks = print whole e in
    let same = append_nil toks in
    let done : parse_or (3 * length toks + 3) (toks ++ []) ≡ parsed e [] =
      whole_done toks e (print-Reads e ok).on_whole (3 * length toks + 3) [] tt tt tt
        (rw same (omega arith)) in
    let read = subst (λ ts. parse_or (3 * length toks + 3) ts ≡ parsed e []) same done in
    rw read refl
