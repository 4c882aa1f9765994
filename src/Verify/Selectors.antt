-- ===== src/Verify/Selectors.antt =====
-- tm/pipeline/selectors.py, and `_selector_to_path` of tm/verify/adapter.py. An exception that
-- leaves a function is `none`. Python's int() is read on ASCII texts.
use trace_mind.Prelude.{
  ℕ, zero, suc, ◌+◌, ◌-◌, ◌*◌, ◌≡◌, refl, Bool, true, false, ◌&&◌, ◌||◌, Option, none, some, List,
  [], ◌∷◌, ◌++◌, String, leb, if◌then◌else◌, ◌==◌, text_HasEq, nat_HasEq, map,
}
use Prim.Native.Char.{Char, code}
use Prim.Native.String.{◌++◌ as text_append}

-- A Python int.
pub data ℤ : Type 0 where
  pos : ℕ → ℤ
  negsuc : ℕ → ℤ

abbrev pub int_eqb : ℤ → ℤ → Bool
int_eqb (pos a) (pos b) = a == b
int_eqb (negsuc a) (negsuc b) = a == b
int_eqb _ _ = false

-- An element of a path: a key, or an index.
pub data Key : Type 0 where
  key : String → Key
  index : ℤ → Key

abbrev pub text_of : Char → String
text_of c = String.◌∷◌ c String.[]

-- `buf` is the token begun, `none` outside brackets; `token` is the text from `[` on.
abbrev flush : String → List String
flush buf = if buf == "" then [] else buf ∷ []

abbrev add_tokens : List String → Option (List String) → Option (List String)
add_tokens toks none = none
add_tokens toks (some more) = some (toks ++ more)

mutual
  scan : String → String → Option (List String)
  scan buf String.[] = some (flush buf)
  scan buf (String.◌∷◌ c rest) =
      let plain = scan (text_append buf (text_of c)) rest in
      let dot = add_tokens (flush buf) (scan "" rest) in
      let open_bracket = add_tokens (flush buf) (scan_bracket "[" rest) in
      if code c == 46 then dot else if code c == 91 then open_bracket else plain

  scan_bracket : String → String → Option (List String)
  scan_bracket token String.[] = none
  scan_bracket token (String.◌∷◌ c rest) =
      let token' = text_append token (text_of c) in
      let closed = add_tokens (token' ∷ []) (scan "" rest) in
      let inside = scan_bracket token' rest in if code c == 93 then closed else inside

unfoldable pub parse : String → Option (List String)
unfolding scan scan_bracket
parse expr = scan "" expr

-- The white space that int() strips.
abbrev is_blank : ℕ → Bool
is_blank c = c == 32 || (leb 9 c && leb c 13) || (leb 28 c && leb c 31)

all_blank : String → Bool
all_blank String.[] = true
all_blank (String.◌∷◌ c s) = is_blank (code c) && all_blank s

-- Digits with single underscores between them; `last` says whether a digit came last.
int_digits : ℕ → Bool → String → Option ℕ
unfolding all_blank
int_digits acc last String.[] = if last then some acc else none
int_digits acc last (String.◌∷◌ c s) =
    let n = code c in
    let more = int_digits (acc * 10 + (n - 48)) true s in
    let joined = int_digits acc false s in
    if leb 48 n && leb n 57
    then more
    else if n == 95 && last
    then joined
    else if is_blank n && (last && all_blank s)
    then some acc
    else none

abbrev negate : ℕ → ℤ
negate zero = pos zero
negate (suc n) = negsuc n

abbrev map_option {ℓ κ} : {A : Type ℓ} {B : Type κ} → (A → B) → Option A → Option B
map_option f none = none
map_option f (some a) = some (f a)

-- int(text); `none` is a ValueError
unfoldable pub parse_int : String → Option ℤ
unfolding int_digits
parse_int String.[] = none
parse_int (String.◌∷◌ c s) =
    let n = code c in
    let skipped = parse_int s in
    if is_blank n
    then skipped
    else if n == 45
    then map_option negate (int_digits 0 false s)
    else map_option pos (int_digits 0 false (if n == 43 then s else String.◌∷◌ c s))

-- The text before a last `]`.
before_close : String → Option String
before_close String.[] = none
before_close (String.◌∷◌ c String.[]) = if code c == 93 then some "" else none
before_close (String.◌∷◌ c s) = let inner = before_close s in map_option (λ t. String.◌∷◌ c t) inner

-- tk[1:-1] where tk starts with `[` and ends with `]`
abbrev bracketed : String → Option String
unfolding before_close
bracketed String.[] = none
bracketed (String.◌∷◌ c s) = if code c == 91 then before_close s else none

-- Does a token match an element of a path?
token_matches : String → Key → Bool
unfolding parse_int before_close
token_matches tk (key v) =
    if tk == "*"
    then true
    else if tk == "[]"
    then false
    else elim (bracketed tk) [ some inner ↦ false | none ↦ v == tk ]
token_matches tk (index v) =
    if tk == "*" then true else if tk == "[]" then true else elim (bracketed tk) [
      | some inner ↦
          if inner == ""
          then true
          else elim (parse_int inner) [ none ↦ false | some idx ↦ int_eqb v idx ]
      | none ↦ false
    ]

match_tokens : List String → List Key → Bool
unfolding token_matches
match_tokens [] [] = true
match_tokens [] (v ∷ path) = false
match_tokens (tk ∷ toks) [] = false
match_tokens (tk ∷ toks) (v ∷ path) = token_matches tk v && match_tokens toks path

unfoldable pub matches : String → List Key → Option Bool
unfolding parse match_tokens
matches expr path = elim (parse expr) [ none ↦ none | some toks ↦ some (match_tokens toks path) ]

-- The loop body of `_selector_to_path`.
token_key : String → Key
unfolding parse_int before_close
token_key tk =
    if tk == "[]" then index (pos 0) else if tk == "*" then key "*" else elim (bracketed tk) [
      | some inner ↦ elim (parse_int inner) [ none ↦ key inner | some n ↦ index n ]
      | none ↦ key tk
    ]

unfoldable pub selector_to_path : String → Option (List Key)
unfolding parse token_key
selector_to_path expr = elim (parse expr) [ none ↦ none | some toks ↦ some (map token_key toks) ]

parse_nested : parse "a.b[3][].*" ≡ some ("a" ∷ "b" ∷ "[3]" ∷ "[]" ∷ "*" ∷ [])
unfolding parse
parse_nested = refl

path_nested : selector_to_path "a[-12]" ≡ some (key "a" ∷ index (negsuc 11) ∷ [])
unfolding selector_to_path
path_nested = refl

unclosed : parse "a[3" ≡ none
unfolding parse
unclosed = refl
