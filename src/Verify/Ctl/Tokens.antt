-- ===== src/Verify/Ctl/Tokens.antt =====
-- `_tokenize` of tm/verify/ctl.py: the regular expression `_TOKEN`, matched again and again. White
-- space is skipped; of the alternatives the first that fits is taken, an operator word also where it
-- begins a longer name.
use trace_mind.Prelude.{
  ℕ, zero, suc, ◌-◌, Bool, true, false, ◌&&◌, ◌||◌, Option, none, some, String, List, [], ◌∷◌,
  if◌then◌else◌, ◌==◌, nat_HasEq, leb, ◌≡◌, refl,
}
use trace_mind.Prelude.Text.{is_space}
use Prim.Native.Char.{Char, code}
use Prim.Native.String.{◌++◌ as text_append}

abbrev text_of : Char → String
text_of c = String.◌∷◌ c String.[]

abbrev is_letter : ℕ → Bool
is_letter c = (leb 65 c && leb c 90) || (leb 97 c && leb c 122)

-- [A-Za-z_]
abbrev starts_name : ℕ → Bool
starts_name c = is_letter c || c == 95

-- [A-Za-z0-9_\-\.\[\]\*]
abbrev continues_name : ℕ → Bool
continues_name c =
    starts_name c || (leb 48 c && leb c 57) || c == 45 || c == 46 || c == 91 || c == 93 || c == 42

abbrev starts_with : String → String → Bool
starts_with String.[] s = true
starts_with (String.◌∷◌ c w) String.[] = false
starts_with (String.◌∷◌ c w) (String.◌∷◌ d s) = code c == code d && starts_with w s

-- The words of the pattern, in its order; of brackets, one character is taken anyway.
abbrev operators : List String
operators = "EX" ∷ "EF" ∷ "EG" ∷ "EU" ∷ "AF" ∷ "AG" ∷ "AU" ∷ "AND" ∷ "OR" ∷ "NOT" ∷ "||" ∷ "&&" ∷ []

abbrev first_of : List String → String → Option String
first_of [] s = none
first_of (w ∷ words) s = let later = first_of words s in if starts_with w s then some w else later

abbrev text_length : String → ℕ
text_length String.[] = 0
text_length (String.◌∷◌ c s) = suc (text_length s)

-- A token begins at c; `continue` goes on behind c, with the name begun or with what is to be skipped.
abbrev begin : Char → String → (Option String → ℕ → List String) → List String
begin c s continue =
    if is_space (code c) then continue none 0 else elim (first_of operators (String.◌∷◌ c s)) [
      | some w ↦ w ∷ continue none (text_length w - 1)
      | none ↦
          if starts_name (code c)
          then continue (some (text_of c)) 0
          else text_of c ∷ continue none 0
    ]

-- `name` is the name begun; `skip` characters of an operator are still to come.
scan_tokens : Option String → ℕ → String → List String
scan_tokens none skip String.[] = []
scan_tokens (some name) skip String.[] = name ∷ []
scan_tokens none zero (String.◌∷◌ c s) = begin c s (λ name skip. scan_tokens name skip s)
scan_tokens none (suc skip) (String.◌∷◌ c s) = scan_tokens none skip s
scan_tokens (some name) skip (String.◌∷◌ c s) =
    let longer = scan_tokens (some (text_append name (text_of c))) 0 s in
    let next = name ∷ begin c s (λ name skip. scan_tokens name skip s) in
    if continues_name (code c) then longer else next

unfoldable pub tokenize : String → List String
unfolding scan_tokens
tokenize expr = scan_tokens none 0 expr

tokens_of :
    tokenize "AG (!has(a.b[0])  || EX done(x))"
    ≡ "AG" ∷ "(" ∷ "!" ∷ "has" ∷ "(" ∷ "a.b[0]" ∷ ")" ∷ "||" ∷ "EX" ∷ "done" ∷ "(" ∷ "x" ∷ ")" ∷ ")"
      ∷ []
unfolding tokenize
tokens_of = refl

split_name : tokenize "ORDER" ≡ "OR" ∷ "DER" ∷ []
unfolding tokenize
split_name = refl
