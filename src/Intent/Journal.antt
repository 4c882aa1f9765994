-- ===== src/Intent/Journal.antt =====
-- The journal of tm/intent/session.py: turns that a hash binds to their predecessors.
pub mod Chain
use trace_mind.Prelude.{
  ℕ, zero, suc, ◌+◌, ◌<◌, ◌≤◌, ◌≡◌, refl, Bool, true, false, not, ◌&&◌, ◌||◌, Option, none, some,
  String, arith, List, [], ◌∷◌, ◌++◌, if◌then◌else◌, ltb, leb, ◌⊎◌, inl, inr, length, length-append,
  ◌==◌, nat_HasEq, text_HasEq, eq_iff_at, eq_refl, Bool-cases, Option-cases, ◌↔◌, sym, ap, ◌∙◌,
  subst,
}
use trace_mind.Intent.DesignLoop.{TurnAction}

pub record Turn : Type 0 where
  pub seq : ℕ
  pub role : String
  pub action : TurnAction
  pub input_ref : Option String
  pub output_ref : Option String
  pub provider : Option String
  pub turn_hash : Option String

-- _turn_payload
pub record TurnPayload : Type 0 where
  pub seq : ℕ
  pub role : String
  pub action : TurnAction
  pub input_ref : Option String
  pub output_ref : Option String
  pub provider : Option String
  pub prev_hash : String

unfoldable pub turn_payload : Turn → String → TurnPayload
turn_payload t prev = record {
  seq = t.seq;
  role = t.role;
  action = t.action;
  input_ref = t.input_ref;
  output_ref = t.output_ref;
  provider = t.provider;
  prev_hash = prev;
}

abbrev pub genesis_prev_hash : String
genesis_prev_hash = ""

abbrev pub max_seq : List Turn → ℕ
max_seq [] = 0
max_seq (t ∷ ts) = if leb (max_seq ts) t.seq then t.seq else max_seq ts

-- _next_seq
unfoldable pub next_seq : List Turn → ℕ
next_seq [] = 0
next_seq (t ∷ ts) = max_seq (t ∷ ts) + 1

-- `body.turns[-1].turn_hash if body.turns else None`, or the genesis link where that is falsy
abbrev pub hash_or : Option String → String → String
hash_or none d = d
hash_or (some h) d = h

unfoldable pub last_hash : List Turn → String
last_hash [] = genesis_prev_hash
last_hash (t ∷ []) = hash_or t.turn_hash genesis_prev_hash
last_hash (t ∷ u ∷ ts) = last_hash (u ∷ ts)

pub data Issue : Type 0 where
  missing mismatch : ℕ → Issue

-- `digest` stands for body_hash, the SHA-256 of the canonical JSON.
module _ (digest : TurnPayload → String) where
  unfoldable pub turn_content_hash : Turn → String → String
  unfolding turn_payload
  turn_content_hash t prev = digest (turn_payload t prev)

  -- The turn that `_append_turn` adds.
  unfoldable pub new_turn :
      List Turn → String → TurnAction → Option String → Option String → Option String → Turn
  unfolding next_seq last_hash
  new_turn turns role action input output provider = record {
    seq = next_seq turns;
    role = role;
    action = action;
    input_ref = input;
    output_ref = output;
    provider = provider;
    turn_hash = some (
        digest (record {
          seq = next_seq turns;
          role = role;
          action = action;
          input_ref = input;
          output_ref = output;
          provider = provider;
          prev_hash = last_hash turns;
        }));
  }

  unfoldable pub append_turn :
      List Turn → String → TurnAction → Option String → Option String → Option String → List Turn
  unfolding new_turn
  append_turn turns role action input output provider =
      turns ++ new_turn turns role action input output provider ∷ []

  -- The loop of verify_journal, from turn number i on.
  unfoldable pub verify_from : ℕ → String → List Turn → List Issue
  unfolding turn_content_hash
  verify_from i prev [] = []
  verify_from i prev (t ∷ ts) =
      let expected = turn_content_hash t prev in
      elim t.turn_hash [
        | none ↦ missing i ∷ verify_from (suc i) expected ts
        | some h ↦ (if h == expected then [] else mismatch i ∷ []) ++ verify_from (suc i) h ts
      ]

  unfoldable pub verify_journal : List Turn → List Issue
  unfolding verify_from
  verify_journal turns = verify_from 0 genesis_prev_hash turns
