-- ===== src/Verify/State.antt =====
-- tm/verify/state.py: a state of the transition system, and the hash that identifies it.
use trace_mind.Prelude.{
  Bool, true, false, Option, none, some, List, [], ◌∷◌, String, ltb, if◌then◌else◌, ◌==◌,
  text_HasEq, nat_HasEq, Dict,
}
use Prim.Native.Char.{code}

-- A value of the store. `seq` stands for lists, tuples and sets, `scalar` for a number or null, by
-- its JSON text.
mutual
  pub data Value : Type 0 where
    bool : Bool → Value
    scalar text : String → Value
    seq : Items → Value
    mapping : Fields → Value

  pub data Items : Type 0 where
    nil : Items
    item : Value → Items → Items

  pub data Fields : Type 0 where
    end : Fields
    field : String → Value → Fields → Fields

-- a <= b on texts, by code points
abbrev text_le : String → String → Bool
text_le String.[] t = true
text_le (String.◌∷◌ c s) String.[] = false
text_le (String.◌∷◌ c s) (String.◌∷◌ d t) =
    let rest = text_le s t in
    if ltb (code c) (code d) then true else if code c == code d then rest else false

insert_field : String → Value → Fields → Fields
insert_field k v end = field k v end
insert_field k v (field j w fs) =
    let later = insert_field k v fs in
    if text_le k j then field k v (field j w fs) else field j w later

unfoldable mutual
  unfolding insert_field

  pub normalize : Value → Value
  normalize (bool b) = bool b
  normalize (scalar s) = scalar s
  normalize (text s) = text s
  normalize (seq xs) = seq (normalize_items xs)
  normalize (mapping fs) = mapping (normalize_fields fs)

  pub normalize_items : Items → Items
  normalize_items nil = nil
  normalize_items (item v xs) = item (normalize v) (normalize_items xs)

  pub normalize_fields : Fields → Fields
  normalize_fields end = end
  normalize_fields (field k v fs) = insert_field k (normalize v) (normalize_fields fs)

pub record State : Type 0 where
  pub store : Dict String Value
  pub pending : List String
  pub done : List String
  pub events : List String

abbrev fields_of : Dict String Value → Fields
fields_of [] = end
fields_of ((k, v) ∷ d) = field k v (fields_of d)

-- What is hashed: the normal form of the store, and in mode "full" the scheduling lists too.
pub record Payload : Type 0 where
  pub store : Value
  pub scheduling : Option (List String × List String × List String)

unfoldable pub payload : String → State → Option Payload
unfolding normalize
payload mode s =
    let store = normalize (mapping (fields_of s.store)) in
    if mode == "full"
    then some (record { store = store; scheduling = some (s.pending, s.done, s.events) })
    else if mode == "store"
    then some (record { store = store; scheduling = none })
    else none

-- `digest` stands for the SHA-256 of the JSON text; `none` is the ValueError on an unknown mode.
unfoldable pub stable_hash : (Payload → String) → String → State → Option String
unfolding payload
stable_hash digest mode s = elim (payload mode s) [ none ↦ none | some p ↦ some (digest p) ]
