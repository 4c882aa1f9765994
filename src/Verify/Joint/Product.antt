-- ===== src/Verify/Joint/Product.antt =====
-- What the joint adapter of tm/verify/joint.py is meant to be: tuples of states, of which a step
-- moves one component and leaves the others as they are.
use trace_mind.Prelude.{◌≡◌, Option, some, String, List, [], ◌∷◌, ◌++◌}
use trace_mind.Verify.Adapter.{◌>>=◌}
use mathlib.Core.List.{Memᴰ}
use trace_mind.Verify.State.{State}
use trace_mind.Verify.Joint.{ComponentAdapter, JointAdapter, start_all}
use Prim.Native.String.{◌++◌ as text_append}

-- A move of the first component, and a move of a later one.
abbrev pub here_moves : String → List State → List (String × State) → List (String × List State)
here_moves id sts [] = []
here_moves id sts ((label, st) ∷ moves) =
    (text_append id (text_append ":" label), st ∷ sts) ∷ here_moves id sts moves

abbrev pub behind : State → List (String × List State) → List (String × List State)
behind st [] = []
behind st ((label, sts) ∷ moves) = (label, st ∷ sts) ∷ behind st moves

-- All steps of the product, those of the first component first.
unfoldable pub product :
    List ComponentAdapter → List String → List State → Option (List (String × List State))
product (c ∷ cs) (id ∷ ids) (st ∷ sts) = do
  moves ← c.successors st
  later ← product cs ids sts
  some (here_moves id sts moves ++ behind st later)
product cs ids sts = some []

-- The tuples that the product reaches from its initial one.
pub data Reachable (a : JointAdapter) : List State → Type 0 where
  initially : {joint : List State} → start_all a.components ≡ some joint → Reachable a joint
  stepped :
      {joint joint' : List State} {label : String} {steps : List (String × List State)}
      → Reachable a joint
      → product a.components a.component_ids joint ≡ some steps
      → Memᴰ (label, joint') steps
      → Reachable a joint'
