-- ===== src/Intent/Session/Valid.antt =====
-- When a session of tm/intent/session.py is valid, and the transitions that change one.
use trace_mind.Prelude.{
  ◌<◌, ◌≡◌, refl, Bool, true, false, not, ◌&&◌, ◌||◌, Option, some, String, arith, List, [], ◌∷◌,
  ◌++◌, ◌==◌, nat_HasEq, text_HasEq, ltb, Dict,
}
use trace_mind.Intent.DesignLoop.{DesignStep, TurnAction, index_of, next_step}
use trace_mind.Intent.Journal.{Turn, genesis_prev_hash}
use trace_mind.Intent.Journal.Chain.{Linked, Numbered}
use trace_mind.Intent.Gate.{Report}
use trace_mind.Intent.Session.State.{
  DispositionKind, SignOff, Recorded, Session, ok, GateFacts, new_session, is_working,
  is_sealed_step, is_some,
}
use trace_mind.Intent.Session.Moves.{Digests, advance, revert, clarify}
use trace_mind.Intent.Session.Audit.{is_named}
use trace_mind.Intent.Session.Seal.{embed_completeness, seal}

abbrev pub is_accept : TurnAction → Bool
is_accept TurnAction.accept = true
is_accept _ = false

-- A human took the accept step.
abbrev pub human_accepted : List Turn → Bool
human_accepted [] = false
human_accepted (t ∷ ts) = (is_accept t.action && t.role == "human") || human_accepted ts

-- Each record has its hash, and a clarify turn names it.
abbrev pub Accounted : Digests → List Turn → List Recorded → Type 0
Accounted d turns [] = Unit
Accounted d turns (r ∷ rs) =
    (r.record_hash ≡ d.clarification r.record_of)
    × (is_named r.record_of.clar_id turns ≡ true)
    × Accounted d turns rs

pub record IsValid (d : Digests) (s : Session) : Type 0 where
  pub linked : Linked d.turn genesis_prev_hash s.turns
  pub numbered : Numbered 0 s.turns
  pub sealed_last : is_working s.status ≡ not (is_sealed_step s.current_step)
  pub signed : is_working s.status ≡ false → is_some s.sign_off ≡ true
  pub accepted : 4 < index_of s.current_step → human_accepted s.turns ≡ true
  pub accounted : Accounted d s.turns s.clarifications

-- One transition, of whatever kind and with whatever arguments; `seal` ends in an advance.
pub data Move (d : Digests) (s t : Session) : Type 0 where
  advances :
      (facts : GateFacts) (role : String) (sign_off : Option SignOff) (note : Option String)
      → advance d s facts role sign_off note ≡ ok t
      → Move d s t
  reverts :
      (step : DesignStep) (role reason : String) → revert d s step role reason ≡ ok t → Move d s t
  clarifies :
      (disposition role : String) (question warning_ref : Option String)
      (reason resolution : String)
      → clarify d s disposition role question warning_ref reason resolution ≡ ok t
      → Move d s t
  embeds : (report : Report) → embed_completeness s report ≡ ok t → Move d s t
  seals :
      (signer : String) (report : Report) (dispositions : Dict String DispositionKind)
      (verified : Bool) (scope : Option (List String)) (hash : Option String)
      (existing : List String) (signed_at : Option String)
      → seal d s signer report dispositions verified scope hash existing signed_at ≡ ok t
      → Move d s t

-- The sessions reached from a new session.
pub data Reaches (d : Digests) : Session → Type 0 where
  new : (session_id root_intent_ref : String) → Reaches d (new_session session_id root_intent_ref)
  move : {s t : Session} → Reaches d s → Move d s t → Reaches d t

pub human_accepted-append :
    (ts us : List Turn) → human_accepted (ts ++ us) ≡ (human_accepted ts || human_accepted us)
human_accepted-append [] us = refl
human_accepted-append (t ∷ ts) us = ground (arith, human_accepted-append ts us)

pub is_named-append :
    (c : String) (ts us : List Turn) → is_named c (ts ++ us) ≡ (is_named c ts || is_named c us)
is_named-append c [] us = refl
is_named-append c (t ∷ ts) us = ground (arith, is_named-append c ts us)

pub Accounted-append :
    (d : Digests) (ts us : List Turn) (rs : List Recorded)
    → Accounted d ts rs
    → Accounted d (ts ++ us) rs
Accounted-append d ts us [] h = tt
Accounted-append d ts us (r ∷ rs) (hash, named, rest) = (
  hash,
  ground (arith, is_named-append r.record_of.clar_id ts us),
  Accounted-append d ts us rs rest,
)

pub Accounted-concat :
    (d : Digests) (ts : List Turn) (rs : List Recorded) (r : Recorded)
    → Accounted d ts rs
    → r.record_hash ≡ d.clarification r.record_of
    → is_named r.record_of.clar_id ts ≡ true
    → Accounted d ts (rs ++ r ∷ [])
Accounted-concat d ts [] r h hash named = (hash, named, tt)
Accounted-concat d ts (q ∷ rs) r (hash', named', rest) hash named =
    (hash', named', Accounted-concat d ts rs r rest hash named)

pub last_but_one : (step : DesignStep) → next_step step ≡ some DesignStep.sealed → 4 < index_of step
unfolding next_step index_of
last_but_one step e = ground arith

pub earlier_is_open :
    (step cur : DesignStep)
    → ltb (index_of step) (index_of cur) ≡ true
    → is_sealed_step step ≡ false
unfolding index_of
earlier_is_open DesignStep.sealed DesignStep.draft h = ground arith
earlier_is_open DesignStep.sealed DesignStep.check_5w1h h = ground arith
earlier_is_open DesignStep.sealed DesignStep.propose h = ground arith
earlier_is_open DesignStep.sealed DesignStep.refine h = ground arith
earlier_is_open DesignStep.sealed DesignStep.verify h = ground arith
earlier_is_open DesignStep.sealed DesignStep.accept h = ground arith
earlier_is_open DesignStep.sealed DesignStep.sealed h = ground arith
earlier_is_open DesignStep.draft cur h = refl
earlier_is_open DesignStep.check_5w1h cur h = refl
earlier_is_open DesignStep.propose cur h = refl
earlier_is_open DesignStep.refine cur h = refl
earlier_is_open DesignStep.verify cur h = refl
earlier_is_open DesignStep.accept cur h = refl
