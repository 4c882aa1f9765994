-- ===== src/Verify/Joint/Refines.antt =====
-- The joint adapter of tm/verify/joint.py, with its memo, against the product.
use trace_mind.Prelude.{
  suc, ◌≡◌, refl, sym, ◌∙◌, ap, subst, none, some, String, List, [], ◌∷◌, ◌++◌, ◌==◌, nat_HasEq,
  text_HasEq, lookup, put, lookup-put, length, length-append, append_assoc, Bool-cases,
  Option-cases, inl, inr, eq_iff_at, arith,
}
use mathlib.Core.List.{Memᴰ}
use trace_mind.Verify.State.{State, Payload}
use trace_mind.Verify.Joint.{
  ComponentAdapter, JointAdapter, Memo, project, start_all, hash_full, initial_joint, lookup_joint,
  move_one, move_all, joint_successors,
}
use trace_mind.Verify.Joint.Product.{here_moves, behind, product, Reachable, initially, stepped}
use Prim.Native.String.{◌++◌ as text_append}
use trace_mind.Verify.Joint.Steps.{
  none-some, steps_inj, Steps, AllOf, AllOf-append, append-AllOf, AllOf-from, AllOf-both,
  with_front, with_front-append, with_front-behind, with_front-none, replace_at-length, projected,
  projected-append, AllIn, AllIn-at, AllIn-from, targets, AllIn-targets, second_inj,
}

module _ (digest : Payload → String) (a : JointAdapter) where
  abbrev pub key_of : List State → String
  key_of joint = hash_full digest (project a.component_ids joint)

  -- The hash tells the tuples apart that the product reaches.
  abbrev pub Distinguishes : Type 0
  Distinguishes =
      (j j' : List State) → Reachable a j → Reachable a j' → key_of j ≡ key_of j' → j ≡ j'

  abbrev pub Knows : Memo → List State → Type 0
  Knows memo j = lookup (key_of j) memo ≡ some j

  module _ (inj : Distinguishes) where
    -- What is known stays known, and new tuples are known.
    record After (memo memo' : Memo) (steps : Steps) : Type 0 where
      keeps : (j : List State) → Reachable a j → Knows memo j → Knows memo' j
      knows : AllOf (Knows memo') steps

    put-Knows :
        (memo : Memo) (new j : List State)
        → Reachable a new
        → Reachable a j
        → Knows memo j
        → Knows (put (key_of new) new memo) j
    put-Knows memo new j r r' known =
        lookup-put (key_of new) (key_of j) new memo ∙ elim (Bool-cases (key_of new == key_of j)) [
          | inl same ↦
              rw same (ap some (inj new j r r' ((eq_iff_at (key_of new) (key_of j)).0 same)))
          | inr other ↦ rw other known
        ]

    put-new : (memo : Memo) (new : List State) → Knows (put (key_of new) new memo) new
    put-new memo new =
        lookup-put (key_of new) (key_of new) new memo
        ∙ rw ((eq_iff_at (key_of new) (key_of new)).1 refl) refl

    move_one-After :
        (pre sts : List State) (st : State) (id : String) (moves : List (String × State))
        (memo : Memo)
        → AllOf (Reachable a) (with_front pre (here_moves id sts moves))
        → ((move_one digest a (length pre) id (pre ++ (st ∷ sts)) moves memo).0
            ≡ projected a.component_ids (with_front pre (here_moves id sts moves)))
          × After memo
              (move_one digest a (length pre) id (pre ++ (st ∷ sts)) moves memo).1
              (with_front pre (here_moves id sts moves))
    unfolding move_one
    move_one-After pre sts st id [] memo r =
        (refl, record { keeps = λ j _ known. known; knows = tt })
    move_one-After pre sts st id ((label, x) ∷ moves) memo (r, rs) =
        let new = pre ++ (x ∷ sts) in
        let (eq, after) = move_one-After pre sts st id moves (put (key_of new) new memo) rs in
        rw (replace_at-length pre sts x st) (
          ap (λ l. (text_append id (text_append ":" label), project a.component_ids new) ∷ l) eq,
          record {
            keeps = λ j rj known. after.keeps j rj (put-Knows memo new j r rj known);
            knows = (after.keeps new r (put-new memo new), after.knows);
          },
        )

    product-cons :
        (c : ComponentAdapter) (cs : List ComponentAdapter) (id : String) (ids : List String)
        (st : State) (sts : List State) (steps : Steps)
        → product (c ∷ cs) (id ∷ ids) (st ∷ sts) ≡ some steps
        → (moves : List (String × State)) × (later : Steps) × (c.successors st ≡ some moves)
          × (product cs ids sts ≡ some later)
          × (here_moves id sts moves ++ behind st later ≡ steps)
    unfolding product
    product-cons c cs id ids st sts steps h = elim (Option-cases (c.successors st)) [
      | inl failed ↦ absurd (none-some (sym (rw failed refl) ∙ h))
      | inr (moves, found) ↦ elim (Option-cases (product cs ids sts)) [
        | inl failed ↦
            let none_all : product (c ∷ cs) (id ∷ ids) (st ∷ sts) ≡ none =
              rw (found, failed) refl in
            absurd (none-some (sym none_all ∙ h))
        | inr (later, found') ↦
            let whole : product (c ∷ cs) (id ∷ ids) (st ∷ sts)
                ≡ some (here_moves id sts moves ++ behind st later) =
              rw (found, found') refl in
            (moves, later, found, found', steps_inj (sym whole ∙ h))
      ]
    ]

    -- The loop over the components from the one behind `pre` on.
    abbrev DoesAll :
        List ComponentAdapter → List String → List State → List State → Memo → Steps → Type 0
    DoesAll cs ids pre sts memo steps =
        (memo' : Memo) × (move_all digest a (length pre) cs ids sts (pre ++ sts) memo
          ≡ some (projected a.component_ids (with_front pre steps), memo'))
        × After memo memo' (with_front pre steps)

    nothing_left :
        (memo : Memo) (pre : List State) (steps : Steps)
        → [] ≡ steps
        → ([] ≡ projected a.component_ids (with_front pre steps))
          × After memo memo (with_front pre steps)
    nothing_left memo pre steps none_left =
        subst
          (λ s.
            ([] ≡ projected a.component_ids (with_front pre s))
            × After memo memo (with_front pre s))
          none_left (refl, record { keeps = λ j _ known. known; knows = tt })

    move_all-After :
        (cs : List ComponentAdapter) (ids : List String) (pre sts : List State) (memo : Memo)
        (steps : Steps)
        → product cs ids sts ≡ some steps
        → AllOf (Reachable a) (with_front pre steps)
        → DoesAll cs ids pre sts memo steps
    unfolding product move_all
    move_all-After [] ids pre sts memo steps h r =
        let (same, after) = nothing_left memo pre steps (steps_inj h) in
        (memo, ap (λ l. some (l, memo)) same, after)
    move_all-After (c ∷ cs) [] pre sts memo steps h r =
        let (same, after) = nothing_left memo pre steps (steps_inj h) in
        (memo, ap (λ l. some (l, memo)) same, after)
    move_all-After (c ∷ cs) (id ∷ ids) pre [] memo steps h r =
        let (same, after) = nothing_left memo pre steps (steps_inj h) in
        (memo, ap (λ l. some (l, memo)) same, after)
    move_all-After (c ∷ cs) (id ∷ ids) pre (st ∷ sts) memo steps h r =
        let (moves, later, found, found', same) = product-cons c cs id ids st sts steps h in
        let split =
          ap (with_front pre) (sym same)
          ∙ with_front-append pre (here_moves id sts moves) (behind st later)
          ∙ ap (λ s. with_front pre (here_moves id sts moves) ++ s)
              (with_front-behind pre st later) in
        let (mine, others) =
          AllOf-append (Reachable a) (with_front pre (here_moves id sts moves))
            (with_front (pre ++ (st ∷ [])) later) (subst (AllOf (Reachable a)) split r) in
        let (out, after) = move_one-After pre sts st id moves memo mine in
        let memo1 = (move_one digest a (length pre) id (pre ++ (st ∷ sts)) moves memo).1 in
        let (memo', rest, after') =
          move_all-After cs ids (pre ++ (st ∷ [])) sts memo1 later found' others in
        let joint = pre ++ (st ∷ sts) in
        let len : length (pre ++ (st ∷ [])) ≡ suc (length pre) =
          let l = length-append pre (st ∷ []) in omega arith in
        let ran : move_all digest a (suc (length pre)) cs ids sts joint memo1
            ≡ some (projected a.component_ids (with_front (pre ++ (st ∷ [])) later), memo') =
          ap (λ n. move_all digest a n cs ids sts joint memo1) (sym len)
          ∙ ap (λ l. move_all digest a (length (pre ++ (st ∷ []))) cs ids sts l memo1)
              (sym (append_assoc pre (st ∷ []) sts))
          ∙ rest in
        let all_out =
          ap (λ o. o ++ projected a.component_ids (with_front (pre ++ (st ∷ [])) later)) out
          ∙ sym (
              projected-append a.component_ids (with_front pre (here_moves id sts moves))
                (with_front (pre ++ (st ∷ [])) later))
          ∙ ap (projected a.component_ids) (sym split) in
        (
          memo',
          rw (found, ran) (ap (λ l. some (l, memo')) all_out),
          record {
            keeps = λ j rj known. after'.keeps j rj (after.keeps j rj known);
            knows = subst (AllOf (Knows memo')) (sym split) (
                append-AllOf (Knows memo') (with_front pre (here_moves id sts moves))
                  (with_front (pre ++ (st ∷ [])) later)
                  (AllOf-both (Reachable a) (Knows memo1) (Knows memo')
                    (with_front pre (here_moves id sts moves))
                    (λ j rj known. after'.keeps j rj known) mine after.knows)
                  after'.knows);
          },
        )

    -- One call of `successors`, on a tuple that is known.
    joint_successors-After :
        (joint : List State) (memo : Memo) (steps : Steps)
        → Reachable a joint
        → Knows memo joint
        → product a.components a.component_ids joint ≡ some steps
        → (memo' : Memo) × (joint_successors digest a (project a.component_ids joint) memo
            ≡ some (projected a.component_ids steps, memo'))
          × After memo memo' steps
    unfolding joint_successors lookup_joint
    joint_successors-After joint memo steps r known h =
        let all_reached =
          AllOf-from (Reachable a) (with_front [] steps)
            (λ l j m. stepped r h (subst (λ s. Memᴰ (l, j) s) (with_front-none steps) m)) in
        let (memo', ran, after) =
          move_all-After a.components a.component_ids [] joint memo steps h all_reached in
        (
          memo',
          rw known
              (ran ∙ ap (λ s. some (projected a.component_ids s, memo')) (with_front-none steps)),
          subst (After memo memo') (with_front-none steps) after,
        )

    -- The memo after the initial state is asked for and `successors` is called on states that were
    -- returned, and the tuples of these.
    pub data Runs : Memo → List (List State) → Type 0 where
      began :
          {joint : List State} {s : State} {memo : Memo}
          → start_all a.components ≡ some joint
          → initial_joint digest a [] ≡ some (s, memo)
          → Runs memo (joint ∷ [])
      called :
          {memo memo' : Memo} {joints : List (List State)} {joint : List State} {steps : Steps}
          {out : List (String × State)}
          → Runs memo joints
          → Memᴰ joint joints
          → product a.components a.component_ids joint ≡ some steps
          → joint_successors digest a (project a.component_ids joint) memo ≡ some (out, memo')
          → Runs memo' (targets steps ++ joints)

    Runs-known :
        {memo : Memo} {joints : List (List State)}
        → Runs memo joints
        → AllIn (Reachable a) joints × AllIn (Knows memo) joints
    unfolding initial_joint
    Runs-known (began {joint = joint} {memo = memo} start asked) =
        let first = put (key_of joint) joint [] in
        let given : initial_joint digest a [] ≡ some (project a.component_ids joint, first) =
          rw start refl in
        let same = second_inj (sym given ∙ asked) in
        ((initially start, tt), (subst (λ m. Knows m joint) same (put-new [] joint), tt))
    Runs-known (called {memo = memo} {joints = joints} {joint = joint} {steps = steps} r m h ran) =
        let (reached, known) = Runs-known r in
        let rj = AllIn-at (Reachable a) joints joint reached m in
        let (memo', ran', after) =
          joint_successors-After joint memo steps rj (AllIn-at (Knows memo) joints joint known m)
            h in
        let same = second_inj (sym ran' ∙ ran) in
        (
          AllIn-targets (Reachable a) steps joints
              (AllOf-from (Reachable a) steps (λ l j among. stepped rj h among)) reached,
          subst (λ m. AllIn (Knows m) (targets steps ++ joints)) same
              (AllIn-targets (Knows memo') steps joints after.knows (
                AllIn-from (Reachable a) (Knows memo) (Knows memo') joints
                  (λ j rj known. after.keeps j rj known) reached known)),
        )

    -- Asked on a state that it has returned, `successors` finds the tuple behind the state, and
    -- gives exactly the steps of the product from that tuple, in its order, each as the projected
    -- state. The hash tells apart the tuples that the product reaches, and no component fails at
    -- this tuple.
    pub joint_refines_product :
        {memo : Memo} {joints : List (List State)} (joint : List State) (steps : Steps)
        → Runs memo joints
        → Memᴰ joint joints
        → product a.components a.component_ids joint ≡ some steps
        → (memo' : Memo) × (joint_successors digest a (project a.component_ids joint) memo
            ≡ some (projected a.component_ids steps, memo'))
    joint_refines_product {memo = memo} {joints = joints} joint steps r m h =
        let (reached, known) = Runs-known r in
        let (memo', ran, after) =
          joint_successors-After joint memo steps (AllIn-at (Reachable a) joints joint reached m)
            (AllIn-at (Knows memo) joints joint known m) h in
        (memo', ran)
