-- ===== src/Runtime/Manager/Dedupe.antt =====
-- The pending keys of tm/runtime/queue/manager.py against the tasks of its queue.
use trace_mind.Prelude.{
  ℕ, ◌≡◌, ◌≢◌, refl, sym, ◌∙◌, ap, subst, ◌⊎◌, inl, inr, true, Option, none, some, String,
  if◌then◌else◌, ◌==◌, nat_HasEq, text_HasEq, Dict, lookup, put, without, has_key, lookup-put,
  lookup-without, eq_iff_at, Bool-cases, arith,
}
use trace_mind.Runtime.Protocol.{WorkQueueOps}
use trace_mind.Runtime.Task.{TaskEnvelope, idempotency_key, composite_key}
use trace_mind.Runtime.Manager.{is_that, clear_at, add_at, set_at}

some_inj : {u v : String} → some u ≡ some v → u ≡ v
some_inj h = cc

now_held :
    {I : Type 0} (i j : ℕ) (e f : TaskEnvelope I) (o : Option (TaskEnvelope I))
    → (if i == j then some e else o) ≡ some f
    → ((i ≡ j) × (e ≡ f)) ⊎ (o ≡ some f)
now_held i j e f o h = elim (Bool-cases (i == j)) [
  | inl same ↦ inl ((eq_iff_at i j).0 same, ground (arith, same))
  | inr other ↦ inr (ground (arith, other))
]

pub lookup-add_at :
    (o : Option String) (key id : String) (keys : Dict String String) (k : String) (v : String)
    → lookup k keys ≡ some v
    → lookup k (add_at o key id keys) ≡ some v
unfolding add_at has_key
lookup-add_at none key id keys k v h = h
lookup-add_at (some _) key id keys k v h = ground (arith, lookup-put key k id keys, eq_iff_at key k)

-- Setting a key to what it is changes nothing.
pub lookup-set_at :
    (o : Option String) (key id : String) (keys : Dict String String)
    → ((k : String) → o ≡ some k → lookup key keys ≡ some id)
    → (j : String) → lookup j (set_at o key id keys) ≡ lookup j keys
unfolding set_at
lookup-set_at none key id keys named j = refl
lookup-set_at (some k) key id keys named j =
    ground (arith, lookup-put key j id keys, eq_iff_at key j, named k refl)

module _ {I Q : Type 0} (ops : WorkQueueOps (TaskEnvelope I) Q) (IsOk : Q → Type 0) where
  -- A task with a key is the one that the key names; a task is in the queue once.
  pub record Deduped (q : Q) (keys : Dict String String) : Type 0 where
    pub ok : IsOk q
    pub keyed :
        (j : ℕ) (e : TaskEnvelope I) (k : String)
        → ops.held q j ≡ some e
        → idempotency_key e ≡ some k
        → lookup k keys ≡ some e.task_id
    pub alone :
        (i j : ℕ) (e f : TaskEnvelope I)
        → ops.held q i ≡ some e
        → ops.held q j ≡ some f
        → e.task_id ≡ f.task_id
        → i ≡ j

  -- No task of the queue has the id.
  abbrev pub IsAbsent : String → Q → Type 0
  IsAbsent id q = (j : ℕ) (e : TaskEnvelope I) → ops.held q j ≡ some e → e.task_id ≢ id

  -- The same tasks, in another queue.
  pub same_tasks :
      (q q' : Q) (keys : Dict String String)
      → IsOk q'
      → ((j : ℕ) → ops.held q' j ≡ ops.held q j)
      → Deduped q keys
      → Deduped q' keys
  same_tasks q q' keys ok same d = record {
    ok = ok;
    keyed = λ j e k at key. d.keyed j e k (sym (same j) ∙ at) key;
    alone = λ i j e f at there. d.alone i j e f (sym (same i) ∙ at) (sym (same j) ∙ there);
  }

  still_held :
      (i j : ℕ) (o : Option (TaskEnvelope I)) (e : TaskEnvelope I)
      → (if i == j then none else o) ≡ some e
      → (o ≡ some e) × (i ≢ j)
  still_held i j o e h = elim (Bool-cases (i == j)) [
    | inl same ↦ absurd (ground (arith, same))
    | inr other ↦ (ground (arith, other), λ eq. absurd (ground (arith, eq_iff_at i j)))
  ]

  -- One task is taken off.
  pub removed-Deduped :
      (q q' : Q) (i : ℕ) (e : TaskEnvelope I) (keys : Dict String String)
      → Deduped q keys
      → ops.held q i ≡ some e
      → IsOk q'
      → ((j : ℕ) → ops.held q' j ≡ (if i == j then none else ops.held q j))
      → Deduped q' keys × IsAbsent e.task_id q'
  removed-Deduped q q' i e keys d at ok left = (
    record {
      ok = ok;
      keyed = λ j f k there key.
          let (was, _) = still_held i j (ops.held q j) f (sym (left j) ∙ there) in
          d.keyed j f k was key;
      alone = λ j l f g there here same.
          let (was, _) = still_held i j (ops.held q j) f (sym (left j) ∙ there) in
          let (was', _) = still_held i l (ops.held q l) g (sym (left l) ∙ here) in
          d.alone j l f g was was' same;
    },
    λ j f there same.
        let (was, differs) = still_held i j (ops.held q j) f (sym (left j) ∙ there) in
        differs (d.alone i j e f at was (sym same)),
  )

  pub composite-key :
      (e : TaskEnvelope I) (k : String) → idempotency_key e ≡ some k → composite_key e ≡ k
  composite-key e k h = rw (h, composite_key) refl

  is_that-some : (o : Option String) (id : String) → is_that o id ≡ true → o ≡ some id
  is_that-some none id h = cc
  is_that-some (some other) id h = ap some ((eq_iff_at other id).0 h)

  -- The key of a task that is not in the queue is cleared.
  pub cleared-Deduped :
      (o : Option String) (key id : String) (q : Q) (keys : Dict String String)
      → Deduped q keys
      → IsAbsent id q
      → Deduped q (clear_at o key id keys)
  unfolding clear_at
  cleared-Deduped none key id q keys d absent = d
  cleared-Deduped (some _) key id q keys d absent =
      elim (Bool-cases (is_that (lookup key keys) id)) [
        | inr other ↦ simp other d
        | inl mine ↦
            let gone : Deduped q (without key keys) = record {
              ok = d.ok;
              alone = d.alone;
              keyed = λ j f k there has.
                  let named = d.keyed j f k there has in
                  let differs = absent j f there in
                  let own = is_that-some (lookup key keys) id mine in
                  lookup-without key k keys ∙ elim (Bool-cases (key == k)) [
                    | inl same ↦
                        let here = (eq_iff_at key k).0 same in
                        absurd (
                          differs (some_inj (sym named ∙ ap (λ k. lookup k keys) (sym here) ∙ own)))
                    | inr another ↦ rw another named
                  ];
            } in
            simp mine gone
      ]

  -- A task that is not in the queue is put into it, under its key.
  pub put-Deduped :
      (q q' : Q) (i : ℕ) (e : TaskEnvelope I) (keys keys' : Dict String String)
      → Deduped q keys
      → IsAbsent e.task_id q
      → IsOk q'
      → ((j : ℕ) → ops.held q' j ≡ (if i == j then some e else ops.held q j))
      → ((k : String) → idempotency_key e ≡ some k → lookup k keys' ≡ some e.task_id)
      → ((j : ℕ) (f : TaskEnvelope I) (k : String)
          → ops.held q j ≡ some f
          → idempotency_key f ≡ some k
          → lookup k keys' ≡ some f.task_id)
      → Deduped q' keys'
  put-Deduped q q' i e keys keys' d absent ok now own others = record {
    ok = ok;
    keyed = λ j f k there has. elim (now_held i j e f (ops.held q j) (sym (now j) ∙ there)) [
      | inl (at, same) ↦
          subst (λ f. lookup k keys' ≡ some f.task_id) same
            (own k (subst (λ f. idempotency_key f ≡ some k) (sym same) has))
      | inr was ↦ others j f k was has
    ];
    alone = λ j l f g there here same.
        elim (now_held i j e f (ops.held q j) (sym (now j) ∙ there)) [
          | inl (at, this) ↦ elim (now_held i l e g (ops.held q l) (sym (now l) ∙ here)) [
            | inl (at', _) ↦ sym at ∙ at'
            | inr was ↦ absurd (absent l g was (sym same ∙ ap (λ e. e.task_id) (sym this)))
          ]
          | inr was ↦ elim (now_held i l e g (ops.held q l) (sym (now l) ∙ here)) [
            | inl (at, this) ↦ absurd (absent j f was (same ∙ ap (λ e. e.task_id) (sym this)))
            | inr was' ↦ d.alone j l f g was was' same
          ]
        ];
  }

  -- A key that names no task is given to one that is not in the queue.
  pub named-Deduped :
      (key id : String) (q : Q) (keys : Dict String String)
      → Deduped q keys
      → lookup key keys ≡ none
      → Deduped q (put key id keys)
  named-Deduped key id q keys d free = record {
    ok = d.ok;
    alone = d.alone;
    keyed = λ j f k there has.
        let named = d.keyed j f k there has in
        lookup-put key k id keys ∙ elim (Bool-cases (key == k)) [
          | inl same ↦ let at = ap (λ x. lookup x keys) ((eq_iff_at key k).0 same) ∙ named in cc
          | inr another ↦ rw another named
        ];
  }

  -- The keys name the same tasks.
  pub same_keys :
      (q : Q) (keys keys' : Dict String String)
      → ((k : String) → lookup k keys' ≡ lookup k keys)
      → Deduped q keys
      → Deduped q keys'
  same_keys q keys keys' same d = record {
    ok = d.ok;
    alone = d.alone;
    keyed = λ j e k at has. same k ∙ d.keyed j e k at has;
  }
