-- ===== src/Runtime/Queue/Protocol.antt =====
-- The work queue in memory (tm/runtime/queue/memory.py) behind the interface of the task manager.
use trace_mind.Prelude.{
  ℕ, zero, suc, ◌+◌, ◌≡◌, refl, ◌∙◌, ap, Bool, true, false, none, some, List, [], ◌∷◌, arith,
  if◌then◌else◌, ◌==◌, nat_HasEq, ltb, lookup, put, without, keys, Distinct, lookup-put,
  lookup-without, Bool-cases, Option-cases, inl, inr, ◌⊎◌,
}
use trace_mind.Runtime.Protocol.{WorkQueueOps, IsWorkQueue}
use trace_mind.Runtime.Queue.{
  Entry, WorkQueue, heappush, has_token, put_task, unleased, is_expired, extract_available_at,
  release_from, release_expired, take_entry, lease_loop, lease, ack, nack, new_queue,
}
use trace_mind.Runtime.Queue.Kept.{IsKept}
use trace_mind.Runtime.Queue.Runs.{puts, leases, acks, nacks, Move-IsKept, new_queue-IsKept}
use trace_mind.Runtime.Queue.Held.{
  held, held-put, accepts, task_at, lease-held, Distinct-keys-put, Distinct-keys-without,
}

module _ {T : Type 0} where
  -- `scheduled` reads the time for which a task is scheduled.
  abbrev pub memory_ops : (T → ℕ) → WorkQueueOps T (WorkQueue T)
  memory_ops scheduled = record {
    put_task = λ wall now t q. put_task (extract_available_at (scheduled t) wall now) t q;
    lease = lease;
    ack = ack;
    nack = nack;
    held = held;
    accepts = accepts;
  }

  abbrev pub IsSound : WorkQueue T → Type 0
  IsSound q = IsKept q × Distinct (keys q.entries)

  pub put_task-IsSound :
      (at : ℕ) (t : T) (q : WorkQueue T) → IsSound q → IsSound (put_task at t q).1
  unfolding put_task
  put_task-IsSound at t q (kept, distinct) = (
    Move-IsKept q (put_task at t q).1 kept (puts at t),
    Distinct-keys-put q.next_offset _ q.entries distinct,
  )

  release_from-Distinct :
      (now : ℕ) (items : List (ℕ × Entry T)) (q : WorkQueue T)
      → Distinct (keys q.entries)
      → Distinct (keys (release_from now items q).entries)
  unfolding release_from
  release_from-Distinct now [] q d = d
  release_from-Distinct now ((i, e) ∷ items) q d = elim (Bool-cases (is_expired now e)) [
    | inl over ↦
        rw (release_from, over)
          (release_from-Distinct now items
            (record q {
              entries = put i (unleased e) q.entries;
              ready = heappush (e.available_at, i) q.ready;
            })
            (Distinct-keys-put i (unleased e) q.entries d))
    | inr live ↦ rw (release_from, live) (release_from-Distinct now items q d)
  ]

  lease_loop-Distinct :
      (now deadline left : ℕ) (heap : List (ℕ × ℕ)) (q : WorkQueue T)
      → Distinct (keys q.entries)
      → Distinct (keys (lease_loop now deadline left heap q).1.entries)
  unfolding lease_loop take_entry
  lease_loop-Distinct now deadline left [] q d = d
  lease_loop-Distinct now deadline zero (x ∷ heap) q d = d
  lease_loop-Distinct now deadline (suc left) ((at, i) ∷ heap) q d =
      elim (Bool-cases (ltb now at)) [
        | inl early ↦ rw (lease_loop, early) d
        | inr due ↦ elim (Option-cases (lookup i q.entries)) [
          | inl gone ↦
              rw (lease_loop, due, gone) (lease_loop-Distinct now deadline (suc left) heap q d)
          | inr (e, found) ↦
              rw (lease_loop, due, found)
                (lease_loop-Distinct now deadline left heap (take_entry deadline i e q)
                  (Distinct-keys-put i _ q.entries d))
        ]
      ]

  pub lease-IsSound :
      (now count duration : ℕ) (q : WorkQueue T)
      → IsSound q
      → IsSound (lease now count duration q).1
  unfolding lease release_expired
  lease-IsSound now count duration q (kept, d) = (
    Move-IsKept q (lease now count duration q).1 kept (leases now count duration),
    elim (Bool-cases (count == 0)) [
      | inl nothing ↦ rw (lease, nothing) d
      | inr some_left ↦
          let r = release_expired now q in
          rw (lease, some_left)
            (lease_loop-Distinct now (now + duration) count r.ready r
              (release_from-Distinct now q.entries q d))
    ],
  )

  -- What `ack` and `nack` do, by whether the token is the entry's.
  pub ack-IsSound : (i k : ℕ) (q : WorkQueue T) → IsSound q → IsSound (ack i k q)
  unfolding ack
  ack-IsSound i k q (kept, d) = (
    Move-IsKept q (ack i k q) kept (acks i k),
    elim (Option-cases (lookup i q.entries)) [
      | inl gone ↦ rw (ack, gone) d
      | inr (e, found) ↦ elim (Bool-cases (has_token e.token k)) [
        | inl mine ↦ rw (ack, found, mine) (Distinct-keys-without i q.entries d)
        | inr other ↦ rw (ack, found, other) d
      ]
    ],
  )

  pub nack-IsSound :
      (now i k : ℕ) (requeue : Bool) (q : WorkQueue T)
      → IsSound q
      → IsSound (nack now i k requeue q)
  unfolding nack
  nack-IsSound now i k requeue q (kept, d) = (
    Move-IsKept q (nack now i k requeue q) kept (nacks now i k requeue),
    elim (Option-cases (lookup i q.entries)) [
      | inl gone ↦ rw (nack, gone) d
      | inr (e, found) ↦ elim (Bool-cases (has_token e.token k)) [
        | inr other ↦ rw (nack, found, other) d
        | inl mine ↦ elim (Bool-cases requeue) [
          | inl back ↦ rw (nack, found, mine, back) (Distinct-keys-put i _ q.entries d)
          | inr drop ↦ rw (nack, found, mine, drop) (Distinct-keys-without i q.entries d)
        ]
      ]
    ],
  )

  put_fresh : (at : ℕ) (t : T) (q : WorkQueue T) → IsKept q → held q (put_task at t q).0 ≡ none
  unfolding put_task
  put_fresh at t q kept = elim (Option-cases (lookup q.next_offset q.entries)) [
    | inl free ↦ rw free refl
    | inr (e, found) ↦ let lt = kept.fresh q.next_offset e found in absurd (omega arith)
  ]

  put_held :
      (at : ℕ) (t : T) (q : WorkQueue T) (j : ℕ)
      → held (put_task at t q).1 j ≡ (if (put_task at t q).0 == j then some t else held q j)
  unfolding put_task
  put_held at t q j = elim (Bool-cases (q.next_offset == j)) [
    | inl here ↦ simp (lookup-put, here) refl
    | inr other ↦ simp (lookup-put, other) refl
  ]

  taken :
      (i : ℕ) (q : WorkQueue T) (j : ℕ)
      → task_at (lookup j (without i q.entries)) ≡ (if i == j then none else held q j)
  taken i q j = elim (Bool-cases (i == j)) [
    | inl here ↦ simp (lookup-without, here) refl
    | inr other ↦ simp (lookup-without, other) refl
  ]

  accepted :
      (i k : ℕ) (q : WorkQueue T)
      → accepts q i k ≡ true
      → (e : Entry T) × (lookup i q.entries ≡ some e) × (has_token e.token k ≡ true)
  accepted i k q h = elim (Option-cases (lookup i q.entries)) [
    | inl gone ↦ absurd (ground (arith, gone))
    | inr (e, found) ↦ (e, found, ground (arith, found))
  ]

  taken_off :
      (i k : ℕ) (q : WorkQueue T) (e : Entry T)
      → lookup i q.entries ≡ some e
      → has_token e.token k ≡ true
      → ack i k q ≡ record q { entries = without i q.entries }
  unfolding ack
  taken_off i k q e found mine = rw (found, ack) (rw mine refl)

  ack_held :
      (i k : ℕ) (q : WorkQueue T) (j : ℕ)
      → accepts q i k ≡ true
      → held (ack i k q) j ≡ (if i == j then none else held q j)
  unfolding ack
  ack_held i k q j h =
      let (e, found, mine) = accepted i k q h in
      ap (λ r. held r j) (taken_off i k q e found mine) ∙ taken i q j

  refused :
      (i k : ℕ) (q : WorkQueue T)
      → accepts q i k ≡ false
      → (lookup i q.entries ≡ none)
        ⊎ ((e : Entry T) × (lookup i q.entries ≡ some e) × (has_token e.token k ≡ false))
  refused i k q h = elim (Option-cases (lookup i q.entries)) [
    | inl gone ↦ inl gone
    | inr (e, found) ↦ inr (e, found, ground (arith, found))
  ]

  ack_refused : (i k : ℕ) (q : WorkQueue T) → accepts q i k ≡ false → ack i k q ≡ q
  unfolding ack
  ack_refused i k q h = elim (refused i k q h) [
    | inl gone ↦ rw (gone, ack) refl
    | inr (e, found, other) ↦ rw (found, ack) (rw other refl)
  ]

  nack_refused :
      (now i k : ℕ) (requeue : Bool) (q : WorkQueue T)
      → accepts q i k ≡ false
      → nack now i k requeue q ≡ q
  unfolding nack
  nack_refused now i k requeue q h = elim (refused i k q h) [
    | inl gone ↦ rw (gone, nack) refl
    | inr (e, found, other) ↦ rw (found, nack) (rw other refl)
  ]

  given_off :
      (now i k : ℕ) (q : WorkQueue T) (e : Entry T)
      → lookup i q.entries ≡ some e
      → has_token e.token k ≡ true
      → nack now i k false q ≡ record q { entries = without i q.entries }
  unfolding nack
  given_off now i k q e found mine = rw (found, nack) (rw mine refl)

  given_back :
      (now i k : ℕ) (q : WorkQueue T) (e : Entry T)
      → lookup i q.entries ≡ some e
      → has_token e.token k ≡ true
      → nack now i k true q ≡ record q {
        entries =
            put i
              (record (unleased e) {
                available_at = if ltb e.available_at now then now else e.available_at;
              })
              q.entries;
        ready = heappush (if ltb e.available_at now then now else e.available_at, i) q.ready;
      }
  unfolding nack
  given_back now i k q e found mine = rw (found, nack) (rw mine refl)

  nack_held :
      (now i k : ℕ) (requeue : Bool) (q : WorkQueue T) (j : ℕ)
      → accepts q i k ≡ true
      → held (nack now i k requeue q) j
        ≡ (if requeue then held q j else if i == j then none else held q j)
  nack_held now i k false q j h =
      let (e, found, mine) = accepted i k q h in
      ap (λ r. held r j) (given_off now i k q e found mine) ∙ taken i q j
  nack_held now i k true q j h =
      let (e, found, mine) = accepted i k q h in
      let at = if ltb e.available_at now then now else e.available_at in
      ap (λ r. held r j) (given_back now i k q e found mine)
      ∙ held-put i (record (unleased e) { available_at = at }) q (heappush (at, i) q.ready)
          q.lease_seq (rw found refl) j

  -- The work queue in memory keeps every promise of a work queue.
  pub memory-IsWorkQueue : (scheduled : T → ℕ) → IsWorkQueue (memory_ops scheduled) IsSound
  memory-IsWorkQueue scheduled = record {
    put_ok = λ wall now t q. put_task-IsSound (extract_available_at (scheduled t) wall now) t q;
    lease_ok = lease-IsSound;
    ack_ok = ack-IsSound;
    nack_ok = nack-IsSound;
    put_fresh = λ wall now t q ok. put_fresh (extract_available_at (scheduled t) wall now) t q ok.0;
    put_held = λ wall now t q. put_held (extract_available_at (scheduled t) wall now) t q;
    lease_held = λ now count duration q j ok. lease-held now count duration q j ok.1;
    ack_held = ack_held;
    ack_refused = ack_refused;
    nack_held = nack_held;
    nack_refused = nack_refused;
  }

  pub new_queue-IsSound : IsSound (new_queue {T = T})
  unfolding new_queue
  new_queue-IsSound = (new_queue-IsKept, tt)

  pub new_queue-empty : (j : ℕ) → held (new_queue {T = T}) j ≡ none
  unfolding new_queue lookup
  new_queue-empty j = refl
