-- ===== src/Runtime/Queue/Runs.antt =====
-- Runs of the work queue in memory (tm/runtime/queue/memory.py).
use trace_mind.Prelude.{
  ℕ, zero, suc, ◌+◌, ◌<◌, ◌≡◌, refl, Bool, true, none, some, List, [], ◌∷◌, arith, if◌then◌else◌,
  ◌==◌, nat_HasEq, ltb, Dict, lookup, put, keys, contains, eq_iff_at, eq_refl, Bool-cases,
  Option-cases, inl, inr,
}
use trace_mind.Runtime.Queue.{
  Entry, WorkQueue, heappush, has_token, is_leased, new_queue, put_task, unleased, is_expired,
  release_from, release_expired, take_entry, lease_loop, lease, ack, nack, reschedule,
}
use trace_mind.Runtime.Queue.Kept.{IsKept, is_ready-heappush, set_entry, remove_entry}

module _ {T : Type 0} where
  put_task-IsKept :
      (available_at : ℕ) (task : T) (q : WorkQueue T)
      → IsKept q
      → IsKept (put_task available_at task q).1
  unfolding put_task
  put_task-IsKept available_at task q v =
      let i = q.next_offset in
      set_entry q v i (suc i) q.lease_seq
        (record { task = task; available_at = available_at; lease_deadline = 0; token = none })
        (heappush (available_at, i) q.ready) (omega arith) (omega arith) (omega arith)
        (λ at j other was. ground (arith, is_ready-heappush at j available_at i q.ready))
        (λ _. ground (
          arith,
          is_ready-heappush available_at i available_at i q.ready,
          eq_refl i,
          eq_refl available_at,
        ))
        (λ k none_yet. cc) (λ j k f none_yet at t. cc)

  -- An entry that is set free waits in the heap.
  free_entry :
      (q : WorkQueue T) (i : ℕ) (e : Entry T)
      → i < q.next_offset
      → e.token ≡ none
      → IsKept q
      → IsKept
          (record q { entries = put i e q.entries; ready = heappush (e.available_at, i) q.ready })
  free_entry q i e below free v =
      set_entry q v i q.next_offset q.lease_seq e (heappush (e.available_at, i) q.ready) below
        (omega arith) (omega arith)
        (λ at j other was. ground (arith, is_ready-heappush at j e.available_at i q.ready))
        (λ _. ground (
          arith,
          is_ready-heappush e.available_at i e.available_at i q.ready,
          eq_refl i,
          eq_refl e.available_at,
        ))
        (λ k had. cc) (λ j k f had at t. cc)

  release_from-IsKept :
      (now : ℕ) (items : List (ℕ × Entry T)) (q : WorkQueue T)
      → ((i : ℕ) → contains (keys items) i ≡ true → i < q.next_offset)
      → IsKept q
      → IsKept (release_from now items q)
  unfolding release_from
  release_from-IsKept now [] q below v = v
  release_from-IsKept now ((i, e) ∷ items) q below v = elim (Bool-cases (is_expired now e)) [
    | inl expired ↦
        rw (release_from, expired)
          (release_from-IsKept now items
            (record q {
              entries = put i (unleased e) q.entries;
              ready = heappush (e.available_at, i) q.ready;
            })
            (λ j at. below j (ground arith))
            (free_entry q i (unleased e) (below i (ground (arith, eq_refl i))) refl v))
    | inr live ↦
        rw (release_from, live) (release_from-IsKept now items q (λ j at. below j (ground arith)) v)
  ]

  -- The loop leaves the heap that it was not given out of account.
  lease_loop-IsKept :
      (now deadline left : ℕ) (heap : List (ℕ × ℕ)) (q : WorkQueue T)
      → IsKept (record q { ready = heap })
      → IsKept (lease_loop now deadline left heap q).1
  unfolding lease_loop take_entry
  lease_loop-IsKept now deadline left [] q v = v
  lease_loop-IsKept now deadline zero (x ∷ heap) q v = v
  lease_loop-IsKept now deadline (suc left) ((at, i) ∷ heap) q v = elim (Bool-cases (ltb now at)) [
    | inl early ↦ rw (lease_loop, early) v
    | inr due ↦ elim (Option-cases (lookup i q.entries)) [
      | inl gone ↦
          rw (lease_loop, due, gone)
            (lease_loop-IsKept now deadline (suc left) heap q (record {
              fresh = v.fresh;
              waiting = λ j e there free.
                  let w = v.waiting j e there free in ground (arith, eq_iff_at j i);
              given = v.given;
              unique = v.unique;
            }))
      | inr (e, found) ↦
          rw (lease_loop, due, found)
            (lease_loop-IsKept now deadline left heap (take_entry deadline i e q) (
              set_entry (record q { ready = (at, i) ∷ heap }) v i q.next_offset (suc q.lease_seq)
                (record e { token = some (suc q.lease_seq); lease_deadline = deadline }) heap
                (v.fresh i e found) (omega arith) (omega arith)
                (λ t j other was. ground (arith, eq_iff_at j i, eq_refl i))
                (λ free. absurd (ground arith)) (λ k same. ground arith)
                (λ j k f same there t. let le = v.given j k f there t in absurd (ground arith))))
    ]
  ]

  keys-lookup :
      (d : Dict ℕ (Entry T)) (i : ℕ)
      → contains (keys d) i ≡ true
      → (e : Entry T) × (lookup i d ≡ some e)
  unfolding lookup
  keys-lookup [] i h = absurd (ground arith)
  keys-lookup ((j, e) ∷ d) i h = elim (Bool-cases (j == i)) [
    | inl same ↦ (e, ground arith)
    | inr other ↦ let (f, found) = keys-lookup d i (ground arith) in (f, ground arith)
  ]

  pub release_expired-IsKept :
      (now : ℕ) (q : WorkQueue T) → IsKept q → IsKept (release_expired now q)
  unfolding release_expired
  release_expired-IsKept now q v =
      release_from-IsKept now q.entries q
        (λ i at. let (e, found) = keys-lookup q.entries i at in v.fresh i e found) v

  lease-IsKept :
      (now count duration : ℕ) (q : WorkQueue T) → IsKept q → IsKept (lease now count duration q).1
  unfolding lease
  lease-IsKept now count duration q v = elim (Bool-cases (count == 0)) [
    | inl nothing ↦ rw (lease, nothing) v
    | inr some_left ↦
        let r = release_expired now q in
        rw (lease, some_left)
          (lease_loop-IsKept now (now + duration) count r.ready r (release_expired-IsKept now q v))
  ]

  ack-IsKept : (offset token : ℕ) (q : WorkQueue T) → IsKept q → IsKept (ack offset token q)
  unfolding ack
  ack-IsKept offset token q v = elim (Option-cases (lookup offset q.entries)) [
    | inl gone ↦ rw (ack, gone) v
    | inr (e, found) ↦ elim (Bool-cases (has_token e.token token)) [
      | inl mine ↦ rw (ack, found, mine) (remove_entry q v offset)
      | inr other ↦ rw (ack, found, other) v
    ]
  ]

  nack-IsKept :
      (now offset token : ℕ) (requeue : Bool) (q : WorkQueue T)
      → IsKept q
      → IsKept (nack now offset token requeue q)
  unfolding nack
  nack-IsKept now offset token requeue q v = elim (Option-cases (lookup offset q.entries)) [
    | inl gone ↦ rw (nack, gone) v
    | inr (e, found) ↦
        let at = if ltb e.available_at now then now else e.available_at in
        elim (Bool-cases (has_token e.token token)) [
          | inr other ↦ rw (nack, found, other) v
          | inl mine ↦ elim (Bool-cases requeue) [
            | inl back ↦
                rw (nack, found, mine, back)
                  (free_entry q offset (record (unleased e) { available_at = at })
                    (v.fresh offset e found) refl v)
            | inr drop ↦ rw (nack, found, mine, drop) (remove_entry q v offset)
          ]
        ]
  ]

  reschedule-IsKept :
      (offset available_at : ℕ) (q : WorkQueue T)
      → IsKept q
      → IsKept (reschedule offset available_at q)
  unfolding reschedule
  reschedule-IsKept offset available_at q v = elim (Option-cases (lookup offset q.entries)) [
    | inl gone ↦ rw (reschedule, gone) v
    | inr (e, found) ↦
        let later : Entry T = record e { available_at = available_at } in
        let ready =
          if is_leased e.token then q.ready else heappush (available_at, offset) q.ready in
        rw (reschedule, found)
          (set_entry q v offset q.next_offset q.lease_seq later ready (v.fresh offset e found)
            (omega arith) (omega arith)
            (λ at j other was. ground (arith, is_ready-heappush at j available_at offset q.ready))
            (λ free. ground (
              arith,
              is_ready-heappush available_at offset available_at offset q.ready,
              eq_refl offset,
              eq_refl available_at,
            ))
            (λ k had. v.given offset k e found had)
            (λ j k f had at t. v.unique offset j k e f found at had t))
  ]

-- One call of an operation.
pub data Move {T : Type 0} (q : WorkQueue T) : WorkQueue T → Type 0 where
  puts : (available_at : ℕ) (task : T) → Move q (put_task available_at task q).1
  leases : (now count duration : ℕ) → Move q (lease now count duration q).1
  acks : (offset token : ℕ) → Move q (ack offset token q)
  nacks : (now offset token : ℕ) (requeue : Bool) → Move q (nack now offset token requeue q)
  reschedules : (offset available_at : ℕ) → Move q (reschedule offset available_at q)

pub data Reaches {T : Type 0} (q : WorkQueue T) : WorkQueue T → Type 0 where
  here : Reaches q q
  then_move : {r s : WorkQueue T} → Reaches q r → Move r s → Reaches q s

pub Move-IsKept : {T : Type 0} (q r : WorkQueue T) → IsKept q → Move q r → IsKept r
Move-IsKept q r v (puts available_at task) = put_task-IsKept available_at task q v
Move-IsKept q r v (leases now count duration) = lease-IsKept now count duration q v
Move-IsKept q r v (acks offset token) = ack-IsKept offset token q v
Move-IsKept q r v (nacks now offset token requeue) = nack-IsKept now offset token requeue q v
Move-IsKept q r v (reschedules offset available_at) = reschedule-IsKept offset available_at q v

pub new_queue-IsKept : {T : Type 0} → IsKept (new_queue {T = T})
unfolding new_queue lookup
new_queue-IsKept = record {
  fresh = λ i e at. cc;
  waiting = λ i e at free. cc;
  given = λ i k e at t. cc;
  unique = λ i j k e f at at' t t'. cc;
}

-- In every queue that calls make of a new one no task is lost: an entry that is not leased waits in the heap
-- at the time from which it is available. No two entries hold one token, all tokens held
-- were given out, and all offsets are below the next one.
pub Reaches-IsKept : {T : Type 0} (q : WorkQueue T) → Reaches new_queue q → IsKept q
Reaches-IsKept q here = new_queue-IsKept
Reaches-IsKept q (then_move {r = r} before m) = Move-IsKept r q (Reaches-IsKept r before) m
