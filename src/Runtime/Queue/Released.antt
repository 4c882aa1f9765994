-- ===== src/Runtime/Queue/Released.antt =====
-- What `_release_expired` of tm/runtime/queue/memory.py does to the tasks, and how far the heap grows.
use trace_mind.Prelude.{
  ℕ, suc, ◌+◌, ◌≤◌, ◌≡◌, refl, ◌∙◌, ◌⊎◌, inl, inr, false, none, some, List, [], ◌∷◌, arith, ◌==◌,
  nat_HasEq, if◌then◌else◌, lookup, put, keys, contains, Distinct, lookup-put, length, eq_iff_at,
  Bool-cases, Option-cases,
}
use trace_mind.Runtime.Queue.{
  Entry, WorkQueue, heappush, is_leased, unleased, is_expired, release_from, release_expired,
  new_queue, reschedule,
}
use trace_mind.Runtime.Queue.Runs.{
  Move, puts, leases, acks, nacks, reschedules, Reaches, here, then_move, Reaches-IsKept,
}
use trace_mind.Runtime.Queue.Held.{Distinct-keys-put}
use trace_mind.Runtime.Queue.Protocol.{
  IsSound, put_task-IsSound, lease-IsSound, ack-IsSound, nack-IsSound,
}

length-heappush : (x : ℕ × ℕ) (heap : List (ℕ × ℕ)) → length (heappush x heap) ≡ suc (length heap)
unfolding heappush
length-heappush x [] = refl
length-heappush x (y ∷ heap) = ground (arith, length-heappush x heap)

module _ {T : Type 0} where
  reschedule-Distinct :
      (i at : ℕ) (q : WorkQueue T)
      → Distinct (keys q.entries)
      → Distinct (keys (reschedule i at q).entries)
  unfolding reschedule
  reschedule-Distinct i at q d = elim (Option-cases (lookup i q.entries)) [
    | inl gone ↦ rw (gone, reschedule) d
    | inr (e, found) ↦ rw (found, reschedule) (Distinct-keys-put i _ q.entries d)
  ]

  Move-Distinct : (q r : WorkQueue T) → IsSound q → Move q r → Distinct (keys r.entries)
  Move-Distinct q r sound (puts at task) = (put_task-IsSound at task q sound).1
  Move-Distinct q r sound (leases now count duration) = (lease-IsSound now count duration q sound).1
  Move-Distinct q r sound (acks i k) = (ack-IsSound i k q sound).1
  Move-Distinct q r sound (nacks now i k requeue) = (nack-IsSound now i k requeue q sound).1
  Move-Distinct q r sound (reschedules i at) = reschedule-Distinct i at q sound.1

  pub Reaches-Distinct : (q : WorkQueue T) → Reaches new_queue q → Distinct (keys q.entries)
  unfolding new_queue
  Reaches-Distinct q here = tt
  Reaches-Distinct q (then_move {r = r} run m) =
      Move-Distinct r q (Reaches-IsKept r run, Reaches-Distinct r run) m

  -- The heap grows by at most one for each item.
  release_from-length :
      (now : ℕ) (items : List (ℕ × Entry T)) (q : WorkQueue T)
      → length (release_from now items q).ready ≤ length q.ready + length items
  unfolding release_from
  release_from-length now [] q = omega arith
  release_from-length now ((i, e) ∷ items) q = elim (Bool-cases (is_expired now e)) [
    | inl over ↦
        let q' = record q {
          entries = put i (unleased e) q.entries;
          ready = heappush (e.available_at, i) q.ready;
        } in
        let grown = length-heappush (e.available_at, i) q.ready in
        let rest = release_from-length now items q' in
        rw (over, release_from) (omega (arith, grown, rest))
    | inr live ↦
        let rest = release_from-length now items q in rw (live, release_from) (omega (arith, rest))
  ]

  release_from-other :
      (now i : ℕ) (items : List (ℕ × Entry T)) (q : WorkQueue T)
      → contains (keys items) i ≡ false
      → lookup i (release_from now items q).entries ≡ lookup i q.entries
  unfolding release_from
  release_from-other now i [] q absent = refl
  release_from-other now i ((j, e) ∷ items) q absent = elim (Bool-cases (is_expired now e)) [
    | inl over ↦
        rw (over, release_from)
          (release_from-other now i items
              (record q {
                entries = put j (unleased e) q.entries;
                ready = heappush (e.available_at, j) q.ready;
              })
              (ground arith)
            ∙ ground (arith, lookup-put j i (unleased e) q.entries))
    | inr live ↦ rw (live, release_from) (release_from-other now i items q (ground arith))
  ]

  release_from-lookup :
      (now i : ℕ) (items : List (ℕ × Entry T)) (q : WorkQueue T) (e : Entry T)
      → Distinct (keys items)
      → lookup i items ≡ some e
      → lookup i q.entries ≡ some e
      → lookup i (release_from now items q).entries
        ≡ some (if is_expired now e then unleased e else e)
  unfolding release_from lookup
  release_from-lookup now i [] q e d at held = cc
  release_from-lookup now i ((j, f) ∷ items) q e (new, d) at held = elim (Bool-cases (j == i)) [
    | inl same ↦
        let k : j ≡ i = (eq_iff_at j i).0 same in
        let mine : f ≡ e = ground (arith, same) in
        let rest : contains (keys items) i ≡ false = rw k at new in
        elim (Bool-cases (is_expired now f)) [
          | inl over ↦
              rw (over, release_from, ← mine)
                (release_from-other now i items
                    (record q {
                      entries = put j (unleased f) q.entries;
                      ready = heappush (f.available_at, j) q.ready;
                    })
                    rest
                  ∙ ground (arith, lookup-put j i (unleased f) q.entries, over, same))
          | inr live ↦
              rw (live, release_from, ← mine)
                (release_from-other now i items q rest ∙ ground (arith, held, mine, live))
        ]
    | inr other ↦
        let later : lookup i items ≡ some e = ground (arith, other) in
        elim (Bool-cases (is_expired now f)) [
          | inl over ↦
              rw (over, release_from)
                (release_from-lookup now i items
                  (record q {
                    entries = put j (unleased f) q.entries;
                    ready = heappush (f.available_at, j) q.ready;
                  })
                  e d later (ground (arith, lookup-put j i (unleased f) q.entries, other, held)))
          | inr live ↦ rw (live, release_from) (release_from-lookup now i items q e d later held)
        ]
  ]

  pub release_expired-length :
      (now : ℕ) (q : WorkQueue T)
      → length (release_expired now q).ready ≤ length q.ready + length q.entries
  unfolding release_expired
  release_expired-length now q = release_from-length now q.entries q

  -- A task without a lease, or with one that is over, is there without a lease.
  pub release_expired-frees :
      (now i : ℕ) (q : WorkQueue T) (e : Entry T)
      → Distinct (keys q.entries)
      → lookup i q.entries ≡ some e
      → (e.token ≡ none) ⊎ (e.lease_deadline ≤ now)
      → (f : Entry T) × (lookup i (release_expired now q).entries ≡ some f)
        × (is_leased f.token ≡ false)
        × (f.available_at ≡ e.available_at)
        × (f.task ≡ e.task)
  unfolding release_expired
  release_expired-frees now i q e d at loose =
      let found = release_from-lookup now i q.entries q e d at at in
      elim (Bool-cases (is_expired now e)) [
        | inl over ↦ (unleased e, found ∙ rw over refl, refl, refl, refl)
        | inr live ↦ (
          e,
          found ∙ rw live refl,
          elim loose [ inl free ↦ ground (arith, free) | inr late ↦ ground (arith, late) ],
          refl,
          refl,
        )
      ]
