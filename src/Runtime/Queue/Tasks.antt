-- ===== src/Runtime/Queue/Tasks.antt =====
-- What becomes of a task in the work queue in memory (tm/runtime/queue/memory.py).
use trace_mind.Prelude.{
  ℕ, zero, suc, ◌+◌, ◌<◌, ◌≡◌, refl, ap, Bool, true, false, Option, none, some, List, [], ◌∷◌,
  arith, if◌then◌else◌, ◌==◌, nat_HasEq, ltb, Dict, lookup, put, without, any, keys, contains,
  eq_iff_at, eq_refl, Bool-cases, Option-cases, lookup-put, lookup-without, inl, inr,
}
use trace_mind.Runtime.Queue.{
  Entry, LeasedTask, WorkQueue, heappush, has_token, put_task, unleased, is_expired, release_from,
  release_expired, take_entry, lease_loop, lease, ack, nack, reschedule,
}
use trace_mind.Runtime.Queue.Runs.{
  Move, puts, leases, acks, nacks, reschedules, Reaches, here, then_move,
}

token_held : (o : Option ℕ) (k : ℕ) → has_token o k ≡ true → o ≡ some k
token_held none k h = absurd (ground arith)
token_held (some t) k h = ap some ((eq_iff_at t k).0 h)

-- `ack` with the token that the entry holds removes it, and changes no other entry; with any other token it
-- changes nothing.
ack_lem :
    {T : Type 0} (offset token : ℕ) (q : WorkQueue T) (e : Entry T)
    → lookup offset q.entries ≡ some e
    → ((e.token ≡ some token
          → (j : ℕ)
          → lookup j (ack offset token q).entries
            ≡ (if offset == j then none else lookup j q.entries))
        × (¬ (e.token ≡ some token) → ack offset token q ≡ q))
unfolding ack
ack_lem offset token q e found = (
  λ mine j.
      let held : has_token e.token token ≡ true = ground (arith, eq_refl token) in
      rw (ack, found, held) (lookup-without offset j q.entries),
  λ other. elim (Bool-cases (has_token e.token token)) [
    | inl same ↦ absurd (other (token_held e.token token same))
    | inr differs ↦ rw (ack, found, differs) refl
  ],
)

-- An offset that was given out and has no entry.
pub record IsGone {T : Type 0} (i : ℕ) (q : WorkQueue T) : Type 0 where
  pub given : i < q.next_offset
  pub absent : lookup i q.entries ≡ none

abbrev pub is_among : {T : Type 0} → ℕ → List (LeasedTask T) → Bool
is_among i leased = any (λ t. t.offset == i) leased

module _ {T : Type 0} (i : ℕ) where
  absent-put :
      (j : ℕ) (e : Entry T) (d : Dict ℕ (Entry T))
      → (j == i) ≡ false
      → lookup i d ≡ none
      → lookup i (put j e d) ≡ none
  absent-put j e d other gone = ground (arith, lookup-put j i e d)

  absent-without :
      (j : ℕ) (d : Dict ℕ (Entry T)) → lookup i d ≡ none → lookup i (without j d) ≡ none
  absent-without j d gone = ground (arith, lookup-without j i d)

  -- A key that is looked up with success is another one.
  found_other :
      (j : ℕ) (e : Entry T) (d : Dict ℕ (Entry T))
      → lookup i d ≡ none
      → lookup j d ≡ some e
      → (j == i) ≡ false
  found_other j e d gone found = elim (Bool-cases (j == i)) [
    | inl same ↦ let k : j ≡ i = (eq_iff_at j i).0 same in absurd (cc (gone, found, k))
    | inr other ↦ other
  ]

  release_from-IsGone :
      (now : ℕ) (items : List (ℕ × Entry T)) (q : WorkQueue T)
      → contains (keys items) i ≡ false
      → IsGone i q
      → IsGone i (release_from now items q)
  unfolding release_from
  release_from-IsGone now [] q other g = g
  release_from-IsGone now ((j, e) ∷ items) q other g = elim (Bool-cases (is_expired now e)) [
    | inl expired ↦
        rw (release_from, expired)
          (release_from-IsGone now items
            (record q {
              entries = put j (unleased e) q.entries;
              ready = heappush (e.available_at, j) q.ready;
            })
            (ground arith)
            (record {
              given = g.given;
              absent = absent-put j (unleased e) q.entries (ground arith) g.absent;
            }))
    | inr live ↦ rw (release_from, live) (release_from-IsGone now items q (ground arith) g)
  ]

  no_key : (d : Dict ℕ (Entry T)) → lookup i d ≡ none → contains (keys d) i ≡ false
  unfolding lookup
  no_key [] h = refl
  no_key ((j, e) ∷ d) h = let ih = no_key d in ground arith

  lease_loop-IsGone :
      (now deadline left : ℕ) (heap : List (ℕ × ℕ)) (q : WorkQueue T)
      → IsGone i q
      → IsGone i (lease_loop now deadline left heap q).1
        × (is_among i (lease_loop now deadline left heap q).0 ≡ false)
  unfolding lease_loop take_entry
  lease_loop-IsGone now deadline left [] q g = (record { given = g.given; absent = g.absent }, refl)
  lease_loop-IsGone now deadline zero (x ∷ heap) q g =
      (record { given = g.given; absent = g.absent }, refl)
  lease_loop-IsGone now deadline (suc left) ((at, j) ∷ heap) q g = elim (Bool-cases (ltb now at)) [
    | inl early ↦ rw (lease_loop, early) (record { given = g.given; absent = g.absent }, refl)
    | inr due ↦ elim (Option-cases (lookup j q.entries)) [
      | inl gone ↦ rw (lease_loop, due, gone) (lease_loop-IsGone now deadline (suc left) heap q g)
      | inr (e, found) ↦
          let other = found_other j e q.entries g.absent found in
          let e' = record e { token = some (suc q.lease_seq); lease_deadline = deadline } in
          let (gone, none_leased) =
            lease_loop-IsGone now deadline left heap (take_entry deadline j e q)
              (record { given = g.given; absent = absent-put j e' q.entries other g.absent }) in
          rw (lease_loop, due, found) (gone, ground (arith, other, none_leased))
    ]
  ]

  lease-IsGone :
      (now count duration : ℕ) (q : WorkQueue T)
      → IsGone i q
      → IsGone i (lease now count duration q).1
        × (is_among i (lease now count duration q).0 ≡ false)
  unfolding lease release_expired
  lease-IsGone now count duration q g = elim (Bool-cases (count == 0)) [
    | inl nothing ↦ rw (lease, nothing) (g, refl)
    | inr some_left ↦
        let r = release_expired now q in
        let g' = release_from-IsGone now q.entries q (no_key q.entries g.absent) g in
        rw (lease, some_left) (lease_loop-IsGone now (now + duration) count r.ready r g')
  ]

  -- No call brings a task back that is gone.
  Move-IsGone : (q r : WorkQueue T) → IsGone i q → Move q r → IsGone i r
  unfolding put_task lease release_expired ack nack reschedule
  Move-IsGone q r g (puts available_at task) = record {
    given = omega (arith, g.given);
    absent =
        absent-put q.next_offset
          (record { task = task; available_at = available_at; lease_deadline = 0; token = none })
          q.entries (let below = g.given in ground (arith, eq_iff_at q.next_offset i)) g.absent;
  }
  Move-IsGone q r g (leases now count duration) = (lease-IsGone now count duration q g).0
  Move-IsGone q r g (acks offset token) = elim (Option-cases (lookup offset q.entries)) [
    | inl gone ↦ rw (ack, gone) g
    | inr (e, found) ↦
        let removed : IsGone i (record q { entries = without offset q.entries }) = record {
          given = g.given;
          absent = absent-without offset q.entries g.absent;
        } in
        elim (Bool-cases (has_token e.token token)) [
          | inl mine ↦ rw (ack, found, mine) removed
          | inr other ↦ rw (ack, found, other) g
        ]
  ]
  Move-IsGone q r g (nacks now offset token requeue) =
      elim (Option-cases (lookup offset q.entries)) [
        | inl gone ↦ rw (nack, gone) g
        | inr (e, found) ↦
            let at = if ltb e.available_at now then now else e.available_at in
            let e' : Entry T = record (unleased e) { available_at = at } in
            let back : IsGone i (record q {
              entries = put offset e' q.entries;
              ready = heappush (at, offset) q.ready;
            }) =
              record {
                given = g.given;
                absent =
                    absent-put offset e' q.entries (found_other offset e q.entries g.absent found)
                      g.absent;
              } in
            let removed : IsGone i (record q { entries = without offset q.entries }) = record {
              given = g.given;
              absent = absent-without offset q.entries g.absent;
            } in
            elim (Bool-cases (has_token e.token token)) [
              | inr other ↦ rw (nack, found, other) g
              | inl mine ↦ elim (Bool-cases requeue) [
                | inl again ↦ rw (nack, found, mine, again) back
                | inr drop ↦ rw (nack, found, mine, drop) removed
              ]
            ]
      ]
  Move-IsGone q r g (reschedules offset available_at) =
      elim (Option-cases (lookup offset q.entries)) [
        | inl gone ↦ rw (reschedule, gone) g
        | inr (e, found) ↦
            let e' : Entry T = record e { available_at = available_at } in
            rw (reschedule, found)
              (record {
                given = g.given;
                absent =
                    absent-put offset e' q.entries (found_other offset e q.entries g.absent found)
                      g.absent;
              })
      ]

run-IsGone : {T : Type 0} (i : ℕ) (q r : WorkQueue T) → IsGone i q → Reaches q r → IsGone i r
run-IsGone i q r g here = g
run-IsGone i q r g (then_move {r = p} before m) = Move-IsGone i p r (run-IsGone i q p g before) m

-- Once a task that was given out has no entry (it was acknowledged, or dropped by a nack), whatever calls
-- follow, it never has one again and no lease returns it.
pub gone_for_good :
    {T : Type 0} (i : ℕ) (q r : WorkQueue T)
    → IsGone i q
    → Reaches q r
    → (lookup i r.entries ≡ none)
      × ((now count duration : ℕ) → is_among i (lease now count duration r).0 ≡ false)
gone_for_good i q r g run =
    let g' = run-IsGone i q r g run in
    (g'.absent, λ now count duration. (lease-IsGone i now count duration r g').1)
