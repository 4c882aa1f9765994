-- ===== src/Runtime/Queue/Progress.antt =====
-- The work queue in memory (tm/runtime/queue/memory.py) leases what is due.
use trace_mind.Prelude.{
  ℕ, zero, suc, ◌+◌, ◌≤◌, ◌<◌, ◌≡◌, sym, subst, Bool, true, false, ◌&&◌, none, Option, some, List,
  [], ◌∷◌, arith, if◌then◌else◌, ◌==◌, nat_HasEq, ltb, lookup, put, eq_iff_at, Bool-cases,
  Option-cases, lookup-put, inl, inr, length, ◌⊎◌, refl, ap, ◌∙◌, eq_refl,
}
use trace_mind.Runtime.Queue.{
  Entry, LeasedTask, WorkQueue, before, heappush, has_token, is_leased, new_queue, put_task,
  unleased, is_expired, release_from, release_expired, take_entry, lease_loop, lease, ack, nack,
  reschedule,
}
use trace_mind.Runtime.Queue.Kept.{is_ready}
use trace_mind.Runtime.Queue.Runs.{
  Move, puts, leases, acks, nacks, reschedules, Reaches, here, then_move, Reaches-IsKept,
  release_expired-IsKept,
}
use trace_mind.Runtime.Queue.Released.{
  Reaches-Distinct, release_expired-length, release_expired-frees,
}

-- The times of a heap in order, from lo on.
abbrev pub Ordered : ℕ → List (ℕ × ℕ) → Type 0
Ordered lo [] = Unit
Ordered lo ((a, i) ∷ heap) = (lo ≤ a) × Ordered a heap

heappush-Ordered :
    (lo a i : ℕ) (heap : List (ℕ × ℕ))
    → lo ≤ a
    → Ordered lo heap
    → Ordered lo (heappush (a, i) heap)
unfolding heappush
heappush-Ordered lo a i [] le o = (le, tt)
heappush-Ordered lo a i ((b, j) ∷ heap) le o = elim (Bool-cases (before (a, i) (b, j))) [
  | inl first ↦ rw (heappush, first) (le, (ground arith, o.1))
  | inr later ↦ rw (heappush, later) (o.0, heappush-Ordered b a i heap (ground arith) o.1)
]

Ordered-lower : (lo lo' : ℕ) (heap : List (ℕ × ℕ)) → lo ≤ lo' → Ordered lo' heap → Ordered lo heap
Ordered-lower lo lo' [] le o = tt
Ordered-lower lo lo' (x ∷ heap) le o = (omega (arith, le, o.0), o.1)

is_ready-Ordered :
    (lo at i : ℕ) (heap : List (ℕ × ℕ)) → Ordered lo heap → is_ready at i heap ≡ true → lo ≤ at
is_ready-Ordered lo at i [] o h = absurd (ground arith)
is_ready-Ordered lo at i ((a, j) ∷ heap) o h = elim (Bool-cases (at == a && i == j)) [
  | inl same ↦ ground (arith, eq_iff_at at a, o.0)
  | inr other ↦ let le = is_ready-Ordered a at i heap o.1 (ground arith) in omega (arith, le, o.0)
]

module _ {T : Type 0} where
  abbrev pub until_at : ℕ → Option (Entry T) → Bool
  until_at deadline none = false
  until_at deadline (some e) = is_leased e.token && e.lease_deadline == deadline

  -- Is the task leased until a deadline?
  abbrev pub leased_until : ℕ → ℕ → WorkQueue T → Bool
  leased_until i deadline q = until_at deadline (lookup i q.entries)

  -- Is a task handed out, at an offset and until a deadline?
  pub IsHanded : ℕ → T → ℕ → List (LeasedTask T) → Type 0
  IsHanded i task deadline [] = ⊥
  IsHanded i task deadline (t ∷ ts) =
      ((t.offset ≡ i) × (t.task ≡ task) × (t.lease_deadline ≡ deadline))
      ⊎ IsHanded i task deadline ts

  taken_until :
      (deadline j i : ℕ) (e : Entry T) (q : WorkQueue T)
      → ((j == i) ≡ true) ⊎ (leased_until i deadline q ≡ true)
      → leased_until i deadline (take_entry deadline j e q) ≡ true
  unfolding take_entry
  taken_until deadline j i e q h =
      let e' : Entry T = record e { token = some (suc q.lease_seq); lease_deadline = deadline } in
      let now_at = lookup-put j i e' q.entries in
      elim (Bool-cases (j == i)) [
        | inl same ↦ rw (now_at, same) (eq_refl deadline)
        | inr other ↦ elim h [
          | inl same ↦ absurd (cc (same, other))
          | inr was ↦ rw (now_at, other) was
        ]
      ]

  still_known :
      (deadline j i : ℕ) (f : Entry T) (q : WorkQueue T) (e : Entry T)
      → lookup i q.entries ≡ some e
      → (j == i) ≡ false
      → lookup i (take_entry deadline j f q).entries ≡ some e
  unfolding take_entry
  still_known deadline j i f q e known other =
      lookup-put j i (record f { token = some (suc q.lease_seq); lease_deadline = deadline })
        q.entries
      ∙ rw other known

  entry_inj : {e f : Entry T} → some e ≡ some f → e ≡ f
  entry_inj h = cc

  lease_loop-keeps :
      (now deadline left i : ℕ) (heap : List (ℕ × ℕ)) (q : WorkQueue T)
      → leased_until i deadline q ≡ true
      → leased_until i deadline (lease_loop now deadline left heap q).1 ≡ true
  unfolding lease_loop
  lease_loop-keeps now deadline left i [] q h = h
  lease_loop-keeps now deadline zero i (x ∷ heap) q h = h
  lease_loop-keeps now deadline (suc left) i ((a, j) ∷ heap) q h = elim (Bool-cases (ltb now a)) [
    | inl early ↦ rw (lease_loop, early) h
    | inr due ↦ elim (Option-cases (lookup j q.entries)) [
      | inl gone ↦ rw (lease_loop, due, gone) (lease_loop-keeps now deadline (suc left) i heap q h)
      | inr (e, found) ↦
          rw (lease_loop, due, found)
            (lease_loop-keeps now deadline left i heap (take_entry deadline j e q)
              (taken_until deadline j i e q (inr h)))
    ]
  ]

  lease_loop-due :
      (now deadline left lo at i : ℕ) (heap : List (ℕ × ℕ)) (q : WorkQueue T) (e : Entry T)
      → Ordered lo heap
      → length heap ≤ left
      → is_ready at i heap ≡ true
      → at ≤ now
      → lookup i q.entries ≡ some e
      → IsHanded i e.task deadline (lease_loop now deadline left heap q).0
        × (leased_until i deadline (lease_loop now deadline left heap q).1 ≡ true)
  unfolding lease_loop IsHanded
  lease_loop-due now deadline left lo at i [] q e o room ready due known = absurd (ground arith)
  lease_loop-due now deadline zero lo at i (x ∷ heap) q e o room ready due known =
      absurd (omega (arith, room))
  lease_loop-due now deadline (suc left) lo at i ((a, j) ∷ heap) q e o room ready due known =
      elim (Bool-cases (ltb now a)) [
        | inl early ↦
            let late : a ≤ at = is_ready-Ordered a at i ((a, j) ∷ heap) (omega arith, o.1) ready in
            absurd (ground arith)
        | inr in_time ↦ elim (Option-cases (lookup j q.entries)) [
          | inl gone ↦
              let other : (i == j) ≡ false = elim (Bool-cases (i == j)) [
                | inl same ↦ let k = (eq_iff_at i j).0 same in absurd (cc (gone, known, k))
                | inr differs ↦ differs
              ] in
              rw (lease_loop, in_time, gone)
                (lease_loop-due now deadline (suc left) a at i heap q e o.1 (omega (arith, room))
                  (ground arith) due known)
          | inr (f, found) ↦
              let q' = take_entry deadline j f q in
              elim (Bool-cases (i == j)) [
                | inl same ↦
                    let k : i ≡ j = (eq_iff_at i j).0 same in
                    let mine : f ≡ e =
                      entry_inj (sym found ∙ ap (λ n. lookup n q.entries) (sym k) ∙ known) in
                    let until =
                      taken_until deadline j i f q (inl (ground (arith, eq_iff_at j i))) in
                    rw (lease_loop, in_time, found)
                      (
                        inl (sym k, ap (λ (x : Entry T). x.task) mine, refl),
                        lease_loop-keeps now deadline left i heap q' until,
                      )
                | inr other ↦
                    let (handed, until) =
                      lease_loop-due now deadline left a at i heap q' e o.1 (omega (arith, room))
                        (ground arith) due
                        (still_known deadline j i f q e known
                          (ground (arith, eq_iff_at j i, eq_iff_at i j))) in
                    rw (lease_loop, in_time, found) (inr handed, until)
              ]
        ]
      ]

  release_from-Ordered :
      (now : ℕ) (items : List (ℕ × Entry T)) (q : WorkQueue T)
      → Ordered 0 q.ready
      → Ordered 0 (release_from now items q).ready
  unfolding release_from
  release_from-Ordered now [] q o = o
  release_from-Ordered now ((i, e) ∷ items) q o = elim (Bool-cases (is_expired now e)) [
    | inl expired ↦
        rw (release_from, expired)
          (release_from-Ordered now items
            (record q {
              entries = put i (unleased e) q.entries;
              ready = heappush (e.available_at, i) q.ready;
            })
            (heappush-Ordered 0 e.available_at i q.ready (omega arith) o))
    | inr live ↦ rw (release_from, live) (release_from-Ordered now items q o)
  ]

  lease_loop-Ordered :
      (now deadline left : ℕ) (heap : List (ℕ × ℕ)) (q : WorkQueue T)
      → Ordered 0 heap
      → Ordered 0 (lease_loop now deadline left heap q).1.ready
  unfolding lease_loop
  lease_loop-Ordered now deadline left [] q o = tt
  lease_loop-Ordered now deadline zero (x ∷ heap) q o = o
  lease_loop-Ordered now deadline (suc left) ((a, j) ∷ heap) q o =
      let rest = Ordered-lower 0 a heap (omega arith) o.1 in
      elim (Bool-cases (ltb now a)) [
        | inl early ↦ rw (lease_loop, early) o
        | inr due ↦ elim (Option-cases (lookup j q.entries)) [
          | inl gone ↦
              rw (lease_loop, due, gone) (lease_loop-Ordered now deadline (suc left) heap q rest)
          | inr (e, found) ↦
              rw (lease_loop, due, found)
                (lease_loop-Ordered now deadline left heap (take_entry deadline j e q) rest)
        ]
      ]

  ack-ready : (offset token : ℕ) (q : WorkQueue T) → (ack offset token q).ready ≡ q.ready
  unfolding ack
  ack-ready offset token q = ground arith

  Move-Ordered : (q r : WorkQueue T) → Ordered 0 q.ready → Move q r → Ordered 0 r.ready
  unfolding put_task lease release_expired ack nack reschedule
  Move-Ordered q r o (puts available_at task) =
      heappush-Ordered 0 available_at q.next_offset q.ready (omega arith) o
  Move-Ordered q r o (leases now count duration) = elim (Bool-cases (count == 0)) [
    | inl nothing ↦ rw (lease, nothing) o
    | inr some_left ↦
        let p = release_expired now q in
        rw (lease, some_left)
          (lease_loop-Ordered now (now + duration) count p.ready p
            (release_from-Ordered now q.entries q o))
  ]
  Move-Ordered q r o (acks offset token) =
      subst (λ l. Ordered 0 l) (sym (ack-ready offset token q)) o
  Move-Ordered q r o (nacks now offset token requeue) =
      elim (Option-cases (lookup offset q.entries)) [
        | inl gone ↦ rw (nack, gone) o
        | inr (e, found) ↦
            let at = if ltb e.available_at now then now else e.available_at in
            let pushed = heappush-Ordered 0 at offset q.ready (omega arith) o in
            elim (Bool-cases (has_token e.token token)) [
              | inr other ↦ rw (nack, found, other) o
              | inl mine ↦ elim (Bool-cases requeue) [
                | inl again ↦ rw (nack, found, mine, again) pushed
                | inr drop ↦ rw (nack, found, mine, drop) o
              ]
            ]
      ]
  Move-Ordered q r o (reschedules offset available_at) =
      elim (Option-cases (lookup offset q.entries)) [
        | inl gone ↦ rw (reschedule, gone) o
        | inr (e, found) ↦
            let pushed = heappush-Ordered 0 available_at offset q.ready (omega arith) o in
            elim (Bool-cases (is_leased e.token)) [
              | inl held ↦ rw (reschedule, found, held) o
              | inr free ↦ rw (reschedule, found, free) pushed
            ]
      ]

  release_expired-Ordered :
      (now : ℕ) (q : WorkQueue T) → Ordered 0 q.ready → Ordered 0 (release_expired now q).ready
  unfolding release_expired
  release_expired-Ordered now q o = release_from-Ordered now q.entries q o

  Reaches-Ordered : (q : WorkQueue T) → Reaches new_queue q → Ordered 0 q.ready
  unfolding new_queue
  Reaches-Ordered q here = tt
  Reaches-Ordered q (then_move {r = r} before m) = Move-Ordered r q (Reaches-Ordered r before) m

-- In a queue that calls make of a new one, let a task be available by now, and let it have no lease or
-- one whose deadline is not after now. A lease of a count that is positive and at least the length
-- of the heap and the number of tasks together hands that task out until now and the duration, and
-- the queue has it leased until then.
pub lease-due :
    {T : Type 0} (now count duration i : ℕ) (q : WorkQueue T) (e : Entry T)
    → Reaches new_queue q
    → 0 < count
    → length q.ready + length q.entries ≤ count
    → lookup i q.entries ≡ some e
    → (e.token ≡ none) ⊎ (e.lease_deadline ≤ now)
    → e.available_at ≤ now
    → IsHanded i e.task (now + duration) (lease now count duration q).0
      × (leased_until i (now + duration) (lease now count duration q).1 ≡ true)
unfolding lease
lease-due {T = T} now count duration i q e run positive room known loose due =
    let p = release_expired now q in
    let kept = release_expired-IsKept now q (Reaches-IsKept q run) in
    let ordered : Ordered 0 p.ready = release_expired-Ordered now q (Reaches-Ordered q run) in
    let some_left : (count == 0) ≡ false = ground arith in
    let (f, found, free, at, same) =
      release_expired-frees now i q e (Reaches-Distinct q run) known loose in
    let fits : length p.ready ≤ count = omega (arith, room, release_expired-length now q) in
    let (handed, until) =
      lease_loop-due now (now + duration) count 0 f.available_at i p.ready p f ordered fits
        (kept.waiting i f found free) (omega (arith, at, due)) found in
    rw (lease, some_left)
      (
        subst
            (λ (t : T).
              IsHanded i t (now + duration) (lease_loop now (now + duration) count p.ready p).0)
            same handed,
        until,
      )
