-- ===== src/Runtime/Queue/Held.antt =====
-- The tasks that the work queue in memory (tm/runtime/queue/memory.py) holds.
use trace_mind.Prelude.{
  ℕ, zero, suc, ◌+◌, ◌≡◌, refl, sym, ◌∙◌, ap, Bool, false, ◌||◌, Option, none, some, List, [], ◌∷◌,
  arith, ◌==◌, nat_HasEq, ltb, Dict, lookup, put, without, keys, contains, Distinct, lookup-put,
  eq_iff_at, eq_refl, Bool-cases, Option-cases, inl, inr,
}
use trace_mind.Runtime.Queue.{
  Entry, WorkQueue, heappush, has_token, unleased, is_expired, release_from, release_expired,
  take_entry, lease_loop, lease,
}

module _ {V : Type 0} where
  contains-keys-put :
      (k j : ℕ) (v : V) (d : Dict ℕ V)
      → contains (keys (put k v d)) j ≡ (k == j || contains (keys d) j)
  unfolding put
  contains-keys-put k j v [] = ground arith
  contains-keys-put k j v ((i, w) ∷ d) =
      ground (arith, eq_iff_at i k, eq_iff_at i j, eq_iff_at k j, contains-keys-put k j v d)

  pub Distinct-keys-put :
      (k : ℕ) (v : V) (d : Dict ℕ V) → Distinct (keys d) → Distinct (keys (put k v d))
  unfolding put
  Distinct-keys-put k v [] h = (refl, tt)
  Distinct-keys-put k v ((i, w) ∷ d) (new, h) = elim (Bool-cases (i == k)) [
    | inl same ↦ rw (same, put) (new, h)
    | inr other ↦
        rw (other, put)
          (
            contains-keys-put k i v d ∙ ground (arith, eq_iff_at i k, eq_iff_at k i, new),
            Distinct-keys-put k v d h,
          )
  ]

  contains-keys-without :
      (k j : ℕ) (d : Dict ℕ V)
      → contains (keys d) j ≡ false
      → contains (keys (without k d)) j ≡ false
  unfolding without
  contains-keys-without k j [] h = refl
  contains-keys-without k j ((i, w) ∷ d) h =
      let ih = contains-keys-without k j d (ground arith) in ground arith

  pub Distinct-keys-without :
      (k : ℕ) (d : Dict ℕ V) → Distinct (keys d) → Distinct (keys (without k d))
  unfolding without
  Distinct-keys-without k [] h = tt
  Distinct-keys-without k ((i, w) ∷ d) (new, h) = elim (Bool-cases (i == k)) [
    | inl same ↦ rw (same, without) (Distinct-keys-without k d h)
    | inr other ↦ rw (other, without) (contains-keys-without k i d new, Distinct-keys-without k d h)
  ]

module _ {T : Type 0} where
  abbrev pub task_at : Option (Entry T) → Option T
  task_at none = none
  task_at (some e) = some e.task

  abbrev pub held : WorkQueue T → ℕ → Option T
  held q j = task_at (lookup j q.entries)

  abbrev pub accepts : WorkQueue T → ℕ → ℕ → Bool
  accepts q i k = elim (lookup i q.entries) [ none ↦ false | some e ↦ has_token e.token k ]

  -- An entry is changed, and its task is not.
  pub held-put :
      (i : ℕ) (e : Entry T) (q : WorkQueue T) (ready : List (ℕ × ℕ)) (seq : ℕ)
      → held q i ≡ some e.task
      → (j : ℕ)
      → held (record q { entries = put i e q.entries; ready = ready; lease_seq = seq }) j ≡ held q j
  held-put i e q ready seq was j = elim (Bool-cases (i == j)) [
    | inl same ↦
        let here = (eq_iff_at i j).0 same in
        simp (lookup-put, same) (sym was ∙ ap (λ k. held q k) here)
    | inr other ↦ simp (lookup-put, other) refl
  ]

  -- Each item stands for what the queue holds.
  abbrev Matches : (ℕ → Option T) → List (ℕ × Entry T) → Type 0
  Matches h [] = Unit
  Matches h ((i, e) ∷ items) = (h i ≡ some e.task) × Matches h items

  release_from-held :
      (now : ℕ) (items : List (ℕ × Entry T)) (h : ℕ → Option T) (q : WorkQueue T)
      → Matches h items
      → ((j : ℕ) → held q j ≡ h j)
      → (j : ℕ) → held (release_from now items q) j ≡ h j
  unfolding release_from
  release_from-held now [] h q m same j = same j
  release_from-held now ((i, e) ∷ items) h q (at, m) same j = elim (Bool-cases (is_expired now e)) [
    | inl over ↦
        rw (release_from, over)
          (release_from-held now items h
            (record q {
              entries = put i (unleased e) q.entries;
              ready = heappush (e.available_at, i) q.ready;
            })
            m
            (λ j.
              held-put i (unleased e) q (heappush (e.available_at, i) q.ready) q.lease_seq
                (same i ∙ at) j
              ∙ same j)
            j)
    | inr live ↦ rw (release_from, live) (release_from-held now items h q m same j)
  ]

  Matches-tail :
      (i : ℕ) (e : Entry T) (h : ℕ → Option T) (d items : Dict ℕ (Entry T))
      → contains (keys items) i ≡ false
      → Matches (λ j. task_at (lookup j d)) items
      → Matches (λ j. task_at (lookup j ((i, e) ∷ d))) items
  unfolding lookup
  Matches-tail i e h d [] new m = tt
  Matches-tail i e h d ((j, f) ∷ items) new (at, m) = (
    ground (arith, eq_iff_at i j, eq_iff_at j i, at),
    Matches-tail i e h d items (ground arith) m,
  )

  Matches-own : (d : Dict ℕ (Entry T)) → Distinct (keys d) → Matches (λ j. task_at (lookup j d)) d
  unfolding lookup
  Matches-own [] distinct = tt
  Matches-own ((i, e) ∷ d) (new, distinct) =
      (rw (eq_refl i) refl, Matches-tail i e (λ j. none) d d new (Matches-own d distinct))

  lease_loop-held :
      (now deadline left : ℕ) (heap : List (ℕ × ℕ)) (q : WorkQueue T) (j : ℕ)
      → held (lease_loop now deadline left heap q).1 j ≡ held q j
  unfolding lease_loop take_entry
  lease_loop-held now deadline left [] q j = refl
  lease_loop-held now deadline zero (x ∷ heap) q j = refl
  lease_loop-held now deadline (suc left) ((at, i) ∷ heap) q j = elim (Bool-cases (ltb now at)) [
    | inl early ↦ rw (lease_loop, early) refl
    | inr due ↦ elim (Option-cases (lookup i q.entries)) [
      | inl gone ↦ rw (lease_loop, due, gone) (lease_loop-held now deadline (suc left) heap q j)
      | inr (e, found) ↦
          rw (lease_loop, due, found)
            (lease_loop-held now deadline left heap (take_entry deadline i e q) j
              ∙ held-put i (record e { token = some (suc q.lease_seq); lease_deadline = deadline })
                  q q.ready (suc q.lease_seq) (rw found refl) j)
    ]
  ]

  pub lease-held :
      (now count duration : ℕ) (q : WorkQueue T) (j : ℕ)
      → Distinct (keys q.entries)
      → held (lease now count duration q).1 j ≡ held q j
  unfolding lease release_expired
  lease-held now count duration q j distinct = elim (Bool-cases (count == 0)) [
    | inl nothing ↦ rw (lease, nothing) refl
    | inr some_left ↦
        let r = release_expired now q in
        rw (lease, some_left)
          (lease_loop-held now (now + duration) count r.ready r j
            ∙ release_from-held now q.entries (held q) q (Matches-own q.entries distinct)
                (λ j. refl) j)
  ]
