-- ===== src/Runtime/Idempotency/Laws.antt =====
-- What the caches of tm/runtime/idempotency.py give back.
use trace_mind.Prelude.{
  ℕ, ◌+◌, ◌≤◌, ◌<◌, ◌≡◌, refl, ap, ◌∙◌, false, none, some, [], ◌∷◌, ◌++◌, String, arith,
  if◌then◌else◌, ◌==◌, nat_HasEq, text_HasEq, leb, ltb, Dict, lookup, put, without, length, eq_refl,
  Bool-cases, Option-cases, lookup-put, lookup-without, length-without-le, length-append, inl, inr,
}
use trace_mind.Runtime.Idempotency.{
  Cached, IdempotencyStore, new_store, set_last, enforce_capacity, get, remember, drop_expired,
  prune, ExecutionIdempotencyGuard, lookup_result, record_result,
}

module _ {R : Type 0} where
  lookup-append :
      (k : String) (d f : Dict String (Cached R))
      → lookup k (d ++ f) ≡ elim (lookup k d) [ none ↦ lookup k f | some e ↦ some e ]
  unfolding lookup
  lookup-append k [] f = refl
  lookup-append k ((j, e) ∷ d) f = ground (arith, lookup-append k d f)

  lookup-set_last :
      (k j : String) (e : Cached R) (d : Dict String (Cached R))
      → lookup j (set_last k e d) ≡ (if k == j then some e else lookup j d)
  unfolding set_last lookup
  lookup-set_last k j e d =
      ground (arith, lookup-append j (without k d) ((k, e) ∷ []), lookup-without k j d)

  length-enforce_capacity : (n : ℕ) (d : Dict String (Cached R)) → length (enforce_capacity n d) ≤ n
  unfolding enforce_capacity
  length-enforce_capacity n [] = omega arith
  length-enforce_capacity n (x ∷ d) = let ih = length-enforce_capacity n d in ground arith

  -- The last item stays.
  lookup-enforce_capacity-last :
      (n : ℕ) (k : String) (e : Cached R) (d : Dict String (Cached R))
      → 0 < n
      → lookup k d ≡ none
      → lookup k (enforce_capacity n (d ++ (k, e) ∷ [])) ≡ some e
  unfolding enforce_capacity lookup
  lookup-enforce_capacity-last n k e [] positive fresh = ground (arith, eq_refl k)
  lookup-enforce_capacity-last n k e ((j, f) ∷ d) positive fresh =
      let other : (j == k) ≡ false = ground arith in
      let rest : lookup k d ≡ none = ground arith in
      let ih = lookup-enforce_capacity-last n k e d positive rest in
      let there = lookup-append k d ((k, e) ∷ []) in ground (arith, eq_refl k)

  enforce_capacity-fits :
      (n : ℕ) (d : Dict String (Cached R)) → length d ≤ n → enforce_capacity n d ≡ d
  unfolding enforce_capacity
  enforce_capacity-fits n [] h = refl
  enforce_capacity-fits n (x ∷ d) h = ground arith

  length-drop_expired :
      (now : ℕ) (d : Dict String (Cached R)) → length (drop_expired now d) ≤ length d
  unfolding drop_expired
  length-drop_expired now [] = omega arith
  length-drop_expired now (x ∷ d) = let ih = length-drop_expired now d in ground arith

  lookup-length :
      (k : String) (e : Cached R) (d : Dict String (Cached R))
      → lookup k d ≡ some e
      → length (without k d) < length d
  unfolding lookup without
  lookup-length k e [] h = cc
  lookup-length k e ((j, f) ∷ d) h =
      let le = length-without-le k d in
      elim (Bool-cases (j == k)) [
        | inl same ↦ ground arith
        | inr other ↦ let ih = lookup-length k e d (ground arith) in ground arith
      ]

  last_stays :
      (n : ℕ) (k : String) (e : Cached R) (d : Dict String (Cached R))
      → 0 < n
      → lookup k (enforce_capacity n (set_last k e d)) ≡ some e
  unfolding set_last
  last_stays n k e d positive =
      lookup-enforce_capacity-last n k e (without k d) positive
        (ground (arith, lookup-without k k d, eq_refl k))

  length-set_last-le :
      (k : String) (e : Cached R) (d : Dict String (Cached R))
      → length (set_last k e d) ≤ length d + 1
  unfolding set_last
  length-set_last-le k e d =
      omega (arith, length-append (without k d) ((k, e) ∷ []), length-without-le k d)

-- One call of an operation of the store.
pub data Move {R : Type 0} (s : IdempotencyStore R) : IdempotencyStore R → Type 0 where
  gets : (now : ℕ) (key : String) → Move s (get now key s).1
  remembers :
      (now : ℕ) (key : String) (result : R) (ttl : ℕ) → Move s (remember now key result ttl s)
  prunes : (now : ℕ) → Move s (prune now s)

pub data Runs {R : Type 0} (capacity : ℕ) : IdempotencyStore R → Type 0 where
  new : (s : IdempotencyStore R) → new_store capacity ≡ some s → Runs capacity s
  then_move : {s t : IdempotencyStore R} → Runs capacity s → Move s t → Runs capacity t

module _ {R : Type 0} where
  abbrev Bounded : ℕ → IdempotencyStore R → Type 0
  Bounded n s = (s.capacity ≡ n) × (length s.entries ≤ n)

  get-Bounded :
      (n now : ℕ) (key : String) (s : IdempotencyStore R)
      → Bounded n s
      → Bounded n (get now key s).1
  unfolding get set_last
  get-Bounded n now key s b = elim (Option-cases (lookup key s.entries)) [
    | inl missing ↦ rw (get, missing) b
    | inr (e, found) ↦
        let shorter = lookup-length key e s.entries found in
        elim (Bool-cases (leb e.expires_at now)) [
          | inl expired ↦ rw (get, found, expired) (b.0, omega (arith, shorter, b.1))
          | inr live ↦
              rw (get, found, live)
                (
                  b.0,
                  omega
                      (arith, shorter, b.1, length-append (without key s.entries) ((key, e) ∷ [])),
                )
        ]
  ]

  Move-Bounded : (n : ℕ) (s t : IdempotencyStore R) → Bounded n s → Move s t → Bounded n t
  unfolding remember prune
  Move-Bounded n s t b (gets now key) = get-Bounded n now key s b
  Move-Bounded n s t b (remembers now key result ttl) = elim (Bool-cases (ttl == 0)) [
    | inl nothing ↦ rw (remember, nothing) b
    | inr kept ↦
        let e : Cached R = record { result = result; expires_at = now + ttl; created_at = now } in
        rw (remember, kept)
          (b.0, omega (arith, b.0, length-enforce_capacity s.capacity (set_last key e s.entries)))
  ]
  Move-Bounded n s t b (prunes now) = (b.0, omega (arith, b.1, length-drop_expired now s.entries))

-- Whatever calls were made, a store never holds more entries than the capacity that it was made
-- with, and its capacity is positive.
pub store_bounded :
    {R : Type 0} (capacity : ℕ) (s : IdempotencyStore R)
    → Runs capacity s
    → (length s.entries ≤ capacity) × (s.capacity ≡ capacity) × (0 < capacity)
unfolding new_store
store_bounded capacity s (new s' made) = (ground arith, ground arith, ground arith)
store_bounded capacity t (then_move {s = s} before m) =
    let (bounded, same, positive) = store_bounded capacity s before in
    let (same', bounded') = Move-Bounded capacity s t (same, bounded) m in
    (bounded', same', positive)

get_live :
    {R : Type 0} (now : ℕ) (key : String) (e : Cached R) (s : IdempotencyStore R)
    → lookup key s.entries ≡ some e
    → now < e.expires_at
    → (get now key s).0 ≡ some e.result
unfolding get
get_live now key e s found live =
    let alive : leb e.expires_at now ≡ false = ground arith in rw (get, found, alive) refl

-- What `get` gives depends on the entry of its key alone.
get-lookup :
    {R : Type 0} (now : ℕ) (key : String) (s t : IdempotencyStore R)
    → lookup key s.entries ≡ lookup key t.entries
    → (get now key s).0 ≡ (get now key t).0
unfolding get
get-lookup now key s t same = elim (Option-cases (lookup key t.entries)) [
  | inl missing ↦ let missing' = same ∙ missing in rw (get, missing, missing') refl
  | inr (e, found) ↦
      let found' = same ∙ found in
      elim (Bool-cases (leb e.expires_at now)) [
        | inl expired ↦ rw (get, found, found', expired) refl
        | inr live ↦ rw (get, found, found', live) refl
      ]
]

-- In a store of positive capacity, a result remembered for a positive time is found until that time
-- has passed; and if there is room for one entry more, the other keys give what they gave before.
pub get-remember :
    {R : Type 0} (now later ttl : ℕ) (key : String) (result : R) (s : IdempotencyStore R)
    → 0 < s.capacity
    → 0 < ttl
    → (later < now + ttl → (get later key (remember now key result ttl s)).0 ≡ some result)
      × ((other : String)
          → length s.entries < s.capacity
          → (key == other) ≡ false
          → (get later other (remember now key result ttl s)).0 ≡ (get later other s).0)
unfolding remember
get-remember {R = R} now later ttl key result s roomy lasting =
    let e : Cached R = record { result = result; expires_at = now + ttl; created_at = now } in
    let kept : (ttl == 0) ≡ false = ground arith in
    let stored : IdempotencyStore R = record s {
      entries = enforce_capacity s.capacity (set_last key e s.entries);
    } in
    (
      λ soon.
          rw (remember, kept)
            (get_live later key e stored (last_stays s.capacity key e s.entries roomy) soon),
      λ other room differs.
          let fits =
            enforce_capacity-fits s.capacity (set_last key e s.entries)
              (omega (arith, room, length-set_last-le key e s.entries)) in
          let same = lookup-set_last key other e s.entries in
          rw (remember, kept)
            (get-lookup later other stored s (ap (λ d. lookup other d) fits ∙ rw differs at same)),
    )

lookup_result-lookup :
    {R : Type 0} (now : ℕ) (key : String) (g h : ExecutionIdempotencyGuard R)
    → lookup key g.history ≡ lookup key h.history
    → (lookup_result now key g).0 ≡ (lookup_result now key h).0
unfolding lookup_result
lookup_result-lookup now key g h same = elim (Option-cases (lookup key h.history)) [
  | inl missing ↦ let missing' = same ∙ missing in rw (lookup_result, missing, missing') refl
  | inr ((result, expires_at), found) ↦
      let found' = same ∙ found in
      elim (Bool-cases (leb expires_at now)) [
        | inl expired ↦ rw (lookup_result, found, found', expired) refl
        | inr live ↦ rw (lookup_result, found, found', live) refl
      ]
]

-- What the guard of executions recorded is found until its time to live has passed, and then it is
-- not; the other keys give what they gave before.
pub lookup_result-record_result :
    {R : Type 0} (now later : ℕ) (key other : String) (result : R) (g : ExecutionIdempotencyGuard R)
    → ((lookup_result later key (record_result now key result g)).0
        ≡ (if ltb later (now + g.ttl_seconds) then some result else none))
      × ((key == other) ≡ false
          → (lookup_result later other (record_result now key result g)).0
            ≡ (lookup_result later other g).0)
unfolding record_result lookup_result
lookup_result-record_result {R = R} now later key other result g =
    let entry : R × ℕ = (result, now + g.ttl_seconds) in
    let mine : lookup key (put key entry g.history) ≡ some entry =
      lookup-put key key entry g.history
      ∙ ap (λ b. if b then some entry else lookup key g.history) (eq_refl key) in
    (
      rw (lookup_result, mine) (ground arith),
      λ differs. lookup_result-lookup later other (record_result now key result g) g (
          lookup-put key other entry g.history
          ∙ ap (λ b. if b then some entry else lookup other g.history) differs),
    )
