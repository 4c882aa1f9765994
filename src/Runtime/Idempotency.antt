-- ===== src/Runtime/Idempotency.antt =====
-- tm/runtime/idempotency.py: the results of earlier executions, by key. Times are ticks, the clock is
-- an argument, and the snapshot files are left out. An OrderedDict is the list of its items.
pub mod Laws
use trace_mind.Prelude.{
  ℕ, zero, suc, ◌+◌, ◌≤◌, ◌<◌, ◌≡◌, refl, Bool, true, false, Option, none, some, List, [], ◌∷◌,
  ◌++◌, String, if◌then◌else◌, ◌==◌, nat_HasEq, text_HasEq, leb, ltb, Dict, lookup, put, without,
  length,
}

-- _Entry
pub record Cached (R : Type 0) : Type 0 where
  pub result : R
  pub expires_at : ℕ
  pub created_at : ℕ

pub record IdempotencyStore (R : Type 0) : Type 0 where
  pub capacity : ℕ
  pub entries : Dict String (Cached R)

module _ {R : Type 0} where
  -- `none` is the ValueError on a capacity of zero. There is no snapshot to load.
  unfoldable pub new_store : ℕ → Option (IdempotencyStore R)
  new_store capacity =
      if capacity == 0 then none else some (record { capacity = capacity; entries = [] })

  -- entries[key] = entry; entries.move_to_end(key)
  unfoldable pub set_last : String → Cached R → Dict String (Cached R) → Dict String (Cached R)
  unfolding without
  set_last key entry d = without key d ++ (key, entry) ∷ []

  -- The loop of `_enforce_capacity`: the oldest entries go.
  unfoldable pub enforce_capacity : ℕ → Dict String (Cached R) → Dict String (Cached R)
  enforce_capacity capacity [] = []
  enforce_capacity capacity (item ∷ d) =
      let rest = enforce_capacity capacity d in
      if ltb capacity (suc (length d)) then rest else item ∷ d

  unfoldable pub get : ℕ → String → IdempotencyStore R → Option R × IdempotencyStore R
  unfolding lookup without set_last
  get now key s = elim (lookup key s.entries) [
    | none ↦ (none, s)
    | some e ↦
        if leb e.expires_at now
        then (none, record s { entries = without key s.entries })
        else (some e.result, record s { entries = set_last key e s.entries })
  ]

  unfoldable pub remember : ℕ → String → R → ℕ → IdempotencyStore R → IdempotencyStore R
  unfolding set_last enforce_capacity
  remember now key result ttl s = if ttl == 0 then s else record s {
    entries = enforce_capacity s.capacity (
        set_last key (record { result = result; expires_at = now + ttl; created_at = now })
          s.entries);
  }

  unfoldable pub drop_expired : ℕ → Dict String (Cached R) → Dict String (Cached R)
  drop_expired now [] = []
  drop_expired now ((key, e) ∷ d) =
      let rest = drop_expired now d in if leb e.expires_at now then rest else (key, e) ∷ rest

  unfoldable pub prune : ℕ → IdempotencyStore R → IdempotencyStore R
  unfolding drop_expired
  prune now s = record s { entries = drop_expired now s.entries }

-- The guard of executions: results with the time at which they expire.
pub record ExecutionIdempotencyGuard (R : Type 0) : Type 0 where
  pub ttl_seconds : ℕ
  pub history : Dict String (R × ℕ)

module _ {R : Type 0} where
  unfoldable pub lookup_result :
      ℕ → String → ExecutionIdempotencyGuard R → Option R × ExecutionIdempotencyGuard R
  unfolding lookup without
  lookup_result now key g = elim (lookup key g.history) [
    | none ↦ (none, g)
    | some (result, expires_at) ↦
        if leb expires_at now
        then (none, record g { history = without key g.history })
        else (some result, g)
  ]

  unfoldable pub record_result :
      ℕ → String → R → ExecutionIdempotencyGuard R → ExecutionIdempotencyGuard R
  unfolding put
  record_result now key result g = record g {
    history = put key (result, now + g.ttl_seconds) g.history;
  }
