-- ===== src/Runtime/Queue.antt =====
-- InMemoryWorkQueue of tm/runtime/queue/memory.py. Times are ticks, the clock is an argument; each
-- operation holds the lock, so it is one step. `acked` is set only on an entry that leaves the
-- dictionary in the same step, so no entry of the model has it. The token f"lease-{n}" is n. The
-- heap is the sorted list of what it holds.
pub mod Kept
pub mod Runs
pub mod Tasks
pub mod Released
pub mod Progress
pub mod Held
pub mod Protocol
use trace_mind.Prelude.{
  ℕ, zero, suc, ◌+◌, ◌-◌, ◌≤◌, ◌<◌, ◌≡◌, refl, Bool, true, false, not, ◌&&◌, ◌||◌, Option, none,
  some, List, [], ◌∷◌, arith, if◌then◌else◌, ◌==◌, nat_HasEq, leb, ltb, Dict, lookup, put, without,
  length,
}

pub record Entry (T : Type 0) : Type 0 where
  pub task : T
  pub available_at : ℕ
  pub lease_deadline : ℕ
  pub token : Option ℕ

pub record LeasedTask (T : Type 0) : Type 0 where
  pub offset : ℕ
  pub task : T
  pub lease_deadline : ℕ
  pub token : ℕ

pub record WorkQueue (T : Type 0) : Type 0 where
  pub next_offset : ℕ
  pub entries : Dict ℕ (Entry T)
  pub ready : List (ℕ × ℕ)
  pub lease_seq : ℕ

-- Tuples of numbers in the order of Python.
abbrev before : ℕ × ℕ → ℕ × ℕ → Bool
before (a, i) (b, j) = ltb a b || (a == b && leb i j)

-- heapq.heappush; heapq.heappop takes the head.
unfoldable pub heappush : ℕ × ℕ → List (ℕ × ℕ) → List (ℕ × ℕ)
heappush x [] = x ∷ []
heappush x (y ∷ ys) = let later = heappush x ys in if before x y then x ∷ y ∷ ys else y ∷ later

abbrev pub has_token : Option ℕ → ℕ → Bool
has_token none k = false
has_token (some t) k = t == k

abbrev pub is_leased : Option ℕ → Bool
is_leased none = false
is_leased (some t) = true

-- _extract_available_at; a delay below zero is zero
unfoldable pub extract_available_at : ℕ → ℕ → ℕ → ℕ
extract_available_at scheduled now_wall now_monotonic =
    if scheduled == 0 then now_monotonic else now_monotonic + (scheduled - now_wall)

module _ {T : Type 0} where
  unfoldable pub new_queue : WorkQueue T
  new_queue = record { next_offset = 0; entries = []; ready = []; lease_seq = 0 }

  unfoldable pub put_task : ℕ → T → WorkQueue T → ℕ × WorkQueue T
  unfolding put heappush
  put_task available_at task q = (
    q.next_offset,
    record q {
      next_offset = suc q.next_offset;
      entries =
          put q.next_offset
            (record { task = task; available_at = available_at; lease_deadline = 0; token = none })
            q.entries;
      ready = heappush (available_at, q.next_offset) q.ready;
    },
  )

  abbrev pub unleased : Entry T → Entry T
  unleased e = record e { token = none; lease_deadline = 0 }

  abbrev pub is_expired : ℕ → Entry T → Bool
  is_expired now e = is_leased e.token && leb e.lease_deadline now

  -- The loop of `_release_expired`, over a copy of the items.
  unfoldable pub release_from : ℕ → List (ℕ × Entry T) → WorkQueue T → WorkQueue T
  unfolding put heappush
  release_from now [] q = q
  release_from now ((offset, e) ∷ items) q = release_from now items (
      if is_expired now e
      then record q {
        entries = put offset (unleased e) q.entries;
        ready = heappush (e.available_at, offset) q.ready;
      }
      else q)

  unfoldable pub release_expired : ℕ → WorkQueue T → WorkQueue T
  unfolding release_from
  release_expired now q = release_from now q.entries q

  -- An entry leased by `lease`.
  unfoldable pub take_entry : ℕ → ℕ → Entry T → WorkQueue T → WorkQueue T
  unfolding put
  take_entry deadline offset e q = record q {
    lease_seq = suc q.lease_seq;
    entries =
        put offset (record e { token = some (suc q.lease_seq); lease_deadline = deadline })
          q.entries;
  }

  -- The loop of `lease`: `left` leases to go, over the heap.
  unfoldable pub lease_loop :
      ℕ → ℕ → ℕ → List (ℕ × ℕ) → WorkQueue T → List (LeasedTask T) × WorkQueue T
  unfolding take_entry lookup
  lease_loop now deadline left [] q = ([], record q { ready = [] })
  lease_loop now deadline zero (x ∷ heap) q = ([], record q { ready = x ∷ heap })
  lease_loop now deadline (suc left) ((available_at, offset) ∷ heap) q =
      let skipped = lease_loop now deadline (suc left) heap q in
      if ltb now available_at
      then ([], record q { ready = (available_at, offset) ∷ heap })
      else elim (lookup offset q.entries) [
        | none ↦ skipped
        | some e ↦
            let more = lease_loop now deadline left heap (take_entry deadline offset e q) in
            (
              record {
                offset = offset;
                task = e.task;
                lease_deadline = deadline;
                token = suc q.lease_seq;
              }
                  ∷ more.0,
              more.1,
            )
      ]

  -- `duration` is the lease in ticks.
  unfoldable pub lease : ℕ → ℕ → ℕ → WorkQueue T → List (LeasedTask T) × WorkQueue T
  unfolding lease_loop release_expired
  lease now count duration q =
      let r = release_expired now q in
      if count == 0 then ([], q) else lease_loop now (now + duration) count r.ready r

  unfoldable pub ack : ℕ → ℕ → WorkQueue T → WorkQueue T
  unfolding lookup without
  ack offset token q = elim (lookup offset q.entries) [
    | none ↦ q
    | some e ↦
        if has_token e.token token then record q { entries = without offset q.entries } else q
  ]

  unfoldable pub nack : ℕ → ℕ → ℕ → Bool → WorkQueue T → WorkQueue T
  unfolding lookup put without heappush
  nack now offset token requeue q = elim (lookup offset q.entries) [
    | none ↦ q
    | some e ↦
        let at = if ltb e.available_at now then now else e.available_at in
        if not (has_token e.token token)
        then q
        else if requeue
        then record q {
          entries = put offset (record (unleased e) { available_at = at }) q.entries;
          ready = heappush (at, offset) q.ready;
        }
        else record q { entries = without offset q.entries }
  ]

  unfoldable pub reschedule : ℕ → ℕ → WorkQueue T → WorkQueue T
  unfolding lookup put heappush
  reschedule offset available_at q = elim (lookup offset q.entries) [
    | none ↦ q
    | some e ↦ record q {
      entries = put offset (record e { available_at = available_at }) q.entries;
      ready = if is_leased e.token then q.ready else heappush (available_at, offset) q.ready;
    }
  ]

  unfoldable pub pending_count : WorkQueue T → ℕ
  pending_count q = length q.entries
