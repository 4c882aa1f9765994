-- ===== src/Governance/Rate.antt =====
-- RateTracker of tm/governance/ratelimit.py, and the settings that it shares with the budgets. A
-- rate is a number of calls for each window of QPS_WINDOW_SEC, which is one second of ticks.
use trace_mind.Prelude.{
  ℕ, ◌+◌, ◌-◌, ◌≤◌, ◌<◌, ◌≡◌, Bool, true, false, not, ◌&&◌, Option, none, some, arith,
  if◌then◌else◌, nat_HasEq, leb, ltb,
}
use trace_mind.Governance.Window.{RollingWindow, new_window, observe, total}

pub record LimitSettings : Type 0 where
  pub enabled : Bool
  pub qps : Option ℕ
  pub concurrency : Option ℕ
  pub tokens_per_min : Option ℕ
  pub cost_per_hour : Option ℕ

pub record RateTracker : Type 0 where
  pub qps_window : RollingWindow
  pub pending : ℕ
  pub active : ℕ

-- Has a number reached its limit, if there is one?
abbrev pub reached : Option ℕ → ℕ → Bool
reached none n = false
reached (some limit) n = leb limit n

abbrev pub is_limited : Option ℕ → Bool
is_limited none = false
is_limited (some limit) = true

module _ (settings : LimitSettings) where
  unfoldable pub new_tracker : ℕ → RateTracker
  unfolding new_window
  new_tracker second = record { qps_window = new_window second; pending = 0; active = 0 }

  -- The second half of `check_and_reserve`. The Boolean is RateDecision.allowed.
  unfoldable pub reserve : RateTracker → Bool × RateTracker
  reserve r =
      if reached settings.concurrency (r.active + r.pending)
      then (false, r)
      else (true, record r { pending = r.pending + 1 })

  unfoldable pub check_and_reserve : ℕ → RateTracker → Bool × RateTracker
  unfolding reserve total
  check_and_reserve now r =
      let current = total now r.qps_window in
      let seen = record r { qps_window = current.1 } in
      if not settings.enabled then (true, r) else elim settings.qps [
        | none ↦ reserve r
        | some limit ↦ if leb limit (current.0 + r.pending) then (false, seen) else reserve seen
      ]

  unfoldable pub activate : ℕ → RateTracker → RateTracker
  unfolding observe
  activate now r = if not settings.enabled then r else record {
    pending = if ltb 0 r.pending then r.pending - 1 else r.pending;
    active = if is_limited settings.concurrency then r.active + 1 else r.active;
    qps_window = if is_limited settings.qps then observe 1 now r.qps_window else r.qps_window;
  }

  unfoldable pub release : RateTracker → RateTracker
  release r =
      if not settings.enabled
      then r
      else if is_limited settings.concurrency && ltb 0 r.active
      then record r { active = r.active - 1 }
      else r

  unfoldable pub cancel_pending : RateTracker → RateTracker
  cancel_pending r =
      if not settings.enabled
      then r
      else if ltb 0 r.pending
      then record r { pending = r.pending - 1 }
      else r

-- What callers do: a call becomes active only after it has been reserved.
pub data Use (settings : LimitSettings) (r r' : RateTracker) : Type 0 where
  reserves : (now : ℕ) → r' ≡ (check_and_reserve settings now r).1 → Use settings r r'
  activates : (now : ℕ) → 0 < r.pending → r' ≡ activate settings now r → Use settings r r'
  releases : r' ≡ release settings r → Use settings r r'
  cancels : r' ≡ cancel_pending settings r → Use settings r r'

pub data Uses (settings : LimitSettings) (second : ℕ) : RateTracker → Type 0 where
  new : Uses settings second (new_tracker settings second)
  use_again :
      {r r' : RateTracker} → Uses settings second r → Use settings r r' → Uses settings second r'

module _ (settings : LimitSettings) (limit : ℕ) (limited : settings.concurrency ≡ some limit)
    (on : settings.enabled ≡ true) where
  abbrev Within : RateTracker → Type 0
  Within r = r.active + r.pending ≤ limit

  reserve-Within : (r : RateTracker) → Within r → Within (reserve settings r).1
  unfolding reserve
  reserve-Within r w = ground (arith, limited)

  check_and_reserve-Within :
      (now : ℕ) (r : RateTracker) → Within r → Within (check_and_reserve settings now r).1
  unfolding check_and_reserve
  check_and_reserve-Within now r w =
      let seen = record r { qps_window = (total now r.qps_window).1 } in
      let kept = reserve-Within seen w in let kept' = reserve-Within r w in ground (arith, on)

  Use-Within : (r r' : RateTracker) → Within r → Use settings r r' → Within r'
  unfolding activate release cancel_pending
  Use-Within r r' w (reserves now e) = rw e (check_and_reserve-Within now r w)
  Use-Within r r' w (activates now waits e) = rw e (ground (arith, on, limited))
  Use-Within r r' w (releases e) = rw e (ground (arith, on, limited))
  Use-Within r r' w (cancels e) = rw e (ground (arith, on))

-- A tracker that is enabled and has a limit on concurrency never has more calls active and reserved
-- together than the limit, if calls become active only after a reservation.
pub concurrency_bounded :
    (settings : LimitSettings) (limit second : ℕ)
    → settings.concurrency ≡ some limit
    → settings.enabled ≡ true
    → (r : RateTracker) → Uses settings second r
    → r.active + r.pending ≤ limit
unfolding new_tracker
concurrency_bounded settings limit second limited on r new = omega arith
concurrency_bounded settings limit second limited on r' (use_again {r = r} before u) =
    Use-Within settings limit limited on r r'
      (concurrency_bounded settings limit second limited on r before) u

-- An enabled tracker allows a call exactly if the calls of the window with those reserved are below
-- the rate and the calls active and reserved are below the limit on concurrency, where these are
-- set; a refusal reserves nothing, and what is allowed is reserved.
check_and_reserve_lem :
    (settings : LimitSettings) (now : ℕ) (r : RateTracker)
    → settings.enabled ≡ true
    → ((check_and_reserve settings now r).0 ≡ (
        not (reached settings.qps ((total now r.qps_window).0 + r.pending))
        && not (reached settings.concurrency (r.active + r.pending))))
      × ((check_and_reserve settings now r).1.pending
          ≡ r.pending + (if (check_and_reserve settings now r).0 then 1 else 0))
unfolding check_and_reserve reserve
check_and_reserve_lem settings now r on = (ground arith, ground arith)
