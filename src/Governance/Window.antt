-- ===== src/Governance/Window.antt =====
-- RollingWindow of tm/governance/utils.py. Times are ticks and values units of a fixed size, where
-- the code has floats; a negative window is 0.
pub mod Sums
use trace_mind.Prelude.{
  ℕ, zero, suc, ◌+◌, ◌-◌, ◌≤◌, ◌<◌, ◌≡◌, refl, sym, ◌∙◌, ap, Bool, true, false, List, [], ◌∷◌, ◌++◌,
  arith, if◌then◌else◌, ◌==◌, nat_HasEq, leb, ltb, Bool-cases, inl, inr,
}

pub record RollingEntry : Type 0 where
  pub timestamp : ℕ
  pub value : ℕ

pub record RollingWindow : Type 0 where
  pub window : ℕ
  pub entries : List RollingEntry
  pub kept : ℕ

unfoldable pub new_window : ℕ → RollingWindow
new_window window = record { window = window; entries = []; kept = 0 }

-- The loop of `_prune`: what is left of the entries, and of the total.
unfoldable pub drop_old : ℕ → ℕ → List RollingEntry → List RollingEntry
drop_old w now [] = []
drop_old w now (e ∷ es) =
    let rest = drop_old w now es in if leb (e.timestamp + w) now then rest else e ∷ es

unfoldable pub less_old : ℕ → ℕ → ℕ → List RollingEntry → ℕ
less_old w now total [] = total
less_old w now total (e ∷ es) =
    let rest = less_old w now (total - e.value) es in
    if leb (e.timestamp + w) now then rest else total

unfoldable pub prune : ℕ → RollingWindow → RollingWindow
unfolding drop_old less_old
prune now r = record r {
  entries = drop_old r.window now r.entries;
  kept = less_old r.window now r.kept r.entries;
}

unfoldable pub observe : ℕ → ℕ → RollingWindow → RollingWindow
unfolding prune
observe value now r =
    if r.window == 0
    then r
    else let p = prune now r in
      record p {
        entries = p.entries ++ record { timestamp = now; value = value } ∷ [];
        kept = p.kept + value;
      }

-- `total` gives the sum, and prunes.
unfoldable pub total : ℕ → RollingWindow → ℕ × RollingWindow
unfolding prune
total now r = if r.window == 0 then (0, r) else let p = prune now r in (p.kept, p)

unfoldable pub reset : RollingWindow → RollingWindow
reset r = record r { entries = []; kept = 0 }

abbrev pub values : List RollingEntry → ℕ
values [] = 0
values (e ∷ es) = e.value + values es

unfoldable pub extend : List RollingEntry → RollingWindow → RollingWindow
extend es r = record r { entries = r.entries ++ es; kept = values (r.entries ++ es) }

-- The sum of what was observed less than `w` before `now`.
abbrev pub recent : ℕ → ℕ → List RollingEntry → ℕ
recent w now [] = 0
recent w now (e ∷ es) = (if ltb now (e.timestamp + w) then e.value else 0) + recent w now es

-- Times in order, from lo to hi.
abbrev pub Between : ℕ → List RollingEntry → ℕ → Type 0
Between lo [] hi = lo ≤ hi
Between lo (e ∷ es) hi = (lo ≤ e.timestamp) × Between e.timestamp es hi
