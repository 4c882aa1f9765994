-- ===== src/Governance/Window/Sums.antt =====
-- What a rolling window of tm/governance/utils.py sums after a run of observations.
use trace_mind.Prelude.{
  append_assoc, ℕ, ◌+◌, ◌-◌, ◌≤◌, ◌<◌, ◌≡◌, refl, ◌∙◌, ap, false, List, [], ◌∷◌, ◌++◌, arith, ◌==◌,
  nat_HasEq, leb, Bool-cases, inl, inr, subst,
}
use trace_mind.Governance.Window.{
  RollingEntry, RollingWindow, new_window, drop_old, less_old, prune, observe, total, values,
  recent, Between,
}

Between-lower :
    (lo lo' hi : ℕ) (es : List RollingEntry) → lo ≤ lo' → Between lo' es hi → Between lo es hi
Between-lower lo lo' hi [] le b = omega (arith, b)
Between-lower lo lo' hi (e ∷ es) le b = (omega (arith, b.0), b.1)

Between-upper :
    (lo hi hi' : ℕ) (es : List RollingEntry) → hi ≤ hi' → Between lo es hi → Between lo es hi'
Between-upper lo hi hi' [] le b = omega (arith, b)
Between-upper lo hi hi' (e ∷ es) le b = (b.0, Between-upper e.timestamp hi hi' es le b.1)

Between-concat :
    (lo now value : ℕ) (es : List RollingEntry)
    → Between lo es now
    → Between lo (es ++ record { timestamp = now; value = value } ∷ []) now
Between-concat lo now value [] b = (b, omega arith)
Between-concat lo now value (e ∷ es) b = (b.0, Between-concat e.timestamp now value es b.1)

Between-le : (lo hi : ℕ) (es : List RollingEntry) → Between lo es hi → lo ≤ hi
Between-le lo hi [] b = b
Between-le lo hi (e ∷ es) b = omega (arith, b.0, Between-le e.timestamp hi es b.1)

Between-drop_old :
    (w now lo hi : ℕ) (es : List RollingEntry)
    → Between lo es hi
    → Between lo (drop_old w now es) hi
unfolding drop_old
Between-drop_old w now lo hi [] b = b
Between-drop_old w now lo hi (e ∷ es) b = elim (Bool-cases (leb (e.timestamp + w) now)) [
  | inl old ↦
      rw (drop_old, old)
        (Between-lower lo e.timestamp hi (drop_old w now es) b.0
          (Between-drop_old w now e.timestamp hi es b.1))
  | inr new ↦ rw (drop_old, new) b
]

less_old-values :
    (w now total : ℕ) (es : List RollingEntry)
    → total ≡ values es
    → less_old w now total es ≡ values (drop_old w now es)
unfolding drop_old less_old
less_old-values w now total [] e = e
less_old-values w now total (x ∷ es) e =
    let ih = less_old-values w now (total - x.value) es (omega (arith, e)) in ground arith

all_recent :
    (w now lo hi : ℕ) (es : List RollingEntry)
    → Between lo es hi
    → now < lo + w
    → recent w now es ≡ values es
all_recent w now lo hi [] b h = refl
all_recent w now lo hi (e ∷ es) b h =
    let ih = all_recent w now e.timestamp hi es b.1 (omega (arith, b.0)) in ground (arith, b.0)

values-drop_old :
    (w now lo hi : ℕ) (es : List RollingEntry)
    → Between lo es hi
    → values (drop_old w now es) ≡ recent w now es
unfolding drop_old
values-drop_old w now lo hi [] b = refl
values-drop_old w now lo hi (e ∷ es) b =
    let ih = values-drop_old w now e.timestamp hi es b.1 in
    elim (Bool-cases (leb (e.timestamp + w) now)) [
      | inl old ↦ ground arith
      | inr new ↦ let rest = all_recent w now e.timestamp hi es b.1 (ground arith) in ground arith
    ]

recent-drop_old :
    (w now later : ℕ) (es : List RollingEntry)
    → now ≤ later
    → recent w later (drop_old w now es) ≡ recent w later es
unfolding drop_old
recent-drop_old w now later [] le = refl
recent-drop_old w now later (e ∷ es) le = let ih = recent-drop_old w now later es le in ground arith

recent-append :
    (w now : ℕ) (es fs : List RollingEntry)
    → recent w now (es ++ fs) ≡ recent w now es + recent w now fs
recent-append w now [] fs = omega arith
recent-append w now (e ∷ es) fs = omega (arith, recent-append w now es fs)

abbrev pub observe_all : List RollingEntry → RollingWindow → RollingWindow
observe_all [] r = r
observe_all (e ∷ es) r = observe_all es (observe e.value e.timestamp r)

-- The window holds in order, with their sum, entries that count as much as `seen` from `now` on.
record Holds (w now : ℕ) (seen : List RollingEntry) (r : RollingWindow) : Type 0 where
  width : r.window ≡ w
  sums : r.kept ≡ values r.entries
  ordered : Between 0 r.entries now
  counts : (later : ℕ) → now ≤ later → recent w later r.entries ≡ recent w later seen

prune-Holds :
    (w now later : ℕ) (seen : List RollingEntry) (r : RollingWindow)
    → now ≤ later
    → Holds w now seen r
    → Holds w later seen (prune later r)
unfolding prune
prune-Holds w now later seen r le h = record {
  width = h.width;
  sums = less_old-values r.window later r.kept r.entries h.sums;
  ordered =
      Between-drop_old r.window later 0 later r.entries
        (Between-upper 0 now later r.entries le h.ordered);
  counts = λ t after.
      rw h.width
        (recent-drop_old w later t r.entries after ∙ h.counts t (omega (arith, le, after)));
}

append_nil : (xs : List RollingEntry) → xs ++ [] ≡ xs
append_nil [] = refl
append_nil (x ∷ xs) = ap (λ l. x ∷ l) (append_nil xs)

values-append : (es fs : List RollingEntry) → values (es ++ fs) ≡ values es + values fs
values-append [] fs = omega arith
values-append (e ∷ es) fs = omega (arith, values-append es fs)

observe-Holds :
    (w now : ℕ) (seen : List RollingEntry) (r : RollingWindow) (e : RollingEntry)
    → 0 < w
    → now ≤ e.timestamp
    → Holds w now seen r
    → Holds w e.timestamp (seen ++ e ∷ []) (observe e.value e.timestamp r)
unfolding observe
observe-Holds w now seen r e positive le h =
    let p = prune-Holds w now e.timestamp seen r le h in
    let q = prune e.timestamp r in
    let wide : (r.window == 0) ≡ false = ground (arith, h.width) in
    rw (observe, wide)
      (record {
        width = p.width;
        sums = omega (arith, p.sums, values-append q.entries (e ∷ []));
        ordered = Between-concat 0 e.timestamp e.value q.entries p.ordered;
        counts = λ t after. omega (
          arith,
          p.counts t after,
          recent-append w t q.entries (e ∷ []),
          recent-append w t seen (e ∷ []),
        );
      })

observe_all-Holds :
    (w now hi : ℕ) (seen events : List RollingEntry) (r : RollingWindow)
    → 0 < w
    → Between now events hi
    → Holds w now seen r
    → Holds w hi (seen ++ events) (observe_all events r)
observe_all-Holds w now hi seen [] r positive b h = rw (append_nil seen) (record {
  width = h.width;
  sums = h.sums;
  ordered = Between-upper 0 now hi r.entries b h.ordered;
  counts = λ t after. h.counts t (omega (arith, b, after));
})
observe_all-Holds w now hi seen (e ∷ es) r positive b h =
    subst (λ l. Holds w hi l (observe_all es (observe e.value e.timestamp r)))
      (append_assoc seen (e ∷ []) es)
      (observe_all-Holds w e.timestamp hi (seen ++ e ∷ []) es (observe e.value e.timestamp r)
        positive b.1 (observe-Holds w now seen r e positive b.0 h))

new-Holds : (w : ℕ) → Holds w 0 [] (new_window w)
unfolding new_window
new-Holds w = record { width = refl; sums = refl; ordered = omega arith; counts = λ later le. refl }

-- For a window of positive width: after observations at times in order, up to now, the total is the sum
-- of the values observed less than the width ago.
pub total-observe_all :
    (w now : ℕ) (events : List RollingEntry)
    → 0 < w
    → Between 0 events now
    → (total now (observe_all events (new_window w))).0 ≡ recent w now events
unfolding total prune
total-observe_all w now events positive b =
    let r = observe_all events (new_window w) in
    let h = observe_all-Holds w 0 now [] events (new_window w) positive b (new-Holds w) in
    let wide : (r.window == 0) ≡ false = ground (arith, h.width) in
    let left : less_old r.window now r.kept r.entries ≡ values (drop_old r.window now r.entries) =
      less_old-values r.window now r.kept r.entries h.sums in
    let now_recent : values (drop_old r.window now r.entries) ≡ recent r.window now r.entries =
      values-drop_old r.window now 0 now r.entries h.ordered in
    let counted : recent r.window now r.entries ≡ recent w now events =
      rw h.width (h.counts now (omega arith)) in
    rw (total, wide) (left ∙ now_recent ∙ counted)
