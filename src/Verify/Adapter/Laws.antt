-- ===== src/Verify/Adapter/Laws.antt =====
-- What the operations of tm/verify/adapter.py do to a state.
use trace_mind.Prelude.{
  ◌≡◌, refl, Bool, true, false, not, ◌&&◌, ◌||◌, some, List, [], ◌∷◌, ◌++◌, String, inl, inr, sym,
  ap, arith, if◌then◌else◌, ◌==◌, text_HasEq, Dict, put, without, has_key, has_key-put,
  has_key-without, contains, contains-append, Distinct, Distinct-concat, remove_first, Bool-cases,
  Option-cases, eq_iff_at, eq_refl, all, lookup, ◌↔◌,
}
use trace_mind.Verify.Selectors.{Key}
use trace_mind.Verify.State.{Value, State, bool}
use trace_mind.Verify.Adapter.{
  StepSpec, Plan, TraceMindAdapter, to_paths, collect_steps, is_enabled, collect_enabled,
  enabled_steps, reads_available, write_all, clear_all, add_new, run_step,
}

has_key-write_all :
    (ws : List String) (store : Dict String Value) (k : String)
    → has_key k (write_all ws store) ≡ (contains ws k || has_key k store)
has_key-write_all [] store k = refl
has_key-write_all (w ∷ ws) store k =
    ground
      (arith, has_key-write_all ws (put w (bool true) store) k, has_key-put w k (bool true) store)

has_key-clear_all :
    (cs : List String) (store : Dict String Value) (k : String)
    → has_key k (clear_all cs store) ≡ (not (contains cs k) && has_key k store)
has_key-clear_all [] store k = refl
has_key-clear_all (c ∷ cs) store k =
    ground (arith, has_key-clear_all cs (without c store) k, has_key-without c k store)

pub contains-collect_enabled :
    (plan : Plan) (s : State) (enabled names : List String) (x : String)
    → contains (collect_enabled plan s enabled names) x
      ≡ (contains enabled x || (contains names x && is_enabled plan s x))
unfolding collect_enabled
contains-collect_enabled plan s enabled [] x = ground arith
contains-collect_enabled plan s enabled (name ∷ names) x =
    let enabled' =
      if is_enabled plan s name && not (contains enabled name)
      then enabled ++ name ∷ []
      else enabled in
    elim (Bool-cases (name == x)) [
      | inl same ↦
          let e : name ≡ x = (eq_iff_at name x).0 same in
          ground (
            arith,
            contains-collect_enabled plan s enabled' names x,
            contains-append enabled (name ∷ []) x,
          )
      | inr other ↦ ground (
        arith,
        contains-collect_enabled plan s enabled' names x,
        contains-append enabled (name ∷ []) x,
      )
    ]

Distinct-collect_enabled :
    (plan : Plan) (s : State) (enabled names : List String)
    → Distinct enabled
    → Distinct (collect_enabled plan s enabled names)
unfolding collect_enabled
Distinct-collect_enabled plan s enabled [] d = d
Distinct-collect_enabled plan s enabled (name ∷ names) d =
    elim (Bool-cases (is_enabled plan s name && not (contains enabled name))) [
      | inl adds ↦
          rw (adds, collect_enabled)
            (Distinct-collect_enabled plan s (enabled ++ name ∷ []) names
              (Distinct-concat enabled name d (ground arith)))
      | inr skips ↦ rw (skips, collect_enabled) (Distinct-collect_enabled plan s enabled names d)
    ]

pub enabled_steps_lem :
    (a : TraceMindAdapter) (s : State)
    → ((x : String)
        → contains (enabled_steps a s) x ≡ (contains s.pending x && is_enabled a.plan s x))
      × Distinct (enabled_steps a s)
unfolding enabled_steps
enabled_steps_lem a s = (
  λ x. contains-collect_enabled a.plan s [] s.pending x,
  Distinct-collect_enabled a.plan s [] s.pending tt,
)

reads_available_iff :
    (reads : List String) (store : Dict String Value)
    → (all (λ r. has_key r store) reads ≡ true)
      ↔ ((r : String) → contains reads r ≡ true → has_key r store ≡ true)
reads_available_iff [] store = (λ h r m. cc, λ h. refl)
reads_available_iff (k ∷ reads) store =
    let ih = reads_available_iff reads store in
    (
      λ h r m. elim (Bool-cases (k == r)) [
        | inl same ↦ ground (arith, eq_iff_at k r)
        | inr other ↦ ih.0 (ground arith) r (ground arith)
      ],
      λ h.
          let first = h k (ground (arith, eq_refl k)) in
          let rest = ih.1 (λ r m. h r (ground arith)) in ground arith,
    )

-- A step is listed as enabled exactly if it is pending and the plan knows it by a specification of
-- which every key read is in the store; no step is listed twice.
pub enabled_steps_iff :
    (a : TraceMindAdapter) (s : State)
    → ((x : String)
        → (contains (enabled_steps a s) x ≡ true) ↔ (
            (contains s.pending x ≡ true)
            × ((spec : StepSpec) × (lookup x a.plan.steps ≡ some spec)
                × ((r : String) → contains spec.reads r ≡ true → has_key r s.store ≡ true))))
      × Distinct (enabled_steps a s)
unfolding is_enabled reads_available
enabled_steps_iff a s = (
  λ x.
      let listed = (enabled_steps_lem a s).0 x in
      (
        λ h. elim (Option-cases (lookup x a.plan.steps)) [
          | inl unknown ↦ absurd (ground arith)
          | inr (spec, known) ↦ (
            ground arith,
            (spec, known, (reads_available_iff spec.reads s.store).0 (ground arith)),
          )
        ],
        λ (waits, (spec, known, there)).
            let ready = (reads_available_iff spec.reads s.store).1 there in ground arith,
      ),
  (enabled_steps_lem a s).1,
)

contains-remove_first :
    (y x : String) (xs : List String)
    → Distinct xs
    → contains (remove_first y xs) x ≡ (contains xs x && not (y == x))
contains-remove_first y x [] d = refl
contains-remove_first y x (z ∷ xs) d =
    ground
      (arith, contains-remove_first y x xs d.1, d.0, eq_iff_at z y, eq_iff_at z x, eq_iff_at y x)

Distinct-remove_first : (y : String) (xs : List String) → Distinct xs → Distinct (remove_first y xs)
Distinct-remove_first y [] d = tt
Distinct-remove_first y (z ∷ xs) d = elim (Bool-cases (z == y)) [
  | inl same ↦ rw same d.1
  | inr other ↦
      rw other
        (ground (arith, contains-remove_first y z xs d.1, d.0), Distinct-remove_first y xs d.1)
]

contains-add_new :
    (old xs : List String) (x : String)
    → contains (add_new old xs) x ≡ (contains old x || contains xs x)
contains-add_new old [] x = ground arith
contains-add_new old (y ∷ xs) x = elim (Bool-cases (y == x)) [
  | inl same ↦
      let e : y ≡ x = (eq_iff_at y x).0 same in
      ground (
        arith,
        contains-add_new (if contains old y then old else old ++ y ∷ []) xs x,
        contains-append old (y ∷ []) x,
      )
  | inr other ↦ ground (
    arith,
    contains-add_new (if contains old y then old else old ++ y ∷ []) xs x,
    contains-append old (y ∷ []) x,
  )
]

Distinct-add_new : (old xs : List String) → Distinct old → Distinct (add_new old xs)
Distinct-add_new old [] d = d
Distinct-add_new old (y ∷ xs) d = elim (Bool-cases (contains old y)) [
  | inl there ↦ rw there (Distinct-add_new old xs d)
  | inr new ↦ rw new (Distinct-add_new (old ++ y ∷ []) xs (Distinct-concat old y d new))
]

-- No step is pending twice or done twice.
pub record IsValid (s : State) : Type 0 where
  pub pending : Distinct s.pending
  pub done : Distinct s.done

-- The parts of a state after a step, as sets.
pub record StepEffect (plan : Plan) (name : String) (spec : StepSpec) (s s' : State) : Type 0 where
  pub store :
      (k : String)
      → has_key k s'.store
        ≡ (not (contains spec.clears k) && (contains spec.writes k || has_key k s.store))
  pub done : (x : String) → contains s'.done x ≡ (contains s.done x || name == x)
  pub pending :
      (paths : List (List Key)) (triggered : List String)
      → to_paths spec.writes ≡ some paths
      → collect_steps plan.rules paths ≡ some triggered
      → (x : String)
      → contains s'.pending x ≡ ((contains s.pending x && not (name == x)) || contains triggered x)

-- A step that runs in a state without doubled entries writes its keys and then clears its keys,
-- joins the steps done, leaves the pending steps unless it is triggered again, and adds the steps
-- that its writes trigger; no entry is doubled after it.
pub run_step_effect :
    (plan : Plan) (s s' : State) (name : String) (spec : StepSpec)
    → IsValid s
    → run_step plan s name spec ≡ some s'
    → StepEffect plan name spec s s' × IsValid s'
unfolding run_step
run_step_effect plan s s' name spec v h = elim (Option-cases (to_paths spec.writes)) [
  | inl bad ↦ absurd (ground arith)
  | inr (paths, good) ↦ elim (Option-cases (collect_steps plan.rules paths)) [
    | inl bad ↦ absurd (ground arith)
    | inr (triggered, found) ↦ with_parts paths triggered good found
  ]
]
  where
    with_parts :
        (paths : List (List Key)) (triggered : List String)
        → to_paths spec.writes ≡ some paths
        → collect_steps plan.rules paths ≡ some triggered
        → StepEffect plan name spec s s' × IsValid s'
    with_parts paths triggered good found =
        let store : s'.store ≡ clear_all spec.clears (write_all spec.writes s.store) =
          ground arith in
        let pending : s'.pending ≡ add_new (remove_first name s.pending) triggered = ground arith in
        let done : s'.done ≡ (if contains s.done name then s.done else s.done ++ name ∷ []) =
          ground arith in
        (
          record {
            store = λ k. rw store (
                ground (
                  arith,
                  has_key-clear_all spec.clears (write_all spec.writes s.store) k,
                  has_key-write_all spec.writes s.store k,
                ));
            done = λ x.
                rw done (ground (arith, contains-append s.done (name ∷ []) x, eq_iff_at name x));
            pending = λ paths' triggered' good' found' x.
                let same : paths ≡ paths' = ground arith in
                let same' : triggered ≡ triggered' =
                  ground (arith, ap (collect_steps plan.rules) same) in
                rw (pending, ← same')
                  (ground (
                    arith,
                    contains-add_new (remove_first name s.pending) triggered x,
                    contains-remove_first name x s.pending v.pending,
                  ));
          },
          record {
            pending = rw pending (
                Distinct-add_new (remove_first name s.pending) triggered
                  (Distinct-remove_first name s.pending v.pending));
            done = rw done (done_distinct (contains s.done name) refl);
          },
        )
      where
        done_distinct :
            (b : Bool)
            → b ≡ contains s.done name
            → Distinct (if b then s.done else s.done ++ name ∷ [])
        done_distinct true e = v.done
        done_distinct false e = Distinct-concat s.done name v.done (sym e)
