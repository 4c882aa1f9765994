-- ===== src/Runtime/Queue/Kept.antt =====
-- What the work queue in memory (tm/runtime/queue/memory.py) keeps over all its operations.
use trace_mind.Prelude.{
  ℕ, ◌≤◌, ◌<◌, ◌≡◌, refl, sym, ap, ◌∙◌, subst, Bool, true, false, ◌&&◌, ◌||◌, some, List, [], ◌∷◌,
  arith, ◌==◌, nat_HasEq, Dict, lookup, put, without, eq_iff_at, Bool-cases, lookup-put,
  lookup-without, inl, inr, ◌⊎◌,
}
use trace_mind.Runtime.Queue.{Entry, WorkQueue, heappush, is_leased}

abbrev pub is_ready : ℕ → ℕ → List (ℕ × ℕ) → Bool
is_ready at offset [] = false
is_ready at offset ((a, i) ∷ ready) = (at == a && offset == i) || is_ready at offset ready

-- Offsets are not used again; an entry that is not leased waits in the heap at its time; tokens were
-- given out, each to one entry.
pub record IsKept {T : Type 0} (q : WorkQueue T) : Type 0 where
  pub fresh : (i : ℕ) (e : Entry T) → lookup i q.entries ≡ some e → i < q.next_offset
  pub waiting :
      (i : ℕ) (e : Entry T)
      → lookup i q.entries ≡ some e
      → is_leased e.token ≡ false
      → is_ready e.available_at i q.ready ≡ true
  pub given :
      (i k : ℕ) (e : Entry T) → lookup i q.entries ≡ some e → e.token ≡ some k → k ≤ q.lease_seq
  pub unique :
      (i j k : ℕ) (e f : Entry T)
      → lookup i q.entries ≡ some e
      → lookup j q.entries ≡ some f
      → e.token ≡ some k
      → f.token ≡ some k
      → i ≡ j

pub is_ready-heappush :
    (at offset a i : ℕ) (ready : List (ℕ × ℕ))
    → is_ready at offset (heappush (a, i) ready)
      ≡ ((at == a && offset == i) || is_ready at offset ready)
unfolding heappush
is_ready-heappush at offset a i [] = refl
is_ready-heappush at offset a i ((b, j) ∷ ready) =
    let ih = is_ready-heappush at offset a i ready in ground arith

pub from_put :
    {V : Type 0} (i j : ℕ) (e f : V) (d : Dict ℕ V)
    → lookup j (put i e d) ≡ some f
    → ((i ≡ j) × (e ≡ f)) ⊎ (((i == j) ≡ false) × (lookup j d ≡ some f))
from_put i j e f d h = elim (Bool-cases (i == j)) [
  | inl same ↦ inl ((eq_iff_at i j).0 same, ground (arith, lookup-put i j e d))
  | inr other ↦ inr (other, ground (arith, lookup-put i j e d))
]

module _ {T : Type 0} (q : WorkQueue T) (v : IsKept q) where
  pub stays :
      (i j : ℕ) (f : Entry T)
      → lookup j (without i q.entries) ≡ some f
      → lookup j q.entries ≡ some f
  stays i j f h = ground (arith, lookup-without i j q.entries)

  -- An entry is set, and the heap and the number of leases with it.
  pub set_entry :
      (i next seq : ℕ) (e : Entry T) (ready : List (ℕ × ℕ))
      → i < next
      → q.next_offset ≤ next
      → q.lease_seq ≤ seq
      → ((at j : ℕ) → (i == j) ≡ false → is_ready at j q.ready ≡ true → is_ready at j ready ≡ true)
      → (is_leased e.token ≡ false → is_ready e.available_at i ready ≡ true)
      → ((k : ℕ) → e.token ≡ some k → k ≤ seq)
      → ((j k : ℕ) (f : Entry T)
          → e.token ≡ some k
          → lookup j q.entries ≡ some f
          → f.token ≡ some k
          → i ≡ j)
      → IsKept (record q {
        next_offset = next;
        entries = put i e q.entries;
        ready = ready;
        lease_seq = seq;
      })
  set_entry i next seq e ready below more given grows waits had own = record {
    fresh = λ j f at. elim (from_put i j e f q.entries at) [
      | inl (same, e') ↦ omega (arith, same)
      | inr (other, old) ↦ omega (arith, v.fresh j f old)
    ];
    waiting = λ j f at free. elim (from_put i j e f q.entries at) [
      | inl (same, e') ↦
          subst (λ n. is_ready f.available_at n ready ≡ true) same
            (subst (λ (x : Entry T). is_ready x.available_at i ready ≡ true) e'
              (waits (ap (λ (x : Entry T). is_leased x.token) e' ∙ free)))
      | inr (other, old) ↦ grows f.available_at j other (v.waiting j f old free)
    ];
    given = λ j k f at t. elim (from_put i j e f q.entries at) [
      | inl (same, e') ↦ had k (ap (λ (x : Entry T). x.token) e' ∙ t)
      | inr (other, old) ↦ omega (arith, v.given j k f old t)
    ];
    unique = λ j l k f g at at' t t'. elim (from_put i j e f q.entries at) [
      | inl (same, e') ↦ elim (from_put i l e g q.entries at') [
        | inl (same', e'') ↦ sym same ∙ same'
        | inr (other, old) ↦ sym same ∙ own l k g (ap (λ (x : Entry T). x.token) e' ∙ t) old t'
      ]
      | inr (other, old) ↦ elim (from_put i l e g q.entries at') [
        | inl (same', e'') ↦ sym (own j k f (ap (λ (x : Entry T). x.token) e'' ∙ t') old t) ∙ same'
        | inr (other', old') ↦ v.unique j l k f g old old' t t'
      ]
    ];
  }

  pub remove_entry : (i : ℕ) → IsKept (record q { entries = without i q.entries })
  remove_entry i = record {
    fresh = λ j f at. v.fresh j f (stays i j f at);
    waiting = λ j f at free. v.waiting j f (stays i j f at) free;
    given = λ j k f at t. v.given j k f (stays i j f at) t;
    unique = λ j l k f g at at' t t'. v.unique j l k f g (stays i j f at) (stays i l g at') t t';
  }
