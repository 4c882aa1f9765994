-- ===== src/Verify/Joint/Steps.antt =====
-- Lists of the steps of components, with the states that they lead to.
use trace_mind.Prelude.{
  ◌≡◌, refl, sym, ap, subst, Option, none, some, String, List, [], ◌∷◌, ◌++◌, nat_HasEq, text_HasEq,
  length, append_assoc, inl, inr,
}
use mathlib.Core.List.{Memᴰ}
use mathlib.Core.List.Memᴰ
use trace_mind.Verify.State.{State}
use trace_mind.Verify.Joint.{Memo, project, replace_at}
use trace_mind.Verify.Joint.Product.{behind}

pub none-some : {steps : List (String × List State)} → none ≡ some steps → ⊥
none-some h = cc

pub steps_inj : {u v : List (String × List State)} → some u ≡ some v → u ≡ v
steps_inj h = cc

abbrev pub Steps : Type 0
Steps = List (String × List State)

abbrev pub AllOf : (List State → Type 0) → Steps → Type 0
AllOf P [] = Unit
AllOf P ((l, j) ∷ steps) = P j × AllOf P steps

pub AllOf-append :
    (P : List State → Type 0) (xs ys : Steps) → AllOf P (xs ++ ys) → AllOf P xs × AllOf P ys
AllOf-append P [] ys h = (tt, h)
AllOf-append P ((l, j) ∷ xs) ys (p, h) = let (f, g) = AllOf-append P xs ys h in ((p, f), g)

pub append-AllOf :
    (P : List State → Type 0) (xs ys : Steps) → AllOf P xs → AllOf P ys → AllOf P (xs ++ ys)
append-AllOf P [] ys f g = g
append-AllOf P ((l, j) ∷ xs) ys (p, f) g = (p, append-AllOf P xs ys f g)

pub AllOf-from :
    (P : List State → Type 0) (xs : Steps)
    → ((l : String) (j : List State) → Memᴰ (l, j) xs → P j)
    → AllOf P xs
AllOf-from P [] h = tt
AllOf-from P ((l, j) ∷ xs) h =
    (h l j (Memᴰ.head refl), AllOf-from P xs (λ l j m. h l j (Memᴰ.tail m)))

pub AllOf-both :
    (P Q R : List State → Type 0) (xs : Steps)
    → ((j : List State) → P j → Q j → R j)
    → AllOf P xs
    → AllOf Q xs
    → AllOf R xs
AllOf-both P Q R [] f h g = tt
AllOf-both P Q R ((l, j) ∷ xs) f (p, h) (q, g) = (f j p q, AllOf-both P Q R xs f h g)

-- The steps of the components from one on, with the states before it.
abbrev pub with_front : List State → Steps → Steps
with_front pre [] = []
with_front pre ((l, sts) ∷ steps) = (l, pre ++ sts) ∷ with_front pre steps

pub with_front-append :
    (pre : List State) (xs ys : Steps)
    → with_front pre (xs ++ ys) ≡ with_front pre xs ++ with_front pre ys
with_front-append pre [] ys = refl
with_front-append pre ((l, j) ∷ xs) ys = ap (λ s. (l, pre ++ j) ∷ s) (with_front-append pre xs ys)

pub with_front-behind :
    (pre : List State) (st : State) (xs : Steps)
    → with_front pre (behind st xs) ≡ with_front (pre ++ (st ∷ [])) xs
with_front-behind pre st [] = refl
with_front-behind pre st ((l, j) ∷ xs) =
    rw (append_assoc pre (st ∷ []) j, with_front-behind pre st xs) refl

pub with_front-none : (xs : Steps) → with_front [] xs ≡ xs
with_front-none [] = refl
with_front-none ((l, j) ∷ xs) = ap (λ s. (l, j) ∷ s) (with_front-none xs)

pub replace_at-length :
    (pre sts : List State) (x st : State)
    → replace_at (length pre) x (pre ++ (st ∷ sts)) ≡ pre ++ (x ∷ sts)
replace_at-length [] sts x st = refl
replace_at-length (s ∷ pre) sts x st = ap (λ l. s ∷ l) (replace_at-length pre sts x st)

-- The steps with their tuples projected to states.
abbrev pub projected : List String → Steps → List (String × State)
projected ids [] = []
projected ids ((l, j) ∷ steps) = (l, project ids j) ∷ projected ids steps

pub projected-append :
    (ids : List String) (xs ys : Steps)
    → projected ids (xs ++ ys) ≡ projected ids xs ++ projected ids ys
projected-append ids [] ys = refl
projected-append ids ((l, j) ∷ xs) ys =
    ap (λ s. (l, project ids j) ∷ s) (projected-append ids xs ys)

abbrev pub AllIn : (List State → Type 0) → List (List State) → Type 0
AllIn P [] = Unit
AllIn P (j ∷ js) = P j × AllIn P js

pub AllIn-at :
    (P : List State → Type 0) (js : List (List State)) (j : List State)
    → AllIn P js
    → Memᴰ j js
    → P j
AllIn-at P [] j h m = absurd (Memᴰ.not-nil m)
AllIn-at P (k ∷ js) j (p, h) m = elim (Memᴰ.cases_cons m) [
  | inl same ↦ subst P (sym same) p
  | inr later ↦ AllIn-at P js j h later
]

pub AllIn-from :
    (P Q R : List State → Type 0) (js : List (List State))
    → ((j : List State) → P j → Q j → R j)
    → AllIn P js
    → AllIn Q js
    → AllIn R js
AllIn-from P Q R [] f h g = tt
AllIn-from P Q R (j ∷ js) f (p, h) (q, g) = (f j p q, AllIn-from P Q R js f h g)

abbrev pub targets : Steps → List (List State)
targets [] = []
targets ((l, j) ∷ steps) = j ∷ targets steps

pub AllIn-targets :
    (P : List State → Type 0) (steps : Steps) (js : List (List State))
    → AllOf P steps
    → AllIn P js
    → AllIn P (targets steps ++ js)
AllIn-targets P [] js h g = g
AllIn-targets P ((l, j) ∷ steps) js (p, h) g = (p, AllIn-targets P steps js h g)

pub second_inj :
    {A : Type 0} {x y : A} {m n : Memo}
    → ◌≡◌ {A = Option (A × Memo)} (some (x, m)) (some (y, n))
    → m ≡ n
second_inj h = cc
