-- ===== src/Base/Picks.antt =====
-- Predicates beside the Boolean quantifiers of lists: some element, and the elements that one picks.
use mathlib.Core.Path.{◌≡◌, refl}
use mathlib.Core.Logic.{◌↔◌, ◌⊎◌, inl, inr}
use mathlib.Core.Bool.{Bool, true}
use mathlib.Core.List.{List, [], ◌∷◌}
use native.Mathlib.Omega.{arith}
use pulumi_rs_kube_operator.Base.Lists.{any, retain}
use pulumi_rs_kube_operator.Base.Tests.{Bool-cases}

abbrev pub AnyOf : {A : Type 0} → (A → Type 0) → List A → Type 0
AnyOf P [] = ⊥
AnyOf P (x ∷ xs) = P x ⊎ AnyOf P xs

-- The elements of a list that a predicate holds of, in their order.
pub data Picked {A : Type 0} (P : A → Type 0) : List A → List A → Type 0 where
  picks_none : Picked P [] []
  picks : {x : A} {xs ys : List A} → P x → Picked P xs ys → Picked P (x ∷ xs) (x ∷ ys)
  passes : {x : A} {xs ys : List A} → ¬ P x → Picked P xs ys → Picked P (x ∷ xs) ys

pub any-AnyOf :
    {A : Type 0} (test : A → Bool) (P : A → Type 0) (xs : List A)
    → ((x : A) → test x ≡ true ↔ P x)
    → any test xs ≡ true ↔ AnyOf P xs
any-AnyOf test P [] iff = (λ e. absurd (ground arith), λ z. absurd z)
any-AnyOf test P (x ∷ xs) iff = (
  λ e. elim (Bool-cases (test x)) [
    | inl t ↦ inl ((iff x).0 t)
    | inr f ↦ inr ((any-AnyOf test P xs iff).0 (rw f at e))
  ],
  λ p. elim p [
    | inl a ↦ rw ((iff x).1 a) refl
    | inr rest ↦ let r = (any-AnyOf test P xs iff).1 rest in ground arith
  ],
)

pub retain-Picked :
    {A : Type 0} (test : A → Bool) (P : A → Type 0) (xs : List A)
    → ((x : A) → test x ≡ true ↔ P x)
    → Picked P xs (retain test xs)
retain-Picked test P [] iff = picks_none
retain-Picked test P (x ∷ xs) iff = elim (Bool-cases (test x)) [
  | inl t ↦ rw t (picks ((iff x).0 t) (retain-Picked test P xs iff))
  | inr f ↦
      rw f
        (passes (λ p. let t = (iff x).1 p in absurd (ground arith)) (retain-Picked test P xs iff))
]

pub none-Picked : {A : Type 0} (P : A → Type 0) (xs : List A) → ((x : A) → ¬ P x) → Picked P xs []
none-Picked P [] n = picks_none
none-Picked P (x ∷ xs) n = passes (n x) (none-Picked P xs n)

pub List-cases : {A : Type 0} (xs : List A) → (xs ≡ []) ⊎ ((x : A) × (ys : List A) × (xs ≡ x ∷ ys))
List-cases [] = inl refl
List-cases (x ∷ xs) = inr (x, xs, refl)
