-- ===== src/Operator/Fallible.antt =====
-- Chains of fallible steps: `?` of the source returns at the first error, and what was done before
-- it stays done.
use pulumi_rs_kube_operator.Base.{Option, none, some, Result, ok, err, ◌≡◌, refl, arith}
use pulumi_rs_kube_operator.Errors.{OperatorError}
use pulumi_rs_kube_operator.Operator.Effects.{
  M, Op, Kube, KubeError, Fault, raised, panicked, History,
}

module _ {A B : Type 0} where
  unfoldable pub continue : Result Fault A → (A → Op B) → Op B
  continue (ok a) f h = f a h
  continue (err e) f h = (err e, h)

  infixl 5 ◌>>=◌ ◌>>◌
  abbrev pub ◌>>=◌ : Op A → (A → Op B) → Op B
  ◌>>=◌ m f h = let (r, h') = m h in continue r f h'

  abbrev pub ◌>>◌ : Op A → Op B → Op B
  m >> k = m >>= λ _. k

unfoldable pub return : {A : Type 0} → A → Op A
return a h = (ok a, h)

unfoldable pub throw : {A : Type 0} → OperatorError → Op A
throw e h = (err (raised e), h)

-- A step that cannot fail.
unfoldable pub lift : {A : Type 0} → M A → Op A
lift m h = let (a, h') = m h in (ok a, h')

unfoldable pub of_result : {A : Type 0} → Result OperatorError A → Op A
of_result (ok a) h = (ok a, h)
of_result (err e) h = (err (raised e), h)

-- A computation that panics where it has no value.
unfoldable pub or_panic : {A : Type 0} → Option A → Op A
or_panic (some a) h = (ok a, h)
or_panic none h = (err panicked, h)

-- `.map_err(f)?`
unfoldable pub map_err : {A : Type 0} → (KubeError → OperatorError) → M (Kube A) → Op A
map_err f m h = let (r, h') = m h in elim r [ ok a ↦ (ok a, h') | err e ↦ (err (raised (f e)), h') ]

-- Inversion of a chain that returned: its first step returned, and so did the rest.
pub continue-ok :
    {A B : Type 0} (r : Result Fault A) (f : A → Op B) (h : History) {b : B}
    → (continue r f h).0 ≡ ok b
    → (a : A) × (r ≡ ok a) × ((f a h).0 ≡ ok b)
unfolding continue
continue-ok (ok a) f h e = (a, refl, e)
continue-ok (err x) f h e = cc

pub or_panic-ok :
    {A : Type 0} (o : Option A) (h : History) {a : A} → (or_panic o h).0 ≡ ok a → o ≡ some a
unfolding or_panic
or_panic-ok (some x) h e = ground arith
or_panic-ok none h e = cc

pub of_result-ok :
    {A : Type 0} (r : Result OperatorError A) (h : History) {a : A}
    → (of_result r h).0 ≡ ok a
    → r ≡ ok a
unfolding of_result
of_result-ok (ok x) h e = ground arith
of_result-ok (err x) h e = cc

-- To show `P` of a chain, show it of the rest for each value that the first step may return, and of
-- each fault of that step.
pub continue-elim :
    {A B : Type 0} (P : Result Fault B × History → Type 0) (r : Result Fault A) (f : A → Op B)
    (h : History)
    → ((a : A) → r ≡ ok a → P (f a h))
    → ((x : Fault) → P (err x, h))
    → P (continue r f h)
unfolding continue
continue-elim P (ok a) f h k n = k a refl
continue-elim P (err x) f h k n = n x
