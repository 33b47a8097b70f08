-- ===== src/Webhook/Compare.antt =====
-- src/operator/webhook/mod.rs, `constant_time_eq`: it is equality.
use Prim.Native.Nat.{bit_or, bit_xor}
use pulumi_rs_kube_operator.Base.{
  ℕ, true, false, not, [], ◌∷◌, length, if◌then◌else◌, ◌==◌, ◌≡◌, ◌↔◌, refl, arith,
}
use pulumi_rs_kube_operator.Controllers.FileServer.{Bytes}
use pulumi_rs_kube_operator.Webhook.{difference, constant_time_eq}
use pulumi_rs_kube_operator.Webhook.Bits.{bit_or-zero, bit_xor-zero, bit_xor-same}

cons_eq : {x y : ℕ} {xs ys : Bytes} → x ≡ y → xs ≡ ys → x ∷ xs ≡ y ∷ ys
cons_eq p q = rw (p, q) refl

difference-zero :
    (d : ℕ) (a b : Bytes) → length a ≡ length b → difference d a b ≡ 0 → (d ≡ 0) × (a ≡ b)
unfolding difference
difference-zero d [] [] l e = (e, refl)
difference-zero d [] (y ∷ ys) l e = absurd (omega (arith, l))
difference-zero d (x ∷ xs) [] l e = absurd (omega (arith, l))
difference-zero d (x ∷ xs) (y ∷ ys) l e =
    let (p, q) = difference-zero (bit_or d (bit_xor x y)) xs ys (omega (arith, l)) e in
    let (z, xor) = bit_or-zero d (bit_xor x y) p in (z, cons_eq (bit_xor-zero x y xor) q)

difference-same : (a : Bytes) → difference 0 a a ≡ 0
unfolding difference
difference-same [] = refl
difference-same (x ∷ xs) = rw (bit_xor-same x) (difference-same xs)

-- The comparison whose time does not depend on the bytes says true exactly for equal bytes.
pub constant_time_eq_iff : (a b : Bytes) → constant_time_eq a b ≡ true ↔ a ≡ b
unfolding constant_time_eq
constant_time_eq_iff a b = (
  λ e.
      let (l, d) = passed (length a) (length b) (difference 0 a b) e in
      (difference-zero 0 a b l d).1,
  λ e. rw (e, difference-same b) (ground arith),
)
  where
    passed : (m n d : ℕ) → (if not (m == n) then false else d == 0) ≡ true → (m ≡ n) × (d ≡ 0)
    passed m n d e = (ground arith, ground arith)
