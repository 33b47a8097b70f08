-- ===== src/Webhook/Bits.antt =====
-- When the binary or, and the exclusive or, of two numbers is zero.
use Prim.Native.Nat.{
  ℕ, zero, suc, ◌/◌, ◌%◌, ◌≤◌, max, bit_or, bit_xor, digits, differ, bit_or-bitwise,
  bit_xor-bitwise,
}
use pulumi_rs_kube_operator.Base.{◌≡◌, refl, ◌∙◌, sym, arith}

or_digits : (n a b : ℕ) → a ≤ n → digits (λ y. y) max n a b ≡ 0 → (a ≡ 0) × (b ≡ 0)
or_digits zero zero b l e = (refl, e)
or_digits zero (suc a) b l e = absurd (omega arith)
or_digits (suc n) zero b l e = (refl, e)
or_digits (suc n) (suc a) b l e =
    let (p, q) = or_digits n (suc a / 2) (b / 2) (omega arith) (omega (arith, e)) in
    absurd (omega (arith, p, e))

pub bit_or-zero : (a b : ℕ) → bit_or a b ≡ 0 → (a ≡ 0) × (b ≡ 0)
bit_or-zero a b e = or_digits a a b (omega arith) (sym (bit_or-bitwise a b) ∙ e)

differ-zero : (x y : ℕ) → differ x y ≡ 0 → x ≡ y
differ-zero zero y e = sym e
differ-zero (suc x) zero e = e
differ-zero (suc x) (suc y) e = omega (arith, differ-zero x y e)

differ-same : (x : ℕ) → differ x x ≡ 0
differ-same zero = refl
differ-same (suc x) = differ-same x

xor_digits : (n a b : ℕ) → a ≤ n → digits (λ y. y) differ n a b ≡ 0 → a ≡ b
xor_digits zero zero b l e = sym e
xor_digits zero (suc a) b l e = absurd (omega arith)
xor_digits (suc n) zero b l e = sym e
xor_digits (suc n) (suc a) b l e =
    let halves = xor_digits n (suc a / 2) (b / 2) (omega arith) (omega (arith, e)) in
    let lowest = differ-zero (suc a % 2) (b % 2) (omega (arith, e)) in omega (arith, halves, lowest)

pub bit_xor-zero : (a b : ℕ) → bit_xor a b ≡ 0 → a ≡ b
bit_xor-zero a b e = xor_digits a a b (omega arith) (sym (bit_xor-bitwise a b) ∙ e)

xor_same_digits : (n a : ℕ) → a ≤ n → digits (λ y. y) differ n a a ≡ 0
xor_same_digits zero zero l = refl
xor_same_digits zero (suc a) l = absurd (omega arith)
xor_same_digits (suc n) zero l = refl
xor_same_digits (suc n) (suc a) l =
    omega (arith, xor_same_digits n (suc a / 2) (omega arith), differ-same (suc a % 2))

pub bit_xor-same : (a : ℕ) → bit_xor a a ≡ 0
bit_xor-same a = bit_xor-bitwise a a ∙ xor_same_digits a a (omega arith)
