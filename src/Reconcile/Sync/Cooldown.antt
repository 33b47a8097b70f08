-- ===== src/Reconcile/Sync/Cooldown.antt =====
-- src/operator/reconcile/sync.rs, `cooldown`: its closed form, and that it grows with the failures.
use native.Mathlib.Nat.{pow-suc, pow-le-pow_right, one-le-pow}
use pulumi_rs_kube_operator.Base.{
  ℕ, zero, suc, ◌*◌, ◌^◌, ◌≤◌, min, ◌≡◌, refl, ap, arith, u64_max, saturating_mul, ℤ, pos, negsuc,
  from_secs, Duration,
}
use pulumi_rs_kube_operator.Api.Stack.{Stack}
use pulumi_rs_kube_operator.Reconcile.Sync.{cooldown, cap_secs, triple_times}

saturated : (delay : ℕ) → delay * 3 ≤ u64_max → saturating_mul delay 3 ≡ delay * 3
unfolding saturating_mul
saturated delay h = omega arith

-- The loop multiplies by a power of three, as long as that fits a word.
triple_times-eq : (n delay : ℕ) → delay * 3 ^ n ≤ u64_max → triple_times n delay ≡ delay * 3 ^ n
unfolding triple_times saturating_mul
triple_times-eq zero delay h = omega arith
triple_times-eq (suc n) delay h =
    let e : delay * 3 ^ suc n ≡ delay * (3 ^ n * 3) = ap (λ (t : ℕ). delay * t) (pow-suc 3 n) in
    let one : 1 ≤ 3 ^ n = one-le-pow n 3 (omega arith) in
    let grows : delay * 1 ≤ delay * 3 ^ n = grind arith in
    rw (saturated delay (omega arith)) (omega (arith, triple_times-eq n (delay * 3) (omega arith)))

pow_30 : (n : ℕ) → n ≤ 30 → 10 * 3 ^ n ≤ 2058911320946490
pow_30 n h = let p : 3 ^ n ≤ 3 ^ 30 = pow-le-pow_right (omega arith) h in omega arith

-- The specification: 10 seconds times a power of three, at most the cap; nothing without failures.
abbrev pub closed_form : ℤ → Stack → Duration
closed_form (pos zero) stack = 0
closed_form (pos (suc n)) stack = from_secs (min (10 * 3 ^ min (suc n) 30) (cap_secs stack))
closed_form (negsuc n) stack = 0

-- The cooldown is ten seconds times three to the number of failures (30 at most), at most the cap of
-- the stack, and nothing without failures.
pub cooldown-closed_form :
    (failures : ℤ) (stack : Stack) → cooldown failures stack ≡ closed_form failures stack
unfolding cooldown
cooldown-closed_form (pos zero) stack = refl
cooldown-closed_form (pos (suc n)) stack =
    let e : triple_times (min (suc n) 30) 10 ≡ 10 * 3 ^ min (suc n) 30 =
      triple_times-eq _ 10 (omega (arith, pow_30 (min (suc n) 30) (omega arith))) in
    omega arith
cooldown-closed_form (negsuc n) stack = refl

-- More failures never mean a shorter cooldown, and the cap is never passed.
pub cooldown-le :
    (m n : ℕ) (stack : Stack)
    → m ≤ n
    → (cooldown (pos m) stack ≤ cooldown (pos n) stack)
      × (cooldown (pos n) stack ≤ from_secs (cap_secs stack))
cooldown-le zero zero stack h = rw (cooldown-closed_form (pos zero) stack) (omega arith)
cooldown-le zero (suc n) stack h =
    rw (cooldown-closed_form (pos zero) stack, cooldown-closed_form (pos (suc n)) stack)
      (omega arith)
cooldown-le (suc m) zero stack h = absurd (omega arith)
cooldown-le (suc m) (suc n) stack h =
    let p : 3 ^ min (suc m) 30 ≤ 3 ^ min (suc n) 30 =
      pow-le-pow_right (omega arith) (omega arith) in
    rw (cooldown-closed_form (pos (suc m)) stack, cooldown-closed_form (pos (suc n)) stack)
      (omega arith)
