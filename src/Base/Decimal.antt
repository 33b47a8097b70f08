-- ===== src/Base/Decimal.antt =====
-- `Display` of integers: decimal digits, by recursion on fuel; `suc n` rounds are enough for `n`.
use Prim.Native.Nat.{ℕ, zero, suc, ◌+◌, ◌/◌, ◌%◌}
use mathlib.Core.List.{[], ◌∷◌, ◌++◌}
use pulumi_rs_kube_operator.Base.Tests.{ltb, if◌then◌else◌}
use pulumi_rs_kube_operator.Base.Bytes.{Text}
use pulumi_rs_kube_operator.Base.Int.{ℤ, pos, negsuc}

unfoldable pub digits : ℕ → ℕ → Text
digits zero n = []
digits (suc fuel) n =
    let rest = digits fuel (n / 10) in
    if ltb n 10 then (b'0' + n) ∷ [] else rest ++ (b'0' + n % 10) ∷ []

unfoldable pub decimal : ℕ → Text
unfolding digits
decimal n = digits (suc n) n

unfoldable pub decimal_int : ℤ → Text
unfolding decimal
decimal_int (pos n) = decimal n
decimal_int (negsuc n) = b'-' ∷ decimal (suc n)
