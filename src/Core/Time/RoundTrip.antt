-- ===== src/Core/Time/RoundTrip.antt =====
-- src/core/time.rs, `parse_go_duration`: durations that are printed in hours, minutes and seconds.
use pulumi_rs_kube_operator.Base.{
  ℕ, zero, suc, ◌+◌, ◌-◌, ◌*◌, ◌/◌, ◌%◌, ◌≤◌, ◌<◌, true, [], ◌∷◌, ◌++◌, Text, decimal, digits,
  u64_max, saturating_add, saturating_mul, ◌≡◌, refl, arith, ltb, ltb→lt, if_elim, from_secs, ◌∙◌,
  ap, tests,
}
use pulumi_rs_kube_operator.Core.Time.{Parse, parse_step, parse_loop, parse_go_duration, is_digit}

parse_loop-append : (p : Parse) (s t : Text) → parse_loop p (s ++ t) ≡ parse_loop (parse_loop p s) t
unfolding parse_loop
parse_loop-append p [] t = refl
parse_loop-append p (c ∷ s) t = parse_loop-append (parse_step p c) s t

digit_test : (d : ℕ) → d < 10 → is_digit (b'0' + d) ≡ true
unfolding is_digit
digit_test d l = ground arith

added :
    (n d : ℕ)
    → n * 10 + d ≤ u64_max
    → saturating_add (saturating_mul n 10) (b'0' + d - b'0') ≡ n * 10 + d
unfolding saturating_mul
added n d h = omega arith

-- A digit is added at the end of the number, as long as that fits a word.
step_digit :
    (total n d m : ℕ)
    → d < 10
    → n * 10 + d ≡ m
    → m ≤ u64_max
    → parse_step (record { total_secs = total; n = n }) (b'0' + d)
      ≡ record { total_secs = total; n = m }
unfolding parse_step
step_digit total n d m l e h =
    rw (parse_step, digit_test d l) (rw (added n d (omega (arith, e, h)), e) refl)

digits-parse :
    (fuel n total : ℕ)
    → n < fuel
    → n ≤ u64_max
    → parse_loop (record { total_secs = total; n = 0 }) (digits fuel n)
      ≡ record { total_secs = total; n = n }
unfolding digits parse_loop
digits-parse zero n total l h = absurd (omega arith)
digits-parse (suc fuel) n total l h =
    if_elim {A = Text}
      (λ s.
        parse_loop (record { total_secs = total; n = 0 }) s ≡ record { total_secs = total; n = n })
      (ltb n 10) (λ t. step_digit total 0 n n (ltb→lt _ _ t) (omega arith) h)
      (λ t.
        let big : 10 ≤ n = grind tests in
        parse_loop-append _ (digits fuel (n / 10)) ((b'0' + n % 10) ∷ [])
        ∙ ap (λ q. parse_loop q ((b'0' + n % 10) ∷ []))
            (digits-parse fuel (n / 10) total (omega arith) (omega arith))
        ∙ step_digit total (n / 10) (n % 10) n (omega arith) (omega arith) h)

-- What a unit adds to the seconds.
step_hours :
    (total n : ℕ)
    → total + n * 3600 ≤ u64_max
    → parse_step (record { total_secs = total; n = n }) b'h'
      ≡ record { total_secs = total + n * 3600; n = 0 }
unfolding parse_step is_digit saturating_mul
step_hours total n h = ap (λ t. record { total_secs = t; n = 0 }) (omega arith)

step_minutes :
    (total n : ℕ)
    → total + n * 60 ≤ u64_max
    → parse_step (record { total_secs = total; n = n }) b'm'
      ≡ record { total_secs = total + n * 60; n = 0 }
unfolding parse_step is_digit saturating_mul
step_minutes total n h = ap (λ t. record { total_secs = t; n = 0 }) (omega arith)

step_seconds :
    (total n : ℕ)
    → total + n ≤ u64_max
    → parse_step (record { total_secs = total; n = n }) b's'
      ≡ record { total_secs = total + n; n = 0 }
unfolding parse_step is_digit
step_seconds total n h = ap (λ t. record { total_secs = t; n = 0 }) (omega arith)

-- A number and its unit, at the start of a text.
part :
    (total n unit total' : ℕ) (rest : Text)
    → n ≤ u64_max
    → parse_step (record { total_secs = total; n = n }) unit ≡ record { total_secs = total'; n = 0 }
    → parse_loop (record { total_secs = total; n = 0 }) (decimal n ++ unit ∷ rest)
      ≡ parse_loop (record { total_secs = total'; n = 0 }) rest
unfolding decimal parse_loop
part total n unit total' rest h e =
    parse_loop-append _ (digits (suc n) n) (unit ∷ rest)
    ∙ ap (λ p. parse_loop (parse_step p unit) rest) (digits-parse (suc n) n total (omega arith) h)
    ∙ ap (λ p. parse_loop p rest) e

-- A duration as Go prints one with hours.
abbrev pub print_duration : (hours minutes seconds : ℕ) → Text
print_duration hours minutes seconds =
    decimal hours ++ b'h' ∷ (decimal minutes ++ b'm' ∷ (decimal seconds ++ b's' ∷ []))

-- A duration printed as hours, minutes and seconds is parsed as that many seconds, if they fit 64
-- bits.
pub parse_go_duration-print_duration :
    (hours minutes seconds : ℕ)
    → hours * 3600 + minutes * 60 + seconds ≤ u64_max
    → parse_go_duration (print_duration hours minutes seconds)
      ≡ from_secs (hours * 3600 + minutes * 60 + seconds)
unfolding parse_go_duration parse_loop
parse_go_duration-print_duration hours minutes seconds h =
    ap (λ (p : Parse). from_secs p.total_secs)
      (part 0 hours b'h' (hours * 3600) _ (omega arith) (
          step_hours 0 hours (omega arith)
          ∙ ap (λ t. record { total_secs = t; n = 0 }) (omega arith))
        ∙ part (hours * 3600) minutes b'm' _ _ (omega arith) (step_minutes _ minutes (omega arith))
        ∙ part _ seconds b's' _ [] (omega arith) (step_seconds _ seconds (omega arith)))
