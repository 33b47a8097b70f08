-- ===== src/Core/Time.antt =====
-- src/core/time.rs: elapsed time since a timestamp, and Go-style durations.

pub mod RoundTrip
use pulumi_rs_kube_operator.Base.{
  ℕ, ◌-◌, ◌&&◌, Bool, [], ◌∷◌, Option, none, some, Text, Duration, Instant, duration_max, from_secs,
  saturating_add, saturating_mul, leb, ◌==◌, if◌then◌else◌,
}

-- `DateTime::parse_from_rfc3339` is chrono's and enters as a function to moments; `now` is the
-- clock's reading. A moment in the future has elapsed for no time.
unfoldable pub elapsed_since : (Text → Option Instant) → Instant → Option Text → Duration
elapsed_since parse now none = duration_max
elapsed_since parse now (some s) = elim (parse s) [ none ↦ duration_max | some t ↦ now - t ]

-- The two variables of the loop of `parse_go_duration`.
pub record Parse : Type 0 where
  pub total_secs : ℕ
  pub n : ℕ

unfoldable pub is_digit : ℕ → Bool
is_digit c = leb b'0' c && leb c b'9'

-- One turn of the loop.
unfoldable pub parse_step : Parse → ℕ → Parse
unfolding is_digit
parse_step p c =
    if is_digit c
    then record p { n = saturating_add (saturating_mul p.n 10) (c - b'0') }
    else if c == b'h'
    then record { total_secs = saturating_add p.total_secs (saturating_mul p.n 3600); n = 0 }
    else if c == b'm'
    then record { total_secs = saturating_add p.total_secs (saturating_mul p.n 60); n = 0 }
    else if c == b's'
    then record { total_secs = saturating_add p.total_secs p.n; n = 0 }
    else record p { n = 0 }

unfoldable pub parse_loop : Parse → Text → Parse
parse_loop p [] = p
parse_loop p (c ∷ cs) = parse_loop (parse_step p c) cs

unfoldable pub parse_go_duration : Text → Duration
unfolding parse_loop parse_step
parse_go_duration s = from_secs (parse_loop (record { total_secs = 0; n = 0 }) s).total_secs
