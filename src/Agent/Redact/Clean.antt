-- ===== src/Agent/Redact/Clean.antt =====
-- src/agent/redact.rs: what does not occur in a redacted text.
use pulumi_rs_kube_operator.Base.{
  ℕ, Bool, false, ◌||◌, List, [], ◌∷◌, ◌++◌, Text, text, contains, starts_with, strip_prefix,
  to_ascii_lowercase, lower, ◌==◌, ◌≡◌, refl, ap, arith, if_elim, Bool-cases, inl, inr, any,
}
use pulumi_rs_kube_operator.Agent.Redact.{
  newline, lines, needs_redaction, line_contains_secret, redact_lines, redact_stderr,
}

or_false : (a b : Bool) → a || b ≡ false → (a ≡ false) × (b ≡ false)
or_false a b e = (ground arith, ground arith)

false_or : {a b : Bool} → a ≡ false → b ≡ false → a || b ≡ false
false_or p q = rw (p, q) refl

-- A mark that begins with a character and has no newline.
abbrev pub has_newline : Text → Bool
has_newline s = any (λ c. c == newline) s

starts-line :
    (p a b : Text)
    → has_newline p ≡ false
    → starts_with p a ≡ false
    → starts_with p (a ++ newline ∷ b) ≡ false
unfolding starts_with strip_prefix
starts-line [] a b n e = absurd (ground arith)
starts-line (x ∷ p) [] b n e = ground arith
starts-line (x ∷ p) (y ∷ a) b n e = let rest = starts-line p a b in ground arith

-- A mark without a newline that is in neither of two parts is not in them with a newline between.
contains-lines :
    (x : ℕ) (p a b : Text)
    → has_newline (x ∷ p) ≡ false
    → contains a (x ∷ p) ≡ false
    → contains b (x ∷ p) ≡ false
    → contains (a ++ newline ∷ b) (x ∷ p) ≡ false
unfolding contains
contains-lines x p [] b n ea eb = ground arith
contains-lines x p (y ∷ a) b n ea eb =
    let (here, later) = or_false _ _ ea in
    false_or (starts-line (x ∷ p) (y ∷ a) b n here) (contains-lines x p a b n later eb)

lower-newline :
    (a b : Text)
    → to_ascii_lowercase (a ++ newline ∷ b) ≡ to_ascii_lowercase a ++ newline ∷ to_ascii_lowercase b
unfolding lower
lower-newline [] b = refl
lower-newline (x ∷ a) b = ap (λ t. lower x ∷ t) (lower-newline a b)

starts-longer : (p q s : Text) → starts_with p s ≡ false → starts_with (p ++ q) s ≡ false
unfolding starts_with strip_prefix
starts-longer [] q s e = absurd (ground arith)
starts-longer (x ∷ p) q [] e = refl
starts-longer (x ∷ p) q (y ∷ s) e = let rest = starts-longer p q s in ground arith

-- What does not contain a mark contains no longer one.
contains-longer : (p q s : Text) → contains s p ≡ false → contains s (p ++ q) ≡ false
unfolding contains
contains-longer p q [] e = starts-longer p q [] e
contains-longer p q (x ∷ s) e =
    let (here, later) = or_false _ _ e in
    false_or (starts-longer p q (x ∷ s) here) (contains-longer p q s later)

-- None of the marks of a secret is in a text, whatever the case of the letters of the first four.
pub record Clean (s : Text) : Type 0 where
  pub password : contains (to_ascii_lowercase s) (text "password=") ≡ false
  pub token : contains (to_ascii_lowercase s) (text "token=") ≡ false
  pub secret : contains (to_ascii_lowercase s) (text "secret=") ≡ false
  pub credential : contains (to_ascii_lowercase s) (text "credential") ≡ false
  pub web_token : contains s (text "eyJ") ≡ false

-- A text after a clean line.
cons-Clean : (l rest : Text) → Clean l → Clean rest → Clean (l ++ newline ∷ rest)
unfolding text
cons-Clean l rest c d = record {
  password = rw (lower-newline l rest) (contains-lines _ _ _ _ refl c.password d.password);
  token = rw (lower-newline l rest) (contains-lines _ _ _ _ refl c.token d.token);
  secret = rw (lower-newline l rest) (contains-lines _ _ _ _ refl c.secret d.secret);
  credential = rw (lower-newline l rest) (contains-lines _ _ _ _ refl c.credential d.credential);
  web_token = contains-lines _ _ _ _ refl c.web_token d.web_token;
}

redacted-Clean : Clean (text "[REDACTED]")
unfolding text contains starts_with strip_prefix lower
redacted-Clean = record {
  password = refl;
  token = refl;
  secret = refl;
  credential = refl;
  web_token = refl;
}

empty-Clean : Clean []
unfolding text contains starts_with strip_prefix
empty-Clean = record {
  password = refl;
  token = refl;
  secret = refl;
  credential = refl;
  web_token = refl;
}

line-Clean : (l : Text) → line_contains_secret l ≡ false → Clean l
unfolding line_contains_secret
line-Clean l e =
    let (e1, web) = or_false _ _ e in
    let (e2, begin_mark) = or_false _ _ e1 in
    let (e3, cred) = or_false _ _ e2 in
    let (e4, sec) = or_false _ _ e3 in
    let (pass, tok) = or_false _ _ e4 in
    record { password = pass; token = tok; secret = sec; credential = cred; web_token = web }

passed-Clean : (s : Text) → needs_redaction s ≡ false → Clean s
unfolding needs_redaction text
passed-Clean s e =
    let (e1, web) = or_false _ _ e in
    let (e2, key_mark) = or_false _ _ e1 in
    let (e3, cred) = or_false _ _ e2 in
    let (e4, sec) = or_false _ _ e3 in
    let (pass, tok) = or_false _ _ e4 in
    let low = to_ascii_lowercase s in
    record {
      password = contains-longer (text "password") (text "=") low pass;
      token = contains-longer (text "token") (text "=") low tok;
      secret = contains-longer (text "secret") (text "=") low sec;
      credential = cred;
      web_token = web;
    }

redact_lines-Clean : (ls : List Text) → Clean (redact_lines ls)
unfolding redact_lines
redact_lines-Clean [] = empty-Clean
redact_lines-Clean (l ∷ ls) =
    let rest = redact_lines-Clean ls in
    if_elim (λ shown. Clean (shown ++ newline ∷ redact_lines ls)) (line_contains_secret l)
      (λ _. cons-Clean (text "[REDACTED]") (redact_lines ls) redacted-Clean rest)
      (λ e. cons-Clean l (redact_lines ls) (line-Clean l e) rest)

-- Whatever the output of Pulumi, none of the marks `password=`, `token=`, `secret=` and `credential`,
-- in capital or small letters, and not `eyJ`, is in what `redact_stderr` makes of it.
pub redact_stderr-Clean : (input : Text) → Clean (redact_stderr input)
unfolding redact_stderr
redact_stderr-Clean [] = empty-Clean
redact_stderr-Clean (c ∷ cs) = elim (Bool-cases (needs_redaction (c ∷ cs))) [
  | inl e ↦ rw e (redact_lines-Clean (lines (c ∷ cs)))
  | inr e ↦ rw e (passed-Clean (c ∷ cs) e)
]
