-- ===== src/Agent/Redact.antt =====
-- src/agent/redact.rs: lines of the output of Pulumi that look like secrets are struck out.
pub mod Clean
use pulumi_rs_kube_operator.Base.{
  ℕ, Bool, true, false, ◌&&◌, ◌||◌, not, List, [], ◌∷◌, ◌++◌, Text, text, contains,
  to_ascii_lowercase, ◌==◌, if◌then◌else◌,
}

abbrev pub newline : ℕ
newline = 10

abbrev pub carriage_return : ℕ
carriage_return = 13

unfoldable pub head_is : ℕ → Text → Bool
head_is c [] = false
head_is c (x ∷ xs) = x == c

-- A character in front of the first line.
unfoldable pub extend : ℕ → List Text → List Text
extend c [] = (c ∷ []) ∷ []
extend c (l ∷ ls) = (c ∷ l) ∷ ls

-- `str::lines`: a line ends with a newline or with a carriage return and a newline; the end of the
-- text ends a line that is not empty.
unfoldable pub lines : Text → List Text
unfolding head_is extend
lines [] = []
lines (c ∷ cs) =
    let rest = lines cs in
    if c == newline
    then [] ∷ rest
    else if c == carriage_return && head_is newline cs
    then rest
    else extend c rest

unfoldable pub needs_redaction : Text → Bool
needs_redaction s =
    let low = to_ascii_lowercase s in
    contains low (text "password")
    || contains low (text "token")
    || contains low (text "secret")
    || contains low (text "credential")
    || contains s (text "PRIVATE KEY")
    || contains s (text "eyJ")

unfoldable pub line_contains_secret : Text → Bool
line_contains_secret line =
    let low = to_ascii_lowercase line in
    contains low (text "password=")
    || contains low (text "token=")
    || contains low (text "secret=")
    || contains low (text "credential")
    || contains line (text "-----BEGIN")
    || contains line (text "eyJ")

unfoldable pub redact_lines : List Text → Text
unfolding line_contains_secret
redact_lines [] = []
redact_lines (l ∷ ls) =
    let rest = redact_lines ls in
    (if line_contains_secret l then text "[REDACTED]" else l) ++ newline ∷ rest

-- The empty text needs no redaction, so that the test of it adds nothing.
unfoldable pub redact_stderr : Text → Text
unfolding needs_redaction lines redact_lines
redact_stderr [] = []
redact_stderr (c ∷ cs) =
    if not (needs_redaction (c ∷ cs)) then c ∷ cs else redact_lines (lines (c ∷ cs))
