-- ===== src/Agent/Process.antt =====
-- src/agent/server.rs, `run_pulumi_streaming`: the output of a Pulumi process, as it is collected.
-- What the process does, and what is read of lines that are JSON, are parameters.
pub mod Bounds
use pulumi_rs_kube_operator.Base.{
  ℕ, ◌*◌, Bool, true, false, ◌||◌, not, Option, none, some, or_else, and_then, List, [], ◌∷◌, ◌++◌,
  map, find, take, retain, Text, text, length, ltb, contains, starts_with, if◌then◌else◌,
}
use pulumi_rs_kube_operator.Controllers.Protocol.{Outputs, OutputValue}
use pulumi_rs_kube_operator.Controllers.Secret.{Entries, join_with}
use pulumi_rs_kube_operator.Agent.Redact.{lines, newline}

abbrev pub max_output_bytes : ℕ
max_output_bytes = 16 * 1024 * 1024

-- What becomes of a process: it cannot be started, or it is cancelled after some lines, or it ends
-- with its exit status, where an error of waiting is a failure.
pub data Process : Type 0 where
  unspawned : (message : Text) → Process
  cancelled : (stdout : List Text) → Process
  ended : (stdout stderr : List Text) (success : Bool) → Process

-- What is read of a line of JSON: the permalink of an event, and the outputs of a summary, as the
-- texts of their values.
pub record Json : Type 0 where
  pub permalink_of : Text → Option Text
  pub outputs_of : Text → Option Entries

pub record PulumiResult : Type 0 where
  pub stdout : Text
  pub stderr : Text
  pub permalink : Option Text
  pub outputs : Outputs
  pub failed : Bool

-- A line is added while the text is below the limit.
unfoldable pub push_line : Text → Text → Text
push_line acc line = if ltb (length acc) max_output_bytes then acc ++ line ++ newline ∷ [] else acc

unfoldable pub collect_lines : Text → List Text → Text
unfolding push_line
collect_lines acc [] = acc
collect_lines acc (l ∷ ls) = collect_lines (push_line acc l) ls

-- The last permalink.
unfoldable pub last_permalink : Json → Option Text → List Text → Option Text
last_permalink json found [] = found
last_permalink json found (l ∷ ls) =
    last_permalink json (elim (json.permalink_of l) [ none ↦ found | some link ↦ some link ]) ls

-- `lines().rev().find(p)`
unfoldable pub find_last : (Text → Bool) → List Text → Option Text
find_last p [] = none
find_last p (l ∷ ls) = elim (find_last p ls) [
  | some found ↦ some found
  | none ↦ if p l then some l else none
]

unfoldable pub parse_outputs : Json → Text → Outputs
unfolding find_last
parse_outputs json stdout =
    let summary = find_last (λ l. starts_with (text "{") l) (lines stdout) in
    map (λ e. (e.0, record { value = e.1; secret = false }))
      (or_else (and_then summary json.outputs_of) [])

-- The message of a failed run that wrote no error.
unfoldable pub diagnose : Text → Text
diagnose stdout =
    elim (take 5
      (retain (λ l. contains l (text "error:") || contains l (text "Error")) (lines stdout))) [
        | [] ↦ text "pulumi command failed (non-zero exit code)"
        | d ∷ ds ↦ join_with (text "; ") (d ∷ ds)
      ]

unfoldable pub error_text : (failed : Bool) → (stdout stderr : Text) → Text
unfolding diagnose
error_text false stdout stderr = stderr
error_text true stdout [] = diagnose stdout
error_text true stdout (c ∷ cs) = c ∷ cs

unfoldable pub run_pulumi_streaming : Json → Process → PulumiResult
unfolding collect_lines last_permalink parse_outputs error_text
run_pulumi_streaming json (unspawned message) = record {
  stdout = [];
  stderr = text "failed to spawn pulumi: " ++ message;
  permalink = none;
  outputs = [];
  failed = true;
}
run_pulumi_streaming json (cancelled out) = record {
  stdout = collect_lines [] out;
  stderr = text "operation cancelled by operator";
  permalink = last_permalink json none out;
  outputs = [];
  failed = true;
}
run_pulumi_streaming json (ended out errors success) =
    let stdout = collect_lines [] out in
    record {
      stdout = stdout;
      stderr = error_text (not success) stdout (collect_lines [] errors);
      permalink = last_permalink json none out;
      outputs = parse_outputs json stdout;
      failed = not success;
    }
