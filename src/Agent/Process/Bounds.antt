-- ===== src/Agent/Process/Bounds.antt =====
-- src/agent/server.rs, `run_pulumi_streaming`: how much of the output is kept.
use pulumi_rs_kube_operator.Base.{
  ℕ, ◌+◌, ◌≤◌, List, [], ◌∷◌, ◌++◌, Text, length, length-append, ltb, ltb→lt, arith, if_elim,
}
use pulumi_rs_kube_operator.Agent.Redact.{newline}
use pulumi_rs_kube_operator.Agent.Process.{
  max_output_bytes, Json, Process, unspawned, cancelled, ended, push_line, collect_lines,
  run_pulumi_streaming,
}

-- Every line has at most `n` bytes.
abbrev pub AllBelow : ℕ → List Text → Type 0
AllBelow n [] = Unit {0}
AllBelow n (l ∷ ls) = (length l ≤ n) × AllBelow n ls

push_line-le :
    (n : ℕ) (acc line : Text)
    → length acc ≤ max_output_bytes + n
    → length line ≤ n
    → length (push_line acc line) ≤ max_output_bytes + n
unfolding push_line
push_line-le n acc line a l =
    if_elim (λ t. length t ≤ max_output_bytes + n) (ltb (length acc) max_output_bytes)
      {x = acc ++ line ++ newline ∷ []} {y = acc}
      (λ below.
        let b = ltb→lt (length acc) max_output_bytes below in
        let one = length-append acc line in
        let all = length-append (acc ++ line) (newline ∷ []) in omega (arith, b, one, all, l))
      (λ _. a)

collect_lines-le :
    (n : ℕ) (acc : Text) (ls : List Text)
    → length acc ≤ max_output_bytes + n
    → AllBelow n ls
    → length (collect_lines acc ls) ≤ max_output_bytes + n
unfolding collect_lines
collect_lines-le n acc [] a tt = a
collect_lines-le n acc (l ∷ ls) a (b, bs) =
    collect_lines-le n (push_line acc l) ls (push_line-le n acc l a b) bs

-- The lines that a process writes to its output.
abbrev pub stdout_lines : Process → List Text
stdout_lines (unspawned message) = []
stdout_lines (cancelled out) = out
stdout_lines (ended out errors success) = out

-- The output that is kept of a process passes the limit of 16 MiB by no more than its longest line.
pub run_pulumi_streaming-le :
    (json : Json) (p : Process) (n : ℕ)
    → AllBelow n (stdout_lines p)
    → length (run_pulumi_streaming json p).stdout ≤ max_output_bytes + n
unfolding run_pulumi_streaming
run_pulumi_streaming-le json (unspawned message) n b = omega arith
run_pulumi_streaming-le json (cancelled out) n b = collect_lines-le n [] out (omega arith) b
run_pulumi_streaming-le json (ended out errors success) n b =
    collect_lines-le n [] out (omega arith) b
