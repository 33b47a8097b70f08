-- ===== src/Reconcile/CheckUpdate.antt =====
-- src/operator/controllers/update.rs: the state of an Update, and messages cut to 100 bytes.
pub mod Verdict
pub mod Truncation
use pulumi_rs_kube_operator.Base.{
  ℕ, zero, suc, ◌-◌, Bool, true, false, ◌&&◌, ◌||◌, Option, none, some, or_else, and_then, List, [],
  ◌∷◌, ◌++◌, Result, ok, err, Text, text, text_eq, length, take, get_elem?, find, leb, ltb, ◌==◌,
  if◌then◌else◌,
}
use pulumi_rs_kube_operator.Errors.{OperatorError, transient, kube_api_detailed}
use pulumi_rs_kube_operator.Api.Conditions.{
  Condition, update_complete, update_failed, update_progressing,
}
use pulumi_rs_kube_operator.Api.Update.{Update, UpdateStatus}
use pulumi_rs_kube_operator.Operator.Effects.{Env, Op, Kube, KubeError, api, other_error, read}
use pulumi_rs_kube_operator.Operator.Fallible.{◌>>=◌, return, throw, lift, or_panic}

pub data UpdateCheckResult : Type 0 where
  in_progress not_found : UpdateCheckResult
  succeeded : (permalink outputs : Option Text) → UpdateCheckResult
  failed : (message : Text) → UpdateCheckResult

-- A byte that does not continue a character.
unfoldable pub starts_char : ℕ → Bool
starts_char b = ltb b 128 || leb 192 b

-- `str::is_char_boundary`
unfoldable pub is_char_boundary : ℕ → Text → Bool
unfolding starts_char
is_char_boundary i s =
    i == 0 || elim (get_elem? s i) [ none ↦ i == length s | some b ↦ starts_char b ]

-- `&s[..n]`, which panics unless the cut falls between characters.
unfoldable pub slice_to : ℕ → Text → Option Text
slice_to n s = if is_char_boundary n s then some (take n s) else none

abbrev pub max_message_len : ℕ
max_message_len = 100

unfoldable pub truncate_message : Text → Option Text
truncate_message msg =
    if leb (length msg) max_message_len
    then some msg
    else and_then (slice_to (max_message_len - 3) msg) (λ s. some (s ++ text "..."))

-- `conditions.iter().find(|c| c.type_ == type_)`
unfoldable pub find_condition : Text → List Condition → Option Condition
find_condition type_ conditions = find (λ c. text_eq c.type_ type_) conditions

unfoldable pub is_true : Option Condition → Bool
is_true none = false
is_true (some c) = text_eq c.status (text "True")

-- The verdict on the conditions of an Update.
unfoldable pub check_status : UpdateStatus → Op UpdateCheckResult
unfolding is_true
check_status status =
    let failed_cond = find_condition update_failed status.conditions in
    if is_true (find_condition update_complete status.conditions)
    then (if is_true failed_cond
        then (do
          message ← or_panic (
              truncate_message
                (or_else (and_then failed_cond (λ f. f.message)) (text "unknown error")))
          return (failed message))
        else return (succeeded status.permalink status.outputs))
    else return in_progress

unfoldable pub check_reply : Kube Update → Op UpdateCheckResult
unfolding check_status
check_reply (err (api code)) =
    if code == 404
    then return not_found
    else throw (transient (kube_api_detailed (text "failed to get update")))
check_reply (err other_error) = throw (transient (kube_api_detailed (text "failed to get update")))
check_reply (ok update) = elim update.status [
  | none ↦ return in_progress
  | some status ↦ check_status status
]

unfoldable pub check_update : Env → Text → Text → Op UpdateCheckResult
unfolding check_reply
check_update env ns name = do reply ← lift (read (env.get_update ns name)); check_reply reply
