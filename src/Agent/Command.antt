-- ===== src/Agent/Command.antt =====
-- src/agent/server.rs: the command lines that the agent runs Pulumi with.
pub mod Options
pub mod HandedDown
use pulumi_rs_kube_operator.Base.{
  Bool, true, false, Option, none, some, List, [], ◌∷◌, ◌++◌, Text, text, ℤ, decimal_int,
}
use pulumi_rs_kube_operator.Controllers.Protocol.{
  UpRequest, PreviewRequest, DestroyRequest, RefreshRequest,
}

abbrev pub Args : Type 0
Args = List Text

-- An option with a value, if there is one.
unfoldable pub option_arg : Text → Option Text → Args
option_arg name none = []
option_arg name (some v) = name ∷ v ∷ []

unfoldable pub parallel_arg : Option ℤ → Args
parallel_arg none = []
parallel_arg (some n) = text "--parallel" ∷ decimal_int n ∷ []

-- A flag that is given if the field is `Some(true)`.
unfoldable pub flag_arg : Text → Option Bool → Args
flag_arg name none = []
flag_arg name (some false) = []
flag_arg name (some true) = name ∷ []

-- An option for each value.
unfoldable pub each_arg : Text → List Text → Args
each_arg name [] = []
each_arg name (v ∷ vs) = name ∷ v ∷ each_arg name vs

unfoldable pub preview_args : PreviewRequest → Args
unfolding option_arg parallel_arg flag_arg each_arg
preview_args req =
    (text "preview" ∷ text "--diff" ∷ text "--json" ∷ text "--non-interactive" ∷ [])
    ++ parallel_arg req.parallel
    ++ option_arg (text "--message") req.message
    ++ flag_arg (text "--expect-no-changes") req.expect_no_changes
    ++ each_arg (text "--replace") req.replace
    ++ each_arg (text "--target") req.target
    ++ flag_arg (text "--target-dependents") req.target_dependents
    ++ flag_arg (text "--refresh") req.refresh

unfoldable pub refresh_args : RefreshRequest → Args
unfolding option_arg parallel_arg flag_arg each_arg
refresh_args req =
    (text "refresh" ∷ text "--yes" ∷ text "--non-interactive" ∷ text "--json" ∷ [])
    ++ parallel_arg req.parallel
    ++ option_arg (text "--message") req.message
    ++ flag_arg (text "--expect-no-changes") req.expect_no_changes
    ++ each_arg (text "--target") req.target

unfoldable pub up_args : UpRequest → Args
unfolding option_arg parallel_arg flag_arg each_arg
up_args req =
    (text "up"
      ∷ text "--yes"
      ∷ text "--non-interactive"
      ∷ text "--suppress-progress"
      ∷ text "--json"
      ∷ [])
    ++ parallel_arg req.parallel
    ++ option_arg (text "--message") req.message
    ++ flag_arg (text "--expect-no-changes") req.expect_no_changes
    ++ each_arg (text "--replace") req.replace
    ++ each_arg (text "--target") req.target
    ++ flag_arg (text "--target-dependents") req.target_dependents
    ++ flag_arg (text "--refresh") req.refresh
    ++ flag_arg (text "--continue-on-error") req.continue_on_error

unfoldable pub destroy_args : DestroyRequest → Args
unfolding option_arg parallel_arg flag_arg each_arg
destroy_args req =
    (text "destroy" ∷ text "--yes" ∷ text "--non-interactive" ∷ text "--json" ∷ [])
    ++ parallel_arg req.parallel
    ++ option_arg (text "--message") req.message
    ++ each_arg (text "--target") req.target
    ++ flag_arg (text "--target-dependents") req.target_dependents
    ++ flag_arg (text "--refresh") req.refresh
    ++ flag_arg (text "--continue-on-error") req.continue_on_error
    ++ flag_arg (text "--remove") req.remove

unfoldable pub select_stack_args : (stack_name : Text) → Option Bool → Args
unfolding flag_arg
select_stack_args stack_name create =
    (text "stack" ∷ text "select" ∷ []) ++ flag_arg (text "--create") create ++ (stack_name ∷ [])

unfoldable pub add_environment_args : Text → Args
add_environment_args env = text "config" ∷ text "env" ∷ text "add" ∷ env ∷ []

abbrev pub install_args : Args
install_args = text "install" ∷ []

abbrev pub cancel_args : Args
cancel_args = text "cancel" ∷ text "--yes" ∷ []

abbrev pub version_args : Args
version_args = text "version" ∷ []

-- `pulumi_cmd`: the level of the log comes before the command.
unfoldable pub level_args : (log_level : Option Text) → Args
unfolding option_arg
level_args log_level = option_arg (text "-v") log_level
