-- ===== src/Agent/Command/HandedDown.antt =====
-- src/agent/server.rs: what of a Stack comes down to the command lines of the agent.
use pulumi_rs_kube_operator.Base.{
  Bool, none, some, List, [], ◌∷◌, ◌++◌, append_assoc, append-nil, Text, text, text_eq, ◌≡◌, refl,
  ◌∙◌, ap,
}
use pulumi_rs_kube_operator.Api.Stack.{Stack}
use pulumi_rs_kube_operator.Operator.Messages.{NameKey}
use pulumi_rs_kube_operator.Reconcile.CreateUpdate.{flag, update_spec}
use pulumi_rs_kube_operator.Reconcile.Destroy.{destroy_spec}
use pulumi_rs_kube_operator.Controllers.StreamUpdate.{up_request, destroy_request}
use pulumi_rs_kube_operator.Agent.Command.{
  option_arg, parallel_arg, flag_arg, each_arg, up_args, destroy_args,
}
use pulumi_rs_kube_operator.Agent.Command.Options.{
  Options, valued, read_words, read_options, given, read-flag, read-flag_arg, read-last_flag,
  read-targets,
}

-- What a stack asks of `pulumi up`.
abbrev pub up_asked : Stack → Options
up_asked stack = record {
  parallel = none;
  message = none;
  replace = [];
  target = stack.spec.targets;
  flags =
      (text "--yes" ∷ text "--non-interactive" ∷ text "--suppress-progress" ∷ text "--json" ∷ [])
      ++ (given (text "--expect-no-changes") stack.spec.expect_no_refresh_changes
          ++ (given (text "--target-dependents") stack.spec.target_dependents
              ++ given (text "--refresh") stack.spec.refresh));
}

-- What a stack asks of the `pulumi destroy` that its deletion leads to.
abbrev pub destroy_asked : Stack → Options
destroy_asked stack = record {
  parallel = none;
  message = some (text "Destroying stack (finalizer)");
  replace = [];
  target = stack.spec.targets;
  flags =
      (text "--yes" ∷ text "--non-interactive" ∷ text "--json" ∷ [])
      ++ (given (text "--target-dependents") stack.spec.target_dependents
          ++ (given (text "--refresh") stack.spec.refresh
              ++ (text "--continue-on-error" ∷ text "--remove" ∷ [])));
}

-- The words behind the fixed ones of an `up`.
read-rest :
    (first second third : Text) (a b c : Bool) (targets : List Text) (o : Options)
    → valued first ≡ none
    → valued second ≡ none
    → valued third ≡ none
    → read_words none
        (flag_arg first (flag a)
          ++ (each_arg (text "--target") targets
              ++ (flag_arg second (flag b) ++ flag_arg third (flag c))))
        o
      ≡ record o {
        target = o.target ++ targets;
        flags = o.flags ++ (given first a ++ (given second b ++ given third c));
      }
unfolding read_words
read-rest first second third a b c targets o p q r =
    read-flag_arg first a _ o p
    ∙ read-targets targets _ _
    ∙ read-flag_arg second b _ _ q
    ∙ read-last_flag third c _ r
    ∙ ap (λ fs. record o { target = o.target ++ targets; flags = fs }) (simp append_assoc)

-- The command line of `pulumi up` for an Update of a stack.
up_options :
    (key : NameKey) (stack : Stack)
    → read_options (up_args (up_request (update_spec key stack))) ≡ up_asked stack
unfolding up_args up_request update_spec option_arg parallel_arg read_words text text_eq
up_options key stack =
    simp (append_assoc, append-nil)
      (read-rest (text "--expect-no-changes") (text "--target-dependents") (text "--refresh")
        stack.spec.expect_no_refresh_changes stack.spec.target_dependents stack.spec.refresh
        stack.spec.targets _ refl refl refl)

read-last_flags :
    (x y : Text) (o : Options)
    → valued x ≡ none
    → valued y ≡ none
    → read_words none (x ∷ y ∷ []) o ≡ record o { flags = o.flags ++ x ∷ [] ++ y ∷ [] }
unfolding read_words
read-last_flags x y o p q =
    read-flag x (y ∷ []) o p ∙ read-flag y [] (record o { flags = o.flags ++ x ∷ [] }) q

-- The words behind the fixed ones of a `destroy`.
read-destroy_rest :
    (first second third fourth : Text) (a b : Bool) (targets : List Text) (o : Options)
    → valued first ≡ none
    → valued second ≡ none
    → valued third ≡ none
    → valued fourth ≡ none
    → read_words none
        (each_arg (text "--target") targets
          ++ (flag_arg first (flag a) ++ (flag_arg second (flag b) ++ (third ∷ fourth ∷ []))))
        o
      ≡ record o {
        target = o.target ++ targets;
        flags = o.flags ++ (given first a ++ (given second b ++ (third ∷ fourth ∷ [])));
      }
unfolding read_words
read-destroy_rest first second third fourth a b targets o p q r s =
    read-targets targets _ _
    ∙ read-flag_arg first a _ _ p
    ∙ read-flag_arg second b _ _ q
    ∙ read-last_flags third fourth _ r s
    ∙ ap (λ fs. record o { target = o.target ++ targets; flags = fs }) regroup
  where
    regroup :
        o.flags ++ given first a ++ given second b ++ third ∷ [] ++ fourth ∷ []
        ≡ o.flags ++ (given first a ++ (given second b ++ (third ∷ fourth ∷ [])))
    regroup = simp append_assoc

-- The command line of `pulumi destroy` for the Update that destroys a stack.
destroy_options :
    (key : NameKey) (stack : Stack)
    → read_options (destroy_args (destroy_request (destroy_spec key stack))) ≡ destroy_asked stack
unfolding destroy_args destroy_request destroy_spec option_arg parallel_arg flag_arg read_words text
    text_eq
destroy_options key stack = simp append_assoc (
    read-destroy_rest (text "--target-dependents") (text "--refresh") (text "--continue-on-error")
      (text "--remove") stack.spec.target_dependents stack.spec.refresh stack.spec.targets _ refl
      refl refl refl)

-- Read so that an option with a value takes the word behind it, the command line of the agent for the
-- Update that create_update makes of a stack, without a preview, and for the one that destroys it, has
-- the stack's targets, each whole even if it looks like an option, and the flags that the stack asks
-- for beside the fixed ones, and nothing else.
pub options-handed_down :
    (key : NameKey) (stack : Stack)
    → (read_options (up_args (up_request (update_spec key stack))) ≡ up_asked stack)
      × (read_options (destroy_args (destroy_request (destroy_spec key stack)))
          ≡ destroy_asked stack)
options-handed_down key stack = (up_options key stack, destroy_options key stack)
