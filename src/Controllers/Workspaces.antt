-- ===== src/Controllers/Workspaces.antt =====
-- src/operator/controllers/workspace.rs: the workspace that is made of a stack, and the environment
-- of its pod. The environment of the operator is an argument.
pub mod Manifests
use pulumi_rs_kube_operator.Base.{
  ℕ, Bool, true, false, ◌&&◌, not, Option, none, some, or_else, List, [], ◌∷◌, ◌++◌, ok, err, Text,
  text, text_eq, ℤ, pos, int_eq, leb, any, ◌==◌, if◌then◌else◌,
}
use pulumi_rs_kube_operator.Errors.{transient, workspace_not_ready}
use pulumi_rs_kube_operator.Api.Stack.{
  Stack, FluxSource, ResourceRef, ResourceSelectorType, env_selector, fs_selector, secret_selector,
  literal_selector, SecretSelector,
}
use pulumi_rs_kube_operator.Api.Workspace.{
  Workspace, WorkspaceSpec, WorkspaceStatus, WorkspaceGitSource, WorkspaceFluxSource, restricted,
}
use pulumi_rs_kube_operator.Operator.Effects.{Env, Kube, Op, KubeError, api, other_error, read}
use pulumi_rs_kube_operator.Operator.Fallible.{◌>>=◌, return, throw, lift}

-- `branch`, or else `commit`
unfoldable pub git_reference : (branch commit : Option Text) → Option Text
git_reference (some branch) commit = some branch
git_reference none commit = commit

unfoldable pub git_of : Stack → Option Text → Option WorkspaceGitSource
unfolding git_reference
git_of stack none = none
git_of stack (some repo) = some (record {
  url = some repo;
  git_ref = git_reference stack.spec.branch stack.spec.commit;
  dir = stack.spec.repo_dir;
  shallow = stack.spec.shallow;
})

unfoldable pub flux_of : Option FluxSource → Option WorkspaceFluxSource
flux_of none = none
flux_of (some fs) = some (record { url = none; digest = none; dir = fs.dir })

unfoldable pub build_workspace_spec : Stack → WorkspaceSpec
unfolding git_of flux_of
build_workspace_spec stack = record {
  service_account_name = stack.spec.service_account_name;
  security_profile = restricted;
  git = git_of stack stack.spec.project_repo;
  flux = flux_of stack.spec.flux_source;
  stacks =
      record {
        name = stack.spec.stack;
        create = some (not stack.spec.use_local_stack_only);
        secrets_provider = stack.spec.secrets_provider;
        environment = stack.spec.environment;
      }
      ∷ [];
}

-- A variable of a container: a value, or a key of a Secret that has to be there.
pub record EnvVar : Type 0 where
  pub name : Text
  pub value : Option Text
  pub secret_key_ref : Option SecretSelector

abbrev pub variable : Text → Text → EnvVar
variable name value = record { name = name; value = some value; secret_key_ref = none }

-- The variable for a reference of the type, if the reference has what the type needs.
unfoldable pub env_var :
    (get_env : Text → Option Text) (name : Text) → ResourceRef → ResourceSelectorType → List EnvVar
env_var get_env name r secret_selector = elim r.secret_ref [
  | none ↦ []
  | some s ↦ record { name = name; value = none; secret_key_ref = some s } ∷ []
]
env_var get_env name r literal_selector = elim r.literal_ref [
  | none ↦ []
  | some v ↦ variable name v ∷ []
]
env_var get_env name r env_selector = elim r.env [
  | none ↦ []
  | some v ↦ record { name = name; value = get_env v; secret_key_ref = none } ∷ []
]
env_var get_env name r fs_selector = []

unfoldable pub ref_vars : (get_env : Text → Option Text) → List (Text × ResourceRef) → List EnvVar
unfolding env_var
ref_vars get_env [] = []
ref_vars get_env ((name, r) ∷ rest) =
    env_var get_env name r r.selector_type ++ ref_vars get_env rest

unfoldable pub optional_var : Text → Option Text → List EnvVar
optional_var name none = []
optional_var name (some value) = variable name value ∷ []

unfoldable pub build_env_vars : (get_env : Text → Option Text) → Stack → List EnvVar
unfolding ref_vars optional_var
build_env_vars get_env stack =
    optional_var (text "PULUMI_BACKEND_URL") stack.spec.backend
    ++ ref_vars get_env (or_else stack.spec.env_refs [])

unfoldable pub git_vars : Option WorkspaceGitSource → List EnvVar
unfolding optional_var
git_vars none = []
git_vars (some git) =
    optional_var (text "GIT_URL") git.url
    ++ optional_var (text "GIT_REVISION") git.git_ref
    ++ optional_var (text "GIT_DIR") git.dir

unfoldable pub flux_vars : Option WorkspaceFluxSource → List EnvVar
unfolding optional_var
flux_vars none = []
flux_vars (some flux) =
    optional_var (text "FLUX_URL") flux.url
    ++ optional_var (text "FLUX_DIGEST") flux.digest
    ++ optional_var (text "FLUX_DIR") flux.dir

-- The environment of the container that fetches the source.
unfoldable pub fetch_env : WorkspaceSpec → (program_url : Option Text) → List EnvVar
unfolding git_vars flux_vars optional_var
fetch_env spec program_url =
    git_vars spec.git ++ flux_vars spec.flux ++ optional_var (text "PROGRAM_URL") program_url

-- The status of a StatefulSet, of which each field may be missing.
pub record StatefulSetStatus : Type 0 where
  pub observed_generation : Option ℤ
  pub update_revision : Option Text
  pub current_revision : Option Text
  pub available_replicas : Option ℕ

unfoldable pub is_statefulset_ready : (generation : Option ℤ) → Option StatefulSetStatus → Bool
is_statefulset_ready generation none = false
is_statefulset_ready generation (some s) =
    if not (int_eq (or_else s.observed_generation (pos 0)) (or_else generation (pos 0)))
    then false
    else if not (text_eq (or_else s.update_revision []) (or_else s.current_revision []))
    then false
    else leb 1 (or_else s.available_replicas 0)

unfoldable pub is_ready_status : Option WorkspaceStatus → Bool
is_ready_status none = false
is_ready_status (some s) =
    any (λ c. text_eq c.type_ (text "Ready") && text_eq c.status (text "True")) s.conditions

unfoldable pub ready_reply : Kube Workspace → Op Bool
unfolding is_ready_status
ready_reply (ok ws) = return (is_ready_status ws.status)
ready_reply (err (api code)) =
    if code == 404 then return false else throw (transient workspace_not_ready)
ready_reply (err other_error) = throw (transient workspace_not_ready)

unfoldable pub is_workspace_ready : Env → (ns name : Text) → Op Bool
unfolding ready_reply
is_workspace_ready env ns name = do
  reply ← lift (read (env.get_workspace ns name))
  ready_reply reply
