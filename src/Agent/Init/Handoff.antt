-- ===== src/Agent/Init/Handoff.antt =====
-- src/operator/controllers/workspace.rs with src/agent/init.rs: the source that the operator hands to
-- the init container of a workspace.
use pulumi_rs_kube_operator.Base.{
  Bool, Option, none, some, List, [], ◌∷◌, ◌++◌, append_assoc, Text, text, text_eq, ◌≡◌, refl, sym,
  if◌then◌else◌,
}
use pulumi_rs_kube_operator.Api.Stack.{Stack, FluxSource}
use pulumi_rs_kube_operator.Controllers.Workspaces.{
  EnvVar, optional_var, git_reference, git_of, flux_of, git_vars, flux_vars, fetch_env,
  build_workspace_spec,
}
use pulumi_rs_kube_operator.Agent.Init.{
  InitSource, git_source, program_source, local_source, determine_source_from_env,
}

-- The value of a variable in a container with these variables.
unfoldable pub value_of : List EnvVar → Text → Option Text
value_of [] name = none
value_of (v ∷ vs) name = if text_eq v.name name then v.value else value_of vs name

abbrev pub source_of : List EnvVar → InitSource
source_of vars = determine_source_from_env (value_of vars)

git_handoff :
    (repo : Text) (ref dir : Option Text) (shallow : Bool) (rest : List EnvVar)
    → value_of rest (text "GIT_REVISION") ≡ none
    → value_of rest (text "GIT_DIR") ≡ none
    → source_of (
        git_vars (some (record { url = some repo; git_ref = ref; dir = dir; shallow = shallow }))
        ++ rest)
      ≡ git_source repo ref dir
unfolding determine_source_from_env value_of git_vars optional_var text_eq text
git_handoff repo none none sh rest r d = rw (r, d) refl
git_handoff repo none (some dir) sh rest r d = rw r refl
git_handoff repo (some ref) none sh rest r d = rw d refl
git_handoff repo (some ref) (some dir) sh rest r d = refl

-- The variables of a Flux source, which has no address, and of a Program.
abbrev other_vars : Option (Option Text) → Option Text → List EnvVar
other_vars none program_url = [] ++ optional_var (text "PROGRAM_URL") program_url
other_vars (some dir) program_url =
    optional_var (text "FLUX_URL") none
    ++ optional_var (text "FLUX_DIGEST") none
    ++ optional_var (text "FLUX_DIR") dir
    ++ optional_var (text "PROGRAM_URL") program_url

-- They name neither a revision nor a directory for git.
others_silent :
    (flux : Option (Option Text)) (p : Option Text)
    → (value_of (other_vars flux p) (text "GIT_REVISION") ≡ none)
      × (value_of (other_vars flux p) (text "GIT_DIR") ≡ none)
unfolding value_of optional_var text_eq text
others_silent none none = (refl, refl)
others_silent none (some url) = (refl, refl)
others_silent (some none) none = (refl, refl)
others_silent (some none) (some url) = (refl, refl)
others_silent (some (some dir)) none = (refl, refl)
others_silent (some (some dir)) (some url) = (refl, refl)

-- The source without git: a Program's, if there is one.
abbrev pub without_git : Option Text → InitSource
without_git none = local_source
without_git (some url) = program_source url

others_handoff :
    (flux : Option (Option Text)) (p : Option Text) → source_of (other_vars flux p) ≡ without_git p
unfolding determine_source_from_env value_of optional_var text_eq text
others_handoff none none = refl
others_handoff none (some url) = refl
others_handoff (some none) none = refl
others_handoff (some none) (some url) = refl
others_handoff (some (some dir)) none = refl
others_handoff (some (some dir)) (some url) = refl

abbrev dir_of : Option FluxSource → Option (Option Text)
dir_of none = none
dir_of (some fs) = some fs.dir

rest_vars :
    (flux : Option FluxSource) (p : Option Text)
    → flux_vars (flux_of flux) ++ optional_var (text "PROGRAM_URL") p ≡ other_vars (dir_of flux) p
unfolding flux_vars flux_of
rest_vars none p = refl
rest_vars (some fs) p = refl

-- What is cloned: the branch that the stack names, or the commit if it names no branch.
abbrev pub revision_of : (branch commit : Option Text) → Option Text
revision_of (some branch) commit = some branch
revision_of none commit = commit

-- What the init container is told to fetch for a stack.
abbrev pub expected : Stack → (repo program_url : Option Text) → InitSource
expected stack none program_url = without_git program_url
expected stack (some repo) program_url =
    git_source repo (revision_of stack.spec.branch stack.spec.commit) stack.spec.repo_dir

git_reference-revision :
    (branch commit : Option Text) → git_reference branch commit ≡ revision_of branch commit
unfolding git_reference
git_reference-revision none none = refl
git_reference-revision none (some c) = refl
git_reference-revision (some b) none = refl
git_reference-revision (some b) (some c) = refl

handoff :
    (stack : Stack) (repo : Option Text) (flux : Option FluxSource) (p : Option Text)
    → source_of (
        git_vars (git_of stack repo)
        ++ (flux_vars (flux_of flux) ++ optional_var (text "PROGRAM_URL") p))
      ≡ expected stack repo p
unfolding git_of git_vars
handoff stack none flux p = rw (rest_vars flux p) (others_handoff (dir_of flux) p)
handoff stack (some repo) flux p =
    let (r, d) = others_silent (dir_of flux) p in
    rw (rest_vars flux p, sym (git_reference-revision stack.spec.branch stack.spec.commit))
      (git_handoff repo _ stack.spec.repo_dir stack.spec.shallow (other_vars (dir_of flux) p) r d)

-- The init container of the workspace that is made of a stack is told to clone the repository of the
-- stack, with its branch as the revision, or with its commit if it names no branch; or else to take
-- the Program; a stack with neither, as one with a Flux source, has it take no source at all.
pub fetch_env-handoff :
    (stack : Stack) (program_url : Option Text)
    → source_of (fetch_env (build_workspace_spec stack) program_url)
      ≡ expected stack stack.spec.project_repo program_url
unfolding fetch_env build_workspace_spec
fetch_env-handoff stack program_url =
    rw
      (append_assoc (git_vars (git_of stack stack.spec.project_repo))
        (flux_vars (flux_of stack.spec.flux_source))
        (optional_var (text "PROGRAM_URL") program_url))
      (handoff stack stack.spec.project_repo stack.spec.flux_source program_url)
