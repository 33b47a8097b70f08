-- ===== src/Tests/Data.antt =====
-- A stack, its resources, and environments that answer the same at all times.
use pulumi_rs_kube_operator.Base.{
  true, false, Option, none, some, [], ◌∷◌, Text, text, ok, err, pos, from_secs,
}
use pulumi_rs_kube_operator.Api.Meta.{ObjectMeta}
use pulumi_rs_kube_operator.Api.Conditions.{Condition, update_complete, stack_finalizer}
use pulumi_rs_kube_operator.Api.Stack.{
  StackSpec, StackStatus, StackUpdateState, CurrentStackUpdate, Stack, retain_workspace,
  PrerequisiteRef,
}
use pulumi_rs_kube_operator.Api.Update.{Update, UpdateStatus, up}
use pulumi_rs_kube_operator.Api.Workspace.{Workspace, restricted}
use pulumi_rs_kube_operator.Operator.Messages.{NameKey}
use pulumi_rs_kube_operator.Operator.Effects.{Env, History, api, token_unsent, request_failed}

abbrev pub key : NameKey
key = record { ns = text "default"; name = text "app" }

abbrev pub metadata : Option Text → ObjectMeta
metadata deletion = record {
  name = some (text "app");
  namespace = some (text "default");
  uid = some (text "1");
  generation = some (pos 1);
  deletion_timestamp = deletion;
  finalizers = some (stack_finalizer ∷ []);
  annotations = [];
  owner_references = [];
}

abbrev pub commit : Text
commit = text "0123456789"

abbrev pub spec : StackSpec
spec = record {
  stack = text "org/app/dev";
  backend = none;
  project_repo = some (text "https://example.org/app");
  flux_source = none;
  program_ref = none;
  branch = none;
  commit = some commit;
  repo_dir = none;
  shallow = false;
  git_auth = none;
  git_auth_secret = none;
  config = none;
  secrets = none;
  config_ref = none;
  secret_refs = none;
  secrets_provider = none;
  access_token_secret = none;
  env_refs = none;
  envs = [];
  secret_envs = [];
  retry_on_update_conflict = false;
  workspace_template = none;
  update_template = none;
  refresh = false;
  expect_no_refresh_changes = false;
  destroy_on_finalize = true;
  continue_resync_on_commit_match = false;
  finalizer_timeout_seconds = pos 3600;
  notifications = [];
  use_local_stack_only = false;
  resync_frequency_seconds = pos 60;
  preview = false;
  targets = [];
  target_dependents = false;
  prerequisites = [];
  service_account_name = none;
  environment = [];
  workspace_reclaim_policy = retain_workspace;
  retry_max_backoff_duration_seconds = pos 0;
  lock_timeout_seconds = pos 900;
  operation_timeout_seconds = pos 3600;
  project_verification = none;
}

-- A stack that has never been updated.
abbrev pub stack : Stack
stack = record { metadata = metadata none; spec = spec; status = none }

abbrev pub succeeded_state : StackUpdateState
succeeded_state = record {
  generation = pos 1;
  reconcile_request = none;
  name = some (text "app-01234567");
  update_type = some (text "up");
  state = some (text "succeeded");
  message = none;
  last_attempted_commit = none;
  last_successful_commit = some commit;
  permalink = none;
  last_resync_time = some (text "t");
  failures = pos 0;
}

abbrev pub status_of : Option StackUpdateState → Option CurrentStackUpdate → StackStatus
status_of last current = record {
  last_update = last;
  observed_generation = pos 1;
  observed_reconcile_request = none;
  conditions = [];
  current_update = current;
  pending_deletion_since = none;
  last_project_check = none;
}

abbrev pub succeeded_stack : Stack
succeeded_stack = record stack { status = some (status_of (some succeeded_state) none) }

-- The Update that the status calls current.
abbrev pub update_name : Text
update_name = text "app-01234567"

abbrev pub current : CurrentStackUpdate
current = record {
  generation = pos 1;
  reconcile_request = none;
  name = some update_name;
  commit = none;
}

-- A stack that is being deleted while an Update is current.
abbrev pub deleted_stack : Stack
deleted_stack = record {
  metadata = metadata (some (text "now"));
  spec = spec;
  status = some (status_of none (some current));
}

abbrev pub complete : Condition
complete = record {
  type_ = update_complete;
  status = text "True";
  reason = none;
  message = none;
  last_transition_time = none;
  observed_generation = pos 1;
}

abbrev pub update_status : UpdateStatus
update_status = record {
  observed_generation = pos 1;
  start_time = none;
  end_time = none;
  permalink = none;
  message = none;
  outputs = none;
  conditions = complete ∷ [];
}

-- A complete Update of type `up`.
abbrev pub up_update : Update
up_update = record {
  metadata = metadata none;
  spec = record {
    workspace_name = some (text "app");
    stack_name = some (text "org/app/dev");
    update_type = some up;
    ttl_after_completed = none;
    parallel = none;
    message = none;
    expect_no_changes = none;
    replace = [];
    target = [];
    target_dependents = none;
    refresh = none;
    continue_on_error = none;
    remove = none;
  };
  status = some update_status;
}

-- A workspace of the stack without a source.
abbrev pub workspace : Workspace
workspace = record {
  metadata = metadata none;
  spec = record {
    service_account_name = none;
    security_profile = restricted;
    git = none;
    flux = none;
    stacks = [];
  };
  status = none;
}

-- Every request succeeds, and the workspace has one ready replica.
abbrev pub env : Env
env = record {
  answer = λ e h. ok tt;
  get_stack = λ k h. ok stack;
  get_update = λ ns name h. ok up_update;
  list_updates = λ ns h. ok [];
  get_program = λ ns name h. err (api 404);
  get_workspace = λ ns name h. ok workspace;
  ready_replicas = λ ns name h. ok (some 1);
  flux_revision = λ ns group version kind plural name h. ok none;
  store_stack = λ ns name h. some succeeded_stack;
  store_program = λ ns name h. none;
  gcp_token = λ h. token_unsent (text "none");
  gcp_project = λ t p h. request_failed (text "none");
  connect = λ a h. true;
  cancel_ok = λ a h. true;
  instant = λ h. from_secs 1000;
  utc = λ h. from_secs 1000;
  parse_rfc3339 = λ s. some (from_secs 990);
  to_rfc3339 = λ t. text "t";
  timestamp = λ t. text "t";
  is_json = λ s. true;
  localhost = none;
}

abbrev pub start : History
start = record { effects = []; reads = 0 }

abbrev pub prerequisite : PrerequisiteRef
prerequisite = record { name = text "base"; requirement = none }
