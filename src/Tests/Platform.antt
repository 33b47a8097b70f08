-- ===== src/Tests/Platform.antt =====
-- The operator's process, its notifications, the pool without interleavings, and the agent's start and
-- authorization at concrete inputs.
use pulumi_rs_kube_operator.Base.{
  ℕ, true, false, none, some, Option, List, [], ◌∷◌, ok, map, Picked, Text, text, from_secs, ◌≡◌,
  ◌↔◌, refl, inl, inr, text_eq, contains, if◌then◌else◌, ◌==◌, ◌≢◌,
}
use pulumi_rs_kube_operator.Api.Stack.{Stack, NotificationWebhook, on_update_failed}
use pulumi_rs_kube_operator.Operator.Events.{StackEvent, update_failed_event}
use pulumi_rs_kube_operator.Operator.Metrics.{inc_events_emitted}
use pulumi_rs_kube_operator.Operator.Notifications.{build_payload}
use pulumi_rs_kube_operator.Operator.Notifications.Delivery.{Answers, Delivery, record_stack_event}
use pulumi_rs_kube_operator.Operator.Notifications.Delivery.Counted.{
  record_stack_event-counted, Wants, Fates,
}
use pulumi_rs_kube_operator.Operator.Connection.{Pool, new_pool, lend, evict_idle}
use pulumi_rs_kube_operator.Operator.Connection.Indexed.{Indexed}
use pulumi_rs_kube_operator.Operator.Connection.Uninterrupted
use pulumi_rs_kube_operator.Operator.Connection.Uninterrupted.{PoolReach-Indexed}
use pulumi_rs_kube_operator.Operator.Start.{
  ProcessState, watching, connecting, process_started, connected, run_returns, SignalReceived,
  sigterm, sigint, ProcessReach, here, next, connect, signal, shut_watching,
}
use pulumi_rs_kube_operator.Operator.Start.Life.{sigterm-Undrained}
use pulumi_rs_kube_operator.Agent.Init.{GitOutput, git_success, extracted, initialize_workspace}
use pulumi_rs_kube_operator.Agent.Init.Confined.{Linked, initialize_workspace-Linked}
use pulumi_rs_kube_operator.Reconcile.CreateUpdate.{update_spec}
use pulumi_rs_kube_operator.Reconcile.Destroy.{destroy_spec}
use pulumi_rs_kube_operator.Controllers.StreamUpdate.{up_request, destroy_request}
use pulumi_rs_kube_operator.Agent.Command.{up_args, destroy_args}
use pulumi_rs_kube_operator.Agent.Command.Options.{read_options}
use pulumi_rs_kube_operator.Agent.Command.HandedDown.{options-handed_down, up_asked, destroy_asked}
use pulumi_rs_kube_operator.Agent.Auth.{allow, Reviews, authenticate}
use pulumi_rs_kube_operator.Agent.Auth.Allowed.{Allowed, authenticate_iff}
use pulumi_rs_kube_operator.Tests.Data.{stack, key}

-- Two connections are lent, and the idle ones are evicted.
abbrev lent_one : Pool ℕ
lent_one = (lend (from_secs 5) (text "a:50051") (some 7) (new_pool (from_secs 60))).1

abbrev lent_two : Pool ℕ
lent_two = (lend (from_secs 50) (text "b:50051") (some 8) lent_one).1

abbrev lending : Uninterrupted.PoolReach (from_secs 60) (evict_idle (from_secs 70) lent_two)
lending =
    Uninterrupted.next
      (Uninterrupted.next
        (Uninterrupted.next Uninterrupted.created
          (Uninterrupted.lent (from_secs 5) (text "a:50051") (some 7) (new_pool (from_secs 60))))
        (Uninterrupted.lent (from_secs 50) (text "b:50051") (some 8) lent_one))
      (Uninterrupted.evicted (from_secs 70) lent_two)

PoolReach-Indexed_example :
    Indexed (evict_idle (from_secs 70) lent_two).entries (evict_idle (from_secs 70) lent_two).index
PoolReach-Indexed_example = PoolReach-Indexed (from_secs 60) lending

-- The process connects, receives SIGTERM and ends.
abbrev terminated : ProcessState
terminated = record (connected process_started) { signals = sigterm ∷ [] }

connected_watching : (connected process_started).phase ≡ watching
unfolding connected
connected_watching = refl

not_connecting : (connected process_started).phase ≢ connecting
unfolding connected
not_connecting e = cc

is_signalled : terminated.signals ≢ []
is_signalled e = cc

abbrev ending : ProcessReach (run_returns (ok tt) terminated)
unfolding connected
ending =
    next
      (next (next here (connect process_started refl))
        (signal (connected process_started) sigterm not_connecting))
      (shut_watching terminated connected_watching is_signalled)

not_sigint : ¬ SignalReceived sigint (sigterm ∷ [])
not_sigint (inl e) = cc
not_sigint (inr r) = r

sigterm-Undrained_example : (run_returns (ok tt) terminated).drained ≡ false
unfolding connected run_returns
sigterm-Undrained_example = sigterm-Undrained ending (λ x. x) not_sigint

-- A stack with a webhook for failed Updates, which is told of one at the second attempt.
abbrev alerting : Stack
alerting = record stack {
  spec = record stack.spec {
    notifications =
        record {
          url = text "https://hooks.example/x";
          auth_secret = some (record { name = text "hook"; key = text "token" });
          events = on_update_failed ∷ [];
        }
        ∷ [];
  };
}

abbrev answers : Answers
answers post attempt = if attempt == 0 then some 503 else some 200

abbrev failed_event : StackEvent
failed_event = update_failed_event (text "app-1") (text "exit status 1")

record_stack_event-counted_example :
    let r =
      record_stack_event (λ s. ok (text "secret")) answers [] (text "now") alerting failed_event in
    (r.counters ≡ inc_events_emitted ∷ map (λ (d : Delivery). d.counter) r.deliveries)
    × ((wanted : List NotificationWebhook) × Picked
          (Wants failed_event)
          alerting.spec.notifications
          wanted
        × Fates
            (λ s. ok (text "secret"))
            answers
            (build_payload [] (text "now") alerting failed_event)
            wanted
            r.deliveries)
record_stack_event-counted_example =
    record_stack_event-counted (λ s. ok (text "secret")) answers [] (text "now") alerting
      failed_event

-- The source is a directory of a repository.
abbrev init_env : Text → Option Text
init_env name =
    if text_eq name (text "GIT_URL")
    then some (text "https://git.example/app")
    else if text_eq name (text "GIT_DIR")
    then some (text "infra/dev")
    else none

abbrev clone_works : List Text → GitOutput
clone_works args = git_success

abbrev nothing_fails : Text → Text → Option Text
nothing_fails source workspace_dir = none

initializes :
    initialize_workspace clone_works
      (λ url. extracted)
      nothing_fails
      (text "/share/source")
      (text "/share/workspace")
      none
      init_env
    ≡ ok (some (text "/share/source/infra/dev"))
unfolding initialize_workspace text text_eq contains
initializes = refl

initialize_workspace-Linked_example :
    Linked clone_works
      (λ url. extracted)
      nothing_fails
      (text "/share/source")
      (text "/share/workspace")
      (some (text "/share/source/infra/dev"))
initialize_workspace-Linked_example =
    initialize_workspace-Linked clone_works (λ url. extracted) nothing_fails (text "/share/source")
      (text "/share/workspace") none init_env initializes

abbrev reviews : Reviews
reviews = record {
  token_review = λ token audiences. ok (
      some (record {
        authenticated = some true;
        user = some (record { uid = some (text "7"); username = some (text "op") });
      }));
  access_review = λ r. ok (some true);
}

authenticate_iff_example :
    authenticate reviews (text "t") [] (text "ns") (text "ws") ≡ allow (text "7") (text "op")
    ↔ Allowed reviews (text "t") [] (text "ns") (text "ws") (text "7") (text "op")
authenticate_iff_example =
    authenticate_iff reviews (text "t") [] (text "ns") (text "ws") (text "7") (text "op")

-- A stack with a target that looks like an option.
abbrev targeted : Stack
targeted = record stack {
  spec = record stack.spec { targets = text "--refresh" ∷ text "urn:x" ∷ []; refresh = true };
}

options-handed_down_example :
    (read_options (up_args (up_request (update_spec key targeted))) ≡ up_asked targeted)
    × (read_options (destroy_args (destroy_request (destroy_spec key targeted)))
        ≡ destroy_asked targeted)
options-handed_down_example = options-handed_down key targeted
