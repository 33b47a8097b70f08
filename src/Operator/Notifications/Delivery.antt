-- ===== src/Operator/Notifications/Delivery.antt =====
-- src/operator/events.rs, `record`: an event is published, and the webhooks that want it are told. The
-- secrets of the cluster and the answers of the webhooks are arguments.
pub mod Counted
use pulumi_rs_kube_operator.Base.{
  ℕ, zero, suc, ◌&&◌, Bool, true, false, Option, none, some, or_else, List, [], ◌∷◌, ◌++◌, map,
  Result, ok, err, Text, text, text_eq, leb, ltb, Duration, from_secs, ◌==◌, if◌then◌else◌,
}
use pulumi_rs_kube_operator.Api.Meta.{name_any}
use pulumi_rs_kube_operator.Api.Stack.{Stack, WebhookAuthSecret, NotificationWebhook}
use pulumi_rs_kube_operator.Operator.Events.{StackEvent}
use pulumi_rs_kube_operator.Operator.Effects.{Kube, KubeError, api}
use pulumi_rs_kube_operator.Operator.Metrics.{
  MetricCall, inc_events_emitted, inc_notifications_sent, inc_notifications_failed,
}
use pulumi_rs_kube_operator.Operator.Notifications.{
  Severity, severity, event_reason, note, webhooks_of, Payload, build_payload,
}

-- The data of a Secret, by namespace and name.
abbrev pub Secrets : Type 0
Secrets = (ns name : Text) → Kube (Option (List (Text × Text)))

-- `data.get(key)`
unfoldable pub get_key : Text → List (Text × Text) → Option Text
get_key key [] = none
get_key key ((k, v) ∷ rest) = if text_eq k key then some v else get_key key rest

-- A secret of the operator's namespace; its key that is missing is an error with code 404.
unfoldable pub resolve_secret :
    (pod_namespace : Option Text) → Secrets → WebhookAuthSecret → Kube Text
unfolding get_key
resolve_secret pod_namespace secrets r =
    elim (secrets (or_else pod_namespace (text "default")) r.name) [
      | err e ↦ err e
      | ok found ↦ elim (get_key r.key (or_else found [])) [
        | none ↦ err (api 404)
        | some bytes ↦ ok bytes
      ]
    ]

-- A request to a webhook.
pub record Post : Type 0 where
  pub url : Text
  pub bearer : Option Text
  pub payload : Payload

-- What is answered to an attempt: a status, or nothing.
abbrev pub Answers : Type 0
Answers = Post → (attempt : ℕ) → Option ℕ

unfoldable pub is_success : Option ℕ → Bool
is_success none = false
is_success (some status) = leb 200 status && ltb status 300

-- What came of a delivery: the counter that moves, the requests, and the pauses after them.
pub record Delivery : Type 0 where
  pub counter : MetricCall
  pub posts : List Post
  pub pauses : List Duration

-- The attempts from one on, and a pause after the first.
unfoldable pub send_loop : Answers → Post → (left attempt : ℕ) → Delivery
unfolding is_success
send_loop answers post zero attempt = record {
  counter = inc_notifications_failed;
  posts = [];
  pauses = [];
}
send_loop answers post (suc left) attempt =
    let later = send_loop answers post left (suc attempt) in
    if is_success (answers post attempt)
    then record { counter = inc_notifications_sent; posts = post ∷ []; pauses = [] }
    else record later {
      posts = post ∷ later.posts;
      pauses = (if attempt == 0 then from_secs 1 ∷ [] else []) ++ later.pauses;
    }

-- The token that the requests bear, if a secret is named; it may not be found.
unfoldable pub token_of :
    (resolve : WebhookAuthSecret → Kube Text) → Option WebhookAuthSecret → Kube (Option Text)
token_of resolve none = ok none
token_of resolve (some secret_ref) = elim (resolve secret_ref) [
  | err e ↦ err e
  | ok token ↦ ok (some token)
]

unfoldable pub dispatch_webhook :
    (resolve : WebhookAuthSecret → Kube Text) → Answers → Payload → NotificationWebhook → Delivery
unfolding token_of send_loop
dispatch_webhook resolve answers payload webhook = elim (token_of resolve webhook.auth_secret) [
  | err e ↦ record { counter = inc_notifications_failed; posts = []; pauses = [] }
  | ok token ↦
      send_loop answers (record { url = webhook.url; bearer = token; payload = payload }) 2 0
]

-- The Event of Kubernetes, about the Stack.
pub record KubeEvent : Type 0 where
  pub type_ : Severity
  pub reason : Text
  pub note : Text
  pub action : Text
  pub stack_name : Text
  pub stack_namespace : Option Text

-- All that comes of recording an event, with the counters that move.
pub record Recorded : Type 0 where
  pub published : KubeEvent
  pub deliveries : List Delivery
  pub counters : List MetricCall

unfoldable pub record_stack_event :
    (resolve : WebhookAuthSecret → Kube Text)
    → Answers
    → (source now : Text) → Stack
    → StackEvent
    → Recorded
unfolding dispatch_webhook build_payload webhooks_of severity event_reason note
record_stack_event resolve answers source now stack event =
    let deliveries =
      map (dispatch_webhook resolve answers (build_payload source now stack event))
        (webhooks_of event stack.spec.notifications) in
    record {
      published = record {
        type_ = severity event;
        reason = event_reason event;
        note = note source event;
        action = text "Reconcile";
        stack_name = name_any stack.metadata;
        stack_namespace = stack.metadata.namespace;
      };
      deliveries = deliveries;
      counters = inc_events_emitted ∷ map (λ (d : Delivery). d.counter) deliveries;
    }
