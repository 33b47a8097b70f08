-- ===== src/Operator/Notifications/Delivery/Counted.antt =====
-- src/operator/events.rs, `record`: how often the webhooks are called, and what is counted.
use pulumi_rs_kube_operator.Base.{
  ℕ, ◌≤◌, true, false, ◌⊎◌, ◌↔◌, Option, none, some, Option-cases, List, [], ◌∷◌, map, ok, err,
  Text, ◌≡◌, refl, sym, ap, ◌∙◌, arith, Bool-cases, Result-cases, inl, inr, from_secs, ◌==◌,
  List-cases, AnyOf, any-AnyOf, Picked, retain-Picked, none-Picked, if◌then◌else◌,
}
use pulumi_rs_kube_operator.Api.Stack.{
  Stack, WebhookAuthSecret, NotificationWebhook, NotificationEventFilter, on_update_succeeded,
  on_update_failed, on_destroy_succeeded, on_destroy_failed, on_lock_conflict, on_stalled,
}
use pulumi_rs_kube_operator.Operator.Events.{StackEvent}
use pulumi_rs_kube_operator.Operator.Effects.{Kube, KubeError}
use pulumi_rs_kube_operator.Operator.Metrics.{
  inc_events_emitted, inc_notifications_sent, inc_notifications_failed,
}
use pulumi_rs_kube_operator.Operator.Notifications.{
  notification_filter, filter_value, wants, webhooks_of, Payload, build_payload,
}
use pulumi_rs_kube_operator.Operator.Notifications.Delivery.{
  Answers, Post, is_success, Delivery, send_loop, token_of, dispatch_webhook, record_stack_event,
}

-- The request that a webhook gets.
abbrev pub post_of : Payload → NotificationWebhook → Option Text → Post
post_of payload webhook token = record { url = webhook.url; bearer = token; payload = payload }

-- Its token is found, if it names one, and one of two attempts is answered by a success.
pub record Accepted (resolve : WebhookAuthSecret → Kube Text) (answers : Answers)
    (payload : Payload) (webhook : NotificationWebhook) : Type 0 where
  pub token : Option Text
  pub found : token_of resolve webhook.auth_secret ≡ ok token
  pub success :
      (is_success (answers (post_of payload webhook token) 0) ≡ true)
      ⊎ (is_success (answers (post_of payload webhook token) 1) ≡ true)

send_loop-sent :
    (answers : Answers) (post : Post)
    → (send_loop answers post 2 0).counter ≡ inc_notifications_sent
    → (is_success (answers post 0) ≡ true) ⊎ (is_success (answers post 1) ≡ true)
unfolding send_loop
send_loop-sent answers post e = elim (Bool-cases (is_success (answers post 0))) [
  | inl s ↦ inl s
  | inr n ↦ elim (Bool-cases (is_success (answers post 1))) [
    | inl s ↦ inr s
    | inr m ↦ let e' = rw (n, m) at e in absurd (ground arith)
  ]
]

sent-send_loop :
    (answers : Answers) (post : Post)
    → (is_success (answers post 0) ≡ true) ⊎ (is_success (answers post 1) ≡ true)
    → (send_loop answers post 2 0).counter ≡ inc_notifications_sent
unfolding send_loop
sent-send_loop answers post s = ground arith

module _ (resolve : WebhookAuthSecret → Kube Text) (answers : Answers) (payload : Payload) where
  -- A webhook is counted as told exactly if the secret that it names, if any, is found, and the first
  -- or the second request to its address, with that token and the payload, is answered by a success.
  pub dispatch_webhook_iff :
      (webhook : NotificationWebhook)
      → (dispatch_webhook resolve answers payload webhook).counter ≡ inc_notifications_sent
        ↔ Accepted resolve answers payload webhook
  unfolding dispatch_webhook
  dispatch_webhook_iff webhook = (told, accepted)
    where
      told :
          (dispatch_webhook resolve answers payload webhook).counter ≡ inc_notifications_sent
          → Accepted resolve answers payload webhook
      told e = elim (Result-cases (token_of resolve webhook.auth_secret)) [
        | inl (token, f) ↦ record {
          token = token;
          found = f;
          success = send_loop-sent answers _ (rw (dispatch_webhook, f) at e);
        }
        | inr (x, f) ↦ let e' = rw (dispatch_webhook, f) at e in absurd (ground arith)
      ]

      accepted :
          Accepted resolve answers payload webhook
          → (dispatch_webhook resolve answers payload webhook).counter ≡ inc_notifications_sent
      accepted a =
          rw (dispatch_webhook, a.found)
            (sent-send_loop answers (post_of payload webhook a.token) a.success)

-- An answer is a status from 200 to 299.
pub record Succeeds (answer : Option ℕ) : Type 0 where
  pub status : ℕ
  pub answered : answer ≡ some status
  pub least : 200 ≤ status
  pub most : status ≤ 299

-- What a webhook gets, and what is counted: its secret is not found; it accepts the first request, or
-- the second, a second later; or it accepts neither of them.
pub data Fate (resolve : WebhookAuthSecret → Kube Text) (answers : Answers) (payload : Payload)
    (webhook : NotificationWebhook) (d : Delivery) : Type 0 where
  unresolved :
      {x : KubeError}
      → token_of resolve webhook.auth_secret ≡ err x
      → d ≡ record { counter = inc_notifications_failed; posts = []; pauses = [] }
      → Fate resolve answers payload webhook d
  at_first :
      {token : Option Text}
      → token_of resolve webhook.auth_secret ≡ ok token
      → Succeeds (answers (post_of payload webhook token) 0)
      → d ≡ record {
        counter = inc_notifications_sent;
        posts = post_of payload webhook token ∷ [];
        pauses = [];
      }
      → Fate resolve answers payload webhook d
  at_second :
      {token : Option Text}
      → token_of resolve webhook.auth_secret ≡ ok token
      → ¬ Succeeds (answers (post_of payload webhook token) 0)
      → Succeeds (answers (post_of payload webhook token) 1)
      → d ≡ record {
        counter = inc_notifications_sent;
        posts = post_of payload webhook token ∷ post_of payload webhook token ∷ [];
        pauses = from_secs 1 ∷ [];
      }
      → Fate resolve answers payload webhook d
  at_neither :
      {token : Option Text}
      → token_of resolve webhook.auth_secret ≡ ok token
      → ¬ Succeeds (answers (post_of payload webhook token) 0)
      → ¬ Succeeds (answers (post_of payload webhook token) 1)
      → d ≡ record {
        counter = inc_notifications_failed;
        posts = post_of payload webhook token ∷ post_of payload webhook token ∷ [];
        pauses = from_secs 1 ∷ [];
      }
      → Fate resolve answers payload webhook d

is_success→Succeeds : (answer : Option ℕ) → is_success answer ≡ true → Succeeds answer
unfolding is_success
is_success→Succeeds none e = absurd (ground arith)
is_success→Succeeds (some status) e = record {
  status = status;
  answered = refl;
  least = ground arith;
  most = ground arith;
}

Succeeds→is_success : (answer : Option ℕ) → Succeeds answer → is_success answer ≡ true
unfolding is_success
Succeeds→is_success none s = let e = s.answered in absurd (ground arith)
Succeeds→is_success (some status) s =
    let e = s.answered in let l = s.least in let m = s.most in ground arith

is_success-false : (answer : Option ℕ) → is_success answer ≡ false → ¬ Succeeds answer
is_success-false answer f s = let t = Succeeds→is_success answer s in ground arith

module _ (resolve : WebhookAuthSecret → Kube Text) (answers : Answers) (payload : Payload) where
  dispatch_webhook-Fate :
      (webhook : NotificationWebhook)
      → Fate resolve answers payload webhook (dispatch_webhook resolve answers payload webhook)
  unfolding dispatch_webhook send_loop
  dispatch_webhook-Fate webhook = elim (Result-cases (token_of resolve webhook.auth_secret)) [
    | inr (x, f) ↦ unresolved f (rw (dispatch_webhook, f) refl)
    | inl (token, f) ↦
        let post = post_of payload webhook token in
        elim (Bool-cases (is_success (answers post 0))) [
          | inl s ↦ at_first f (is_success→Succeeds _ s) (rw (dispatch_webhook, f, s) refl)
          | inr n ↦ elim (Bool-cases (is_success (answers post 1))) [
            | inl s ↦
                at_second f (is_success-false _ n) (is_success→Succeeds _ s)
                  (rw (dispatch_webhook, f, n, s) refl)
            | inr m ↦
                at_neither f (is_success-false _ n) (is_success-false _ m)
                  (rw (dispatch_webhook, f, n, m) refl)
          ]
        ]
  ]

  -- Each webhook of a list has the delivery at its place in the other.
  pub data Fates : List NotificationWebhook → List Delivery → Type 0 where
    no_fate : Fates [] []
    next_fate :
        {w : NotificationWebhook} {d : Delivery} {ws : List NotificationWebhook}
        {ds : List Delivery}
        → Fate resolve answers payload w d
        → Fates ws ds
        → Fates (w ∷ ws) (d ∷ ds)

  deliveries-Fates :
      (ws : List NotificationWebhook) → Fates ws (map (dispatch_webhook resolve answers payload) ws)
  deliveries-Fates [] = no_fate
  deliveries-Fates (w ∷ ws) = next_fate (dispatch_webhook-Fate w) (deliveries-Fates ws)

-- A webhook is told of events of this kind, since it names no kinds, or this one among others.
abbrev pub Wants : StackEvent → NotificationWebhook → Type 0
Wants event webhook =
    (kind : NotificationEventFilter) × (notification_filter event ≡ some kind)
    × ((webhook.events ≡ []) ⊎ AnyOf (λ f. f ≡ kind) webhook.events)

abbrev filter_of : ℕ → NotificationEventFilter
filter_of n =
    if n == 0
    then on_update_succeeded
    else if n == 1
    then on_update_failed
    else if n == 2
    then on_destroy_succeeded
    else if n == 3
    then on_destroy_failed
    else if n == 4
    then on_lock_conflict
    else on_stalled

filter_of-value : (f : NotificationEventFilter) → filter_of (filter_value f) ≡ f
filter_of-value on_update_succeeded = refl
filter_of-value on_update_failed = refl
filter_of-value on_destroy_succeeded = refl
filter_of-value on_destroy_failed = refl
filter_of-value on_lock_conflict = refl
filter_of-value on_stalled = refl

filter_iff :
    (kind f : NotificationEventFilter) → filter_value f == filter_value kind ≡ true ↔ (f ≡ kind)
filter_iff kind f = (
  λ e.
      let same : filter_value f ≡ filter_value kind = ground arith in
      sym (filter_of-value f) ∙ ap filter_of same ∙ filter_of-value kind,
  λ e. rw e (ground arith),
)

-- Which of a webhook's kinds let the event of a kind pass.
passes_iff :
    (kind : NotificationEventFilter) (webhook : NotificationWebhook)
    → wants kind webhook ≡ true ↔ ((webhook.events ≡ []) ⊎ AnyOf (λ f. f ≡ kind) webhook.events)
unfolding wants
passes_iff kind webhook = elim (List-cases webhook.events) [
  | inl n ↦ rw n (λ e. inl refl, λ z. refl)
  | inr (e, es, c) ↦ rw c (
      let (there, back) = any-AnyOf _ _ (e ∷ es) (filter_iff kind) in
      (λ t. inr (there t), λ p. elim p [ inl n ↦ absurd (ground arith) | inr a ↦ back a ]))
]

wanted-Picked :
    (event : StackEvent) (notifications : List NotificationWebhook)
    → Picked (Wants event) notifications (webhooks_of event notifications)
unfolding webhooks_of
wanted-Picked event notifications = elim (Option-cases (notification_filter event)) [
  | inl n ↦
      rw (webhooks_of, n)
        (none-Picked (Wants event) notifications (λ w (kind, s, p). absurd (ground arith)))
  | inr (kind, s) ↦
      rw (webhooks_of, s)
        (retain-Picked (wants kind) (Wants event) notifications (λ w. (
          λ t. (kind, s, (passes_iff kind w).0 t),
          λ (k, s', p). let same : kind ≡ k = ground arith in (passes_iff kind w).1 (rw same p),
        )))
]

-- Recording an event counts one event, and what came of each delivery. There is a delivery for each
-- webhook of the stack, in their order, that wants events of this kind: with the secret's token, which
-- if it is not found counts as a failure without a request; counted as sent if the first request is
-- answered by a status from 200 to 299, or the second, a second later; and otherwise as failed after
-- these two requests.
pub record_stack_event-counted :
    (resolve : WebhookAuthSecret → Kube Text) (answers : Answers) (source now : Text)
    (stack : Stack) (event : StackEvent)
    → let r = record_stack_event resolve answers source now stack event in
      (r.counters ≡ inc_events_emitted ∷ map (λ (d : Delivery). d.counter) r.deliveries)
      × ((wanted : List NotificationWebhook) × Picked (Wants event) stack.spec.notifications wanted
          × Fates resolve answers (build_payload source now stack event) wanted r.deliveries)
unfolding record_stack_event
record_stack_event-counted resolve answers source now stack event = (
  refl,
  (
    webhooks_of event stack.spec.notifications,
    wanted-Picked event stack.spec.notifications,
    deliveries-Fates resolve answers (build_payload source now stack event) _,
  ),
)
