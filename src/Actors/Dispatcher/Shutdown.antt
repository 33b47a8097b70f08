-- ===== src/Actors/Dispatcher/Shutdown.antt =====
-- src/operator/actors/dispatcher.rs, `shutdown_all`: what the actors see of it.
use pulumi_rs_kube_operator.Base.{
  ℕ, zero, suc, ◌-◌, ◌≤◌, not, true, ◌⊎◌, inl, inr, refl, [], ◌∷◌, ◌≡◌, ◌≢◌, arith, if_elim, List,
  Option, none, some, is_some, Instant, from_secs, count, length, ◌+◌, ◌*◌,
}
use pulumi_rs_kube_operator.Operator.Messages.{NameKey, PrioritizedMessage, Priority, StackMessage}
use pulumi_rs_kube_operator.Actors.Dispatcher.{
  ActorHandle, Actors, key_eq, Sent, spawned, send, send_to, live, dispatch_with_priority,
  drop_sender, shutdown_all, wait_for, wait_all,
}

-- What `recv` finds in a channel, given the number of its senders.
pub data Received (Mailbox : Type 0) : Type 0 where
  message : PrioritizedMessage → Mailbox → Received Mailbox
  pending closed : Received Mailbox

-- An actor that has ended, or beside whose handle's sender there is another one, its own.
abbrev pub HoldsSender : {Mailbox : Type 0} → ActorHandle Mailbox → Type 0
HoldsSender a = (a.finished ≡ true) ⊎ (2 ≤ a.senders)

abbrev pub AllHold : {Mailbox : Type 0} → Actors Mailbox → Type 0
AllHold [] = Unit {0}
AllHold ((k, a) ∷ rest) = HoldsSender a × AllHold rest

-- The n-th actor changes.
abbrev pub change :
    {Mailbox : Type 0}
    → ℕ
    → (ActorHandle Mailbox → ActorHandle Mailbox)
    → Actors Mailbox
    → Actors Mailbox
change n f [] = []
change zero f ((k, a) ∷ rest) = (k, f a) ∷ rest
change (suc n) f ((k, a) ∷ rest) = (k, a) ∷ change n f rest

-- Its mailbox is another one, since it has received or requeued messages.
abbrev pub renew : {Mailbox : Type 0} → Mailbox → ActorHandle Mailbox → ActorHandle Mailbox
renew mailbox a = record a { mailbox = mailbox }

-- Its task ends and drops its sender.
abbrev pub end_task : {Mailbox : Type 0} → ActorHandle Mailbox → ActorHandle Mailbox
end_task a = record a { senders = a.senders - 1; finished = true }

module _ {Mailbox : Type 0} (channel : ℕ → Mailbox)
    (try_send : PrioritizedMessage → Mailbox → Sent × Mailbox) where
  -- The tables of actors that there can be: messages are dispatched, actors handle them and end.
  pub data TableReach : Actors Mailbox → Type 0 where
    no_actor : TableReach []
    dispatched :
        (key : NameKey) (priority : Priority) (msg : StackMessage) {actors : Actors Mailbox}
        → TableReach actors
        → TableReach (dispatch_with_priority channel try_send key priority msg actors).1
    handled :
        (n : ℕ) (mailbox : Mailbox) {actors : Actors Mailbox}
        → TableReach actors
        → TableReach (change n (renew mailbox) actors)
    ended :
        (n : ℕ) {actors : Actors Mailbox}
        → TableReach actors
        → TableReach (change n end_task actors)

  send-HoldsSender :
      (m : PrioritizedMessage) (a : ActorHandle Mailbox)
      → HoldsSender a
      → HoldsSender (send channel try_send m a).1
  unfolding send
  send-HoldsSender m a o = o

  send_to-AllHold :
      (key : NameKey) (m : PrioritizedMessage) (actors : Actors Mailbox)
      → AllHold actors
      → AllHold (send_to channel try_send key m actors).1
  unfolding send_to
  send_to-AllHold key m [] o =
      (send-HoldsSender m (spawned channel try_send) (inr (omega arith)), tt)
  send_to-AllHold key m ((k, a) ∷ rest) (o, os) =
      if_elim {A = Sent × Actors Mailbox} (λ r. AllHold r.1) (key_eq k key)
        (λ _. (send-HoldsSender m a o, os)) (λ _. (o, send_to-AllHold key m rest os))

  live-AllHold : (actors : Actors Mailbox) → AllHold actors → AllHold (live actors)
  unfolding live
  live-AllHold [] o = tt
  live-AllHold ((k, a) ∷ rest) (o, os) =
      if_elim {A = Actors Mailbox} AllHold (not a.finished) (λ _. (o, live-AllHold rest os))
        (λ _. live-AllHold rest os)

  change-AllHold :
      (n : ℕ) (f : ActorHandle Mailbox → ActorHandle Mailbox)
      → ((a : ActorHandle Mailbox) → HoldsSender a → HoldsSender (f a))
      → (actors : Actors Mailbox) → AllHold actors
      → AllHold (change n f actors)
  change-AllHold n f keeps [] o = tt
  change-AllHold zero f keeps ((k, a) ∷ rest) (o, os) = (keeps a o, os)
  change-AllHold (suc n) f keeps ((k, a) ∷ rest) (o, os) = (o, change-AllHold n f keeps rest os)

  TableReach-AllHold : {actors : Actors Mailbox} → TableReach actors → AllHold actors
  unfolding dispatch_with_priority
  TableReach-AllHold no_actor = tt
  TableReach-AllHold (dispatched key priority msg {actors} r) =
      send_to-AllHold key _ _ (live-AllHold actors (TableReach-AllHold r))
  TableReach-AllHold (handled n mailbox {actors} r) =
      change-AllHold n (renew mailbox) (λ a o. o) actors (TableReach-AllHold r)
  TableReach-AllHold (ended n {actors} r) =
      change-AllHold n end_task (λ a o. inl refl) actors (TableReach-AllHold r)

module _ {Mailbox : Type 0} (recv : Mailbox → ℕ → Received Mailbox) where
  -- No running actor's `recv` says that its channel is closed.
  abbrev pub NoneClosed : Actors Mailbox → Type 0
  NoneClosed [] = Unit {0}
  NoneClosed ((k, a) ∷ rest) =
      ((a.finished ≡ true) ⊎ (recv a.mailbox a.senders ≢ closed)) × NoneClosed rest

  drop-NoneClosed :
      ((mailbox : Mailbox) (senders : ℕ) → recv mailbox senders ≡ closed → senders ≡ 0)
      → (actors : Actors Mailbox) → AllHold actors
      → NoneClosed (shutdown_all actors)
  unfolding shutdown_all drop_sender
  drop-NoneClosed only [] o = tt
  drop-NoneClosed only ((k, a) ∷ rest) (inl gone, os) = (inl gone, drop-NoneClosed only rest os)
  drop-NoneClosed only ((k, a) ∷ rest) (inr two, os) = (
    inr (λ e. let z = only a.mailbox (a.senders - 1) e in absurd (omega arith)),
    drop-NoneClosed only rest os,
  )

  -- Whatever messages were dispatched and handled, and whichever actors have ended, `shutdown_all`
  -- closes the channel of no actor that still runs, if `recv` says that a channel is closed only when
  -- no sender of it is left: an actor that waits for a message goes on waiting.
  pub shutdown_all-closes_nothing :
      (channel : ℕ → Mailbox) (try_send : PrioritizedMessage → Mailbox → Sent × Mailbox)
      → ((mailbox : Mailbox) (senders : ℕ) → recv mailbox senders ≡ closed → senders ≡ 0)
      → {actors : Actors Mailbox} → TableReach channel try_send actors
      → NoneClosed (shutdown_all actors)
  shutdown_all-closes_nothing channel try_send only {actors} r =
      drop-NoneClosed only actors (TableReach-AllHold channel try_send r)

-- How many actors never end.
abbrev pub hanging : List (Option Instant) → ℕ
hanging ends = count (λ end. not (is_some end)) ends

-- `shutdown_all` waits for the actors one after the other: at least five seconds for each actor that
-- never ends, and at most five seconds for each actor.
pub wait_all_bounds :
    (now : Instant) (ends : List (Option Instant))
    → (now + from_secs 5 * hanging ends ≤ wait_all now ends)
      × (wait_all now ends ≤ now + from_secs 5 * length ends)
unfolding wait_all wait_for
wait_all_bounds now [] = omega arith
wait_all_bounds now (none ∷ ends) = omega (arith, wait_all_bounds (now + from_secs 5) ends)
wait_all_bounds now (some t ∷ ends) =
    let w = wait_for_bounds now t in omega (arith, w, wait_all_bounds (wait_for now (some t)) ends)
  where
    wait_for_bounds :
        (now t : Instant)
        → (now ≤ wait_for now (some t)) × (wait_for now (some t) ≤ now + from_secs 5)
    wait_for_bounds now t = ground arith
