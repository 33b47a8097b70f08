-- ===== src/Actors/Dispatcher.antt =====
-- src/operator/actors/dispatcher.rs: routing to actors, and shutdown. The channels are tokio's:
-- their states are the parameter `Mailbox`, and what `mpsc::channel` and `try_send` do with them are
-- the parameters `channel` and `try_send`. The senders are counted, since the program clones and
-- drops them.
pub mod Shutdown
pub mod Routing
use pulumi_rs_kube_operator.Base.{
  ℕ, ◌-◌, Bool, true, false, ◌&&◌, not, List, [], ◌∷◌, map, length, retain, text_eq, if◌then◌else◌,
  Option, none, some, Instant, from_secs, ltb, ◌+◌,
}
use pulumi_rs_kube_operator.Operator.Messages.{
  NameKey, PrioritizedMessage, Priority, normal, StackMessage,
}

unfoldable pub key_eq : NameKey → NameKey → Bool
key_eq a b = text_eq a.ns b.ns && text_eq a.name b.name

-- The channel of an actor, the senders of it that are held, and whether its task has ended.
pub record ActorHandle (Mailbox : Type 0) : Type 0 where
  pub mailbox : Mailbox
  pub senders : ℕ
  pub finished : Bool

abbrev pub Actors : Type 0 → Type 0
Actors Mailbox = List (NameKey × ActorHandle Mailbox)

-- The answers of `try_send`.
pub data Sent : Type 0 where
  sent full receiver_gone : Sent

abbrev pub capacity : ℕ
capacity = 64

unfoldable pub live : {Mailbox : Type 0} → Actors Mailbox → Actors Mailbox
live actors = retain (λ e. not e.1.finished) actors

module _ {Mailbox : Type 0} (channel : ℕ → Mailbox)
    (try_send : PrioritizedMessage → Mailbox → Sent × Mailbox) where
  -- A new actor: one sender is in the handle, and the actor keeps the other to requeue itself.
  abbrev pub spawned : ActorHandle Mailbox
  spawned = record { mailbox = channel capacity; senders = 2; finished = false }

  -- The send through a clone of the handle's sender, which is dropped after it.
  unfoldable pub send : PrioritizedMessage → ActorHandle Mailbox → Sent × ActorHandle Mailbox
  send m a = let (r, mailbox') = try_send m a.mailbox in (r, record a { mailbox = mailbox' })

  -- `entry(key).or_insert_with(spawn)`, and the send to it.
  unfoldable pub send_to : NameKey → PrioritizedMessage → Actors Mailbox → Sent × Actors Mailbox
  unfolding key_eq send
  send_to key m [] = let (r, a) = send m spawned in (r, (key, a) ∷ [])
  send_to key m ((k, a) ∷ rest) =
      let (r', rest') = send_to key m rest in
      if key_eq k key then (let (r, a') = send m a in (r, (k, a') ∷ rest)) else (r', (k, a) ∷ rest')

  unfoldable pub dispatch_with_priority :
      NameKey → Priority → StackMessage → Actors Mailbox → Sent × Actors Mailbox
  unfolding live send_to
  dispatch_with_priority key priority msg actors =
      send_to key (record { priority = priority; inner = msg }) (live actors)

  unfoldable pub dispatch_normal : NameKey → StackMessage → Actors Mailbox → Sent × Actors Mailbox
  unfolding dispatch_with_priority
  dispatch_normal key msg actors = dispatch_with_priority key normal msg actors

module _ {Mailbox : Type 0} where
  -- `drop(handle.tx)`
  unfoldable pub drop_sender : ActorHandle Mailbox → ActorHandle Mailbox
  drop_sender a = record a { senders = a.senders - 1 }

  -- The actors once `shutdown_all` has dropped the dispatcher's senders.
  unfoldable pub shutdown_all : Actors Mailbox → Actors Mailbox
  unfolding drop_sender
  shutdown_all actors = map (λ e. (e.0, drop_sender e.1)) actors

  unfoldable pub active_count : Actors Mailbox → ℕ
  active_count actors = length actors

-- `timeout(5s, handle)`, from one moment on, for an actor that ends at a moment or never: when the wait
-- for it is over.
unfoldable pub wait_for : (now : Instant) → Option Instant → Instant
wait_for now none = now + from_secs 5
wait_for now (some ends) =
    if ltb ends now then now else if ltb ends (now + from_secs 5) then ends else now + from_secs 5

-- The handles are awaited one after the other.
unfoldable pub wait_all : (now : Instant) → List (Option Instant) → Instant
unfolding wait_for
wait_all now [] = now
wait_all now (end ∷ ends) = wait_all (wait_for now end) ends
