-- ===== src/Actors/Run.antt =====
-- src/operator/actors/actor.rs, `run`: the loop of an actor. The mailbox is the list of the batches
-- that it drains: the message that `recv` waits for, and those that `try_recv` finds behind it.
pub mod Batches
use pulumi_rs_kube_operator.Base.{
  ℕ, zero, suc, Bool, true, false, Option, none, some, List, [], ◌∷◌, ◌++◌, length,
}
use pulumi_rs_kube_operator.Operator.Messages.{
  NameKey, PrioritizedMessage, StackMessage, reconcile, shutdown,
}
use pulumi_rs_kube_operator.Operator.Events.{active_actors_up, active_actors_down}
use pulumi_rs_kube_operator.Operator.Effects.{Env, M, perform, pure, metric, ◌>>=◌, ◌>>◌}
use pulumi_rs_kube_operator.Actors.State.{ActorState}
use pulumi_rs_kube_operator.Actors.HandleReconcile.{handle_reconcile}
use pulumi_rs_kube_operator.Actors.Mailbox.{Heap, pop, push_all}

-- After a batch the actor goes on, has stopped, or is gone with the process.
pub data Exit : Type 0 where
  running : ActorState → Exit
  stopped aborted : Exit

module _ (handle : ActorState → PrioritizedMessage → M Exit) where
  -- The rest of the batch, unless the message ended the actor.
  abbrev pub after : Exit → (ActorState → M Exit) → M Exit
  after (running st) rest = rest st
  after stopped rest = pure stopped
  after aborted rest = pure aborted

  -- Messages out of the heap, the most urgent first; each takes one unit of fuel.
  unfoldable pub process : ℕ → Heap → ActorState → M Exit
  process zero heap st = pure (running st)
  process (suc fuel) heap st = elim (pop heap) [
    | none ↦ pure (running st)
    | some (m, rest) ↦ (do exit ← handle st m; after exit (process fuel rest))
  ]

  -- The batches, until the channel is closed.
  unfoldable pub run_batches : List (List PrioritizedMessage) → ActorState → M Exit
  unfolding process push_all
  run_batches [] st = pure (running st)
  run_batches (batch ∷ batches) st = do
    exit ← process (length batch) (push_all batch []) st
    after exit (run_batches batches)

abbrev pub exit_of : Option ActorState → Exit
exit_of none = aborted
exit_of (some st) = running st

unfoldable pub handle_inner : Env → NameKey → ActorState → StackMessage → M Exit
handle_inner env key st (reconcile trigger) = do
  st' ← handle_reconcile env key st trigger
  pure (exit_of st')
handle_inner env key st shutdown = do perform (metric active_actors_down); pure stopped

unfoldable pub handle_message : Env → NameKey → ActorState → PrioritizedMessage → M Exit
unfolding handle_inner
handle_message env key st m = handle_inner env key st m.inner

-- The channel was closed: the actor stops too.
unfoldable pub close : Exit → M Exit
close (running st) = do perform (metric active_actors_down); pure stopped
close stopped = pure stopped
close aborted = pure aborted

unfoldable pub run : Env → NameKey → List (List PrioritizedMessage) → ActorState → M Exit
unfolding run_batches handle_message close
run env key batches st = do
  perform (metric active_actors_up)
  exit ← run_batches (handle_message env key) batches st
  close exit
