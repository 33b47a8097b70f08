-- ===== src/Actors/State.antt =====
-- src/operator/actors/actor.rs: the private state of an actor.
use pulumi_rs_kube_operator.Base.{ℕ, Text, Option, none, ℤ, pos, Instant, from_secs}
use pulumi_rs_kube_operator.Operator.LockState.{LockState}

pub record ActorState : Type 0 where
  pub failure_count : ℕ
  pub lock_state : LockState
  pub last_commit : Option Text
  pub last_generation : ℤ
  pub next_reconcile_at : Option Instant

abbrev pub default_state : ActorState
default_state = record {
  failure_count = 0;
  lock_state = record { first_seen = none; timeout = from_secs 900; attempts = 0 };
  last_commit = none;
  last_generation = pos 0;
  next_reconcile_at = none;
}
