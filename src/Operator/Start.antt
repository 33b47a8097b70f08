-- ===== src/Operator/Start.antt =====
-- src/operator/mod.rs, `run`, with `run_all` of controllers/mod.rs and `shutdown_signal` and
-- `wait_for_shutdown` of shutdown.rs: the life of the operator's process. A step is an event that one
-- of the two `select!` waits for, or a signal that the process receives.
pub mod Life
use pulumi_rs_kube_operator.Base.{
  ℕ, Bool, true, false, List, [], ◌∷◌, ◌++◌, Result, ok, err, Text, text, ◌≡◌, ◌≢◌, ◌⊎◌,
}
use pulumi_rs_kube_operator.Errors.{RunError, kube, controller_exited}
use pulumi_rs_kube_operator.Operator.Health.{HealthState, new_health, store_ready}

-- What ends a controller of `run_all`: its stream of events ends. The evictor of the pool has no end.
pub data Controller : Type 0 where
  stack_watcher workspace_watcher update_watcher program_watcher : Controller

unfoldable pub exit_reason : Controller → Text
exit_reason stack_watcher = text "stack watcher exited: Ok(())"
exit_reason workspace_watcher = text "workspace watcher exited: Ok(())"
exit_reason update_watcher = text "update watcher exited: Ok(())"
exit_reason program_watcher = text "program watcher exited: Ok(())"

pub data Signal : Type 0 where
  sigint sigterm : Signal

-- Where `run` is: it connects to the API server, or waits for its controllers, or `run_all` waits for
-- the actors in `shutdown_all` before it returns, or `run` has returned.
pub data Phase : Type 0 where
  connecting watching : Phase
  draining finished : Result RunError (Unit {0}) → Phase

pub record ProcessState : Type 0 where
  pub phase : Phase
  pub health : HealthState
  pub signals : List Signal
  -- `shutdown_all` has dropped the dispatcher's senders.
  pub drained : Bool

abbrev pub process_started : ProcessState
process_started = record { phase = connecting; health = new_health; signals = []; drained = false }

-- The servers run, and the process says that it is ready, before the controllers do.
unfoldable pub connected : ProcessState → ProcessState
unfolding store_ready
connected p = record p { phase = watching; health = store_ready true p.health }

-- `run_all` drops the senders and waits for the actors.
unfoldable pub drain_actors : Result RunError (Unit {0}) → ProcessState → ProcessState
drain_actors result p = record p { phase = draining result; drained = true }

-- `run` returns.
unfoldable pub run_returns : Result RunError (Unit {0}) → ProcessState → ProcessState
unfolding store_ready
run_returns result p = record p { phase = finished result; health = store_ready false p.health }

abbrev pub SignalReceived : Signal → List Signal → Type 0
SignalReceived s [] = ⊥
SignalReceived s (t ∷ ts) = (t ≡ s) ⊎ SignalReceived s ts

pub data ProcessStep : ProcessState → ProcessState → Type 0 where
  unconnected :
      (p : ProcessState) (message : Text)
      → p.phase ≡ connecting
      → ProcessStep p (record p { phase = finished (err (kube message)) })
  connect : (p : ProcessState) → p.phase ≡ connecting → ProcessStep p (connected p)
  -- The handlers of signals are there once the client is.
  signal :
      (p : ProcessState) (s : Signal)
      → p.phase ≢ connecting
      → ProcessStep p (record p { signals = s ∷ p.signals })
  -- The `select!` of `run_all`: a controller ends, or `ctrl_c`.
  exit :
      (p : ProcessState) (c : Controller)
      → p.phase ≡ watching
      → ProcessStep p (drain_actors (err (controller_exited (exit_reason c))) p)
  interrupt :
      (p : ProcessState)
      → p.phase ≡ watching
      → SignalReceived sigint p.signals
      → ProcessStep p (drain_actors (ok tt) p)
  -- The `select!` of `run`: `run_all` returns, or the signal is seen, and `run_all` is dropped
  -- wherever it is.
  returned :
      (p : ProcessState) (result : Result RunError (Unit {0}))
      → p.phase ≡ draining result
      → ProcessStep p (run_returns result p)
  shut_watching :
      (p : ProcessState)
      → p.phase ≡ watching
      → p.signals ≢ []
      → ProcessStep p (run_returns (ok tt) p)
  shut_draining :
      (p : ProcessState) (result : Result RunError (Unit {0}))
      → p.phase ≡ draining result
      → p.signals ≢ []
      → ProcessStep p (run_returns (ok tt) p)

pub data ProcessReach : ProcessState → Type 0 where
  here : ProcessReach process_started
  next : {p q : ProcessState} → ProcessReach p → ProcessStep p q → ProcessReach q
