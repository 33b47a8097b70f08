-- ===== src/Operator/Start/Life.antt =====
-- src/operator/mod.rs, `run`: what holds in every state of the operator's process.
use pulumi_rs_kube_operator.Base.{
  Bool, true, false, text, ◌≡◌, ◌↔◌, refl, ap, ◌∙◌, arith, inr, text_eq,
}
use pulumi_rs_kube_operator.Operator.Health.{store_ready, probe}
use pulumi_rs_kube_operator.Operator.Start.{
  Phase, connecting, watching, draining, finished, ProcessState, connected, drain_actors,
  run_returns, SignalReceived, unconnected, connect, signal, exit, interrupt, returned,
  shut_watching, shut_draining, ProcessReach, here, next, sigint,
}

-- The controllers run, or the actors are waited for.
abbrev pub serving : Phase → Bool
serving connecting = false
serving watching = true
serving (draining result) = true
serving (finished result) = false

ready-serving : {p : ProcessState} → ProcessReach p → p.health.ready ≡ serving p.phase
unfolding connected drain_actors run_returns store_ready
ready-serving here = refl
ready-serving (next r (unconnected p m e)) = ready-serving r ∙ ap serving e
ready-serving (next r (connect p e)) = refl
ready-serving (next r (signal p s e)) = ready-serving r
ready-serving (next r (exit p c e)) = ready-serving r ∙ ap serving e
ready-serving (next r (interrupt p e s)) = ready-serving r ∙ ap serving e
ready-serving (next r (returned p result e)) = refl
ready-serving (next r (shut_watching p e s)) = refl
ready-serving (next r (shut_draining p result e s)) = refl

-- In every state of the process, the readiness probe is answered by 200 exactly while the controllers
-- run or the actors are waited for, and the health probe always is.
pub readyz_iff :
    {p : ProcessState}
    → ProcessReach p
    → ((probe (text "/readyz") p.health).status ≡ 200 ↔ serving p.phase ≡ true)
      × ((probe (text "/healthz") p.health).status ≡ 200)
unfolding probe text text_eq
readyz_iff {p} r = let h = ready-serving r in ((λ e. ground arith, λ e. ground arith), refl)

-- A controller has ended on the way.
abbrev pub Exited : {p : ProcessState} → ProcessReach p → Type 0
Exited here = ⊥
Exited (next r (unconnected p m e)) = Exited r
Exited (next r (connect p e)) = Exited r
Exited (next r (signal p s e)) = Exited r
Exited (next r (exit p c e)) = Unit {0}
Exited (next r (interrupt p e s)) = Exited r
Exited (next r (returned p result e)) = Exited r
Exited (next r (shut_watching p e s)) = Exited r
Exited (next r (shut_draining p result e s)) = Exited r

-- If no controller has ended and the process has received no SIGINT, the dispatcher's senders have
-- not been dropped, whatever other signals were received and also once `run` has returned.
pub sigterm-Undrained :
    {p : ProcessState} (r : ProcessReach p)
    → ¬ Exited r
    → ¬ SignalReceived sigint p.signals
    → p.drained ≡ false
unfolding connected drain_actors run_returns
sigterm-Undrained here x s = refl
sigterm-Undrained (next r (unconnected p m e)) x s = sigterm-Undrained r x s
sigterm-Undrained (next r (connect p e)) x s = sigterm-Undrained r x s
sigterm-Undrained (next r (signal p t e)) x s = sigterm-Undrained r x (λ i. s (inr i))
sigterm-Undrained (next r (exit p c e)) x s = absurd (x tt)
sigterm-Undrained (next r (interrupt p e i)) x s = absurd (s i)
sigterm-Undrained (next r (returned p result e)) x s = sigterm-Undrained r x s
sigterm-Undrained (next r (shut_watching p e i)) x s = sigterm-Undrained r x s
sigterm-Undrained (next r (shut_draining p result e i)) x s = sigterm-Undrained r x s
