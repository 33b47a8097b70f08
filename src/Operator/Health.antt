-- ===== src/Operator/Health.antt =====
-- src/operator/health.rs: the answers to the probes of the kubelet. The flag is what the server reads
-- of `HealthState`.
use pulumi_rs_kube_operator.Base.{Bool, false, Text, text, text_eq, if◌then◌else◌}
use pulumi_rs_kube_operator.Controllers.FileServer.{HttpResponse}

pub record HealthState : Type 0 where
  pub ready : Bool

abbrev pub not_found : HttpResponse
not_found = record { status = 404; body = text "not found" }

abbrev pub new_health : HealthState
new_health = record { ready = false }

-- `set_ready` and `set_not_ready`
unfoldable pub store_ready : Bool → HealthState → HealthState
store_ready ready state = record state { ready = ready }

abbrev pub alive : HttpResponse
alive = record { status = 200; body = text "ok" }

unfoldable pub probe : (path : Text) → HealthState → HttpResponse
probe path state =
    if text_eq path (text "/healthz")
    then alive
    else if text_eq path (text "/readyz")
    then (if state.ready then alive else record { status = 503; body = text "not ready" })
    else not_found
