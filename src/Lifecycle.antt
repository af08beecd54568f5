-- ===== src/Lifecycle.antt =====
-- llm_platform/lifecycle/manager.py: the state of a deployment from its idle time.
pub mod Policy
use foundation_ai_platform.Prelude.{ℕ, zero, leb, nat_eq, if◌then◌else◌}
use foundation_ai_platform.Schemas.Enums.{LifecycleState, hot, warm, cold, same_state}
use foundation_ai_platform.Schemas.Records.{Timestamp, DeploymentRecord, LifecycleRecord}

pub record LifecycleManager : Type 0 where
  pub warm_after_seconds : ℕ
  pub cold_after_seconds : ℕ

-- The constructor's defaults, which bootstrap.py uses.
abbrev pub default_manager : LifecycleManager
default_manager = record { warm_after_seconds = 300; cold_after_seconds = 600 }

unfoldable pub initialize : Timestamp → DeploymentRecord → LifecycleRecord
initialize now d = record {
  deployment_id = d.deployment_id;
  state = hot;
  last_transition = now;
  idle_duration_seconds = 0;
}

unfoldable pub touch : Timestamp → LifecycleRecord → LifecycleRecord
touch now l = record l { state = hot; last_transition = now; idle_duration_seconds = 0 }

unfoldable pub next_state : LifecycleManager → LifecycleRecord → LifecycleState
next_state m l =
    if leb m.cold_after_seconds l.idle_duration_seconds
    then cold
    else if leb m.warm_after_seconds l.idle_duration_seconds
    then warm
    else if nat_eq l.idle_duration_seconds 0
    then hot
    else l.state

unfoldable pub reconcile : LifecycleManager → Timestamp → LifecycleRecord → LifecycleRecord
unfolding next_state
reconcile m now l =
    if same_state (next_state m l) l.state
    then l
    else record l { state = next_state m l; last_transition = now }
