-- ===== src/Concurrency.antt =====
-- llm_platform/services/concurrency.py: the number of active requests of each deployment. Each
-- method holds the lock for its whole body, so it is one step.
pub mod Balance
use foundation_ai_platform.Prelude.{ℕ, String, ◌+◌, ◌-◌, ltb, if◌then◌else◌}
use foundation_ai_platform.Prelude.Dict.{Dict, get_or, insert}

pub record ConcurrencyTracker : Type 0 where
  pub active : Dict ℕ

unfoldable pub get_active_requests : ConcurrencyTracker → String → ℕ
get_active_requests t deployment_id = get_or deployment_id 0 t.active

unfoldable pub increment : String → ConcurrencyTracker → ConcurrencyTracker
increment deployment_id t =
    let current = get_or deployment_id 0 t.active in
    record { active = insert deployment_id (current + 1) t.active }

unfoldable pub decrement : String → ConcurrencyTracker → ConcurrencyTracker
decrement deployment_id t =
    let current = get_or deployment_id 0 t.active in
    if ltb 0 current
    then record { active = insert deployment_id (current - 1) t.active }
    else record { active = insert deployment_id 0 t.active }

unfoldable pub get_all : ConcurrencyTracker → Dict ℕ
get_all t = t.active
