-- ===== src/Lifecycle/Policy/Tests.antt =====
-- The lifecycle policy on small inputs (llm_platform/lifecycle/manager.py).
use foundation_ai_platform.Prelude.{◌≡◌, refl, arith}
use foundation_ai_platform.Schemas.Enums.{warm, cold}
use foundation_ai_platform.Samples.{tiny_idle, lifecycle}
use foundation_ai_platform.Lifecycle.{default_manager, reconcile}
use foundation_ai_platform.Lifecycle.Policy.{IsAged, reconcile-IsAged}

cools : (reconcile default_manager 9 (lifecycle "d1" warm 600)) ≡ record {
  deployment_id = "d1";
  state = cold;
  last_transition = 9;
  idle_duration_seconds = 600;
}
unfolding reconcile
cools = refl

reconcile-IsAged_example :
    IsAged default_manager
      (reconcile default_manager 3 (record tiny_idle { idle_duration_seconds = 700 }))
reconcile-IsAged_example = reconcile-IsAged default_manager 3 tiny_idle 700 refl (omega arith)
