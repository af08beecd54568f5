-- ===== src/Routing/Decision/Serving.antt =====
-- The deployment by which `route` (llm_platform/routing/router.py) lets a request be served at once.
use foundation_ai_platform.Prelude.{
  ◌≡◌, inl, inr, true, false, List, none, some, Elem, ◌∙◌, sym, [],
}
use foundation_ai_platform.Exec.{ok}
use foundation_ai_platform.Schemas.Enums.{DeploymentStatus}
use foundation_ai_platform.Schemas.Records.{
  ModelRecord, DeploymentRecord, LifecycleRecord, RouteDecision,
}
use foundation_ai_platform.Routing.Groups.{RouteRequest, is_capable, lifecycle_by_deployment}
use foundation_ai_platform.Routing.Categories.{Trackers, idle}
use foundation_ai_platform.Routing.Categories.Coverage.{kind_in}
use foundation_ai_platform.Routing.Decision.{Random, IsRandom, route}
use foundation_ai_platform.Routing.Decision.Sources.{IsSound}
use foundation_ai_platform.Routing.Decision.Soundness.{route-IsSound}
use foundation_ai_platform.Routing.Decision.Availability.{route_serves_warm}

-- A decision for a deployment that runs: it is listed, ready, of the model, and named by its id and
-- its endpoint; nothing is started and nothing is evicted.
pub record IsServing (deployments : List DeploymentRecord) (d : RouteDecision) : Type 0 where
  pub deployment : DeploymentRecord
  pub listed : Elem deployment deployments
  pub is_ready : deployment.status ≡ DeploymentStatus.ready
  pub of_model : deployment.model_id ≡ d.model_id
  pub named : d.deployment_id ≡ some deployment.deployment_id
  pub reached : d.endpoint ≡ some deployment.endpoint
  pub no_cold_start : d.requires_cold_start ≡ false
  pub no_new_instance : d.requires_new_instance ≡ false
  pub no_eviction : d.evict_deployment_id ≡ none

module _ (random : Random) (trackers : Trackers) (request : RouteRequest)
    (models : List ModelRecord) (deployments : List DeploymentRecord)
    (lifecycle_records : List LifecycleRecord) where
  serving :
      (d : RouteDecision)
      → IsSound request.capability models deployments
          (lifecycle_by_deployment lifecycle_records [])
          d
      → d.requires_cold_start ≡ false
      → d.requires_new_instance ≡ false
      → d.evict_deployment_id ≡ none
      → IsServing deployments d
  serving d s cold instance_ evict = elim s.target [
    | inr (alone, unnamed, started) ↦ absurd cc
    | inl n ↦ elim n.status_fits [
      | inr (waits, started) ↦ absurd cc
      | inl (up, warm) ↦ record {
        deployment = n.deployment;
        listed = n.listed;
        is_ready = up;
        of_model = n.of_model ∙ sym s.named;
        named = n.named;
        reached = n.reached;
        no_cold_start = cold;
        no_new_instance = instance_;
        no_eviction = evict;
      }
    ]
  ]

  -- While some model of the capability has a deployment that is ready and idle, the request is
  -- answered with a deployment of the list that is ready, by its id and endpoint: nothing is started
  -- and nothing is evicted. `random` draws from the lists that it is given.
  pub route-ServedWarm :
      (m : ModelRecord) (d : DeploymentRecord)
      → IsRandom random
      → Elem m models
      → is_capable request.capability m ≡ true
      → Elem d deployments
      → d.model_id ≡ m.id
      → kind_in trackers request (lifecycle_by_deployment lifecycle_records []) m d ≡ idle
      → (r : RouteDecision) × (route random trackers request models deployments lifecycle_records
          ≡ ok r)
        × IsServing deployments r
  route-ServedWarm m d law e c here own is_idle =
      let (r, answered, cold, fresh, evict) =
        route_serves_warm random trackers request models deployments lifecycle_records m d e c here
          own is_idle in
      (
        r,
        answered,
        serving r
            (route-IsSound random trackers request models deployments lifecycle_records r law
              answered)
            cold fresh evict,
      )
