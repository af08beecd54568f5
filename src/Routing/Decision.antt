-- ===== src/Routing/Decision.antt =====
-- Phase 3 of `route` (llm_platform/routing/router.py), and the whole of it. What Python's `random`
-- draws is a parameter.
pub mod Starts
pub mod Sources
pub mod Preferences
pub mod Evictions
pub mod Availability
pub mod Serving
pub mod Soundness
use foundation_ai_platform.Prelude.{
  ℕ, String, Elem, Bool, true, false, not, ◌||◌, List, [], ◌∷◌, ◌++◌, map, Option, none, some, leb,
  ◌<>◌, ◌==◌, truthy, length, if◌then◌else◌,
}
use foundation_ai_platform.Prelude.Dict.{Dict}
use foundation_ai_platform.Prelude.Sorting.{sort}
use foundation_ai_platform.Exec.{Result, ok, err, routing}
use foundation_ai_platform.Schemas.Enums.{is_unloaded_or_pending}
use foundation_ai_platform.Schemas.Records.{
  ModelRecord, DeploymentRecord, LifecycleRecord, RouteDecision, Reason, matched_preferred,
  load_balanced, cold_start, power_of_two,
}
use foundation_ai_platform.Concurrency.{ConcurrencyTracker}
use foundation_ai_platform.Gpu.{GpuTracker, available_vram_gb, can_fit, find_evictable}
use foundation_ai_platform.Registry.{Registry}
use foundation_ai_platform.Routing.Groups.{
  RouteRequest, lifecycle_by_deployment, group_deployments, capable_models, by_breadth,
}
use foundation_ai_platform.Routing.Categories.{
  Candidate, OnDisk, Categories, Trackers, Scan, serve, lists, no_deployments, load, scan_models,
}

-- `random.choice` of a list that is not empty, and `random.sample(_, 2)` of a list of two or more.
pub record Random : Type 0 where
  pub choice : Candidate → List Candidate → Candidate
  pub sample : Candidate → Candidate → List Candidate → Candidate × Candidate

-- What is documented of `random`: both draw from the list that they are given.
pub record IsRandom (random : Random) : Type 0 where
  pub choice_elem : (c : Candidate) (cs : List Candidate) → Elem (random.choice c cs) (c ∷ cs)
  pub sample_elem :
      (c d : Candidate) (cs : List Candidate)
      → Elem (random.sample c d cs).0 (c ∷ d ∷ cs) × Elem (random.sample c d cs).1 (c ∷ d ∷ cs)

-- A model to start, and the deployment to evict before.
pub record ScaleOut : Type 0 where
  pub model : ModelRecord
  pub deployment : Option DeploymentRecord
  pub evict : Option String

pub scale_out : OnDisk → Option String → ScaleOut
scale_out d evict = record { model = d.model; deployment = d.deployment; evict = evict }

-- `if evict_id: scale_out_candidates.append(...)`
pub with_eviction : OnDisk → Option String → List ScaleOut → List ScaleOut
unfolding scale_out
with_eviction d none rest = rest
with_eviction d (some k) rest = if truthy k then scale_out d (some k) ∷ rest else rest

-- The loop over `sitting_on_disk`.
pub scale_out_candidates : Option GpuTracker → Option Registry → List OnDisk → List ScaleOut
unfolding with_eviction
scale_out_candidates gpu registry [] = []
scale_out_candidates none registry (d ∷ ds) =
    scale_out d none ∷ scale_out_candidates none registry ds
scale_out_candidates (some t) registry (d ∷ ds) =
    let rest = scale_out_candidates (some t) registry ds in
    if can_fit t d.model.memory_requirement_gb
    then scale_out d none ∷ rest
    else with_eviction d (find_evictable t registry d.model.memory_requirement_gb) rest

-- `if not scale_out_candidates: ...`
pub or_queue : List OnDisk → List ScaleOut → List ScaleOut
unfolding scale_out
or_queue ds [] = map (λ d. scale_out d none) ds
or_queue ds (c ∷ cs) = c ∷ cs

-- `sort(key=lambda c: c[0].id != request.preferred_model_id)`: False comes before True.
prefers : String → ScaleOut → ScaleOut → Bool
prefers id c d = (c.model.id == id) || not (d.model.id == id)

pub by_preference : Option String → List ScaleOut → List ScaleOut
unfolding prefers
by_preference none cs = cs
by_preference (some id) cs = if truthy id then sort (prefers id) cs else cs

deployment_id_of : Option DeploymentRecord → Option String
deployment_id_of none = none
deployment_id_of (some d) = some d.deployment_id

endpoint_of : Option DeploymentRecord → Option String
endpoint_of none = none
endpoint_of (some d) = some d.endpoint

cold_start_reason : Option GpuTracker → ℕ → Option String → Reason
cold_start_reason gpu busy (some k) = cold_start busy (some k) none
cold_start_reason none busy none = cold_start busy none none
cold_start_reason (some t) busy none = cold_start busy none (some (available_vram_gb t))

module _ (random : Random) (trackers : Trackers) (request : RouteRequest) where
  -- A decision to serve from a deployment that runs.
  serve_from : Candidate → Reason → Bool → RouteDecision
  serve_from c reason cold = record {
    model_id = c.model.id;
    deployment_id = some c.deployment.deployment_id;
    endpoint = some c.deployment.endpoint;
    capability = request.capability;
    reason = reason;
    requires_cold_start = cold;
    requires_new_instance = false;
    evict_deployment_id = none;
  }

  start : ℕ → ScaleOut → RouteDecision
  unfolding deployment_id_of endpoint_of cold_start_reason
  start busy c = record {
    model_id = c.model.id;
    deployment_id = deployment_id_of c.deployment;
    endpoint = endpoint_of c.deployment;
    capability = request.capability;
    reason = cold_start_reason trackers.gpu busy c.evict;
    requires_cold_start = true;
    requires_new_instance = false;
    evict_deployment_id = c.evict;
  }

  -- 3c.
  pub power_of_two_choices : Candidate × Candidate → Candidate
  power_of_two_choices (c, d) =
      if leb (load trackers.concurrency c.deployment.deployment_id)
        (load trackers.concurrency d.deployment.deployment_id)
      then c
      else d

  pub queue_on : Candidate → RouteDecision
  unfolding serve_from
  queue_on c =
      let booting = is_unloaded_or_pending c.deployment.status in
      serve_from c (power_of_two booting) booting

  pub queue : List Candidate → Result RouteDecision
  unfolding power_of_two_choices queue_on
  queue [] = err (routing ("No eligible deployment found for capability: " <> request.capability))
  queue (c ∷ []) = ok (queue_on c)
  queue (c ∷ d ∷ cs) = ok (queue_on (power_of_two_choices (random.sample c d cs)))

  -- 3b. Without a candidate, which `or_queue` rules out, the code goes on to 3c.
  scale_or_queue : Categories → List ScaleOut → Result RouteDecision
  unfolding start queue
  scale_or_queue s [] = queue (s.ready_busy ++ s.booting)
  scale_or_queue s (c ∷ cs) = ok (start (length s.ready_busy) c)

  pub scale_out_list : List OnDisk → List ScaleOut
  unfolding scale_out_candidates or_queue by_preference
  scale_out_list ds =
      by_preference request.preferred_model_id
        (or_queue ds (scale_out_candidates trackers.gpu request.registry ds))

  -- 3a.
  decide_idle : Categories → List Candidate → Result RouteDecision
  unfolding scale_or_queue scale_out_list
  decide_idle s [] = scale_or_queue s (scale_out_list s.sitting_on_disk)
  decide_idle s (c ∷ cs) =
      let selected = random.choice c cs in
      ok (
        serve_from selected (load_balanced (length (c ∷ cs)) (length selected.model.capabilities))
          false)

  pub decide : Scan → Result RouteDecision
  unfolding decide_idle
  decide (serve c) = ok (serve_from c matched_preferred false)
  decide (lists s) = decide_idle s s.ready_idle

  scan_all : List ModelRecord → List DeploymentRecord → List LifecycleRecord → Scan
  unfolding lifecycle_by_deployment group_deployments scan_models by_breadth
  scan_all capable deployments lifecycles =
      scan_models trackers request (lifecycle_by_deployment lifecycles [])
        (group_deployments deployments []) (by_breadth capable) no_deployments

  pub route_capable :
      List ModelRecord → List DeploymentRecord → List LifecycleRecord → Result RouteDecision
  unfolding decide scan_all
  route_capable [] deployments lifecycles =
      err (routing ("No model registered with capability: " <> request.capability))
  route_capable (m ∷ ms) deployments lifecycles = decide (scan_all (m ∷ ms) deployments lifecycles)

  unfoldable pub route :
      List ModelRecord → List DeploymentRecord → List LifecycleRecord → Result RouteDecision
  unfolding route_capable
  route models deployments lifecycles =
      route_capable (capable_models request.capability models) deployments lifecycles
