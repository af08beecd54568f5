-- ===== src/Routing/Categories.antt =====
-- Phase 2 of `route` (llm_platform/routing/router.py): the deployments of the capable models,
-- sorted into those that are idle, busy, booting and on disk.
pub mod Laws
pub mod Kinds
pub mod Coverage
use foundation_ai_platform.Prelude.{
  ℕ, String, Bool, true, false, not, ◌&&◌, ◌||◌, List, [], ◌∷◌, ◌++◌, Option, none, some, ltb, ◌==◌,
  truthy?, if◌then◌else◌,
}
use foundation_ai_platform.Prelude.Dict.{Dict, lookup, get_or}
use foundation_ai_platform.Schemas.Enums.{
  is_ready, is_broken, is_dead, is_hot_or_warm, is_unloaded_or_pending,
}
use foundation_ai_platform.Schemas.Records.{ModelRecord, DeploymentRecord, LifecycleRecord}
use foundation_ai_platform.Concurrency.{ConcurrencyTracker, get_active_requests}
use foundation_ai_platform.Gpu.{GpuTracker, is_allocated}
use foundation_ai_platform.Routing.Groups.{RouteRequest}

-- A model with one of its deployments.
pub record Candidate : Type 0 where
  pub model : ModelRecord
  pub deployment : DeploymentRecord

-- A model with the deployment to start, or with none where it has no deployment yet.
pub record OnDisk : Type 0 where
  pub model : ModelRecord
  pub deployment : Option DeploymentRecord

pub record Categories : Type 0 where
  pub ready_idle : List Candidate
  pub ready_busy : List Candidate
  pub booting : List Candidate
  pub sitting_on_disk : List OnDisk

abbrev pub no_deployments : Categories
no_deployments = record { ready_idle = []; ready_busy = []; booting = []; sitting_on_disk = [] }

-- The trackers that the router was built with.
pub record Trackers : Type 0 where
  pub gpu : Option GpuTracker
  pub concurrency : Option ConcurrencyTracker

-- `get_active_requests(...)`, or 0 without a tracker.
abbrev pub load : Option ConcurrencyTracker → String → ℕ
load none k = 0
load (some t) k = get_active_requests t k

abbrev pub holds_memory : Option GpuTracker → String → Bool
holds_memory none k = false
holds_memory (some t) k = is_allocated t k

-- `request.preferred_model_id and model.id == request.preferred_model_id`
abbrev pub names_model : Option String → String → Bool
names_model none model_id = false
names_model (some id) model_id = not (id == "") && (model_id == id)

abbrev pub is_preferred : RouteRequest → ModelRecord → Bool
is_preferred request model = names_model request.preferred_model_id model.id

-- The kinds of deployment that the body of the inner loop tells apart.
pub data Kind : Type 0 where
  skipped preferred idle busy boot disk : Kind

abbrev pub is_failed_record : Option LifecycleRecord → Bool
is_failed_record none = false
is_failed_record (some l) = is_dead l.state

abbrev pub is_in_use_record : Option LifecycleRecord → Bool
is_in_use_record none = false
is_in_use_record (some l) = is_hot_or_warm l.state

-- What a loop ends with: the early return of a preferred deployment, or the lists.
pub data Scan : Type 0 where
  serve : Candidate → Scan
  lists : Categories → Scan

-- A loop goes on unless its body has returned.
abbrev pub unless_served : Scan → (Categories → Scan) → Scan
unless_served (serve c) rest = serve c
unless_served (lists s) rest = rest s

-- Adds a deployment at the end of its list.
unfoldable pub put : Kind → Candidate → Categories → Categories
put idle c s = record s { ready_idle = s.ready_idle ++ c ∷ [] }
put busy c s = record s { ready_busy = s.ready_busy ++ c ∷ [] }
put boot c s = record s { booting = s.booting ++ c ∷ [] }
put disk c s = record s {
  sitting_on_disk =
      s.sitting_on_disk ++ record { model = c.model; deployment = some c.deployment } ∷ [];
}
put _ c s = s

-- The body of the inner loop, its kind given.
unfoldable pub visit : Kind → Candidate → Categories → Scan
unfolding put
visit preferred c s = serve c
visit kind c s = lists (put kind c s)

module _ (trackers : Trackers) (request : RouteRequest) where
  unfoldable pub kind_of : Option LifecycleRecord → ModelRecord → DeploymentRecord → Kind
  kind_of lifecycle model dep =
      if is_failed_record lifecycle
      then skipped
      else if is_broken dep.status
      then skipped
      else if is_ready dep.status
      then (if is_preferred request model
          then preferred
          else if is_in_use_record lifecycle
          then (if ltb 0 (load trackers.concurrency dep.deployment_id) then busy else idle)
          else idle)
      else if is_unloaded_or_pending dep.status
      then (if holds_memory trackers.gpu dep.deployment_id then boot else disk)
      else skipped

  unfoldable pub scan_deployments :
      Dict LifecycleRecord → ModelRecord → List DeploymentRecord → Categories → Scan
  unfolding kind_of visit
  scan_deployments lifecycles model [] s = lists s
  scan_deployments lifecycles model (dep ∷ deps) s =
      unless_served
        (visit (kind_of (lookup dep.deployment_id lifecycles) model dep)
          (record { model = model; deployment = dep }) s)
        (scan_deployments lifecycles model deps)

  -- The body of the outer loop: a model without deployments can be started from disk.
  unfoldable pub scan_model :
      Dict LifecycleRecord → ModelRecord → List DeploymentRecord → Categories → Scan
  unfolding scan_deployments
  scan_model lifecycles model [] s = lists (record s {
    sitting_on_disk = s.sitting_on_disk ++ record { model = model; deployment = none } ∷ [];
  })
  scan_model lifecycles model (dep ∷ deps) s = scan_deployments lifecycles model (dep ∷ deps) s

  unfoldable pub scan_models :
      Dict LifecycleRecord → Dict (List DeploymentRecord) → List ModelRecord → Categories → Scan
  unfolding scan_model
  scan_models lifecycles groups [] s = lists s
  scan_models lifecycles groups (model ∷ models) s =
      unless_served (scan_model lifecycles model (get_or model.id [] groups) s)
        (scan_models lifecycles groups models)
