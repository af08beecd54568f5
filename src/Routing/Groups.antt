-- ===== src/Routing/Groups.antt =====
-- The maps and the capable models that `route` (llm_platform/routing/router.py) starts from.
pub mod Laws
use foundation_ai_platform.Prelude.{
  String, Bool, true, false, not, ◌&&◌, List, [], ◌∷◌, ◌++◌, Option, leb, select, contains, length,
}
use foundation_ai_platform.Prelude.Dict.{Dict, get_or, insert}
use foundation_ai_platform.Prelude.Sorting.{sort}
use foundation_ai_platform.Schemas.Enums.{is_routable}
use foundation_ai_platform.Schemas.Records.{ModelRecord, DeploymentRecord, LifecycleRecord}
use foundation_ai_platform.Registry.{Registry}

-- llm_platform/schemas/routing.py, with the one entry of `metadata` that routing reads.
pub record RouteRequest : Type 0 where
  pub capability : String
  pub preferred_model_id : Option String
  -- `metadata.get("_registry")`
  pub registry : Option Registry

-- `{r.deployment_id: r for r in lifecycle_records}`
unfoldable pub lifecycle_by_deployment :
    List LifecycleRecord → Dict LifecycleRecord → Dict LifecycleRecord
lifecycle_by_deployment [] d = d
lifecycle_by_deployment (l ∷ ls) d = lifecycle_by_deployment ls (insert l.deployment_id l d)

-- `deployments_by_model.setdefault(dep.model_id, []).append(dep)` for each deployment.
unfoldable pub group_deployments :
    List DeploymentRecord → Dict (List DeploymentRecord) → Dict (List DeploymentRecord)
group_deployments [] groups = groups
group_deployments (dep ∷ deps) groups =
    group_deployments deps (insert dep.model_id (get_or dep.model_id [] groups ++ dep ∷ []) groups)

-- Phase 1.
abbrev pub is_capable : String → ModelRecord → Bool
is_capable capability model = is_routable model.status && contains capability model.capabilities

unfoldable pub capable_models : String → List ModelRecord → List ModelRecord
capable_models capability = select (is_capable capability)

-- `sort(key=lambda m: len(m.capabilities), reverse=True)`
abbrev pub is_broader : ModelRecord → ModelRecord → Bool
is_broader m n = leb (length n.capabilities) (length m.capabilities)

unfoldable pub by_breadth : List ModelRecord → List ModelRecord
by_breadth = sort is_broader
