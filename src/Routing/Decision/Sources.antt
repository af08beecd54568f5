-- ===== src/Routing/Decision/Sources.antt =====
-- What a sound decision of `route` (llm_platform/routing/router.py) is, and that a decision built
-- from a deployment that was visited is one.
use foundation_ai_platform.Prelude.{
  String, ◌≡◌, ◌⊎◌, inl, Bool, true, false, List, [], Option, none, some, eq_iff, Elem, select,
  Elem-select,
}
use foundation_ai_platform.Prelude.Dict.{Dict, lookup, get_or}
use foundation_ai_platform.Prelude.Sorting.{sort-Elem}
use foundation_ai_platform.Schemas.Enums.{DeploymentStatus, is_unloaded_or_pending}
use foundation_ai_platform.Schemas.Records.{
  ModelRecord, DeploymentRecord, LifecycleRecord, RouteDecision,
}
use foundation_ai_platform.Routing.Groups.{
  RouteRequest, lifecycle_by_deployment, group_deployments, is_capable, capable_models, is_broader,
  by_breadth,
}
use foundation_ai_platform.Routing.Groups.Laws.{belongs, group_deployments-select}
use foundation_ai_platform.Routing.Categories.{Candidate, OnDisk, Trackers, Kind, is_failed_record}
use foundation_ai_platform.Routing.Categories.Laws.{Stems, StemsOnDisk}

-- The deployment that a decision names: one that runs, which is then served with no cold start, or
-- one that is unloaded or pending, which is started.
abbrev pub RunsOrStarts : DeploymentRecord → Bool → Type 0
RunsOrStarts dep cold =
    ((dep.status ≡ DeploymentStatus.ready) × (cold ≡ false))
    ⊎ ((is_unloaded_or_pending dep.status ≡ true) × (cold ≡ true))

pub record NamesDeployment (lifecycles : Dict LifecycleRecord) (deployments : List DeploymentRecord)
    (model : ModelRecord) (d : RouteDecision) : Type 0 where
  pub deployment : DeploymentRecord
  pub listed : Elem deployment deployments
  pub of_model : deployment.model_id ≡ model.id
  pub named : d.deployment_id ≡ some deployment.deployment_id
  pub reached : d.endpoint ≡ some deployment.endpoint
  pub not_failed : is_failed_record (lookup deployment.deployment_id lifecycles) ≡ false
  pub status_fits : RunsOrStarts deployment d.requires_cold_start

-- A model that has no deployment at all is started without one.
abbrev pub NamesNone : List DeploymentRecord → ModelRecord → RouteDecision → Type 0
NamesNone deployments model d =
    (select (belongs model.id) deployments ≡ [])
    × (d.deployment_id ≡ none)
    × (d.requires_cold_start ≡ true)

pub record IsSound (capability : String) (models : List ModelRecord)
    (deployments : List DeploymentRecord) (lifecycles : Dict LifecycleRecord) (d : RouteDecision)
    : Type 0 where
  pub model : ModelRecord
  pub listed : Elem model models
  pub capable : is_capable capability model ≡ true
  pub named : d.model_id ≡ model.id
  pub target : NamesDeployment lifecycles deployments model d ⊎ NamesNone deployments model d

module _ (trackers : Trackers) (request : RouteRequest) (models : List ModelRecord)
    (deployments : List DeploymentRecord) (lifecycle_records : List LifecycleRecord) where
  abbrev pub lifecycles : Dict LifecycleRecord
  lifecycles = lifecycle_by_deployment lifecycle_records []

  abbrev pub groups : Dict (List DeploymentRecord)
  groups = group_deployments deployments []

  abbrev pub ranked : List ModelRecord
  ranked = by_breadth (capable_models request.capability models)

  abbrev pub From : Kind → Candidate → Type 0
  From = Stems trackers request lifecycles groups ranked

  abbrev pub FromDisk : OnDisk → Option DeploymentRecord → Type 0
  FromDisk = StemsOnDisk trackers request lifecycles groups ranked

  abbrev pub Sound : RouteDecision → Type 0
  Sound = IsSound request.capability models deployments lifecycles

  pub ranked_capable :
      (m : ModelRecord) → Elem m ranked → Elem m models × (is_capable request.capability m ≡ true)
  unfolding by_breadth capable_models
  ranked_capable m e =
      Elem-select (is_capable request.capability) m models (sort-Elem is_broader m _ e)

  group_listed :
      (m : ModelRecord) (dep : DeploymentRecord)
      → Elem dep (get_or m.id [] groups)
      → Elem dep deployments × (dep.model_id ≡ m.id)
  group_listed m dep e =
      let (listed, own) =
        Elem-select (belongs m.id) dep deployments
          (rw (group_deployments-select m.id deployments) at e) in
      (listed, (eq_iff _ _).0 own)

  -- A decision built from a visited pair is sound if the pair's status fits.
  pub Sound-of :
      (k : Kind) (c : Candidate) (d : RouteDecision)
      → From k c
      → d.model_id ≡ c.model.id
      → d.deployment_id ≡ some c.deployment.deployment_id
      → d.endpoint ≡ some c.deployment.endpoint
      → is_failed_record (lookup c.deployment.deployment_id lifecycles) ≡ false
      → RunsOrStarts c.deployment d.requires_cold_start
      → Sound d
  Sound-of k c d s p q e f t =
      let (listed, capable) = ranked_capable c.model s.from_models in
      let (there, own) = group_listed c.model c.deployment s.from_group in
      record {
        model = c.model;
        listed = listed;
        capable = capable;
        named = p;
        target = inl (record {
          deployment = c.deployment;
          listed = there;
          of_model = own;
          named = q;
          reached = e;
          not_failed = f;
          status_fits = t;
        });
      }
