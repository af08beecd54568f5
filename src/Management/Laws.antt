-- ===== src/Management/Laws.antt =====
-- What ModelManagementService (llm_platform/services/model_management.py) does to the registry.
mod Tests
use foundation_ai_platform.Prelude.{String, ◌≡◌, ◌⊎◌, inl, inr, refl, eq_refl, List, some, true}
use foundation_ai_platform.Exec.{Error, Result, ok, err, continue}
use foundation_ai_platform.Schemas.Enums.{DeploymentStatus, ModelStatus, hot, is_ready}
use foundation_ai_platform.Schemas.Records.{
  ModelRecord, DeploymentRecord, LifecycleRecord, DeploymentCreateRequest,
}
use foundation_ai_platform.Lifecycle.{initialize}
use foundation_ai_platform.Registry.{Registry, get_model, get_deployment, get_lifecycle}
use foundation_ai_platform.Registry.Laws.{registry_laws}
use foundation_ai_platform.Platform.{Host, Platform}
use foundation_ai_platform.Serving.{ModelServer}
use foundation_ai_platform.Compatibility.{validate_deployment}
use foundation_ai_platform.Management.{record_deployment, deploy_model}

-- The registry after a deployment of a model.
pub record IsDeployed (model : ModelRecord) (d : DeploymentRecord) (r : Registry) : Type 0 where
  pub is_up : is_ready d.status ≡ true
  pub stored : get_deployment r d.deployment_id ≡ ok d
  pub tracked : (l : LifecycleRecord) × (get_lifecycle r d.deployment_id ≡ some l) × (l.state ≡ hot)
  pub noted : get_model r model.id ≡ ok (record model { status = ModelStatus.deployed })

module _ {World : Type 0} (host : Host World) (server : ModelServer World)
    (engines : List String) where
  -- Either nothing was written, or a model was deployed.
  pub record IsRefused (p : Platform World) (r : Result DeploymentRecord × Platform World)
      : Type 0 where
    pub error : Error
    pub raised : r.0 ≡ err error
    pub untouched : r.1.registry ≡ p.registry

  pub record IsDone (request : DeploymentCreateRequest) (p : Platform World)
      (r : Result DeploymentRecord × Platform World) : Type 0 where
    pub model : ModelRecord
    pub deployment : DeploymentRecord
    pub known : get_model p.registry request.model_id ≡ ok model
    pub fits : validate_deployment engines model request ≡ ok tt
    pub returned : r.0 ≡ ok deployment
    pub deployed : IsDeployed model deployment r.1.registry

  abbrev Ended :
      DeploymentCreateRequest → Platform World → Result DeploymentRecord × Platform World → Type 0
  Ended request p r = IsRefused p r ⊎ IsDone request p r

  recorded :
      (request : DeploymentCreateRequest) (p : Platform World) (model : ModelRecord)
      (r : Result DeploymentRecord × World)
      → get_model p.registry request.model_id ≡ ok model
      → validate_deployment engines model request ≡ ok tt
      → Ended request p
          (continue r.0 (record_deployment host server engines model) (record p { world = r.1 }))
  unfolding record_deployment initialize
  recorded request p model (err e, w) k v =
      inl (record { error = e; raised = refl; untouched = refl })
  recorded request p model (ok d, w) k v = inr (record {
    model = model;
    deployment = _;
    known = k;
    fits = v;
    returned = refl;
    deployed = record {
      is_up = refl;
      stored = simp registry_laws;
      tracked = (
        initialize (host.now w) (record d { status = DeploymentStatus.ready }),
        simp registry_laws,
        refl,
      );
      noted = simp registry_laws;
    };
  })

  validated :
      (request : DeploymentCreateRequest) (p : Platform World) (model : ModelRecord)
      (v : Result (Unit {0}))
      → get_model p.registry request.model_id ≡ ok model
      → validate_deployment engines model request ≡ v
      → Ended request p (
          continue v
            (λ _ s.
              continue
                (server.deploy model request s.world).0
                (record_deployment host server engines model)
                (record s { world = (server.deploy model request s.world).1 }))
            p)
  validated request p model (err e) k v =
      inl (record { error = e; raised = refl; untouched = refl })
  validated request p model (ok u) k v =
      recorded request p model (server.deploy model request p.world) k v

  fetched :
      (request : DeploymentCreateRequest) (p : Platform World) (m : Result ModelRecord)
      → get_model p.registry request.model_id ≡ m
      → Ended request p (
          continue m
            (λ model s.
              continue
                (validate_deployment engines model request)
                (λ _ t.
                  continue
                    (server.deploy model request t.world).0
                    (record_deployment host server engines model)
                    (record t { world = (server.deploy model request t.world).1 }))
                s)
            p)
  fetched request p (err e) k = inl (record { error = e; raised = refl; untouched = refl })
  fetched request p (ok model) k = validated request p model _ k refl

  -- A deployment either raises and leaves the registry as it was, or it was asked of a known model
  -- with its own, supported engine, and ends with a ready deployment in the registry, a HOT
  -- lifecycle record and a model that is marked as deployed.
  pub deploy_model_atomic :
      (request : DeploymentCreateRequest) (p : Platform World)
      → IsRefused p (deploy_model host server engines request p)
        ⊎ IsDone request p (deploy_model host server engines request p)
  unfolding deploy_model
  deploy_model_atomic request p = fetched request p _ refl
