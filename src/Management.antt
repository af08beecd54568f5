-- ===== src/Management.antt =====
-- llm_platform/services/model_management.py over any serving backend.
pub mod Laws
use foundation_ai_platform.Prelude.{String, ◌≡◌, List}
use foundation_ai_platform.Exec.{Exec, Result, ok, err, pure, lift, ◌>>=◌, ◌>>◌}
use foundation_ai_platform.Schemas.Enums.{DeploymentStatus, ModelStatus}
use foundation_ai_platform.Schemas.Records.{
  ModelRecord, DeploymentRecord, ModelRegistrationRequest, DeploymentCreateRequest,
}
use foundation_ai_platform.Lifecycle.{initialize}
use foundation_ai_platform.Registry.{
  Registry, model_of_request, register_model, get_model, get_deployment, update_model,
  update_deployment, upsert_lifecycle,
}
use foundation_ai_platform.Platform.{Host, Platform, outside, reads, writes}
use foundation_ai_platform.Serving.{ModelServer}
use foundation_ai_platform.Compatibility.{validate_model, validate_deployment}

module _ {World : Type 0} (host : Host World) (server : ModelServer World)
    (engines : List String) where
  -- `self._registry.register_model(request)`
  unfoldable pub store_model : ModelRegistrationRequest → Exec (Platform World) ModelRecord
  store_model request p =
      let (id, w) = host.uuid4 p.world in
      let (model, registry) = register_model id (host.now p.world) request p.registry in
      (ok model, record p { registry = registry; world = w })

  -- The record that is validated has an id and a time of its own, which nothing reads.
  unfoldable pub register : ModelRegistrationRequest → Exec (Platform World) ModelRecord
  unfolding store_model
  register request = do
    lift (validate_model engines (model_of_request "" 0 request))
    store_model request

  -- The three writes of a deployment that the backend has made.
  unfoldable pub record_deployment :
      ModelRecord → DeploymentRecord → Exec (Platform World) DeploymentRecord
  record_deployment model deployment p =
      let d : DeploymentRecord = record deployment { status = DeploymentStatus.ready } in
      (
        ok d,
        record p {
          registry =
              update_model (record model { status = ModelStatus.deployed })
                (upsert_lifecycle (initialize (host.now p.world) d)
                  (update_deployment d p.registry));
        },
      )

  unfoldable pub deploy_model : DeploymentCreateRequest → Exec (Platform World) DeploymentRecord
  unfolding record_deployment
  deploy_model request = do
    model ← reads (λ r. get_model r request.model_id)
    lift (validate_deployment engines model request)
    deployment ← outside (server.deploy model request)
    record_deployment model deployment

  unfoldable pub unload_model : String → Exec (Platform World) DeploymentRecord
  unload_model deployment_id = do
    deployment ← reads (λ r. get_deployment r deployment_id)
    outside (server.unload deployment_id)
    λ p.
        let d : DeploymentRecord = record deployment { status = DeploymentStatus.unloaded } in
        (ok d, record p { registry = update_deployment d p.registry })
