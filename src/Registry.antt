-- ===== src/Registry.antt =====
-- llm_platform/registry/service.py over the in-memory repositories of
-- llm_platform/database/repositories.py. A repository is a dict from ids to records.
pub mod Laws
pub mod Rows
pub mod Tables
pub mod Listing
use foundation_ai_platform.Prelude.{String, Option, none, some, List, [], ◌<>◌, or_else}
use foundation_ai_platform.Prelude.Dict.{Dict, lookup, insert, values}
use foundation_ai_platform.Exec.{Result, ok, err, not_found}
use foundation_ai_platform.Schemas.Enums.{DeploymentStatus, ModelStatus}
use foundation_ai_platform.Schemas.Records.{
  Timestamp, ModelRecord, DeploymentRecord, LifecycleRecord, ModelRegistrationRequest,
  DeploymentCreateRequest,
}

pub record Registry : Type 0 where
  pub models : Dict ModelRecord
  pub deployments : Dict DeploymentRecord
  pub lifecycles : Dict LifecycleRecord

abbrev pub empty : Registry
empty = record { models = []; deployments = []; lifecycles = [] }

-- `self._models[model_id]`, where a KeyError becomes a NotFoundError.
abbrev pub found : {A : Type 0} → String → Option A → Result A
found message none = err (not_found message)
found message (some a) = ok a

unfoldable pub get_model : Registry → String → Result ModelRecord
get_model r model_id = found ("Model not found: " <> model_id) (lookup model_id r.models)

unfoldable pub list_models : Registry → List ModelRecord
list_models r = values r.models

unfoldable pub update_model : ModelRecord → Registry → Registry
update_model model r = record r { models = insert model.id model r.models }

-- `ModelRecord(**request.model_dump())`: the id and the time are drawn by the record's defaults.
unfoldable pub model_of_request : String → Timestamp → ModelRegistrationRequest → ModelRecord
model_of_request id now request = record {
  id = id;
  name = request.name;
  version = request.version;
  family = request.family;
  engine = request.engine;
  capabilities = request.capabilities;
  vllm_eagle_head = request.vllm_eagle_head;
  memory_requirement_gb = request.memory_requirement_gb;
  ownership = request.ownership;
  status = ModelStatus.registered;
  created_at = now;
  metadata = request.metadata;
}

unfoldable pub register_model :
    String → Timestamp → ModelRegistrationRequest → Registry → ModelRecord × Registry
unfolding model_of_request update_model
register_model id now request r =
    let model = model_of_request id now request in (model, update_model model r)

unfoldable pub get_deployment : Registry → String → Result DeploymentRecord
get_deployment r deployment_id =
    found ("Deployment not found: " <> deployment_id) (lookup deployment_id r.deployments)

unfoldable pub list_deployments : Registry → List DeploymentRecord
list_deployments r = values r.deployments

unfoldable pub update_deployment : DeploymentRecord → Registry → Registry
update_deployment d r = record r { deployments = insert d.deployment_id d r.deployments }

unfoldable pub create_deployment :
    String → Timestamp → DeploymentCreateRequest → Registry → DeploymentRecord × Registry
unfolding update_deployment
create_deployment id now request r =
    let deployment : DeploymentRecord = record {
      deployment_id = id;
      model_id = request.model_id;
      endpoint = request.endpoint;
      engine = or_else request.engine "";
      status = DeploymentStatus.pending;
      last_used = none;
      created_at = now;
      metadata = request.metadata;
    } in
    (deployment, update_deployment deployment r)

unfoldable pub get_lifecycle : Registry → String → Option LifecycleRecord
get_lifecycle r deployment_id = lookup deployment_id r.lifecycles

unfoldable pub upsert_lifecycle : LifecycleRecord → Registry → Registry
upsert_lifecycle l r = record r { lifecycles = insert l.deployment_id l r.lifecycles }
