-- ===== src/Registry/Rows.antt =====
-- The SQLAlchemy repositories of llm_platform/database/repositories.py. A row holds the texts of
-- enumeration members. The session's table is a parameter: `session.get` with `session.add` and
-- `session.commit`, of which the repositories need only that a committed row is read back.
use foundation_ai_platform.Prelude.{ℕ, String, ◌≡◌, refl, List, Option, none, some}
use foundation_ai_platform.Prelude.Int.{ℤ}
use foundation_ai_platform.Exec.{Result, ok, err, other}
use foundation_ai_platform.Value.{Metadata}
use foundation_ai_platform.Schemas.Enums.{
  ModelStatus, DeploymentStatus, LifecycleState, model_status_value, deployment_status_value,
  lifecycle_state_value, model_status_of, deployment_status_of, lifecycle_state_of,
}
use foundation_ai_platform.Schemas.Records.{
  Timestamp, ModelRecord, DeploymentRecord, LifecycleRecord,
}

pub record ModelRow : Type 0 where
  pub id : String
  pub name : String
  pub version : String
  pub family : String
  pub engine : String
  pub capabilities : List String
  pub vllm_eagle_head : Option String
  pub memory_requirement_gb : ℤ
  pub ownership : String
  pub status : String
  pub created_at : Timestamp
  pub metadata_json : Metadata

pub record DeploymentRow : Type 0 where
  pub deployment_id : String
  pub model_id : String
  pub endpoint : String
  pub engine : String
  pub status : String
  pub last_used : Option Timestamp
  pub created_at : Timestamp
  pub metadata_json : Metadata

pub record LifecycleRow : Type 0 where
  pub deployment_id : String
  pub state : String
  pub last_transition : Timestamp
  pub idle_duration_seconds : ℕ

-- What the body of `save` assigns to the row's columns.
unfoldable pub row_of_model : ModelRecord → ModelRow
row_of_model m = record {
  id = m.id;
  name = m.name;
  version = m.version;
  family = m.family;
  engine = m.engine;
  capabilities = m.capabilities;
  vllm_eagle_head = m.vllm_eagle_head;
  memory_requirement_gb = m.memory_requirement_gb;
  ownership = m.ownership;
  status = model_status_value m.status;
  created_at = m.created_at;
  metadata_json = m.metadata;
}

unfoldable pub row_of_deployment : DeploymentRecord → DeploymentRow
row_of_deployment d = record {
  deployment_id = d.deployment_id;
  model_id = d.model_id;
  endpoint = d.endpoint;
  engine = d.engine;
  status = deployment_status_value d.status;
  last_used = d.last_used;
  created_at = d.created_at;
  metadata_json = d.metadata;
}

unfoldable pub row_of_lifecycle : LifecycleRecord → LifecycleRow
row_of_lifecycle l = record {
  deployment_id = l.deployment_id;
  state = lifecycle_state_value l.state;
  last_transition = l.last_transition;
  idle_duration_seconds = l.idle_duration_seconds;
}

-- The record's validation refuses a text that is no member.
abbrev validated : {A B : Type 0} → Option A → (A → B) → Result B
validated none build = err (other "validation error")
validated (some a) build = ok (build a)

unfoldable pub model_from_row : ModelRow → Result ModelRecord
model_from_row row = validated (model_status_of row.status) λ status. record {
  id = row.id;
  name = row.name;
  version = row.version;
  family = row.family;
  engine = row.engine;
  capabilities = row.capabilities;
  vllm_eagle_head = row.vllm_eagle_head;
  memory_requirement_gb = row.memory_requirement_gb;
  ownership = row.ownership;
  status = status;
  created_at = row.created_at;
  metadata = row.metadata_json;
}

unfoldable pub deployment_from_row : DeploymentRow → Result DeploymentRecord
deployment_from_row row = validated (deployment_status_of row.status) λ status. record {
  deployment_id = row.deployment_id;
  model_id = row.model_id;
  endpoint = row.endpoint;
  engine = row.engine;
  status = status;
  last_used = row.last_used;
  created_at = row.created_at;
  metadata = row.metadata_json;
}

unfoldable pub lifecycle_from_row : LifecycleRow → Result LifecycleRecord
lifecycle_from_row row = validated (lifecycle_state_of row.state) λ state. record {
  deployment_id = row.deployment_id;
  state = state;
  last_transition = row.last_transition;
  idle_duration_seconds = row.idle_duration_seconds;
}

model_status_of-value : (s : ModelStatus) → model_status_of (model_status_value s) ≡ some s
model_status_of-value ModelStatus.registered = refl
model_status_of-value ModelStatus.deployed = refl
model_status_of-value ModelStatus.disabled = refl
model_status_of-value ModelStatus.failed = refl

deployment_status_of-value :
    (s : DeploymentStatus) → deployment_status_of (deployment_status_value s) ≡ some s
deployment_status_of-value DeploymentStatus.pending = refl
deployment_status_of-value DeploymentStatus.ready = refl
deployment_status_of-value DeploymentStatus.unloaded = refl
deployment_status_of-value DeploymentStatus.failed = refl

lifecycle_state_of-value :
    (s : LifecycleState) → lifecycle_state_of (lifecycle_state_value s) ≡ some s
lifecycle_state_of-value LifecycleState.hot = refl
lifecycle_state_of-value LifecycleState.warm = refl
lifecycle_state_of-value LifecycleState.cold = refl
lifecycle_state_of-value LifecycleState.failed = refl

pub model_round_trip : (m : ModelRecord) → model_from_row (row_of_model m) ≡ ok m
unfolding model_from_row row_of_model
model_round_trip m = rw (model_status_of-value m.status)

pub deployment_round_trip :
    (d : DeploymentRecord) → deployment_from_row (row_of_deployment d) ≡ ok d
unfolding deployment_from_row row_of_deployment
deployment_round_trip d = rw (deployment_status_of-value d.status)

pub lifecycle_round_trip : (l : LifecycleRecord) → lifecycle_from_row (row_of_lifecycle l) ≡ ok l
unfolding lifecycle_from_row row_of_lifecycle
lifecycle_round_trip l = rw (lifecycle_state_of-value l.state)

-- A record that is saved as a row is read back whole, whatever its status.
pub rows_round_trip :
    (m : ModelRecord) (d : DeploymentRecord) (l : LifecycleRecord)
    → (model_from_row (row_of_model m) ≡ ok m)
      × (deployment_from_row (row_of_deployment d) ≡ ok d)
      × (lifecycle_from_row (row_of_lifecycle l) ≡ ok l)
rows_round_trip m d l = (model_round_trip m, deployment_round_trip d, lifecycle_round_trip l)
