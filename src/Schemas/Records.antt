-- ===== src/Schemas/Records.antt =====
-- llm_platform/schemas/registry.py, routing.py and validation.py. A time is a number of seconds; a
-- capability is a text, since the enumeration's members equal their texts.
use foundation_ai_platform.Prelude.{ℕ, String, Bool, List, Option}
use foundation_ai_platform.Prelude.Int.{ℤ}
use foundation_ai_platform.Value.{Metadata}
use foundation_ai_platform.Schemas.Enums.{ModelStatus, DeploymentStatus, LifecycleState}

abbrev pub Timestamp : Type 0
Timestamp = ℕ

pub record ModelRecord : Type 0 where
  pub id : String
  pub name : String
  pub version : String
  pub family : String
  pub engine : String
  pub capabilities : List String
  pub vllm_eagle_head : Option String
  pub memory_requirement_gb : ℤ
  pub ownership : String
  pub status : ModelStatus
  pub created_at : Timestamp
  pub metadata : Metadata

pub record DeploymentRecord : Type 0 where
  pub deployment_id : String
  pub model_id : String
  pub endpoint : String
  pub engine : String
  pub status : DeploymentStatus
  pub last_used : Option Timestamp
  pub created_at : Timestamp
  pub metadata : Metadata

pub record LifecycleRecord : Type 0 where
  pub deployment_id : String
  pub state : LifecycleState
  pub last_transition : Timestamp
  pub idle_duration_seconds : ℕ

pub record ModelRegistrationRequest : Type 0 where
  pub name : String
  pub version : String
  pub family : String
  pub engine : String
  pub capabilities : List String
  pub vllm_eagle_head : Option String
  pub memory_requirement_gb : ℤ
  pub ownership : String
  pub metadata : Metadata

pub record DeploymentCreateRequest : Type 0 where
  pub model_id : String
  pub endpoint : String
  pub engine : Option String
  pub placement : Option String
  pub fallback_placements : List String
  pub metadata : Metadata

-- What the f-strings of `RouteDecision.reason` are made from. The text itself is not modelled.
pub data Reason : Type 0 where
  matched_preferred : Reason
  load_balanced : (idle capabilities : ℕ) → Reason
  -- the number of busy deployments, the evicted deployment, the free memory
  cold_start : (busy : ℕ) → (evicting : Option String) → (free : Option ℤ) → Reason
  power_of_two : (booting : Bool) → Reason

pub record RouteDecision : Type 0 where
  pub model_id : String
  pub deployment_id : Option String
  pub endpoint : Option String
  pub capability : String
  pub reason : Reason
  pub requires_cold_start : Bool
  pub requires_new_instance : Bool
  pub evict_deployment_id : Option String

pub record ValidationReport : Type 0 where
  pub hf_repo : String
  pub revision : Option String
  pub architecture : Option String
  pub tokenizer_status : String
  pub chat_template_status : String
  pub config_status : String
  pub compatibility : String
  pub recommended_backend : String
  -- in hundredths of a gigabyte
  pub estimated_gpu_memory_gb : Option ℕ
  pub max_context_length : Option ℕ
  pub smoke_test_status : String
  pub json_validity_status : String
  pub notes : List String
  pub metadata : Metadata
