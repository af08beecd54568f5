-- ===== src/Gateway.antt =====
-- llm_platform/gateway/routes.py: the translation of errors, the responses of the endpoints, and
-- the listing of capabilities. FastAPI's routing and serialization are left out.
pub mod Capabilities
pub mod Routes
pub mod Metrics
use foundation_ai_platform.Prelude.{ℕ, String, Option, none, some, List, [], ◌∷◌, ◌++◌}
use foundation_ai_platform.Prelude.Int.{ℤ}
use foundation_ai_platform.Prelude.Dict.{Dict, lookup, get_or, insert}
use foundation_ai_platform.Exec.{
  Error, not_found, conflict, validation, routing, platform, other, Exec, Result, ok, err,
}
use foundation_ai_platform.Schemas.Enums.{model_status_value}
use foundation_ai_platform.Schemas.Records.{Timestamp, ModelRecord, DeploymentRecord}
use foundation_ai_platform.Schemas.Gateway.{ChatCompletionRequest, ChatCompletionResponse}
use foundation_ai_platform.Gpu.{GpuTracker, allocated_vram_gb, available_vram_gb}

-- An HTTPException, or an exception that passes through.
pub data Failure : Type 0 where
  http : ℕ → String → Failure
  unhandled : String → Failure

unfoldable pub translate_error : Error → Failure
translate_error (not_found s) = http 404 s
translate_error (routing s) = http 400 s
translate_error (validation s) = http 400 s
translate_error (conflict s) = http 500 s
translate_error (platform s) = http 500 s
translate_error (other s) = unhandled s

pub data Response (A : Type 0) : Type 0 where
  success : A → Response A
  failure : Failure → Response A

-- `try: ...` / `except PlatformError as error: raise _translate_error(error)`
unfoldable pub respond : {A B : Type 0} → (A → B) → Result A → Response B
unfolding translate_error
respond f (ok a) = success (f a)
respond f (err e) = failure (translate_error e)

pub record OpenAiChatCompletionResponse : Type 0 where
  pub id : String
  pub created : Timestamp
  pub model : String
  -- the role and content of the only choice
  pub role : String
  pub content : String

unfoldable pub to_openai : Timestamp → ChatCompletionResponse → OpenAiChatCompletionResponse
to_openai now response = record {
  id = response.request_id;
  created = now;
  model = response.route.model_id;
  role = "assistant";
  content = response.message;
}

pub record CapabilityEntry : Type 0 where
  pub model_id : String
  pub model_name : String
  pub family : String
  pub memory_requirement_gb : ℤ
  pub vllm_eagle_head : Option String
  pub status : String

unfoldable pub entry_of : ModelRecord → CapabilityEntry
entry_of model = record {
  model_id = model.id;
  model_name = model.name;
  family = model.family;
  memory_requirement_gb = model.memory_requirement_gb;
  vllm_eagle_head = model.vllm_eagle_head;
  status = model_status_value model.status;
}

-- `if cap_str not in capability_map: capability_map[cap_str] = []`
unfoldable pub ensure : String → Dict (List CapabilityEntry) → Dict (List CapabilityEntry)
ensure cap map = elim (lookup cap map) [ none ↦ insert cap [] map | some entries ↦ map ]

unfoldable pub append_entry :
    String → CapabilityEntry → Dict (List CapabilityEntry) → Dict (List CapabilityEntry)
append_entry cap entry map = insert cap (get_or cap [] map ++ entry ∷ []) map

unfoldable pub add_capabilities :
    ModelRecord → List String → Dict (List CapabilityEntry) → Dict (List CapabilityEntry)
unfolding ensure append_entry entry_of
add_capabilities model [] map = map
add_capabilities model (cap ∷ caps) map =
    add_capabilities model caps (append_entry cap (entry_of model) (ensure cap map))

unfoldable pub capability_map :
    List ModelRecord → Dict (List CapabilityEntry) → Dict (List CapabilityEntry)
unfolding add_capabilities
capability_map [] map = map
capability_map (model ∷ models) map =
    capability_map models (add_capabilities model model.capabilities map)

pub record GpuStatus : Type 0 where
  pub total_vram_gb : ℤ
  pub allocated : ℤ
  pub available : ℤ
  pub allocations : Dict ℤ

unfoldable pub get_gpu_status : GpuTracker → GpuStatus
get_gpu_status t = record {
  total_vram_gb = t.total_vram_gb;
  allocated = allocated_vram_gb t;
  available = available_vram_gb t;
  allocations = t.allocated;
}
