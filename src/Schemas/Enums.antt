-- ===== src/Schemas/Enums.antt =====
-- llm_platform/schemas/enums.py: the enumerations with the texts that their members equal.
use foundation_ai_platform.Prelude.{
  String, Bool, true, false, Option, none, some, ◌==◌, if◌then◌else◌,
}

pub data Capability : Type 0 where
  chat reasoning tool_calling summarization : Capability
  code_generation embedding evaluation classification : Capability

pub data ModelStatus : Type 0 where
  registered deployed disabled failed : ModelStatus

pub data DeploymentStatus : Type 0 where
  pending ready unloaded failed : DeploymentStatus

pub data LifecycleState : Type 0 where
  hot warm cold failed : LifecycleState

pub data EngineType : Type 0 where
  vllm huggingface_transformers tensorrt_llm sglang tgi nim external_api : EngineType

-- `str(member)`; a StrEnum member compares equal to this text.
abbrev pub capability_value : Capability → String
capability_value chat = "chat"
capability_value reasoning = "reasoning"
capability_value tool_calling = "tool_calling"
capability_value summarization = "summarization"
capability_value code_generation = "code_generation"
capability_value embedding = "embedding"
capability_value evaluation = "evaluation"
capability_value classification = "classification"

abbrev pub model_status_value : ModelStatus → String
model_status_value registered = "registered"
model_status_value deployed = "deployed"
model_status_value disabled = "disabled"
model_status_value failed = "failed"

abbrev pub deployment_status_value : DeploymentStatus → String
deployment_status_value pending = "pending"
deployment_status_value ready = "ready"
deployment_status_value unloaded = "unloaded"
deployment_status_value failed = "failed"

abbrev pub lifecycle_state_value : LifecycleState → String
lifecycle_state_value hot = "HOT"
lifecycle_state_value warm = "WARM"
lifecycle_state_value cold = "COLD"
lifecycle_state_value failed = "FAILED"

abbrev pub engine_value : EngineType → String
engine_value vllm = "vllm"
engine_value huggingface_transformers = "huggingface-transformers"
engine_value tensorrt_llm = "tensorrt-llm"
engine_value sglang = "sglang"
engine_value tgi = "tgi"
engine_value nim = "nim"
engine_value external_api = "external-api"

-- The member of a text, as a record with such a field is built from a database row.
abbrev pub model_status_of : String → Option ModelStatus
model_status_of s =
    if s == "registered"
    then some registered
    else if s == "deployed"
    then some deployed
    else if s == "disabled"
    then some disabled
    else if s == "failed"
    then some failed
    else none

abbrev pub deployment_status_of : String → Option DeploymentStatus
deployment_status_of s =
    if s == "pending"
    then some pending
    else if s == "ready"
    then some ready
    else if s == "unloaded"
    then some unloaded
    else if s == "failed"
    then some failed
    else none

abbrev pub lifecycle_state_of : String → Option LifecycleState
lifecycle_state_of s =
    if s == "HOT"
    then some hot
    else if s == "WARM"
    then some warm
    else if s == "COLD"
    then some cold
    else if s == "FAILED"
    then some failed
    else none

-- Membership tests by `==` on members.
abbrev pub is_ready : DeploymentStatus → Bool
is_ready ready = true
is_ready _ = false

abbrev pub is_broken : DeploymentStatus → Bool
is_broken failed = true
is_broken _ = false

-- `status in {UNLOADED, PENDING}`
abbrev pub is_unloaded_or_pending : DeploymentStatus → Bool
is_unloaded_or_pending unloaded = true
is_unloaded_or_pending pending = true
is_unloaded_or_pending _ = false

-- `status in {REGISTERED, DEPLOYED}`
abbrev pub is_routable : ModelStatus → Bool
is_routable registered = true
is_routable deployed = true
is_routable _ = false

-- `state in {HOT, WARM}`
abbrev pub is_hot_or_warm : LifecycleState → Bool
is_hot_or_warm hot = true
is_hot_or_warm warm = true
is_hot_or_warm _ = false

-- `state in {WARM, COLD}`
abbrev pub is_warm_or_cold : LifecycleState → Bool
is_warm_or_cold warm = true
is_warm_or_cold cold = true
is_warm_or_cold _ = false

abbrev pub is_cold : LifecycleState → Bool
is_cold cold = true
is_cold _ = false

abbrev pub is_dead : LifecycleState → Bool
is_dead failed = true
is_dead _ = false

abbrev pub same_state : LifecycleState → LifecycleState → Bool
same_state hot hot = true
same_state warm warm = true
same_state cold cold = true
same_state failed failed = true
same_state _ _ = false
