-- ===== src/Gateway/Routes.antt =====
-- The handlers of llm_platform/gateway/routes.py, over the chat service, the management service and an
-- inspection of a repository. A route of `v1_router` that only calls another handler is that handler.
pub mod Refusals
pub mod Registrations
mod Tests
use foundation_ai_platform.Prelude.{String, Option, List}
use foundation_ai_platform.Exec.{Exec, Result, ok, err}
use foundation_ai_platform.Schemas.Records.{
  Timestamp, ModelRecord, DeploymentRecord, ModelRegistrationRequest, DeploymentCreateRequest,
  ValidationReport,
}
use foundation_ai_platform.Schemas.Gateway.{ChatCompletionRequest, ChatCompletionResponse}
use foundation_ai_platform.Registry
use foundation_ai_platform.Platform.{Host, Platform, outside, reads}
use foundation_ai_platform.Serving.{ModelServer}
use foundation_ai_platform.Management
use foundation_ai_platform.Gateway.{Response, respond, OpenAiChatCompletionResponse, to_openai}

pub record ModelResponse : Type 0 where
  pub model : ModelRecord

pub record ModelsResponse : Type 0 where
  pub models : List ModelRecord

pub record DeploymentResponse : Type 0 where
  pub deployment : DeploymentRecord

pub record ValidationResponse : Type 0 where
  pub report : ValidationReport

pub record ModelUnloadRequest : Type 0 where
  pub deployment_id : String

pub record ModelValidateRequest : Type 0 where
  pub hf_repo : String
  pub revision : Option String

module _ {World : Type 0} where
  -- A call of a service, and the answer that is made of its result.
  unfoldable pub handle :
      {A B : Type 0}
      → (A → B)
      → Exec (Platform World) A
      → Platform World
      → Response B × Platform World
  unfolding respond
  handle f call p = let (r, p') = call p in (respond f r, p')

  module _ (chat : ChatCompletionRequest → Exec (Platform World) ChatCompletionResponse) where
    -- `create_direct_chat_completion` as well
    unfoldable pub create_chat_completion :
        ChatCompletionRequest → Platform World → Response ChatCompletionResponse × Platform World
    unfolding handle
    create_chat_completion payload = handle (λ r. r) (chat payload)

    -- The clock is read after the answer.
    unfoldable pub create_openai_chat_completion :
        (World → Timestamp)
        → ChatCompletionRequest
        → Platform World
        → Response OpenAiChatCompletionResponse × Platform World
    unfolding handle respond to_openai
    create_openai_chat_completion now payload p =
        let (r, p') = chat payload p in (respond (to_openai (now p'.world)) r, p')

  module _ (host : Host World) (server : ModelServer World) (engines : List String) where
    unfoldable pub register_model :
        ModelRegistrationRequest → Platform World → Response ModelResponse × Platform World
    unfolding handle
    register_model payload =
        handle (λ m. record { model = m }) (Management.register host server engines payload)

    unfoldable pub deploy_model :
        DeploymentCreateRequest → Platform World → Response DeploymentResponse × Platform World
    unfolding handle
    deploy_model payload =
        handle (λ d. record { deployment = d })
          (Management.deploy_model host server engines payload)

    unfoldable pub unload_model :
        ModelUnloadRequest → Platform World → Response DeploymentResponse × Platform World
    unfolding handle
    unload_model payload =
        handle (λ d. record { deployment = d })
          (Management.unload_model host server engines payload.deployment_id)

  -- `inspect` is `inspect_huggingface_repo` of the compatibility checker.
  unfoldable pub validate_model :
      (String → Option String → Exec World ValidationReport)
      → ModelValidateRequest
      → Platform World
      → Response ValidationResponse × Platform World
  unfolding handle
  validate_model inspect payload =
      handle (λ r. record { report = r }) (outside (inspect payload.hf_repo payload.revision))

  -- `get_model_status_v1` as well
  unfoldable pub get_model : String → Platform World → Response ModelResponse × Platform World
  unfolding handle
  get_model model_id =
      handle (λ m. record { model = m }) (reads (λ r. Registry.get_model r model_id))

  unfoldable pub list_models : Platform World → ModelsResponse
  list_models p = record { models = Registry.list_models p.registry }
