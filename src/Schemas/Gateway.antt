-- ===== src/Schemas/Gateway.antt =====
-- llm_platform/schemas/gateway.py: the requests and responses of the chat endpoints.
use foundation_ai_platform.Prelude.{ℕ, String, Bool, List, Option}
use foundation_ai_platform.Value.{Metadata}
use foundation_ai_platform.Schemas.Records.{RouteDecision}

pub record ChatMessage : Type 0 where
  pub role : String
  pub content : String

pub record ChatCompletionRequest : Type 0 where
  pub request_id : String
  pub capability : String
  pub model : Option String
  pub messages : List ChatMessage
  pub max_tokens : Option ℕ
  pub stream : Bool
  pub metadata : Metadata
  pub password : Option String
  pub huggingface_id : Option String

pub record ChatCompletionResponse : Type 0 where
  pub request_id : String
  pub status : String
  pub route : RouteDecision
  pub message : String
