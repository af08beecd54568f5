-- ===== src/Serving/Vllm.antt =====
-- llm_platform/services/model_server.py, the client of a vLLM container. The HTTP call and the parser
-- of the answer are parameters over an unknown World.
mod Tests
use foundation_ai_platform.Prelude.{
  ℕ, String, Bool, Option, none, some, [], ◌∷◌, ◌++◌, ◌<>◌, if◌then◌else◌, nat_eq, true,
}
use foundation_ai_platform.Exec.{Exec, Result, ok, err, other, lift, ◌>>=◌, ◌>>◌}
use foundation_ai_platform.Value.{Value, null, bool, hundredths, text, items, Metadata}
use foundation_ai_platform.Schemas.Records.{DeploymentRecord}
use foundation_ai_platform.Schemas.Gateway.{ChatCompletionRequest}
use foundation_ai_platform.Serving.Remote.{messages_value, or_value, get_key, get_first, chain}

-- `client.post(url, json=payload)`: the status, the text, and the parsed body if it is JSON.
abbrev pub Post : Type 0 → Type 0
Post World = String → Metadata → Exec World (ℕ × String × Result Value)

model_value : Option String → Value
model_value none = null
model_value (some name) = text name

-- `request.temperature or 0.7`
temperature_of : Option Value → Value
temperature_of temperature = elim (or_value temperature (some (hundredths 70))) [
  | none ↦ null
  | some v ↦ v
]

unfoldable pub payload : Option Value → ChatCompletionRequest → Metadata
unfolding model_value temperature_of
payload temperature request =
    ("model", model_value request.model)
    ∷ ("messages", items (messages_value request.messages))
    ∷ ("temperature", temperature_of temperature)
    ∷ (if request.stream then ("stream", bool true) ∷ [] else [])

-- `json_data["choices"][0]["message"]["content"]`
message_content : Value → Result Value
message_content body =
    elim (chain (chain (chain (get_key "choices" body) get_first) (get_key "message"))
      (get_key "content")) [ some v ↦ ok v | none ↦ err (other "the answer has no content") ]

unfoldable pub response_content : ℕ × String × Result Value → Result Value
unfolding message_content
response_content (status, body, parsed) =
    if nat_eq status 200
    then elim parsed [ ok json ↦ message_content json | err e ↦ err e ]
    else err (other ("vLLM server error: " <> body))

module _ {World : Type 0} (post : Post World) where
  -- The temperature of the request is a float, or none.
  unfoldable pub generate :
      DeploymentRecord → Option Value → ChatCompletionRequest → Exec World Value
  unfolding payload response_content
  generate deployment temperature request = do
    response ← post (deployment.endpoint <> "/v1/chat/completions") (payload temperature request)
    lift (response_content response)
