-- ===== src/Serving/Remote.antt =====
-- llm_platform/serving/openai_compatible_remote.py. The HTTP calls and the parser of the answer are
-- parameters over an unknown World.
pub mod Deployed
use foundation_ai_platform.Prelude.{
  ℕ, zero, suc, String, Bool, true, false, not, ◌||◌, Option, none, some, List, [], ◌∷◌, ◌==◌, ◌<>◌,
  if◌then◌else◌, truthy, truthy?, or_else,
}
use foundation_ai_platform.Prelude.Int.{ℤ, pos}
use foundation_ai_platform.Prelude.Dict.{Dict, lookup, insert}
use foundation_ai_platform.Exec.{
  Error, Exec, Result, ok, err, not_found, validation, other, pure, raise, lift, ◌>>=◌, ◌>>◌,
}
use foundation_ai_platform.Value.{
  Value, null, bool, int, text, items, table, nil, cons, Values, truth, truth?, Metadata, entries,
  Fields,
}
use foundation_ai_platform.Schemas.Records.{ModelRecord, DeploymentRecord, DeploymentCreateRequest}
use foundation_ai_platform.Schemas.Gateway.{ChatMessage, ChatCompletionRequest}
use foundation_ai_platform.Platform.{Host}
use foundation_ai_platform.Serving.{ModelServer, merge, ready_deployment}
use foundation_ai_platform.Settings.Schema.{OpenAiCompatibleBackendConfig}

-- `str(v)` of a value, the health check, and a `POST` of a payload: whether it succeeded, the text,
-- and the parsed body if there is one.
pub record Remote (World : Type 0) : Type 0 where
  pub str : Value → String
  pub check_health : String → Exec World (Unit {0})
  pub post : String → String → Metadata → Exec World (Bool × String × Result Value)
  -- `text.strip()`, and `text.rstrip("/")`
  pub strip : String → String
  pub rstrip_slash : String → String

-- `a or b`
abbrev pub or_value : Option Value → Option Value → Option Value
or_value a b = if truth? a then a else b

abbrev of_text : Option String → Option Value
of_text none = none
of_text (some s) = some (text s)

message_value : ChatMessage → Value
message_value m =
    table (Fields.field "role" (text m.role) (Fields.field "content" (text m.content) Fields.end))

unfoldable pub messages_value : List ChatMessage → Values
unfolding message_value
messages_value [] = nil
messages_value (m ∷ ms) = cons (message_value m) (messages_value ms)

-- `body["choices"][0]["message"]["content"]`
unfoldable pub get_key : String → Value → Option Value
get_key k (table fs) = lookup k (entries fs)
get_key k v = none

unfoldable pub get_first : Value → Option Value
get_first (items (cons v vs)) = some v
get_first v = none

unfoldable pub chain : Option Value → (Value → Option Value) → Option Value
chain none f = none
chain (some v) f = f v

module _ {World : Type 0} (remote : Remote World) (host : Host World) (backend_name : String)
    (config : OpenAiCompatibleBackendConfig) where
  unfoldable pub url_of : Option Value → Result String
  url_of none = err (validation (backend_name <> " requires a configured base_url."))
  url_of (some v) =
      if truth v
      then ok (remote.rstrip_slash (remote.str v))
      else err (validation (backend_name <> " requires a configured base_url."))

  unfoldable pub resolve_base_url : DeploymentCreateRequest → Result String
  unfolding url_of
  resolve_base_url request =
      url_of (or_value (lookup "base_url" request.metadata) (of_text config.base_url))

  -- The name of the model comes last, so there always is a candidate.
  unfoldable pub resolve_remote_model_name : ModelRecord → DeploymentCreateRequest → String
  resolve_remote_model_name model request =
      elim (or_value (lookup "remote_model_name" request.metadata) (
        or_value (lookup "remote_model_name" model.metadata) (
          or_value (lookup "source_model_id" model.metadata)
            (or_value (of_text config.default_remote_model) (some (text model.name)))))) [
              | none ↦ model.name
              | some v ↦ remote.str v
            ]

  unfoldable pub deploy : ModelRecord → DeploymentCreateRequest → Exec World DeploymentRecord
  unfolding resolve_base_url resolve_remote_model_name
  deploy model request = do
    base_url ← lift (resolve_base_url request)
    let remote_model_name = resolve_remote_model_name model request
    remote.check_health base_url
    ready_deployment host model request (
        insert "implementation" (text backend_name) (
          insert "remote_model_name" (text remote_model_name)
            (insert "base_url" (text base_url) request.metadata)))

  unfoldable pub remote_model_server : ModelServer World
  unfolding deploy
  remote_model_server = record { deploy = deploy; unload = λ id w. (ok tt, w) }

  add_field : String → Option Value → Metadata → Metadata
  add_field key none payload = payload
  add_field key (some v) payload = insert key v payload

  -- `request.metadata.get("backend_payload", {})`, of which `update` takes a dict, or what is empty.
  backend_payload : Option Value → Result Metadata
  backend_payload none = ok []
  backend_payload (some (table fs)) = ok (entries fs)
  backend_payload (some (items nil)) = ok []
  backend_payload (some (text s)) =
      if truthy s then err (other "backend_payload is no dict") else ok []
  backend_payload (some v) = err (other "backend_payload is no dict")

  payload_of : Value → Option Value → ChatCompletionRequest → Metadata
  unfolding messages_value add_field
  payload_of name temperature request = add_field "temperature" temperature (
      add_field "max_tokens" (elim request.max_tokens [ none ↦ none | some n ↦ some (int (pos n)) ])
        (("model", name)
          ∷ ("messages", items (messages_value request.messages))
          ∷ ("stream", bool request.stream)
          ∷ []))

  unfoldable pub content_of : Value → Result String
  unfolding get_key get_first chain
  content_of body =
      elim (chain (chain (chain (get_key "choices" body) get_first) (get_key "message"))
        (get_key "content")) [
          | some v ↦ ok (remote.strip (remote.str v))
          | none ↦ err (
              validation
                ("Unexpected OpenAI-compatible response payload from " <> backend_name <> "."))
        ]

  error_message : String → Result Value → String
  unfolding get_key
  error_message body (err e) = body
  error_message body (ok parsed) = elim parsed [
    | table fs ↦ elim (lookup "message" (entries fs)) [ none ↦ body | some v ↦ remote.str v ]
    | _ ↦ body
  ]

  answer_of : Bool × String × Result Value → Result String
  unfolding error_message content_of
  answer_of (false, body, parsed) =
      err (validation ("Backend rejected request: " <> error_message body parsed))
  answer_of (true, body, ok parsed) = content_of parsed
  answer_of (true, body, err e) = err e

  -- `str(url or "")`
  unfoldable pub url_or_empty : Option Value → String
  url_or_empty none = ""
  url_or_empty (some v) = if truth v then remote.str v else ""

  unfoldable pub target_url : DeploymentRecord → String
  unfolding url_or_empty
  target_url d = url_or_empty (or_value (lookup "base_url" d.metadata) (of_text config.base_url))

  send_to : String → Option Value → Option Value → ChatCompletionRequest → Exec World String
  unfolding payload_of backend_payload answer_of
  send_to base_url name temperature request =
      if not (truthy base_url) || not (truth? name)
      then raise
          (not_found "Remote deployment is missing `base_url` or `remote_model_name` metadata.")
      else (do
        extra ← lift (backend_payload (lookup "backend_payload" request.metadata))
        answer ←
            remote.post base_url config.chat_completions_path (
              merge (payload_of (elim name [ none ↦ null | some v ↦ v ]) temperature request) extra)
        lift (answer_of answer))

  -- The temperature of the request is a float, or none.
  unfoldable pub generate :
      DeploymentRecord → Option Value → ChatCompletionRequest → Exec World String
  unfolding target_url send_to
  generate d temperature request =
      send_to (target_url d) (lookup "remote_model_name" d.metadata) temperature request
