-- ===== src/Serving.antt =====
-- Where and by what a model is served: llm_platform/serving/placement.py, fake_model_server.py and
-- the parts of openai_compatible_remote.py that do not call the network, and
-- llm_platform/interfaces/model_server.py.
pub mod Placement
pub mod Remote
pub mod Vllm
pub mod Local
use foundation_ai_platform.Prelude.{
  ℕ, String, Bool, true, false, Option, none, some, List, [], ◌∷◌, ◌++◌, if◌then◌else◌, ◌<>◌,
  truthy, contains, or_else,
}
use foundation_ai_platform.Prelude.Dict.{Dict, lookup, insert}
use foundation_ai_platform.Prelude.Texts.{lower}
use foundation_ai_platform.Exec.{Exec, Result, ok, err, validation, other, pure, lift, ◌>>=◌}
use foundation_ai_platform.Value.{Value, text, truth, Metadata}
use foundation_ai_platform.Schemas.Enums.{ready}
use foundation_ai_platform.Schemas.Records.{ModelRecord, DeploymentRecord, DeploymentCreateRequest}
use foundation_ai_platform.Schemas.Gateway.{ChatCompletionRequest}
use foundation_ai_platform.Platform.{Host}

pub record PlacementAvailability : Type 0 where
  pub cpu : Bool
  pub cuda : Bool
  pub mps : Bool

only_if : Bool → String → List String
only_if b s = if b then s ∷ [] else []

unfoldable pub as_list : PlacementAvailability → List String
unfolding only_if
as_list a = only_if a.cuda "cuda" ++ only_if a.mps "mps" ++ only_if a.cpu "cpu"

-- `[candidate for candidate in [...] if candidate]`
unfoldable pub nonempty : List String → List String
nonempty [] = []
nonempty (s ∷ ss) = let rest = nonempty ss in if truthy s then s ∷ rest else rest

unfoldable pub candidates : Option String → List String → List String
unfolding nonempty
candidates preferred fallbacks = nonempty (or_else preferred "" ∷ fallbacks ++ "cpu" ∷ [])

unfoldable pub first_available : List String → List String → Option String
first_available available [] = none
first_available available (c ∷ cs) =
    let rest = first_available available cs in
    if contains (lower c) available then some (lower c) else rest

chosen : Option String → Result String
chosen none = err (other "No requested placements are available.")
chosen (some s) = ok s

unfoldable pub resolve_placement :
    Option String → List String → PlacementAvailability → Result String
unfolding as_list candidates first_available chosen
resolve_placement preferred fallbacks availability =
    chosen (first_available (as_list availability) (candidates preferred fallbacks))

-- What `deploy` and `unload` of a serving backend do.
pub record ModelServer (World : Type 0) : Type 0 where
  pub deploy : ModelRecord → DeploymentCreateRequest → Exec World DeploymentRecord
  pub unload : String → Exec World (Unit {0})

-- `{**left, **right}`
unfoldable pub merge : {V : Type 0} → Dict V → Dict V → Dict V
merge left [] = left
merge left ((k, v) ∷ right) = merge (insert k v left) right

-- `request.engine or model.engine`
unfoldable pub target_engine : ModelRecord → DeploymentCreateRequest → String
target_engine model request = or_else request.engine model.engine

module _ {World : Type 0} (host : Host World) where
  -- A deployment that is ready, with a drawn id.
  unfoldable pub ready_deployment :
      ModelRecord → DeploymentCreateRequest → Metadata → Exec World DeploymentRecord
  unfolding target_engine
  ready_deployment model request metadata w =
      let (id, w') = host.uuid4 w in
      (
        ok (record {
          deployment_id = id;
          model_id = model.id;
          endpoint = request.endpoint;
          engine = target_engine model request;
          status = ready;
          last_used = none;
          created_at = host.now w;
          metadata = metadata;
        }),
        w',
      )

  unfoldable pub fake_model_server : ModelServer World
  unfolding ready_deployment merge
  fake_model_server = record {
    deploy = λ model request.
        ready_deployment model request
          (merge (("placeholder", text "deployment created by fake server") ∷ []) request.metadata);
    unload = λ id w. (ok tt, w);
  }

-- `deployment_id` and `request_id` in the placeholder answer.
unfoldable pub fake_generate : DeploymentRecord → ChatCompletionRequest → String
fake_generate deployment request =
    "Inference is not implemented in this phase. Request " <> request.request_id
    <> " would be served by deployment " <> deployment.deployment_id <> "."
