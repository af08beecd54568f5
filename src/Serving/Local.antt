-- ===== src/Serving/Local.antt =====
-- llm_platform/serving/huggingface_model_server.py. PyTorch and Transformers are a parameter over an
-- unknown World, with their tokenizers and models.
pub mod Loads
use foundation_ai_platform.Prelude.{
  ℕ, String, Bool, true, false, Option, none, some, List, [], ◌∷◌, ◌==◌, ◌<>◌, if◌then◌else◌,
  or_else, drop,
}
use foundation_ai_platform.Prelude.Int.{pos}
use foundation_ai_platform.Prelude.Texts.{lower}
use foundation_ai_platform.Prelude.Dict.{Dict, lookup, insert, erase}
use foundation_ai_platform.Exec.{
  Error, Exec, Result, ok, err, not_found, validation, pure, raise, lift, gets, modify, ◌>>=◌, ◌>>◌,
}
use foundation_ai_platform.Value.{Value, bool, int, hundredths, text, truth, truth?, Metadata}
use foundation_ai_platform.Schemas.Records.{ModelRecord, DeploymentRecord, DeploymentCreateRequest}
use foundation_ai_platform.Schemas.Gateway.{ChatMessage, ChatCompletionRequest}
use foundation_ai_platform.Platform.{Host}
use foundation_ai_platform.Settings.Schema.{ServingConfig}
use foundation_ai_platform.Serving.{
  ModelServer, PlacementAvailability, as_list, resolve_placement, ready_deployment,
}
use foundation_ai_platform.Serving.Remote.{or_value}

-- `from_pretrained` takes the settings from the configuration. A dtype is the name of an attribute of
-- PyTorch.
pub record Runtime (World Tokenizer Model Inputs : Type 0) : Type 0 where
  -- whether the imports of PyTorch and Transformers succeed
  pub imports : World → Bool
  pub discover : World → PlacementAvailability
  pub has_dtype : String → Bool
  pub mkdir : String → Exec World (Unit {0})
  pub load_tokenizer : ServingConfig → String → Exec World Tokenizer
  pub load_model : ServingConfig → String → String → Exec World Model
  -- `model.to(placement)` and `model.eval()`
  pub place : Model → String → Exec World (Unit {0})
  -- the collection of what was unloaded
  pub collect : Exec World (Unit {0})
  pub apply_chat_template : Tokenizer → List ChatMessage → Metadata → Exec World Inputs
  pub move : Inputs → String → Exec World Inputs
  pub generate : Model → Inputs → Metadata → Exec World (List ℕ)
  pub prompt_length : Inputs → ℕ
  pub decode : Tokenizer → List ℕ → Exec World String
  -- `str(v)`, `int(v)`, `float(v)` and `text.strip()`
  pub str : Value → String
  pub to_int : Value → Result Value
  pub to_float : Value → Result Value
  pub strip : String → String

pub record LoadedDeployment (Tokenizer Model : Type 0) : Type 0 where
  pub model_name : String
  pub source_model_id : String
  pub placement : String
  pub tokenizer : Tokenizer
  pub model : Model

-- `_loaded_deployments`, and the world outside.
pub record Process (World Tokenizer Model : Type 0) : Type 0 where
  pub loaded_deployments : Dict (LoadedDeployment Tokenizer Model)
  pub world : World

module _ {World Tokenizer Model Inputs : Type 0} (runtime : Runtime World Tokenizer Model Inputs)
    (host : Host World) (config : ServingConfig) where
  abbrev calls : {A : Type 0} → Exec World A → Exec (Process World Tokenizer Model) A
  calls call p = let (r, w) = call p.world in (r, record p { world = w })

  unfoldable pub lazy_runtime_imports : Exec (Process World Tokenizer Model) (Unit {0})
  lazy_runtime_imports p = (
    if runtime.imports p.world
        then ok tt
        else err (validation "HuggingFace runtime dependencies are missing."),
    p,
  )

  source_of : Option Value → Result String
  source_of none = err (validation "HuggingFace deployments require `source_model_id`.")
  source_of (some v) =
      if truth v
      then ok (runtime.str v)
      else err (validation "HuggingFace deployments require `source_model_id`.")

  unfoldable pub resolve_source_model_id : ModelRecord → DeploymentCreateRequest → Result String
  unfolding source_of
  resolve_source_model_id model request = source_of (
      or_value (lookup "source_model_id" request.metadata) (
        or_value (lookup "source_model_id" model.metadata)
          (lookup "huggingface_model_id" model.metadata)))

  unfoldable pub resolve_torch_dtype : String → Result String
  resolve_torch_dtype placement =
      let configured = lower config.huggingface.default_dtype in
      if configured == "auto"
      then ok (if placement == "cpu" then "float32" else "float16")
      else if runtime.has_dtype configured
      then ok configured
      else err (
          validation ("Unsupported torch dtype configured for HuggingFace backend: " <> configured))

  fallbacks_of : List String → List String
  fallbacks_of [] = config.fallback_placements
  fallbacks_of (f ∷ fs) = f ∷ fs

  unfoldable pub placement_of : DeploymentCreateRequest → World → Result String
  unfolding fallbacks_of
  placement_of request w =
      resolve_placement (some (or_else request.placement config.default_placement))
        (fallbacks_of request.fallback_placements) (runtime.discover w)

  -- What is loaded from a source, at a placement.
  load :
      ModelRecord
      → String
      → String
      → Exec (Process World Tokenizer Model) (LoadedDeployment Tokenizer Model)
  unfolding resolve_torch_dtype
  load model source placement = do
    calls (runtime.mkdir config.model_cache_dir)
    dtype ← lift (resolve_torch_dtype placement)
    tokenizer ← calls (runtime.load_tokenizer config source)
    loaded_model ← calls (runtime.load_model config source dtype)
    calls (runtime.place loaded_model placement)
    pure (record {
      model_name = model.name;
      source_model_id = source;
      placement = placement;
      tokenizer = tokenizer;
      model = loaded_model;
    })

  -- The record of the deployment, and the entry under its id.
  keep :
      ModelRecord
      → DeploymentCreateRequest
      → LoadedDeployment Tokenizer Model
      → Exec (Process World Tokenizer Model) DeploymentRecord
  keep model request loaded = do
    deployment ← calls (
        ready_deployment host model request (
          insert "implementation" (text "huggingface-transformers") (
            insert "placement" (text loaded.placement)
              (insert "source_model_id" (text loaded.source_model_id) request.metadata))))
    modify (λ p. record p {
      loaded_deployments = insert deployment.deployment_id loaded p.loaded_deployments;
    })
    pure deployment

  unfoldable pub deploy :
      ModelRecord → DeploymentCreateRequest → Exec (Process World Tokenizer Model) DeploymentRecord
  unfolding lazy_runtime_imports resolve_source_model_id placement_of load keep
  deploy model request = do
    lazy_runtime_imports
    source ← lift (resolve_source_model_id model request)
    placement ← λ p. (placement_of request p.world, p)
    loaded ← load model source placement
    keep model request loaded

  -- `pop(deployment_id, None)`, and the collection of what was there.
  unfoldable pub unload : String → Exec (Process World Tokenizer Model) (Unit {0})
  unload deployment_id p =
      let popped : Process World Tokenizer Model = record p {
        loaded_deployments = erase deployment_id p.loaded_deployments;
      } in
      elim (lookup deployment_id p.loaded_deployments) [
        | none ↦ (err (not_found ("Deployment not loaded: " <> deployment_id)), popped)
        | some loaded ↦ calls runtime.collect popped
      ]

  get_value : String → Value → Metadata → Value
  get_value key default metadata = elim (lookup key metadata) [ none ↦ default | some v ↦ v ]

  sampling : Bool → Metadata → Metadata → Result Metadata
  unfolding get_value
  sampling false metadata kwargs = ok kwargs
  sampling true metadata kwargs =
      let defaults = config.huggingface.generation in
      elim (runtime.to_float (get_value "temperature" (hundredths defaults.temperature) metadata)) [
        | err e ↦ err e
        | ok temperature ↦
            elim (runtime.to_float (get_value "top_p" (hundredths defaults.top_p) metadata)) [
              | err e ↦ err e
              | ok top_p ↦ ok (insert "top_p" top_p (insert "temperature" temperature kwargs))
            ]
      ]

  unfoldable pub generation_kwargs : Metadata → Result Metadata
  unfolding sampling get_value
  generation_kwargs metadata =
      let defaults = config.huggingface.generation in
      let do_sample = truth (get_value "do_sample" (bool defaults.do_sample) metadata) in
      elim (runtime.to_int
        (get_value "max_new_tokens" (int (pos defaults.max_new_tokens)) metadata)) [
          | err e ↦ err e
          | ok max_new_tokens ↦
              sampling do_sample metadata
                (("max_new_tokens", max_new_tokens) ∷ ("do_sample", bool do_sample) ∷ [])
        ]

  template_kwargs : Metadata → Metadata
  template_kwargs metadata = elim (lookup "enable_thinking" metadata) [
    | none ↦ []
    | some v ↦ ("enable_thinking", bool (truth v)) ∷ []
  ]

  complete :
      LoadedDeployment Tokenizer Model
      → ChatCompletionRequest
      → Exec (Process World Tokenizer Model) String
  unfolding generation_kwargs template_kwargs
  complete loaded request = do
    inputs ← calls (
        runtime.apply_chat_template loaded.tokenizer request.messages
          (template_kwargs request.metadata))
    inputs ← calls (runtime.move inputs loaded.placement)
    kwargs ← lift (generation_kwargs request.metadata)
    generated ← calls (runtime.generate loaded.model inputs kwargs)
    answer ← calls (runtime.decode loaded.tokenizer (drop (runtime.prompt_length inputs) generated))
    pure (runtime.strip answer)

  complete_if :
      Option (LoadedDeployment Tokenizer Model)
      → DeploymentRecord
      → ChatCompletionRequest
      → Exec (Process World Tokenizer Model) String
  unfolding complete
  complete_if none d request = raise (not_found ("Deployment not loaded: " <> d.deployment_id))
  complete_if (some loaded) d request = complete loaded request

  unfoldable pub generate :
      DeploymentRecord → ChatCompletionRequest → Exec (Process World Tokenizer Model) String
  unfolding lazy_runtime_imports complete_if
  generate d request = do
    lazy_runtime_imports
    λ p. complete_if (lookup d.deployment_id p.loaded_deployments) d request p
