-- ===== src/Bootstrap.antt =====
-- llm_platform/bootstrap.py: the registration of the models that are found in the cache.
pub mod Sync
pub mod Additions
pub mod Deployments
mod Tests
use foundation_ai_platform.Prelude.{
  String, Bool, true, false, not, ◌&&◌, ◌||◌, ◌==◌, Option, none, List, [], ◌∷◌, if◌then◌else◌,
}
use package.text.Mathlib.Text.{starts_with}
use foundation_ai_platform.Prelude.Int.{ℤ, pos, leb_ℤ}
use foundation_ai_platform.Prelude.Texts.{lower, has, replace_text}
use foundation_ai_platform.Value.{bool}
use foundation_ai_platform.Schemas.Enums.{ModelStatus, DeploymentStatus}
use foundation_ai_platform.Schemas.Records.{ModelRecord, DeploymentRecord}
use foundation_ai_platform.Registry.{Registry, list_models, update_model, update_deployment}
use foundation_ai_platform.Platform.{Host}
use foundation_ai_platform.Cache.{ModelDir, read_model_vram_from_cache}

unfoldable pub repo_of : String → String
repo_of name = replace_text "--" "/" (replace_text "models--" "" name)

unfoldable pub capabilities_of : String → List String
capabilities_of repo_id =
    let name = lower repo_id in
    if has name "phi-3"
    then "math" ∷ []
    else if has name "deepseek"
    then "reasoning" ∷ []
    else if has name "qwen"
    then "summarization" ∷ []
    else "chat" ∷ []

-- `any(m.name == repo_id for m in existing_models)`
unfoldable pub is_listed : String → List ModelRecord → Bool
is_listed repo_id [] = false
is_listed repo_id (m ∷ ms) = m.name == repo_id || is_listed repo_id ms

module _ (int_text : String → Option ℤ) where
  -- Whether a directory is registered: a small model that no listed one is named after.
  unfoldable pub is_synced : List ModelRecord → ModelDir → Bool
  unfolding is_listed repo_of read_model_vram_from_cache
  is_synced existing d =
      d.is_dir
      && (starts_with d.name "models--"
          && (leb_ℤ (read_model_vram_from_cache int_text d) (pos 10)
              && not (is_listed (repo_of d.name) existing)))

  module _ {World : Type 0} (host : Host World) where
    unfoldable pub synced_model : String → ModelDir → World → ModelRecord
    unfolding repo_of capabilities_of read_model_vram_from_cache
    synced_model id d w = record {
      id = id;
      name = repo_of d.name;
      version = "latest";
      family = "unknown";
      engine = "vllm";
      capabilities = capabilities_of (repo_of d.name);
      vllm_eagle_head = none;
      memory_requirement_gb = read_model_vram_from_cache int_text d;
      ownership = "system";
      status = ModelStatus.registered;
      created_at = host.now w;
      metadata = ("from_ssd_sync", bool true) ∷ [];
    }

    unfoldable pub pending_deployment : String → String → World → DeploymentRecord
    pending_deployment id model_id w = record {
      deployment_id = id;
      model_id = model_id;
      endpoint = "http://localhost:pending";
      engine = "vllm";
      status = DeploymentStatus.pending;
      last_used = none;
      created_at = host.now w;
      metadata = [];
    }

    unfoldable pub register_found : ModelDir → Registry × World → Registry × World
    unfolding synced_model pending_deployment
    register_found d (r, w) =
        let (id, w1) = host.uuid4 w in
        let (deployment_id, w2) = host.uuid4 w1 in
        (
          update_deployment (pending_deployment deployment_id id w1)
              (update_model (synced_model id d w1) r),
          w2,
        )

    unfoldable pub sync_each :
        List ModelRecord → List ModelDir → Registry × World → Registry × World
    unfolding is_synced register_found
    sync_each existing [] s = s
    sync_each existing (d ∷ ds) s =
        sync_each existing ds (if is_synced existing d then register_found d s else s)

    -- The models of the cache, compared with those that are registered before the loop.
    unfoldable pub sync : List ModelDir → Registry × World → Registry × World
    unfolding sync_each
    sync ds (r, w) = sync_each (list_models r) ds (r, w)
