-- ===== src/Chat/Prewarming.antt =====
-- `prewarm_capabilities` of llm_platform/services/chat.py.
use foundation_ai_platform.Prelude.{
  String, Bool, true, Option, none, some, List, [], ◌∷◌, ◌++◌, if◌then◌else◌, length, leb, select,
  contains,
}
use foundation_ai_platform.Prelude.Dict.{Dict, lookup, insert}
use foundation_ai_platform.Prelude.Sorting.{sort}
use foundation_ai_platform.Exec.{Error, Exec, ok, pure, try_except, ◌>>=◌, ◌>>◌}
use foundation_ai_platform.Value.{bool}
use foundation_ai_platform.Schemas.Enums.{DeploymentStatus}
use foundation_ai_platform.Schemas.Records.{ModelRecord, DeploymentRecord}
use foundation_ai_platform.Lifecycle.{initialize}
use foundation_ai_platform.Registry.{Registry, list_models, update_deployment, upsert_lifecycle}
use foundation_ai_platform.Platform.{Host, Platform, with_registry, writes, release_memory}
use foundation_ai_platform.Boot.Containers.{deploy_vllm_container}
use foundation_ai_platform.Chat.Onboarding.{draw, onboard_model}
use foundation_ai_platform.Chat.Decisions.{reserve_on}

-- `session.execute(delete(...))` of both tables.
unfoldable pub clear_ghosts : Registry → Registry
clear_ghosts r = record r { deployments = []; lifecycles = [] }

unfoldable pub default_repos : Dict String
default_repos =
    ("chat", "TinyLlama/TinyLlama-1.1B-Chat-v1.0")
    ∷ ("reasoning", "deepseek-ai/DeepSeek-R1-Distill-Qwen-1.5B")
    ∷ ("summarization", "Qwen/Qwen2.5-1.5B-Instruct")
    ∷ ("math", "microsoft/Phi-3-mini-4k-instruct")
    ∷ []

-- `eligible_models.sort(key=..., reverse=True)`, which is stable.
broader_first : ModelRecord → ModelRecord → Bool
broader_first m n = leb (length n.capabilities) (length m.capabilities)

unfoldable pub eligible_models : String → List ModelRecord → List ModelRecord
unfolding broader_first
eligible_models capability models =
    sort broader_first (select (λ m. contains capability m.capabilities) models)

module _ {World : Type 0} (host : Host World) where
  -- A model to warm, or none where the loop goes on, with the list of the models known from now on.
  unfoldable pub onboarded :
      List ModelRecord
      → Option String
      → Exec (Platform World) (Option ModelRecord × List ModelRecord)
  onboarded models none = pure (none, models)
  onboarded models (some repo) =
      try_except (do m ← onboard_model host repo none; pure (some m, models ++ m ∷ []))
        (λ e. pure (none, models))

  unfoldable pub model_to_warm :
      String
      → List ModelRecord
      → List ModelRecord
      → Exec (Platform World) (Option ModelRecord × List ModelRecord)
  unfolding onboarded default_repos
  model_to_warm capability models [] = onboarded models (lookup capability default_repos)
  model_to_warm capability models (m ∷ ms) = pure (some m, models)

  unfoldable pub permanent_deployment : ModelRecord → Exec (Platform World) DeploymentRecord
  unfolding draw
  permanent_deployment model = do
    id ← draw host
    λ p. (
      ok (record {
        deployment_id = id;
        model_id = model.id;
        endpoint = "";
        engine = "vllm";
        status = DeploymentStatus.pending;
        last_used = none;
        created_at = host.now p.world;
        metadata = ("is_permanent", bool true) ∷ [];
      }),
      p,
    )

  -- The record, its memory and its lifecycle record.
  unfoldable pub announce : ModelRecord → DeploymentRecord → Platform World → Platform World
  announce model d p = record p {
    registry = upsert_lifecycle (initialize (host.now p.world) d) (update_deployment d p.registry);
    gpu_tracker = reserve_on d.deployment_id model p.gpu_tracker;
  }

  unfoldable pub bring_up : ModelRecord → DeploymentRecord → Exec (Platform World) (Unit {0})
  bring_up model d = do
    up ← deploy_vllm_container host model (some d)
    writes
        (update_deployment (record up { metadata = insert "is_permanent" (bool true) up.metadata }))

  unfoldable pub give_up : DeploymentRecord → Error → Exec (Platform World) (Unit {0})
  give_up d e = do
    writes (update_deployment (record d { status = DeploymentStatus.failed }))
    release_memory d.deployment_id

  unfoldable pub warm_up : ModelRecord → DeploymentRecord → Exec (Platform World) (Unit {0})
  unfolding announce bring_up give_up
  warm_up model d p = try_except (bring_up model d) (give_up d) (announce model d p)

  unfoldable pub warm : Option ModelRecord → Exec (Platform World) (Unit {0})
  unfolding permanent_deployment warm_up
  warm none = pure tt
  warm (some model) = do d ← permanent_deployment model; warm_up model d

  unfoldable pub warm_each : List String → List ModelRecord → Exec (Platform World) (Unit {0})
  unfolding eligible_models model_to_warm warm
  warm_each [] models = pure tt
  warm_each (c ∷ cs) models = do
    found ← model_to_warm c models (eligible_models c models)
    warm found.0
    warm_each cs found.1

  -- The tables are cleared where the repository has sessions; one in memory is left as it is.
  unfoldable pub prewarm_capabilities : Bool → List String → Exec (Platform World) (Unit {0})
  unfolding clear_ghosts warm_each
  prewarm_capabilities has_sessions capabilities p =
      warm_each capabilities (list_models p.registry)
        (if has_sessions then with_registry clear_ghosts p else p)
