-- ===== src/Samples.antt =====
-- Small records that the tests of several modules share.
use foundation_ai_platform.Prelude.{refl, ◌+◌, true, false, some}
use foundation_ai_platform.Exec.{ok, err, other}
use foundation_ai_platform.Schemas.Gateway.{ChatCompletionRequest}
use foundation_ai_platform.Platform.{Host, Platform, IsWellFormed}
use foundation_ai_platform.Routing.Decision.{Random}
use foundation_ai_platform.Prelude.{ℕ, String, none, List, [], ◌∷◌}
use foundation_ai_platform.Prelude.Int.{pos}
use foundation_ai_platform.Schemas.Enums.{
  DeploymentStatus, LifecycleState, registered, ready, unloaded, warm,
}
use foundation_ai_platform.Schemas.Records.{ModelRecord, DeploymentRecord, LifecycleRecord}
use foundation_ai_platform.Concurrency.{ConcurrencyTracker}
use foundation_ai_platform.Gpu.{GpuTracker}
use foundation_ai_platform.Registry.{Registry}
use foundation_ai_platform.Registry.Laws.{IsConsistent}
use foundation_ai_platform.Prelude.Dict.{lookup}

abbrev pub model : String → List String → ℕ → ModelRecord
model id capabilities gb = record {
  id = id;
  name = id;
  version = "1.0";
  family = "generic";
  engine = "vllm";
  capabilities = capabilities;
  vllm_eagle_head = none;
  memory_requirement_gb = pos gb;
  ownership = "user";
  status = registered;
  created_at = 0;
  metadata = [];
}

abbrev pub deployment : String → String → DeploymentStatus → DeploymentRecord
deployment id model_id status = record {
  deployment_id = id;
  model_id = model_id;
  endpoint = "http://localhost";
  engine = "vllm";
  status = status;
  last_used = none;
  created_at = 0;
  metadata = [];
}

abbrev pub lifecycle : String → LifecycleState → ℕ → LifecycleRecord
lifecycle id state idle = record {
  deployment_id = id;
  state = state;
  last_transition = 0;
  idle_duration_seconds = idle;
}

-- A chat model that runs and has been idle, and a math model that is on disk.
abbrev pub tiny : ModelRecord
tiny = model "tiny" ("chat" ∷ []) 6

abbrev pub phi : ModelRecord
phi = model "phi" ("math" ∷ []) 14

abbrev pub tiny_up : DeploymentRecord
tiny_up = deployment "d1" "tiny" ready

abbrev pub phi_down : DeploymentRecord
phi_down = deployment "d2" "phi" unloaded

abbrev pub tiny_idle : LifecycleRecord
tiny_idle = lifecycle "d1" warm 400

abbrev pub store : Registry
store = record {
  models = ("tiny", tiny) ∷ ("phi", phi) ∷ [];
  deployments = ("d1", tiny_up) ∷ ("d2", phi_down) ∷ [];
  lifecycles = ("d1", tiny_idle) ∷ [];
}

-- 18 GB, of which the chat model holds 6.
abbrev pub card : GpuTracker
card = record { total_vram_gb = pos 18; allocated = ("d1", pos 6) ∷ [] }

abbrev pub quiet : ConcurrencyTracker
quiet = record { active = [] }

-- A host without containers. Its state is the time, which a drawn id advances.
abbrev pub bare : Host ℕ
bare = record {
  get_container = λ name w. (ok none, w);
  remove_container = λ name w. (ok tt, w);
  bind_port = λ port w. (ok true, w);
  run_container = λ spec w. (ok tt, w);
  answers = λ port w. (ok true, w);
  inspect = λ repo w. (err (other "no network"), w);
  snapshot_download = λ repo w. (ok tt, w);
  generate = λ d request w. (ok "hello", w);
  now = λ w. w;
  uuid4 = λ w. ("id", w + 1);
}

abbrev pub at_rest : Platform ℕ
at_rest = record {
  registry = store;
  gpu_tracker = some card;
  concurrency_tracker = some quiet;
  reserved_ports = [];
  events = [];
  world = 7;
}

abbrev pub under_load : Platform ℕ
under_load = record at_rest { concurrency_tracker = some (record { active = ("d1", 2) ∷ [] }) }

abbrev pub first : Random
first = record { choice = λ c cs. c; sample = λ c d cs. (c, d) }

abbrev pub hello : ChatCompletionRequest
hello = record {
  request_id = "r1";
  capability = "chat";
  model = none;
  messages = record { role = "user"; content = "hi" } ∷ [];
  max_tokens = none;
  stream = false;
  metadata = [];
  password = none;
  huggingface_id = none;
}

pub store-IsConsistent : IsConsistent store
unfolding lookup
store-IsConsistent = record {
  models_unique = (refl, (refl, tt));
  deployments_unique = (refl, (refl, tt));
  lifecycles_unique = (refl, tt);
  models_keyed = (refl, (refl, tt));
  deployments_keyed = (refl, (refl, tt));
  lifecycles_keyed = (refl, tt);
}

pub at_rest-IsWellFormed : IsWellFormed at_rest
unfolding lookup
at_rest-IsWellFormed = record { consistent = store-IsConsistent; ledger = (refl, tt) }
