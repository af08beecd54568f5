-- ===== src/Platform.antt =====
-- What ChatService and the application hold (llm_platform/services/chat.py and bootstrap.py), and
-- the services outside the repository that they call: Docker, the clock and `uuid4`. One request or
-- one pass of the worker runs alone, between two of its `await`s as well.
use foundation_ai_platform.Prelude.{
  ℕ, eq_refl, ◌≡◌, refl, ◌∙◌, String, Bool, Option, none, some, List, if◌then◌else◌, Bool-cases,
  inl, inr, Bool-cases, inl, inr,
}
use foundation_ai_platform.Prelude.Int.{ℤ}
use foundation_ai_platform.Prelude.Dict.{lookup, NodupKeys, erase-NodupKeys, lookup-erase}
use foundation_ai_platform.Exec.{Exec, Result, ok, err, continue, pure, modify, ◌>>=◌, ◌>>◌}
use foundation_ai_platform.Value.{Value, truth}
use foundation_ai_platform.Schemas.Enums.{DeploymentStatus}
use foundation_ai_platform.Schemas.Records.{Timestamp, DeploymentRecord, ValidationReport}
use foundation_ai_platform.Schemas.Gateway.{ChatCompletionRequest}
use foundation_ai_platform.Concurrency.{ConcurrencyTracker, get_active_requests}
use foundation_ai_platform.Gpu.{GpuTracker}
use foundation_ai_platform.Gpu
use foundation_ai_platform.Registry.Laws.{IsConsistent}
use foundation_ai_platform.Registry.{Registry, get_deployment, update_deployment, get_lifecycle}

-- TelemetryEvent of llm_platform/schemas/telemetry.py as `chat` fills it, without its times.
pub record TelemetryEvent : Type 0 where
  pub request_id : String
  pub deployment_id : String
  pub model_name : String
  pub completion_tokens : ℕ
  pub speculative_decoding : Bool
  pub cold_start : Bool
  pub new_instance : Bool
  pub evicted : Option String

-- A container of the Docker client: the port that its command names, if it can be read.
pub record Container : Type 0 where
  pub running : Bool
  pub port_argument : Option ℕ

-- `min(0.95, ratio)`, where the ratio is of tenths of a gigabyte to gigabytes.
pub data Utilization : Type 0 where
  most : Utilization
  share : (tenths_gb total_gb : ℤ) → Utilization

-- What the command of a container is made from.
pub record ContainerSpec : Type 0 where
  pub name : String
  pub model : String
  pub port : ℕ
  pub utilization : Utilization
  pub max_model_len : Value
  pub eagle_head : Option String

-- The world outside, of which nothing is known but through the calls.
pub record Host (World : Type 0) : Type 0 where
  -- `client.containers.get(name)`, with `none` for `docker.errors.NotFound`
  pub get_container : Value → Exec World (Option Container)
  -- `container.remove(force=True)`
  pub remove_container : Value → Exec World (Unit {0})
  -- whether `bind(("127.0.0.1", port))` succeeds
  pub bind_port : ℕ → Exec World Bool
  -- `client.containers.run(...)`
  pub run_container : ContainerSpec → Exec World (Unit {0})
  -- whether a `GET /v1/models` on the port answers 200 before the timeout, and the pause behind it
  pub answers : ℕ → Exec World Bool
  -- `inspect_huggingface_repo(repo)` and `snapshot_download(repo)`
  pub inspect : String → Exec World ValidationReport
  pub snapshot_download : String → Exec World (Unit {0})
  -- `model_server.generate(deployment, request)`
  pub generate : DeploymentRecord → ChatCompletionRequest → Exec World String
  pub now : World → Timestamp
  pub uuid4 : World → String × World

-- A Docker daemon that answers: a removal of a container that was found succeeds.
pub record IsWorking {World : Type 0} (host : Host World) : Type 0 where
  pub get_answers :
      (name : Value) (w : World) → (o : Option Container) × ((host.get_container name w).0 ≡ ok o)
  pub remove_answers : (name : Value) (w : World) → (host.remove_container name w).0 ≡ ok tt

pub record Platform (World : Type 0) : Type 0 where
  pub registry : Registry
  pub gpu_tracker : Option GpuTracker
  pub concurrency_tracker : Option ConcurrencyTracker
  pub reserved_ports : List ℕ
  pub events : List TelemetryEvent
  pub world : World

-- `if self._gpu_tracker: self._gpu_tracker.release(...)`
abbrev pub release_from : String → Option GpuTracker → Option GpuTracker
release_from id none = none
release_from id (some t) = some (Gpu.release id t)

abbrev pub HasLedger : Option GpuTracker → Type 0
HasLedger none = Unit
HasLedger (some t) = NodupKeys t.allocated

pub HasLedger-release :
    (id : String) (o : Option GpuTracker) → HasLedger o → HasLedger (release_from id o)
unfolding Gpu.release
HasLedger-release id none h = h
HasLedger-release id (some t) h = erase-NodupKeys id t.allocated h

-- What the ledger notes for a deployment.
abbrev pub memory_of : Option GpuTracker → String → Option ℤ
memory_of none id = none
memory_of (some t) id = lookup id t.allocated

pub memory_of-release :
    (id : String) (o : Option GpuTracker) → HasLedger o → memory_of (release_from id o) id ≡ none
unfolding Gpu.release
memory_of-release id none h = refl
memory_of-release id (some t) h = rw (lookup-erase id id t.allocated h, eq_refl id)

abbrev pub active_on : Option ConcurrencyTracker → String → ℕ
active_on none id = 0
active_on (some t) id = get_active_requests t id

-- Each dict holds a key once, and the registry each record under its own id.
pub record IsWellFormed {World : Type 0} (p : Platform World) : Type 0 where
  pub consistent : IsConsistent p.registry
  pub ledger : HasLedger p.gpu_tracker

-- Two states agree on everything that concerns one deployment.
pub record SameAt {World : Type 0} (id : String) (p q : Platform World) : Type 0 where
  pub deployment : get_deployment p.registry id ≡ get_deployment q.registry id
  pub lifecycle : get_lifecycle p.registry id ≡ get_lifecycle q.registry id
  pub memory : memory_of p.gpu_tracker id ≡ memory_of q.gpu_tracker id
  pub active : active_on p.concurrency_tracker id ≡ active_on q.concurrency_tracker id

module _ {World : Type 0} where
  pub SameAt-refl : (id : String) (p : Platform World) → SameAt id p p
  SameAt-refl id p = record { deployment = refl; lifecycle = refl; memory = refl; active = refl }

  pub SameAt-trans :
      {id : String} {p q r : Platform World} → SameAt id p q → SameAt id q r → SameAt id p r
  SameAt-trans s t = record {
    deployment = s.deployment ∙ t.deployment;
    lifecycle = s.lifecycle ∙ t.lifecycle;
    memory = s.memory ∙ t.memory;
    active = s.active ∙ t.active;
  }

  abbrev pub with_registry : (Registry → Registry) → Platform World → Platform World
  with_registry f p = record p { registry = f p.registry }

  -- A call of the world outside.
  abbrev pub outside : {A : Type 0} → Exec World A → Exec (Platform World) A
  outside call p = let (r, w) = call p.world in (r, record p { world = w })

  -- A read of the registry, which may raise.
  abbrev pub reads : {A : Type 0} → (Registry → Result A) → Exec (Platform World) A
  reads f p = (f p.registry, p)

  abbrev pub writes : (Registry → Registry) → Exec (Platform World) (Unit {0})
  writes f = modify (with_registry f)

  abbrev pub release_memory : String → Exec (Platform World) (Unit {0})
  release_memory id = modify (λ p. record p { gpu_tracker = release_from id p.gpu_tracker })

module _ {World : Type 0} (host : Host World) where
  -- `container.remove(force=True)` of a container that is there.
  unfoldable pub remove_found : Value → Option Container → Exec World (Unit {0})
  remove_found name none = pure tt
  remove_found name (some c) = host.remove_container name

  unfoldable pub remove_named : Option Value → Exec World (Unit {0})
  unfolding remove_found
  remove_named none = pure tt
  remove_named (some name) =
      if truth name then (do found ← host.get_container name; remove_found name found) else pure tt

  unfoldable pub unload_deployment : String → Exec (Platform World) (Unit {0})
  unfolding remove_named
  unload_deployment deployment_id = do
    deployment ← reads (λ r. get_deployment r deployment_id)
    outside (remove_named (lookup "container_name" deployment.metadata))
    writes (update_deployment (record deployment { status = DeploymentStatus.unloaded }))

module _ {World : Type 0} (host : Host World) (works : IsWorking host) where
  remove_found-ok :
      (name : Value) (o : Option Container) (w : World) → (remove_found host name o w).0 ≡ ok tt
  unfolding remove_found
  remove_found-ok name none w = refl
  remove_found-ok name (some c) w = works.remove_answers name w

  continue_found-ok :
      (name : Value) (r : Result (Option Container) × World)
      → (o : Option Container) × (r.0 ≡ ok o)
      → (continue r.0 (remove_found host name) r.1).0 ≡ ok tt
  continue_found-ok name (ok o, w) h = remove_found-ok name o w
  continue_found-ok name (err e, w) (o, h) = cc

  pub remove_named-ok : (name : Option Value) (w : World) → (remove_named host name w).0 ≡ ok tt
  unfolding remove_named
  remove_named-ok none w = refl
  remove_named-ok (some name) w = elim (Bool-cases (truth name)) [
    | inl t ↦ rw t (continue_found-ok name (host.get_container name w) (works.get_answers name w))
    | inr t ↦ rw t
  ]
