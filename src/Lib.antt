-- ===== src/Lib.antt =====
-- Foundation AI Platform: a model of the core of llm_platform, which routes chat requests to language
-- models, starts and stops the containers that serve them, and shares one GPU among them.
--
-- The parts and how they interact. A chat request (ChatService.chat) resolves the model that it names,
-- takes a decision of the router, reserves GPU memory, evicts a deployment if the decision says so,
-- starts a container if one is needed, and calls the model server between an increment and a decrement
-- of the deployment's count of active requests. The router reads the registry, the ledger of GPU
-- memory and those counts. A background worker ages the lifecycle record of each idle deployment and
-- unloads what has grown cold. At the start of the application some models are pre-warmed.
--
-- Which file models what:
--   Schemas/Enums, Schemas/Records, Schemas/Gateway, Value: llm_platform/schemas, one record or data
--     type for each class, fields in the source's order and words. A JSON value is a Value.
--   Exec: llm_platform/utils/errors.py, and code that changes a state and may raise: what was written
--     before a raise stays written.
--   Registry: llm_platform/registry/service.py over the in-memory repositories of
--     llm_platform/database/repositories.py; Registry/Rows: rows of the SQLAlchemy repositories;
--     Registry/Tables: those repositories themselves, over tables as parameters.
--   Telemetry: llm_platform/schemas/telemetry.py, llm_platform/telemetry/providers.py and the telemetry
--     repositories of llm_platform/database/repositories.py (Telemetry/Rows is the one of the
--     database, Telemetry/Providers the providers over both). Floats, with their order and SQL's AVG,
--     are a parameter.
--   Concurrency: llm_platform/services/concurrency.py (increment, decrement).
--   Gpu: llm_platform/services/gpu_tracker.py (allocate, release, can_fit, find_evictable).
--   Lifecycle: llm_platform/lifecycle/manager.py (initialize, touch, reconcile).
--   Routing: llm_platform/routing/router.py. CapabilityRouter.route is one function of about 170
--     lines; Routing/Groups is its phase 1, Routing/Categories its phase 2 and Routing/Decision its
--     phase 3. What `random` draws is a parameter, of which IsRandom says what is documented.
--   Platform: the state that ChatService and the application hold, the services outside the
--     repository (Host: Docker, sockets, Hugging Face, the model server, the clock, uuid4) as a
--     parameter over an unknown World, and ChatService.unload_deployment.
--   Worker: llm_platform/services/lifecycle_worker.py (visit is the loop's body, tick a pass).
--   Boot, Boot/Containers: ChatService.deploy_vllm_container of llm_platform/services/chat.py.
--   Chat: _find_fallback_deployment; Chat/Onboarding: onboard_model; Chat/Decisions, Chat/Starts and
--     Chat/Requests: chat, in the order of its steps; Chat/Prewarming: prewarm_capabilities; all of
--     llm_platform/services/chat.py. Chat/Tasks: the same `chat`, cut at its awaits and under its locks,
--     so that many requests interleave (Task is where one stands, Shared what they share);
--     Chat/Tasks/Starting: its parts that start a container; Chat/Tasks/Advance: one part of one
--     request (advance) under its locks; Chat/Tasks/Interleaving: the interleavings, as a step relation.
--   Balanced, WellFormed: code that keeps the counts, and code that keeps the state well-formed,
--     composed as code is.
--   Serving, Compatibility, Management: llm_platform/serving/placement.py and fake_model_server.py,
--     llm_platform/compatibility, llm_platform/services/model_management.py.
--   Serving/Remote, Serving/Local: openai_compatible_remote.py and huggingface_model_server.py of
--     llm_platform/serving, with HTTP, PyTorch and Transformers as parameters; Serving/Vllm:
--     llm_platform/services/model_server.py.
--   Gateway: llm_platform/gateway/routes.py (errors, responses, list_capabilities, get_gpu_status);
--     Gateway/Routes: its handlers, one function each; Gateway/Metrics: get_inference_metrics, and
--     llm_platform/services/health.py.
--   Settings: llm_platform/utils/config_loader.py; Settings/Schema: llm_platform/schemas/config.py, and
--     the choices of llm_platform/serving/factory.py and llm_platform/bootstrap.py.
--   Plugins: llm_platform/plugins, and _build_plugins of llm_platform/bootstrap.py.
--   Cache: the memory of a cached model (_read_model_vram_from_cache, _estimate_vram_gb_from_name) of
--     llm_platform/bootstrap.py. What the file system holds is data (ModelDir, Revision, Snapshot).
--   Bootstrap: the registration of the cached models, in build_from_config of llm_platform/bootstrap.py.
--   MacServing: mac-serving/src/mac_serving, which serves one model on a Mac. MacServing/Config is
--     config.py, MacServing/Backend is backend.py and MacServing/App is app.py.
--   Samples is the data of the tests. A module Tests holds examples of its parent, and the other
--   children of a module hold proofs about it.
--
-- Bounds and fuel. Counts, ports and seconds are natural numbers, gigabytes integers. The search for a
-- port has no fuel: it recurses on the ports that are left below 65536, where `bind` raises. The poll
-- of a container's health makes the source's 360 rounds, in Chat/Tasks one in each part. The wait of MacServing/Backend for its server
-- takes as fuel a round for each millisecond to its deadline, since every round takes some time. All
-- other loops recurse on a list.
--
-- Not modelled: the cancellation of a request, the order in which asyncio serves those who wait for
-- a lock, the locks of prewarm_capabilities, the times in telemetry, the texts of the router's
-- reasons and of Docker's command line (kept as data), logging, FastAPI's routing and serialization,
-- the parsers of YAML and TOML, the wiring of objects in bootstrap.py, SQL queries (a table is read
-- and written as a whole), the estimates and the command line of mac-serving, the scripts and the
-- web page: they are text, calls of other programs or construction without a choice.
pub mod Prelude
pub mod Exec
pub mod Value
pub mod Schemas
pub mod Registry
pub mod Concurrency
pub mod Gpu
pub mod Lifecycle
pub mod Routing
pub mod Platform
pub mod Samples
pub mod WellFormed
pub mod Worker
pub mod Balanced
pub mod Boot
pub mod Chat
pub mod Serving
pub mod Compatibility
pub mod Management
pub mod Gateway
pub mod Plugins
pub mod MacServing
pub mod Bootstrap
pub mod Cache
pub mod Settings
pub mod Telemetry
