-- ===== src/Boot/Containers.antt =====
-- The rest of `deploy_vllm_container` of llm_platform/services/chat.py.
use foundation_ai_platform.Prelude.{
  ℕ, zero, suc, String, Bool, true, false, not, ◌&&◌, Option, none, some, [], ◌∷◌, if◌then◌else◌,
  nat_eq, ◌<>◌,
}
use foundation_ai_platform.Prelude.Int.{ℤ, pos}
use foundation_ai_platform.Prelude.Dict.{lookup, insert}
use foundation_ai_platform.Prelude.Texts.{str}
use foundation_ai_platform.Exec.{Error, Exec, ok, other, pure, raise, lift, try_except, ◌>>=◌, ◌>>◌}
use foundation_ai_platform.Value.{Value, null, int, text, Metadata}
use foundation_ai_platform.Schemas.Enums.{is_ready, ready}
use foundation_ai_platform.Schemas.Records.{ModelRecord, DeploymentRecord}
use foundation_ai_platform.Registry.{get_deployment, update_deployment}
use foundation_ai_platform.Platform.{
  Host, Container, Utilization, Platform, outside, reads, writes, remove_found,
}
use foundation_ai_platform.Boot.{
  discard, on_ports, free_port, ports_from_8002, container_name_of, utilization,
  total_hardware_vram, max_model_len,
}

module _ {World : Type 0} (host : Host World) where
  run_new : ModelRecord → ℕ → Utilization → Exec World (Option ℕ)
  run_new model port u = do
    len ← lift (max_model_len model.name (lookup "max_context_length" model.metadata))
    host.run_container (record {
      name = container_name_of model.name;
      model = model.name;
      port = port;
      utilization = u;
      max_model_len = len;
      eagle_head = model.vllm_eagle_head;
    })
    pure none

  replace_found : ModelRecord → ℕ → Utilization → Option Container → Exec World (Option ℕ)
  unfolding run_new
  replace_found model port u none = run_new model port u
  replace_found model port u (some c) =
      if c.running
      then pure c.port_argument
      else (do host.remove_container (text (container_name_of model.name)); run_new model port u)

  -- A running container is left alone; the answer is the port of its command, if it has one.
  unfoldable pub run_docker : ModelRecord → ℕ → Utilization → Exec World (Option ℕ)
  unfolding replace_found
  run_docker model port u = do
    found ← host.get_container (text (container_name_of model.name))
    replace_found model port u found

  unfoldable pub adopt_port : ℕ → Option ℕ → Exec (Platform World) ℕ
  adopt_port port none = pure port
  adopt_port port (some actual) =
      if not (nat_eq actual 0) && not (nat_eq actual port)
      then (do on_ports (discard port); on_ports (λ ps. actual ∷ discard actual ps); pure actual)
      else pure port

  unfoldable pub poll : ℕ → ℕ → Exec World Bool
  poll port zero = pure false
  poll port (suc n) = do answered ← host.answers port; if answered then pure true else poll port n

  cleanup_docker : String → Exec World (Unit {0})
  cleanup_docker name = do
    found ← host.get_container (text name)
    remove_found host (text name) found

  unfoldable pub give_up : {A : Type 0} → ModelRecord → Exec World A
  unfolding cleanup_docker
  give_up model = do
    cleanup_docker (container_name_of model.name)
    raise (other ("vLLM container for " <> model.name <> " failed to become healthy"))

  -- 30 minutes.
  unfoldable pub wait_ready : ModelRecord → ℕ → Exec World (Unit {0})
  unfolding poll give_up
  wait_ready model port = do healthy ← poll port 360; if healthy then pure tt else give_up model

  unfoldable pub give_back : {A : Type 0} → ℕ → Error → Exec (Platform World) A
  give_back port e = do on_ports (discard port); raise e

  -- `except Exception: self._reserved_ports.discard(port); raise`
  unfoldable pub discarding : {A : Type 0} → ℕ → Exec (Platform World) A → Exec (Platform World) A
  unfolding give_back
  discarding port body = try_except body (give_back port)

  unfoldable pub start_container : ModelRecord → ℕ → Utilization → Exec (Platform World) ℕ
  unfolding run_docker adopt_port wait_ready discarding
  start_container model port u = do
    actual ← discarding port (outside (run_docker model port u))
    port' ← adopt_port port actual
    discarding port' (outside (wait_ready model port'))
    pure port'

  head_value : Option String → Value
  head_value none = null
  head_value (some head) = text head

  unfoldable pub boot_metadata : ModelRecord → ℕ → String → Metadata → Metadata
  unfolding head_value
  boot_metadata model port endpoint md = insert "eagle_head" (head_value model.vllm_eagle_head) (
      insert "remote_model_name" (text model.name) (
        insert "base_url" (text endpoint) (
          insert "container_name" (text (container_name_of model.name))
            (insert "port" (int (pos port)) md))))

  endpoint_at : ℕ → String
  endpoint_at port = "http://127.0.0.1:" <> str port

  -- The record of a deployment that runs; a new one draws an id.
  unfoldable pub booted :
      ModelRecord → ℕ → Option DeploymentRecord → Exec (Platform World) DeploymentRecord
  unfolding boot_metadata endpoint_at
  booted model port (some d) p = (
    ok (record d {
      endpoint = endpoint_at port;
      status = ready;
      metadata = boot_metadata model port (endpoint_at port) d.metadata;
    }),
    p,
  )
  booted model port none p =
      let (id, w) = host.uuid4 p.world in
      (
        ok (record {
          deployment_id = id;
          model_id = model.id;
          endpoint = endpoint_at port;
          engine = "vllm";
          status = ready;
          last_used = none;
          created_at = host.now p.world;
          metadata = boot_metadata model port (endpoint_at port) [];
        }),
        record p { world = w },
      )

  unfoldable pub boot_on :
      ModelRecord → Option DeploymentRecord → ℕ → ℤ → Exec (Platform World) DeploymentRecord
  unfolding start_container booted
  boot_on model existing port total = do
    u ← lift (utilization total model.memory_requirement_gb)
    port' ← start_container model port u
    deployment ← booted model port' existing
    writes (update_deployment deployment)
    pure deployment

  unfoldable pub boot :
      ModelRecord → Option DeploymentRecord → Exec (Platform World) DeploymentRecord
  unfolding boot_on
  boot model existing = do
    port ← free_port host ports_from_8002
    λ p. boot_on model existing port (total_hardware_vram p.gpu_tracker) p

  -- Under the boot lock a deployment that another request has booted is returned as it is.
  unfoldable pub deploy_vllm_container :
      ModelRecord → Option DeploymentRecord → Exec (Platform World) DeploymentRecord
  unfolding boot
  deploy_vllm_container model none = boot model none
  deploy_vllm_container model (some d) = do
    refreshed ← reads (λ r. get_deployment r d.deployment_id)
    if is_ready refreshed.status then pure refreshed else boot model (some d)
