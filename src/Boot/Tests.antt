-- ===== src/Boot/Tests.antt =====
-- The start of a container on small inputs (llm_platform/services/chat.py).
use foundation_ai_platform.Prelude.{ℕ, ◌≡◌, refl, true, false, none, some, [], ◌∷◌, arith}
use foundation_ai_platform.Prelude.Int.{◌+ℤ◌}
use foundation_ai_platform.Prelude.Dict.{lookup}
use foundation_ai_platform.Exec.{ok, err, other}
use foundation_ai_platform.Registry.{get_deployment}
use foundation_ai_platform.Registry.Laws.{IsConsistent}
use foundation_ai_platform.Platform.{Host, Platform, most}
use foundation_ai_platform.Samples.{bare, at_rest, store, tiny, phi, tiny_up}
use foundation_ai_platform.Boot.{
  discard, free_port, ports_from_8002, reserved, max_model_len, utilization, total_hardware_vram,
}
use foundation_ai_platform.Boot.Ports.{IsBindable, free_port_finds}
use foundation_ai_platform.Boot.Containers.{deploy_vllm_container}
use foundation_ai_platform.Boot.Containers.{boot_metadata}
use foundation_ai_platform.Boot.Outcomes.{deploy_runs}
use foundation_ai_platform.Schemas.Enums.{is_ready, ready}
use foundation_ai_platform.Schemas.Records.{DeploymentRecord}
use foundation_ai_platform.Boot.Releases.{deploy_gives_back}

abbrev holding : Platform ℕ
holding = record at_rest { reserved_ports = 8002 ∷ [] }

first_port : free_port bare ports_from_8002 at_rest ≡ (ok 8002, holding)
unfolding free_port
first_port = refl

second_port :
    free_port bare ports_from_8002 holding
    ≡ (ok 8003, record at_rest { reserved_ports = 8003 ∷ 8002 ∷ [] })
unfolding free_port
second_port = refl

abbrev port_a : ℕ
port_a = 8002

abbrev port_b : ℕ
port_b = 8003

bare-IsBindable : IsBindable bare 9000
bare-IsBindable = record { succeeds = λ w. refl; answers = λ j w. (true, refl) }

not_reserved : reserved 9000 holding.reserved_ports ≡ false
unfolding reserved
not_reserved = refl

free_port_finds_example : (found : ℕ) × ((free_port bare 57534 holding).0 ≡ ok found)
free_port_finds_example =
    free_port_finds bare 57534 9000 holding (omega arith) (omega arith) (omega arith) not_reserved
      bare-IsBindable

store-IsConsistent : IsConsistent store
unfolding lookup
store-IsConsistent = record {
  models_unique = (refl, (refl, tt));
  deployments_unique = (refl, (refl, tt));
  lifecycles_unique = (refl, tt);
  models_keyed = (refl, (refl, tt));
  deployments_keyed = (refl, (refl, tt));
  lifecycles_keyed = (refl, tt);
}

ready_kept : (deploy_vllm_container bare tiny (some tiny_up) at_rest).0 ≡ ok tiny_up
unfolding deploy_vllm_container get_deployment lookup
ready_kept = refl

abbrev phi_booted : DeploymentRecord
phi_booted = record {
  deployment_id = "id";
  model_id = "phi";
  endpoint = "http://127.0.0.1:8002";
  engine = "vllm";
  status = ready;
  last_used = none;
  created_at = 7;
  metadata = boot_metadata bare phi 8002 "http://127.0.0.1:8002" [];
}

phi_boots : (deploy_vllm_container bare phi none at_rest).0 ≡ ok phi_booted
unfolding deploy_vllm_container free_port max_model_len lookup utilization ◌+ℤ◌
phi_boots = refl

deploy_runs_example :
    (is_ready phi_booted.status ≡ true)
    × (get_deployment (deploy_vllm_container bare phi none at_rest).1.registry "id" ≡ ok phi_booted)
deploy_runs_example = deploy_runs bare phi none at_rest phi_booted store-IsConsistent phi_boots

-- Docker refuses to start a container.
abbrev broken : Host ℕ
broken = record bare { run_container = λ spec w. (err (other "no GPU"), w) }

-- Another start holds port 9000.
abbrev crowded : Platform ℕ
crowded = record at_rest { reserved_ports = 8002 ∷ 9000 ∷ [] }

deploy_fails : (deploy_vllm_container broken phi none crowded).0 ≡ err (other "no GPU")
unfolding deploy_vllm_container free_port max_model_len lookup utilization ◌+ℤ◌
deploy_fails = refl

still_held : reserved 9000 (deploy_vllm_container broken phi none crowded).1.reserved_ports ≡ true
unfolding deploy_vllm_container free_port max_model_len lookup discard reserved utilization ◌+ℤ◌
still_held = refl

share_of_card :
    utilization (total_hardware_vram crowded.gpu_tracker) phi.memory_requirement_gb ≡ ok most
unfolding utilization ◌+ℤ◌
share_of_card = refl

deploy_gives_back_example : reserved 9000 crowded.reserved_ports ≡ true
deploy_gives_back_example =
    deploy_gives_back broken phi none most crowded (other "no GPU") 9000 share_of_card deploy_fails
      still_held
