-- ===== src/Boot/Counts.antt =====
-- `deploy_vllm_container` (llm_platform/services/chat.py) leaves the counts of active requests.
use foundation_ai_platform.Prelude.{
  ℕ, zero, suc, ◌-◌, refl, Bool-cases, inl, inr, Option, none, some, not, ◌&&◌, nat_eq,
}
use foundation_ai_platform.Prelude.Int.{ℤ}
use foundation_ai_platform.Exec.{Exec, lift}
use foundation_ai_platform.Schemas.Enums.{is_ready}
use foundation_ai_platform.Schemas.Records.{ModelRecord, DeploymentRecord}
use foundation_ai_platform.Registry.{get_deployment}
use foundation_ai_platform.Platform.{Host, Utilization, Platform, outside, reads}
use foundation_ai_platform.Boot.{reserved, free_port, ports_from_8002, utilization}
use foundation_ai_platform.Boot.Containers.{
  run_docker, wait_ready, adopt_port, give_back, discarding, start_container, booted, boot_on, boot,
  deploy_vllm_container,
}
use foundation_ai_platform.Balanced.{IsBalanced, bind-IsBalanced, try-IsBalanced, if-IsBalanced}

module _ {World : Type 0} (host : Host World) where
  pub free_port-IsBalanced : (n : ℕ) → IsBalanced (free_port host n)
  unfolding free_port
  free_port-IsBalanced zero p k = refl
  free_port-IsBalanced (suc n) p k = elim (Bool-cases (reserved (65535 - n) p.reserved_ports)) [
    | inl t ↦ rw t (free_port-IsBalanced n p k)
    | inr f ↦ rw f (
        bind-IsBalanced (outside (host.bind_port (65535 - n))) _ (λ p k. refl)
          (λ b. if-IsBalanced b _ _ (λ p k. refl) (free_port-IsBalanced n)) p k)
  ]

  pub adopt_port-IsBalanced : (port : ℕ) (o : Option ℕ) → IsBalanced (adopt_port host port o)
  unfolding adopt_port
  adopt_port-IsBalanced port none p k = refl
  adopt_port-IsBalanced port (some a) p k =
      if-IsBalanced (not (nat_eq a 0) && not (nat_eq a port)) _ _ (λ p k. refl) (λ p k. refl) p k

  pub discarding-IsBalanced :
      {A : Type 0} (port : ℕ) (m : Exec (Platform World) A)
      → IsBalanced m
      → IsBalanced (discarding host port m)
  unfolding discarding give_back
  discarding-IsBalanced port m h = try-IsBalanced m (give_back host port) h (λ e p k. refl)

  start_container-IsBalanced :
      (model : ModelRecord) (port : ℕ) (u : Utilization)
      → IsBalanced (start_container host model port u)
  unfolding start_container
  start_container-IsBalanced model port u =
      bind-IsBalanced (discarding host port (outside (run_docker host model port u))) _
        (discarding-IsBalanced port (outside (run_docker host model port u)) (λ p k. refl))
        λ actual.
          bind-IsBalanced (adopt_port host port actual) _ (adopt_port-IsBalanced port actual)
            λ port'.
              bind-IsBalanced (discarding host port' (outside (wait_ready host model port'))) _
                (discarding-IsBalanced port' (outside (wait_ready host model port')) (λ p k. refl))
                λ u p k. refl

  pub booted-IsBalanced :
      (model : ModelRecord) (port : ℕ) (o : Option DeploymentRecord)
      → IsBalanced (booted host model port o)
  unfolding booted
  booted-IsBalanced model port none p k = refl
  booted-IsBalanced model port (some d) p k = refl

  boot_on-IsBalanced :
      (model : ModelRecord) (o : Option DeploymentRecord) (port : ℕ) (total : ℤ)
      → IsBalanced (boot_on host model o port total)
  unfolding boot_on
  boot_on-IsBalanced model o port total =
      bind-IsBalanced (lift (utilization total model.memory_requirement_gb)) _ (λ p k. refl)
        λ u.
          bind-IsBalanced (start_container host model port u) _
            (start_container-IsBalanced model port u)
            λ port'.
              bind-IsBalanced (booted host model port' o) _ (booted-IsBalanced model port' o)
                λ d p k. refl

  boot-IsBalanced :
      (model : ModelRecord) (o : Option DeploymentRecord) → IsBalanced (boot host model o)
  unfolding boot
  boot-IsBalanced model o =
      bind-IsBalanced (free_port host ports_from_8002) _ (free_port-IsBalanced ports_from_8002)
        λ port p k. boot_on-IsBalanced model o port _ p k

  pub deploy-IsBalanced :
      (model : ModelRecord) (o : Option DeploymentRecord)
      → IsBalanced (deploy_vllm_container host model o)
  unfolding deploy_vllm_container
  deploy-IsBalanced model none = boot-IsBalanced model none
  deploy-IsBalanced model (some d) =
      bind-IsBalanced (reads (λ r. get_deployment r d.deployment_id)) _ (λ p k. refl)
        λ r. if-IsBalanced (is_ready r.status) _ _ (λ p k. refl) (boot-IsBalanced model (some d))
