-- ===== src/Boot/Outcomes.antt =====
-- How `deploy_vllm_container` (llm_platform/services/chat.py) ends.
use foundation_ai_platform.Prelude.{
  ℕ, ◌≡◌, refl, ap, subst, inl, inr, true, false, Bool-cases, not, ◌&&◌, Option, none, some, List,
  ◌∷◌, if◌then◌else◌, nat_eq, arith, eq_refl,
}
use foundation_ai_platform.Prelude.Int.{ℤ}
use foundation_ai_platform.Exec.{
  Error, Exec, Result, ok, err, ok-injective, continue, pure, ◌>>=◌, ◌>>◌,
}
use foundation_ai_platform.Schemas.Enums.{is_ready}
use foundation_ai_platform.Schemas.Records.{ModelRecord, DeploymentRecord}
use foundation_ai_platform.Registry.{get_deployment, update_deployment}
use foundation_ai_platform.Registry.Laws.{IsConsistent, get_deployment-update_deployment}
use foundation_ai_platform.Registry.Listing.{get_deployment-own}
use foundation_ai_platform.Platform.{Host, Utilization, Platform, outside, writes}
use foundation_ai_platform.Boot.{reserved, discard, free_port, ports_from_8002, utilization}
use foundation_ai_platform.Boot.Ports.{reserved-discard}
use foundation_ai_platform.Boot.Containers.{
  run_docker, wait_ready, adopt_port, discarding, start_container, booted, boot_on, boot,
  deploy_vllm_container,
}

left_over :
    (k j : ℕ) (ps : List ℕ)
    → reserved k (discard j ps) ≡ true
    → (nat_eq k j ≡ false) × (reserved k ps ≡ true)
left_over k j ps h = ground (arith, reserved-discard k j ps)

adopted :
    (k a port : ℕ) (ps : List ℕ)
    → nat_eq k a ≡ false
    → reserved k (a ∷ discard a (discard port ps)) ≡ true
    → (reserved k ps ≡ true) × (nat_eq k port ≡ false)
unfolding reserved
adopted k a port ps other h =
    ground (arith, reserved-discard k a (discard port ps), reserved-discard k port ps)

-- The ports that are left when a start has failed: those of before, less the start's own.
abbrev pub GaveBack : ℕ → List ℕ → List ℕ → Type 0
GaveBack port before after =
    (k : ℕ) → reserved k after ≡ true → (reserved k before ≡ true) × (nat_eq k port ≡ false)

module _ {World : Type 0} where
  -- What holds of the result and of the state if the code does not raise.
  abbrev Ends : {A : Type 0} → (A → Platform World → Type 0) → Result A × Platform World → Type 0
  Ends {A} Q r = (a : A) → r.0 ≡ ok a → Q a r.1

  continue-Ends :
      {A B : Type 0} (Q : B → Platform World → Type 0) (r : Result A × Platform World)
      (f : A → Exec (Platform World) B)
      → ((a : A) (s : Platform World) → Ends Q (f a s))
      → Ends Q (continue r.0 f r.1)
  continue-Ends Q (ok a, s) f h b x = h a s b x
  continue-Ends Q (err e, s) f h b x = cc

  abbrev Runs : DeploymentRecord → Platform World → Type 0
  Runs d q = (is_ready d.status ≡ true) × (get_deployment q.registry d.deployment_id ≡ ok d)

module _ {World : Type 0} (host : Host World) where
  -- The record of a container that is healthy, and the write of it.
  abbrev pub recorded :
      ModelRecord → ℕ → Option DeploymentRecord → Exec (Platform World) DeploymentRecord
  recorded model port o = do
    deployment ← booted host model port o
    writes (update_deployment deployment)
    pure deployment

  recorded-Ends :
      (model : ModelRecord) (port : ℕ) (o : Option DeploymentRecord) (p : Platform World)
      → Ends Runs (recorded model port o p)
  unfolding booted
  recorded-Ends model port none p d x =
      subst (λ e. Runs e (recorded model port none p).1) (ok-injective x)
        (refl, rw (get_deployment-update_deployment, eq_refl (host.uuid4 p.world).0))
  recorded-Ends model port (some c) p d x =
      subst (λ e. Runs e (recorded model port (some c) p).1) (ok-injective x)
        (refl, rw (get_deployment-update_deployment, eq_refl c.deployment_id))

  boot_on-Ends :
      (model : ModelRecord) (o : Option DeploymentRecord) (port : ℕ) (total : ℤ)
      (p : Platform World)
      → Ends Runs (boot_on host model o port total p)
  unfolding boot_on
  boot_on-Ends model o port total p =
      continue-Ends Runs (utilization total model.memory_requirement_gb, p) _
        λ u s.
          continue-Ends Runs (start_container host model port u s) _
            λ port' t. recorded-Ends model port' o t

  boot-Ends :
      (model : ModelRecord) (o : Option DeploymentRecord) (p : Platform World)
      → Ends Runs (boot host model o p)
  unfolding boot
  boot-Ends model o p =
      continue-Ends Runs (free_port host ports_from_8002 p) _
        λ port s. boot_on-Ends model o port _ s

  fresh-Ends :
      (model : ModelRecord) (d : DeploymentRecord) (p : Platform World)
      (r : Result DeploymentRecord)
      → ((c : DeploymentRecord) → r ≡ ok c → get_deployment p.registry c.deployment_id ≡ ok c)
      → Ends Runs
          (continue r (λ c. if is_ready c.status then pure c else boot host model (some d)) p)
  fresh-Ends model d p (err e) h b x = cc
  fresh-Ends model d p (ok c) h b x = elim (Bool-cases (is_ready c.status)) [
    | inl t ↦
        let same : c ≡ b = ok-injective (ap (λ y. y) (rw t at x)) in
        rw t (subst (λ y. Runs y p) same (t, h c refl))
    | inr f ↦ rw f (boot-Ends model (some d) p b (rw f at x))
  ]

  -- Over a consistent registry, a deployment that is returned is ready and is what the registry
  -- holds under its id: the one that another request has booted, the given one brought up again, or
  -- a new one.
  pub deploy_runs :
      (model : ModelRecord) (o : Option DeploymentRecord) (p : Platform World)
      (d : DeploymentRecord)
      → IsConsistent p.registry
      → (deploy_vllm_container host model o p).0 ≡ ok d
      → (is_ready d.status ≡ true)
        × (get_deployment (deploy_vllm_container host model o p).1.registry d.deployment_id ≡ ok d)
  unfolding deploy_vllm_container
  deploy_runs model none p d w x = boot-Ends model none p d x
  deploy_runs model (some c) p d w x =
      fresh-Ends model c p (get_deployment p.registry c.deployment_id)
        (λ e y. get_deployment-own p.registry w c.deployment_id e y) d x

  -- The wait for the container, its outcome given.
  abbrev waited : ℕ → Result (Unit {0}) × World → Exec (Platform World) ℕ
  waited port r = do discarding host port (λ q. (r.0, record q { world = r.1 })); pure port

  waited-GaveBack :
      (port port' : ℕ) (before : List ℕ) (s : Platform World) (r : Result (Unit {0}) × World)
      (e : Error)
      → ((k : ℕ)
          → nat_eq k port' ≡ false
          → reserved k s.reserved_ports ≡ true
          → (reserved k before ≡ true) × (nat_eq k port ≡ false))
      → (waited port' r s).0 ≡ err e
      → GaveBack port before (waited port' r s).1.reserved_ports
  unfolding discarding
  waited-GaveBack port port' before s (ok tt, w) e h x k m = cc
  waited-GaveBack port port' before s (err y, w) e h x k m =
      let (other, there) = left_over k port' s.reserved_ports m in h k other there

  abbrev started : ModelRecord → ℕ → Result (Option ℕ) × World → Exec (Platform World) ℕ
  started model port r = do
    actual ← discarding host port (λ q. (r.0, record q { world = r.1 }))
    port' ← adopt_port host port actual
    discarding host port' (outside (wait_ready host model port'))
    pure port'

  started-GaveBack :
      (model : ModelRecord) (port : ℕ) (p : Platform World) (r : Result (Option ℕ) × World)
      (e : Error)
      → (started model port r p).0 ≡ err e
      → GaveBack port p.reserved_ports (started model port r p).1.reserved_ports
  unfolding discarding adopt_port
  started-GaveBack model port p (err y, w) e x k m =
      let (other, there) = left_over k port p.reserved_ports m in (there, other)
  started-GaveBack model port p (ok none, w) e x k m =
      waited-GaveBack port port p.reserved_ports (record p { world = w })
        (wait_ready host model port w) e (λ k other there. (there, other)) x k m
  started-GaveBack model port p (ok (some a), w) e x k m =
      elim (Bool-cases (not (nat_eq a 0) && not (nat_eq a port))) [
        | inr f ↦
            (waited-GaveBack port port p.reserved_ports (record p { world = w })
              (wait_ready host model port w) e (λ k other there. (there, other)) (rw f at x) k
              (rw f at m))
        | inl t ↦
            (waited-GaveBack port a p.reserved_ports
              (record p {
                world = w;
                reserved_ports = a ∷ discard a (discard port p.reserved_ports);
              })
              (wait_ready host model a w) e
              (λ k other there. adopted k a port p.reserved_ports other there) (rw t at x) k
              (rw t at m))
      ]

  -- A start that fails, at whatever point, leaves its port free, the one of a container that it
  -- found as well, and reserves none that was not reserved before.
  pub start_container-GaveBack :
      (model : ModelRecord) (port : ℕ) (u : Utilization) (p : Platform World) (e : Error)
      → (start_container host model port u p).0 ≡ err e
      → GaveBack port p.reserved_ports (start_container host model port u p).1.reserved_ports
  unfolding start_container
  start_container-GaveBack model port u p e x =
      started-GaveBack model port p (run_docker host model port u p.world) e x
