-- ===== src/Boot/Releases.antt =====
-- The ports that are reserved once `deploy_vllm_container` (llm_platform/services/chat.py) has
-- raised.
use foundation_ai_platform.Prelude.{
  ℕ, zero, suc, ◌-◌, ◌≡◌, ◌≢◌, refl, sym, ap, ◌∙◌, Bool, if◌then◌else◌, inl, inr, true, false,
  Bool-cases, Option, none, some, List, ◌∷◌, arith,
}
use foundation_ai_platform.Exec.{Error, Exec, Result, ok, err, continue, pure}
use foundation_ai_platform.Schemas.Enums.{is_ready}
use foundation_ai_platform.Schemas.Records.{ModelRecord, DeploymentRecord}
use foundation_ai_platform.Registry.{get_deployment}
use foundation_ai_platform.Gpu.{GpuTracker}
use foundation_ai_platform.Platform.{Host, Utilization, Platform}
use foundation_ai_platform.Boot.{
  reserved, free_port, ports_from_8002, utilization, total_hardware_vram,
}
use foundation_ai_platform.Boot.Ports.{bound_then}
use foundation_ai_platform.Boot.Containers.{
  start_container, booted, boot_on, boot, deploy_vllm_container,
}
use foundation_ai_platform.Boot.Outcomes.{GaveBack, start_container-GaveBack, recorded}

ok≢err : {A : Type 0} {a : A} {e : Error} → ok a ≢ err e
ok≢err x = cc

-- Every port that is reserved after was reserved before.
abbrev Within : List ℕ → List ℕ → Type 0
Within before after = (k : ℕ) → reserved k after ≡ true → reserved k before ≡ true

Within-of_same : (before after : List ℕ) → after ≡ before → Within before after
Within-of_same before after same k m = rw (sym same) m

Within-of_GaveBack :
    (port : ℕ) (before holding after : List ℕ)
    → holding ≡ port ∷ before
    → GaveBack port holding after
    → Within before after
unfolding reserved
Within-of_GaveBack port before holding after held back k m =
    let (there, other) = back k m in ground (arith, there, other, held)

module _ {World : Type 0} where
  -- What holds of the state, if the code raises.
  abbrev Fails : {A : Type 0} → (Platform World → Type 0) → Result A × Platform World → Type 0
  Fails Q r = (e : Error) → r.0 ≡ err e → Q r.1

  continue-Fails :
      {A B : Type 0} (Q : Platform World → Type 0) (r : Result A × Platform World)
      (f : A → Exec (Platform World) B)
      → Fails Q r
      → ((a : A) → Fails Q (f a r.1))
      → Fails Q (continue r.0 f r.1)
  continue-Fails Q (ok a, s) f now later e x = later a e x
  continue-Fails Q (err e, s) f now later b x = now e refl

  -- A search reserves the port that it finds, and none if it raises.
  abbrev Searched : Option GpuTracker → List ℕ → Result ℕ × Platform World → Type 0
  Searched t ports (ok port, q) = (q.gpu_tracker ≡ t) × (q.reserved_ports ≡ port ∷ ports)
  Searched t ports (err e, q) = (q.gpu_tracker ≡ t) × (q.reserved_ports ≡ ports)

module _ {World : Type 0} (host : Host World) where
  bound-Searched :
      (n : ℕ) (p : Platform World) (r : Result Bool × World)
      → ((s : Platform World) → Searched s.gpu_tracker s.reserved_ports (free_port host n s))
      → Searched p.gpu_tracker p.reserved_ports (bound_then host n p r)
  bound-Searched n p (err e, w) later = (refl, refl)
  bound-Searched n p (ok true, w) later = (refl, refl)
  bound-Searched n p (ok false, w) later = later (record p { world = w })

  free_port-Searched :
      (n : ℕ) (p : Platform World) → Searched p.gpu_tracker p.reserved_ports (free_port host n p)
  unfolding free_port
  free_port-Searched zero p = (refl, refl)
  free_port-Searched (suc n) p = elim (Bool-cases (reserved (65535 - n) p.reserved_ports)) [
    | inl t ↦ rw t (free_port-Searched n p)
    | inr f ↦ rw f (bound-Searched n p (host.bind_port (65535 - n) p.world) (free_port-Searched n))
  ]

  recorded-Fails :
      (Q : Platform World → Type 0) (model : ModelRecord) (port : ℕ) (o : Option DeploymentRecord)
      (p : Platform World)
      → Fails Q (recorded host model port o p)
  unfolding booted
  recorded-Fails Q model port none p e x = cc
  recorded-Fails Q model port (some c) p e x = cc

  module _ (model : ModelRecord) (o : Option DeploymentRecord) (u : Utilization)
      (p : Platform World)
      (ratio : utilization (total_hardware_vram p.gpu_tracker) model.memory_requirement_gb
        ≡ ok u) where
    abbrev Frees : Platform World → Type 0
    Frees q = Within p.reserved_ports q.reserved_ports

    boot_on-Fails :
        (r : Result ℕ × Platform World)
        → Searched p.gpu_tracker p.reserved_ports r
        → Fails Frees (
            continue r.0
              (λ port q. boot_on host model o port (total_hardware_vram q.gpu_tracker) q)
              r.1)
    unfolding boot_on
    boot_on-Fails (err e, q) (_, same) =
        λ b x. Within-of_same p.reserved_ports q.reserved_ports same
    boot_on-Fails (ok port, q) (card, held) =
        let total = total_hardware_vram q.gpu_tracker in
        continue-Fails Frees (utilization total model.memory_requirement_gb, q) _
          (λ e x. absurd (
            ok≢err (
              sym ratio
              ∙ ap (λ t. utilization (total_hardware_vram t) model.memory_requirement_gb) (sym card)
              ∙ x)))
          (λ v.
            continue-Fails Frees (start_container host model port v q) _
              (λ e x.
                Within-of_GaveBack port p.reserved_ports q.reserved_ports _ held
                  (start_container-GaveBack host model port v q e x))
              (λ port'. recorded-Fails Frees model port' o _))

    boot-Fails : Fails Frees (boot host model o p)
    unfolding boot
    boot-Fails =
        boot_on-Fails (free_port host ports_from_8002 p) (free_port-Searched ports_from_8002 p)

  fresh-Fails :
      (Q : Platform World → Type 0) (model : ModelRecord) (d : DeploymentRecord)
      (p : Platform World) (r : Result DeploymentRecord)
      → Q p
      → Fails Q (boot host model (some d) p)
      → Fails Q (continue r (λ c. if is_ready c.status then pure c else boot host model (some d)) p)
  fresh-Fails Q model d p (err e) now later b x = now
  fresh-Fails Q model d p (ok c) now later b x = elim (Bool-cases (is_ready c.status)) [
    | inl t ↦ absurd (ok≢err (rw t at x))
    | inr f ↦ rw f (later b (rw f at x))
  ]

  -- A start that raises, at whatever point, reserves no port that was not reserved before, where the
  -- share of the memory of the card can be computed.
  pub deploy_gives_back :
      (model : ModelRecord) (o : Option DeploymentRecord) (u : Utilization) (p : Platform World)
      (e : Error) (k : ℕ)
      → utilization (total_hardware_vram p.gpu_tracker) model.memory_requirement_gb ≡ ok u
      → (deploy_vllm_container host model o p).0 ≡ err e
      → reserved k (deploy_vllm_container host model o p).1.reserved_ports ≡ true
      → reserved k p.reserved_ports ≡ true
  unfolding deploy_vllm_container
  deploy_gives_back model none u p e k ratio x = boot-Fails model none u p ratio e x k
  deploy_gives_back model (some d) u p e k ratio x =
      fresh-Fails (Frees model (some d) u p ratio) model d p
        (get_deployment p.registry d.deployment_id) (λ k m. m) (boot-Fails model (some d) u p ratio)
        e x k
