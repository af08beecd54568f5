-- ===== src/Worker/Steps.antt =====
-- What one round of the `for` loop of llm_platform/services/lifecycle_worker.py can do to a
-- deployment that the registry holds, as a step relation.
use foundation_ai_platform.Prelude.{
  ◌≡◌, ◌⊎◌, inl, inr, refl, true, false, Bool-cases, Option, none, some,
}
use foundation_ai_platform.Prelude.Dict.{lookup}
use foundation_ai_platform.Exec.{Error, Result, ok, err}
use foundation_ai_platform.Value.{truth?}
use foundation_ai_platform.Schemas.Enums.{DeploymentStatus, is_ready, is_cold}
use foundation_ai_platform.Schemas.Records.{DeploymentRecord, LifecycleRecord}
use foundation_ai_platform.Lifecycle.{LifecycleManager, reconcile}
use foundation_ai_platform.Registry.{
  get_deployment, get_lifecycle, upsert_lifecycle, update_deployment,
}
use foundation_ai_platform.Registry.Laws.{get_deployment-upsert_lifecycle}
use foundation_ai_platform.Platform.{
  Host, Platform, with_registry, release_from, active_on, remove_named, unload_deployment,
}
use foundation_ai_platform.Worker.{age, visit, reconcile_record, scale_to_zero}

-- The registry holds the deployment, and a lifecycle record under its id names that id.
pub record IsHeld {World : Type 0} (p : Platform World) (d : DeploymentRecord) : Type 0 where
  pub own : get_deployment p.registry d.deployment_id ≡ ok d
  pub life :
      (l : LifecycleRecord)
      → get_lifecycle p.registry d.deployment_id ≡ some l
      → l.deployment_id ≡ d.deployment_id

-- The tests in front of the body.
abbrev pub IsSpared : {World : Type 0} → Platform World → DeploymentRecord → Type 0
IsSpared p d =
    (is_ready d.status ≡ false)
    ⊎ (truth? (lookup "is_permanent" d.metadata) ≡ true)
    ⊎ (get_lifecycle p.registry d.deployment_id ≡ none)

pub record IsEligible {World : Type 0} (p : Platform World) (d : DeploymentRecord)
    (l : LifecycleRecord) : Type 0 where
  pub ready : is_ready d.status ≡ true
  pub temporary : truth? (lookup "is_permanent" d.metadata) ≡ false
  pub tracked : get_lifecycle p.registry d.deployment_id ≡ some l

abbrev pub as_unloaded : DeploymentRecord → DeploymentRecord
as_unloaded d = record d { status = DeploymentStatus.unloaded }

module _ {World : Type 0} (host : Host World) (manager : LifecycleManager) where
  abbrev pub aged : Platform World → DeploymentRecord → LifecycleRecord → LifecycleRecord
  aged p d l =
      reconcile manager (host.now p.world) (age (active_on p.concurrency_tracker d.deployment_id) l)

  abbrev pub after_aging : Platform World → DeploymentRecord → LifecycleRecord → Platform World
  after_aging p d l = with_registry (upsert_lifecycle (aged p d l)) p

  abbrev pub after_scaling :
      Platform World → DeploymentRecord → LifecycleRecord → World → Platform World
  after_scaling p d l w = record p {
    registry = update_deployment (as_unloaded d) (upsert_lifecycle (aged p d l) p.registry);
    gpu_tracker = release_from d.deployment_id p.gpu_tracker;
    world = w;
  }

  pub data Visited (p : Platform World) (d : DeploymentRecord)
      : Result (Unit {0}) × Platform World → Type 0 where
    spared : IsSpared p d → Visited p d (ok tt, p)
    kept :
        (l : LifecycleRecord)
        → IsEligible p d l
        → is_cold (aged p d l).state ≡ false
        → Visited p d (ok tt, after_aging p d l)
    stuck :
        (l : LifecycleRecord) (e : Error) (w : World)
        → IsEligible p d l
        → is_cold (aged p d l).state ≡ true
        → (remove_named host (lookup "container_name" d.metadata) p.world).0 ≡ err e
        → Visited p d (err e, record (after_aging p d l) { world = w })
    scaled :
        (l : LifecycleRecord) (w : World)
        → IsEligible p d l
        → is_cold (aged p d l).state ≡ true
        → Visited p d (ok tt, after_scaling p d l w)

  removed-Visited :
      (p : Platform World) (d : DeploymentRecord) (l : LifecycleRecord)
      → IsHeld p d
      → IsEligible p d l
      → is_cold (aged p d l).state ≡ true
      → (removed : Result (Unit {0}) × World)
      → remove_named host (lookup "container_name" d.metadata) p.world ≡ removed
      → Visited p d (scale_to_zero host manager d.deployment_id (aged p d l) (after_aging p d l))
  unfolding scale_to_zero unload_deployment
  removed-Visited p d l held el c (ok tt, w) e =
      rw (c, get_deployment-upsert_lifecycle, held.own, e) (scaled l w el c)
  removed-Visited p d l held el c (err x, w) e =
      rw (c, get_deployment-upsert_lifecycle, held.own, e) (stuck l x w el c (rw e))

  reconciled-Visited :
      (p : Platform World) (d : DeploymentRecord) (o : Option LifecycleRecord)
      → IsHeld p d
      → is_ready d.status ≡ true
      → truth? (lookup "is_permanent" d.metadata) ≡ false
      → get_lifecycle p.registry d.deployment_id ≡ o
      → Visited p d (reconcile_record host manager d o p)
  unfolding reconcile_record
  reconciled-Visited p d none held r t e = spared (inr (inr e))
  reconciled-Visited p d (some l) held r t e =
      let el : IsEligible p d l = record { ready = r; temporary = t; tracked = e } in
      elim (Bool-cases (is_cold (aged p d l).state)) [
        | inl c ↦ removed-Visited p d l held el c _ refl
        | inr c ↦ rw c (kept l el c)
      ]

  -- Every round takes one of these steps.
  pub visit-Visited :
      (p : Platform World) (d : DeploymentRecord)
      → IsHeld p d
      → Visited p d (visit host manager d p)
  unfolding visit
  visit-Visited p d held = elim (Bool-cases (is_ready d.status)) [
    | inr r ↦ rw r (spared (inl r))
    | inl r ↦ elim (Bool-cases (truth? (lookup "is_permanent" d.metadata))) [
      | inl t ↦ rw (r, t) (spared (inr (inl t)))
      | inr t ↦ rw (r, t) (reconciled-Visited p d _ held r t refl)
    ]
  ]
