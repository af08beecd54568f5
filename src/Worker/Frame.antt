-- ===== src/Worker/Frame.antt =====
-- A round of the loop of llm_platform/services/lifecycle_worker.py, and a whole pass, seen from one
-- deployment.
use foundation_ai_platform.Prelude.{
  ℕ, String, ◌≡◌, refl, sym, ◌∙◌, false, Option, none, some, ◌==◌, arith,
}
use foundation_ai_platform.Prelude.Dict.{lookup-erase_other}
use foundation_ai_platform.Exec.{Result}
use foundation_ai_platform.Schemas.Records.{DeploymentRecord, LifecycleRecord}
use foundation_ai_platform.Lifecycle.{LifecycleManager}
use foundation_ai_platform.Lifecycle.Policy.{reconcile_fields}
use foundation_ai_platform.Gpu.{GpuTracker, release}
use foundation_ai_platform.Registry.Laws.{
  upsert_lifecycle-IsConsistent, update_deployment-IsConsistent, get_lifecycle-upsert_lifecycle,
  get_lifecycle-update_deployment, get_deployment-update_deployment,
  get_deployment-upsert_lifecycle,
}
use foundation_ai_platform.Platform.{
  Host, Platform, IsWellFormed, HasLedger-release, active_on, SameAt, SameAt-refl, memory_of,
  release_from,
}
use foundation_ai_platform.Worker.{age}
use foundation_ai_platform.Worker.Steps.{
  IsHeld, IsEligible, Visited, spared, kept, stuck, scaled, aged,
}

memory_of-release_other :
    (id j : String) (o : Option GpuTracker)
    → (id == j) ≡ false
    → memory_of (release_from id o) j ≡ memory_of o j
unfolding release
memory_of-release_other id j none h = refl
memory_of-release_other id j (some t) h = lookup-erase_other id j t.allocated h

age_id : (active : ℕ) (l : LifecycleRecord) → (age active l).deployment_id ≡ l.deployment_id
unfolding age
age_id active l = ground arith

module _ {World : Type 0} (host : Host World) (manager : LifecycleManager) where
  pub aged_id :
      (p : Platform World) (d : DeploymentRecord) (l : LifecycleRecord)
      → IsHeld p d
      → IsEligible p d l
      → (aged host manager p d l).deployment_id ≡ d.deployment_id
  aged_id p d l held el =
      let active = active_on p.concurrency_tracker d.deployment_id in
      let (_, _, same) = reconcile_fields manager (host.now p.world) (age active l) in
      same ∙ age_id active l ∙ held.life l el.tracked

  -- A round touches nothing that concerns another deployment.
  pub Visited-SameAt :
      (p : Platform World) (d : DeploymentRecord) (r : Result (Unit {0}) × Platform World)
      → IsHeld p d
      → Visited host manager p d r
      → (j : String) → (d.deployment_id == j) ≡ false
      → SameAt j p r.1
  Visited-SameAt p d r held (spared s) j h = SameAt-refl j p
  Visited-SameAt p d r held (kept l el c) j h = record {
    deployment = rw get_deployment-upsert_lifecycle;
    lifecycle = rw (get_lifecycle-upsert_lifecycle, aged_id p d l held el, h);
    memory = refl;
    active = refl;
  }
  Visited-SameAt p d r held (stuck l e w el c x) j h = record {
    deployment = rw get_deployment-upsert_lifecycle;
    lifecycle = rw (get_lifecycle-upsert_lifecycle, aged_id p d l held el, h);
    memory = refl;
    active = refl;
  }
  Visited-SameAt p d r held (scaled l w el c) j h = record {
    deployment = rw (get_deployment-update_deployment, h, get_deployment-upsert_lifecycle);
    lifecycle =
        rw (
          get_lifecycle-update_deployment,
          get_lifecycle-upsert_lifecycle,
          aged_id p d l held el,
          h,
        );
    memory = sym (memory_of-release_other d.deployment_id j p.gpu_tracker h);
    active = refl;
  }

  -- A round keeps the state well-formed.
  pub Visited-IsWellFormed :
      (p : Platform World) (d : DeploymentRecord) (r : Result (Unit {0}) × Platform World)
      → Visited host manager p d r
      → IsWellFormed p
      → IsWellFormed r.1
  Visited-IsWellFormed p d r (spared s) w = w
  Visited-IsWellFormed p d r (kept l el c) w = record {
    consistent = upsert_lifecycle-IsConsistent _ _ w.consistent;
    ledger = w.ledger;
  }
  Visited-IsWellFormed p d r (stuck l e x el c y) w = record {
    consistent = upsert_lifecycle-IsConsistent _ _ w.consistent;
    ledger = w.ledger;
  }
  Visited-IsWellFormed p d r (scaled l x el c) w = record {
    consistent =
        update_deployment-IsConsistent _ _ (upsert_lifecycle-IsConsistent _ _ w.consistent);
    ledger = HasLedger-release d.deployment_id p.gpu_tracker w.ledger;
  }
