-- ===== src/Worker/Protection.antt =====
-- What the lifecycle worker (llm_platform/services/lifecycle_worker.py) leaves alone.
use foundation_ai_platform.Prelude.{
  ℕ, ◌<◌, ◌≡◌, ◌≢◌, ◌⊎◌, inl, inr, refl, sym, ◌∙◌, Bool, true, false, arith, All, All-of_Elem, Elem,
}
use foundation_ai_platform.Prelude.Dict.{lookup}
use foundation_ai_platform.Exec.{Result, ok, err, pure, try_except}
use foundation_ai_platform.Value.{truth?}
use foundation_ai_platform.Schemas.Enums.{is_ready, is_cold}
use foundation_ai_platform.Schemas.Records.{Timestamp, DeploymentRecord, LifecycleRecord}
use foundation_ai_platform.Lifecycle.{LifecycleManager, next_state, reconcile}
use foundation_ai_platform.Registry.{get_deployment, list_deployments}
use foundation_ai_platform.Registry.Laws.{get_deployment-list, get_deployment-upsert_lifecycle}
use foundation_ai_platform.Registry.Listing.{
  list_deployments-Distinct, list_deployments-Elem, get_lifecycle-id,
}
use foundation_ai_platform.Platform.{
  Host, IsWellFormed, Platform, SameAt, SameAt-refl, SameAt-trans, active_on, memory_of,
}
use foundation_ai_platform.Worker.{age, tick}
use foundation_ai_platform.Worker.Steps.{IsHeld, IsEligible, Visited, spared, kept, stuck, scaled}
use foundation_ai_platform.Worker.Pass.{Outcome, pass, pass-Outcome, pass-IsWellFormed}

-- A busy deployment does not grow cold, unless the policy is to unload at once.
aged_busy :
    (m : LifecycleManager) (now : Timestamp) (active : ℕ) (l : LifecycleRecord)
    → 0 < active
    → 0 < m.cold_after_seconds
    → is_cold (reconcile m now (age active l)).state ≡ false
unfolding age reconcile next_state
aged_busy m now active l a c = ground arith

pub not_both : (b : Bool) → b ≡ true → b ≢ false
not_both b h k = cc

caught-state :
    {World : Type 0} (p : Platform World) (r : Result (Unit {0}) × Platform World)
    → (try_except (λ _. r) (λ e. pure tt) p).1 ≡ r.1
caught-state p (ok tt, q) = refl
caught-state p (err e, q) = refl

-- What the worker leaves alone whatever its idle time.
abbrev IsFixed : DeploymentRecord → Type 0
IsFixed d = (is_ready d.status ≡ false) ⊎ (truth? (lookup "is_permanent" d.metadata) ≡ true)

module _ {World : Type 0} (host : Host World) (manager : LifecycleManager) where
  module _ (p : Platform World) (w : IsWellFormed p) where
    IsHeld-of : (d : DeploymentRecord) → Elem d (list_deployments p.registry) → IsHeld p d
    IsHeld-of d m = record {
      own = get_deployment-list p.registry d w.consistent m;
      life = get_lifecycle-id p.registry w.consistent d.deployment_id;
    }

    pub listing-IsHeld : All (IsHeld p) (list_deployments p.registry)
    listing-IsHeld = All-of_Elem (IsHeld p) (list_deployments p.registry) IsHeld-of

    pub tick-Outcome :
        (d : DeploymentRecord)
        → get_deployment p.registry d.deployment_id ≡ ok d
        → Outcome host manager d p (pass host manager (list_deployments p.registry) p)
    tick-Outcome d e =
        pass-Outcome host manager d _ p listing-IsHeld
          (list_deployments-Distinct p.registry w.consistent)
          (list_deployments-Elem p.registry w.consistent d.deployment_id d e)

    pub tick_state : (tick host manager p).1 ≡ (pass host manager (list_deployments p.registry) p).1
    unfolding tick
    tick_state = caught-state p (pass host manager (list_deployments p.registry) p)

    -- A pass keeps the state well-formed.
    pub tick-IsWellFormed : IsWellFormed (tick host manager p).1
    tick-IsWellFormed = rw tick_state (
        pass-IsWellFormed host manager _ p listing-IsHeld
          (list_deployments-Distinct p.registry w.consistent) w)

  eligible_moves :
      {A : Type 0} (p : Platform World) (d : DeploymentRecord) (l : LifecycleRecord)
      → IsEligible p d l
      → IsFixed d
      → A
  eligible_moves p d l el (inl r) = absurd (not_both _ el.ready r)
  eligible_moves p d l el (inr t) = absurd (not_both _ t el.temporary)

  fixed-SameAt :
      (p : Platform World) (d : DeploymentRecord) (r : Result (Unit {0}) × Platform World)
      → IsFixed d
      → Visited host manager p d r
      → SameAt d.deployment_id p r.1
  fixed-SameAt p d r f (spared s) = SameAt-refl _ p
  fixed-SameAt p d r f (kept l el c) = eligible_moves p d l el f
  fixed-SameAt p d r f (stuck l e x el c y) = eligible_moves p d l el f
  fixed-SameAt p d r f (scaled l x el c) = eligible_moves p d l el f

  fixed-Outcome :
      (p : Platform World) (d : DeploymentRecord) (r : Result (Unit {0}) × Platform World)
      → IsFixed d
      → Outcome host manager d p r
      → SameAt d.deployment_id p r.1
  fixed-Outcome p d r f (inr (e, s)) = s
  fixed-Outcome p d r f (inl t) =
      SameAt-trans t.until (SameAt-trans (fixed-SameAt t.before d t.step f t.visited) t.after)

  -- A pass changes nothing of a deployment that is permanent or not ready: neither its record, nor
  -- its lifecycle record, nor the memory that it holds.
  pub tick_keeps_fixed :
      (p : Platform World) (d : DeploymentRecord)
      → IsWellFormed p
      → get_deployment p.registry d.deployment_id ≡ ok d
      → (is_ready d.status ≡ false) ⊎ (truth? (lookup "is_permanent" d.metadata) ≡ true)
      → SameAt d.deployment_id p (tick host manager p).1
  tick_keeps_fixed p d w e f = rw (tick_state p w) (fixed-Outcome p d _ f (tick-Outcome p w d e))

  busy-Visited :
      (p : Platform World) (d : DeploymentRecord) (r : Result (Unit {0}) × Platform World)
      → 0 < manager.cold_after_seconds
      → 0 < active_on p.concurrency_tracker d.deployment_id
      → Visited host manager p d r
      → (get_deployment p.registry d.deployment_id ≡ get_deployment r.1.registry d.deployment_id)
        × (memory_of p.gpu_tracker d.deployment_id ≡ memory_of r.1.gpu_tracker d.deployment_id)
  busy-Visited p d r c a (spared s) = (refl, refl)
  busy-Visited p d r c a (kept l el x) = (rw get_deployment-upsert_lifecycle, refl)
  busy-Visited p d r c a (stuck l e x el y z) = (rw get_deployment-upsert_lifecycle, refl)
  busy-Visited p d r c a (scaled l x el y) =
      absurd (not_both _ y (aged_busy manager (host.now p.world) _ l a c))

  busy-Outcome :
      (p : Platform World) (d : DeploymentRecord) (r : Result (Unit {0}) × Platform World)
      → 0 < manager.cold_after_seconds
      → 0 < active_on p.concurrency_tracker d.deployment_id
      → Outcome host manager d p r
      → (get_deployment p.registry d.deployment_id ≡ get_deployment r.1.registry d.deployment_id)
        × (memory_of p.gpu_tracker d.deployment_id ≡ memory_of r.1.gpu_tracker d.deployment_id)
  busy-Outcome p d r c a (inr (e, s)) = (s.deployment, s.memory)
  busy-Outcome p d r c a (inl t) =
      let (same, held) = busy-Visited t.before d t.step c (rw t.until.active at a) t.visited in
      (t.until.deployment ∙ same ∙ t.after.deployment, t.until.memory ∙ held ∙ t.after.memory)

  -- With a positive threshold, a pass neither unloads a deployment that serves requests nor frees
  -- its memory, however long it was idle before.
  pub tick_keeps_busy :
      (p : Platform World) (d : DeploymentRecord)
      → IsWellFormed p
      → get_deployment p.registry d.deployment_id ≡ ok d
      → 0 < manager.cold_after_seconds
      → 0 < active_on p.concurrency_tracker d.deployment_id
      → (get_deployment (tick host manager p).1.registry d.deployment_id ≡ ok d)
        × (memory_of (tick host manager p).1.gpu_tracker d.deployment_id
            ≡ memory_of p.gpu_tracker d.deployment_id)
  tick_keeps_busy p d w e c a =
      let (same, held) = busy-Outcome p d _ c a (tick-Outcome p w d e) in
      rw (tick_state p w) (sym same ∙ e, sym held)
