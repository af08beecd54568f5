-- ===== src/Worker/Idle.antt =====
-- What the lifecycle worker (llm_platform/services/lifecycle_worker.py) does with a deployment
-- that serves no requests.
use foundation_ai_platform.Prelude.{
  ℕ, ◌+◌, ◌<◌, ◌≡◌, ◌⊎◌, inl, inr, sym, ap, ◌∙◌, true, false, none, some, arith, eq_refl,
}
use mathlib.Core.Option.{some-injective}
use foundation_ai_platform.Prelude.Dict.{lookup}
use foundation_ai_platform.Exec.{Result, ok}
use foundation_ai_platform.Value.{truth?}
use foundation_ai_platform.Schemas.Enums.{is_ready, is_cold}
use foundation_ai_platform.Schemas.Records.{Timestamp, DeploymentRecord, LifecycleRecord}
use foundation_ai_platform.Lifecycle.{LifecycleManager, next_state, reconcile}
use foundation_ai_platform.Registry.{get_deployment, get_lifecycle}
use foundation_ai_platform.Registry.Laws.{
  get_deployment-update_deployment, get_deployment-upsert_lifecycle, get_lifecycle-upsert_lifecycle,
}
use foundation_ai_platform.Registry.Listing.{get_lifecycle-id}
use foundation_ai_platform.Platform.{
  memory_of-release, Host, IsWorking, remove_named-ok, IsWellFormed, Platform, SameAt, active_on,
  memory_of,
}
use foundation_ai_platform.Worker.{age}
use foundation_ai_platform.Worker.Steps.{
  IsHeld, IsEligible, Visited, spared, kept, stuck, scaled, aged, as_unloaded,
}
use foundation_ai_platform.Worker.Frame.{aged_id}
use foundation_ai_platform.Worker.Protection.{not_both}
use foundation_ai_platform.Worker.Pass.{Outcome}

-- An idle deployment that is not cold yet is not due.
aged_not_due :
    (m : LifecycleManager) (now : Timestamp) (active : ℕ) (l : LifecycleRecord)
    → active ≡ 0
    → is_cold (reconcile m now (age active l)).state ≡ false
    → l.idle_duration_seconds + 10 < m.cold_after_seconds
unfolding age reconcile next_state
aged_not_due m now active l q c = ground arith

aged_idle :
    (m : LifecycleManager) (now : Timestamp) (active : ℕ) (l : LifecycleRecord)
    → active ≡ 0
    → (reconcile m now (age active l)).idle_duration_seconds ≡ l.idle_duration_seconds + 10
unfolding age reconcile
aged_idle m now active l q = ground arith

module _ {World : Type 0} where
  -- A deployment is unloaded, and holds no memory.
  pub record IsScaledDown (d : DeploymentRecord) (p : Platform World) : Type 0 where
    pub unloaded : get_deployment p.registry d.deployment_id ≡ ok (as_unloaded d)
    pub freed : memory_of p.gpu_tracker d.deployment_id ≡ none

  -- A deployment runs and has been idle for so long.
  pub record IsIdleFor (d : DeploymentRecord) (seconds : ℕ) (p : Platform World) : Type 0 where
    pub running : get_deployment p.registry d.deployment_id ≡ ok d
    pub quiet : active_on p.concurrency_tracker d.deployment_id ≡ 0
    pub since :
        (l : LifecycleRecord) × (get_lifecycle p.registry d.deployment_id ≡ some l)
        × (l.idle_duration_seconds ≡ seconds)

  pub IsScaledDown-SameAt :
      (d : DeploymentRecord) (p q : Platform World)
      → IsScaledDown d p
      → SameAt d.deployment_id p q
      → IsScaledDown d q
  IsScaledDown-SameAt d p q s t = record {
    unloaded = sym t.deployment ∙ s.unloaded;
    freed = sym t.memory ∙ s.freed;
  }

  IsIdleFor-SameAt :
      (d : DeploymentRecord) (n : ℕ) (p q : Platform World)
      → IsIdleFor d n p
      → SameAt d.deployment_id p q
      → IsIdleFor d n q
  IsIdleFor-SameAt d n p q s t =
      let (l, e, i) = s.since in
      record {
        running = sym t.deployment ∙ s.running;
        quiet = sym t.active ∙ s.quiet;
        since = (l, sym t.lifecycle ∙ e, i);
      }

module _ {World : Type 0} (host : Host World) (manager : LifecycleManager) where
  pub IsHeld-idle :
      (p : Platform World) (d : DeploymentRecord) (n : ℕ)
      → IsWellFormed p
      → IsIdleFor d n p
      → IsHeld p d
  IsHeld-idle p d n w i = record {
    own = i.running;
    life = get_lifecycle-id p.registry w.consistent d.deployment_id;
  }

  idle_is :
      (p : Platform World) (d : DeploymentRecord) (n : ℕ) (l : LifecycleRecord)
      → IsIdleFor d n p
      → IsEligible p d l
      → l.idle_duration_seconds ≡ n
  idle_is p d n l i el =
      let (k, e, idle) = i.since in
      let same : k ≡ l = some-injective _ _ (sym e ∙ el.tracked) in
      ap (λ (l : LifecycleRecord). l.idle_duration_seconds) (sym same) ∙ idle

  -- Ten seconds on, an idle deployment is unloaded, or it is not due yet.
  unfoldable pub Aged : DeploymentRecord → ℕ → Platform World → Type 0
  Aged d n p = IsScaledDown d p ⊎ (IsIdleFor d (n + 10) p × ((n + 10) < manager.cold_after_seconds))

  idle-Visited :
      (p : Platform World) (d : DeploymentRecord) (n : ℕ) (r : Result (Unit {0}) × Platform World)
      → IsWorking host
      → IsWellFormed p
      → is_ready d.status ≡ true
      → truth? (lookup "is_permanent" d.metadata) ≡ false
      → IsIdleFor d n p
      → Visited host manager p d r
      → Aged d n r.1
  unfolding Aged
  idle-Visited p d n r works w rd t i (spared (inl x)) = absurd (not_both _ rd x)
  idle-Visited p d n r works w rd t i (spared (inr (inl x))) = absurd (not_both _ x t)
  idle-Visited p d n r works w rd t i (spared (inr (inr x))) = let (l, e, _) = i.since in cc (e, x)
  idle-Visited p d n r works w rd t i (stuck l e x el c y) =
      let fine = remove_named-ok host works (lookup "container_name" d.metadata) p.world in
      cc (fine, y)
  idle-Visited p d n r works w rd t i (kept l el c) =
      let active = active_on p.concurrency_tracker d.deployment_id in
      let now = host.now p.world in
      let id = aged_id host manager p d l (IsHeld-idle p d n w i) el in
      let so_far = idle_is p d n l i el in
      inr (
        record {
          running = rw get_deployment-upsert_lifecycle i.running;
          quiet = i.quiet;
          since = (
            aged host manager p d l,
            rw (get_lifecycle-upsert_lifecycle, id, eq_refl d.deployment_id),
            rw (aged_idle manager now active l i.quiet, so_far),
          );
        },
        rw so_far at (aged_not_due manager now active l i.quiet c),
      )
  idle-Visited p d n r works w rd t i (scaled l x el c) = inl (record {
    unloaded = rw (get_deployment-update_deployment, eq_refl d.deployment_id);
    freed = memory_of-release d.deployment_id p.gpu_tracker w.ledger;
  })

  pub idle-Outcome :
      (p : Platform World) (d : DeploymentRecord) (n : ℕ) (r : Result (Unit {0}) × Platform World)
      → IsWorking host
      → IsWellFormed p
      → r.0 ≡ ok tt
      → is_ready d.status ≡ true
      → truth? (lookup "is_permanent" d.metadata) ≡ false
      → IsIdleFor d n p
      → Outcome host manager d p r
      → Aged d n r.1
  unfolding Aged
  idle-Outcome p d n r works w e rd t i (inr (x, s)) = absurd (x e)
  idle-Outcome p d n r works w e rd t i (inl o) =
      elim (idle-Visited o.before d n o.step works (o.sound w) rd t
        (IsIdleFor-SameAt d n p o.before i o.until) o.visited) [
          | inl s ↦ inl (IsScaledDown-SameAt d o.step.1 r.1 s o.after)
          | inr (k, early) ↦ inr (IsIdleFor-SameAt d (n + 10) o.step.1 r.1 k o.after, early)
        ]
