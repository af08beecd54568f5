-- ===== src/Worker.antt =====
-- llm_platform/services/lifecycle_worker.py: the loop that scales idle deployments to zero.
mod Tests
pub mod Steps
pub mod Frame
pub mod Pass
pub mod Protection
pub mod Idle
pub mod ScaleToZero
use foundation_ai_platform.Prelude.{
  ℕ, zero, suc, String, ◌+◌, Bool, not, Option, none, some, List, ltb, if◌then◌else◌,
}
use foundation_ai_platform.Prelude.Dict.{lookup}
use foundation_ai_platform.Exec.{Exec, pure, try_except, for_each, ◌>>=◌, ◌>>◌}
use foundation_ai_platform.Value.{truth?}
use foundation_ai_platform.Schemas.Enums.{is_ready, is_cold}
use foundation_ai_platform.Schemas.Records.{DeploymentRecord, LifecycleRecord}
use foundation_ai_platform.Lifecycle.{LifecycleManager, reconcile}
use foundation_ai_platform.Registry.{list_deployments, get_lifecycle, upsert_lifecycle}
use foundation_ai_platform.Platform.{
  Host, Platform, writes, release_memory, active_on, unload_deployment,
}

-- `idle_duration_seconds` restarts under load and else grows by the length of the sleep.
unfoldable pub age : ℕ → LifecycleRecord → LifecycleRecord
age active l =
    if ltb 0 active
    then record l { idle_duration_seconds = 0 }
    else record l { idle_duration_seconds = l.idle_duration_seconds + 10 }

module _ {World : Type 0} (host : Host World) (manager : LifecycleManager) where
  unfoldable pub scale_to_zero : String → LifecycleRecord → Exec (Platform World) (Unit {0})
  scale_to_zero id updated_record =
      if is_cold updated_record.state
      then (do unload_deployment host id; release_memory id)
      else pure tt

  unfoldable pub reconcile_record :
      DeploymentRecord → Option LifecycleRecord → Exec (Platform World) (Unit {0})
  unfolding scale_to_zero age
  reconcile_record deployment none p = pure tt p
  reconcile_record deployment (some l) p =
      let id = deployment.deployment_id in
      let updated_record =
        reconcile manager (host.now p.world) (age (active_on p.concurrency_tracker id) l) in
      (do writes (upsert_lifecycle updated_record); scale_to_zero id updated_record) p

  -- The body of the `for` loop.
  unfoldable pub visit : DeploymentRecord → Exec (Platform World) (Unit {0})
  unfolding reconcile_record
  visit deployment p =
      if not (is_ready deployment.status)
      then pure tt p
      else if truth? (lookup "is_permanent" deployment.metadata)
      then pure tt p
      else reconcile_record deployment (get_lifecycle p.registry deployment.deployment_id) p

  -- One round of the `while` loop: an exception ends the pass and is logged.
  unfoldable pub tick : Exec (Platform World) (Unit {0})
  unfolding visit
  tick p = try_except (for_each visit (list_deployments p.registry)) (λ e. pure tt) p

  -- The `while` loop, for the number of rounds that it has made.
  unfoldable pub ticks : ℕ → Platform World → Platform World
  unfolding tick
  ticks zero p = p
  ticks (suc n) p = ticks n (tick p).1
