-- ===== src/Worker/ScaleToZero.antt =====
-- What the lifecycle worker (llm_platform/services/lifecycle_worker.py) unloads, and when.
use foundation_ai_platform.Prelude.{
  ℕ, zero, suc, ◌+◌, ◌*◌, ◌≤◌, ◌<◌, ◌≡◌, inl, inr, refl, true, false, arith,
}
use foundation_ai_platform.Prelude.Dict.{lookup}
use foundation_ai_platform.Value.{truth?}
use foundation_ai_platform.Schemas.Enums.{is_ready}
use foundation_ai_platform.Schemas.Records.{DeploymentRecord}
use foundation_ai_platform.Lifecycle.{LifecycleManager}
use foundation_ai_platform.Registry.Listing.{list_deployments-Distinct}
use foundation_ai_platform.Platform.{Host, IsWorking, IsWellFormed, Platform}
use foundation_ai_platform.Worker.{tick, ticks}
use foundation_ai_platform.Worker.Steps.{as_unloaded}
use foundation_ai_platform.Worker.Protection.{
  tick-Outcome, tick_state, tick-IsWellFormed, listing-IsHeld, tick_keeps_fixed,
}
use foundation_ai_platform.Worker.Idle.{
  IsScaledDown, IsScaledDown-SameAt, IsIdleFor, Aged, idle-Outcome,
}
use foundation_ai_platform.Worker.Pass.{pass-ok}

module _ {World : Type 0} (host : Host World) (manager : LifecycleManager) where
  -- After a pass, a ready deployment that served no request is unloaded, or ten seconds older and
  -- still below the threshold.
  tick-Aged :
      (p : Platform World) (d : DeploymentRecord) (n : ℕ)
      → IsWorking host
      → IsWellFormed p
      → is_ready d.status ≡ true
      → truth? (lookup "is_permanent" d.metadata) ≡ false
      → IsIdleFor d n p
      → Aged host manager d n (tick host manager p).1
  tick-Aged p d n works w rd t i = rw (tick_state host manager p w) (
      idle-Outcome host manager p d n _ works w
        (pass-ok host manager _ p works (listing-IsHeld host manager p w)
          (list_deployments-Distinct p.registry w.consistent))
        rd t i (tick-Outcome host manager p w d i.running))

  too_early : (s c : ℕ) → s + 10 < c → c ≤ s + 10 * suc zero → ⊥
  too_early s c e d = omega arith

  stays_down :
      (n : ℕ) (p : Platform World) (d : DeploymentRecord)
      → IsWellFormed p
      → IsScaledDown d p
      → IsScaledDown d (ticks host manager n p)
  unfolding ticks
  stays_down zero p d w s = s
  stays_down (suc n) p d w s = stays_down n _ d (tick-IsWellFormed host manager p w) (
      IsScaledDown-SameAt d p _ s
        (tick_keeps_fixed host manager p (as_unloaded d) w s.unloaded (inl refl)))

  -- Where Docker answers, a ready deployment that is not permanent and serves no requests is
  -- unloaded and holds no memory after as many passes, ten seconds each, as the threshold takes
  -- from the idle time that it starts with, and it stays so.
  pub ticks-IsScaledDown :
      (n : ℕ) (p : Platform World) (d : DeploymentRecord) (seconds : ℕ)
      → IsWorking host
      → IsWellFormed p
      → is_ready d.status ≡ true
      → truth? (lookup "is_permanent" d.metadata) ≡ false
      → IsIdleFor d seconds p
      → manager.cold_after_seconds ≤ seconds + 10 * suc n
      → IsScaledDown d (ticks host manager (suc n) p)
  unfolding ticks Aged
  ticks-IsScaledDown zero p d seconds works w rd t i due =
      elim (tick-Aged p d seconds works w rd t i) [
        | inl s ↦ s
        | inr (k, early) ↦ absurd (too_early seconds manager.cold_after_seconds early due)
      ]
  ticks-IsScaledDown (suc n) p d seconds works w rd t i due =
      elim (tick-Aged p d seconds works w rd t i) [
        | inl s ↦ stays_down (suc n) _ d (tick-IsWellFormed host manager p w) s
        | inr (k, early) ↦
            ticks-IsScaledDown n _ d (seconds + 10) works (tick-IsWellFormed host manager p w) rd t
              k (omega arith)
      ]
