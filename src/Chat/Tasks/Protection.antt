-- ===== src/Chat/Tasks/Protection.antt =====
-- Interleaved requests to `chat` (llm_platform/services/chat.py) and the passes of the worker
-- (llm_platform/services/lifecycle_worker.py) over one state.
use foundation_ai_platform.Prelude.{
  ℕ, ◌<◌, ◌≡◌, subst, String, Bool, true, false, Option, none, some, if◌then◌else◌, arith,
}
use mathlib.Core.Option.{some-injective}
use foundation_ai_platform.Exec.{ok}
use foundation_ai_platform.Schemas.Records.{DeploymentRecord}
use foundation_ai_platform.Lifecycle.{LifecycleManager}
use foundation_ai_platform.Concurrency.{ConcurrencyTracker}
use foundation_ai_platform.Registry.{get_deployment}
use foundation_ai_platform.Routing.Decision.{Random}
use foundation_ai_platform.Platform.{Host, Platform, IsWellFormed, memory_of, active_on}
use foundation_ai_platform.Worker.{tick}
use foundation_ai_platform.Worker.Protection.{tick-IsWellFormed, tick_keeps_busy}
use foundation_ai_platform.Balanced.{observed}
use foundation_ai_platform.Chat.Tasks.{
  Task, arriving, onboarding, resolved, decided, waiting, starting, running, polling, serving,
  generating, done, Shared,
}
use foundation_ai_platform.Chat.Tasks.Advance.{unlocked, under_lock, under_both, advance}
use foundation_ai_platform.Chat.Tasks.Interleaving.{
  System, Step, arrive, go, pass, Reach, here, later, count, answered_at,
}
use foundation_ai_platform.Chat.Tasks.Keeping.{
  resolving-IsKeeping, onboard_part-IsKeeping, decide_part-IsKeeping, prepare_part-IsKeeping,
  enter-IsKeeping, begin_boot-IsKeeping, run_docker_part-IsKeeping, finish_boot-IsKeeping,
  begin_answer-IsKeeping, end_answer-IsKeeping,
}
use foundation_ai_platform.Chat.Tasks.Safety.{counts}

module _ {World : Type 0} (host : Host World) where
  module _ (random : Random) where
    landed :
        (x y : Task × Shared World)
        → some x ≡ some y
        → IsWellFormed x.1.platform
        → IsWellFormed y.1.platform
    landed x y e = subst (λ z. IsWellFormed z.1.platform) (some-injective _ _ e)

    landed_if :
        (b : Bool) (x y : Task × Shared World)
        → (if b then none else some x) ≡ some y
        → IsWellFormed x.1.platform
        → IsWellFormed y.1.platform
    landed_if true x y e w = absurd cc
    landed_if false x y e w = landed x y e w

    advance-IsWellFormed :
        (t : Task) (s : Shared World) (y : Task × Shared World)
        → advance host random t s ≡ some y
        → IsWellFormed s.platform
        → IsWellFormed y.1.platform
    unfolding advance unlocked under_lock under_both
    advance-IsWellFormed (arriving q) s y e w =
        landed _ y e (resolving-IsKeeping host random q s.platform w)
    advance-IsWellFormed (onboarding q repo report) s y e w =
        landed _ y e (onboard_part-IsKeeping host random q repo report s.platform w)
    advance-IsWellFormed (resolved q named) s y e w =
        landed _ y e (decide_part-IsKeeping host random q named s.platform w)
    advance-IsWellFormed (decided q r) s y e w =
        landed _ y e (prepare_part-IsKeeping host random q r s.platform w)
    advance-IsWellFormed (waiting q r m) s y e w =
        landed_if _ _ y e (enter-IsKeeping host random q r m s.platform w)
    advance-IsWellFormed (starting q r m d) s y e w =
        landed_if _ _ y e (begin_boot-IsKeeping host random q r m d s.platform w)
    advance-IsWellFormed (running q r m d port u) s y e w =
        landed _ y e (run_docker_part-IsKeeping host random q r m d port u s.platform w)
    advance-IsWellFormed (polling q r m d port n) s y e w =
        landed _ y e (finish_boot-IsKeeping host random q r m d port n s.platform w)
    advance-IsWellFormed (serving q r m d) s y e w =
        landed _ y e (begin_answer-IsKeeping host random q r m d s.platform w)
    advance-IsWellFormed (generating q r m d) s y e w =
        landed _ y e (end_answer-IsKeeping host random q r m d s.platform w)
    advance-IsWellFormed (done result) s y e w = absurd cc

  Step-IsWellFormed :
      {a b : System World}
      → Step host a b
      → IsWellFormed a.shared.platform
      → IsWellFormed b.shared.platform
  Step-IsWellFormed (arrive s q) w = w
  Step-IsWellFormed (go random before after t t' s s' e) w =
      advance-IsWellFormed random t s (t', s') e w
  Step-IsWellFormed (pass manager s) w = tick-IsWellFormed host manager s.shared.platform w

  module _ (p : Platform World) where
    -- However requests to `chat` and passes of the worker are interleaved: no dict of the registry and
    -- not the ledger of memory ever holds a key twice, and each record stands under its own id, if
    -- this holds at first.
    pub reach-IsWellFormed :
        {sys : System World} → Reach host p sys → IsWellFormed p → IsWellFormed sys.shared.platform
    reach-IsWellFormed here w = w
    reach-IsWellFormed (later r step) w = Step-IsWellFormed step (reach-IsWellFormed r w)

    seen_active :
        (o : Option ConcurrencyTracker) (k : String) (n : ℕ)
        → observed o k ≡ some n
        → active_on o k ≡ n
    seen_active none k n h = cc
    seen_active (some t) k n h = some-injective _ _ h

    -- Whatever was reached by interleaving requests and passes: a pass of the lifecycle worker neither
    -- unloads a deployment at which the model server answers a request at this moment, nor frees its
    -- memory, if the state was well-formed and counted nothing at first and the manager's threshold
    -- is positive.
    pub answering_kept :
        (sys : System World) (manager : LifecycleManager) (d : DeploymentRecord)
        → Reach host p sys
        → IsWellFormed p
        → observed p.concurrency_tracker d.deployment_id ≡ some 0
        → get_deployment sys.shared.platform.registry d.deployment_id ≡ ok d
        → 0 < manager.cold_after_seconds
        → 0 < count (answered_at d.deployment_id) sys.tasks
        → let p' = (tick host manager sys.shared.platform).1 in
          (get_deployment p'.registry d.deployment_id ≡ ok d)
          × (memory_of p'.gpu_tracker d.deployment_id
              ≡ memory_of sys.shared.platform.gpu_tracker d.deployment_id)
    answering_kept sys manager d r w idle held threshold answers =
        let seen = counts host p sys d.deployment_id 0 r idle in
        tick_keeps_busy host manager sys.shared.platform d (reach-IsWellFormed r w) held threshold
          (omega (arith, answers, seen_active sys.shared.platform.concurrency_tracker _ _ seen))
