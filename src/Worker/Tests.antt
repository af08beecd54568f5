-- ===== src/Worker/Tests.antt =====
-- The lifecycle worker on a small store (llm_platform/services/lifecycle_worker.py).
use foundation_ai_platform.Prelude.{◌≡◌, refl, none, some, arith}
use foundation_ai_platform.Prelude.Dict.{lookup}
use foundation_ai_platform.Exec.{ok}
use foundation_ai_platform.Lifecycle.{default_manager}
use foundation_ai_platform.Concurrency.{get_active_requests}
use foundation_ai_platform.Registry.{get_deployment, get_lifecycle}
use foundation_ai_platform.Samples.{
  store-IsConsistent, at_rest-IsWellFormed, bare, at_rest, under_load, tiny_up, tiny_idle, phi_down,
  store, card,
}
use foundation_ai_platform.Platform.{IsWorking, IsWellFormed, active_on, memory_of}
use foundation_ai_platform.Worker.{tick, ticks}
use foundation_ai_platform.Worker.Protection.{tick_keeps_busy}
use foundation_ai_platform.Worker.Idle.{IsIdleFor, IsScaledDown}
use foundation_ai_platform.Worker.ScaleToZero.{ticks-IsScaledDown}

bare-IsWorking : IsWorking bare
bare-IsWorking = record { get_answers = λ name w. (none, refl); remove_answers = λ name w. refl }

under_load-IsWellFormed : IsWellFormed under_load
unfolding lookup
under_load-IsWellFormed = record { consistent = store-IsConsistent; ledger = (refl, tt) }

phi_stored : get_deployment store "d2" ≡ ok phi_down
unfolding get_deployment lookup
phi_stored = refl

tiny_stored : get_deployment store "d1" ≡ ok tiny_up
unfolding get_deployment lookup
tiny_stored = refl

tiny_busy : active_on under_load.concurrency_tracker "d1" ≡ 2
unfolding get_active_requests lookup
tiny_busy = refl

tick_keeps_busy_example :
    (get_deployment (tick bare default_manager under_load).1.registry "d1" ≡ ok tiny_up)
    × (memory_of (tick bare default_manager under_load).1.gpu_tracker "d1"
        ≡ memory_of (some card) "d1")
tick_keeps_busy_example =
    tick_keeps_busy bare default_manager under_load tiny_up under_load-IsWellFormed tiny_stored
      (omega arith) (rw tiny_busy (omega arith))

tiny-IsIdleFor : IsIdleFor tiny_up 400 at_rest
unfolding get_deployment get_lifecycle get_active_requests lookup
tiny-IsIdleFor = record { running = refl; quiet = refl; since = (tiny_idle, refl, refl) }

ticks-IsScaledDown_example : IsScaledDown tiny_up (ticks bare default_manager 20 at_rest)
unfolding lookup
ticks-IsScaledDown_example =
    ticks-IsScaledDown bare default_manager 19 at_rest tiny_up 400 bare-IsWorking
      at_rest-IsWellFormed refl refl tiny-IsIdleFor (omega arith)
