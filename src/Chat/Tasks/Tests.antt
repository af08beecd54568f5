-- ===== src/Chat/Tasks/Tests.antt =====
-- Interleaved chat requests on small inputs (llm_platform/services/chat.py).
use foundation_ai_platform.Prelude.{
  ℕ, zero, suc, ◌+◌, ◌≤◌, ◌≡◌, refl, Option, none, some, List, [], ◌∷◌,
}
use foundation_ai_platform.Prelude.Dict.{lookup}
use foundation_ai_platform.Schemas.Gateway.{ChatCompletionRequest}
use foundation_ai_platform.Concurrency.{get_active_requests}
use foundation_ai_platform.Balanced.{observed}
use foundation_ai_platform.Prelude.{arith, select, contains}
use foundation_ai_platform.Prelude.Dict.{insert, keys, values}
use foundation_ai_platform.Prelude.Sorting.{sort}
use foundation_ai_platform.Exec.{ok}
use foundation_ai_platform.Lifecycle.{default_manager, touch}
use foundation_ai_platform.Gpu.{
  available_vram_gb, can_fit, find_evictable, evictable_idle, longest_idle, is_allocated,
}
use foundation_ai_platform.Registry.{
  get_deployment, get_lifecycle, get_model, list_models, list_deployments, upsert_lifecycle,
}
use foundation_ai_platform.Concurrency.{increment}
use foundation_ai_platform.Routing.Groups.{capable_models}
use foundation_ai_platform.Routing.Decision.{route}
use foundation_ai_platform.Platform.{memory_of}
use foundation_ai_platform.Worker.{tick}
use foundation_ai_platform.Chat.{count_on}
use foundation_ai_platform.Chat.Decisions.{
  resolve_model, resolve_request, decide_route, records_of, preferred_id, reserve_memory,
  needs_start, evict, fetch,
}
use foundation_ai_platform.Chat.Requests.{touch_lifecycle, touched}
use foundation_ai_platform.Chat.Tasks.{decide_part, prepare_part, begin_answer}
use foundation_ai_platform.Chat.Tasks.Protection.{answering_kept}
use foundation_ai_platform.Samples.{tiny_up, at_rest-IsWellFormed, bare, at_rest, first, hello}
use foundation_ai_platform.Chat.Tasks.{Task, Shared, arriving, resolve_part}
use foundation_ai_platform.Chat.Tasks.Advance.{unlocked, advance}
use foundation_ai_platform.Chat.Tasks.Interleaving.{
  System, arrive, go, Reach, here, later, init, count, answered_at, started_for, booting,
}
use foundation_ai_platform.Chat.Tasks.Safety.{counts, exclusive}
use foundation_ai_platform.Chat.Tasks.Completion.{Goes, unfinished, completes}

-- The parts of one task that it takes before it is done or waits for a lock, n at most.
run_alone : ℕ → Task → Shared ℕ → Task × Shared ℕ
run_alone zero t s = (t, s)
run_alone (suc n) t s = elim (advance bare first t s) [
  | none ↦ (t, s)
  | some next ↦ run_alone n next.0 next.1
]

-- One task goes on alone for a while, and the others stand still.
abbrev turn : ℕ → Task → List Task → Shared ℕ → System ℕ
turn n t others s = let y = run_alone n t s in record { tasks = y.0 ∷ others; shared = y.1 }

turn-Reach :
    (n : ℕ) (t : Task) (others : List Task) (s : Shared ℕ)
    → Reach bare at_rest (record { tasks = t ∷ others; shared = s })
    → Reach bare at_rest (turn n t others s)
unfolding run_alone
turn-Reach zero t others s r = r
turn-Reach (suc n) t others s r = turned (turn-Reach n) (advance bare first t s) refl
  where
    turned :
        ((t : Task) (others : List Task) (s : Shared ℕ)
          → Reach bare at_rest (record { tasks = t ∷ others; shared = s })
          → Reach bare at_rest (turn n t others s))
        → (o : Option (Task × Shared ℕ)) → advance bare first t s ≡ o
        → Reach bare at_rest (
            let y : Task × Shared ℕ = elim o [ none ↦ (t, s) | some y ↦ run_alone n y.0 y.1 ] in
            record { tasks = y.0 ∷ others; shared = y.1 })
    turned turns none e = r
    turned turns (some y) e = turns y.0 others y.1 (later r (go first [] others t y.0 s y.1 e))

abbrev fresh : System ℕ
fresh = init bare at_rest

-- Two requests that the model server answers at the same time.
abbrev one : System ℕ
one = turn 4 (arriving hello) [] fresh.shared

abbrev both : System ℕ
both = turn 4 (arriving hello) one.tasks one.shared

one-Reach : Reach bare at_rest one
one-Reach = turn-Reach 4 (arriving hello) [] fresh.shared (later here (arrive fresh hello))

both-Reach : Reach bare at_rest both
both-Reach = turn-Reach 4 (arriving hello) one.tasks one.shared (later one-Reach (arrive one hello))

none_at_first : observed at_rest.concurrency_tracker "d1" ≡ some 0
unfolding get_active_requests lookup
none_at_first = refl

counts_example :
    observed both.shared.platform.concurrency_tracker "d1"
    ≡ some (0 + count (answered_at "d1") both.tasks)
counts_example = counts bare at_rest both "d1" 0 both-Reach none_at_first

-- Two requests for a model on disk: the first runs its container, and the second waits.
abbrev calculate : ChatCompletionRequest
calculate = record hello { capability = "math" }

abbrev boots_phi : System ℕ
boots_phi = turn 5 (arriving calculate) [] fresh.shared

abbrev waits_for_phi : System ℕ
waits_for_phi = turn 9 (arriving calculate) boots_phi.tasks boots_phi.shared

waits_for_phi-Reach : Reach bare at_rest waits_for_phi
waits_for_phi-Reach = turn-Reach 9 (arriving calculate) boots_phi.tasks boots_phi.shared (
    later (turn-Reach 5 (arriving calculate) [] fresh.shared (later here (arrive fresh calculate)))
      (arrive boots_phi calculate))

exclusive_example :
    (count (started_for "phi") waits_for_phi.tasks ≤ 1) × (count booting waits_for_phi.tasks ≤ 1)
exclusive_example = exclusive bare at_rest waits_for_phi "phi" waits_for_phi-Reach

completes_example :
    (n : ℕ) × (end : System ℕ) × Goes bare first n waits_for_phi end
    × (count unfinished end.tasks ≡ 0)
completes_example = completes bare first at_rest waits_for_phi waits_for_phi-Reach

-- What `one` is computed from.
program : Unit {0}
unfolding run_alone advance unlocked resolve_part resolve_model resolve_request decide_part
    decide_route route can_fit available_vram_gb find_evictable evictable_idle longest_idle
    is_allocated records_of preferred_id get_deployment get_lifecycle get_model get_active_requests
    capable_models select contains sort lookup insert keys values list_models list_deployments
    reserve_memory needs_start prepare_part evict fetch begin_answer touch_lifecycle touched touch
    upsert_lifecycle count_on increment count
program = tt

one_holds : get_deployment one.shared.platform.registry "d1" ≡ ok tiny_up
unfolding program
one_holds = refl

one_answers : count (answered_at "d1") one.tasks ≡ 1
unfolding program
one_answers = refl

both_counted : observed both.shared.platform.concurrency_tracker "d1" ≡ some 2
unfolding program
both_counted = refl

answering_kept_example :
    (get_deployment (tick bare default_manager one.shared.platform).1.registry "d1" ≡ ok tiny_up)
    × (memory_of (tick bare default_manager one.shared.platform).1.gpu_tracker "d1"
        ≡ memory_of one.shared.platform.gpu_tracker "d1")
answering_kept_example =
    answering_kept bare at_rest one default_manager tiny_up one-Reach at_rest-IsWellFormed
      none_at_first one_holds (omega arith) (rw one_answers (omega arith))
