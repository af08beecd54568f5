-- ===== src/Routing/Tests.antt =====
-- Routing decisions on small inputs (llm_platform/routing/router.py).
use foundation_ai_platform.Prelude.{
  ◌≡◌, refl, inl, inr, true, false, none, some, [], ◌∷◌, select, contains,
}
use foundation_ai_platform.Prelude.Dict.{lookup, insert, keys}
use foundation_ai_platform.Prelude.Int.{◌+ℤ◌, ◌-ℤ◌}
use foundation_ai_platform.Prelude.Sorting.{sort}
use foundation_ai_platform.Exec.{ok}
use foundation_ai_platform.Schemas.Records.{RouteDecision, cold_start}
use foundation_ai_platform.Gpu.{
  available_vram_gb, can_fit, find_evictable, evictable_idle, longest_idle, is_allocated,
}
use foundation_ai_platform.Registry.{get_deployment, get_lifecycle}
use foundation_ai_platform.Concurrency.{get_active_requests}
use foundation_ai_platform.Samples.{tiny, phi, tiny_up, phi_down, tiny_idle, store, card, quiet}
use foundation_ai_platform.Routing.Groups.{
  RouteRequest, lifecycle_by_deployment, is_capable, capable_models,
}
use foundation_ai_platform.Routing.Categories.{Candidate, Trackers, idle, disk}
use foundation_ai_platform.Routing.Categories.Coverage.{kind_in}
use foundation_ai_platform.Routing.Decision.{Random, IsRandom, route}
use foundation_ai_platform.Routing.Decision.Soundness.{route-IsSound}
use foundation_ai_platform.Routing.Decision.Sources.{IsSound}
use foundation_ai_platform.Routing.Decision.Evictions.{MakesRoom, route-MakesRoom}
use foundation_ai_platform.Routing.Decision.Availability.{Answered, route-Answered}
use foundation_ai_platform.Routing.Decision.Serving.{IsServing, route-ServedWarm}

-- A `random` that draws from the front.
abbrev first : Random
first = record { choice = λ c cs. c; sample = λ c d cs. (c, d) }

first-IsRandom : IsRandom first
first-IsRandom = record {
  choice_elem = λ c cs. inl refl;
  sample_elem = λ c d cs. (inl refl, inr (inl refl));
}

abbrev trackers : Trackers
trackers = record { gpu = some card; concurrency = some quiet }

abbrev asks : RouteRequest
asks = record { capability = "math"; preferred_model_id = none; registry = some store }

abbrev chats : RouteRequest
chats = record { capability = "chat"; preferred_model_id = some "tiny"; registry = some store }

abbrev start_phi : RouteDecision
start_phi = record {
  model_id = "phi";
  deployment_id = some "d2";
  endpoint = some "http://localhost";
  capability = "math";
  reason = cold_start 0 (some "d1") none;
  requires_cold_start = true;
  requires_new_instance = false;
  evict_deployment_id = some "d1";
}

-- What the tests compute with.
program : Unit {0}
unfolding route can_fit available_vram_gb find_evictable evictable_idle longest_idle is_allocated
    get_deployment get_lifecycle get_active_requests capable_models select contains sort lookup
    insert keys ◌+ℤ◌ ◌-ℤ◌
program = tt

route_evicts :
    route first trackers asks (tiny ∷ phi ∷ []) (tiny_up ∷ phi_down ∷ []) (tiny_idle ∷ [])
    ≡ ok start_phi
unfolding program
route_evicts = refl

route-IsSound_example :
    IsSound "math"
      (tiny ∷ phi ∷ [])
      (tiny_up ∷ phi_down ∷ [])
      (lifecycle_by_deployment (tiny_idle ∷ []) [])
      start_phi
route-IsSound_example =
    route-IsSound first trackers asks (tiny ∷ phi ∷ []) (tiny_up ∷ phi_down ∷ []) (tiny_idle ∷ [])
      start_phi first-IsRandom route_evicts

route-MakesRoom_example : MakesRoom (some card) (some store) (tiny ∷ phi ∷ []) start_phi "d1"
route-MakesRoom_example =
    route-MakesRoom first trackers asks (tiny ∷ phi ∷ []) (tiny_up ∷ phi_down ∷ []) (tiny_idle ∷ [])
      start_phi "d1" route_evicts refl

tiny_chats : is_capable "chat" tiny ≡ true
unfolding contains
tiny_chats = refl

phi_computes : is_capable "math" phi ≡ true
unfolding contains
phi_computes = refl

phi_on_disk :
    kind_in trackers asks (lifecycle_by_deployment (tiny_idle ∷ []) []) phi phi_down ≡ disk
unfolding program
phi_on_disk = refl

-- The same request without a preference finds the deployment idle.
abbrev talks : RouteRequest
talks = record { capability = "chat"; preferred_model_id = none; registry = some store }

tiny_is_idle :
    kind_in trackers talks (lifecycle_by_deployment (tiny_idle ∷ []) []) tiny tiny_up ≡ idle
unfolding program
tiny_is_idle = refl

route-Answered_example :
    Answered
      (route first trackers asks (tiny ∷ phi ∷ []) (tiny_up ∷ phi_down ∷ []) (tiny_idle ∷ []))
route-Answered_example =
    route-Answered first trackers asks (tiny ∷ phi ∷ []) (tiny_up ∷ phi_down ∷ []) (tiny_idle ∷ [])
      phi (inr (inl refl)) phi_computes
      (inl (phi_down, inr (inl refl), refl, λ e. cc (phi_on_disk, e)))

route-ServedWarm_example :
    (r : RouteDecision) × (route first trackers talks
        (tiny ∷ phi ∷ [])
        (tiny_up ∷ phi_down ∷ [])
        (tiny_idle ∷ [])
      ≡ ok r)
    × IsServing (tiny_up ∷ phi_down ∷ []) r
route-ServedWarm_example =
    route-ServedWarm first trackers talks (tiny ∷ phi ∷ []) (tiny_up ∷ phi_down ∷ [])
      (tiny_idle ∷ []) tiny tiny_up first-IsRandom (inl refl) tiny_chats (inl refl) refl
      tiny_is_idle

abbrev tiny_pair : Candidate
tiny_pair = record { model = tiny; deployment = tiny_up }

abbrev phi_pair : Candidate
phi_pair = record { model = phi; deployment = phi_down }
