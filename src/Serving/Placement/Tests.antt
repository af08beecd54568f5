-- ===== src/Serving/Placement/Tests.antt =====
-- Placements on small inputs (llm_platform/serving/placement.py).
use foundation_ai_platform.Prelude.{◌≡◌, refl, true, false, some, [], ◌∷◌, contains}
use foundation_ai_platform.Exec.{ok}
use foundation_ai_platform.Serving.{PlacementAvailability, resolve_placement}

abbrev apple : PlacementAvailability
apple = record { cpu = true; cuda = false; mps = true }

falls_back : resolve_placement (some "CUDA") ("mps" ∷ []) apple ≡ ok "mps"
unfolding resolve_placement contains
falls_back = refl
