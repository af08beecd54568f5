-- ===== src/Gpu/Eviction/Tests.antt =====
-- Evictions on small inputs (llm_platform/services/gpu_tracker.py).
use foundation_ai_platform.Prelude.{◌≡◌, refl, none, some}
use foundation_ai_platform.Prelude.Int.{pos, ◌+ℤ◌, ◌-ℤ◌}
use foundation_ai_platform.Prelude.Dict.{lookup, keys}
use foundation_ai_platform.Registry.{get_deployment, get_lifecycle}
use foundation_ai_platform.Samples.{store, card}
use foundation_ai_platform.Gpu.{available_vram_gb, evictable_idle, longest_idle, find_evictable}
use foundation_ai_platform.Gpu.Eviction.{IsLongestIdle, find_evictable_sound}

program : Unit {0}
unfolding available_vram_gb evictable_idle longest_idle find_evictable get_deployment get_lifecycle
    lookup keys ◌+ℤ◌ ◌-ℤ◌
program = tt

evicts_idle : find_evictable card (some store) (pos 14) ≡ some "d1"
unfolding program
evicts_idle = refl

frees_too_little : find_evictable card (some store) (pos 19) ≡ none
unfolding program
frees_too_little = refl

find_evictable_sound_example : IsLongestIdle store card "d1"
find_evictable_sound_example = find_evictable_sound card store (pos 14) "d1" evicts_idle
