-- ===== src/Gpu/Ledger/Tests.antt =====
-- The ledger on small inputs (llm_platform/services/gpu_tracker.py).
use foundation_ai_platform.Prelude.{◌≡◌, refl, true, false, arith}
use foundation_ai_platform.Prelude.Int.{pos, ◌+ℤ◌, ◌-ℤ◌}
use foundation_ai_platform.Prelude.Dict.{lookup, insert, erase}
use foundation_ai_platform.Samples.{card}
use foundation_ai_platform.Gpu.{allocated_vram_gb, available_vram_gb, can_fit, allocate, release}
use foundation_ai_platform.Gpu.Ledger.{held, IsWithinBudget, allocate-IsWithinBudget}

program : Unit {0}
unfolding allocated_vram_gb available_vram_gb can_fit allocate release lookup insert erase ◌+ℤ◌ ◌-ℤ◌
program = tt

card_has_room : (can_fit card (pos 12) ≡ true) × (can_fit card (pos 13) ≡ false)
unfolding program
card_has_room = (refl, refl)

card_holds : held card "d1" ≡ pos 6
unfolding program
card_holds = refl

allocate-IsWithinBudget_example : IsWithinBudget (allocate "d1" (pos 12) card)
allocate-IsWithinBudget_example =
    allocate-IsWithinBudget "d1" (pos 12) card card_has_room.0 (rw card_holds (omega arith))
