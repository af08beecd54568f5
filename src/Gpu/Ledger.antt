-- ===== src/Gpu/Ledger.antt =====
-- What `allocate` and `release` (llm_platform/services/gpu_tracker.py) do to the sums.
mod Tests
use foundation_ai_platform.Prelude.{
  ℕ, String, ◌≡◌, refl, sym, Bool, true, false, inl, inr, List, [], ◌∷◌, arith, ◌==◌, Bool-cases,
  if◌then◌else◌,
}
use foundation_ai_platform.Prelude.Int.{
  ℤ, pos, negsuc, pos_part, neg_part, ◌+ℤ◌, ◌-ℤ◌, ◌≤ℤ◌, leb_ℤ, leb_ℤ→le, parts_of_eq, int_laws,
}
use foundation_ai_platform.Prelude.Dict.{Dict, lookup, get_or, insert, erase}
use foundation_ai_platform.Gpu.{
  GpuTracker, total, allocated_vram_gb, available_vram_gb, can_fit, allocate, release,
}

-- What a deployment holds: `self._allocated.get(deployment_id, 0)`.
abbrev pub held : GpuTracker → String → ℤ
held t k = get_or k (pos 0) t.allocated

total-insert :
    (k : String) (gb : ℤ) (d : Dict ℤ) → total (insert k gb d) +ℤ get_or k (pos 0) d ≡ total d +ℤ gb
unfolding total insert lookup
total-insert k gb [] = omega int_laws
total-insert k gb ((j, w) ∷ d) = grind (int_laws, total-insert k gb d)

total-erase : (k : String) (d : Dict ℤ) → total (erase k d) +ℤ get_or k (pos 0) d ≡ total d
unfolding total erase lookup
total-erase k [] = omega int_laws
total-erase k ((j, w) ∷ d) = grind (int_laws, total-erase k d)

-- Allocating replaces what the deployment held, so a second call for it counts once.
pub allocate_accounts :
    (k : String) (gb : ℤ) (t : GpuTracker)
    → allocated_vram_gb (allocate k gb t) +ℤ held t k ≡ allocated_vram_gb t +ℤ gb
unfolding allocated_vram_gb allocate
allocate_accounts k gb t = total-insert k gb t.allocated

-- Releasing gives back exactly what the deployment held.
pub release_accounts :
    (k : String) (t : GpuTracker)
    → available_vram_gb (release k t) ≡ available_vram_gb t +ℤ held t k
unfolding available_vram_gb release allocated_vram_gb
release_accounts k t = omega (int_laws, parts_of_eq (total-erase k t.allocated))

-- The ledger does not promise more memory than there is.
abbrev pub IsWithinBudget : GpuTracker → Type 0
IsWithinBudget t = pos 0 ≤ℤ available_vram_gb t

-- A deployment that passed `can_fit` is within the budget after its allocation, whatever it held.
pub allocate-IsWithinBudget :
    (k : String) (gb : ℤ) (t : GpuTracker)
    → can_fit t gb ≡ true
    → pos 0 ≤ℤ held t k
    → IsWithinBudget (allocate k gb t)
unfolding can_fit available_vram_gb allocate
allocate-IsWithinBudget k gb t fits nonneg =
    omega (int_laws, parts_of_eq (allocate_accounts k gb t), leb_ℤ→le gb (available_vram_gb t) fits)
