-- ===== src/Cache/Estimates.antt =====
-- How much memory llm_platform/bootstrap.py asks for a cached model.
use foundation_ai_platform.Prelude.{
  ℕ, ◌+◌, ◌-◌, ◌*◌, ◌/◌, ◌≤◌, ◌<◌, ◌≡◌, refl, ◌⊎◌, inl, inr, String, false, Option, some,
  if◌then◌else◌, arith, nat_eq, leb, Bool-cases,
}
use foundation_ai_platform.Prelude.Int.{ℤ, pos, ◌+ℤ◌}
use foundation_ai_platform.Cache.{
  Snapshot, ModelDir, gib, ceil_gib, vram_of, total_bytes, active_snapshot, vram_of_snapshot,
  read_model_vram_from_cache,
}

-- Room for the weights and two gigabytes, at least three in all and less than one too many.
abbrev pub Fits : ℕ → ℕ → Type 0
Fits n v = (3 ≤ v) × (n + 2 * gib ≤ v * gib) × ((v ≡ 3) ⊎ (v * gib < n + 3 * gib))

add_two : (c : ℕ) → pos c +ℤ pos 2 ≡ pos (c + 2)
unfolding ◌+ℤ◌
add_two c = ground arith

vram_of_lem :
    (n : ℕ) → let c = (n + (gib - 1)) / gib in vram_of (pos n) ≡ pos (if leb c 1 then 3 else c + 2)
unfolding vram_of ceil_gib
vram_of_lem n = ground (arith, add_two ((n + (gib - 1)) / gib))

vram_of-Fits : (n : ℕ) → (v : ℕ) × (vram_of (pos n) ≡ pos v) × Fits n v
vram_of-Fits n =
    let c = (n + (gib - 1)) / gib in
    (
      if leb c 1 then 3 else c + 2,
      vram_of_lem n,
      (
        ground arith,
        ground arith,
        elim (Bool-cases (leb c 1)) [
          | inl small ↦ rw small (inl refl)
          | inr large ↦ rw large (inr (omega arith))
        ],
      ),
    )

-- Where the weights of a cached model are found, the memory that is asked for fits them.
pub read_model_vram-Fits :
    (int_text : String → Option ℤ) (d : ModelDir) (s : Snapshot) (n : ℕ)
    → active_snapshot d ≡ some s
    → total_bytes int_text s ≡ pos n
    → 0 < n
    → (v : ℕ) × (read_model_vram_from_cache int_text d ≡ pos v) × Fits n v
unfolding read_model_vram_from_cache vram_of_snapshot
read_model_vram-Fits int_text d s n active total some_bytes =
    rw (active, total) (rw (not_zero n some_bytes) (vram_of-Fits n))
  where
    not_zero : (n : ℕ) → 0 < n → nat_eq n 0 ≡ false
    not_zero n h = ground arith
