-- ===== src/Gpu.antt =====
-- llm_platform/services/gpu_tracker.py: the ledger of the memory that deployments hold.
pub mod Ledger
pub mod Eviction
use foundation_ai_platform.Prelude.{
  ℕ, zero, String, ◌≡◌, Bool, not, Option, none, some, List, [], ◌∷◌, if◌then◌else◌,
}
use foundation_ai_platform.Prelude.Int.{ℤ, pos, negsuc, ◌+ℤ◌, ◌-ℤ◌, leb_ℤ, ltb_ℤ}
use foundation_ai_platform.Prelude.Dict.{Dict, lookup, get_or, insert, erase, keys}
use foundation_ai_platform.Exec.{Result, ok, err}
use foundation_ai_platform.Value.{truth?}
use foundation_ai_platform.Schemas.Enums.{is_ready, is_warm_or_cold}
use foundation_ai_platform.Schemas.Records.{DeploymentRecord, LifecycleRecord}
use foundation_ai_platform.Registry.{Registry, get_deployment, get_lifecycle}

pub record GpuTracker : Type 0 where
  pub total_vram_gb : ℤ
  pub allocated : Dict ℤ

-- `sum(self._allocated.values())`
unfoldable pub total : Dict ℤ → ℤ
total [] = pos 0
total ((k, gb) ∷ d) = gb +ℤ total d

unfoldable pub allocated_vram_gb : GpuTracker → ℤ
unfolding total
allocated_vram_gb t = total t.allocated

unfoldable pub available_vram_gb : GpuTracker → ℤ
unfolding allocated_vram_gb
available_vram_gb t = t.total_vram_gb -ℤ allocated_vram_gb t

unfoldable pub can_fit : GpuTracker → ℤ → Bool
can_fit t memory_requirement_gb = leb_ℤ memory_requirement_gb (available_vram_gb t)

unfoldable pub allocate : String → ℤ → GpuTracker → GpuTracker
allocate deployment_id memory_gb t = record t {
  allocated = insert deployment_id memory_gb t.allocated;
}

unfoldable pub release : String → GpuTracker → GpuTracker
release deployment_id t = record t { allocated = erase deployment_id t.allocated }

-- `deployment_id in self._gpu_tracker.allocations`
unfoldable pub is_allocated : GpuTracker → String → Bool
is_allocated t deployment_id = elim (lookup deployment_id t.allocated) [
  | none ↦ Bool.false
  | some gb ↦ Bool.true
]

-- The tests of the loop body on one deployment: its idle seconds, or `none` where the body goes on
-- to the next. With no registry the call of `get_deployment` raises, which is caught.
lifecycle_idle : Option LifecycleRecord → Option ℕ
lifecycle_idle none = none
lifecycle_idle (some l) = if is_warm_or_cold l.state then some l.idle_duration_seconds else none

deployment_idle : Option LifecycleRecord → Result DeploymentRecord → Option ℕ
unfolding lifecycle_idle
deployment_idle l (err e) = none
deployment_idle l (ok d) =
    if not (is_ready d.status)
    then none
    else if truth? (lookup "is_permanent" d.metadata)
    then none
    else lifecycle_idle l

unfoldable pub evictable_idle : Option Registry → String → Option ℕ
unfolding deployment_idle
evictable_idle none k = none
evictable_idle (some r) k = deployment_idle (get_lifecycle r k) (get_deployment r k)

pub record Best : Type 0 where
  pub best_candidate : Option String
  pub best_idle_seconds : ℤ

abbrev pub no_candidate : Best
no_candidate = record { best_candidate = none; best_idle_seconds = negsuc 0 }

-- One round of the loop.
consider : String → Option ℕ → Best → Best
consider k none b = b
consider k (some idle) b =
    if ltb_ℤ b.best_idle_seconds (pos idle)
    then record { best_candidate = some k; best_idle_seconds = pos idle }
    else b

unfoldable pub longest_idle : Option Registry → Best → List String → Best
unfolding consider
longest_idle r b [] = b
longest_idle r b (k ∷ ks) = longest_idle r (consider k (evictable_idle r k) b) ks

-- The test behind the loop.
frees_enough : GpuTracker → ℤ → Option String → Option String
frees_enough t needed_gb none = none
frees_enough t needed_gb (some k) =
    if leb_ℤ needed_gb (available_vram_gb t +ℤ get_or k (pos 0) t.allocated) then some k else none

unfoldable pub find_evictable : GpuTracker → Option Registry → ℤ → Option String
unfolding frees_enough
find_evictable t r needed_gb =
    frees_enough t needed_gb (longest_idle r no_candidate (keys t.allocated)).best_candidate
