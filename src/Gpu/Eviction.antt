-- ===== src/Gpu/Eviction.antt =====
-- What `find_evictable` (llm_platform/services/gpu_tracker.py) returns.
mod Tests
use foundation_ai_platform.Prelude.{
  ℕ, String, ◌≤◌, ◌≡◌, refl, sym, ap, subst, ◌∙◌, ◌⊎◌, inl, inr, Bool, true, false, Option, none,
  some, List, [], ◌∷◌, arith, Elem, Bool-cases, Option-cases, if◌then◌else◌,
}
use mathlib.Core.Option.{some-injective}
use foundation_ai_platform.Prelude.Int.{
  ℤ, pos, negsuc, pos_part, neg_part, ◌+ℤ◌, ◌≤ℤ◌, leb_ℤ, ltb_ℤ, le→leb_ℤ, leb_ℤ→le,
}
use foundation_ai_platform.Prelude.Dict.{lookup, keys}
use foundation_ai_platform.Exec.{Result, ok, err}
use foundation_ai_platform.Value.{truth?}
use foundation_ai_platform.Schemas.Enums.{is_warm_or_cold, DeploymentStatus, LifecycleState}
use foundation_ai_platform.Schemas.Records.{DeploymentRecord, LifecycleRecord}
use foundation_ai_platform.Registry.{Registry, get_deployment, get_lifecycle}
use foundation_ai_platform.Gpu.{
  GpuTracker, Best, no_candidate, available_vram_gb, can_fit, release, evictable_idle,
  deployment_idle, lifecycle_idle, consider, longest_idle, frees_enough, find_evictable,
}
use foundation_ai_platform.Gpu.Ledger.{held, release_accounts}

-- A deployment that may be evicted, with its idle time: it is ready, it is not permanent, and its
-- lifecycle is WARM or COLD.
pub record IsEvictable (r : Registry) (k : String) (idle : ℕ) : Type 0 where
  pub deployment : DeploymentRecord
  pub lifecycle : LifecycleRecord
  pub stored : get_deployment r k ≡ ok deployment
  pub tracked : get_lifecycle r k ≡ some lifecycle
  pub is_ready : deployment.status ≡ DeploymentStatus.ready
  pub not_permanent : truth? (lookup "is_permanent" deployment.metadata) ≡ false
  pub is_idle : (lifecycle.state ≡ LifecycleState.warm) ⊎ (lifecycle.state ≡ LifecycleState.cold)
  pub idle_time : lifecycle.idle_duration_seconds ≡ idle

evictable_idle_sound :
    (r : Registry) (k : String) (idle : ℕ)
    → evictable_idle (some r) k ≡ some idle
    → IsEvictable r k idle
unfolding evictable_idle
evictable_idle_sound r k idle e = go (get_deployment r k) refl (get_lifecycle r k) refl e
  where
    go :
        (d : Result DeploymentRecord)
        → get_deployment r k ≡ d
        → (l : Option LifecycleRecord) → get_lifecycle r k ≡ l
        → deployment_idle l d ≡ some idle
        → IsEvictable r k idle
    go (ok d) p (some l) q e = record {
      deployment = d;
      lifecycle = l;
      stored = p;
      tracked = q;
      is_ready = ground arith;
      not_permanent = ground arith;
      is_idle = ground arith;
      idle_time = ground arith;
    }
    go (err x) p l q e = cc
    go (ok d) p none q e = ground arith

-- What the loop has found once it has gone over `ks` from `b`: an entry of `ks`, or still `b`.
abbrev Found : Option Registry → Best → List String → Best → Type 0
Found r b ks c =
    (c ≡ b)
    ⊎ ((k : String) × (idle : ℕ) × Elem k ks
        × (evictable_idle r k ≡ some idle)
        × (c ≡ record { best_candidate = some k; best_idle_seconds = pos idle }))

consider_cases :
    (k : String) (o : Option ℕ) (b : Best)
    → (consider k o b ≡ b)
      ⊎ ((idle : ℕ) × (o ≡ some idle)
          × (consider k o b ≡ record { best_candidate = some k; best_idle_seconds = pos idle }))
unfolding consider
consider_cases k none b = inl refl
consider_cases k (some idle) b = elim (Bool-cases (ltb_ℤ b.best_idle_seconds (pos idle))) [
  | inl t ↦ inr (idle, refl, rw t)
  | inr f ↦ inl (rw f)
]

longest_idle-Found :
    (r : Option Registry) (b : Best) (ks : List String) → Found r b ks (longest_idle r b ks)
unfolding longest_idle
longest_idle-Found r b [] = inl refl
longest_idle-Found r b (k ∷ ks) =
    elim (longest_idle-Found r (consider k (evictable_idle r k) b) ks) [
      | inr (j, idle, m, e, c) ↦ inr (j, idle, inr m, e, c)
      | inl c ↦ elim (consider_cases k (evictable_idle r k) b) [
        | inl same ↦ inl (c ∙ same)
        | inr (idle, e, new) ↦ inr (k, idle, inl refl, e, c ∙ new)
      ]
    ]

consider_grows :
    (k : String) (o : Option ℕ) (b : Best)
    → b.best_idle_seconds ≤ℤ (consider k o b).best_idle_seconds
unfolding consider
consider_grows k none b = omega arith
consider_grows k (some idle) b = ground arith

longest_idle_grows :
    (r : Option Registry) (b : Best) (ks : List String)
    → b.best_idle_seconds ≤ℤ (longest_idle r b ks).best_idle_seconds
unfolding longest_idle
longest_idle_grows r b [] = omega arith
longest_idle_grows r b (k ∷ ks) = omega (
  arith,
  consider_grows k (evictable_idle r k) b,
  longest_idle_grows r (consider k (evictable_idle r k) b) ks,
)

consider_takes :
    (k : String) (idle : ℕ) (b : Best) → pos idle ≤ℤ (consider k (some idle) b).best_idle_seconds
unfolding consider
consider_takes k idle b = ground arith

longest_idle_is_longest :
    (r : Option Registry) (b : Best) (ks : List String) (j : String) (idle : ℕ)
    → Elem j ks
    → evictable_idle r j ≡ some idle
    → pos idle ≤ℤ (longest_idle r b ks).best_idle_seconds
unfolding longest_idle
longest_idle_is_longest r b (k ∷ ks) j idle (inl e) h =
    let h' : evictable_idle r k ≡ some idle = cc in
    let taken : pos idle ≤ℤ (consider k (evictable_idle r k) b).best_idle_seconds =
      rw h' (consider_takes k idle b) in
    omega (arith, longest_idle_grows r (consider k (evictable_idle r k) b) ks)
longest_idle_is_longest r b (k ∷ ks) j idle (inr m) h =
    longest_idle_is_longest r (consider k (evictable_idle r k) b) ks j idle m h
longest_idle_is_longest r b [] j idle m h = absurd m

-- The candidate that the loop ends with, if there is one, has the longest idle time of all.
pub record IsLongestIdle (r : Registry) (t : GpuTracker) (k : String) : Type 0 where
  pub idle : ℕ
  pub allocated : Elem k (keys t.allocated)
  pub evictable : IsEvictable r k idle
  pub longest :
      (j : String) (other : ℕ)
      → Elem j (keys t.allocated)
      → evictable_idle (some r) j ≡ some other
      → other ≤ idle

frees_enough_same :
    (t : GpuTracker) (gb : ℤ) (o : Option String) (k : String)
    → frees_enough t gb o ≡ some k
    → (o ≡ some k) × (gb ≤ℤ available_vram_gb t +ℤ held t k)
unfolding frees_enough
frees_enough_same t gb none k e = cc
frees_enough_same t gb (some j) k e =
    elim (Bool-cases (leb_ℤ gb (available_vram_gb t +ℤ held t j))) [
      | inl y ↦
          let same : j ≡ k = some-injective _ _ (rw y at e) in
          (ap some same, rw (← same) (leb_ℤ→le gb _ y))
      | inr n ↦ cc (rw n at e)
    ]

-- Evicting what `find_evictable` names makes room: after its release the memory asked for fits.
pub find_evictable-can_fit :
    (t : GpuTracker) (r : Option Registry) (gb : ℤ) (k : String)
    → find_evictable t r gb ≡ some k
    → can_fit (release k t) gb ≡ true
unfolding find_evictable can_fit
find_evictable-can_fit t r gb k e =
    rw (release_accounts k t) (le→leb_ℤ gb _ (frees_enough_same t gb _ k e).1)

best_candidate-Found :
    (r : Registry) (t : GpuTracker) (ks : List String) (k : String) (c : Best)
    → ((j : String) (other : ℕ)
        → Elem j ks
        → evictable_idle (some r) j ≡ some other
        → pos other ≤ℤ c.best_idle_seconds)
    → c.best_candidate ≡ some k
    → Found (some r) no_candidate ks c
    → (idle : ℕ) × Elem k ks
      × IsEvictable r k idle
      × ((j : String) (other : ℕ)
          → Elem j ks
          → evictable_idle (some r) j ≡ some other
          → other ≤ idle)
best_candidate-Found r t ks k c all e (inl p) = cc (ap (λ (b : Best). b.best_candidate) p)
best_candidate-Found r t ks k c all e (inr (j, idle, m, h, p)) =
    let same : j ≡ k = some-injective _ _ (sym (ap (λ (b : Best). b.best_candidate) p) ∙ e) in
    (
      idle,
      subst (λ x. Elem x ks) same m,
      evictable_idle_sound r k idle (rw (← same) h),
      λ i other mi hi.
          let below : pos other ≤ℤ pos idle = rw p at (all i other mi hi) in omega arith,
    )

-- What `find_evictable` names is allocated, ready, not permanent and WARM or COLD, and no other
-- allocated deployment that could be evicted has been idle for longer.
pub find_evictable_sound :
    (t : GpuTracker) (r : Registry) (gb : ℤ) (k : String)
    → find_evictable t (some r) gb ≡ some k
    → IsLongestIdle r t k
unfolding find_evictable
find_evictable_sound t r gb k e =
    let c = longest_idle (some r) no_candidate (keys t.allocated) in
    let (idle, m, ev, all) =
      best_candidate-Found r t (keys t.allocated) k c
        (λ j other. longest_idle_is_longest (some r) no_candidate (keys t.allocated) j other)
        (frees_enough_same t gb _ k e).0
        (longest_idle-Found (some r) no_candidate (keys t.allocated)) in
    record { idle = idle; allocated = m; evictable = ev; longest = all }

longest_idle_no_registry : (b : Best) (ks : List String) → longest_idle none b ks ≡ b
unfolding longest_idle evictable_idle consider
longest_idle_no_registry b [] = refl
longest_idle_no_registry b (k ∷ ks) = longest_idle_no_registry b ks

-- Without a registry nothing is evictable.
pub find_evictable_no_registry : (t : GpuTracker) (gb : ℤ) → find_evictable t none gb ≡ none
unfolding find_evictable frees_enough
find_evictable_no_registry t gb = rw (longest_idle_no_registry no_candidate (keys t.allocated))
