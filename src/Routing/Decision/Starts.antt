-- ===== src/Routing/Decision/Starts.antt =====
-- Where the candidates of phase 3b of `route` (llm_platform/routing/router.py) come from.
use foundation_ai_platform.Prelude.{
  String, ◌≡◌, refl, inl, inr, false, List, [], ◌∷◌, Option, none, some, Elem, All, All-elem,
  All-of_Elem, Bool-cases, truthy,
}
use foundation_ai_platform.Prelude.Sorting.{sort-Elem, Elem-sort}
use foundation_ai_platform.Gpu.{GpuTracker, can_fit, find_evictable}
use foundation_ai_platform.Registry.{Registry}
use foundation_ai_platform.Routing.Groups.{RouteRequest}
use foundation_ai_platform.Routing.Categories.{OnDisk, Trackers}
use foundation_ai_platform.Routing.Decision.{
  Random, ScaleOut, scale_out, with_eviction, scale_out_candidates, or_queue, prefers,
  by_preference, scale_out_list,
}

-- When a candidate with an eviction is made: the model does not fit, and the tracker names `k`.
abbrev pub NeedsEviction : Option GpuTracker → Option Registry → OnDisk → String → Type 0
NeedsEviction gpu registry d k =
    (t : GpuTracker) × (gpu ≡ some t)
    × (can_fit t d.model.memory_requirement_gb ≡ false)
    × (find_evictable t registry d.model.memory_requirement_gb ≡ some k)

module _ (P : ScaleOut → Type 0) where
  with_eviction-All :
      (d : OnDisk) (o : Option String) (rest : List ScaleOut)
      → ((k : String) → o ≡ some k → P (scale_out d (some k)))
      → All P rest
      → All P (with_eviction d o rest)
  unfolding with_eviction
  with_eviction-All d none rest h k = k
  with_eviction-All d (some id) rest h k = elim (Bool-cases (truthy id)) [
    | inl y ↦ rw y (h id refl, k)
    | inr n ↦ rw n k
  ]

  module _ (registry : Option Registry) where
    scale_out_candidates-All :
        (gpu : Option GpuTracker) (ds : List OnDisk)
        → ((d : OnDisk) → Elem d ds → P (scale_out d none))
        → ((d : OnDisk) (k : String)
            → Elem d ds
            → NeedsEviction gpu registry d k
            → P (scale_out d (some k)))
        → All P (scale_out_candidates gpu registry ds)
    unfolding scale_out_candidates
    scale_out_candidates-All gpu [] f g = tt
    scale_out_candidates-All none (d ∷ ds) f g = (
      f d (inl refl),
      scale_out_candidates-All none ds (λ d' m. f d' (inr m)) (λ d' k m. g d' k (inr m)),
    )
    scale_out_candidates-All (some t) (d ∷ ds) f g =
        let rest =
          scale_out_candidates-All (some t) ds (λ d' m. f d' (inr m)) (λ d' k m. g d' k (inr m)) in
        elim (Bool-cases (can_fit t d.model.memory_requirement_gb)) [
          | inl y ↦ rw y (f d (inl refl), rest)
          | inr n ↦ rw n (
              with_eviction-All d (find_evictable t registry d.model.memory_requirement_gb) _
                (λ k e. g d k (inl refl) (t, refl, n, e)) rest)
        ]

  or_queue-All :
      (ds : List OnDisk) (cs : List ScaleOut)
      → ((d : OnDisk) → Elem d ds → P (scale_out d none))
      → All P cs
      → All P (or_queue ds cs)
  unfolding or_queue
  or_queue-All [] [] f h = tt
  or_queue-All (d ∷ ds) [] f h = (f d (inl refl), or_queue-All ds [] (λ d' m. f d' (inr m)) tt)
  or_queue-All ds (c ∷ cs) f h = h

  by_preference-All :
      (o : Option String) (cs : List ScaleOut) → All P cs → All P (by_preference o cs)
  unfolding by_preference
  by_preference-All none cs h = h
  by_preference-All (some id) cs h = elim (Bool-cases (truthy id)) [
    | inl y ↦ rw y (All-of_Elem P _ λ c m. All-elem P c cs h (sort-Elem (prefers id) c cs m))
    | inr n ↦ rw n h
  ]

  -- What holds of each model on disk, started as it is or behind an eviction that the tracker asks
  -- for, holds of every candidate.
  pub scale_out_list-All :
      (random : Random) (trackers : Trackers) (request : RouteRequest) (ds : List OnDisk)
      → ((d : OnDisk) → Elem d ds → P (scale_out d none))
      → ((d : OnDisk) (k : String)
          → Elem d ds
          → NeedsEviction trackers.gpu request.registry d k
          → P (scale_out d (some k)))
      → All P (scale_out_list random trackers request ds)
  unfolding scale_out_list
  scale_out_list-All random trackers request ds f g =
      by_preference-All request.preferred_model_id _
        (or_queue-All ds _ f (scale_out_candidates-All request.registry trackers.gpu ds f g))

or_queue-nonempty :
    (d : OnDisk) (ds : List OnDisk) (cs : List ScaleOut)
    → (c : ScaleOut) × Elem c (or_queue (d ∷ ds) cs)
unfolding or_queue
or_queue-nonempty d ds [] = (scale_out d none, inl refl)
or_queue-nonempty d ds (c ∷ cs) = (c, inl refl)

by_preference-keeps :
    (o : Option String) (c : ScaleOut) (cs : List ScaleOut)
    → Elem c cs
    → Elem c (by_preference o cs)
unfolding by_preference
by_preference-keeps none c cs m = m
by_preference-keeps (some id) c cs m = elim (Bool-cases (truthy id)) [
  | inl y ↦ rw y (Elem-sort (prefers id) c cs m)
  | inr n ↦ rw n m
]

-- With a model on disk there is a candidate.
pub scale_out_list-nonempty :
    (random : Random) (trackers : Trackers) (request : RouteRequest) (d : OnDisk) (ds : List OnDisk)
    → (c : ScaleOut) × Elem c (scale_out_list random trackers request (d ∷ ds))
unfolding scale_out_list
scale_out_list-nonempty random trackers request d ds =
    let (c, m) =
      or_queue-nonempty d ds (scale_out_candidates trackers.gpu request.registry (d ∷ ds)) in
    (c, by_preference-keeps request.preferred_model_id c _ m)
