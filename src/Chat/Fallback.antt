-- ===== src/Chat/Fallback.antt =====
-- What `_find_fallback_deployment` (llm_platform/services/chat.py) returns.
use foundation_ai_platform.Prelude.{
  ℕ, ◌≤◌, String, ◌≡◌, ◌≢◌, ◌⊎◌, inl, inr, ap, refl, sym, subst, Bool, true, false, Bool-cases,
  ◌&&◌, Option, none, some, List, [], ◌∷◌, arith, Elem, All-elem,
}
use mathlib.Core.Option.{some-injective}
use foundation_ai_platform.Prelude.Dict.{Dict, lookup}
use foundation_ai_platform.Prelude.Sorting.{sort, sort-Elem, Elem-sort, sort-IsSorted, IsSorted}
use foundation_ai_platform.Schemas.Enums.{is_ready}
use foundation_ai_platform.Schemas.Records.{ModelRecord, DeploymentRecord}
use foundation_ai_platform.Concurrency.{ConcurrencyTracker}
use foundation_ai_platform.Registry.{list_models, list_deployments}
use foundation_ai_platform.Platform.{Platform, active_on}
use foundation_ai_platform.Chat.{
  model_by_id, offers, fallback_candidates, lighter, first_deployment, find_fallback_deployment,
}

-- A deployment that can take over: it is ready, and its model offers the capability.
pub record CanTakeOver (capability : String) (models : Dict ModelRecord)
    (ds : List DeploymentRecord) (d : DeploymentRecord) : Type 0 where
  pub listed : Elem d ds
  pub is_up : is_ready d.status ≡ true
  pub capable : offers capability (lookup d.model_id models) ≡ true

both : (b c : Bool) → (b && c) ≡ true → (b ≡ true) × (c ≡ true)
both b c h = ground arith

module _ (capability : String) (models : Dict ModelRecord)
    (tracker : Option ConcurrencyTracker) where
  abbrev found_in : List DeploymentRecord → List (ℕ × DeploymentRecord)
  found_in = fallback_candidates capability models tracker

  abbrev Sound : List DeploymentRecord → ℕ × DeploymentRecord → Type 0
  Sound ds c = (c.0 ≡ active_on tracker c.1.deployment_id) × CanTakeOver capability models ds c.1

  found_later :
      (d : DeploymentRecord) (ds : List DeploymentRecord) (c : ℕ × DeploymentRecord)
      → Sound ds c
      → Sound (d ∷ ds) c
  found_later d ds c (load, t) =
      (load, record { listed = inr t.listed; is_up = t.is_up; capable = t.capable })

  found_now :
      (d : DeploymentRecord) (ds : List DeploymentRecord) (c : ℕ × DeploymentRecord)
      → (is_ready d.status && offers capability (lookup d.model_id models)) ≡ true
      → (c ≡ (active_on tracker d.deployment_id, d)) ⊎ Sound ds c
      → Sound (d ∷ ds) c
  found_now d ds c t (inr s) = found_later d ds c s
  found_now d ds c t (inl e) =
      let (up, capable) = both _ _ t in
      subst (Sound (d ∷ ds)) (sym e)
        (refl, record { listed = inl refl; is_up = up; capable = capable })

  candidates-Sound :
      (ds : List DeploymentRecord) (c : ℕ × DeploymentRecord) → Elem c (found_in ds) → Sound ds c
  unfolding fallback_candidates
  candidates-Sound [] c m = absurd m
  candidates-Sound (d ∷ ds) c m =
      elim (Bool-cases (is_ready d.status && offers capability (lookup d.model_id models))) [
        | inl t ↦ elim (rw t at m) [
          | inl e ↦ found_now d ds c t (inl e)
          | inr k ↦ found_now d ds c t (inr (candidates-Sound ds c k))
        ]
        | inr f ↦ found_later d ds c (candidates-Sound ds c (rw f at m))
      ]

  abbrev Up : DeploymentRecord → Type 0
  Up x = is_ready x.status ≡ true

  abbrev Can : DeploymentRecord → Type 0
  Can x = offers capability (lookup x.model_id models) ≡ true

  candidates_complete :
      (ds : List DeploymentRecord) (d : DeploymentRecord)
      → CanTakeOver capability models ds d
      → Elem (active_on tracker d.deployment_id, d) (found_in ds)
  unfolding fallback_candidates
  candidates_complete [] d h = absurd h.listed
  candidates_complete (e ∷ ds) d h = elim h.listed [
    | inl same ↦
        subst (λ x. Elem (active_on tracker x.deployment_id, x) (found_in (e ∷ ds))) (sym same)
          (rw (subst Up same h.is_up, subst Can same h.capable) (inl refl))
    | inr m ↦
        let rest =
          candidates_complete ds d (record { listed = m; is_up = h.is_up; capable = h.capable }) in
        elim (Bool-cases (is_ready e.status && offers capability (lookup e.model_id models))) [
          | inl t ↦ rw t (inr rest)
          | inr f ↦ rw f rest
        ]
  ]

lighter_trans :
    (x y z : ℕ × DeploymentRecord) → lighter x y ≡ true → lighter y z ≡ true → lighter x z ≡ true
unfolding lighter
lighter_trans x y z h k = ground arith

lighter_total : (x y : ℕ × DeploymentRecord) → lighter x y ≡ false → lighter y x ≡ true
unfolding lighter
lighter_total x y h = ground arith

elim_least :
    (n : ℕ) (e : DeploymentRecord) (cs : List (ℕ × DeploymentRecord))
    → IsSorted lighter ((n, e) ∷ cs)
    → (c : ℕ × DeploymentRecord) → Elem c ((n, e) ∷ cs)
    → n ≤ c.0
unfolding lighter
elim_least n e cs s c (inl same) = rw same (omega arith)
elim_least n e cs s c (inr m) =
    let below = All-elem (λ y. lighter (n, e) y ≡ true) c cs s.0 m in ground arith

-- The first of a sorted list is the lightest.
first_least :
    (cs : List (ℕ × DeploymentRecord)) (d : DeploymentRecord)
    → IsSorted lighter cs
    → first_deployment cs ≡ some d
    → (n : ℕ) × Elem (n, d) cs × ((c : ℕ × DeploymentRecord) → Elem c cs → n ≤ c.0)
unfolding first_deployment lighter
first_least [] d s e = cc
first_least ((n, e) ∷ cs) d s h =
    let same : e ≡ d = some-injective _ _ h in
    (n, inl (ap (λ x. (n, x)) (sym same)), λ c. elim_least n e cs s c)

first_of :
    (cs : List (ℕ × DeploymentRecord)) (c : ℕ × DeploymentRecord)
    → Elem c cs
    → first_deployment cs ≢ none
unfolding first_deployment
first_of [] c m e = absurd m
first_of (x ∷ cs) c m e = cc

module _ {World : Type 0} (capability : String) (p : Platform World) where
  abbrev known : Dict ModelRecord
  known = model_by_id (list_models p.registry) []

  abbrev TakesOver : DeploymentRecord → Type 0
  TakesOver = CanTakeOver capability known (list_deployments p.registry)

  -- The fallback is a ready deployment whose model offers the capability, and none of these serves
  -- fewer requests.
  pub find_fallback_sound :
      (d : DeploymentRecord)
      → find_fallback_deployment capability p ≡ some d
      → TakesOver d
        × ((e : DeploymentRecord)
            → TakesOver e
            → active_on p.concurrency_tracker d.deployment_id
              ≤ active_on p.concurrency_tracker e.deployment_id)
  unfolding find_fallback_deployment
  find_fallback_sound d e =
      let cs =
        fallback_candidates capability known p.concurrency_tracker (list_deployments p.registry) in
      let (n, here, least) =
        first_least (sort lighter cs) d (sort-IsSorted lighter lighter_total lighter_trans cs) e in
      let (load, takes) =
        candidates-Sound capability known p.concurrency_tracker (list_deployments p.registry) (n, d)
          (sort-Elem lighter (n, d) cs here) in
      (
        takes,
        λ x h.
            subst (λ k. k ≤ active_on p.concurrency_tracker x.deployment_id) load
              (least _ (
                Elem-sort lighter _ cs (
                  candidates_complete capability known p.concurrency_tracker
                    (list_deployments p.registry) x h))),
      )

  -- There is a fallback whenever some ready deployment's model offers the capability.
  pub find_fallback_complete :
      (d : DeploymentRecord) → TakesOver d → find_fallback_deployment capability p ≢ none
  unfolding find_fallback_deployment
  find_fallback_complete d h e =
      first_of _ _
        (Elem-sort lighter _ _ (
          candidates_complete capability known p.concurrency_tracker (list_deployments p.registry) d
            h))
        e
