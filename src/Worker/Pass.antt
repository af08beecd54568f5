-- ===== src/Worker/Pass.antt =====
-- A whole pass of the loop of llm_platform/services/lifecycle_worker.py: the round of a deployment
-- happens in a state that still agrees with the first one about it.
use foundation_ai_platform.Prelude.{
  String, ◌≡◌, ◌⊎◌, inl, inr, refl, sym, ◌∙◌, false, List, [], ◌∷◌, ◌==◌, eq_iff, arith, All,
  All-elem, Elem, subst, ◌≢◌,
}
use foundation_ai_platform.Prelude.Dict.{lookup}
use foundation_ai_platform.Exec.{Result, ok, err, for_each, continue}
use foundation_ai_platform.Schemas.Records.{DeploymentRecord}
use foundation_ai_platform.Lifecycle.{LifecycleManager}
use foundation_ai_platform.Registry.Listing.{Distinct}
use foundation_ai_platform.Platform.{
  Host, IsWorking, IsWellFormed, remove_named-ok, Platform, SameAt, SameAt-refl, SameAt-trans,
}
use foundation_ai_platform.Worker.{visit}
use foundation_ai_platform.Worker.Steps.{
  IsHeld, Visited, spared, kept, stuck, scaled, visit-Visited,
}
use foundation_ai_platform.Worker.Frame.{Visited-SameAt, Visited-IsWellFormed}

abbrev IsOther : String → DeploymentRecord → Type 0
IsOther id e = (id == e.deployment_id) ≡ false

Other-swap : (id : String) (e : DeploymentRecord) → IsOther id e → (e.deployment_id == id) ≡ false
Other-swap id e h = ground (arith, eq_iff id e.deployment_id, eq_iff e.deployment_id id)

module _ {World : Type 0} where
  IsHeld-SameAt :
      (p q : Platform World) (d : DeploymentRecord)
      → IsHeld p d
      → SameAt d.deployment_id p q
      → IsHeld q d
  IsHeld-SameAt p q d held s = record {
    own = sym s.deployment ∙ held.own;
    life = λ l e. held.life l (s.lifecycle ∙ e);
  }

module _ {World : Type 0} (host : Host World) (manager : LifecycleManager) where
  next-Held :
      (p : Platform World) (d : DeploymentRecord) (r : Result (Unit {0}) × Platform World)
      → IsHeld p d
      → Visited host manager p d r
      → (es : List DeploymentRecord) → All (IsOther d.deployment_id) es
      → All (IsHeld p) es
      → All (IsHeld r.1) es
  next-Held p d r held v [] o h = tt
  next-Held p d r held v (e ∷ es) o h = (
    IsHeld-SameAt p r.1 e h.0 (Visited-SameAt host manager p d r held v e.deployment_id o.0),
    next-Held p d r held v es o.1 h.1,
  )

  abbrev pub pass : List DeploymentRecord → Platform World → Result (Unit {0}) × Platform World
  pass = for_each (visit host manager)

  continue-SameAt :
      (j : String) (p : Platform World) (ds : List DeploymentRecord)
      (r : Result (Unit {0}) × Platform World)
      → SameAt j p r.1
      → SameAt j r.1 (pass ds r.1).1
      → SameAt j p (continue r.0 (λ _. pass ds) r.1).1
  continue-SameAt j p ds (ok tt, q) s t = SameAt-trans s t
  continue-SameAt j p ds (err e, q) s t = s

  -- What a pass over other deployments leaves alone.
  pub pass-SameAt :
      (j : String) (ds : List DeploymentRecord) (p : Platform World)
      → All (IsHeld p) ds
      → Distinct ds
      → All (IsOther j) ds
      → SameAt j p (pass ds p).1
  unfolding for_each
  pass-SameAt j [] p h u o = SameAt-refl j p
  pass-SameAt j (d ∷ ds) p h u o =
      let v = visit-Visited host manager p d h.0 in
      continue-SameAt j p ds (visit host manager d p)
        (Visited-SameAt host manager p d _ h.0 v j (Other-swap j d o.0))
        (pass-SameAt j ds _ (next-Held p d _ h.0 v ds u.0 h.1) u.1 o.1)

  -- The round of `d` in the course of a pass that ends in `final`.
  pub record Reached (d : DeploymentRecord) (p final : Platform World) : Type 0 where
    pub before : Platform World
    pub step : Result (Unit {0}) × Platform World
    pub until : SameAt d.deployment_id p before
    pub sound : IsWellFormed p → IsWellFormed before
    pub visited : Visited host manager before d step
    pub after : SameAt d.deployment_id step.1 final

  -- A pass that raises may end before the round of `d`.
  abbrev pub Outcome :
      DeploymentRecord → Platform World → Result (Unit {0}) × Platform World → Type 0
  Outcome d p r = Reached d p r.1 ⊎ ((r.0 ≢ ok tt) × SameAt d.deployment_id p r.1)

  continue-Outcome :
      (d : DeploymentRecord) (p : Platform World) (ds : List DeploymentRecord)
      (r : Result (Unit {0}) × Platform World)
      → SameAt d.deployment_id p r.1
      → (IsWellFormed p → IsWellFormed r.1)
      → Outcome d r.1 (pass ds r.1)
      → Outcome d p (continue r.0 (λ _. pass ds) r.1)
  continue-Outcome d p ds (err e, q) s keep o = inr ((λ e. cc), s)
  continue-Outcome d p ds (ok tt, q) s keep (inr (e, t)) = inr (e, SameAt-trans s t)
  continue-Outcome d p ds (ok tt, q) s keep (inl t) = inl (record {
    before = t.before;
    step = t.step;
    until = SameAt-trans s t.until;
    sound = λ h. t.sound (keep h);
    visited = t.visited;
    after = t.after;
  })

  pub pass-Outcome :
      (d : DeploymentRecord) (ds : List DeploymentRecord) (p : Platform World)
      → All (IsHeld p) ds
      → Distinct ds
      → Elem d ds
      → Outcome d p (pass ds p)
  unfolding for_each
  pass-Outcome d [] p h u m = absurd m
  pass-Outcome d (e ∷ ds) p h u (inr m) =
      let v = visit-Visited host manager p e h.0 in
      let other = All-elem (IsOther e.deployment_id) d ds u.0 m in
      continue-Outcome d p ds (visit host manager e p)
        (Visited-SameAt host manager p e _ h.0 v d.deployment_id other)
        (Visited-IsWellFormed host manager p e _ v)
        (pass-Outcome d ds _ (next-Held p e _ h.0 v ds u.0 h.1) u.1 m)
  pass-Outcome d (e ∷ ds) p h u (inl same) =
      let v = visit-Visited host manager p e h.0 in
      let r = visit host manager e p in
      subst (λ x. Outcome x p (pass (e ∷ ds) p)) (sym same)
        (inl (record {
          before = p;
          step = r;
          until = SameAt-refl e.deployment_id p;
          sound = λ h. h;
          visited = v;
          after =
              continue-SameAt e.deployment_id r.1 ds r (SameAt-refl e.deployment_id r.1)
                (pass-SameAt e.deployment_id ds _ (next-Held p e _ h.0 v ds u.0 h.1) u.1 u.0);
        }))

  Visited-ok :
      (p : Platform World) (d : DeploymentRecord) (r : Result (Unit {0}) × Platform World)
      → IsWorking host
      → Visited host manager p d r
      → r.0 ≡ ok tt
  Visited-ok p d r works (spared s) = refl
  Visited-ok p d r works (kept l el c) = refl
  Visited-ok p d r works (stuck l e w el c x) =
      let fine = remove_named-ok host works (lookup "container_name" d.metadata) p.world in
      cc (fine, x)
  Visited-ok p d r works (scaled l w el c) = refl

  continue-ok :
      (ds : List DeploymentRecord) (r : Result (Unit {0}) × Platform World)
      → r.0 ≡ ok tt
      → (pass ds r.1).0 ≡ ok tt
      → (continue r.0 (λ _. pass ds) r.1).0 ≡ ok tt
  continue-ok ds (ok tt, q) e f = f
  continue-ok ds (err x, q) e f = e

  -- Where Docker answers, no round ends the pass.
  pub pass-ok :
      (ds : List DeploymentRecord) (p : Platform World)
      → IsWorking host
      → All (IsHeld p) ds
      → Distinct ds
      → (pass ds p).0 ≡ ok tt
  unfolding for_each
  pass-ok [] p works h u = refl
  pass-ok (d ∷ ds) p works h u =
      let v = visit-Visited host manager p d h.0 in
      continue-ok ds (visit host manager d p) (Visited-ok p d _ works v)
        (pass-ok ds _ works (next-Held p d _ h.0 v ds u.0 h.1) u.1)

  continue-IsWellFormed :
      (ds : List DeploymentRecord) (r : Result (Unit {0}) × Platform World)
      → IsWellFormed r.1
      → IsWellFormed (pass ds r.1).1
      → IsWellFormed (continue r.0 (λ _. pass ds) r.1).1
  continue-IsWellFormed ds (ok tt, q) s t = t
  continue-IsWellFormed ds (err e, q) s t = s

  pub pass-IsWellFormed :
      (ds : List DeploymentRecord) (p : Platform World)
      → All (IsHeld p) ds
      → Distinct ds
      → IsWellFormed p
      → IsWellFormed (pass ds p).1
  unfolding for_each
  pass-IsWellFormed [] p h u w = w
  pass-IsWellFormed (d ∷ ds) p h u w =
      let v = visit-Visited host manager p d h.0 in
      let next = Visited-IsWellFormed host manager p d _ v w in
      continue-IsWellFormed ds (visit host manager d p) next
        (pass-IsWellFormed ds _ (next-Held p d _ h.0 v ds u.0 h.1) u.1 next)
