-- ===== src/Chat/Tasks/Safety.antt =====
-- What holds of the locks and of the counts however requests to `chat`
-- (llm_platform/services/chat.py) are interleaved.
use foundation_ai_platform.Prelude.{
  ℕ, ◌+◌, ◌≤◌, ◌≡◌, refl, sym, ap, ◌∙◌, String, Bool, false, Bool-cases, inl, inr, Option, none,
  some, List, [], ◌∷◌, ◌++◌, arith,
}
use foundation_ai_platform.Prelude.Dict.{lookup, get_or}
use foundation_ai_platform.Exec.{pure, for_each}
use foundation_ai_platform.Value.{truth?}
use foundation_ai_platform.Schemas.Enums.{is_ready}
use foundation_ai_platform.Schemas.Records.{DeploymentRecord, LifecycleRecord}
use foundation_ai_platform.Lifecycle.{LifecycleManager}
use foundation_ai_platform.Registry.{get_lifecycle, list_deployments}
use foundation_ai_platform.Platform.{Host, Platform, unload_deployment}
use foundation_ai_platform.Worker.{scale_to_zero, reconcile_record, visit, tick}
use foundation_ai_platform.Balanced.{
  IsBalanced, observed, bind-IsBalanced, try-IsBalanced, if-IsBalanced,
}
use foundation_ai_platform.Chat.StartCounts.{unload-IsBalanced}
use foundation_ai_platform.Chat.Tasks.{Task, Shared, boots}
use foundation_ai_platform.Chat.Tasks.Interleaving.{
  System, Step, arrive, go, pass, Reach, here, later, count, count-append, answered_at, started_for,
  one_if, booting,
}
use foundation_ai_platform.Chat.Tasks.Kept.{Kept}
use foundation_ai_platform.Chat.Tasks.Moves.{advance-Kept}

module _ {World : Type 0} (host : Host World) (manager : LifecycleManager) where
  reconcile-IsBalanced :
      (d : DeploymentRecord) (o : Option LifecycleRecord)
      → IsBalanced (reconcile_record host manager d o)
  unfolding reconcile_record scale_to_zero
  reconcile-IsBalanced d none p k = refl
  reconcile-IsBalanced d (some l) p k =
      if-IsBalanced _ _ _
        (bind-IsBalanced (unload_deployment host d.deployment_id) _
          (unload-IsBalanced host d.deployment_id) λ u p k. refl)
        (λ p k. refl) _ k

  visit-IsBalanced : (d : DeploymentRecord) → IsBalanced (visit host manager d)
  unfolding visit
  visit-IsBalanced d p k = elim (Bool-cases (is_ready d.status)) [
    | inr f ↦ rw f
    | inl t ↦ elim (Bool-cases (truth? (lookup "is_permanent" d.metadata))) [
      | inl t' ↦ rw (t, t')
      | inr f' ↦ rw (t, f') (reconcile-IsBalanced d (get_lifecycle p.registry d.deployment_id) p k)
    ]
  ]

  each-IsBalanced : (ds : List DeploymentRecord) → IsBalanced (for_each (visit host manager) ds)
  unfolding for_each
  each-IsBalanced [] = λ p k. refl
  each-IsBalanced (d ∷ ds) =
      bind-IsBalanced (visit host manager d) _ (visit-IsBalanced d) λ u. each-IsBalanced ds

  pub tick-IsBalanced : IsBalanced (tick host manager)
  unfolding tick
  tick-IsBalanced p k =
      try-IsBalanced (for_each (visit host manager) (list_deployments p.registry)) (λ e. pure tt)
        (each-IsBalanced (list_deployments p.registry)) (λ e p k. refl) p k

-- What the tasks account for together, from the platform that the first request found.
pub record Accounted {World : Type 0} (p : Platform World) (sys : System World) : Type 0 where
  pub counted :
      (k : String) (n : ℕ)
      → observed p.concurrency_tracker k ≡ some n
      → observed sys.shared.platform.concurrency_tracker k
        ≡ some (n + count (answered_at k) sys.tasks)
  pub cold :
      (k : String)
      → count (started_for k) sys.tasks ≡ one_if (get_or k false sys.shared.cold_start_locks)
  pub boot : count booting sys.tasks ≡ one_if sys.shared.global_boot_lock

one_if≤one : (b : Bool) → one_if b ≤ 1
one_if≤one b = ground arith

module _ {World : Type 0} (host : Host World) (p : Platform World) where
  moved :
      (before after : List Task) (t t' : Task) (s s' : Shared World)
      → Kept t s t' s'
      → Accounted p (record { tasks = before ++ t ∷ after; shared = s })
      → Accounted p (record { tasks = before ++ t' ∷ after; shared = s' })
  moved before after t t' s s' kept a =
      let others : (Task → ℕ) → ℕ = λ f. count f before + count f after in
      record {
        counted = λ k n h.
            kept.counted k (n + others (answered_at k)) (
              a.counted k n h
              ∙ ap some (omega (arith, count-append (answered_at k) before after t)))
            ∙ ap some (omega (arith, count-append (answered_at k) before after t'));
        cold = λ k.
            count-append (started_for k) before after t'
            ∙ kept.cold k (others (started_for k))
                (sym (count-append (started_for k) before after t) ∙ a.cold k);
        boot =
            count-append booting before after t'
            ∙ kept.boot (others booting) (sym (count-append booting before after t) ∙ a.boot);
      }

  Step-Accounted : {a b : System World} → Step host a b → Accounted p a → Accounted p b
  unfolding count boots
  Step-Accounted (arrive s q) a = record {
    counted = λ k n h. a.counted k n h ∙ ap some (omega arith);
    cold = λ k. omega (arith, a.cold k);
    boot = omega (arith, a.boot);
  }
  Step-Accounted (go random before after t t' s s' e) a =
      moved before after t t' s s' (advance-Kept host random s t t' s' e) a
  Step-Accounted (pass manager s) a = record {
    counted = λ k n h. tick-IsBalanced host manager s.shared.platform k ∙ a.counted k n h;
    cold = a.cold;
    boot = a.boot;
  }

  pub Reach-Accounted : {sys : System World} → Reach host p sys → Accounted p sys
  unfolding count lookup
  Reach-Accounted here = record {
    counted = λ k n h. h ∙ ap some (omega arith);
    cold = λ k. refl;
    boot = refl;
  }
  Reach-Accounted (later r step) = Step-Accounted step (Reach-Accounted r)

  -- Requests to `chat` run interleaved at their awaits, with each other and with passes of the
  -- lifecycle worker, in any order. At every moment the concurrency tracker counts for a deployment
  -- what it counted before the first request, and one for each request that the model server
  -- answers there at this moment.
  pub counts :
      (sys : System World) (k : String) (n : ℕ)
      → Reach host p sys
      → observed p.concurrency_tracker k ≡ some n
      → observed sys.shared.platform.concurrency_tracker k
        ≡ some (n + count (answered_at k) sys.tasks)
  counts sys k n r h = (Reach-Accounted r).counted k n h

  -- However requests to `chat` and passes of the lifecycle worker are interleaved: for each model at
  -- most one request is past the model's cold start lock and starts it, and at most one request in
  -- all is under the global boot lock and runs or polls a container.
  pub exclusive :
      (sys : System World) (k : String)
      → Reach host p sys
      → (count (started_for k) sys.tasks ≤ 1) × (count booting sys.tasks ≤ 1)
  exclusive sys k r =
      let a = Reach-Accounted r in
      let cold = one_if≤one (get_or k false sys.shared.cold_start_locks) in
      let boot = one_if≤one sys.shared.global_boot_lock in
      (omega (arith, a.cold k, cold), omega (arith, a.boot, boot))
