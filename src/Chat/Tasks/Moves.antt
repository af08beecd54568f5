-- ===== src/Chat/Tasks/Moves.antt =====
-- What each part of a request (`advance` of Chat/Tasks) keeps of its count and of its locks.
use foundation_ai_platform.Prelude.{
  ℕ, ◌+◌, ◌≡◌, refl, sym, ap, ◌∙◌, String, Bool, true, false, Option, none, some, if◌then◌else◌,
  arith, ◌==◌, eq_iff, ◌&&◌, not, subst,
}
use mathlib.Core.Option.{some-injective}
use foundation_ai_platform.Prelude.Dict.{get_or, insert}
use foundation_ai_platform.Exec.{Exec, Result}
use foundation_ai_platform.Routing.Decision.{Random}
use foundation_ai_platform.Platform.{Host, Platform}
use foundation_ai_platform.Schemas.Records.{ModelRecord, DeploymentRecord, RouteDecision}
use foundation_ai_platform.Schemas.Gateway.{ChatCompletionRequest}
use foundation_ai_platform.Balanced.{IsBalanced}
use foundation_ai_platform.Chat.Tasks.{
  Task, arriving, onboarding, resolved, decided, waiting, starting, running, polling, serving,
  generating, done, Shared, starts, boots, task_of, resolve_part, onboard_part, decide_part,
  prepare_part, enter, begin_answer, end_answer,
}
use foundation_ai_platform.Chat.Tasks.Starting.{begin_boot, run_docker_part, finish_boot}
use foundation_ai_platform.Chat.Tasks.Advance.{unlocked, under_lock, under_both, advance}
use foundation_ai_platform.Chat.Tasks.Interleaving.{answered_at, started_for, one_if, booting}
use foundation_ai_platform.Chat.Tasks.Outcomes.{
  is_open, is_within, leads, resolve_part-is_open, onboard_part-is_open, decide_part-is_open,
  prepare_part-is_open, enter-is_within, begin_boot-is_within, run_docker_part-is_within,
  finish_boot-is_within, end_answer-is_open,
}
use foundation_ai_platform.Chat.Tasks.Balance.{
  resolving-IsBalanced, onboard_part-IsBalanced, decide_part-IsBalanced, prepare_part-IsBalanced,
  enter-IsBalanced, begin_boot-IsBalanced, run_docker_part-IsBalanced, finish_boot-IsBalanced,
}
use foundation_ai_platform.Chat.Tasks.Counted.{
  IsCounted, begin_answer-IsCounted, end_answer-IsCounted,
}
use foundation_ai_platform.Chat.Tasks.Kept.{
  Kept, within-IsCounted, open-IsCounted, open-started_for, open-boots, unlocked-Kept,
  under_lock-Kept, under_both-Kept,
}

module _ {World : Type 0} (t : Task) (s : Shared World) where
  advanced : (x y : Task × Shared World) → some x ≡ some y → Kept t s x.0 x.1 → Kept t s y.0 y.1
  advanced x y e = subst (λ z. Kept t s z.0 z.1) (some-injective _ _ e)

  unblocked :
      (b : Bool) (x y : Task × Shared World)
      → (if b then none else some x) ≡ some y
      → (b ≡ false → Kept t s x.0 x.1)
      → Kept t s y.0 y.1
  unblocked true x y e k = absurd cc
  unblocked false x y e k = advanced x y e (k refl)

module _ {World : Type 0} (host : Host World) (random : Random) (s : Shared World) where
  module _ (t : Task) (part : Exec (Platform World) Task) where
    open-Kept :
        IsCounted t part
        → ((p : Platform World) → leads is_open (part p).0 ≡ true)
        → ((k : String) → started_for k t ≡ 0)
        → booting t ≡ 0
        → Kept t s (task_of (part s.platform).0) (record s { platform = (part s.platform).1 })
    open-Kept c o f b =
        unlocked-Kept t part s c f b (λ k. open-started_for (part s.platform).0 k (o s.platform))
          (open-boots (part s.platform).0 (o s.platform))

  idle-Kept :
      (t : Task) (part : Exec (Platform World) Task)
      → ((k : String) → answered_at k t ≡ 0)
      → ((k : String) → started_for k t ≡ 0)
      → booting t ≡ 0
      → IsBalanced part
      → ((p : Platform World) → leads is_open (part p).0 ≡ true)
      → Kept t s (task_of (part s.platform).0) (record s { platform = (part s.platform).1 })
  idle-Kept t part a f b c o = open-Kept t part (open-IsCounted t part a c o) o f b

  module _ (q : ChatCompletionRequest) (r : RouteDecision) (m : ModelRecord) where
    enter-stays_out :
        (p : Platform World)
        → (leads (is_within r.model_id) (enter host random q r m p).0 ≡ true)
          × (booting (task_of (enter host random q r m p).0) ≡ 0)
    unfolding boots
    enter-stays_out p = kept (enter host random q r m p).0 (enter-is_within host random q r m p)
      where
        kept :
            (x : Result Task)
            → leads (λ t. is_within r.model_id t && not (boots t)) x ≡ true
            → (leads (is_within r.model_id) x ≡ true) × (booting (task_of x) ≡ 0)
        kept x h = ground arith

    waiting-Kept :
        get_or r.model_id false s.cold_start_locks ≡ false
        → Kept (waiting q r m) s (task_of (enter host random q r m s.platform).0) (record s {
          platform = (enter host random q r m s.platform).1;
          cold_start_locks =
              insert r.model_id
                (starts (task_of (enter host random q r m s.platform).0))
                s.cold_start_locks;
        })
    unfolding boots
    waiting-Kept free =
        under_lock-Kept (waiting q r m) (enter host random q r m) s r.model_id
          (enter-stays_out s.platform).0
          (λ k n e h. omega (
            arith,
            h
                ∙ ap one_if (
                    ap (λ i. get_or i false s.cold_start_locks) (sym ((eq_iff r.model_id k).0 e))
                    ∙ free),
          ))
          (λ k e. refl)
          (within-IsCounted r.model_id (waiting q r m) (enter host random q r m) (λ k. refl)
            (enter-IsBalanced host random q r m) (λ p. (enter-stays_out p).0))
          refl (enter-stays_out s.platform).1

    serving-Kept :
        (d : Option DeploymentRecord)
        → Kept
            (serving q r m d)
            s
            (task_of (begin_answer host random q r m d s.platform).0)
            (record s { platform = (begin_answer host random q r m d s.platform).1 })
    unfolding begin_answer boots
    serving-Kept d =
        unlocked-Kept (serving q r m d) (begin_answer host random q r m d) s
          (begin_answer-IsCounted host random q r m d) (λ k. refl) refl (λ k. ground arith)
          (ground arith)

  -- A part under both locks that is not counted.
  both-Kept :
      (j : String) (t : Task) (part : Exec (Platform World) Task)
      → ((k : String) → answered_at k t ≡ 0)
      → ((k : String) → started_for k t ≡ (if j == k then 1 else 0))
      → ((n : ℕ) → n + booting t ≡ one_if s.global_boot_lock → n ≡ 0)
      → IsBalanced part
      → ((p : Platform World) → leads (is_within j) (part p).0 ≡ true)
      → Kept t s (task_of (part s.platform).0) (record {
        platform = (part s.platform).1;
        cold_start_locks = insert j (starts (task_of (part s.platform).0)) s.cold_start_locks;
        global_boot_lock = boots (task_of (part s.platform).0);
      })
  both-Kept j t part idle held one b w =
      under_both-Kept t part s j (w s.platform) (λ k n e h. ground (arith, held k))
        (λ k e. ground (arith, held k)) (within-IsCounted j t part idle b w) one

  pub advance-Kept :
      (t t' : Task) (s' : Shared World) → advance host random t s ≡ some (t', s') → Kept t s t' s'
  unfolding advance unlocked under_lock under_both boots
  advance-Kept (arriving q) t' s' e =
      advanced (arriving q) s _ (t', s') e
        (idle-Kept (arriving q) (resolve_part host random q) (λ k. refl) (λ k. refl) refl
          (resolving-IsBalanced host random q) (resolve_part-is_open host random q))
  advance-Kept (onboarding q repo report) t' s' e =
      advanced (onboarding q repo report) s _ (t', s') e
        (idle-Kept (onboarding q repo report) (onboard_part host random q repo report) (λ k. refl)
          (λ k. refl) refl (onboard_part-IsBalanced host random q repo report)
          (onboard_part-is_open host random q repo report))
  advance-Kept (resolved q named) t' s' e =
      advanced (resolved q named) s _ (t', s') e
        (idle-Kept (resolved q named) (decide_part host random q named) (λ k. refl) (λ k. refl) refl
          (decide_part-IsBalanced host random q named) (decide_part-is_open host random q named))
  advance-Kept (decided q r) t' s' e =
      advanced (decided q r) s _ (t', s') e
        (idle-Kept (decided q r) (prepare_part host random q r) (λ k. refl) (λ k. refl) refl
          (prepare_part-IsBalanced host random q r) (prepare_part-is_open host random q r))
  advance-Kept (waiting q r m) t' s' e =
      unblocked (waiting q r m) s (get_or r.model_id false s.cold_start_locks) _ (t', s') e
        (waiting-Kept q r m)
  advance-Kept (starting q r m d) t' s' e =
      unblocked (starting q r m d) s s.global_boot_lock _ (t', s') e
        λ free.
          both-Kept r.model_id (starting q r m d) (begin_boot host random q r m d) (λ k. refl)
            (λ k. refl) (λ n h. ground arith) (begin_boot-IsBalanced host random q r m d)
            (begin_boot-is_within host random q r m d)
  advance-Kept (running q r m d port u) t' s' e =
      advanced (running q r m d port u) s _ (t', s') e
        (both-Kept r.model_id (running q r m d port u) (run_docker_part host random q r m d port u)
          (λ k. refl) (λ k. refl) (λ n h. ground arith)
          (run_docker_part-IsBalanced host random q r m d port u)
          (run_docker_part-is_within host random q r m d port u))
  advance-Kept (polling q r m d port n) t' s' e =
      advanced (polling q r m d port n) s _ (t', s') e
        (both-Kept r.model_id (polling q r m d port n) (finish_boot host random q r m d port n)
          (λ k. refl) (λ k. refl) (λ n h. ground arith)
          (finish_boot-IsBalanced host random q r m d port n)
          (finish_boot-is_within host random q r m d port n))
  advance-Kept (serving q r m d) t' s' e =
      advanced (serving q r m d) s _ (t', s') e (serving-Kept q r m d)
  advance-Kept (generating q r m d) t' s' e =
      advanced (generating q r m d) s _ (t', s') e
        (open-Kept (generating q r m d) (end_answer host random q r m d)
          (end_answer-IsCounted host random q r m d) (end_answer-is_open host random q r m d)
          (λ k. refl) refl)
  advance-Kept (done result) t' s' e = absurd cc
