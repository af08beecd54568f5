-- ===== src/Chat/Tasks/Progress.antt =====
-- The parts of a request to `chat` (llm_platform/services/chat.py) that are still to come.
use foundation_ai_platform.Prelude.{
  ℕ, zero, suc, ◌+◌, String, ◌≤◌, ◌<◌, ◌≡◌, subst, Bool, true, false, Option, none, some,
  if◌then◌else◌, arith,
}
use mathlib.Core.Option.{some-injective}
use foundation_ai_platform.Exec.{Exec, Result, ok, err, continue}
use foundation_ai_platform.Schemas.Records.{
  ModelRecord, DeploymentRecord, RouteDecision, ValidationReport,
}
use foundation_ai_platform.Schemas.Gateway.{ChatCompletionRequest}
use foundation_ai_platform.Routing.Decision.{Random}
use foundation_ai_platform.Platform.{Host, Platform, Utilization}
use foundation_ai_platform.Boot.Containers.{discarding, give_up}
use foundation_ai_platform.Registry.{list_models}
use foundation_ai_platform.Chat.{find_named}
use foundation_ai_platform.Chat.Decisions.{fetch}
use foundation_ai_platform.Chat.Tasks.{
  Task, arriving, onboarding, resolved, decided, waiting, starting, running, polling, serving,
  generating, done, Shared, task_of, resolve_part, part_named, part_request, onboard_part,
  decide_part, prepare_part, enter, reuse_or_start, serve_target, begin_answer, end_answer,
}
use foundation_ai_platform.Chat.Tasks.Starting.{
  begin_boot, run_docker_part, finish_boot, or_failed, take_port, recheck, complete_boot,
  poll_container, run_on,
}
use foundation_ai_platform.Chat.Tasks.Advance.{unlocked, under_lock, under_both, advance}

-- The parts that a request has before it at most.
abbrev pub parts_left : Task → ℕ
parts_left (arriving q) = 370
parts_left (onboarding q repo report) = 369
parts_left (resolved q named) = 368
parts_left (decided q r) = 367
parts_left (waiting q r m) = 366
parts_left (starting q r m d) = 365
parts_left (running q r m d port u) = 364
parts_left (polling q r m d port n) = 3 + n
parts_left (serving q r m d) = 2
parts_left (generating q r m d) = 1
parts_left (done result) = 0

continue-parts_left :
    {World A : Type 0} (n : ℕ) (r : Result A) (f : A → Exec (Platform World) Task)
    (p : Platform World)
    → ((a : A) → parts_left (task_of (f a p).0) ≤ n)
    → parts_left (task_of (continue r f p).0) ≤ n
continue-parts_left n (ok a) f p h = h a
continue-parts_left n (err e) f p h = omega arith

module _ {World : Type 0} (host : Host World) (random : Random) where
  module _ (q : ChatCompletionRequest) where
    named-parts_left :
        (name : String) (o : Option ModelRecord) (p : Platform World)
        → parts_left (task_of (part_named host random q name o p).0) ≤ 369
    unfolding part_named
    named-parts_left name (some m) p = omega arith
    named-parts_left name none p = ground arith

    asked-parts_left :
        (o : Option String) (p : Platform World)
        → parts_left (task_of (part_request host random q o p).0) ≤ 369
    unfolding part_request
    asked-parts_left none p = omega arith
    asked-parts_left (some name) p =
        ground (arith, named-parts_left name (find_named name (list_models p.registry)) p)

    resolve_part-parts_left :
        (p : Platform World) → parts_left (task_of (resolve_part host random q p).0) ≤ 369
    unfolding resolve_part
    resolve_part-parts_left p = asked-parts_left q.model p

    onboard_part-parts_left :
        (repo : String) (report : ValidationReport) (p : Platform World)
        → parts_left (task_of (onboard_part host random q repo report p).0) ≤ 368
    unfolding onboard_part
    onboard_part-parts_left repo report p = ground arith

    decide_part-parts_left :
        (named : Option ModelRecord) (p : Platform World)
        → parts_left (task_of (decide_part host random q named p).0) ≤ 367
    unfolding decide_part
    decide_part-parts_left named p = ground arith

    module _ (r : RouteDecision) where
      prepare_part-parts_left :
          (p : Platform World) → parts_left (task_of (prepare_part host random q r p).0) ≤ 366
      unfolding prepare_part
      prepare_part-parts_left p = ground arith

      module _ (m : ModelRecord) where
        reuse-parts_left :
            (d : Option DeploymentRecord) (p : Platform World)
            → parts_left (task_of (reuse_or_start host random q r m d p).0) ≤ 365
        unfolding reuse_or_start serve_target
        reuse-parts_left none p = ground arith
        reuse-parts_left (some d) p = ground arith

        enter-parts_left :
            (p : Platform World) → parts_left (task_of (enter host random q r m p).0) ≤ 365
        unfolding enter
        enter-parts_left p =
            let (x, p') = fetch host random r.deployment_id p in
            continue-parts_left 365 x (reuse_or_start host random q r m) p'
              (λ d. reuse-parts_left d p')

        module _ (d : Option DeploymentRecord) where
          failed-parts_left :
              (n : ℕ) (body : Exec (Platform World) Task) (p : Platform World)
              → 2 ≤ n
              → parts_left (task_of (body p).0) ≤ n
              → parts_left (task_of (or_failed host random q r m d body p).0) ≤ n
          unfolding or_failed serve_target
          failed-parts_left n body p l h = ground arith

          took :
              (o : Option DeploymentRecord) (p : Platform World)
              → parts_left (task_of (take_port host random q r m o p).0) ≤ 364
          unfolding take_port
          took o p = ground arith

          begin_boot-parts_left :
              (p : Platform World) → parts_left (task_of (begin_boot host random q r m d p).0) ≤ 364
          unfolding begin_boot recheck
          begin_boot-parts_left p =
              failed-parts_left 364 (recheck host random q r m d) p (omega arith) (checked d)
            where
              checked :
                  (o : Option DeploymentRecord)
                  → parts_left (task_of (recheck host random q r m o p).0) ≤ 364
              checked none = took none p
              checked (some o) = ground (arith, took (some o) p)

          run_docker_part-parts_left :
              (port : ℕ) (u : Utilization) (p : Platform World)
              → parts_left (task_of (run_docker_part host random q r m d port u p).0) ≤ 363
          unfolding run_docker_part run_on
          run_docker_part-parts_left port u p =
              failed-parts_left 363 (run_on host random q r m d port u) p (omega arith)
                (ground arith)

          polled :
              (port n : ℕ) (p : Platform World)
              → parts_left (task_of (poll_container host random q r m d port n p).0) ≤ 2 + n
          unfolding poll_container complete_boot discarding give_up
          polled port zero p = ground arith
          polled port (suc n) p = ground arith

          finish_boot-parts_left :
              (port n : ℕ) (p : Platform World)
              → parts_left (task_of (finish_boot host random q r m d port n p).0) ≤ 2 + n
          unfolding finish_boot
          finish_boot-parts_left port n p =
              failed-parts_left (2 + n) (poll_container host random q r m d port n) p (omega arith)
                (polled port n p)

          begin_answer-parts_left :
              (p : Platform World) → parts_left (task_of (begin_answer host random q r m d p).0) ≤ 1
          unfolding begin_answer
          begin_answer-parts_left p = ground arith

          end_answer-parts_left :
              (p : Platform World) → parts_left (task_of (end_answer host random q r m d p).0) ≤ 0
          unfolding end_answer
          end_answer-parts_left p = ground arith

  spent :
      (n : ℕ) (x y : Task × Shared World)
      → parts_left x.0 ≤ n
      → some x ≡ some y
      → parts_left y.0 < suc n
  spent n x y h e = subst (λ z. parts_left z.0 < suc n) (some-injective _ _ e) (omega (arith, h))

  spent_if :
      (b : Bool) (n : ℕ) (x y : Task × Shared World)
      → parts_left x.0 ≤ n
      → (if b then none else some x) ≡ some y
      → parts_left y.0 < suc n
  spent_if true n x y h e = absurd cc
  spent_if false n x y h e = spent n x y h e

  -- A request that goes on has one part less before it.
  pub advance-parts_left :
      (t t' : Task) (s s' : Shared World)
      → advance host random t s ≡ some (t', s')
      → parts_left t' < parts_left t
  unfolding advance unlocked under_lock under_both
  advance-parts_left (arriving q) t' s s' e =
      spent 369 _ (t', s') (resolve_part-parts_left q s.platform) e
  advance-parts_left (onboarding q repo report) t' s s' e =
      spent 368 _ (t', s') (onboard_part-parts_left q repo report s.platform) e
  advance-parts_left (resolved q named) t' s s' e =
      spent 367 _ (t', s') (decide_part-parts_left q named s.platform) e
  advance-parts_left (decided q r) t' s s' e =
      spent 366 _ (t', s') (prepare_part-parts_left q r s.platform) e
  advance-parts_left (waiting q r m) t' s s' e =
      spent_if _ 365 _ (t', s') (enter-parts_left q r m s.platform) e
  advance-parts_left (starting q r m d) t' s s' e =
      spent_if _ 364 _ (t', s') (begin_boot-parts_left q r m d s.platform) e
  advance-parts_left (running q r m d port u) t' s s' e =
      spent 363 _ (t', s') (run_docker_part-parts_left q r m d port u s.platform) e
  advance-parts_left (polling q r m d port n) t' s s' e =
      omega (arith, spent (2 + n) _ (t', s') (finish_boot-parts_left q r m d port n s.platform) e)
  advance-parts_left (serving q r m d) t' s s' e =
      spent 1 _ (t', s') (begin_answer-parts_left q r m d s.platform) e
  advance-parts_left (generating q r m d) t' s s' e =
      spent 0 _ (t', s') (end_answer-parts_left q r m d s.platform) e
  advance-parts_left (done result) t' s s' e = absurd cc
