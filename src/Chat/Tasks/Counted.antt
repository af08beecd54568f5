-- ===== src/Chat/Tasks/Counted.antt =====
-- What the parts of a request (Chat/Tasks) do to the counts of active requests.
use foundation_ai_platform.Prelude.{
  ℕ, ◌+◌, ◌≡◌, ap, ◌∙◌, String, Bool-cases, inl, inr, Option, none, some, if◌then◌else◌, truthy,
  arith, ◌==◌,
}
use mathlib.Core.Option.{some-injective}
use foundation_ai_platform.Exec.{Exec, Result, ok, err, continue}
use foundation_ai_platform.Schemas.Records.{ModelRecord, DeploymentRecord, RouteDecision}
use foundation_ai_platform.Schemas.Gateway.{ChatCompletionRequest}
use foundation_ai_platform.Concurrency.{ConcurrencyTracker, increment, decrement}
use foundation_ai_platform.Concurrency.Balance.{active-increment, active-decrement}
use foundation_ai_platform.Routing.Decision.{Random}
use foundation_ai_platform.Platform.{Host, Platform}
use foundation_ai_platform.Balanced.{observed}
use foundation_ai_platform.Chat.{on_tracker, count_on}
use foundation_ai_platform.Chat.Requests.{touch_lifecycle, answer, emit}
use foundation_ai_platform.Chat.Counts.{touch-IsBalanced, answer-IsBalanced}
use foundation_ai_platform.Chat.Tasks.{
  Task, serving, generating, close, begin_answer, end_answer, task_of,
}
use foundation_ai_platform.Chat.Tasks.Interleaving.{counted_at, answered_at}

-- A part that is counted as its task is, before and after.
abbrev pub IsCounted : {World : Type 0} → Task → Exec (Platform World) Task → Type 0
IsCounted {World} t m =
    (p : Platform World) (k : String) (n : ℕ)
    → observed p.concurrency_tracker k ≡ some (n + answered_at k t)
    → observed (m p).1.concurrency_tracker k ≡ some (n + answered_at k (task_of (m p).0))

module _ {World : Type 0} where
  begins :
      (id : Option String) (p : Platform World) (k : String) (n : ℕ)
      → observed p.concurrency_tracker k ≡ some n
      → observed (count_on increment id p).concurrency_tracker k ≡ some (n + counted_at k id)
  unfolding count_on
  begins none p k n h = h ∙ ap some (omega arith)
  begins (some id) p k n h = elim (Bool-cases (truthy id)) [
    | inr f ↦ rw f (h ∙ ap some (omega arith))
    | inl t ↦ rw t (on_increment p.concurrency_tracker h)
  ]
    where
      on_increment :
          (o : Option ConcurrencyTracker)
          → observed o k ≡ some n
          → observed (on_tracker (increment id) o) k ≡ some (n + (if id == k then 1 else 0))
      on_increment none h = cc
      on_increment (some c) h =
          ap some (ground (arith, some-injective _ _ h, active-increment id k c))

  ends :
      (id : Option String) (p : Platform World) (k : String) (n : ℕ)
      → observed p.concurrency_tracker k ≡ some (n + counted_at k id)
      → observed (count_on decrement id p).concurrency_tracker k ≡ some n
  unfolding count_on
  ends none p k n h = h ∙ ap some (omega arith)
  ends (some id) p k n h = elim (Bool-cases (truthy id)) [
    | inr f ↦ rw f ((rw f at h) ∙ ap some (omega arith))
    | inl t ↦ rw t (on_decrement p.concurrency_tracker (rw t at h))
  ]
    where
      on_decrement :
          (o : Option ConcurrencyTracker)
          → observed o k ≡ some (n + (if id == k then 1 else 0))
          → observed (on_tracker (decrement id) o) k ≡ some n
      on_decrement none h = cc
      on_decrement (some c) h =
          ap some (ground (arith, some-injective _ _ h, active-decrement id k c))

module _ {World : Type 0} (host : Host World) (random : Random) where
  touched_then :
      (q : ChatCompletionRequest) (r : RouteDecision) (m : ModelRecord)
      (d : Option DeploymentRecord) (x : Result (Unit {0}) × Platform World) (k : String) (n : ℕ)
      → observed x.1.concurrency_tracker k ≡ some n
      → let y =
          continue x.0
            (λ u p. (ok (generating q r m d), count_on increment r.deployment_id p))
            x.1 in
        observed y.1.concurrency_tracker k ≡ some (n + answered_at k (task_of y.0))
  touched_then q r m d (ok u, p) k n h = begins r.deployment_id p k n h
  touched_then q r m d (err e, p) k n h = h ∙ ap some (omega arith)

  pub begin_answer-IsCounted :
      (q : ChatCompletionRequest) (r : RouteDecision) (m : ModelRecord)
      (d : Option DeploymentRecord)
      → IsCounted (serving q r m d) (begin_answer host random q r m d)
  unfolding begin_answer
  begin_answer-IsCounted q r m d p k n h =
      touched_then q r m d (touch_lifecycle host random r.deployment_id d p) k n
        (touch-IsBalanced host random r.deployment_id d p k ∙ h ∙ ap some (omega arith))

  answered_then :
      (q : ChatCompletionRequest) (r : RouteDecision) (m : ModelRecord)
      (d : Option DeploymentRecord) (x : Result String) (p : Platform World) (k : String) (n : ℕ)
      → observed p.concurrency_tracker k ≡ some n
      → let y = close host random q r m x p in
        observed y.1.concurrency_tracker k ≡ some (n + answered_at k (task_of y.0))
  unfolding close emit
  answered_then q r m d (ok text) p k n h = h ∙ ap some (omega arith)
  answered_then q r m d (err e) p k n h = h ∙ ap some (omega arith)

  pub end_answer-IsCounted :
      (q : ChatCompletionRequest) (r : RouteDecision) (m : ModelRecord)
      (d : Option DeploymentRecord)
      → IsCounted (generating q r m d) (end_answer host random q r m d)
  unfolding end_answer
  end_answer-IsCounted q r m d p k n h =
      let (x, p') = answer host random q d p in
      answered_then q r m d x (count_on decrement r.deployment_id p') k n
        (ends r.deployment_id p' k n (answer-IsBalanced host random q d p k ∙ h))
