-- ===== src/Chat/Tasks/Interleaving.antt =====
-- Any interleaving of requests to `chat` (llm_platform/services/chat.py) with each other and with the
-- passes of the lifecycle worker.
use foundation_ai_platform.Prelude.{
  ℕ, ◌+◌, ◌≡◌, String, Bool, false, Option, none, some, List, [], ◌∷◌, ◌++◌, ◌==◌, if◌then◌else◌,
  truthy, arith,
}
use foundation_ai_platform.Schemas.Gateway.{ChatCompletionRequest}
use foundation_ai_platform.Lifecycle.{LifecycleManager}
use foundation_ai_platform.Routing.Decision.{Random}
use foundation_ai_platform.Platform.{Host, Platform}
use foundation_ai_platform.Worker.{tick}
use foundation_ai_platform.Chat.Tasks.{
  Task, arriving, starting, running, polling, generating, Shared, boots,
}
use foundation_ai_platform.Chat.Tasks.Advance.{advance}

pub record System (World : Type 0) : Type 0 where
  pub tasks : List Task
  pub shared : Shared World

module _ {World : Type 0} (host : Host World) where
  -- A request comes in, one goes on to its next await with whatever is drawn, or the worker passes.
  pub data Step : System World → System World → Type 0 where
    arrive :
        (s : System World) (q : ChatCompletionRequest)
        → Step s (record s { tasks = arriving q ∷ s.tasks })
    go :
        (random : Random) (before after : List Task) (t t' : Task) (s s' : Shared World)
        → advance host random t s ≡ some (t', s')
        → Step
            (record { tasks = before ++ t ∷ after; shared = s })
            (record { tasks = before ++ t' ∷ after; shared = s' })
    pass :
        (manager : LifecycleManager) (s : System World)
        → Step s (record s {
          shared = record s.shared { platform = (tick host manager s.shared.platform).1 };
        })

  -- Before the first request no lock is made.
  abbrev pub init : Platform World → System World
  init p = record {
    tasks = [];
    shared = record { platform = p; cold_start_locks = []; global_boot_lock = false };
  }

  pub data Reach (p : Platform World) : System World → Type 0 where
    here : Reach p (init p)
    later : {s t : System World} → Reach p s → Step s t → Reach p t

-- How much of a measure the tasks have in all.
unfoldable pub count : (Task → ℕ) → List Task → ℕ
count f [] = 0
count f (t ∷ ts) = f t + count f ts

pub count-append :
    (f : Task → ℕ) (before after : List Task) (t : Task)
    → count f (before ++ t ∷ after) ≡ count f before + count f after + f t
unfolding count
count-append f [] after t = omega arith
count-append f (b ∷ before) after t = omega (arith, count-append f before after t)

abbrev pub counted_at : String → Option String → ℕ
counted_at k none = 0
counted_at k (some id) = if truthy id then (if id == k then 1 else 0) else 0

-- One for a request that the model server answers at the deployment.
abbrev pub answered_at : String → Task → ℕ
answered_at k (generating q r m d) = counted_at k r.deployment_id
answered_at k _ = 0

-- One for a request inside the cold start lock of the model.
abbrev pub started_for : String → Task → ℕ
started_for k (starting q r m d) = if r.model_id == k then 1 else 0
started_for k (running q r m d port u) = if r.model_id == k then 1 else 0
started_for k (polling q r m d port n) = if r.model_id == k then 1 else 0
started_for k _ = 0

abbrev pub one_if : Bool → ℕ
one_if b = if b then 1 else 0

abbrev pub booting : Task → ℕ
booting t = one_if (boots t)
