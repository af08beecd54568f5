-- ===== src/Chat/Tasks/Advance.antt =====
-- The parts of a request to `chat` (llm_platform/services/chat.py) in their order, and under the
-- locks that the request holds there.
use foundation_ai_platform.Prelude.{String, false, Option, none, some, if◌then◌else◌}
use foundation_ai_platform.Prelude.Dict.{get_or, insert}
use foundation_ai_platform.Exec.{Exec}
use foundation_ai_platform.Routing.Decision.{Random}
use foundation_ai_platform.Platform.{Host, Platform}
use foundation_ai_platform.Chat.Tasks.{
  Task, arriving, onboarding, resolved, decided, waiting, starting, running, polling, serving,
  generating, done, Shared, starts, boots, task_of, resolve_part, onboard_part, decide_part,
  prepare_part, enter, begin_answer, end_answer,
}
use foundation_ai_platform.Chat.Tasks.Starting.{begin_boot, run_docker_part, finish_boot}

module _ {World : Type 0} (host : Host World) (random : Random) where
  -- A part that takes or holds no lock.
  unfoldable pub unlocked : Exec (Platform World) Task → Shared World → Option (Task × Shared World)
  unlocked part s = let (t, p) = part s.platform in some (task_of t, record s { platform = p })

  -- A part under the cold start lock of a model: it is free again if the request has left it.
  unfoldable pub under_lock :
      String → Exec (Platform World) Task → Shared World → Option (Task × Shared World)
  unfolding starts
  under_lock model_id part s =
      let (t, p) = part s.platform in
      some (
        task_of t,
        record s {
          platform = p;
          cold_start_locks = insert model_id (starts (task_of t)) s.cold_start_locks;
        },
      )

  -- A part under the boot lock as well.
  unfoldable pub under_both :
      String → Exec (Platform World) Task → Shared World → Option (Task × Shared World)
  unfolding starts boots
  under_both model_id part s =
      let (t, p) = part s.platform in
      some (
        task_of t,
        record {
          platform = p;
          cold_start_locks = insert model_id (starts (task_of t)) s.cold_start_locks;
          global_boot_lock = boots (task_of t);
        },
      )

  -- The next part of a request, and nothing where it waits or is done.
  unfoldable pub advance : Task → Shared World → Option (Task × Shared World)
  unfolding resolve_part onboard_part decide_part prepare_part enter begin_boot run_docker_part
      finish_boot begin_answer end_answer unlocked under_lock under_both
  advance (arriving q) s = unlocked (resolve_part host random q) s
  advance (onboarding q repo report) s = unlocked (onboard_part host random q repo report) s
  advance (resolved q named) s = unlocked (decide_part host random q named) s
  advance (decided q r) s = unlocked (prepare_part host random q r) s
  advance (waiting q r m) s =
      if get_or r.model_id false s.cold_start_locks
      then none
      else under_lock r.model_id (enter host random q r m) s
  advance (starting q r m d) s =
      if s.global_boot_lock then none else under_both r.model_id (begin_boot host random q r m d) s
  advance (running q r m d port u) s =
      under_both r.model_id (run_docker_part host random q r m d port u) s
  advance (polling q r m d port n) s =
      under_both r.model_id (finish_boot host random q r m d port n) s
  advance (serving q r m d) s = unlocked (begin_answer host random q r m d) s
  advance (generating q r m d) s = unlocked (end_answer host random q r m d) s
  advance (done result) s = none
