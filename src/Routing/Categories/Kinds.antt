-- ===== src/Routing/Categories/Kinds.antt =====
-- What each kind of deployment says of its status (llm_platform/routing/router.py, phase 2).
use foundation_ai_platform.Prelude.{◌≡◌, true, false, Option, arith}
use foundation_ai_platform.Schemas.Enums.{DeploymentStatus, is_unloaded_or_pending}
use foundation_ai_platform.Schemas.Records.{ModelRecord, DeploymentRecord, LifecycleRecord}
use foundation_ai_platform.Routing.Groups.{RouteRequest}
use foundation_ai_platform.Routing.Categories.{
  Trackers, preferred, idle, busy, boot, disk, kind_of, is_failed_record, is_preferred,
  holds_memory,
}

module _ (trackers : Trackers) (request : RouteRequest) (l : Option LifecycleRecord)
    (m : ModelRecord) (d : DeploymentRecord) where
  pub kind_idle :
      kind_of trackers request l m d ≡ idle
      → (d.status ≡ DeploymentStatus.ready) × (is_failed_record l ≡ false)
  unfolding kind_of
  kind_idle h = ground arith

  pub kind_busy :
      kind_of trackers request l m d ≡ busy
      → (d.status ≡ DeploymentStatus.ready) × (is_failed_record l ≡ false)
  unfolding kind_of
  kind_busy h = ground arith

  pub kind_preferred :
      kind_of trackers request l m d ≡ preferred
      → (d.status ≡ DeploymentStatus.ready)
        × (is_failed_record l ≡ false)
        × (is_preferred request m ≡ true)
  unfolding kind_of
  kind_preferred h = ground arith

  pub kind_boot :
      kind_of trackers request l m d ≡ boot
      → (is_unloaded_or_pending d.status ≡ true)
        × (is_failed_record l ≡ false)
        × (holds_memory trackers.gpu d.deployment_id ≡ true)
  unfolding kind_of
  kind_boot h = ground arith

  pub kind_disk :
      kind_of trackers request l m d ≡ disk
      → (is_unloaded_or_pending d.status ≡ true)
        × (is_failed_record l ≡ false)
        × (holds_memory trackers.gpu d.deployment_id ≡ false)
  unfolding kind_of
  kind_disk h = ground arith
