-- ===== src/Lifecycle/Policy.antt =====
-- What `touch` and `reconcile` (llm_platform/lifecycle/manager.py) guarantee.
mod Tests
use foundation_ai_platform.Prelude.{
  ℕ, zero, ◌+◌, ◌≤◌, ◌<◌, ◌≡◌, ◌≢◌, Bool, true, false, arith, leb, nat_eq, if◌then◌else◌,
  Bool-cases, inl, inr,
}
use foundation_ai_platform.Schemas.Enums.{LifecycleState, hot, warm, cold, same_state}
use foundation_ai_platform.Schemas.Records.{Timestamp, DeploymentRecord, LifecycleRecord}
use foundation_ai_platform.Lifecycle.{LifecycleManager, next_state, initialize, touch, reconcile}

same_state→eq : (a b : LifecycleState) → same_state a b ≡ true → a ≡ b
same_state→eq a b h = ground arith

pub same_state_self : (a : LifecycleState) → same_state a a ≡ true
same_state_self a = ground arith

-- `reconcile` leaves the state that the thresholds ask for, and keeps the idle time and the id.
pub reconcile_fields :
    (m : LifecycleManager) (now : Timestamp) (l : LifecycleRecord)
    → ((reconcile m now l).state ≡ next_state m l)
      × ((reconcile m now l).idle_duration_seconds ≡ l.idle_duration_seconds)
      × ((reconcile m now l).deployment_id ≡ l.deployment_id)
unfolding reconcile
reconcile_fields m now l = elim (Bool-cases (same_state (next_state m l) l.state)) [
  | inl same ↦ ground (arith, same_state→eq (next_state m l) l.state same)
  | inr moved ↦ ground arith
]

-- Reconciling again, at any time, changes nothing.
pub reconcile_idem :
    (m : LifecycleManager) (now later : Timestamp) (l : LifecycleRecord)
    → reconcile m later (reconcile m now l) ≡ reconcile m now l
unfolding reconcile next_state
reconcile_idem m now later l = ground arith

-- When the state stays, so does the whole record, the time of its last transition too; when the
-- state moves, that time is the present one.
pub reconcile_transition :
    (m : LifecycleManager) (now : Timestamp) (l : LifecycleRecord)
    → ((reconcile m now l).state ≡ l.state → reconcile m now l ≡ l)
      × ((reconcile m now l).state ≢ l.state → (reconcile m now l).last_transition ≡ now)
unfolding reconcile
reconcile_transition m now l = elim (Bool-cases (same_state (next_state m l) l.state)) [
  | inl same ↦ (λ h. rw same, λ h. absurd (h (rw same)))
  | inr moved ↦ (
    λ h.
        let stays : next_state m l ≡ l.state = ground arith in
        cc (same_state_self l.state, rw stays at moved),
    λ h. rw moved,
  )
]

-- The state that an idle time calls for, whatever the state was before.
abbrev pub policy_state : LifecycleManager → ℕ → LifecycleState
policy_state m idle =
    if leb m.cold_after_seconds idle
    then cold
    else if leb m.warm_after_seconds idle
    then warm
    else hot

-- A record whose state is the one that its idle time calls for.
abbrev pub IsAged : LifecycleManager → LifecycleRecord → Type 0
IsAged m l = l.state ≡ policy_state m l.idle_duration_seconds

-- Both ways in which a record starts to be in use call for no other state, if the thresholds are
-- positive.
pub started-IsAged :
    (m : LifecycleManager) (now : Timestamp) (d : DeploymentRecord) (l : LifecycleRecord)
    → 0 < m.warm_after_seconds
    → 0 < m.cold_after_seconds
    → IsAged m (initialize now d) × IsAged m (touch now l)
unfolding initialize touch
started-IsAged m now d l h k = ground arith

-- Growing idle and reconciling keeps a record's state a function of its idle time alone: the state
-- machine implements the threshold policy.
pub reconcile-IsAged :
    (m : LifecycleManager) (now : Timestamp) (l : LifecycleRecord) (idle : ℕ)
    → IsAged m l
    → l.idle_duration_seconds ≤ idle
    → IsAged m (reconcile m now (record l { idle_duration_seconds = idle }))
unfolding next_state
reconcile-IsAged m now l idle h k =
    let (s, i, _) = reconcile_fields m now (record l { idle_duration_seconds = idle }) in
    ground arith
