-- ===== src/Concurrency/Balance.antt =====
-- How `increment` and `decrement` (llm_platform/services/concurrency.py) balance.
mod Tests
use foundation_ai_platform.Prelude.{
  ℕ, String, ◌+◌, ◌-◌, ◌≤◌, ◌<◌, ◌≡◌, refl, List, [], ◌∷◌, arith, ◌==◌, eq_iff, if◌then◌else◌,
}
use foundation_ai_platform.Prelude.Dict.{lookup-insert}
use foundation_ai_platform.Concurrency.{
  ConcurrencyTracker, get_active_requests, increment, decrement,
}

module _ (k i : String) (t : ConcurrencyTracker) where
  pub active-increment :
      get_active_requests (increment k t) i
      ≡ (if k == i then get_active_requests t i + 1 else get_active_requests t i)
  unfolding get_active_requests increment
  active-increment =
      ground (arith, eq_iff k i, lookup-insert k i (get_active_requests t k + 1) t.active)

  pub active-decrement :
      get_active_requests (decrement k t) i
      ≡ (if k == i then get_active_requests t i - 1 else get_active_requests t i)
  unfolding get_active_requests decrement
  active-decrement = ground (
    arith,
    eq_iff k i,
    lookup-insert k i (get_active_requests t k - 1) t.active,
    lookup-insert k i 0 t.active,
  )

-- A request that begins and ends leaves every deployment's count as it was.
pub decrement-increment :
    (k i : String) (t : ConcurrencyTracker)
    → get_active_requests (decrement k (increment k t)) i ≡ get_active_requests t i
decrement-increment k i t =
    ground (arith, active-increment k i t, active-decrement k i (increment k t), eq_iff k i)

-- What the requests of any number of callers do, in the order in which they take the lock.
pub data Event : Type 0 where
  begin finish : String → Event

pub step : Event → ConcurrencyTracker → ConcurrencyTracker
step (begin k) t = increment k t
step (finish k) t = decrement k t

pub run : List Event → ConcurrencyTracker → ConcurrencyTracker
unfolding step
run [] t = t
run (e ∷ es) t = run es (step e t)

module _ (i : String) where
  pub begins : List Event → ℕ
  begins [] = 0
  begins (begin k ∷ es) = if k == i then begins es + 1 else begins es
  begins (finish k ∷ es) = begins es

  pub finishes : List Event → ℕ
  finishes [] = 0
  finishes (begin k ∷ es) = finishes es
  finishes (finish k ∷ es) = if k == i then finishes es + 1 else finishes es

  -- Every request of deployment `i` that ends has begun, where `n` are under way at the start.
  abbrev pub IsBracketed : ℕ → List Event → Type 0
  IsBracketed n [] = Unit
  IsBracketed n (begin k ∷ es) = if k == i then IsBracketed (n + 1) es else IsBracketed n es
  IsBracketed n (finish k ∷ es) =
      if k == i then (0 < n) × IsBracketed (n - 1) es else IsBracketed n es

  -- Over any interleaving of requests in which each end follows its begin, the count of a
  -- deployment is what it was, plus the requests that began, minus those that ended.
  pub run_counts :
      (es : List Event) (t : ConcurrencyTracker)
      → IsBracketed (get_active_requests t i) es
      → get_active_requests (run es t) i + finishes es ≡ get_active_requests t i + begins es
  unfolding run begins finishes
  run_counts [] t h = refl
  run_counts (begin k ∷ es) t h =
      ground (arith, active-increment k i t, run_counts es (increment k t))
  run_counts (finish k ∷ es) t h =
      ground (arith, active-decrement k i t, run_counts es (decrement k t))
