-- ===== src/Concurrency/Balance/Tests.antt =====
-- Traces of requests (llm_platform/services/concurrency.py).
use foundation_ai_platform.Prelude.{◌≡◌, refl, List, [], ◌∷◌, arith}
use foundation_ai_platform.Prelude.Dict.{lookup, insert}
use foundation_ai_platform.Samples.{quiet}
use foundation_ai_platform.Concurrency.{get_active_requests, increment, decrement, get_all}
use foundation_ai_platform.Concurrency.Balance.{Event, begin, finish, run, IsBracketed}

abbrev trace : List Event
trace = begin "d1" ∷ begin "d2" ∷ begin "d1" ∷ finish "d1" ∷ []

trace_ends : get_all (run trace quiet) ≡ ("d1", 1) ∷ ("d2", 1) ∷ []
unfolding get_all run increment decrement lookup insert
trace_ends = refl

trace-IsBracketed : IsBracketed "d1" (get_active_requests quiet "d1") trace
unfolding get_active_requests lookup
trace-IsBracketed = (omega arith, tt)
