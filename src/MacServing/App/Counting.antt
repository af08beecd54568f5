-- ===== src/MacServing/App/Counting.antt =====
-- What the metrics of mac-serving/src/mac_serving/app.py count, over any order of begins and ends.
use foundation_ai_platform.Prelude.{ℕ, ◌+◌, ◌≡◌, refl, Bool, List, [], ◌∷◌, if◌then◌else◌, arith}
use foundation_ai_platform.Prelude.Int.{pos, ◌+ℤ◌, int_laws, parts_of_eq}
use foundation_ai_platform.Exec.{Exec}
use foundation_ai_platform.MacServing.App.{Metrics, begin, finish}

-- The calls of the metrics by any number of requests.
pub data Call : Type 0 where
  begins : Call
  ends : (started now : ℕ) → (failed : Bool) → Call

unfoldable pub run : List Call → Metrics → Metrics
run [] m = m
run (begins ∷ cs) m = run cs (begin m)
run (ends started now failed ∷ cs) m = run cs (finish started now failed m)

abbrev pub begun : List Call → ℕ
begun [] = 0
begun (begins ∷ cs) = begun cs + 1
begun (ends started now failed ∷ cs) = begun cs

abbrev pub ended : List Call → ℕ
ended [] = 0
ended (begins ∷ cs) = ended cs
ended (ends started now failed ∷ cs) = ended cs + 1

abbrev pub broken : List Call → ℕ
broken [] = 0
broken (begins ∷ cs) = broken cs
broken (ends started now failed ∷ cs) = if failed then broken cs + 1 else broken cs

-- The counters are what was begun, what has failed, and what was begun and has not ended.
pub run_counts :
    (cs : List Call) (m : Metrics)
    → ((run cs m).requests ≡ m.requests + begun cs)
      × ((run cs m).failures ≡ m.failures + broken cs)
      × ((run cs m).in_flight +ℤ pos (ended cs) ≡ m.in_flight +ℤ pos (begun cs))
unfolding run begin finish
run_counts [] m = (omega arith, omega arith, refl)
run_counts (begins ∷ cs) m =
    let ih = run_counts cs (begin m) in
    (omega (arith, ih.0), omega (arith, ih.1), omega (int_laws, parts_of_eq ih.2))
run_counts (ends started now failed ∷ cs) m =
    let ih = run_counts cs (finish started now failed m) in
    (omega (arith, ih.0), ground (arith, ih.1), omega (int_laws, parts_of_eq ih.2))

abbrev pub added : Bool → ℕ
added failed = if failed then 1 else 0
