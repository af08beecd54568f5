-- ===== src/Balanced.antt =====
-- Code that leaves the counts of active requests as it finds them (the bracket of increment and
-- decrement in `chat` of llm_platform/services/chat.py), composed as the code composes it.
use foundation_ai_platform.Prelude.{
  String, ◌≡◌, ◌≢◌, refl, sym, ap, ◌∙◌, ℕ, Bool, true, false, Option, none, some, if◌then◌else◌,
  truthy, arith,
}
use mathlib.Core.Option.{some-injective}
use foundation_ai_platform.Exec.{Error, Exec, Result, ok, err, continue, try_except, ◌>>=◌}
use foundation_ai_platform.Concurrency.{
  ConcurrencyTracker, get_active_requests, increment, decrement,
}
use foundation_ai_platform.Concurrency.Balance.{active-increment, active-decrement}
use foundation_ai_platform.Platform.{Platform, active_on}
use foundation_ai_platform.Chat.{on_tracker, count_on, counted}

-- What is seen of a deployment's count: nothing where there is no tracker.
abbrev pub observed : Option ConcurrencyTracker → String → Option ℕ
observed none id = none
observed (some t) id = some (get_active_requests t id)

pub active-observed :
    (o o' : Option ConcurrencyTracker) (id : String)
    → observed o id ≡ observed o' id
    → active_on o id ≡ active_on o' id
active-observed none none id h = refl
active-observed none (some t) id h = cc
active-observed (some t) none id h = cc
active-observed (some t) (some t') id h = some-injective _ _ h

some≢none : {A : Type 0} {a : A} → some a ≢ none
some≢none e = cc

restored :
    (id k : String) (o o' : Option ConcurrencyTracker)
    → ((i : String) → observed o' i ≡ observed (on_tracker (increment id) o) i)
    → observed (on_tracker (decrement id) o') k ≡ observed o k
restored id k none none h = refl
restored id k none (some t) h = absurd (some≢none (h id))
restored id k (some t) none h = absurd (some≢none (sym (h id)))
restored id k (some t) (some t') h =
    ap some
      (ground (arith, some-injective _ _ (h k), active-decrement id k t', active-increment id k t))

abbrev on_counts :
    {World : Type 0} → (ConcurrencyTracker → ConcurrencyTracker) → Platform World → Platform World
on_counts f p = record p { concurrency_tracker = on_tracker f p.concurrency_tracker }

module _ {World : Type 0} where
  -- Code that leaves every count as it finds it, also where it raises.
  abbrev pub IsBalanced : {A : Type 0} → Exec (Platform World) A → Type 0
  IsBalanced m =
      (p : Platform World) (id : String)
      → observed (m p).1.concurrency_tracker id ≡ observed p.concurrency_tracker id

  module _ {A B : Type 0} where
    continue-Balanced :
        (r : Result A × Platform World) (f : A → Exec (Platform World) B) (id : String)
        → ((a : A) → IsBalanced (f a))
        → observed (continue r.0 f r.1).1.concurrency_tracker id
          ≡ observed r.1.concurrency_tracker id
    continue-Balanced (ok a, q) f id h = h a q id
    continue-Balanced (err e, q) f id h = refl

    pub bind-IsBalanced :
        (m : Exec (Platform World) A) (f : A → Exec (Platform World) B)
        → IsBalanced m
        → ((a : A) → IsBalanced (f a))
        → IsBalanced (m >>= f)
    bind-IsBalanced m f h k p id = continue-Balanced (m p) f id k ∙ h p id

  module _ {A : Type 0} where
    caught-Balanced :
        (r : Result A × Platform World) (f : Error → Exec (Platform World) A) (p : Platform World)
        (id : String)
        → ((e : Error) → IsBalanced (f e))
        → observed (try_except (λ _. r) f p).1.concurrency_tracker id
          ≡ observed r.1.concurrency_tracker id
    caught-Balanced (ok a, q) f p id h = refl
    caught-Balanced (err e, q) f p id h = h e q id

    pub try-IsBalanced :
        (m : Exec (Platform World) A) (f : Error → Exec (Platform World) A)
        → IsBalanced m
        → ((e : Error) → IsBalanced (f e))
        → IsBalanced (try_except m f)
    try-IsBalanced m f h k p id = caught-Balanced (m p) f p id k ∙ h p id

    pub if-IsBalanced :
        (b : Bool) (m n : Exec (Platform World) A)
        → IsBalanced m
        → IsBalanced n
        → IsBalanced (if b then m else n)
    if-IsBalanced true m n h k = h
    if-IsBalanced false m n h k = k

    counted_if :
        (b : Bool) (id : String) (m : Exec (Platform World) A)
        → IsBalanced m
        → (p : Platform World) (k : String)
        → observed
            (if b
              then on_counts (decrement id) (m (if b then on_counts (increment id) p else p)).1
              else (m (if b then on_counts (increment id) p else p)).1).concurrency_tracker
            k
          ≡ observed p.concurrency_tracker k
    counted_if true id m h p k = restored id k p.concurrency_tracker _ (λ i. h _ i)
    counted_if false id m h p k = h p k

    -- A call that is counted ends with the count that it began with.
    pub counted-IsBalanced :
        (id : Option String) (m : Exec (Platform World) A)
        → IsBalanced m
        → IsBalanced (counted id m)
    unfolding counted count_on
    counted-IsBalanced none m h p k = h p k
    counted-IsBalanced (some id) m h p k = counted_if (truthy id) id m h p k
