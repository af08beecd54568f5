-- ===== src/Chat/Tasks/Completion.antt =====
-- Interleaved requests to `chat` (llm_platform/services/chat.py) that go on to their end.
use foundation_ai_platform.Prelude.{
  ℕ, zero, suc, ◌≤◌, ◌<◌, ◌≡◌, refl, sym, ap, ◌∙◌, subst, String, false, Bool-cases, inl, inr,
  Option, none, some, List, [], ◌∷◌, ◌++◌, arith,
}
use native.Mathlib.Decide.{dec_lt}
use foundation_ai_platform.Prelude.Dict.{get_or}
use foundation_ai_platform.Routing.Decision.{Random}
use foundation_ai_platform.Platform.{Host, Platform}
use foundation_ai_platform.Chat.Tasks.{Task, waiting, done, Shared, boots}
use foundation_ai_platform.Chat.Tasks.Advance.{unlocked, under_lock, under_both, advance}
use foundation_ai_platform.Chat.Tasks.Interleaving.{
  System, go, Reach, later, count, count-append, started_for, one_if, booting,
}
use foundation_ai_platform.Chat.Tasks.Safety.{Accounted, Reach-Accounted}
use foundation_ai_platform.Chat.Tasks.Progress.{parts_left, advance-parts_left}

-- A task of the list that the measure counts.
record Found (f : Task → ℕ) (ts : List Task) : Type 0 where
  before : List Task
  task : Task
  after : List Task
  place : ts ≡ before ++ task ∷ after
  positive : 0 < f task

find_counted : (f : Task → ℕ) (ts : List Task) → 0 < count f ts → Found f ts
unfolding count
find_counted f [] h = absurd (omega (arith, h))
find_counted f (t ∷ ts) h = elim (dec_lt 0 (f t)) [
  | yes l ↦ record { before = []; task = t; after = ts; place = refl; positive = l }
  | no l ↦
      let found = find_counted f ts (omega (arith, h, l)) in
      record {
        before = t ∷ found.before;
        task = found.task;
        after = found.after;
        place = ap (λ l. t ∷ l) found.place;
        positive = found.positive;
      }
]

abbrev pub unfinished : Task → ℕ
unfinished (done result) = 0
unfinished _ = 1

pub unfinished-parts_left : (t : Task) → unfinished t ≤ parts_left t
unfinished-parts_left t = ground arith

total_unfinished : (ts : List Task) → count unfinished ts ≤ count parts_left ts
unfolding count
total_unfinished [] = omega arith
total_unfinished (t ∷ ts) = omega (arith, unfinished-parts_left t, total_unfinished ts)

module _ {World : Type 0} (host : Host World) (random : Random) where
  -- So many requests go on, one at a time.
  pub data Goes : ℕ → System World → System World → Type 0 where
    rest : (s : System World) → Goes 0 s s
    on :
        (n : ℕ) (before after : List Task) (t t' : Task) (s s' : Shared World) (end : System World)
        → advance host random t s ≡ some (t', s')
        → Goes n (record { tasks = before ++ t' ∷ after; shared = s' }) end
        → Goes (suc n) (record { tasks = before ++ t ∷ after; shared = s }) end

  stuck-boots : (t : Task) (s : Shared World) → advance host random t s ≡ none → booting t ≡ 0
  unfolding advance under_both boots
  stuck-boots t s e = ground arith

  stuck-starts :
      (k : String) (t : Task) (s : Shared World)
      → s.global_boot_lock ≡ false
      → advance host random t s ≡ none
      → started_for k t ≡ 0
  unfolding advance under_both
  stuck-starts k t s free e = ground arith

  waits_for : Task → String
  waits_for (waiting q r m) = r.model_id
  waits_for _ = ""

  stuck-unfinished :
      (t : Task) (s : Shared World)
      → s.global_boot_lock ≡ false
      → get_or (waits_for t) false s.cold_start_locks ≡ false
      → advance host random t s ≡ none
      → unfinished t ≡ 0
  unfolding advance unlocked under_lock under_both waits_for
  stuck-unfinished t s free lock e = ground arith

  -- A task that can go on.
  record Move (ts : List Task) (s : Shared World) : Type 0 where
    before : List Task
    task : Task
    after : List Task
    next : Task × Shared World
    place : ts ≡ before ++ task ∷ after
    goes : advance host random task s ≡ some next

  pick_next :
      (f : Task → ℕ) (ts : List Task) (s : Shared World) (found : Found f ts)
      → (advance host random found.task s ≡ none → f found.task ≡ 0)
      → Move ts s
  pick_next f ts s found stuck = decided_by (advance host random found.task s) refl
    where
      decided_by :
          (o : Option (Task × Shared World)) → advance host random found.task s ≡ o → Move ts s
      decided_by none e = absurd (omega (arith, stuck e, found.positive))
      decided_by (some y) e = record {
        before = found.before;
        task = found.task;
        after = found.after;
        next = y;
        place = found.place;
        goes = e;
      }

  move_spends :
      (before after : List Task) (t t' : Task) (s s' : Shared World)
      → advance host random t s ≡ some (t', s')
      → count parts_left (before ++ t' ∷ after) < count parts_left (before ++ t ∷ after)
  move_spends before after t t' s s' e = omega (
    arith,
    count-append parts_left before after t,
    count-append parts_left before after t',
    advance-parts_left host random t t' s s' e,
  )

  module _ (p : Platform World) where
    moves_on :
        (sys : System World)
        → Accounted p sys
        → 0 < count unfinished sys.tasks
        → Move sys.tasks sys.shared
    moves_on sys a h = elim (Bool-cases sys.shared.global_boot_lock) [
      | inl t ↦
          pick_next booting sys.tasks sys.shared
            (find_counted booting sys.tasks (omega (arith, a.boot ∙ ap one_if t)))
            (stuck-boots _ sys.shared)
      | inr free ↦
          let found = find_counted unfinished sys.tasks h in
          let k = waits_for found.task in
          elim (Bool-cases (get_or k false sys.shared.cold_start_locks)) [
            | inl t ↦
                pick_next (started_for k) sys.tasks sys.shared
                  (find_counted (started_for k) sys.tasks (omega (arith, a.cold k ∙ ap one_if t)))
                  (stuck-starts k _ sys.shared free)
            | inr unheld ↦
                pick_next unfinished sys.tasks sys.shared found
                  (stuck-unfinished found.task sys.shared free unheld)
          ]
    ]

    -- From the tasks of a system to an end of all.
    abbrev Ends : System World → Type 0
    Ends sys = (n : ℕ) × (end : System World) × Goes n sys end × (count unfinished end.tasks ≡ 0)

    -- One part of one task, where the rest is known to come to an end.
    goes_on :
        (n : ℕ)
        → ((sys : System World) → Reach host p sys → count parts_left sys.tasks ≤ n → Ends sys)
        → (before after : List Task) (t : Task) (s : Shared World) (y : Task × Shared World)
        → Reach host p (record { tasks = before ++ t ∷ after; shared = s })
        → count parts_left (before ++ t ∷ after) ≤ suc n
        → advance host random t s ≡ some y
        → Ends (record { tasks = before ++ t ∷ after; shared = s })
    goes_on n ends before after t s y r few e =
        let (m, end, steps, finished) =
          ends _ (later r (go random before after t y.0 s y.1 e))
            (omega (arith, move_spends before after t y.0 s y.1 e, few)) in
        (suc m, end, on m before after t y.0 s y.1 end e steps, finished)

    completes_within :
        (n : ℕ) (sys : System World) → Reach host p sys → count parts_left sys.tasks ≤ n → Ends sys
    completes_within zero sys r few =
        (0, sys, rest sys, omega (arith, total_unfinished sys.tasks, few))
    completes_within (suc n) sys r few = elim (dec_lt 0 (count unfinished sys.tasks)) [
      | no idle ↦ (0, sys, rest sys, omega (arith, idle))
      | yes h ↦
          let move = moves_on sys (Reach-Accounted host p r) h in
          let here : sys
              ≡ record { tasks = move.before ++ move.task ∷ move.after; shared = sys.shared } =
            ap (λ l. record { tasks = l; shared = sys.shared }) move.place in
          subst Ends (sym here) (
            goes_on n (completes_within n) move.before move.after move.task sys.shared move.next
              (subst (Reach host p) here r) (subst (λ l. count parts_left l ≤ suc n) move.place few)
              move.goes)
    ]

    -- Requests to `chat` do not wait for each other for ever: whatever was reached by interleaving
    -- requests and passes of the worker, the requests can go on, one part of one request at a time,
    -- until each has returned or raised.
    pub completes :
        (sys : System World)
        → Reach host p sys
        → (n : ℕ) × (end : System World) × Goes n sys end × (count unfinished end.tasks ≡ 0)
    completes sys r = completes_within (count parts_left sys.tasks) sys r (omega arith)
