-- ===== src/Chat/Tasks/Kept.antt =====
-- What one part of a request (Chat/Tasks) keeps of its count and of its locks.
use foundation_ai_platform.Prelude.{
  ℕ, ◌+◌, ◌≡◌, ap, ◌∙◌, String, Bool, true, false, Bool-cases, inl, inr, some, if◌then◌else◌, arith,
  ◌==◌, eq_iff,
}
use foundation_ai_platform.Prelude.Dict.{Dict, get_or, insert, get_or-insert}
use foundation_ai_platform.Exec.{Exec, Result}
use foundation_ai_platform.Platform.{Platform}
use foundation_ai_platform.Balanced.{IsBalanced, observed}
use foundation_ai_platform.Chat.Tasks.{Task, Shared, starts, boots, task_of}
use foundation_ai_platform.Chat.Tasks.Interleaving.{answered_at, started_for, one_if, booting}
use foundation_ai_platform.Chat.Tasks.Outcomes.{is_open, is_within, leads}
use foundation_ai_platform.Chat.Tasks.Counted.{IsCounted}

open-answered_at :
    (r : Result Task) (k : String) → leads is_open r ≡ true → answered_at k (task_of r) ≡ 0
open-answered_at r k h = ground arith

pub open-started_for :
    (r : Result Task) (k : String) → leads is_open r ≡ true → started_for k (task_of r) ≡ 0
open-started_for r k h = ground arith

pub open-boots : (r : Result Task) → leads is_open r ≡ true → booting (task_of r) ≡ 0
unfolding boots
open-boots r h = ground arith

within-answered_at :
    (j : String) (r : Result Task) (k : String)
    → leads (is_within j) r ≡ true
    → answered_at k (task_of r) ≡ 0
within-answered_at j r k h = ground arith

within-started_for :
    (j : String) (r : Result Task) (k : String)
    → leads (is_within j) r ≡ true
    → started_for k (task_of r) ≡ (if starts (task_of r) then (if j == k then 1 else 0) else 0)
unfolding starts
within-started_for j r k h = grind (arith, eq_iff)

-- Whatever the other requests account for, the request accounts for the rest, before and after.
pub record Kept {World : Type 0} (t : Task) (s : Shared World) (t' : Task) (s' : Shared World)
    : Type 0 where
  pub counted :
      (k : String) (n : ℕ)
      → observed s.platform.concurrency_tracker k ≡ some (n + answered_at k t)
      → observed s'.platform.concurrency_tracker k ≡ some (n + answered_at k t')
  pub cold :
      (k : String) (n : ℕ)
      → n + started_for k t ≡ one_if (get_or k false s.cold_start_locks)
      → n + started_for k t' ≡ one_if (get_or k false s'.cold_start_locks)
  pub boot :
      (n : ℕ)
      → n + booting t ≡ one_if s.global_boot_lock
      → n + booting t' ≡ one_if s'.global_boot_lock

one_if-small : (b : Bool) (n : ℕ) → n + 1 ≡ one_if b → n ≡ 0
one_if-small b n h = ground arith

module _ {World : Type 0} where
  pub within-IsCounted :
      (j : String) (t : Task) (part : Exec (Platform World) Task)
      → ((k : String) → answered_at k t ≡ 0)
      → IsBalanced part
      → ((p : Platform World) → leads (is_within j) (part p).0 ≡ true)
      → IsCounted t part
  within-IsCounted j t part idle b w p k n h =
      b p k ∙ h ∙ ap some (omega (arith, idle k, within-answered_at j (part p).0 k (w p)))

  pub open-IsCounted :
      (t : Task) (part : Exec (Platform World) Task)
      → ((k : String) → answered_at k t ≡ 0)
      → IsBalanced part
      → ((p : Platform World) → leads is_open (part p).0 ≡ true)
      → IsCounted t part
  open-IsCounted t part idle b w p k n h =
      b p k ∙ h ∙ ap some (omega (arith, idle k, open-answered_at (part p).0 k (w p)))

  module _ (t : Task) (part : Exec (Platform World) Task) (s : Shared World) where
    abbrev next : Task
    next = task_of (part s.platform).0

    abbrev platform' : Platform World
    platform' = (part s.platform).1

    pub unlocked-Kept :
        IsCounted t part
        → ((k : String) → started_for k t ≡ 0)
        → booting t ≡ 0
        → ((k : String) → started_for k next ≡ 0)
        → booting next ≡ 0
        → Kept t s next (record s { platform = platform' })
    unlocked-Kept c f b f' b' = record {
      counted = λ k n h. c s.platform k n h;
      cold = λ k n h. omega (arith, f k, f' k, h);
      boot = λ n h. omega (arith, b, b', h);
    }

    module _ (j : String) (w : leads (is_within j) (part s.platform).0 ≡ true)
        (alone : (k : String) (n : ℕ)
          → (j == k) ≡ true
          → n + started_for k t ≡ one_if (get_or k false s.cold_start_locks)
          → n ≡ 0)
        (others : (k : String) → (j == k) ≡ false → started_for k t ≡ 0) where
      abbrev locks' : Dict Bool
      locks' = insert j (starts next) s.cold_start_locks

      within-cold :
          (k : String) (n : ℕ)
          → n + started_for k t ≡ one_if (get_or k false s.cold_start_locks)
          → n + started_for k next ≡ one_if (get_or k false locks')
      within-cold k n h =
          let f = within-started_for j (part s.platform).0 k w in
          let g = get_or-insert j k (starts next) false s.cold_start_locks in
          elim (Bool-cases (j == k)) [
            | inl e ↦ ground (arith, alone k n e h)
            | inr e ↦ ground (arith, others k e)
          ]

      pub under_lock-Kept :
          IsCounted t part
          → booting t ≡ 0
          → booting next ≡ 0
          → Kept t s next (record s { platform = platform'; cold_start_locks = locks' })
      under_lock-Kept c b b' = record {
        counted = λ k n h. c s.platform k n h;
        cold = within-cold;
        boot = λ n h. omega (arith, b, b', h);
      }

      pub under_both-Kept :
          IsCounted t part
          → ((n : ℕ) → n + booting t ≡ one_if s.global_boot_lock → n ≡ 0)
          → Kept t s next (record {
            platform = platform';
            cold_start_locks = locks';
            global_boot_lock = boots next;
          })
      under_both-Kept c b = record {
        counted = λ k n h. c s.platform k n h;
        cold = within-cold;
        boot = λ n h. omega (arith, b n h);
      }
