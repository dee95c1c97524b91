-- ===== src/Sync/Waitqueue.antt =====
-- kernel/sync/waitqueue.c, and `task_unblock` of kernel/sched/scheduler.c as the wait queues use it. A queue
-- is the list of its tasks, the head first; a task is its index in the list of phases. The critical
-- sections run with interrupts off, each as one step.
use zurich_os.Base.{ℕ, Bool, true, false, List, [], ◌∷◌, ◌++◌, get_or, set}

-- What a task is doing with the lock: `try` runs the next round of the loop, `park` enters
-- `waitqueue_wait`, `queued` has its entry in the queue but does not sleep yet, `asleep` is blocked.
pub data Stage : Type 0 where
  try : Stage
  park : Stage
  queued : Stage
  asleep : Stage

-- `waitqueue_init`
abbrev pub empty_queue : List ℕ
empty_queue = []

-- The section of `waitqueue_wait` that links the new entry at the tail.
unfoldable pub enqueue : List ℕ → ℕ → List ℕ
enqueue q i = q ++ i ∷ []

unfoldable pub is_empty : List ℕ → Bool
is_empty [] = true
is_empty (i ∷ q) = false

module _ {P : Type 0} (out : P) (task_unblock : P → P) where
  -- `task_unblock` on the task of one entry.
  abbrev pub unblock : List P → ℕ → List P
  unblock tasks i = set tasks i (task_unblock (get_or tasks i out))

  unfoldable pub wake_one : List ℕ → List P → List ℕ × List P
  wake_one [] tasks = ([], tasks)
  wake_one (i ∷ q) tasks = (q, unblock tasks i)

  unfoldable pub wake_all : List ℕ → List P → List P
  wake_all [] tasks = tasks
  wake_all (i ∷ q) tasks = wake_all q (unblock tasks i)
