-- ===== src/Sync/Semaphore.antt =====
-- kernel/sync/semaphore.c: the counting semaphore, its critical sections, and the interleavings of the tasks
-- that call it. `count` is the two's complement of the signed 32-bit counter.
pub mod Permits
use zurich_os.Base.{
  ℕ, zero, suc, ◌+◌, ◌-◌, ◌%◌, ◌^◌, Bool, true, false, ◌&&◌, List, [], ◌∷◌, ltb, if◌then◌else◌,
  get_or, set, length, replicate,
}
use zurich_os.Sync.Waitqueue.{Stage, empty_queue, enqueue, wake_one}

pub record Semaphore : Type 0 where
  pub count : ℕ
  pub waiters : List ℕ

abbrev pub semaphore_init : ℕ → Semaphore
semaphore_init count = record { count = count; waiters = empty_queue }

-- `sem->count > 0`
abbrev pub is_positive : ℕ → Bool
is_positive count = ltb 0 count && ltb count (2 ^ 31)

-- All of `semaphore_trywait`, and the critical section of `semaphore_wait`; true if a permit is taken.
unfoldable pub semaphore_trywait : Semaphore → Semaphore × Bool
semaphore_trywait sem =
    if is_positive sem.count
    then (record sem { count = (sem.count + (2 ^ 32 - 1)) % 2 ^ 32 }, true)
    else (sem, false)

-- The critical section of `semaphore_signal`.
unfoldable pub semaphore_release : Semaphore → Semaphore
semaphore_release sem = record sem { count = (sem.count + 1) % 2 ^ 32 }

-- Where a task stands in its calls; `waking` has raised the count and is about to wake a waiter.
pub data Phase : Type 0 where
  out : Phase
  wait : Stage → Phase
  waking : Phase

abbrev pub unblocked : Phase → Phase
unblocked (wait Stage.asleep) = wait Stage.try
unblocked p = p

-- The semaphore and the tasks; `taken` and `given` count the waits that have returned with a permit and
-- the signals, for the proofs.
pub record System : Type 0 where
  pub sem : Semaphore
  pub tasks : List Phase
  pub taken : ℕ
  pub given : ℕ

unfoldable pub start : ℕ → ℕ → System
start count n = record { sem = semaphore_init count; tasks = replicate n out; taken = 0; given = 0 }

pub data Call : Type 0 where
  semaphore_wait : Call
  trywait : Call
  semaphore_signal : Call

abbrev pub at_phase : System → ℕ → Phase → System
at_phase s i p = record s { tasks = set s.tasks i p }

-- One attempt to take a permit, and where the task is without one.
abbrev pub attempt : System → ℕ → Phase → System
attempt s i p =
    let r = semaphore_trywait s.sem in
    if r.1
    then record s { sem = r.0; tasks = set s.tasks i out; taken = s.taken + 1 }
    else record s { sem = r.0; tasks = set s.tasks i p }

-- The next section of task `i`, by its phase. `able` says, where `waitqueue_wait` begins, whether
-- `kmalloc` gives it an entry, and where it is about to block, whether another task is ready: else
-- `task_block` returns at once. Either way the loop of `semaphore_wait` then goes round.
unfoldable pub act : Call → Bool → System → ℕ → Phase → System
act semaphore_wait able s i out = at_phase s i (wait Stage.try)
act trywait able s i out = attempt s i out
act semaphore_signal able s i out = record s {
  sem = semaphore_release s.sem;
  tasks = set s.tasks i waking;
  given = s.given + 1;
}
act c able s i (wait Stage.try) = attempt s i (wait Stage.park)
act c able s i (wait Stage.park) =
    if able
    then record s {
      sem = record s.sem { waiters = enqueue s.sem.waiters i };
      tasks = set s.tasks i (wait Stage.queued);
    }
    else at_phase s i (wait Stage.try)
act c able s i (wait Stage.queued) = at_phase s i (wait (if able then Stage.asleep else Stage.try))
act c able s i (wait Stage.asleep) = s
act c able s i waking =
    let r = wake_one out unblocked s.sem.waiters (set s.tasks i out) in
    record s { sem = record s.sem { waiters = r.0 }; tasks = r.1 }

-- There is no other task than those of the list.
unfoldable pub step : Call → Bool → System → ℕ → System
step c able s i =
    let next = act c able s i (get_or s.tasks i out) in if ltb i (length s.tasks) then next else s

pub record Turn : Type 0 where
  pub task : ℕ
  pub call : Call
  pub able : Bool

unfoldable pub run : List Turn → System → System
run [] s = s
run (t ∷ ts) s = run ts (step t.call t.able s t.task)
