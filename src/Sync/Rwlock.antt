-- ===== src/Sync/Rwlock.antt =====
-- kernel/sync/rwlock.c: the lock, each critical section of its functions, and the interleavings of the tasks
-- that call them. `readers` is the two's complement of the 32-bit counter.
pub mod Holders
pub mod Exclusion
pub mod Stuck
pub mod Starvation
use zurich_os.Base.{
  ℕ, zero, suc, ◌+◌, ◌-◌, ◌%◌, ◌^◌, Bool, true, false, not, ◌&&◌, List, [], ◌∷◌, ltb, ◌==◌,
  if◌then◌else◌, get_or, set, length, replicate,
}
use zurich_os.Sync.Waitqueue.{Stage, empty_queue, enqueue, is_empty, wake_one, wake_all}

pub record Rwlock : Type 0 where
  pub readers : ℕ
  pub writer : Bool
  pub writer_waiting : Bool
  pub read_waiters : List ℕ
  pub write_waiters : List ℕ

abbrev pub rwlock_init : Rwlock
rwlock_init = record {
  readers = 0;
  writer = false;
  writer_waiting = false;
  read_waiters = empty_queue;
  write_waiters = empty_queue;
}

-- The critical section of `rwlock_read_lock`, and all of `rwlock_try_read_lock`; true if the lock is taken.
unfoldable pub try_read_lock : Rwlock → Rwlock × Bool
try_read_lock rw =
    if not rw.writer && not rw.writer_waiting
    then (record rw { readers = (rw.readers + 1) % 2 ^ 32 }, true)
    else (rw, false)

-- The critical section of `rwlock_write_lock`.
unfoldable pub write_round : Rwlock → Rwlock × Bool
write_round rw =
    if not rw.writer && (rw.readers == 0)
    then (record rw { writer = true; writer_waiting = false }, true)
    else (record rw { writer_waiting = true }, false)

unfoldable pub try_write_lock : Rwlock → Rwlock × Bool
try_write_lock rw =
    if not rw.writer && (rw.readers == 0) then (record rw { writer = true }, true) else (rw, false)

-- What a function that has released the lock is about to wake.
pub data Wake : Type 0 where
  nobody : Wake
  one_writer : Wake
  all_readers : Wake

unfoldable pub read_unlock : Rwlock → Rwlock × Wake
read_unlock rw =
    let left = (rw.readers + (2 ^ 32 - 1)) % 2 ^ 32 in
    (record rw { readers = left }, if (left == 0) && rw.writer_waiting then one_writer else nobody)

unfoldable pub write_unlock : Rwlock → Rwlock × Wake
write_unlock rw = (
  record rw { writer = false },
  if not (is_empty rw.read_waiters)
      then all_readers
      else (if not (is_empty rw.write_waiters) then one_writer else nobody),
)

-- Where a task stands in its calls.
pub data Phase : Type 0 where
  out : Phase
  read : Stage → Phase
  reading : Phase
  write : Stage → Phase
  writing : Phase
  waking : Wake → Phase

-- `task_unblock`: a task that is not blocked is left alone.
abbrev pub unblocked : Phase → Phase
unblocked (read Stage.asleep) = read Stage.try
unblocked (write Stage.asleep) = write Stage.try
unblocked p = p

-- The lock and the phase of each task.
pub record System : Type 0 where
  pub lock : Rwlock
  pub tasks : List Phase

unfoldable pub start : ℕ → System
start n = record { lock = rwlock_init; tasks = replicate n out }

-- The functions of rwlock.c.
pub data Call : Type 0 where
  read_lock : Call
  write_lock : Call
  try_read : Call
  try_write : Call
  unlock_read : Call
  unlock_write : Call

abbrev pub moved : System → Rwlock → ℕ → Phase → System
moved s rw i p = record { lock = rw; tasks = set s.tasks i p }

-- A call by task `i`, which is in none and whose phase is `p`. Nothing keeps a task from calling any of
-- them; the phase is that of the last lock or unlock.
abbrev pub call : Call → System → ℕ → Phase → System
call read_lock s i p = moved s s.lock i (read Stage.try)
call write_lock s i p = moved s s.lock i (write Stage.try)
call try_read s i p = let r = try_read_lock s.lock in moved s r.0 i (if r.1 then reading else p)
call try_write s i p = let r = try_write_lock s.lock in moved s r.0 i (if r.1 then writing else p)
call unlock_read s i p = let r = read_unlock s.lock in moved s r.0 i (waking r.1)
call unlock_write s i p = let r = write_unlock s.lock in moved s r.0 i (waking r.1)

abbrev pub wakes : Wake → System → System
wakes nobody s = s
wakes one_writer s =
    let r = wake_one out unblocked s.lock.write_waiters s.tasks in
    record { lock = record s.lock { write_waiters = r.0 }; tasks = r.1 }
wakes all_readers s = record {
  lock = record s.lock { read_waiters = empty_queue };
  tasks = wake_all out unblocked s.lock.read_waiters s.tasks;
}

-- The next section of task `i`, by its phase. `able` says, where `waitqueue_wait` begins, whether
-- `kmalloc` gives it an entry, and where it is about to block, whether another task is ready: else
-- `task_block` returns at once. Either way the caller's loop then goes round.
unfoldable pub act : Call → Bool → System → ℕ → Phase → System
act c able s i out = call c s i out
act c able s i (read Stage.try) =
    let r = try_read_lock s.lock in moved s r.0 i (if r.1 then reading else read Stage.park)
act c able s i (read Stage.park) =
    if able
    then moved s (record s.lock { read_waiters = enqueue s.lock.read_waiters i }) i
        (read Stage.queued)
    else moved s s.lock i (read Stage.try)
act c able s i (read Stage.queued) =
    moved s s.lock i (read (if able then Stage.asleep else Stage.try))
act c able s i (read Stage.asleep) = s
act c able s i reading = call c s i reading
act c able s i (write Stage.try) =
    let r = write_round s.lock in moved s r.0 i (if r.1 then writing else write Stage.park)
act c able s i (write Stage.park) =
    if able
    then moved s (record s.lock { write_waiters = enqueue s.lock.write_waiters i }) i
        (write Stage.queued)
    else moved s s.lock i (write Stage.try)
act c able s i (write Stage.queued) =
    moved s s.lock i (write (if able then Stage.asleep else Stage.try))
act c able s i (write Stage.asleep) = s
act c able s i writing = call c s i writing
act c able s i (waking w) = let t = moved s s.lock i out in wakes w t

-- One step of task `i`; there is no other task than those of the list.
unfoldable pub step : Call → Bool → System → ℕ → System
step c able s i =
    let next = act c able s i (get_or s.tasks i out) in if ltb i (length s.tasks) then next else s

-- A task's turn.
pub record Turn : Type 0 where
  pub task : ℕ
  pub call : Call
  pub able : Bool

unfoldable pub run : List Turn → System → System
run [] s = s
run (t ∷ ts) s = run ts (step t.call t.able s t.task)
