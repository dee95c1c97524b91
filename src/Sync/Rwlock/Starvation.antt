-- ===== src/Sync/Rwlock/Starvation.antt =====
-- What `rwlock_write_unlock` leaves behind when it wakes the readers while a writer is waiting.
use zurich_os.Base.{ℕ, ◌≡◌, ◌≢◌, Bool, true, false, ◌&&◌, List, [], ◌∷◌, get_or, length, ◌<◌}
use zurich_os.Sync.Waitqueue.{is_empty}
use zurich_os.Sync.Rwlock.{Phase, out, read, writing, waking, all_readers, System, moved}
use zurich_os.Sync.Rwlock.Stuck.{stalled, Stuck}

abbrev pub is_read : Phase → Bool
is_read (read s) = true
is_read p = false

-- The entries of the readers' queue are tasks in `rwlock_read_lock`.
abbrev pub all_read : List ℕ → List Phase → Bool
all_read [] tasks = true
all_read (i ∷ q) tasks = is_read (get_or tasks i out) && all_read q tasks

-- A writer holds the lock, another task is marked as waiting to write, readers are in the queue, and every
-- other task is stalled.
pub record Crowded (s : System) (i : ℕ) : Type 0 where
  pub within : i < length s.tasks
  pub holds : get_or s.tasks i out ≡ writing
  pub no_reader : s.lock.readers ≡ 0
  pub awaited : s.lock.writer_waiting ≡ true
  pub some_reader : is_empty s.lock.read_waiters ≡ false
  pub entries : all_read s.lock.read_waiters s.tasks ≡ true
  pub others : (j : ℕ) → i ≢ j → stalled (get_or s.tasks j out) ≡ true

-- The state after the writer has left, and before it wakes the readers.
abbrev left : System → ℕ → System
left s i = moved s (record s.lock { writer = false }) i (waking all_readers)
