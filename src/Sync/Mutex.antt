-- ===== src/Sync/Mutex.antt =====
-- kernel/sync/mutex.c and condvar.c: a mutex with priority inheritance and a condition variable, and
-- the interleavings of the tasks that call them. `waiting_on`, which nothing reads, is left out.
pub mod Held
pub mod Ownership
pub mod Named
pub mod Inheritance
pub mod Priorities
pub mod Lost
pub mod Signals
mod Examples
use zurich_os.Base.{
  ℕ, zero, suc, Bool, true, false, not, Option, none, some, List, [], ◌∷◌, ltb, if◌then◌else◌,
  get_or, set, length, replicate,
}
use zurich_os.Sched.{Task, zero_task}
use zurich_os.Sched.Calls.{task_boost_priority, task_restore_priority}
use zurich_os.Sync.Waitqueue.{Stage, empty_queue, enqueue, wake_one, wake_all}

-- `locked` is 0 or 1.
pub record Mutex : Type 0 where
  pub locked : Bool
  pub owner : ℕ
  pub owner_task : Option ℕ
  pub waiters : List ℕ

abbrev pub mutex_init : Mutex
mutex_init = record { locked = false; owner = 0; owner_task = none; waiters = empty_queue }

abbrev pub condvar_init : List ℕ
condvar_init = empty_queue

-- Where a task stands in its calls. `relock` is `mutex_lock` called by a task that has locked the mutex
-- before. In `condvar_wait`: `linked` has its entry in the queue and has not yet unlocked, `released`
-- has unlocked and is about to wake a waiter, `parking` is about to block, and `waiting` is blocked.
-- `waking` is the end of `mutex_unlock`.
pub data Phase : Type 0 where
  out : Phase
  lock : Stage → Phase
  relock : Stage → Phase
  holding : Phase
  waking : Phase
  linked : Phase
  released : Phase
  parking : Phase
  waiting : Phase

-- `task_unblock`: a task that is not blocked is left alone.
abbrev pub unblocked : Phase → Phase
unblocked (lock Stage.asleep) = lock Stage.try
unblocked (relock Stage.asleep) = relock Stage.try
unblocked waiting = lock Stage.try
unblocked p = p

-- The mutex, the queue of the condition variable, the phase of each task, and the entries of the tasks
-- in the table of the scheduler.
pub record System : Type 0 where
  pub mutex : Mutex
  pub condition : List ℕ
  pub tasks : List Phase
  pub table : List Task

unfoldable pub start : ℕ → List Task → System
start n table = record {
  mutex = mutex_init;
  condition = condvar_init;
  tasks = replicate n out;
  table = table;
}

pub data Call : Type 0 where
  mutex_lock : Call
  mutex_trylock : Call
  mutex_unlock : Call
  condvar_wait : Call
  condvar_signal : Call
  condvar_broadcast : Call

abbrev pub task_at : List Task → ℕ → Task
task_at table i = get_or table i zero_task

abbrev pub at_phase : System → ℕ → Phase → System
at_phase s i p = record s { tasks = set s.tasks i p }

abbrev pub take_mutex : System → ℕ → Mutex
take_mutex s i = record s.mutex {
  locked = true;
  owner = (task_at s.table i).tid;
  owner_task = some i;
}

-- The owner gets the priority of a more urgent task that waits for it; 0 is the most urgent.
unfoldable pub inherit_from : List Task → ℕ → Option ℕ → List Task
inherit_from table i none = table
inherit_from table i (some o) =
    let current_prio = (task_at table i).priority in
    if ltb current_prio (task_at table o).priority
    then set table o (task_boost_priority current_prio (task_at table o))
    else table

-- The critical section of `mutex_lock`; a task that finds the mutex locked goes on to the phase `p`.
unfoldable pub lock_round : System → ℕ → Phase → System
lock_round s i p =
    if not s.mutex.locked
    then record s { mutex = take_mutex s i; tasks = set s.tasks i holding }
    else record s { tasks = set s.tasks i p; table = inherit_from s.table i s.mutex.owner_task }

unfoldable pub try_lock : System → ℕ → System
try_lock s i =
    if not s.mutex.locked
    then record s { mutex = take_mutex s i; tasks = set s.tasks i holding }
    else s

unfoldable pub restore : List Task → Option ℕ → List Task
restore table none = table
restore table (some o) = set table o (task_restore_priority (task_at table o))

-- The critical section of `mutex_unlock`.
unfoldable pub unlock_round : System → ℕ → Phase → System
unlock_round s i p = record s {
  mutex = record s.mutex { locked = false; owner = 0; owner_task = none };
  tasks = set s.tasks i p;
  table = restore s.table s.mutex.owner_task;
}

-- The call of `waitqueue_wake_one` behind it.
unfoldable pub wake_waiter : System → ℕ → Phase → System
wake_waiter s i p =
    let r = wake_one out unblocked s.mutex.waiters (set s.tasks i p) in
    record s { mutex = record s.mutex { waiters = r.0 }; tasks = r.1 }

unfoldable pub signal : System → System
signal s =
    let r = wake_one out unblocked s.condition s.tasks in record s { condition = r.0; tasks = r.1 }

unfoldable pub broadcast : System → System
broadcast s = record s { condition = []; tasks = wake_all out unblocked s.condition s.tasks }

abbrev pub join_waiters : System → ℕ → Mutex
join_waiters s i = record s.mutex { waiters = enqueue s.mutex.waiters i }

-- A call by a task that is in none; `p` is the phase in which `mutex_lock` starts. Nothing keeps a task
-- from calling any of them. `able` says whether `condvar_wait` gets an entry.
unfoldable pub call : Call → Bool → System → ℕ → Phase → System
call mutex_lock able s i p = at_phase s i p
call mutex_trylock able s i p = try_lock s i
call mutex_unlock able s i p = unlock_round s i waking
call condvar_wait able s i p =
    if able then record s { condition = enqueue s.condition i; tasks = set s.tasks i linked } else s
call condvar_signal able s i p = signal s
call condvar_broadcast able s i p = broadcast s

-- The next section of task `i`, by its phase. `able` says, where a queue is to get an entry, whether
-- `kmalloc` has room for it, and where the task is about to block, whether another task is ready: else
-- `task_block` returns at once.
unfoldable pub act : Call → Bool → System → ℕ → Phase → System
act c able s i out = call c able s i (lock Stage.try)
act c able s i (lock Stage.try) = lock_round s i (lock Stage.park)
act c able s i (lock Stage.park) =
    if able
    then record s { mutex = join_waiters s i; tasks = set s.tasks i (lock Stage.queued) }
    else at_phase s i (lock Stage.try)
act c able s i (lock Stage.queued) = at_phase s i (lock (if able then Stage.asleep else Stage.try))
act c able s i (lock Stage.asleep) = s
act c able s i (relock Stage.try) = lock_round s i (relock Stage.park)
act c able s i (relock Stage.park) =
    if able
    then record s { mutex = join_waiters s i; tasks = set s.tasks i (relock Stage.queued) }
    else at_phase s i (relock Stage.try)
act c able s i (relock Stage.queued) =
    at_phase s i (relock (if able then Stage.asleep else Stage.try))
act c able s i (relock Stage.asleep) = s
act c able s i holding = call c able s i (relock Stage.try)
act c able s i waking = wake_waiter s i out
act c able s i linked = unlock_round s i released
act c able s i released = wake_waiter s i parking
act c able s i parking = at_phase s i (if able then waiting else lock Stage.try)
act c able s i waiting = s

-- There is no other task than those of the list.
unfoldable pub step : Call → Bool → System → ℕ → System
step c able s i =
    let next = act c able s i (get_or s.tasks i out) in if ltb i (length s.tasks) then next else s

pub record Turn : Type 0 where
  pub task : ℕ
  pub call : Call
  pub able : Bool

unfoldable pub run : List Turn → System → System
run [] s = s
run (t ∷ ts) s = run ts (step t.call t.able s t.task)
