-- ===== src/Sched.antt =====
-- kernel/sched/scheduler.c and include/kernel/scheduler.h: the task table, the ready queue, which
-- is linked through the `next` pointers of the tasks, and the switch from one task to the next. A
-- task is its index in the table. What `context_switch` does to the stack is left out: a function
-- ends where the processor would go on in another task.
pub mod Calls
pub mod Queue
pub mod Ready
pub mod Standing
pub mod Turns
pub mod Spec
pub mod Lost
mod Examples
use zurich_os.Base.{
  ℕ, zero, suc, ◌+◌, ◌%◌, ◌^◌, Bool, true, false, ◌&&◌, ◌||◌, not, Option, none, some, List, [],
  ◌∷◌, get_or, set, length, find_index?, if◌then◌else◌, ltb, leb, ◌==◌,
}

pub data TaskState : Type 0 where
  unused : TaskState
  running : TaskState
  ready : TaskState
  blocked : TaskState
  sleeping : TaskState
  zombie : TaskState

abbrev pub is_unused : TaskState → Bool
is_unused unused = true
is_unused _ = false

abbrev pub is_running : TaskState → Bool
is_running running = true
is_running _ = false

abbrev pub is_blocked : TaskState → Bool
is_blocked blocked = true
is_blocked _ = false

abbrev pub is_sleeping : TaskState → Bool
is_sleeping sleeping = true
is_sleeping _ = false

-- `kernel_stack` is 0 where the pointer is null.
pub record Task : Type 0 where
  pub tid : ℕ
  pub pid : ℕ
  pub state : TaskState
  pub priority : ℕ
  pub base_priority : ℕ
  pub inherited_priority : ℕ
  pub block_reason : ℕ
  pub kernel_stack : ℕ
  pub kernel_stack_size : ℕ
  pub cpu_time : ℕ
  pub wake_time : ℕ
  pub next : Option ℕ

pub record Scheduler : Type 0 where
  pub tasks : List Task
  pub next_tid : ℕ
  pub current : Option ℕ
  pub idle : Option ℕ
  pub head : Option ℕ
  pub tail : Option ℕ
  pub lock : Bool
  pub enabled : Bool

-- An entry of the table that `memset` has cleared; also what a read past the table gives.
abbrev pub zero_task : Task
zero_task = record {
  tid = 0;
  pid = 0;
  state = unused;
  priority = 0;
  base_priority = 0;
  inherited_priority = 0;
  block_reason = 0;
  kernel_stack = 0;
  kernel_stack_size = 0;
  cpu_time = 0;
  wake_time = 0;
  next = none;
}

abbrev pub max_tasks : ℕ
max_tasks = 64

abbrev pub default_stack_size : ℕ
default_stack_size = 4096

abbrev pub task_at : List Task → ℕ → Task
task_at tasks i = get_or tasks i zero_task

-- `tasks[i]`, changed by `f`.
abbrev pub modify : List Task → ℕ → (Task → Task) → List Task
modify tasks i f = set tasks i (f (task_at tasks i))

-- Two pointers to tasks are the same.
abbrev pub is_task : Option ℕ → ℕ → Bool
is_task none i = false
is_task (some j) i = j == i

abbrev pub made_ready : Task → Task
made_ready t = record t { next = none; state = ready }

abbrev pub linked_to : ℕ → Task → Task
linked_to i t = record t { next = some i }

abbrev pub unlinked : Task → Task
unlinked t = record t { next = none }

abbrev pub in_state : TaskState → Task → Task
in_state st t = record t { state = st }

link_last : Scheduler → ℕ → Option ℕ → Scheduler
link_last s i none = record s { head = some i; tail = some i }
link_last s i (some t) = record s { tasks = modify s.tasks t (linked_to i); tail = some i }

unfoldable pub ready_queue_add : Scheduler → ℕ → Scheduler
unfolding link_last
ready_queue_add s i = link_last (record s { tasks = modify s.tasks i made_ready }) i s.tail

abbrev pub tail_after : Option ℕ → Option ℕ → Option ℕ
tail_after none tail = none
tail_after (some h) tail = tail

pop_at : Scheduler → Option ℕ → Option ℕ × Scheduler
pop_at s none = (none, s)
pop_at s (some i) =
    let after = (task_at s.tasks i).next in
    (
      some i,
      record s { head = after; tail = tail_after after s.tail; tasks = modify s.tasks i unlinked },
    )

unfoldable pub ready_queue_pop : Scheduler → Option ℕ × Scheduler
unfolding pop_at
ready_queue_pop s = pop_at s s.head

unfoldable pub alloc_task_slot : Scheduler → Option ℕ
alloc_task_slot s = find_index? (λ t. is_unused t.state) s.tasks

-- `prev && prev->state == TASK_STATE_RUNNING && prev != idle_task`
abbrev pub goes_on : Scheduler → ℕ → Bool
goes_on s c = is_running (task_at s.tasks c).state && not (is_task s.idle c)

keep_current : Scheduler → Option ℕ → Scheduler
keep_current s none = s
keep_current s (some c) = if goes_on s c then ready_queue_add s c else s

abbrev pub switch_to : Scheduler → ℕ → Scheduler
switch_to s n = record s { current = some n; tasks = modify s.tasks n (in_state running) }

switch_next : Option ℕ × Scheduler → Scheduler
unfolding keep_current
switch_next (none, s) = s
switch_next (some n, s) = if is_task s.current n then s else switch_to (keep_current s s.current) n

unfoldable pub schedule_force : Scheduler → Scheduler
unfolding switch_next
schedule_force s = if s.lock then s else switch_next (ready_queue_pop s)

unfoldable pub schedule : Scheduler → Scheduler
schedule s = if not s.enabled || s.lock then s else schedule_force s

unfoldable pub scheduler_enable : Scheduler → Scheduler
scheduler_enable s = record s { enabled = true }

unfoldable pub scheduler_disable : Scheduler → Scheduler
scheduler_disable s = record s { enabled = false }
