-- ===== src/Sched/Calls.antt =====
-- kernel/sched/scheduler.c, the calls of tasks and of the timer: creation, blocking, sleeping, exit
-- and priorities. The tick count, the result of `kmalloc` and the effect of `kfree` are the
-- caller's business: the first two are arguments, the last is left out.
use zurich_os.Base.{
  ℕ, zero, suc, ◌+◌, ◌%◌, ◌^◌, Bool, true, false, ◌&&◌, ◌||◌, not, Option, none, some, List, [],
  ◌∷◌, if◌then◌else◌, ltb, leb, ◌==◌, replicate,
}
use zurich_os.Sched.{
  running, ready, blocked, sleeping, zombie, Task, Scheduler, zero_task, max_tasks,
  default_stack_size, task_at, modify, in_state, is_task, is_unused, is_blocked, is_sleeping,
  ready_queue_add, ready_queue_pop, alloc_task_slot, schedule_force, schedule,
}

abbrev pub pid_of : List Task → Option ℕ → ℕ
pid_of tasks none = 0
pid_of tasks (some c) = (task_at tasks c).pid

abbrev pub new_task : ℕ → ℕ → ℕ → ℕ → Task → Task
new_task tid pid stack size t = record t {
  tid = tid;
  pid = pid;
  state = ready;
  priority = 10;
  base_priority = 10;
  inherited_priority = 0;
  kernel_stack = stack;
  kernel_stack_size = size;
  cpu_time = 0;
  wake_time = 0;
  next = none;
}

create_at : Scheduler → ℕ → ℕ → Option ℕ → Option ℕ × Scheduler
create_at s size stack none = (none, s)
create_at s size zero (some i) = (none, s)
create_at s size (suc a) (some i) = (
  some i,
  ready_queue_add
      (record s {
        next_tid = (s.next_tid + 1) % 2 ^ 32;
        tasks = modify s.tasks i (new_task s.next_tid (pid_of s.tasks s.current) (suc a) size);
      })
      i,
)

-- `kmalloc` gives the address of the stack of the size asked for, or 0.
unfoldable pub task_create : (ℕ → ℕ) → ℕ → Scheduler → Option ℕ × Scheduler
unfolding create_at
task_create kmalloc stack_size s =
    let size = if stack_size == 0 then default_stack_size else stack_size in
    create_at s size (kmalloc size) (alloc_task_slot s)

unqueue_idle : Scheduler → ℕ → Scheduler
unqueue_idle s i = if is_task s.head i then (ready_queue_pop s).1 else s

settle_idle : Option ℕ × Scheduler → Scheduler
unfolding unqueue_idle
settle_idle (none, s) = record s { idle = none }
settle_idle (some i, s) =
    let s1 = unqueue_idle s i in
    record s1 {
      idle = some i;
      tasks = modify s1.tasks i λ t. record t { state = ready; priority = 255 };
    }

-- The table as `scheduler_init` leaves it before it creates the idle task. The other statics have
-- their first values.
abbrev pub booted : Scheduler
booted = record {
  tasks = (record zero_task { state = running }) ∷ replicate 63 zero_task;
  next_tid = 1;
  current = some 0;
  idle = none;
  head = none;
  tail = none;
  lock = false;
  enabled = false;
}

unfoldable pub scheduler_init : (ℕ → ℕ) → Scheduler
unfolding settle_idle
scheduler_init kmalloc = settle_idle (task_create kmalloc default_stack_size booted)

-- The loop of `scheduler_tick` over the table, from entry `i` on.
unfoldable pub wake_from : ℕ → ℕ → ℕ → Scheduler → Scheduler
wake_from now zero i s = s
wake_from now (suc rounds) i s =
    let t = task_at s.tasks i in
    wake_from now rounds (i + 1)
      (if is_sleeping t.state && leb t.wake_time now then ready_queue_add s i else s)

abbrev pub is_some : Option ℕ → Bool
is_some none = false
is_some (some i) = true

tick_current : ℕ → Scheduler → Option ℕ → Scheduler
unfolding wake_from
tick_current now s none = s
tick_current now s (some c) =
    let s1 = record s {
      tasks = modify s.tasks c λ t. record t { cpu_time = (t.cpu_time + 1) % 2 ^ 64 };
    } in
    let s2 = wake_from now max_tasks 0 s1 in
    if is_some s2.head && not ((task_at s2.tasks c).tid == 0) then schedule s2 else s2

unfoldable pub scheduler_tick : ℕ → Scheduler → Scheduler
unfolding tick_current
scheduler_tick now s = if not s.enabled then s else tick_current now s s.current

pub block_current : ℕ → Scheduler → Option ℕ → Scheduler
block_current reason s none = s
block_current reason s (some c) =
    schedule_force (record s {
      tasks = modify s.tasks c λ t. record t { state = blocked; block_reason = reason };
    })

unfoldable pub task_block : ℕ → Scheduler → Scheduler
unfolding block_current
task_block reason s = block_current reason s s.current

abbrev pub awake : Task → Task
awake t = record t { block_reason = 0 }

unfoldable pub task_unblock : Scheduler → ℕ → Scheduler
task_unblock s i =
    if is_blocked (task_at s.tasks i).state
    then ready_queue_add (record s { tasks = modify s.tasks i awake }) i
    else s

sleep_current : ℕ → Scheduler → Option ℕ → Scheduler
sleep_current wake s none = s
sleep_current wake s (some c) =
    schedule
      (record s { tasks = modify s.tasks c λ t. record t { wake_time = wake; state = sleeping } })

unfoldable pub task_sleep : ℕ → ℕ → Scheduler → Scheduler
unfolding sleep_current
task_sleep now ms s = sleep_current ((now + ms) % 2 ^ 64) s s.current

pub exit_current : Scheduler → Option ℕ → Scheduler
exit_current s none = s
exit_current s (some c) = schedule_force (record s { tasks = modify s.tasks c (in_state zombie) })

-- `task_exit`, without the memory of the stack.
unfoldable pub task_exit : Scheduler → Scheduler
unfolding exit_current
task_exit s = exit_current s s.current

unfoldable pub task_set_priority : ℕ → Task → Task
task_set_priority p t = record t {
  base_priority = p;
  priority =
      if ltb 0 t.inherited_priority && ltb t.inherited_priority p then t.inherited_priority else p;
}

abbrev pub inherit : ℕ → Task → Task
inherit p t =
    if t.inherited_priority == 0 || ltb p t.inherited_priority
    then record t { inherited_priority = p }
    else t

unfoldable pub task_boost_priority : ℕ → Task → Task
task_boost_priority p t =
    let t1 = inherit p t in if ltb p t1.priority then record t1 { priority = p } else t1

unfoldable pub task_restore_priority : Task → Task
task_restore_priority t = record t { inherited_priority = 0; priority = t.base_priority }

unfoldable pub count_tasks : List Task → ℕ
count_tasks [] = 0
count_tasks (t ∷ ts) =
    let rest = count_tasks ts in
    if not (is_unused t.state) && not (t.tid == 0) then suc rest else rest

unfoldable pub scheduler_get_task_count : Scheduler → ℕ
scheduler_get_task_count s = count_tasks s.tasks
