-- ===== src/Sched/Examples.antt =====
-- The theorems on kernel/sched/scheduler.c at a table of four tasks, and runs of its calls.
use zurich_os.Base.{ℕ, ◌≡◌, refl, true, false, Option, none, some, List, [], ◌∷◌, arith}
use zurich_os.Sched.{
  TaskState, running, ready, blocked, Task, Scheduler, zero_task, task_at, schedule_force,
  ready_queue_add, ready_queue_pop, alloc_task_slot,
}
use zurich_os.Sched.Calls.{
  task_block, task_unblock, task_create, scheduler_init, scheduler_get_task_count, count_tasks,
}
use zurich_os.Sched.Turns.{turns, turns-Standing}
use zurich_os.Sched.Standing.{Standing}
use zurich_os.Sched.Spec.{Call, yield, block, unblock, run, Duty, AllAllowed, run-Standing}
use zurich_os.Sched.Lost.{task_block-loses}

abbrev task_in : TaskState → Option ℕ → Task
task_in st next = record zero_task { state = st; next = next }

-- Task 0 runs, 1 and 2 wait in the queue, 3 is blocked.
abbrev queued_two : Scheduler
queued_two = record {
  tasks =
      task_in running none
      ∷ task_in ready (some 2)
      ∷ task_in ready none
      ∷ task_in blocked none
      ∷ [];
  next_tid = 4;
  current = some 0;
  idle = none;
  head = some 1;
  tail = some 2;
  lock = false;
  enabled = true;
}

-- Task 0 runs alone, and the others are blocked.
abbrev all_blocked : Scheduler
all_blocked = record queued_two {
  tasks =
      task_in running none
      ∷ task_in blocked none
      ∷ task_in blocked none
      ∷ task_in blocked none
      ∷ [];
  head = none;
  tail = none;
}

queued_two-Standing : Standing queued_two 0 (1 ∷ 2 ∷ [])
queued_two-Standing = record {
  current = refl;
  runs = refl;
  within = omega arith;
  unlocked = refl;
  queued = record {
    chain = (refl, (refl, tt));
    tail = refl;
    distinct = (((λ e. absurd (omega arith)), tt), (tt, tt));
    ready = (omega arith, refl, (omega arith, refl, tt));
  };
  no_idle = (refl, (refl, (refl, tt)));
}

all_blocked-Standing : Standing all_blocked 0 []
all_blocked-Standing = record {
  current = refl;
  runs = refl;
  within = omega arith;
  unlocked = refl;
  queued = record { chain = tt; tail = refl; distinct = tt; ready = tt };
  no_idle = (refl, tt);
}

turns-Standing_example : Standing (turns 2 queued_two) 2 (0 ∷ 1 ∷ [])
turns-Standing_example = turns-Standing (1 ∷ []) [] queued_two 0 2 queued_two-Standing

abbrev some_calls : List Call
some_calls = yield ∷ unblock 3 ∷ block 5 ∷ yield ∷ []

abbrev first_duty : Duty
first_duty = record { current = 0; waiting = 1 ∷ 2 ∷ [] }

some_calls-AllAllowed : AllAllowed some_calls queued_two first_duty
unfolding schedule_force ready_queue_add ready_queue_pop task_unblock task_block
some_calls-AllAllowed = (tt, ((omega arith, refl, refl), ((λ e. cc), (tt, tt))))

run-Standing_example : Standing (run some_calls queued_two) 0 (3 ∷ 2 ∷ [])
run-Standing_example =
    run-Standing some_calls queued_two first_duty queued_two-Standing some_calls-AllAllowed

task_block-loses_example :
    let s1 = schedule_force (task_unblock (task_block 5 all_blocked) 0) in
    let s2 = schedule_force (task_unblock s1 2) in
    (s1.current ≡ some 0) × Standing s2 2 [] × ((task_at s2.tasks 0).state ≡ ready)
task_block-loses_example =
    task_block-loses all_blocked 0 5 2 all_blocked-Standing (omega arith) refl refl
      (λ e. absurd (omega arith))

-- After the start the idle task has a stack and a slot, and stands in no queue.
started : Scheduler
started = scheduler_init (λ size. 4096)

started_idle : started.idle ≡ some 1
unfolding started scheduler_init task_create alloc_task_slot ready_queue_add ready_queue_pop
started_idle = refl

started_head : started.head ≡ none
unfolding started scheduler_init task_create alloc_task_slot ready_queue_add ready_queue_pop
started_head = refl

started_count : scheduler_get_task_count started ≡ 1
unfolding started scheduler_init task_create alloc_task_slot ready_queue_add ready_queue_pop
    scheduler_get_task_count count_tasks
started_count = refl
