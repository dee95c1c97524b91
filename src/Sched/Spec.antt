-- ===== src/Sched/Spec.antt =====
-- What kernel/sched/scheduler.c promises: a task that runs, a queue of those that wait for their
-- turn, and what each call does to them. The tables and pointers of the code follow it.
use zurich_os.Base.{ℕ, ◌<◌, ◌≡◌, ◌≢◌, refl, false, List, [], ◌∷◌, ◌++◌, length}
use zurich_os.Sched.{Scheduler, blocked, task_at, is_task, schedule_force}
use zurich_os.Sched.Calls.{task_block, task_unblock, task_exit}
use zurich_os.Sched.Turns.{
  schedule_force-turn, schedule_force-alone, task_block-leaves, task_exit-leaves,
  task_unblock-queues,
}
use zurich_os.Sched.Standing.{Standing}

pub data Call : Type 0 where
  yield : Call
  block : ℕ → Call
  exit : Call
  unblock : ℕ → Call

abbrev pub apply : Call → Scheduler → Scheduler
apply yield s = schedule_force s
apply (block reason) s = task_block reason s
apply exit s = task_exit s
apply (unblock i) s = task_unblock s i

abbrev pub run : List Call → Scheduler → Scheduler
run [] s = s
run (call ∷ calls) s = run calls (apply call s)

pub record Duty : Type 0 where
  pub current : ℕ
  pub waiting : List ℕ

abbrev duty : ℕ → List ℕ → Duty
duty c q = record { current = c; waiting = q }

abbrev promise_at : Call → ℕ → List ℕ → Duty
promise_at yield c [] = duty c []
promise_at yield c (j ∷ q) = duty j (q ++ c ∷ [])
promise_at (block reason) c [] = duty c []
promise_at (block reason) c (j ∷ q) = duty j q
promise_at exit c [] = duty c []
promise_at exit c (j ∷ q) = duty j q
promise_at (unblock i) c q = duty c (q ++ i ∷ [])

-- The call, on the abstract side.
abbrev pub promise : Call → Duty → Duty
promise call d = promise_at call d.current d.waiting

abbrev pub promise_run : List Call → Duty → Duty
promise_run [] d = d
promise_run (call ∷ calls) d = promise_run calls (promise call d)

-- A task blocks or exits only while another one waits to run, and only a blocked task other than
-- the idle one is unblocked.
abbrev pub Allowed : Call → Scheduler → Duty → Type 0
Allowed yield s d = Unit {0}
Allowed (block reason) s d = d.waiting ≢ []
Allowed exit s d = d.waiting ≢ []
Allowed (unblock i) s d =
    (i < length s.tasks) × ((task_at s.tasks i).state ≡ blocked) × (is_task s.idle i ≡ false)

abbrev pub AllAllowed : List Call → Scheduler → Duty → Type 0
AllAllowed [] s d = Unit {0}
AllAllowed (call ∷ calls) s d = Allowed call s d × AllAllowed calls (apply call s) (promise call d)

apply_at-Standing :
    (call : Call) (s : Scheduler) (c : ℕ) (q : List ℕ)
    → Standing s c q
    → Allowed call s (duty c q)
    → Standing (apply call s) (promise_at call c q).current (promise_at call c q).waiting
apply_at-Standing yield s c [] on a = rw (schedule_force-alone s on.queued) on
apply_at-Standing yield s c (j ∷ q) on a = schedule_force-turn s c j q on
apply_at-Standing (block reason) s c [] on a = absurd (a refl)
apply_at-Standing (block reason) s c (j ∷ q) on a = task_block-leaves s c j q on reason
apply_at-Standing exit s c [] on a = absurd (a refl)
apply_at-Standing exit s c (j ∷ q) on a = task_exit-leaves s c j q on
apply_at-Standing (unblock i) s c q on a = task_unblock-queues s c i q on a.0 a.1 a.2

-- Whatever the calls, while each is allowed where it is made: the task that runs is the one that
-- the specification says, and the pointers of the ready queue lead through the tasks that it says,
-- in its order.
pub run-Standing :
    (calls : List Call) (s : Scheduler) (d : Duty)
    → Standing s d.current d.waiting
    → AllAllowed calls s d
    → Standing (run calls s) (promise_run calls d).current (promise_run calls d).waiting
run-Standing [] s d on a = on
run-Standing (call ∷ calls) s d on a =
    run-Standing calls (apply call s) (promise call d)
      (apply_at-Standing call s d.current d.waiting on a.0) a.1
