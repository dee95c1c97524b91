-- ===== src/Sched/Lost.antt =====
-- kernel/sched/scheduler.c, a task that blocks while no other is ready: `task_block` leaves it on
-- the processor, and once it has been unblocked it falls out of the queue.
use zurich_os.Base.{
  ℕ, ◌<◌, ◌≡◌, ◌≢◌, refl, sym, ap, ◌∙◌, false, some, [], ◌∷◌, length, if_true, if_false, ==_refl,
}
use zurich_os.Sched.{
  Scheduler, Task, ready, running, blocked, is_running, in_state, task_at, modify, is_task,
  is_blocked, schedule_force, switch_next, ready_queue_add, ready_queue_pop, unlinked,
}
use zurich_os.Sched.Calls.{task_block, block_current, task_unblock, awake}
use zurich_os.Sched.Ready.{Queued-modify, ready_queue_pop_cons, ready_queue_add-Queued, popped}
use zurich_os.Sched.Queue.{
  Queued, task_at-modify_self, task_at-modify_ne, length-modify, state-modify,
}
use zurich_os.Sched.Turns.{schedule_force-alone, schedule_force_left, schedule_force-left}
use zurich_os.Sched.Standing.{
  Standing, Same, NoIdle, NoIdle-of, ready_queue_add-Same, ready_queue_add-state,
}

abbrev stopped : ℕ → Task → Task
stopped reason t = record t { state = blocked; block_reason = reason }

abbrev awoken : Scheduler → ℕ → Scheduler
awoken s i = record s { tasks = modify s.tasks i awake }

-- Unblocking a blocked task while the queue is empty leaves it alone there.
unblock_queues :
    (s : Scheduler) (i : ℕ)
    → (task_at s.tasks i).state ≡ blocked
    → task_unblock s i ≡ ready_queue_add (awoken s i) i
unfolding task_unblock
unblock_queues s i st = if_true (is_blocked (task_at s.tasks i).state) _ s (ap is_blocked st)

unblock-Queued :
    (s : Scheduler) (i : ℕ)
    → Queued s []
    → i < length s.tasks
    → Queued (ready_queue_add (awoken s i) i) (i ∷ [])
unblock-Queued s i o lt =
    ready_queue_add-Queued (awoken s i) i [] (Queued-modify s i awake [] o tt) tt
      (rw (length-modify s.tasks i awake) lt)

unblock-Same : (s : Scheduler) (i : ℕ) → Same s (ready_queue_add (awoken s i) i)
unblock-Same s i =
    let kept = ready_queue_add-Same (awoken s i) i in
    record {
      current = kept.current;
      idle = kept.idle;
      lock = kept.lock;
      size = kept.size ∙ length-modify s.tasks i awake;
    }

unblock-state :
    (s : Scheduler) (i k : ℕ)
    → i ≢ k
    → (task_at (ready_queue_add (awoken s i) i).tasks k).state ≡ (task_at s.tasks k).state
unblock-state s i k ne =
    ready_queue_add-state (awoken s i) i k ne
    ∙ ap (λ (t : Task). t.state) (task_at-modify_ne s.tasks i k awake ne)

-- The current task is ready, but not in the queue; nothing else is known to have changed.
record Lost (s s' : Scheduler) (c : ℕ) : Type 0 where
  same : Same s s'
  state : (task_at s'.tasks c).state ≡ ready
  queued : Queued s' []
  others : (k : ℕ) → c ≢ k → (task_at s'.tasks k).state ≡ (task_at s.tasks k).state

-- `schedule_force` with the current task alone in the queue takes it out and goes on.
pops_itself :
    (s : Scheduler) (c : ℕ)
    → s.lock ≡ false
    → s.current ≡ some c
    → Queued s (c ∷ [])
    → schedule_force s ≡ popped s c
unfolding schedule_force switch_next
pops_itself s c l e o =
    if_false s.lock s (switch_next (ready_queue_pop s)) l
    ∙ ap switch_next (ready_queue_pop_cons s c [] o).0
    ∙ if_true (is_task s.current c) (popped s c) _ (ap (λ x. is_task x c) e ∙ ==_refl c)

abbrev halted : Scheduler → ℕ → ℕ → Scheduler
halted s c reason = record s { tasks = modify s.tasks c (stopped reason) }

block_alone :
    (s : Scheduler) (c reason : ℕ) → Standing s c [] → task_block reason s ≡ halted s c reason
unfolding task_block
block_alone s c reason on =
    ap (block_current reason s) on.current
    ∙ schedule_force-alone (halted s c reason) (Queued-modify s c (stopped reason) [] on.queued tt)

-- The queue once the task has been unblocked, and before it is taken out again.
abbrev unblocked : Scheduler → ℕ → ℕ → Scheduler
unblocked s c reason = ready_queue_add (awoken (halted s c reason) c) c

module _ (s : Scheduler) (c reason : ℕ) (on : Standing s c []) where
  unblocked-Queued : Queued (unblocked s c reason) (c ∷ [])
  unblocked-Queued =
      unblock-Queued (halted s c reason) c (Queued-modify s c (stopped reason) [] on.queued tt)
        (rw (length-modify s.tasks c (stopped reason)) on.within)

  falls_out :
      schedule_force (task_unblock (task_block reason s) c) ≡ popped (unblocked s c reason) c
  falls_out =
      let kept = unblock-Same (halted s c reason) c in
      ap (λ x. schedule_force (task_unblock x c)) (block_alone s c reason on)
      ∙ ap schedule_force (
          unblock_queues (halted s c reason) c
            (ap (λ (t : Task). t.state) (task_at-modify_self s.tasks c (stopped reason) on.within)))
      ∙ pops_itself (unblocked s c reason) c (kept.lock ∙ on.unlocked) (kept.current ∙ on.current)
          unblocked-Queued

  popped-Lost : Lost s (popped (unblocked s c reason) c) c
  popped-Lost =
      let kept = unblock-Same (halted s c reason) c in
      let u = unblocked s c reason in
      record {
        same = record {
          current = kept.current;
          idle = kept.idle;
          lock = kept.lock;
          size =
              length-modify u.tasks c unlinked
              ∙ kept.size
              ∙ length-modify s.tasks c (stopped reason);
        };
        state = state-modify u.tasks c c unlinked (λ t. refl) ∙ unblocked-Queued.ready.1;
        queued = (ready_queue_pop_cons u c [] unblocked-Queued).1;
        others = λ k ne.
            state-modify u.tasks c k unlinked (λ t. refl)
            ∙ unblock-state (halted s c reason) c k ne
            ∙ ap (λ (t : Task). t.state) (task_at-modify_ne s.tasks c k (stopped reason) ne);
      }

-- A lost task is passed over when another one comes.
passed_over :
    (s s' : Scheduler) (c j : ℕ)
    → Standing s c []
    → Lost s s' c
    → j < length s.tasks
    → (task_at s.tasks j).state ≡ blocked
    → is_task s.idle j ≡ false
    → c ≢ j
    → let s2 = schedule_force (task_unblock s' j) in
      Standing s2 j [] × ((task_at s2.tasks c).state ≡ ready)
passed_over s s' c j on lost lt st ni ne =
    let s1 = ready_queue_add (awoken s' j) j in
    let kept = unblock-Same s' j in
    let back : j ≢ c = λ p. ne (sym p) in
    let o : Queued s1 (j ∷ []) = unblock-Queued s' j lost.queued (rw lost.same.size lt) in
    let there : (task_at s1.tasks c).state ≡ ready = unblock-state s' j c back ∙ lost.state in
    let lock : s1.lock ≡ false = kept.lock ∙ lost.same.lock ∙ on.unlocked in
    let current : s1.current ≡ some c = kept.current ∙ lost.same.current ∙ on.current in
    let idle_out : NoIdle s1.idle (j ∷ []) =
      NoIdle-of s.idle s1.idle (j ∷ []) (kept.idle ∙ lost.same.idle) (ni, tt) in
    let not_running : is_running (task_at s1.tasks c).state ≡ false = ap is_running there in
    rw (unblock_queues s' j (lost.others j ne ∙ st)) (
      schedule_force-left s1 c j [] lock o current idle_out ne not_running,
      rw (schedule_force_left s1 c j [] lock o current idle_out ne not_running) (
          ap (λ (t : Task). t.state)
            (task_at-modify_ne (popped s1 j).tasks j c (in_state running) back)
          ∙ state-modify s1.tasks j c unlinked (λ t. refl)
          ∙ there),
    )

-- A task that blocks while no other is ready, and is then unblocked, goes on for one more call of
-- `schedule_force`; when another task is unblocked after that and gets its turn, the first one is
-- ready but neither runs nor stands in the queue.
pub task_block-loses :
    (s : Scheduler) (c reason j : ℕ)
    → Standing s c []
    → j < length s.tasks
    → (task_at s.tasks j).state ≡ blocked
    → is_task s.idle j ≡ false
    → c ≢ j
    → let s1 = schedule_force (task_unblock (task_block reason s) c) in
      let s2 = schedule_force (task_unblock s1 j) in
      (s1.current ≡ some c) × Standing s2 j [] × ((task_at s2.tasks c).state ≡ ready)
task_block-loses s c reason j on lt st ni ne =
    let lost = popped-Lost s c reason on in
    let next = passed_over s (popped (unblocked s c reason) c) c j on lost lt st ni ne in
    rw (falls_out s c reason on) (lost.same.current ∙ on.current, next.0, next.1)
