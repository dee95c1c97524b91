-- ===== src/Sched/Turns.antt =====
-- kernel/sched/scheduler.c, who runs when: what `schedule_force`, blocking, exiting and unblocking
-- do to the running task and to the queue.
use mathlib.Core.List.{append_assoc}
use zurich_os.Base.{
  ℕ, zero, suc, ◌<◌, ◌≡◌, ◌≢◌, refl, sym, ap, ap₂, ◌∙◌, true, false, ◌&&◌, not, some, List, [], ◌∷◌,
  ◌++◌, length, arith, if◌then◌else◌, if_true, if_false, if_holds,
}
use zurich_os.Sched.{
  running, blocked, zombie, Task, Scheduler, task_at, modify, in_state, unlinked, ready_queue_add,
  ready_queue_pop, is_task, is_running, is_blocked, goes_on, keep_current, switch_to, switch_next,
  schedule_force,
}
use zurich_os.Sched.Calls.{task_block, block_current, awake, task_unblock, task_exit, exit_current}
use zurich_os.Sched.Ready.{
  Queued-modify, ready_queue_add-Queued, ready_queue_pop_empty, popped, ready_queue_pop_cons,
}
use zurich_os.Sched.Queue.{
  NotIn, Queued, task_at-modify_self, task_at-modify_ne, length-modify, NotIn-queue, NotIn-append,
}
use zurich_os.Sched.Standing.{
  NoIdle, Standing, ready_queue_add-Same, ready_queue_add-state, NoIdle-append, NoIdle-of,
  running-ne-ready, blocked-ne-ready, blocked-ne-running,
}

-- With a task in the queue, and the lock open, the first of the queue is switched to.
schedule_force_pops :
    (s : Scheduler) (c j : ℕ) (q : List ℕ)
    → s.lock ≡ false
    → Queued s (j ∷ q)
    → s.current ≡ some c
    → c ≢ j
    → schedule_force s ≡ switch_to (keep_current (popped s j) (some c)) j
unfolding schedule_force switch_next
schedule_force_pops s c j q l o e ne =
    if_false s.lock s (switch_next (ready_queue_pop s)) l
    ∙ ap switch_next (ready_queue_pop_cons s j q o).0
    ∙ if_false (is_task s.current j) (popped s j)
        (switch_to (keep_current (popped s j) s.current) j) (ap (λ o. is_task o j) e ∙ ground arith)
    ∙ ap (λ o. switch_to (keep_current (popped s j) o) j) e

-- The task that is switched to runs.
switch_to-Standing :
    (s : Scheduler) (j : ℕ) (q : List ℕ)
    → Queued s q
    → NotIn j q
    → j < length s.tasks
    → s.lock ≡ false
    → NoIdle s.idle (j ∷ q)
    → Standing (switch_to s j) j q
switch_to-Standing s j q o out lt l n =
    let kept = Queued-modify s j (in_state running) q o out in
    record {
      current = refl;
      runs = ap (λ (t : Task). t.state) (task_at-modify_self s.tasks j (in_state running) lt);
      within = rw (length-modify s.tasks j (in_state running)) lt;
      unlocked = l;
      queued = record {
        chain = kept.chain;
        tail = kept.tail;
        distinct = kept.distinct;
        ready = kept.ready;
      };
      no_idle = n;
    }

module _ (s : Scheduler) (c j : ℕ) (q : List ℕ) (l : s.lock ≡ false) (o : Queued s (j ∷ q))
    (e : s.current ≡ some c) (n : NoIdle s.idle (j ∷ q)) (apart : c ≢ j) where
  after : Scheduler
  after = popped s j

  first_within : j < length after.tasks
  unfolding after
  first_within = rw (length-modify s.tasks j unlinked) o.ready.0

  same_current : task_at after.tasks c ≡ task_at s.tasks c
  unfolding after
  same_current = task_at-modify_ne s.tasks j c unlinked (λ p. apart (sym p))

  switched : schedule_force s ≡ switch_to (keep_current after (some c)) j
  unfolding after
  switched = schedule_force_pops s c j q l o e apart

  goes_on-after : goes_on after c ≡ (is_running (task_at s.tasks c).state && not (is_task s.idle c))
  unfolding after
  goes_on-after = ap (λ (t : Task). is_running t.state && not (is_task s.idle c)) same_current

  -- A task that does not run any more is not queued again.
  pub schedule_force_left :
      is_running (task_at s.tasks c).state ≡ false → schedule_force s ≡ switch_to (popped s j) j
  unfolding keep_current after
  schedule_force_left stopped =
      let gone : goes_on after c ≡ false =
        goes_on-after ∙ ap (λ b. b && not (is_task s.idle c)) stopped in
      switched ∙ ap (λ x. switch_to x j) (if_false (goes_on after c) _ after gone)

  pub schedule_force-left :
      is_running (task_at s.tasks c).state ≡ false → Standing (schedule_force s) j q
  unfolding after
  schedule_force-left stopped =
      rw (schedule_force_left stopped) (
        switch_to-Standing after j q (ready_queue_pop_cons s j q o).1 o.distinct.0 first_within l n)

  -- A task that could go on is queued last.
  pub schedule_force-kept :
      (task_at s.tasks c).state ≡ running
      → c < length s.tasks
      → is_task s.idle c ≡ false
      → Standing (schedule_force s) j (q ++ c ∷ [])
  unfolding keep_current after
  schedule_force-kept runs lt not_idle =
      let stays : goes_on after c ≡ true =
        goes_on-after ∙ ap₂ (λ st b. is_running st && not b) runs not_idle in
      let again = ready_queue_add after c in
      let same : schedule_force s ≡ switch_to again j =
        switched ∙ ap (λ x. switch_to x j) (if_true (goes_on after c) again after stays) in
      let kept = ready_queue_add-Same after c in
      let outside : NotIn c q =
        NotIn-queue s.tasks c q (λ p. running-ne-ready (sym runs ∙ p)) o.ready.2 in
      let queued : Queued again (q ++ c ∷ []) =
        ready_queue_add-Queued after c q (ready_queue_pop_cons s j q o).1 outside
          (rw (length-modify s.tasks j unlinked) lt) in
      let idle_out : NoIdle s.idle (j ∷ q ++ c ∷ []) = NoIdle-append s.idle c (j ∷ q) n not_idle in
      rw same (
        switch_to-Standing again j (q ++ c ∷ []) queued
          (NotIn-append j c q o.distinct.0 (λ p. apart (sym p))) (rw kept.size first_within)
          (kept.lock ∙ l) (NoIdle-of s.idle again.idle (j ∷ q ++ c ∷ []) kept.idle idle_out))

module _ (s : Scheduler) (c j : ℕ) (q : List ℕ) (on : Standing s c (j ∷ q)) where
  running_apart : (f : Task → Task) → c ≢ j
  running_apart f p =
      running-ne-ready (sym on.runs ∙ ap (λ k. (task_at s.tasks k).state) p ∙ on.queued.ready.1)

  -- `schedule_force` lets the first task of the queue run and queues the one that ran last.
  pub schedule_force-turn : Standing (schedule_force s) j (q ++ c ∷ [])
  schedule_force-turn =
      schedule_force-kept s c j q on.unlocked on.queued on.current on.no_idle.1
        (running_apart unlinked) on.runs on.within on.no_idle.0

  -- A running task that leaves by a change of its state is not queued.
  leave-Standing :
      (f : Task → Task)
      → ((t : Task) → is_running (f t).state ≡ false)
      → Standing (schedule_force (record s { tasks = modify s.tasks c f })) j q
  leave-Standing f stops =
      let outside : NotIn c (j ∷ q) =
        NotIn-queue s.tasks c (j ∷ q) (λ p. running-ne-ready (sym on.runs ∙ p)) on.queued.ready in
      schedule_force-left (record s { tasks = modify s.tasks c f }) c j q on.unlocked
        (Queued-modify s c f (j ∷ q) on.queued outside) on.current on.no_idle.1 (running_apart f)
        (ap (λ (t : Task). is_running t.state) (task_at-modify_self s.tasks c f on.within)
          ∙ stops (task_at s.tasks c))

  pub task_block-leaves : (reason : ℕ) → Standing (task_block reason s) j q
  unfolding task_block
  task_block-leaves reason =
      rw (ap (block_current reason s) on.current)
        (leave-Standing (λ t. record t { state = blocked; block_reason = reason }) (λ t. refl))

  pub task_exit-leaves : Standing (task_exit s) j q
  unfolding task_exit
  task_exit-leaves =
      rw (ap (exit_current s) on.current) (leave-Standing (in_state zombie) (λ t. refl))

-- With no task in the queue, `schedule_force` changes nothing.
pub schedule_force-alone : (s : Scheduler) → Queued s [] → schedule_force s ≡ s
unfolding schedule_force switch_next
schedule_force-alone s o =
    ap (λ x. if s.lock then s else switch_next x) (ready_queue_pop_empty s o)
    ∙ if_holds (λ x. x ≡ s) s.lock refl refl

-- A blocked task is queued last.
pub task_unblock-queues :
    (s : Scheduler) (c i : ℕ) (q : List ℕ)
    → Standing s c q
    → i < length s.tasks
    → (task_at s.tasks i).state ≡ blocked
    → is_task s.idle i ≡ false
    → Standing (task_unblock s i) c (q ++ i ∷ [])
unfolding task_unblock
task_unblock-queues s c i q on lt st ni =
    let s1 = record s { tasks = modify s.tasks i awake } in
    let s2 = ready_queue_add s1 i in
    let same : task_unblock s i ≡ s2 =
      if_true (is_blocked (task_at s.tasks i).state) s2 s (ap is_blocked st) in
    let kept = ready_queue_add-Same s1 i in
    let outside : NotIn i q =
      NotIn-queue s.tasks i q (λ p. blocked-ne-ready (sym st ∙ p)) on.queued.ready in
    let apart : i ≢ c =
      λ p. blocked-ne-running (sym st ∙ ap (λ k. (task_at s.tasks k).state) p ∙ on.runs) in
    rw same (record {
      current = kept.current ∙ on.current;
      runs =
          ready_queue_add-state s1 i c apart
          ∙ ap (λ (t : Task). t.state) (task_at-modify_ne s.tasks i c awake apart)
          ∙ on.runs;
      within = rw (kept.size, length-modify s.tasks i awake) on.within;
      unlocked = kept.lock ∙ on.unlocked;
      queued =
          ready_queue_add-Queued s1 i q (Queued-modify s i awake q on.queued outside) outside
            (rw (length-modify s.tasks i awake) lt);
      no_idle =
          NoIdle-of s.idle s2.idle (c ∷ q ++ i ∷ []) kept.idle
            (NoIdle-append s.idle i (c ∷ q) on.no_idle ni);
    })

-- Several calls of `schedule_force` in a row.
abbrev pub turns : ℕ → Scheduler → Scheduler
turns zero s = s
turns (suc n) s = turns n (schedule_force s)

-- The task that `p` stands before in the queue runs after one call of `schedule_force` more than
-- `p` is long, and those that wait are then the tasks behind it, the one that ran at first, and `p`.
pub turns-Standing :
    (p q : List ℕ) (s : Scheduler) (c j : ℕ)
    → Standing s c (p ++ j ∷ q)
    → Standing (turns (suc (length p)) s) j (q ++ c ∷ p)
turns-Standing [] q s c j on = schedule_force-turn s c j q on
turns-Standing (x ∷ p) q s c j on = rw (append_assoc q (c ∷ []) (x ∷ p)) at (
    turns-Standing p (q ++ c ∷ []) (schedule_force s) x j
      (rw (append_assoc p (j ∷ q) (c ∷ [])) at (schedule_force-turn s c x (p ++ j ∷ q) on)))
