-- ===== src/Sched/Standing.antt =====
-- kernel/sched/scheduler.c: who runs and who waits, and what adding to the queue leaves alone.
use zurich_os.Base.{
  ℕ, ◌<◌, ◌≡◌, ◌≢◌, refl, ap, ◌∙◌, false, Option, none, some, List, [], ◌∷◌, ◌++◌, length,
}
use zurich_os.Sched.{
  running, ready, blocked, Task, Scheduler, task_at, modify, made_ready, linked_to, link_last,
  ready_queue_add, is_task,
}
use zurich_os.Sched.Queue.{Queued, task_at-modify_ne, length-modify, state-modify}

-- The idle task is none of the list.
abbrev pub NoIdle : Option ℕ → List ℕ → Type 0
NoIdle idle [] = Unit {0}
NoIdle idle (j ∷ q) = (is_task idle j ≡ false) × NoIdle idle q

-- The task `c` runs, and the tasks of the list wait for their turn in this order.
pub record Standing (s : Scheduler) (c : ℕ) (q : List ℕ) : Type 0 where
  pub current : s.current ≡ some c
  pub runs : (task_at s.tasks c).state ≡ running
  pub within : c < length s.tasks
  pub unlocked : s.lock ≡ false
  pub queued : Queued s q
  pub no_idle : NoIdle s.idle (c ∷ q)

-- Adding to the queue leaves all but the links and the states alone.
pub record Same (s s' : Scheduler) : Type 0 where
  pub current : s'.current ≡ s.current
  pub idle : s'.idle ≡ s.idle
  pub lock : s'.lock ≡ s.lock
  pub size : length s'.tasks ≡ length s.tasks

link_last-Same : (s : Scheduler) (i : ℕ) (t : Option ℕ) → Same s (link_last s i t)
unfolding link_last
link_last-Same s i none = record { current = refl; idle = refl; lock = refl; size = refl }
link_last-Same s i (some t) = record {
  current = refl;
  idle = refl;
  lock = refl;
  size = length-modify s.tasks t (linked_to i);
}

pub ready_queue_add-Same : (s : Scheduler) (i : ℕ) → Same s (ready_queue_add s i)
unfolding ready_queue_add
ready_queue_add-Same s i =
    let s1 = record s { tasks = modify s.tasks i made_ready } in
    let rest = link_last-Same s1 i s.tail in
    record {
      current = rest.current;
      idle = rest.idle;
      lock = rest.lock;
      size = rest.size ∙ length-modify s.tasks i made_ready;
    }

link_last-state :
    (s : Scheduler) (i k : ℕ) (t : Option ℕ)
    → (task_at (link_last s i t).tasks k).state ≡ (task_at s.tasks k).state
unfolding link_last
link_last-state s i k none = refl
link_last-state s i k (some t) = state-modify s.tasks t k (linked_to i) (λ x. refl)

pub ready_queue_add-state :
    (s : Scheduler) (i k : ℕ)
    → i ≢ k
    → (task_at (ready_queue_add s i).tasks k).state ≡ (task_at s.tasks k).state
unfolding ready_queue_add
ready_queue_add-state s i k ne =
    link_last-state (record s { tasks = modify s.tasks i made_ready }) i k s.tail
    ∙ ap (λ (t : Task). t.state) (task_at-modify_ne s.tasks i k made_ready ne)

pub NoIdle-append :
    (idle : Option ℕ) (i : ℕ) (q : List ℕ)
    → NoIdle idle q
    → is_task idle i ≡ false
    → NoIdle idle (q ++ i ∷ [])
NoIdle-append idle i [] n e = (e, tt)
NoIdle-append idle i (j ∷ q) n e = (n.0, NoIdle-append idle i q n.1 e)

pub NoIdle-of : (a b : Option ℕ) (q : List ℕ) → b ≡ a → NoIdle a q → NoIdle b q
NoIdle-of a b q e n = rw e n

pub running-ne-ready : running ≢ ready
running-ne-ready e = cc

pub blocked-ne-ready : blocked ≢ ready
blocked-ne-ready e = cc

pub blocked-ne-running : blocked ≢ running
blocked-ne-running e = cc
