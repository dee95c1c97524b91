-- ===== src/Sync/Mutex/Inheritance.antt =====
-- Priority inheritance in mutex.c: what one attempt to lock does to the priorities.
use zurich_os.Base.{
  ℕ, ◌<◌, ◌≤◌, ◌≡◌, ◌≢◌, refl, true, ◌||◌, some, List, ltb, ◌==◌, if◌then◌else◌, if_cases, length,
  get_or-set_cases, get_or-set_self, get_or-set_ne, arith,
}
use zurich_os.Sched.{Task, zero_task}
use zurich_os.Sched.Calls.{task_boost_priority}
use zurich_os.Sync.Mutex.{Phase, System, task_at, inherit_from, lock_round}

-- A boost changes the two priorities and nothing else, and makes the task no less urgent.
pub record Boosted (p : ℕ) (t t' : Task) : Type 0 where
  pub base : t'.base_priority ≡ t.base_priority
  pub no_later : t'.priority ≤ t.priority
  pub urgent : t'.priority ≤ p

pub boost-Boosted : (p : ℕ) (t : Task) → Boosted p t (task_boost_priority p t)
unfolding task_boost_priority
boost-Boosted p t =
    if_cases
      (λ (t1 : Task). Boosted p t (if ltb p t1.priority then record t1 { priority = p } else t1))
      (t.inherited_priority == 0 || ltb p t.inherited_priority)
      (λ _.
        if_cases (Boosted p t) (ltb p t.priority)
          (λ less. record { base = refl; no_later = ground arith; urgent = omega arith })
          (λ not_less. record { base = refl; no_later = omega arith; urgent = ground arith }))
      (λ _.
        if_cases (Boosted p t) (ltb p t.priority)
          (λ less. record { base = refl; no_later = ground arith; urgent = omega arith })
          (λ not_less. record { base = refl; no_later = omega arith; urgent = ground arith }))

-- A task that finds the mutex locked by a task of the table leaves that one at least as urgent as it is
-- itself; no task becomes less urgent, and none but the owner changes.
pub lock_round-inherits :
    (s : System) (i o k : ℕ) (p : Phase)
    → s.mutex.locked ≡ true
    → s.mutex.owner_task ≡ some o
    → o < length s.table
    → let table = (lock_round s i p).table in
      ((task_at table o).priority ≤ (task_at s.table i).priority)
      × ((task_at table k).priority ≤ (task_at s.table k).priority)
      × (o ≢ k → task_at table k ≡ task_at s.table k)
unfolding lock_round inherit_from
lock_round-inherits s i o k p locked owner inside =
    rw (locked, owner)
      (if_cases
        (λ (t : List Task).
          ((task_at t o).priority ≤ (task_at s.table i).priority)
          × ((task_at t k).priority ≤ (task_at s.table k).priority)
          × (o ≢ k → task_at t k ≡ task_at s.table k))
        (ltb (task_at s.table i).priority (task_at s.table o).priority)
        (λ less. (
          rw (get_or-set_self s.table o new zero_task inside) boosted.urgent,
          get_or-set_cases (λ (t : Task). t.priority ≤ (task_at s.table k).priority) s.table o k new
              zero_task (λ same. rw (← same) boosted.no_later) (omega arith),
          λ apart. get_or-set_ne s.table o k new zero_task apart,
        ))
        (λ not_less. (ground arith, omega arith, λ _. refl)))
  where
    new : Task
    new = task_boost_priority (task_at s.table i).priority (task_at s.table o)

    boosted : Boosted (task_at s.table i).priority (task_at s.table o) new
    boosted = boost-Boosted (task_at s.table i).priority (task_at s.table o)
