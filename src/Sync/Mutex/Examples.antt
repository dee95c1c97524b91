-- ===== src/Sync/Mutex/Examples.antt =====
-- The theorems on mutex.c and condvar.c at runs of two tasks.
use zurich_os.Base.{
  ℕ, zero, suc, ◌≤◌, ◌≡◌, ◌≢◌, refl, true, false, some, List, [], ◌∷◌, get_or, arith,
}
use zurich_os.Sched.{Task, zero_task}
use zurich_os.Sched.Calls.{task_restore_priority}
use zurich_os.Sync.Waitqueue.{Stage, enqueue, wake_one}
use zurich_os.Sync.Mutex.{
  out, lock, holding, parking, waiting, System, start, Call, Turn, task_at, mutex_lock,
  mutex_unlock, condvar_wait, condvar_signal, condvar_broadcast, step, run, act, call, lock_round,
  unlock_round, wake_waiter, restore,
}
use zurich_os.Sync.Mutex.Held.{Owned, holds}
use zurich_os.Sync.Mutex.Ownership.{run-Owned}
use zurich_os.Sync.Mutex.Inheritance.{lock_round-inherits}
use zurich_os.Sync.Mutex.Priorities.{run-Settled}
use zurich_os.Sync.Mutex.Signals.{condvar_signal-loses}

abbrev task_of : ℕ → ℕ → Task
task_of tid p = record zero_task { tid = tid; priority = p; base_priority = p }

abbrev pair : List Task
pair = task_of 1 10 ∷ task_of 2 5 ∷ []

pair_even : (j : ℕ) → (task_at pair j).priority ≡ (task_at pair j).base_priority
pair_even zero = refl
pair_even (suc zero) = refl
pair_even (suc (suc j)) = refl

abbrev turn : ℕ → Call → Turn
turn i c = record { task = i; call = c; able = true }

-- Task 0 takes the mutex, and task 1 finds it locked and goes to sleep.
abbrev contended : List Turn
contended =
    turn 0 mutex_lock
    ∷ turn 0 mutex_lock
    ∷ turn 1 mutex_lock
    ∷ turn 1 mutex_lock
    ∷ turn 1 mutex_lock
    ∷ turn 1 mutex_lock
    ∷ []

run-Owned_example :
    let s = run contended (start 2 pair) in
    Owned s.mutex s.tasks
    × ((j k : ℕ)
        → holds (get_or s.tasks j out) ≡ true
        → holds (get_or s.tasks k out) ≡ true
        → j ≡ k)
run-Owned_example = run-Owned contended 2 pair (tt, (tt, (tt, (tt, (tt, (tt, tt))))))

run-Settled_example :
    let s = run contended (start 2 pair) in
    ((task_at s.table 1).base_priority ≡ 5)
    × ((task_at s.table 1).priority ≤ 5)
    × (holds (get_or s.tasks 1 out) ≡ false → (task_at s.table 1).priority ≡ 5)
run-Settled_example = run-Settled contended 2 pair 1 pair_even

-- Task 0 holds the mutex and is less urgent than task 1.
abbrev locked_by_0 : System
locked_by_0 = record {
  mutex = record { locked = true; owner = 1; owner_task = some 0; waiters = [] };
  condition = [];
  tasks = holding ∷ lock Stage.try ∷ [];
  table = pair;
}

lock_round-inherits_example :
    let table = (lock_round locked_by_0 1 (lock Stage.park)).table in
    ((task_at table 0).priority ≤ 5)
    × ((task_at table 1).priority ≤ 5)
    × (◌≢◌ {A = ℕ} 0 1 → task_at table 1 ≡ task_of 2 5)
lock_round-inherits_example =
    lock_round-inherits locked_by_0 1 0 1 (lock Stage.park) refl refl (omega arith)

-- Task 0 is about to block in `condvar_wait`, and task 1 has locked the mutex.
abbrev about_to_block : System
about_to_block = record {
  mutex = record { locked = true; owner = 2; owner_task = some 1; waiters = [] };
  condition = 0 ∷ [];
  tasks = parking ∷ holding ∷ [];
  table = pair;
}

reached :
    run
      (turn 0 mutex_lock
        ∷ turn 0 mutex_lock
        ∷ turn 0 condvar_wait
        ∷ turn 0 condvar_wait
        ∷ turn 0 condvar_wait
        ∷ turn 1 mutex_lock
        ∷ turn 1 mutex_lock
        ∷ [])
      (start 2 pair)
    ≡ about_to_block
unfolding run step act start call lock_round unlock_round wake_waiter wake_one enqueue restore
    task_restore_priority
reached = refl

condvar_signal-loses_example :
    get_or
      (run
        (turn 1 mutex_unlock ∷ turn 1 mutex_unlock ∷ turn 1 condvar_broadcast ∷ [])
        (step condvar_wait true (step condvar_signal true about_to_block 1) 0)).tasks
      0
      out
    ≡ waiting
condvar_signal-loses_example =
    condvar_signal-loses 0 1 [] about_to_block refl refl tt tt (omega arith) true condvar_wait
      (turn 1 mutex_unlock ∷ turn 1 mutex_unlock ∷ turn 1 condvar_broadcast ∷ []) refl (omega arith)
