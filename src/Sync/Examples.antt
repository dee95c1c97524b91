-- ===== src/Sync/Examples.antt =====
-- The theorems on rwlock.c and semaphore.c at runs of a few tasks.
use zurich_os.Base.{◌+◌, ◌^◌, ◌<◌, ◌≤◌, ℕ, ◌≡◌, refl, true, [], ◌∷◌, List, arith}
use zurich_os.Sync.Waitqueue.{Stage, enqueue}
use zurich_os.Sync.Rwlock.{
  System, start, Turn, Call, read_lock, write_lock, read, write, writing, step, run, act,
  try_read_lock, write_round,
}
use zurich_os.Sync.Semaphore
use zurich_os.Sync.Semaphore.Permits.{run-Balanced}
use zurich_os.Sync.Rwlock.Exclusion.{Exclusive, run-Exclusive}
use zurich_os.Sync.Rwlock.Stuck.{Stuck}

abbrev turn : ℕ → Call → Turn
turn i c = record { task = i; call = c; able = true }

-- Task 0 takes the lock for writing; task 1 goes to sleep for reading, and task 2 for writing.
abbrev crowding : List Turn
crowding =
    turn 0 write_lock
    ∷ turn 0 write_lock
    ∷ turn 1 read_lock
    ∷ turn 1 read_lock
    ∷ turn 1 read_lock
    ∷ turn 1 read_lock
    ∷ turn 2 write_lock
    ∷ turn 2 write_lock
    ∷ turn 2 write_lock
    ∷ turn 2 write_lock
    ∷ []

run-Exclusive_example : Exclusive (run crowding (start 3))
unfolding start step act try_read_lock write_round
run-Exclusive_example =
    run-Exclusive crowding 3 (tt, (tt, (tt, (tt, (tt, (tt, (tt, (tt, (tt, (tt, tt))))))))))
      (omega arith)

-- The state that this run reaches.
abbrev crowded : System
crowded = record {
  lock = record {
    readers = 0;
    writer = true;
    writer_waiting = true;
    read_waiters = 1 ∷ [];
    write_waiters = 2 ∷ [];
  };
  tasks = writing ∷ read Stage.asleep ∷ write Stage.asleep ∷ [];
}

reached : run crowding (start 3) ≡ crowded
unfolding run step act start try_read_lock write_round enqueue
reached = refl

-- Task 0 takes the only permit, task 1 fails to, and task 0 gives the permit back.
abbrev shared : List Semaphore.Turn
shared =
    record { task = 0; call = Semaphore.semaphore_wait; able = true }
    ∷ record { task = 0; call = Semaphore.semaphore_wait; able = true }
    ∷ record { task = 1; call = Semaphore.trywait; able = true }
    ∷ record { task = 0; call = Semaphore.semaphore_signal; able = true }
    ∷ []

shared_fits : 1 + (Semaphore.run shared (Semaphore.start 1 2)).given < 2 ^ 31
unfolding Semaphore.run Semaphore.step Semaphore.act Semaphore.start Semaphore.semaphore_trywait
shared_fits = omega arith

run-Balanced_example :
    let s = Semaphore.run shared (Semaphore.start 1 2) in
    (s.sem.count + s.taken ≡ 1 + s.given) × (s.taken ≤ 1 + s.given)
run-Balanced_example = run-Balanced 1 shared 2 shared_fits
