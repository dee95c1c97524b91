-- ===== src/Sync/Mutex/Ownership.antt =====
-- Who holds the mutex: in every interleaving it is the one task that `owner_task` points to.
use zurich_os.Base.{
  ℕ, ◌<◌, ◌≡◌, refl, sym, ap, ◌∙◌, Bool, true, false, not, Option, none, some, List, [], ◌∷◌, ltb,
  if◌then◌else◌, if_cases, if_holds, get_or, set, length, get_or-replicate, arith,
}
use zurich_os.Sched.{Task}
use zurich_os.Sync.Waitqueue.{Stage}
use zurich_os.Sync.Mutex.{
  Phase, out, lock, holding, waking, linked, released, parking, waiting, System, start, Call,
  mutex_lock, mutex_trylock, mutex_unlock, condvar_wait, condvar_signal, condvar_broadcast,
  lock_round, try_lock, unlock_round, wake_waiter, signal, broadcast, call, relock, join_waiters,
  act, step, Turn, run,
}
use zurich_os.Sync.Mutex.Held.{
  holds, is_owner, Owned, set-Held, wake_one-Held, wake_all-Held, set-Owned, taken-Owned,
  released-Owned,
}

-- A task unlocks the mutex, and waits on the condition, only where it has locked it.
abbrev pub IsProper : Call → Phase → Type 0
IsProper mutex_unlock out = ⊥
IsProper condvar_wait out = ⊥
IsProper c p = Unit {0}

-- Each call is so, where it is made.
abbrev pub AllProper : List Turn → System → Type 0
AllProper [] s = Unit {0}
AllProper (t ∷ ts) s =
    IsProper t.call (get_or s.tasks t.task out) × AllProper ts (step t.call t.able s t.task)

abbrev OwnedState : System → Type 0
OwnedState s = Owned s.mutex s.tasks

signal-Owned : (s : System) → OwnedState s → OwnedState (signal s)
unfolding signal
signal-Owned s o = record {
  by_phase = wake_one-Held s.mutex.owner_task s.condition s.tasks o.by_phase;
  marked = o.marked;
}

broadcast-Owned : (s : System) → OwnedState s → OwnedState (broadcast s)
unfolding broadcast
broadcast-Owned s o = record {
  by_phase = wake_all-Held s.mutex.owner_task s.condition s.tasks o.by_phase;
  marked = o.marked;
}

module _ (s : System) (i : ℕ) (lt : i < length s.tasks) (o : OwnedState s) where
  lock_round-Owned :
      (p : Phase) → holds p ≡ holds (get_or s.tasks i out) → OwnedState (lock_round s i p)
  unfolding lock_round
  lock_round-Owned p e =
      if_cases OwnedState (not s.mutex.locked) (taken-Owned s i o lt) (λ _. set-Owned s i o p e)

  try_lock-Owned : OwnedState (try_lock s i)
  unfolding try_lock
  try_lock-Owned = if_cases OwnedState (not s.mutex.locked) (taken-Owned s i o lt) (λ _. o)

  unlock_round-Owned :
      (p : Phase)
      → holds (get_or s.tasks i out) ≡ true
      → holds p ≡ false
      → OwnedState (unlock_round s i p)
  unfolding unlock_round
  unlock_round-Owned p held e = released-Owned s i o p lt held e

  wake_waiter-Owned :
      (p : Phase) → holds p ≡ holds (get_or s.tasks i out) → OwnedState (wake_waiter s i p)
  unfolding wake_waiter
  wake_waiter-Owned p e = record {
    by_phase =
        wake_one-Held s.mutex.owner_task s.mutex.waiters (set s.tasks i p)
          (set-Held s.mutex.owner_task s.tasks i p o.by_phase e);
    marked = o.marked;
  }

  joined-Owned :
      (p : Phase)
      → holds p ≡ holds (get_or s.tasks i out)
      → Owned (join_waiters s i) (set s.tasks i p)
  joined-Owned p e = record {
    by_phase = set-Held s.mutex.owner_task s.tasks i p o.by_phase e;
    marked = o.marked;
  }

  call_outside :
      (c : Call) (room : Bool)
      → IsProper c out
      → holds (get_or s.tasks i out) ≡ false
      → OwnedState (call c room s i (lock Stage.try))
  unfolding call
  call_outside mutex_lock room h e = set-Owned s i o (lock Stage.try) (sym e)
  call_outside mutex_trylock room h e = try_lock-Owned
  call_outside mutex_unlock room h e = absurd h
  call_outside condvar_wait room h e = absurd h
  call_outside condvar_signal room h e = signal-Owned s o
  call_outside condvar_broadcast room h e = broadcast-Owned s o

  call_inside :
      (c : Call) (room : Bool)
      → holds (get_or s.tasks i out) ≡ true
      → OwnedState (call c room s i (relock Stage.try))
  unfolding call
  call_inside mutex_lock room e = set-Owned s i o (relock Stage.try) (sym e)
  call_inside mutex_trylock room e = try_lock-Owned
  call_inside mutex_unlock room e = unlock_round-Owned waking e refl
  call_inside condvar_wait room e = if_holds OwnedState room (set-Owned s i o linked (sym e)) o
  call_inside condvar_signal room e = signal-Owned s o
  call_inside condvar_broadcast room e = broadcast-Owned s o

  act-Owned :
      (c : Call) (room : Bool) (p : Phase)
      → IsProper c p
      → holds p ≡ holds (get_or s.tasks i out)
      → OwnedState (act c room s i p)
  unfolding act
  act-Owned c room out h e = call_outside c room h (sym e)
  act-Owned c room (lock Stage.try) h e = lock_round-Owned (lock Stage.park) e
  act-Owned c room (lock Stage.park) h e =
      elim room as (λ b. OwnedState (act c b s i (lock Stage.park))) [
        | true ↦ joined-Owned (lock Stage.queued) e
        | false ↦ set-Owned s i o (lock Stage.try) e
      ]
  act-Owned c room (lock Stage.queued) h e =
      set-Owned s i o (lock (if room then Stage.asleep else Stage.try)) e
  act-Owned c room (lock Stage.asleep) h e = o
  act-Owned c room (relock Stage.try) h e = lock_round-Owned (relock Stage.park) e
  act-Owned c room (relock Stage.park) h e =
      elim room as (λ b. OwnedState (act c b s i (relock Stage.park))) [
        | true ↦ joined-Owned (relock Stage.queued) e
        | false ↦ set-Owned s i o (relock Stage.try) e
      ]
  act-Owned c room (relock Stage.queued) h e =
      set-Owned s i o (relock (if room then Stage.asleep else Stage.try)) e
  act-Owned c room (relock Stage.asleep) h e = o
  act-Owned c room holding h e = call_inside c room (sym e)
  act-Owned c room waking h e = wake_waiter-Owned out e
  act-Owned c room linked h e = unlock_round-Owned released (sym e) refl
  act-Owned c room released h e = wake_waiter-Owned parking e
  act-Owned c room parking h e =
      if_holds (λ p. Owned s.mutex (set s.tasks i p)) room (set-Owned s i o waiting e)
        (set-Owned s i o (lock Stage.try) e)
  act-Owned c room waiting h e = o

step-Owned :
    (c : Call) (room : Bool) (s : System) (i : ℕ)
    → IsProper c (get_or s.tasks i out)
    → OwnedState s
    → OwnedState (step c room s i)
unfolding step
step-Owned c room s i h o =
    if_cases OwnedState (ltb i (length s.tasks))
      (λ lt. act-Owned s i (ground arith) o c room (get_or s.tasks i out) h refl) (λ _. o)

run_keeps : (ts : List Turn) (s : System) → AllProper ts s → OwnedState s → OwnedState (run ts s)
unfolding run
run_keeps [] s h o = o
run_keeps (t ∷ ts) s h o =
    run_keeps ts (step t.call t.able s t.task) h.1 (step-Owned t.call t.able s t.task h.0 o)

one_owner : (owner : Option ℕ) (j k : ℕ) → is_owner owner j ≡ true → is_owner owner k ≡ true → j ≡ k
one_owner none j k a b = absurd (ground arith)
one_owner (some o) j k a b = ground arith

-- However the sections of any number of tasks interleave, in the calls of the mutex and of the
-- condition variable, while a task unlocks the mutex or waits on the condition only where it has locked
-- the mutex: it is locked exactly when it names an owner, the tasks between the end of a lock and the
-- unlock are the one it names, and so there are never two.
pub run-Owned :
    (ts : List Turn) (n : ℕ) (table : List Task)
    → AllProper ts (start n table)
    → let s = run ts (start n table) in
      Owned s.mutex s.tasks
      × ((j k : ℕ)
          → holds (get_or s.tasks j out) ≡ true
          → holds (get_or s.tasks k out) ≡ true
          → j ≡ k)
unfolding start
run-Owned ts n table proper =
    let o =
      run_keeps ts (start n table) proper
        (record { by_phase = λ j. ap holds (get_or-replicate n j out); marked = refl }) in
    (
      o,
      λ j k a b.
          one_owner (run ts (start n table)).mutex.owner_task j k (sym (o.by_phase j) ∙ a)
            (sym (o.by_phase k) ∙ b),
    )
