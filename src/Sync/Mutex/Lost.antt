-- ===== src/Sync/Mutex/Lost.antt =====
-- kernel/sync/condvar.c: a task that is blocked and in no queue stays so.
use zurich_os.Base.{
  if◌then◌else◌, ℕ, ◌≡◌, ◌≢◌, refl, sym, ap, ◌∙◌, Bool, true, false, not, List, [], ◌∷◌, ltb, ◌==◌,
  if_holds, get_or, set, length, get_or-set_ne, Bool-cases, ◌⊎◌, inl, inr, arith,
}
use zurich_os.Sync.Waitqueue.{Stage, enqueue, wake_one, wake_all}
use zurich_os.Sync.Mutex.{
  Phase, out, lock, holding, waking, linked, released, parking, waiting, unblocked, System, Call,
  mutex_lock, mutex_trylock, mutex_unlock, condvar_wait, condvar_signal, condvar_broadcast,
  lock_round, try_lock, unlock_round, wake_waiter, signal, broadcast, call, relock, join_waiters,
  act, step, Turn, run,
}

abbrev pub Absent : ℕ → List ℕ → Type 0
Absent i [] = Unit {0}
Absent i (j ∷ q) = (i ≢ j) × Absent i q

-- The task is blocked on the condition, and in no queue.
pub record IsLost (i : ℕ) (s : System) : Type 0 where
  pub blocked : get_or s.tasks i out ≡ waiting
  pub unsignalled : Absent i s.condition
  pub unqueued : Absent i s.mutex.waiters

Absent-enqueue : (i j : ℕ) (q : List ℕ) → i ≢ j → Absent i q → Absent i (enqueue q j)
unfolding enqueue
Absent-enqueue i j [] ne a = (ne, tt)
Absent-enqueue i j (k ∷ q) ne a = (a.0, Absent-enqueue i j q ne a.1)

Absent-wake_one :
    (i : ℕ) (q : List ℕ) (t : List Phase) → Absent i q → Absent i (wake_one out unblocked q t).0
unfolding wake_one
Absent-wake_one i [] t a = tt
Absent-wake_one i (j ∷ q) t a = a.1

-- A wake-up of others leaves the task where it is.
get_or-wake_one :
    (i : ℕ) (q : List ℕ) (t : List Phase)
    → Absent i q
    → get_or (wake_one out unblocked q t).1 i out ≡ get_or t i out
unfolding wake_one
get_or-wake_one i [] t a = refl
get_or-wake_one i (j ∷ q) t a =
    get_or-set_ne t j i (unblocked (get_or t j out)) out (λ e. a.0 (sym e))

get_or-wake_all :
    (i : ℕ) (q : List ℕ) (t : List Phase)
    → Absent i q
    → get_or (wake_all out unblocked q t) i out ≡ get_or t i out
unfolding wake_all
get_or-wake_all i [] t a = refl
get_or-wake_all i (j ∷ q) t a =
    get_or-wake_all i q (set t j (unblocked (get_or t j out))) a.1
    ∙ get_or-set_ne t j i (unblocked (get_or t j out)) out (λ e. a.0 (sym e))

module _ (i j : ℕ) (apart : i ≢ j) (s : System) (k : IsLost i s) where
  elsewhere : (p : Phase) → get_or (set s.tasks j p) i out ≡ waiting
  elsewhere p = get_or-set_ne s.tasks j i p out (λ e. apart (sym e)) ∙ k.blocked

  signal-IsLost : IsLost i (signal s)
  unfolding signal
  signal-IsLost = record {
    blocked = get_or-wake_one i s.condition s.tasks k.unsignalled ∙ k.blocked;
    unsignalled = Absent-wake_one i s.condition s.tasks k.unsignalled;
    unqueued = k.unqueued;
  }

  broadcast-IsLost : IsLost i (broadcast s)
  unfolding broadcast
  broadcast-IsLost = record {
    blocked = get_or-wake_all i s.condition s.tasks k.unsignalled ∙ k.blocked;
    unsignalled = tt;
    unqueued = k.unqueued;
  }

  moved-IsLost : (p : Phase) → IsLost i (record s { tasks = set s.tasks j p })
  moved-IsLost p = record {
    blocked = elsewhere p;
    unsignalled = k.unsignalled;
    unqueued = k.unqueued;
  }

  lock_round-IsLost : (p : Phase) → IsLost i (lock_round s j p)
  unfolding lock_round
  lock_round-IsLost p =
      if_holds (IsLost i) (not s.mutex.locked)
        (record { blocked = elsewhere holding; unsignalled = k.unsignalled; unqueued = k.unqueued })
        (record { blocked = elsewhere p; unsignalled = k.unsignalled; unqueued = k.unqueued })

  try_lock-IsLost : IsLost i (try_lock s j)
  unfolding try_lock
  try_lock-IsLost =
      if_holds (IsLost i) (not s.mutex.locked)
        (record { blocked = elsewhere holding; unsignalled = k.unsignalled; unqueued = k.unqueued })
        k

  unlock_round-IsLost : (p : Phase) → IsLost i (unlock_round s j p)
  unfolding unlock_round
  unlock_round-IsLost p = record {
    blocked = elsewhere p;
    unsignalled = k.unsignalled;
    unqueued = k.unqueued;
  }

  wake_waiter-IsLost : (p : Phase) → IsLost i (wake_waiter s j p)
  unfolding wake_waiter
  wake_waiter-IsLost p = record {
    blocked = get_or-wake_one i s.mutex.waiters (set s.tasks j p) k.unqueued ∙ elsewhere p;
    unsignalled = k.unsignalled;
    unqueued = Absent-wake_one i s.mutex.waiters (set s.tasks j p) k.unqueued;
  }

  joined-IsLost :
      (p : Phase) → IsLost i (record s { mutex = join_waiters s j; tasks = set s.tasks j p })
  joined-IsLost p = record {
    blocked = elsewhere p;
    unsignalled = k.unsignalled;
    unqueued = Absent-enqueue i j s.mutex.waiters apart k.unqueued;
  }

  call-IsLost : (c : Call) (room : Bool) (p : Phase) → IsLost i (call c room s j p)
  unfolding call
  call-IsLost mutex_lock room p = moved-IsLost p
  call-IsLost mutex_trylock room p = try_lock-IsLost
  call-IsLost mutex_unlock room p = unlock_round-IsLost waking
  call-IsLost condvar_wait room p =
      if_holds (IsLost i) room
        (record {
          blocked = elsewhere linked;
          unsignalled = Absent-enqueue i j s.condition apart k.unsignalled;
          unqueued = k.unqueued;
        })
        k
  call-IsLost condvar_signal room p = signal-IsLost
  call-IsLost condvar_broadcast room p = broadcast-IsLost

  act-IsLost : (c : Call) (room : Bool) (p : Phase) → IsLost i (act c room s j p)
  unfolding act
  act-IsLost c room out = call-IsLost c room (lock Stage.try)
  act-IsLost c room (lock Stage.try) = lock_round-IsLost (lock Stage.park)
  act-IsLost c room (lock Stage.park) =
      if_holds (IsLost i) room (joined-IsLost (lock Stage.queued)) (moved-IsLost (lock Stage.try))
  act-IsLost c room (lock Stage.queued) =
      moved-IsLost (lock (if room then Stage.asleep else Stage.try))
  act-IsLost c room (lock Stage.asleep) = k
  act-IsLost c room (relock Stage.try) = lock_round-IsLost (relock Stage.park)
  act-IsLost c room (relock Stage.park) =
      if_holds (IsLost i) room (joined-IsLost (relock Stage.queued))
        (moved-IsLost (relock Stage.try))
  act-IsLost c room (relock Stage.queued) =
      moved-IsLost (relock (if room then Stage.asleep else Stage.try))
  act-IsLost c room (relock Stage.asleep) = k
  act-IsLost c room holding = call-IsLost c room (relock Stage.try)
  act-IsLost c room waking = wake_waiter-IsLost out
  act-IsLost c room linked = unlock_round-IsLost released
  act-IsLost c room released = wake_waiter-IsLost parking
  act-IsLost c room parking = moved-IsLost (if room then waiting else lock Stage.try)
  act-IsLost c room waiting = k

step-IsLost :
    (c : Call) (room : Bool) (i j : ℕ) (s : System) → IsLost i s → IsLost i (step c room s j)
unfolding step act
step-IsLost c room i j s k =
    if_holds (IsLost i) (ltb j (length s.tasks)) (by_task (Bool-cases (i == j))) k
  where
    itself : (p : Phase) → p ≡ waiting → IsLost i (act c room s j p)
    itself p e = rw e k

    by_task :
        ((i == j) ≡ true) ⊎ ((i == j) ≡ false) → IsLost i (act c room s j (get_or s.tasks j out))
    by_task (inl same) =
        let e : i ≡ j = ground arith in
        itself (get_or s.tasks j out) (ap (λ n. get_or s.tasks n out) (sym e) ∙ k.blocked)
    by_task (inr other) = act-IsLost i j (λ e. ground arith) s k c room (get_or s.tasks j out)

pub run-IsLost : (ts : List Turn) (i : ℕ) (s : System) → IsLost i s → IsLost i (run ts s)
unfolding run
run-IsLost [] i s k = k
run-IsLost (t ∷ ts) i s k =
    run-IsLost ts i (step t.call t.able s t.task) (step-IsLost t.call t.able i t.task s k)
