-- ===== src/Sync/Mutex/Signals.antt =====
-- kernel/sync/condvar.c: a signal that comes before the task has blocked.
use zurich_os.Base.{
  true, ℕ, ◌<◌, ◌≡◌, refl, ap, ◌∙◌, Bool, List, ◌∷◌, ltb, if_cases, if_true, get_or, length,
  length-set, get_or-set_self, arith,
}
use zurich_os.Sync.Waitqueue.{wake_one}
use zurich_os.Sync.Mutex.{
  out, holding, parking, waiting, unblocked, System, Call, condvar_signal, signal, call, act, step,
  Turn, run,
}
use zurich_os.Sync.Mutex.Lost.{Absent, IsLost, run-IsLost}

module _ (i j : ℕ) (rest : List ℕ) (s : System) (parked : get_or s.tasks i out ≡ parking)
    (first : s.condition ≡ i ∷ rest) (once : Absent i rest) (unqueued : Absent i s.mutex.waiters)
    (lt : i < length s.tasks) where
  -- The signal takes the entry out, and leaves the task as it is, since it is not blocked yet.
  signal-parking :
      (get_or (signal s).tasks i out ≡ parking)
      × ((signal s).condition ≡ rest)
      × (length (signal s).tasks ≡ length s.tasks)
  unfolding signal wake_one
  signal-parking = rw first (
    get_or-set_self s.tasks i (unblocked (get_or s.tasks i out)) out lt ∙ ap unblocked parked,
    refl,
    length-set s.tasks i (unblocked (get_or s.tasks i out)),
  )

  waits_not : Absent i (signal s).mutex.waiters
  unfolding signal
  waits_not = unqueued

  blocks-IsLost : (c : Call) → IsLost i (step c true (signal s) i)
  unfolding step act
  blocks-IsLost c =
      let (still, left, same) = signal-parking in
      rw still (
        if_cases (IsLost i) (ltb i (length (signal s).tasks))
          (λ _. record {
            blocked = get_or-set_self (signal s).tasks i waiting out (rw same lt);
            unsignalled = rw left once;
            unqueued = waits_not;
          })
          (λ off. absurd (ground (arith, off, same, lt))))

  signalled :
      (room : Bool)
      → get_or s.tasks j out ≡ holding
      → j < length s.tasks
      → step condvar_signal room s j ≡ signal s
  unfolding step act call
  signalled room holder inside =
      if_true (ltb j (length s.tasks)) (act condvar_signal room s j (get_or s.tasks j out)) s
        (ground arith)
      ∙ ap (act condvar_signal room s j) holder

  -- A task in `condvar_wait` that has unlocked the mutex and is about to block, with one entry, the first
  -- in the queue of the condition, loses the signal of the task that holds the mutex meanwhile: once it
  -- has blocked, another task being ready then, it stays so in every run that follows.
  pub condvar_signal-loses :
      (room : Bool) (c : Call) (ts : List Turn)
      → get_or s.tasks j out ≡ holding
      → j < length s.tasks
      → get_or (run ts (step c true (step condvar_signal room s j) i)).tasks i out ≡ waiting
  condvar_signal-loses room c ts holder inside =
      rw (signalled room holder inside)
        (run-IsLost ts i (step c true (signal s) i) (blocks-IsLost c)).blocked
