-- ===== src/Sync/Semaphore/Permits.antt =====
-- A semaphore neither loses permits nor makes them up, in every interleaving of the tasks.
use zurich_os.Base.{
  ℕ, ◌+◌, ◌^◌, ◌<◌, ◌≤◌, ◌≡◌, Bool, List, [], ◌∷◌, ltb, if◌then◌else◌, if_cases, if_holds, get_or,
  set, length, arith,
}
use zurich_os.Sync.Waitqueue.{Stage}
use zurich_os.Sync.Semaphore.{
  Semaphore, semaphore_trywait, is_positive, semaphore_release, Phase, out, wait, waking, System,
  start, Call, semaphore_wait, trywait, semaphore_signal, attempt, act, step, Turn, run,
}

-- As long as the permits fit the signed counter, those that are left and those taken are those given.
abbrev pub Balanced : ℕ → System → Type 0
Balanced initial s = initial + s.given < 2 ^ 31 → s.sem.count + s.taken ≡ initial + s.given

attempt-Balanced :
    (initial : ℕ) (s : System) (i : ℕ) (p : Phase)
    → Balanced initial s
    → Balanced initial (attempt s i p)
unfolding semaphore_trywait
attempt-Balanced initial s i p k =
    if_cases
      (λ (r : Semaphore × Bool). Balanced initial (
        if r.1
        then record s { sem = r.0; tasks = set s.tasks i out; taken = s.taken + 1 }
        else record s { sem = r.0; tasks = set s.tasks i p }))
      (is_positive s.sem.count) (λ some_left fits. ground (arith, k fits)) (λ none_left. k)

act-Balanced :
    (initial : ℕ) (c : Call) (room : Bool) (s : System) (i : ℕ) (p : Phase)
    → Balanced initial s
    → Balanced initial (act c room s i p)
unfolding act semaphore_release
act-Balanced initial semaphore_wait room s i out k = k
act-Balanced initial trywait room s i out k = attempt-Balanced initial s i out k
act-Balanced initial semaphore_signal room s i out k = λ fits. omega (arith, k (omega arith))
act-Balanced initial c room s i (wait Stage.try) k =
    attempt-Balanced initial s i (wait Stage.park) k
act-Balanced initial c room s i (wait Stage.park) k = if_holds (Balanced initial) room k k
act-Balanced initial c room s i (wait Stage.queued) k = k
act-Balanced initial c room s i (wait Stage.asleep) k = k
act-Balanced initial c room s i waking k = k

run_balances :
    (initial : ℕ) (ts : List Turn) (s : System) → Balanced initial s → Balanced initial (run ts s)
unfolding run step
run_balances initial [] s k = k
run_balances initial (t ∷ ts) s k = run_balances initial ts (step t.call t.able s t.task) (
    if_holds (Balanced initial) (ltb t.task (length s.tasks))
      (act-Balanced initial t.call t.able s t.task (get_or s.tasks t.task out) k) k)

-- However the critical sections of any number of tasks interleave, the count of a semaphore and the number
-- of waits that have returned with a permit add up to its first count and the number of signals, as long as
-- these stay below 2 ^ 31; so never more waits return than there were permits.
pub run-Balanced :
    (initial : ℕ) (ts : List Turn) (n : ℕ)
    → let s = run ts (start initial n) in
      initial + s.given < 2 ^ 31
      → (s.sem.count + s.taken ≡ initial + s.given) × (s.taken ≤ initial + s.given)
unfolding start
run-Balanced initial ts n fits =
    let k = run_balances initial ts (start initial n) (λ small. omega arith) fits in
    (k, omega (arith, k))
