-- ===== src/Sync/Mutex/Priorities.antt =====
-- mutex.c: in every interleaving, only the task that holds the mutex runs at another priority than its own.
use zurich_os.Base.{
  replicate, ℕ, zero, suc, ◌≤◌, ◌≡◌, ◌≢◌, refl, sym, ap, ◌∙◌, Bool, true, false, not, Option, none,
  some, List, [], ◌∷◌, ltb, ◌==◌, if_cases, if_holds, get_or, set, length, get_or-set_cases,
  Bool-cases, ◌⊎◌, inl, inr, arith,
}
use zurich_os.Sched.{Task, zero_task}
use zurich_os.Sched.Calls.{task_boost_priority, task_restore_priority}
use zurich_os.Sync.Waitqueue.{Stage}
use zurich_os.Sync.Mutex.{
  Phase, out, lock, holding, waking, linked, released, parking, waiting, System, start, Call,
  task_at, mutex_lock, mutex_trylock, mutex_unlock, condvar_wait, condvar_signal, condvar_broadcast,
  inherit_from, restore, lock_round, try_lock, unlock_round, wake_waiter, signal, broadcast, call,
  relock, act, step, Turn, run,
}
use zurich_os.Sync.Mutex.Held.{holds, is_owner}
use zurich_os.Sync.Mutex.Named.{NamedState, nobody-Named, run-Named}
use zurich_os.Sync.Mutex.Inheritance.{Boosted, boost-Boosted}

-- A write at the owner's place, seen from any task.
task_at-set :
    (table : List Task) (o j : ℕ) (t : Task)
    → ((o ≡ j) × (task_at (set table o t) j ≡ t))
      ⊎ ((o ≡ j) × (task_at table j ≡ zero_task) × (task_at (set table o t) j ≡ zero_task))
      ⊎ ((o ≢ j) × (task_at (set table o t) j ≡ task_at table j))
task_at-set [] o j t = elim (Bool-cases (o == j)) [
  | inl same ↦ inr (inl (ground arith, refl, refl))
  | inr other ↦ inr (inr ((λ e. ground arith), refl))
]
task_at-set (x ∷ table) zero zero t = inl (refl, refl)
task_at-set (x ∷ table) zero (suc j) t = inr (inr ((λ e. omega (arith, e)), refl))
task_at-set (x ∷ table) (suc o) zero t = inr (inr ((λ e. omega (arith, e)), refl))
task_at-set (x ∷ table) (suc o) (suc j) t = elim (task_at-set table o j t) [
  | inl here ↦ inl (ap suc here.0, here.1)
  | inr (inl (same, was, now)) ↦ inr (inl (ap suc same, was, now))
  | inr (inr other) ↦ inr (inr ((λ e. other.0 (omega (arith, e))), other.1))
]

-- Every task has the base priority that it started with and is at least as urgent as that; only the owner
-- may be more urgent.
record Settled (first : List Task) (owner : Option ℕ) (table : List Task) : Type 0 where
  bases : (k : ℕ) → (task_at table k).base_priority ≡ (task_at first k).base_priority
  urgent : (k : ℕ) → (task_at table k).priority ≤ (task_at first k).base_priority
  settled :
      (k : ℕ)
      → is_owner owner k ≡ false
      → (task_at table k).priority ≡ (task_at first k).base_priority

module _ (first : List Task) (table : List Task) where
  -- A change of owner leaves the others settled.
  inherit_from-Settled :
      (i : ℕ) (owner : Option ℕ)
      → Settled first owner table
      → Settled first owner (inherit_from table i owner)
  unfolding inherit_from
  inherit_from-Settled i none k = k
  inherit_from-Settled i (some o) k =
      if_holds (Settled first (some o)) (ltb (task_at table i).priority (task_at table o).priority)
        (record {
          bases = λ j.
              get_or-set_cases (λ (t : Task). t.base_priority ≡ (task_at first j).base_priority)
                table o j new zero_task
                (λ e. boosted.base ∙ k.bases o ∙ ap (λ n. (task_at first n).base_priority) e)
                (k.bases j);
          urgent = λ j.
              get_or-set_cases (λ (t : Task). t.priority ≤ (task_at first j).base_priority) table o
                j new zero_task (λ e. rw (← e) (omega (arith, boosted.no_later, k.urgent o)))
                (k.urgent j);
          settled = λ j other.
              get_or-set_cases (λ (t : Task). t.priority ≡ (task_at first j).base_priority) table o
                j new zero_task (λ e. absurd (ground (arith, e, other))) (k.settled j other);
        })
        k
    where
      new : Task
      new = task_boost_priority (task_at table i).priority (task_at table o)

      boosted : Boosted (task_at table i).priority (task_at table o) new
      boosted = boost-Boosted (task_at table i).priority (task_at table o)

  restore-Settled :
      (owner : Option ℕ) → Settled first owner table → Settled first none (restore table owner)
  unfolding restore task_restore_priority
  restore-Settled none k = k
  restore-Settled (some o) k = record {
    bases = λ j.
        get_or-set_cases (λ (t : Task). t.base_priority ≡ (task_at first j).base_priority) table o j
          (task_restore_priority (task_at table o)) zero_task
          (λ e. k.bases o ∙ ap (λ n. (task_at first n).base_priority) e) (k.bases j);
    urgent = λ j. rw (back j) (omega arith);
    settled = λ j _. back j;
  }
    where
      back :
          (j : ℕ)
          → (task_at (set table o (task_restore_priority (task_at table o))) j).priority
            ≡ (task_at first j).base_priority
      back j = elim (task_at-set table o j (task_restore_priority (task_at table o))) [
        | inl (same, now) ↦
            ap (λ (t : Task). t.priority) now
            ∙ k.bases o
            ∙ ap (λ n. (task_at first n).base_priority) same
        | inr (inl (same, was, now)) ↦
            ap (λ (t : Task). t.priority) now
            ∙ sym (ap (λ (t : Task). t.base_priority) was)
            ∙ k.bases j
        | inr (inr (other, now)) ↦
            ap (λ (t : Task). t.priority) now ∙ k.settled j (ground (arith, other))
      ]

-- The priorities, and that a free mutex names no owner.
abbrev Calm : List Task → System → Type 0
Calm first s =
    Settled first s.mutex.owner_task s.table
    × (not s.mutex.locked ≡ true → s.mutex.owner_task ≡ none)

-- A free mutex may be given to any task.
owned-Settled :
    (first table : List Task) (i : ℕ) → Settled first none table → Settled first (some i) table
owned-Settled first table i k = record {
  bases = k.bases;
  urgent = k.urgent;
  settled = λ j _. k.settled j refl;
}

module _ (first : List Task) (s : System) (i : ℕ) (k : Calm first s) where
  taken-Settled : not s.mutex.locked ≡ true → Settled first (some i) s.table
  taken-Settled free = owned-Settled first s.table i (rw (← k.1 free) k.0)

  lock_round-Calm : (p : Phase) → Calm first (lock_round s i p)
  unfolding lock_round
  lock_round-Calm p =
      if_cases (Calm first) (not s.mutex.locked)
        (λ free. (taken-Settled free, λ off. absurd (ground arith)))
        (λ _. (inherit_from-Settled first s.table i s.mutex.owner_task k.0, k.1))

  try_lock-Calm : Calm first (try_lock s i)
  unfolding try_lock
  try_lock-Calm =
      if_cases (Calm first) (not s.mutex.locked)
        (λ free. (taken-Settled free, λ off. absurd (ground arith))) (λ _. k)

  unlock_round-Calm : (p : Phase) → Calm first (unlock_round s i p)
  unfolding unlock_round
  unlock_round-Calm p = (restore-Settled first s.table s.mutex.owner_task k.0, λ _. refl)

  call-Calm : (c : Call) (room : Bool) (p : Phase) → Calm first (call c room s i p)
  unfolding call signal broadcast
  call-Calm mutex_lock room p = k
  call-Calm mutex_trylock room p = try_lock-Calm
  call-Calm mutex_unlock room p = unlock_round-Calm waking
  call-Calm condvar_wait room p = if_holds (Calm first) room k k
  call-Calm condvar_signal room p = k
  call-Calm condvar_broadcast room p = k

  act-Calm : (c : Call) (room : Bool) (p : Phase) → Calm first (act c room s i p)
  unfolding act wake_waiter
  act-Calm c room out = call-Calm c room (lock Stage.try)
  act-Calm c room (lock Stage.try) = lock_round-Calm (lock Stage.park)
  act-Calm c room (lock Stage.park) = if_holds (Calm first) room k k
  act-Calm c room (lock Stage.queued) = k
  act-Calm c room (lock Stage.asleep) = k
  act-Calm c room (relock Stage.try) = lock_round-Calm (relock Stage.park)
  act-Calm c room (relock Stage.park) = if_holds (Calm first) room k k
  act-Calm c room (relock Stage.queued) = k
  act-Calm c room (relock Stage.asleep) = k
  act-Calm c room holding = call-Calm c room (relock Stage.try)
  act-Calm c room waking = k
  act-Calm c room linked = unlock_round-Calm released
  act-Calm c room released = k
  act-Calm c room parking = k
  act-Calm c room waiting = k

run_keeps : (first : List Task) (ts : List Turn) (s : System) → Calm first s → Calm first (run ts s)
unfolding run step
run_keeps first [] s k = k
run_keeps first (t ∷ ts) s k = run_keeps first ts (step t.call t.able s t.task) (
    if_holds (Calm first) (ltb t.task (length s.tasks))
      (act-Calm first s t.task k t.call t.able (get_or s.tasks t.task out)) k)

-- However the calls of the tasks interleave, from a table in which every task runs at its base priority:
-- base priorities stay, every task runs at its base priority or a more urgent one, and one that does not
-- hold the mutex runs exactly at its base priority.
pub run-Settled :
    (ts : List Turn) (n : ℕ) (table : List Task) (k : ℕ)
    → ((j : ℕ) → (task_at table j).priority ≡ (task_at table j).base_priority)
    → let s = run ts (start n table) in
      ((task_at s.table k).base_priority ≡ (task_at table k).base_priority)
      × ((task_at s.table k).priority ≤ (task_at table k).base_priority)
      × (holds (get_or s.tasks k out) ≡ false
          → (task_at s.table k).priority ≡ (task_at table k).base_priority)
unfolding start
run-Settled ts n table k even =
    let calm = run_keeps table ts (start n table) (
      record { bases = λ j. refl; urgent = λ j. omega (arith, even j); settled = λ j _. even j },
      λ _. refl,
    ) in
    let named = run-Named ts (start n table) (nobody-Named (replicate n out)) in
    (
      calm.0.bases k,
      calm.0.urgent k,
      λ not_held. calm.0.settled k (not_owner (run ts (start n table)) named not_held),
    )
  where
    not_owner :
        (s : System)
        → NamedState s
        → holds (get_or s.tasks k out) ≡ false
        → is_owner s.mutex.owner_task k ≡ false
    not_owner s named off = elim (Bool-cases (is_owner s.mutex.owner_task k)) [
      | inl own ↦ let on = named k own in absurd (ground (arith, on, off))
      | inr free ↦ free
    ]
