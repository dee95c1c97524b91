-- ===== src/Sync/Mutex/Named.antt =====
-- mutex.c: whatever the calls, a task that the mutex names as its owner has locked it and not unlocked
-- it since.
use zurich_os.Base.{
  ℕ, ◌<◌, ◌≡◌, refl, ap, ◌∙◌, Bool, true, not, Option, none, some, List, [], ◌∷◌, ltb,
  if◌then◌else◌, if_cases, if_holds, get_or, set, length, get_or-set_cases, get_or-set_self, ◌==◌,
  arith,
}
use zurich_os.Sync.Waitqueue.{Stage, wake_one, wake_all}
use zurich_os.Sync.Mutex.{
  Phase, out, lock, relock, holding, waking, linked, released, parking, waiting, unblocked, System,
  Call, mutex_lock, mutex_trylock, mutex_unlock, condvar_wait, condvar_signal, condvar_broadcast,
  lock_round, try_lock, unlock_round, wake_waiter, signal, broadcast, call, act, step, Turn, run,
}
use zurich_os.Sync.Mutex.Held.{holds, is_owner, holds-unblocked}

abbrev pub Named : Option ℕ → List Phase → Type 0
Named owner t = (j : ℕ) → is_owner owner j ≡ true → holds (get_or t j out) ≡ true

set-Named :
    (owner : Option ℕ) (t : List Phase) (i : ℕ) (p : Phase)
    → (holds (get_or t i out) ≡ true → holds p ≡ true)
    → Named owner t
    → Named owner (set t i p)
set-Named owner t i p keeps h j own =
    get_or-set_cases (λ q. holds q ≡ true) t i j p out
      (λ same. keeps (ap (λ n. holds (get_or t n out)) same ∙ h j own)) (h j own)

wake_one-Named :
    (owner : Option ℕ) (q : List ℕ) (t : List Phase)
    → Named owner t
    → Named owner (wake_one out unblocked q t).1
unfolding wake_one
wake_one-Named owner [] t h = h
wake_one-Named owner (i ∷ q) t h =
    set-Named owner t i (unblocked (get_or t i out)) (λ e. holds-unblocked (get_or t i out) ∙ e) h

wake_all-Named :
    (owner : Option ℕ) (q : List ℕ) (t : List Phase)
    → Named owner t
    → Named owner (wake_all out unblocked q t)
unfolding wake_all
wake_all-Named owner [] t h = h
wake_all-Named owner (i ∷ q) t h =
    wake_all-Named owner q (set t i (unblocked (get_or t i out))) (
      set-Named owner t i (unblocked (get_or t i out)) (λ e. holds-unblocked (get_or t i out) ∙ e)
        h)

pub nobody-Named : (t : List Phase) → Named none t
nobody-Named t j own = absurd (ground arith)

taken-Named : (t : List Phase) (i : ℕ) → i < length t → Named (some i) (set t i holding)
taken-Named t i lt j own =
    ap (λ n. holds (get_or (set t i holding) n out)) (the_same own)
    ∙ ap holds (get_or-set_self t i holding out lt)
  where
    the_same : (i == j) ≡ true → j ≡ i
    the_same e = ground arith

abbrev pub NamedState : System → Type 0
NamedState s = Named s.mutex.owner_task s.tasks

module _ (s : System) (i : ℕ) (lt : i < length s.tasks) (h : NamedState s) where
  moved-Named :
      (p : Phase)
      → (holds (get_or s.tasks i out) ≡ true → holds p ≡ true)
      → Named s.mutex.owner_task (set s.tasks i p)
  moved-Named p keeps = set-Named s.mutex.owner_task s.tasks i p keeps h

  lock_round-Named :
      (p : Phase)
      → (holds (get_or s.tasks i out) ≡ true → holds p ≡ true)
      → NamedState (lock_round s i p)
  unfolding lock_round
  lock_round-Named p keeps =
      if_holds NamedState (not s.mutex.locked) (taken-Named s.tasks i lt) (moved-Named p keeps)

  unlock_round-Named : (p : Phase) → NamedState (unlock_round s i p)
  unfolding unlock_round
  unlock_round-Named p = nobody-Named (set s.tasks i p)

  wake_waiter-Named :
      (p : Phase)
      → (holds (get_or s.tasks i out) ≡ true → holds p ≡ true)
      → NamedState (wake_waiter s i p)
  unfolding wake_waiter
  wake_waiter-Named p keeps =
      wake_one-Named s.mutex.owner_task s.mutex.waiters (set s.tasks i p) (moved-Named p keeps)

  call-Named :
      (c : Call) (room : Bool) (p : Phase)
      → (holds (get_or s.tasks i out) ≡ true → holds p ≡ true)
      → NamedState (call c room s i p)
  unfolding call try_lock signal broadcast
  call-Named mutex_lock room p keeps = moved-Named p keeps
  call-Named mutex_trylock room p keeps =
      if_holds NamedState (not s.mutex.locked) (taken-Named s.tasks i lt) h
  call-Named mutex_unlock room p keeps = unlock_round-Named waking
  call-Named condvar_wait room p keeps = if_holds NamedState room (moved-Named linked (λ _. refl)) h
  call-Named condvar_signal room p keeps = wake_one-Named s.mutex.owner_task s.condition s.tasks h
  call-Named condvar_broadcast room p keeps =
      wake_all-Named s.mutex.owner_task s.condition s.tasks h

  act-Named :
      (c : Call) (room : Bool) (p : Phase)
      → (holds (get_or s.tasks i out) ≡ true → holds p ≡ true)
      → NamedState (act c room s i p)
  unfolding act
  act-Named c room out k = call-Named c room (lock Stage.try) k
  act-Named c room (lock Stage.try) k = lock_round-Named (lock Stage.park) k
  act-Named c room (lock Stage.park) k =
      if_holds NamedState room (moved-Named (lock Stage.queued) k) (moved-Named (lock Stage.try) k)
  act-Named c room (lock Stage.queued) k =
      moved-Named (lock (if room then Stage.asleep else Stage.try)) k
  act-Named c room (lock Stage.asleep) k = h
  act-Named c room (relock Stage.try) k = lock_round-Named (relock Stage.park) k
  act-Named c room (relock Stage.park) k =
      if_holds NamedState room (moved-Named (relock Stage.queued) k)
        (moved-Named (relock Stage.try) k)
  act-Named c room (relock Stage.queued) k =
      moved-Named (relock (if room then Stage.asleep else Stage.try)) k
  act-Named c room (relock Stage.asleep) k = h
  act-Named c room holding k = call-Named c room (relock Stage.try) k
  act-Named c room waking k = wake_waiter-Named out k
  act-Named c room linked k = unlock_round-Named released
  act-Named c room released k = wake_waiter-Named parking k
  act-Named c room parking k =
      if_holds (λ p. Named s.mutex.owner_task (set s.tasks i p)) room (moved-Named waiting k)
        (moved-Named (lock Stage.try) k)
  act-Named c room waiting k = h

pub run-Named : (ts : List Turn) (s : System) → NamedState s → NamedState (run ts s)
unfolding run step
run-Named [] s h = h
run-Named (t ∷ ts) s h = run-Named ts (step t.call t.able s t.task) (
    if_cases NamedState (ltb t.task (length s.tasks))
      (λ lt. act-Named s t.task (ground arith) h t.call t.able (get_or s.tasks t.task out) (λ e. e))
      (λ _. h))
