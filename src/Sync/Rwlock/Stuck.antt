-- ===== src/Sync/Rwlock/Stuck.antt =====
-- States in which the lock is free and nobody can take it.
use zurich_os.Base.{
  ℕ, ◌≡◌, refl, ◌∙◌, Bool, true, false, not, ◌&&◌, List, [], ◌∷◌, ltb, if◌then◌else◌, if_holds,
  if_false, get_or, length, get_or-set_keeps, arith,
}
use zurich_os.Sync.Waitqueue.{Stage, enqueue}
use zurich_os.Sync.Rwlock.{
  Rwlock, Phase, out, read, reading, write, writing, waking, System, Call, Turn, read_lock,
  write_lock, try_read, try_write, unlock_read, unlock_write, try_read_lock, moved, call, act, step,
  run,
}

-- Outside the lock and its calls, in `rwlock_read_lock`, or asleep in `rwlock_write_lock`.
abbrev pub stalled : Phase → Bool
stalled out = true
stalled (read s) = true
stalled (write Stage.asleep) = true
stalled p = false

-- Calls that ask to read.
abbrev pub wants_read : Call → Bool
wants_read read_lock = true
wants_read try_read = true
wants_read c = false

abbrev pub only_readers : List Turn → Bool
only_readers [] = true
only_readers (t ∷ ts) = wants_read t.call && only_readers ts

-- The lock is free, it is marked as awaited by a writer, and nobody is about to take it or to wake anyone.
pub record Stuck (s : System) : Type 0 where
  pub no_reader : s.lock.readers ≡ 0
  pub no_writer : s.lock.writer ≡ false
  pub awaited : s.lock.writer_waiting ≡ true
  pub all_stalled : (j : ℕ) → stalled (get_or s.tasks j out) ≡ true

moved-Stuck :
    (s : System) (rw : Rwlock) (i : ℕ) (p : Phase)
    → Stuck s
    → rw.readers ≡ s.lock.readers
    → rw.writer ≡ s.lock.writer
    → rw.writer_waiting ≡ s.lock.writer_waiting
    → stalled p ≡ true
    → Stuck (moved s rw i p)
moved-Stuck s rw i p k r w a st = record {
  no_reader = r ∙ k.no_reader;
  no_writer = w ∙ k.no_writer;
  awaited = a ∙ k.awaited;
  all_stalled =
      λ j. get_or-set_keeps (λ q. stalled q ≡ true) s.tasks i j p out st (k.all_stalled j);
}

-- No reader gets a lock that a writer is marked as waiting for.
refused : (rw : Rwlock) → rw.writer_waiting ≡ true → try_read_lock rw ≡ (rw, false)
unfolding try_read_lock
refused rw a = if_false (not rw.writer && not rw.writer_waiting) _ _ (ground (arith, a))

round-Stuck :
    (s : System) (i : ℕ) (p : Phase)
    → Stuck s
    → stalled p ≡ true
    → Stuck (let r = try_read_lock s.lock in moved s r.0 i (if r.1 then reading else p))
round-Stuck s i p k st =
    rw (refused s.lock k.awaited) (moved-Stuck s s.lock i p k refl refl refl st)

call-Stuck :
    (c : Call) (s : System) (i : ℕ) → wants_read c ≡ true → Stuck s → Stuck (call c s i out)
call-Stuck read_lock s i h k = moved-Stuck s s.lock i (read Stage.try) k refl refl refl refl
call-Stuck write_lock s i h k = absurd (ground arith)
call-Stuck try_read s i h k = round-Stuck s i out k refl
call-Stuck try_write s i h k = absurd (ground arith)
call-Stuck unlock_read s i h k = absurd (ground arith)
call-Stuck unlock_write s i h k = absurd (ground arith)

act-Stuck :
    (c : Call) (room : Bool) (s : System) (i : ℕ) (p : Phase)
    → wants_read c ≡ true
    → Stuck s
    → stalled p ≡ true
    → Stuck (act c room s i p)
unfolding act
act-Stuck c room s i out h k st = call-Stuck c s i h k
act-Stuck c room s i (read Stage.try) h k st = round-Stuck s i (read Stage.park) k refl
act-Stuck c room s i (read Stage.park) h k st =
    if_holds Stuck room
      (moved-Stuck s (record s.lock { read_waiters = enqueue s.lock.read_waiters i }) i
        (read Stage.queued) k refl refl refl refl)
      (moved-Stuck s s.lock i (read Stage.try) k refl refl refl refl)
act-Stuck c room s i (read Stage.queued) h k st =
    moved-Stuck s s.lock i (read (if room then Stage.asleep else Stage.try)) k refl refl refl refl
act-Stuck c room s i (read Stage.asleep) h k st = k
act-Stuck c room s i reading h k st = absurd (ground arith)
act-Stuck c room s i (write Stage.try) h k st = absurd (ground arith)
act-Stuck c room s i (write Stage.park) h k st = absurd (ground arith)
act-Stuck c room s i (write Stage.queued) h k st = absurd (ground arith)
act-Stuck c room s i (write Stage.asleep) h k st = k
act-Stuck c room s i writing h k st = absurd (ground arith)
act-Stuck c room s i (waking w) h k st = absurd (ground arith)

step-Stuck :
    (c : Call) (room : Bool) (s : System) (i : ℕ)
    → wants_read c ≡ true
    → Stuck s
    → Stuck (step c room s i)
unfolding step
step-Stuck c room s i h k =
    if_holds Stuck (ltb i (length s.tasks))
      (act-Stuck c room s i (get_or s.tasks i out) h k (k.all_stalled i)) k

-- Once the lock is free and marked as awaited by a writer while every task is outside, reading or asleep
-- in the call to write, no turn of any task that at most asks to read changes that: nobody gets the lock
-- again, for reading or for writing.
pub run-Stuck : (ts : List Turn) (s : System) → only_readers ts ≡ true → Stuck s → Stuck (run ts s)
unfolding run
run-Stuck [] s h k = k
run-Stuck (t ∷ ts) s h k =
    run-Stuck ts (step t.call t.able s t.task) (ground arith)
      (step-Stuck t.call t.able s t.task (ground arith) k)
