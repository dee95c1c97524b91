-- ===== src/Sync/Rwlock/Exclusion.antt =====
-- A writer is alone, in every interleaving of the tasks.
use zurich_os.Base.{
  ℕ, ◌+◌, ◌-◌, ◌%◌, ◌^◌, ◌<◌, ◌≡◌, refl, ap, sym, ◌∙◌, Bool, true, false, not, ◌&&◌, List, [], ◌∷◌,
  ltb, ◌==◌, if◌then◌else◌, if_cases, if_holds, get_or, set, length, length-set, length-replicate,
  ltb→lt, arith,
}
use zurich_os.Sync.Waitqueue.{Stage, enqueue}
use zurich_os.Sync.Rwlock.{
  Rwlock, Phase, out, read, reading, write, writing, waking, Wake, nobody, one_writer, all_readers,
  System, start, Call, Turn, read_lock, write_lock, try_read, try_write, unlock_read, unlock_write,
  try_read_lock, write_round, try_write_lock, read_unlock, write_unlock, moved, call, wakes, act,
  step, run,
}
use zurich_os.Sync.Rwlock.Holders.{
  reads, writes, num, total, total-set, total-replicate, total-wake_one, total-wake_all,
  length-wake_one, length-wake_all, reads-unblocked, writes-unblocked, total_reads-le,
}

-- The counter is the number of the tasks that hold the lock for reading, the flag that of the tasks that
-- hold it for writing, and a writer is alone. The counter has room for every task.
pub record Exclusive (s : System) : Type 0 where
  pub counted : s.lock.readers ≡ total reads s.tasks
  pub flagged : num s.lock.writer ≡ total writes s.tasks
  pub alone : s.lock.writer ≡ true → s.lock.readers ≡ 0
  pub room : length s.tasks < 2 ^ 32

-- A move of one task that changes the counter and the flag as it changes the task's part in them.
moved-Exclusive :
    (s : System) (rw : Rwlock) (i : ℕ) (p : Phase)
    → Exclusive s
    → i < length s.tasks
    → rw.readers + reads (get_or s.tasks i out) ≡ s.lock.readers + reads p
    → num rw.writer + writes (get_or s.tasks i out) ≡ num s.lock.writer + writes p
    → (rw.writer ≡ true → rw.readers ≡ 0)
    → Exclusive (moved s rw i p)
moved-Exclusive s rw i p k lt r w alone = record {
  counted = omega (arith, r, k.counted, total-set reads s.tasks i p lt);
  flagged = omega (arith, w, k.flagged, total-set writes s.tasks i p lt);
  alone = alone;
  room = omega (arith, k.room, length-set s.tasks i p);
}

-- The same where the task holds the lock neither before nor after.
idle-Exclusive :
    (s : System) (rw : Rwlock) (i : ℕ) (p q : Phase)
    → Exclusive s
    → i < length s.tasks
    → get_or s.tasks i out ≡ q
    → reads q ≡ reads p
    → writes q ≡ writes p
    → rw.readers ≡ s.lock.readers
    → rw.writer ≡ s.lock.writer
    → Exclusive (moved s rw i p)
idle-Exclusive s rw i p q k lt e r w same_r same_w =
    moved-Exclusive s rw i p k lt (omega (arith, ap reads e, r, same_r))
      (omega (arith, ap writes e, w, ap num same_w)) (λ h. same_r ∙ k.alone (sym same_w ∙ h))

-- A round that takes the lock for reading, or leaves it alone.
reader-Exclusive :
    (s : System) (i : ℕ) (q p : Phase)
    → Exclusive s
    → i < length s.tasks
    → get_or s.tasks i out ≡ q
    → reads q ≡ 0
    → writes q ≡ 0
    → reads p ≡ 0
    → writes p ≡ 0
    → Exclusive (let r = try_read_lock s.lock in moved s r.0 i (if r.1 then reading else p))
unfolding try_read_lock
reader-Exclusive s i q p k lt e rq wq rp wp =
    if_cases (λ (r : Rwlock × Bool). Exclusive (moved s r.0 i (if r.1 then reading else p)))
      (not s.lock.writer && not s.lock.writer_waiting)
      (λ free.
        let old : total reads (set s.tasks i reading) + reads (get_or s.tasks i out)
            ≡ total reads s.tasks + 1 =
          total-set reads s.tasks i reading lt in
        let most = total_reads-le (set s.tasks i reading) in
        let len = length-set s.tasks i reading in
        moved-Exclusive s (record s.lock { readers = (s.lock.readers + 1) % 2 ^ 32 }) i reading k lt
          (omega (arith, k.counted, k.room, ap reads e, rq, old, most, len))
          (omega (arith, ap writes e, wq)) (λ h. absurd (ground arith)))
      (λ taken. idle-Exclusive s s.lock i p q k lt e (rq ∙ sym rp) (wq ∙ sym wp) refl refl)

-- A section that makes the task the writer where the lock is free, or leaves counter and flag alone.
writer-Exclusive :
    (s : System) (i : ℕ) (q p : Phase) (won lost : Rwlock)
    → Exclusive s
    → i < length s.tasks
    → get_or s.tasks i out ≡ q
    → reads q ≡ 0
    → writes q ≡ 0
    → reads p ≡ 0
    → writes p ≡ 0
    → won.readers ≡ s.lock.readers
    → won.writer ≡ true
    → lost.readers ≡ s.lock.readers
    → lost.writer ≡ s.lock.writer
    → Exclusive (
        let r : Rwlock × Bool =
          if not s.lock.writer && (s.lock.readers == 0) then (won, true) else (lost, false) in
        moved s r.0 i (if r.1 then writing else p))
writer-Exclusive s i q p won lost k lt e rq wq rp wp won_r won_w lost_r lost_w =
    if_cases (λ (r : Rwlock × Bool). Exclusive (moved s r.0 i (if r.1 then writing else p)))
      (not s.lock.writer && (s.lock.readers == 0))
      (λ free.
        let none_there : s.lock.readers ≡ 0 = ground (arith, free) in
        let no_writer : num s.lock.writer ≡ 0 = ground (arith, free) in
        moved-Exclusive s won i writing k lt (omega (arith, won_r, ap reads e, rq))
          (omega (arith, ap num won_w, no_writer, ap writes e, wq)) (λ h. won_r ∙ none_there))
      (λ taken. idle-Exclusive s lost i p q k lt e (rq ∙ sym rp) (wq ∙ sym wp) lost_r lost_w)

wakes-Exclusive : (w : Wake) (s : System) → Exclusive s → Exclusive (wakes w s)
wakes-Exclusive nobody s k = k
wakes-Exclusive one_writer s k = record {
  counted = k.counted ∙ sym (total-wake_one reads s.lock.write_waiters s.tasks reads-unblocked);
  flagged = k.flagged ∙ sym (total-wake_one writes s.lock.write_waiters s.tasks writes-unblocked);
  alone = k.alone;
  room = omega (arith, k.room, length-wake_one s.lock.write_waiters s.tasks);
}
wakes-Exclusive all_readers s k = record {
  counted = k.counted ∙ sym (total-wake_all reads s.lock.read_waiters s.tasks reads-unblocked);
  flagged = k.flagged ∙ sym (total-wake_all writes s.lock.read_waiters s.tasks writes-unblocked);
  alone = k.alone;
  room = omega (arith, k.room, length-wake_all s.lock.read_waiters s.tasks);
}

leave_reading :
    (s : System) (i : ℕ)
    → Exclusive s
    → i < length s.tasks
    → get_or s.tasks i out ≡ reading
    → Exclusive (let r = read_unlock s.lock in moved s r.0 i (waking r.1))
unfolding read_unlock
leave_reading s i k lt e =
    let left : ℕ = (s.lock.readers + (2 ^ 32 - 1)) % 2 ^ 32 in
    let w : Wake = if (left == 0) && s.lock.writer_waiting then one_writer else nobody in
    let before = total-set reads s.tasks i (waking w) lt in
    let most = total_reads-le s.tasks in
    let less : left + 1 ≡ s.lock.readers =
      omega (arith, k.counted, k.room, most, before, ap reads e) in
    moved-Exclusive s (record s.lock { readers = left }) i (waking w) k lt
      (omega (arith, less, ap reads e)) (omega (arith, ap writes e))
      (λ h. absurd (omega (arith, less, k.alone h)))

leave_writing :
    (s : System) (i : ℕ)
    → Exclusive s
    → i < length s.tasks
    → get_or s.tasks i out ≡ writing
    → Exclusive (let r = write_unlock s.lock in moved s r.0 i (waking r.1))
unfolding write_unlock
leave_writing s i k lt e =
    let w : Wake = (write_unlock s.lock).1 in
    let before = total-set writes s.tasks i (waking w) lt in
    moved-Exclusive s (record s.lock { writer = false }) i (waking w) k lt
      (omega (arith, ap reads e)) (ground (arith, k.flagged, before, ap writes e))
      (λ h. absurd (ground arith))

-- The call is one that the task's phase allows: a lock where it holds nothing, and the unlock of what it
-- holds.
abbrev pub IsProper : Call → Phase → Type 0
IsProper unlock_read out = ⊥
IsProper unlock_write out = ⊥
IsProper c out = Unit {0}
IsProper unlock_read reading = Unit {0}
IsProper c reading = ⊥
IsProper unlock_write writing = Unit {0}
IsProper c writing = ⊥
IsProper c p = Unit {0}

-- Each call is, where it is made.
abbrev pub AllProper : List Turn → System → Type 0
AllProper [] s = Unit {0}
AllProper (t ∷ ts) s =
    IsProper t.call (get_or s.tasks t.task out) × AllProper ts (step t.call t.able s t.task)

call-Exclusive :
    (c : Call) (s : System) (i : ℕ)
    → IsProper c out
    → Exclusive s
    → i < length s.tasks
    → get_or s.tasks i out ≡ out
    → Exclusive (call c s i out)
unfolding try_write_lock
call-Exclusive read_lock s i h k lt e =
    idle-Exclusive s s.lock i (read Stage.try) out k lt e refl refl refl refl
call-Exclusive write_lock s i h k lt e =
    idle-Exclusive s s.lock i (write Stage.try) out k lt e refl refl refl refl
call-Exclusive try_read s i h k lt e = reader-Exclusive s i out out k lt e refl refl refl refl
call-Exclusive try_write s i h k lt e =
    writer-Exclusive s i out out (record s.lock { writer = true }) s.lock k lt e refl refl refl refl
      refl refl refl refl
call-Exclusive unlock_read s i h k lt e = absurd h
call-Exclusive unlock_write s i h k lt e = absurd h

call_reading :
    (c : Call) (s : System) (i : ℕ)
    → IsProper c reading
    → Exclusive s
    → i < length s.tasks
    → get_or s.tasks i out ≡ reading
    → Exclusive (call c s i reading)
call_reading read_lock s i h k lt e = absurd h
call_reading write_lock s i h k lt e = absurd h
call_reading try_read s i h k lt e = absurd h
call_reading try_write s i h k lt e = absurd h
call_reading unlock_read s i h k lt e = leave_reading s i k lt e
call_reading unlock_write s i h k lt e = absurd h

call_writing :
    (c : Call) (s : System) (i : ℕ)
    → IsProper c writing
    → Exclusive s
    → i < length s.tasks
    → get_or s.tasks i out ≡ writing
    → Exclusive (call c s i writing)
call_writing read_lock s i h k lt e = absurd h
call_writing write_lock s i h k lt e = absurd h
call_writing try_read s i h k lt e = absurd h
call_writing try_write s i h k lt e = absurd h
call_writing unlock_read s i h k lt e = absurd h
call_writing unlock_write s i h k lt e = leave_writing s i k lt e

-- A task that waits does not hold the lock, whatever it waits for.
turns-Exclusive :
    (s : System) (i : ℕ) (f : Stage → Phase) (g : Stage) (able : Bool)
    → ((g : Stage) → (reads (f g) ≡ 0) × (writes (f g) ≡ 0))
    → Exclusive s
    → i < length s.tasks
    → get_or s.tasks i out ≡ f g
    → Exclusive (moved s s.lock i (f (if able then Stage.asleep else Stage.try)))
turns-Exclusive s i f g able none k lt e =
    let p = f (if able then Stage.asleep else Stage.try) in
    let now = none (if able then Stage.asleep else Stage.try) in
    let then_ = none g in
    idle-Exclusive s s.lock i p (f g) k lt e (then_.0 ∙ sym now.0) (then_.1 ∙ sym now.1) refl refl

act-Exclusive :
    (c : Call) (room : Bool) (s : System) (i : ℕ) (p : Phase)
    → IsProper c p
    → Exclusive s
    → i < length s.tasks
    → get_or s.tasks i out ≡ p
    → Exclusive (act c room s i p)
unfolding act write_round
act-Exclusive c room s i out h k lt e = call-Exclusive c s i h k lt e
act-Exclusive c room s i (read Stage.try) h k lt e =
    reader-Exclusive s i (read Stage.try) (read Stage.park) k lt e refl refl refl refl
act-Exclusive c room s i (read Stage.park) h k lt e =
    if_holds Exclusive room
      (idle-Exclusive s (record s.lock { read_waiters = enqueue s.lock.read_waiters i }) i
        (read Stage.queued) (read Stage.park) k lt e refl refl refl refl)
      (idle-Exclusive s s.lock i (read Stage.try) (read Stage.park) k lt e refl refl refl refl)
act-Exclusive c room s i (read Stage.queued) h k lt e =
    turns-Exclusive s i read Stage.queued room (λ g. (refl, refl)) k lt e
act-Exclusive c room s i (read Stage.asleep) h k lt e = k
act-Exclusive c room s i reading h k lt e = call_reading c s i h k lt e
act-Exclusive c room s i (write Stage.try) h k lt e =
    writer-Exclusive s i (write Stage.try) (write Stage.park)
      (record s.lock { writer = true; writer_waiting = false })
      (record s.lock { writer_waiting = true }) k lt e refl refl refl refl refl refl refl refl
act-Exclusive c room s i (write Stage.park) h k lt e =
    if_holds Exclusive room
      (idle-Exclusive s (record s.lock { write_waiters = enqueue s.lock.write_waiters i }) i
        (write Stage.queued) (write Stage.park) k lt e refl refl refl refl)
      (idle-Exclusive s s.lock i (write Stage.try) (write Stage.park) k lt e refl refl refl refl)
act-Exclusive c room s i (write Stage.queued) h k lt e =
    turns-Exclusive s i write Stage.queued room (λ g. (refl, refl)) k lt e
act-Exclusive c room s i (write Stage.asleep) h k lt e = k
act-Exclusive c room s i writing h k lt e = call_writing c s i h k lt e
act-Exclusive c room s i (waking w) h k lt e =
    wakes-Exclusive w (moved s s.lock i out)
      (idle-Exclusive s s.lock i out (waking w) k lt e refl refl refl refl)

step-Exclusive :
    (c : Call) (room : Bool) (s : System) (i : ℕ)
    → IsProper c (get_or s.tasks i out)
    → Exclusive s
    → Exclusive (step c room s i)
unfolding step
step-Exclusive c room s i h k =
    if_cases Exclusive (ltb i (length s.tasks))
      (λ b. act-Exclusive c room s i (get_or s.tasks i out) h k (ltb→lt i (length s.tasks) b) refl)
      (λ b. k)

run_keeps : (ts : List Turn) (s : System) → AllProper ts s → Exclusive s → Exclusive (run ts s)
unfolding run
run_keeps [] s h k = k
run_keeps (t ∷ ts) s h k =
    run_keeps ts (step t.call t.able s t.task) h.1 (step-Exclusive t.call t.able s t.task h.0 k)

-- However the critical sections of any number of tasks below 2 ^ 32 interleave, and whether or not their
-- entries can be allocated, while a task calls the locks and tries only where it holds nothing, and
-- otherwise the unlock of what it holds: the lock's counter is the number of tasks that hold it for
-- reading, its flag says whether a task holds it for writing, and then no task holds it for reading.
pub run-Exclusive :
    (ts : List Turn) (n : ℕ) → AllProper ts (start n) → n < 2 ^ 32 → Exclusive (run ts (start n))
unfolding start
run-Exclusive ts n proper lt = run_keeps ts (start n) proper (record {
  counted = sym (total-replicate reads n refl);
  flagged = sym (total-replicate writes n refl);
  alone = λ h. refl;
  room = omega (arith, length-replicate n out);
})
