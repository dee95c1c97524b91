-- ===== src/Ipc/Pipes/Transfer.antt =====
-- `pipe_write` and `pipe_read` on the open ends of a pipe.
use zurich_os.Base.{
  ℕ, ◌-◌, ◌<◌, ◌≡◌, ◌≢◌, refl, ap, ◌∙◌, true, not, List, ◌++◌, ◌==◌, if_true, if_false, length,
  get_or-set_self, take, take_all, some, arith, ℤ, pos, neg, index?,
}
use zurich_os.Ipc.Pipes.{
  Pipe, Ipc, End, pipe_buf_size, max_pipes, sigpipe, fd_at, pipe_at, with_pipe, open_end, zero_pipe,
}
use zurich_os.Ipc.Pipes.Calls.{
  Read, read_end, read_pipe, write_end, write_pipe, drain, fill, pipe_read, pipe_write,
}
use zurich_os.Base.Ring.{length-window}
use zurich_os.Process.{proc_at, process_get}
use zurich_os.Process.Signals.{signal_send}
use zurich_os.Process.Signals.Delivery.{Sent, signal_send-Sent}
use zurich_os.Process.Calls.{process_signal}
use zurich_os.Ipc.Pipes.Buffer.{IsOk, contents, Filled, fill-Filled, Drained, drain-Drained}

-- The descriptor `fd` of the current process is an end of pipe `id`: of its writing side where `way` is 1, of
-- its reading side where it is 0.
pub record Opens (s : Ipc) (fd : ℤ) (way id : ℕ) : Type 0 where
  pub place : End
  pub opened : open_end s fd ≡ some place
  pub leads : index? max_pipes (fd_at s place.proc place.fd).pipe_id ≡ some id
  pub side : (fd_at s place.proc place.fd).flags ≡ way
  pub live : (pipe_at s id).in_use ≡ true

-- A write to a writing end whose pipe has readers is the loop over the bytes, and its number is returned.
pub pipe_write-Opens :
    (s : Ipc) (fd : ℤ) (bs : List ℕ) (id : ℕ)
    → Opens s fd 1 id
    → (pipe_at s id).readers ≢ 0
    → pipe_write s fd bs
      ≡ (with_pipe s id (fill (pipe_at s id) bs).1, pos (fill (pipe_at s id) bs).0)
unfolding pipe_write
pipe_write-Opens s fd bs id o reader =
    let e = fd_at s o.place.proc o.place.fd in
    ap (write_end s bs) o.opened
    ∙ ap (write_pipe s o.place.proc e bs) o.leads
    ∙ if_false (not (pipe_at s id).in_use) _ _ (ap not o.live)
    ∙ if_true (e.flags == 1) _ _ (ap (λ f. f == 1) o.side)
    ∙ if_false ((pipe_at s id).readers == 0) _ _ (ground arith)

pipe_write_signals :
    (s : Ipc) (fd : ℤ) (bs : List ℕ) (id : ℕ) (o : Opens s fd 1 id)
    → (pipe_at s id).readers ≡ 0
    → pipe_write s fd bs ≡ (
      record s {
        kernel =
            (process_signal s.kernel (proc_at s.kernel.table o.place.proc).pid (pos sigpipe)).0;
      },
      neg 32,
    )
unfolding pipe_write
pipe_write_signals s fd bs id o closed =
    let e = fd_at s o.place.proc o.place.fd in
    ap (write_end s bs) o.opened
    ∙ ap (write_pipe s o.place.proc e bs) o.leads
    ∙ if_false (not (pipe_at s id).in_use) _ _ (ap not o.live)
    ∙ if_true (e.flags == 1) _ _ (ap (λ f. f == 1) o.side)
    ∙ if_true ((pipe_at s id).readers == 0) _ _ (ap (λ r. r == 0) closed)

-- Where a process writes to the writing end of a pipe that has no reader left, the call returns -32 and
-- no pipe changes; SIGPIPE becomes pending at that process beside what was pending there, and no other
-- process changes.
pub pipe_write_broken :
    (s : Ipc) (fd : ℤ) (bs : List ℕ) (id : ℕ) (o : Opens s fd 1 id)
    → (pipe_at s id).readers ≡ 0
    → process_get s.kernel (proc_at s.kernel.table o.place.proc).pid ≡ some o.place.proc
    → o.place.proc < length s.kernel.table
    → let t = pipe_write s fd bs in
      (t.1 ≡ neg 32) × (t.0.pipes ≡ s.pipes) × Sent s.kernel t.0.kernel o.place.proc 13
unfolding signal_send
pipe_write_broken s fd bs id o closed found within = rw (pipe_write_signals s fd bs id o closed) (
  refl,
  refl,
  (signal_send-Sent s.kernel (proc_at s.kernel.table o.place.proc).pid 13 o.place.proc found within
      (omega arith) (omega arith)).1,
)

-- A read from a reading end is the loop over the bytes, and their number is returned.
pub pipe_read-Opens :
    (s : Ipc) (fd : ℤ) (n id : ℕ)
    → Opens s fd 0 id
    → pipe_read s fd n ≡ record {
      state = with_pipe s id (drain (pipe_at s id) n).1;
      result = pos (length (drain (pipe_at s id) n).0);
      bytes = (drain (pipe_at s id) n).0;
    }
unfolding pipe_read
pipe_read-Opens s fd n id o =
    let e = fd_at s o.place.proc o.place.fd in
    ap (read_end s n) o.opened
    ∙ ap (read_pipe s e n) o.leads
    ∙ if_false (not (pipe_at s id).in_use) _ _ (ap not o.live)
    ∙ if_true (e.flags == 0) _ _ (ap (λ f. f == 0) o.side)

-- Where a read after a write finds the pipe the write left.
after :
    (s : Ipc) (id : ℕ) (p : Pipe) (fd : ℤ)
    → id < length s.pipes
    → p.in_use ≡ (pipe_at s id).in_use
    → Opens s fd 0 id
    → Opens (with_pipe s id p) fd 0 id
unfolding open_end
after s id p fd lt same o = record {
  place = o.place;
  opened = o.opened;
  leads = o.leads;
  side = o.side;
  live = ap (λ q. q.in_use) (get_or-set_self s.pipes id p zero_pipe lt) ∙ same ∙ o.live;
}

-- On a sound pipe with a reader, what `pipe_write` writes to one end comes out of the other: after it has
-- written `bs`, a read of 4096 bytes gives the bytes that were in it before,
-- followed by the prefix of `bs` that fitted, and nothing else.
pub pipe_read-pipe_write :
    (s : Ipc) (w r : ℤ) (bs : List ℕ) (id : ℕ)
    → Opens s w 1 id
    → Opens s r 0 id
    → id < length s.pipes
    → (pipe_at s id).readers ≢ 0
    → IsOk (pipe_at s id)
    → (pipe_read (pipe_write s w bs).0 r pipe_buf_size).bytes
      ≡ contents (pipe_at s id) ++ take (pipe_buf_size - (pipe_at s id).count) bs
pipe_read-pipe_write s w r bs id ow or lt reader k =
    let p : Pipe = pipe_at s id in
    let q : Pipe = (fill p bs).1 in
    let f : Filled p bs (fill p bs) = fill-Filled p bs k in
    let d : Drained q pipe_buf_size (drain q pipe_buf_size) = drain-Drained q pipe_buf_size f.ok in
    ap (λ (t : Ipc × ℤ). (pipe_read t.0 r pipe_buf_size).bytes)
      (pipe_write-Opens s w bs id ow reader)
    ∙ ap (λ (t : Read). t.bytes)
        (pipe_read-Opens (with_pipe s id q) r pipe_buf_size id (after s id q r lt f.ends.2 or))
    ∙ ap (λ t. (drain t pipe_buf_size).0) (get_or-set_self s.pipes id q zero_pipe lt)
    ∙ d.bytes
    ∙ take_all pipe_buf_size (contents q)
        (omega (arith, f.ok.fits, length-window pipe_buf_size 0 q.buffer q.read_pos q.count))
    ∙ f.bytes
