-- ===== src/Ipc/Examples.antt =====
-- The theorems on ipc.c at concrete queues and pipes.
use zurich_os.Base.{
  ℕ, zero, suc, length, ◌-◌, ◌≡◌, refl, ap, true, [], ◌∷◌, ◌++◌, take, replicate, ℤ, pos, neg, some,
  arith,
}
use zurich_os.Ipc.Messages.{Table, Msg, Queue, no_queue, no_msg, msgq_receive}
use zurich_os.Ipc.Messages.Order.{
  contents, sent, Delivered, msgq_receive-Delivered, msgq_send-appends,
}
use zurich_os.Ipc.Messages.Order
use zurich_os.Process.{
  max_fds, process_init, proc_at, FdEntry, Process, no_fd, no_process, running, process_current,
}
use zurich_os.Ipc.Pipes.{
  pipe_create, Pipe, Ipc, zero_pipe, pipe_at, pipe_buf_size, open_fd, open_end,
}
use zurich_os.Ipc.Pipes.Calls.{fill, drain, pipe_read, pipe_write}
use zurich_os.Ipc.Pipes.Buffer.{Filled, Drained, fill-Filled, drain-Drained, zero_pipe-IsOk}
use zurich_os.Ipc.Pipes.Create.{CreateOutcome, pipe_create-CreateOutcome}
use zurich_os.Process.{process_get}
use zurich_os.Process.Signals.Delivery.{Sent}
use zurich_os.Ipc.Pipes.Transfer.{Opens, pipe_write_broken, pipe_read-pipe_write}
use zurich_os.Ipc.Pipes.Buffer

-- Queue 0 holds two messages, of types 5 and 7.
abbrev message : ℤ → Msg
message t = record no_msg { mtype = t; msize = 2 }

abbrev busy : Queue
busy = record no_queue {
  messages = message (pos 5) ∷ message (pos 7) ∷ replicate 30 no_msg;
  tail = 2;
  count = 2;
  in_use = true;
}

abbrev queues : Table
queues = busy ∷ replicate 15 no_queue

busy-IsOk : Order.IsOk busy
busy-IsOk = record { size = refl; head_in = omega arith; fits = omega arith; tail_at = refl }

msgq_receive-Delivered_example :
    Delivered queues 0 64 (pos 7) (msgq_receive queues (pos 0) 64 (pos 7))
msgq_receive-Delivered_example =
    msgq_receive-Delivered queues 0 64 (pos 7) refl (omega arith) busy-IsOk refl (omega arith)

fill-Filled_example : Filled zero_pipe (72 ∷ 105 ∷ []) (fill zero_pipe (72 ∷ 105 ∷ []))
fill-Filled_example = fill-Filled zero_pipe (72 ∷ 105 ∷ []) zero_pipe-IsOk

filled_IsOk : Buffer.IsOk (fill zero_pipe (72 ∷ 105 ∷ [])).1
filled_IsOk = (fill-Filled zero_pipe (72 ∷ 105 ∷ []) zero_pipe-IsOk).ok

drain-Drained_example :
    Drained (fill zero_pipe (72 ∷ 105 ∷ [])).1 1 (drain (fill zero_pipe (72 ∷ 105 ∷ [])).1 1)
drain-Drained_example = drain-Drained (fill zero_pipe (72 ∷ 105 ∷ [])).1 1 filled_IsOk

-- A process whose descriptor 3 reads from pipe 0 and whose descriptor 4 writes to it; the pipe has `n` readers.
abbrev end_of : ℕ → FdEntry
end_of flags = record no_fd { flags = flags; in_use = true; pipe_id = pos 0 }

abbrev piper : Process
piper = record no_process {
  pid = 2;
  state = running;
  fd_table = no_fd ∷ no_fd ∷ no_fd ∷ end_of 0 ∷ end_of 1 ∷ [];
}

abbrev pipe : ℕ → Pipe
pipe n = record zero_pipe { in_use = true; readers = n; writers = 1; read_fd = 3; write_fd = 4 }

abbrev world : ℕ → Ipc
world n = record {
  kernel = record { table = piper ∷ []; next_pid = 3; current_pid = 2 };
  pipes = pipe n ∷ replicate 31 zero_pipe;
}

pipe-IsOk : Buffer.IsOk (pipe 1)
pipe-IsOk = record {
  size = zero_pipe-IsOk.size;
  read_in = zero_pipe-IsOk.read_in;
  fits = zero_pipe-IsOk.fits;
  write_at = zero_pipe-IsOk.write_at;
}

current : (n : ℕ) → process_current (world n).kernel ≡ some 0
unfolding process_current
current n = refl

reads_from : (n : ℕ) → Opens (world n) (pos 3) 0 0
unfolding open_end
reads_from n = record {
  place = record { proc = 0; fd = 3 };
  opened = ap (λ o. open_fd (world n) o (some 3)) (current n);
  leads = refl;
  side = refl;
  live = refl;
}

writes_to : (n : ℕ) → Opens (world n) (pos 4) 1 0
unfolding open_end
writes_to n = record {
  place = record { proc = 0; fd = 4 };
  opened = ap (λ o. open_fd (world n) o (some 4)) (current n);
  leads = refl;
  side = refl;
  live = refl;
}

pipe_read-pipe_write_example :
    (pipe_read (pipe_write (world 1) (pos 4) (72 ∷ 105 ∷ [])).0 (pos 3) pipe_buf_size).bytes
    ≡ Buffer.contents (pipe_at (world 1) 0)
      ++ take (pipe_buf_size - (pipe_at (world 1) 0).count) (72 ∷ 105 ∷ [])
pipe_read-pipe_write_example =
    pipe_read-pipe_write (world 1) (pos 4) (pos 3) (72 ∷ 105 ∷ []) 0 (writes_to 1) (reads_from 1)
      (omega arith) (λ e. absurd (omega arith)) pipe-IsOk

writer_found : process_get (world 0).kernel 2 ≡ some 0
unfolding process_get
writer_found = refl

pipe_write_broken_example :
    let t = pipe_write (world 0) (pos 4) (72 ∷ []) in
    (t.1 ≡ neg 32) × (t.0.pipes ≡ (world 0).pipes) × Sent (world 0).kernel t.0.kernel 0 13
unfolding writes_to
pipe_write_broken_example =
    pipe_write_broken (world 0) (pos 4) (72 ∷ []) 0 (writes_to 0) refl writer_found (omega arith)

-- The processes that the kernel starts with, and no pipe.
abbrev booted : Ipc
booted = record { kernel = process_init; pipes = replicate 32 zero_pipe }

booted_fds :
    (i : ℕ)
    → process_current booted.kernel ≡ some i
    → length (proc_at booted.kernel.table i).fd_table ≡ max_fds
unfolding process_current process_init
booted_fds zero e = absurd (ground arith)
booted_fds (suc zero) e = refl
booted_fds (suc (suc i)) e = absurd (ground arith)

pipe_create-CreateOutcome_example : CreateOutcome booted (pipe_create booted)
pipe_create-CreateOutcome_example = pipe_create-CreateOutcome booted refl booted_fds
