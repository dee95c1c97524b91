-- ===== src/Ipc/Pipes/Calls.antt =====
-- pipe_read, pipe_write, pipe_close and pipe_is_pipe of kernel/ipc/ipc.c.
use zurich_os.Base.{
  ℕ, zero, suc, ◌+◌, ◌-◌, ◌%◌, Bool, false, not, ◌&&◌, List, [], ◌∷◌, length, ltb, ◌==◌,
  if◌then◌else◌, get_or, set, ℤ, pos, negsuc, neg, index?, Option, none, some,
}
use zurich_os.Process.{FdEntry, proc_at}
use zurich_os.Process.Calls.{process_signal}
use zurich_os.Ipc.Pipes.{
  Pipe, Ipc, max_pipes, pipe_buf_size, sigpipe, pipe_at, with_pipe, fd_at, with_fd, End, open_end,
}

-- One byte out of a pipe that holds some.
abbrev pub advance : Pipe → Pipe
advance p = record p { read_pos = (p.read_pos + 1) % pipe_buf_size; count = p.count - 1 }

-- The loop of `pipe_read`: `n` bytes are still wanted. It gives the bytes read.
unfoldable pub drain : Pipe → ℕ → List ℕ × Pipe
drain p zero = ([], p)
drain p (suc n) =
    let rest = drain (advance p) n in
    if ltb 0 p.count then (get_or p.buffer p.read_pos 0 ∷ rest.0, rest.1) else ([], p)

-- One byte into a pipe that has room.
abbrev pub put : Pipe → ℕ → Pipe
put p b = record p {
  buffer = set p.buffer p.write_pos b;
  write_pos = (p.write_pos + 1) % pipe_buf_size;
  count = p.count + 1;
}

-- The loop of `pipe_write` over the bytes that are left. It gives the number written.
unfoldable pub fill : Pipe → List ℕ → ℕ × Pipe
fill p [] = (0, p)
fill p (b ∷ bs) =
    let rest = fill (put p b) bs in
    if ltb p.count pipe_buf_size then (rest.0 + 1, rest.1) else (0, p)

-- The new state, the result, and the bytes written to the caller's buffer.
pub record Read : Type 0 where
  pub state : Ipc
  pub result : ℤ
  pub bytes : List ℕ

abbrev pub no_read : Ipc → Read
no_read s = record { state = s; result = neg 9; bytes = [] }

abbrev pub read_pipe : Ipc → FdEntry → ℕ → Option ℕ → Read
read_pipe s e count none = no_read s
read_pipe s e count (some id) =
    let r = drain (pipe_at s id) count in
    if not (pipe_at s id).in_use
    then no_read s
    else (if e.flags == 0
        then record { state = with_pipe s id r.1; result = pos (length r.0); bytes = r.0 }
        else no_read s)

abbrev pub read_end : Ipc → ℕ → Option End → Read
read_end s count none = no_read s
read_end s count (some e) =
    let entry = fd_at s e.proc e.fd in read_pipe s entry count (index? max_pipes entry.pipe_id)

unfoldable pub pipe_read : Ipc → ℤ → ℕ → Read
pipe_read s fd count = read_end s count (open_end s fd)

abbrev pub write_pipe : Ipc → ℕ → FdEntry → List ℕ → Option ℕ → Ipc × ℤ
write_pipe s i e bytes none = (s, neg 9)
write_pipe s i e bytes (some id) =
    let p = pipe_at s id in
    let r = fill p bytes in
    let killed = process_signal s.kernel (proc_at s.kernel.table i).pid (pos sigpipe) in
    if not p.in_use
    then (s, neg 9)
    else (if e.flags == 1
        then (if p.readers == 0
            then (record s { kernel = killed.0 }, neg 32)
            else (with_pipe s id r.1, pos r.0))
        else (s, neg 9))

abbrev pub write_end : Ipc → List ℕ → Option End → Ipc × ℤ
write_end s bytes none = (s, neg 9)
write_end s bytes (some e) =
    let entry = fd_at s e.proc e.fd in
    write_pipe s e.proc entry bytes (index? max_pipes entry.pipe_id)

-- `bytes` are the `count` bytes of the caller's buffer.
unfoldable pub pipe_write : Ipc → ℤ → List ℕ → Ipc × ℤ
pipe_write s fd bytes = write_end s bytes (open_end s fd)

-- A pipe with one end less; it goes out of use when none is left.
unfoldable pub drop_end : Pipe → ℕ → Pipe
drop_end p flags =
    let q =
      if flags == 0
      then record p { readers = p.readers - 1 }
      else record p { writers = p.writers - 1 } in
    if q.readers == 0 && q.writers == 0 then record q { in_use = false } else q

abbrev pub close_pipe : Ipc → End → FdEntry → Option ℕ → Ipc × ℤ
close_pipe s e entry none = (s, pos 0)
close_pipe s e entry (some id) =
    let s1 = with_pipe s id (drop_end (pipe_at s id) entry.flags) in
    let s2 =
      with_fd s1 e.proc e.fd
        (record (fd_at s1 e.proc e.fd) { in_use = false; pipe_id = negsuc 0 }) in
    if not (pipe_at s id).in_use then (s, pos 0) else (s2, pos 0)

abbrev pub close_end : Ipc → Option End → Ipc × ℤ
close_end s none = (s, neg 9)
close_end s (some e) =
    let entry = fd_at s e.proc e.fd in close_pipe s e entry (index? max_pipes entry.pipe_id)

unfoldable pub pipe_close : Ipc → ℤ → Ipc × ℤ
unfolding drop_end
pipe_close s fd = close_end s (open_end s fd)

abbrev pub is_pipe_at : Ipc → Option ℕ → Bool
is_pipe_at s none = false
is_pipe_at s (some id) = (pipe_at s id).in_use

abbrev pub is_pipe_end : Ipc → Option End → Bool
is_pipe_end s none = false
is_pipe_end s (some e) = is_pipe_at s (index? max_pipes (fd_at s e.proc e.fd).pipe_id)

unfoldable pub pipe_is_pipe : Ipc → ℤ → Bool
pipe_is_pipe s fd = is_pipe_end s (open_end s fd)
