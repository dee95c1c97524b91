-- ===== src/Ipc/Pipes.antt =====
-- kernel/ipc/ipc.c, the pipes. A pipe is a circular buffer of 4096 bytes; its ends are entries of the
-- current process's descriptor table. What is printed is left out.
pub mod Calls
pub mod Buffer
pub mod Transfer
pub mod Pick
pub mod Create
use zurich_os.Base.{
  ℕ, zero, suc, ◌+◌, ◌-◌, ◌%◌, Bool, true, false, not, ◌&&◌, ◌||◌, List, [], ◌∷◌, length, ltb, leb,
  ◌==◌, if◌then◌else◌, get_or, set, take, replicate, ℤ, pos, negsuc, neg, index?, Option, none,
  some, find_index?,
}
use zurich_os.Base.Ring.{at}
use zurich_os.Process.{FdEntry, Process, Kernel, max_fds, no_fd, proc_at, update, process_current}
use zurich_os.Process.Calls.{process_signal}

pub record Pipe : Type 0 where
  pub buffer : List ℕ
  pub read_pos : ℕ
  pub write_pos : ℕ
  pub count : ℕ
  pub readers : ℕ
  pub writers : ℕ
  pub read_fd : ℕ
  pub write_fd : ℕ
  pub in_use : Bool

-- The static array `pipes`, beside the process table.
pub record Ipc : Type 0 where
  pub kernel : Kernel
  pub pipes : List Pipe

abbrev pub max_pipes : ℕ
max_pipes = 32

abbrev pub pipe_buf_size : ℕ
pipe_buf_size = 4096

abbrev pub sigpipe : ℕ
sigpipe = 13

-- `memset(p, 0, sizeof(pipe_t))`
unfoldable pub zero_pipe : Pipe
zero_pipe = record {
  buffer = replicate pipe_buf_size 0;
  read_pos = 0;
  write_pos = 0;
  count = 0;
  readers = 0;
  writers = 0;
  read_fd = 0;
  write_fd = 0;
  in_use = false;
}

abbrev pub pipe_at : Ipc → ℕ → Pipe
pipe_at s i = get_or s.pipes i zero_pipe

abbrev pub with_pipe : Ipc → ℕ → Pipe → Ipc
with_pipe s i p = record s { pipes = set s.pipes i p }

abbrev pub fd_at : Ipc → ℕ → ℕ → FdEntry
fd_at s i fd = get_or (proc_at s.kernel.table i).fd_table fd no_fd

abbrev pub with_fd : Ipc → ℕ → ℕ → FdEntry → Ipc
with_fd s i fd e =
    let p = proc_at s.kernel.table i in
    record s { kernel = update s.kernel i (record p { fd_table = set p.fd_table fd e }) }

-- An open descriptor of the current process: the process's index and the descriptor's.
pub record End : Type 0 where
  pub proc : ℕ
  pub fd : ℕ

abbrev pub open_fd : Ipc → Option ℕ → Option ℕ → Option End
open_fd s none fd = none
open_fd s (some i) none = none
open_fd s (some i) (some fd) =
    if (fd_at s i fd).in_use then some (record { proc = i; fd = fd }) else none

-- The tests that open each function: a process, a descriptor in range, and in use.
unfoldable pub open_end : Ipc → ℤ → Option End
open_end s fd = open_fd s (process_current s.kernel) (index? max_fds fd)

abbrev pub pipe_free : Pipe → Bool
pipe_free p = not p.in_use

-- `for (i = 3; i < MAX_FDS_PER_PROC && (read_fd < 0 || write_fd < 0); i++)`: `n` rounds are left.
unfoldable pub pick_fds : List FdEntry → ℕ → ℕ → Option ℕ → Option ℕ → Option ℕ × Option ℕ
pick_fds fds zero i r w = (r, w)
pick_fds fds (suc n) i none w =
    pick_fds fds n (i + 1) (if (get_or fds i no_fd).in_use then none else some i) w
pick_fds fds (suc n) i (some r) none =
    pick_fds fds n (i + 1) (some r) (if (get_or fds i no_fd).in_use then none else some i)
pick_fds fds (suc n) i (some r) (some w) = (some r, some w)

-- The new state, the result, and `pipefd`.
pub record Made : Type 0 where
  pub state : Ipc
  pub result : ℤ
  pub pipefd : Option (ℕ × ℕ)

abbrev pub failed : Ipc → ℤ → Made
failed s e = record { state = s; result = e; pipefd = none }

abbrev pub connect : Ipc → ℕ → ℕ → Option ℕ × Option ℕ → Made
connect s id i (none, w) = failed s (neg 24)
connect s id i (some r, none) = failed s (neg 24)
connect s id i (some r, some w) =
    let p = record zero_pipe {
      in_use = true;
      readers = 1;
      writers = 1;
      read_fd = r;
      write_fd = w;
    } in
    let s1 = with_pipe s id p in
    let s2 =
      with_fd s1 i r
        (record (fd_at s1 i r) { in_use = true; pipe_id = pos id; flags = 0; node = 0 }) in
    let s3 =
      with_fd s2 i w
        (record (fd_at s2 i w) { in_use = true; pipe_id = pos id; flags = 1; node = 0 }) in
    record { state = s3; result = pos 0; pipefd = some (r, w) }

abbrev pub make : Ipc → Option ℕ → Option ℕ → Made
make s none i = failed s (neg 24)
make s (some id) none = failed s (neg 1)
make s (some id) (some i) =
    connect s id i (pick_fds (proc_at s.kernel.table i).fd_table (max_fds - 3) 3 none none)

unfoldable pub pipe_create : Ipc → Made
unfolding pick_fds
pipe_create s = make s (find_index? pipe_free s.pipes) (process_current s.kernel)
