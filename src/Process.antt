-- ===== src/Process.antt =====
-- kernel/process/process.c: the process table. A pointer to a process is its index in the table. The
-- registers and the name are not kept; what is printed is left out. The handler of a signal that a
-- process installed is code of that process: what it does to the kernel's state is the parameter `call`.
pub mod Calls
pub mod Pids
pub mod Family
pub mod Wait
pub mod Signals
mod Examples
use zurich_os.Base.{
  ℕ, zero, suc, ◌+◌, ◌-◌, ◌%◌, ◌^◌, Bool, true, false, not, ◌&&◌, ◌||◌, List, [], ◌∷◌, ltb, leb,
  ◌==◌, if◌then◌else◌, get_or, set, replicate, bit_and, bit_or, ℤ, pos, negsuc, neg, Option, none,
  some, find_index?,
}
use zurich_os.Base.Bits.{bit_not}

pub data State : Type 0 where
  unused running ready blocked zombie stopped : State

abbrev pub is_unused : State → Bool
is_unused unused = true
is_unused _ = false

abbrev pub is_zombie : State → Bool
is_zombie zombie = true
is_zombie _ = false

abbrev pub is_stopped : State → Bool
is_stopped stopped = true
is_stopped _ = false

-- `node` is an address, 0 for NULL.
pub record FdEntry : Type 0 where
  pub node : ℕ
  pub offset : ℕ
  pub flags : ℕ
  pub in_use : Bool
  pub pipe_id : ℤ

-- A handler is an address: 0 is SIG_DFL and 1 is SIG_IGN.
pub record Process : Type 0 where
  pub pid : ℕ
  pub ppid : ℕ
  pub pgid : ℕ
  pub state : State
  pub start_time : ℕ
  pub cpu_time : ℕ
  pub priority : ℕ
  pub exit_code : ℤ
  pub pending_signals : ℕ
  pub blocked_signals : ℕ
  pub signal_handlers : List ℕ
  pub waiting_for_pid : ℕ
  pub fd_table : List FdEntry

-- The static variables.
pub record Kernel : Type 0 where
  pub table : List Process
  pub next_pid : ℕ
  pub current_pid : ℕ

abbrev pub max_processes : ℕ
max_processes = 64

abbrev pub max_fds : ℕ
max_fds = 32

abbrev pub nsig : ℕ
nsig = 32

abbrev pub sigkill : ℕ
sigkill = 9

abbrev pub sigchld : ℕ
sigchld = 17

abbrev pub sigcont : ℕ
sigcont = 18

abbrev pub sigstop : ℕ
sigstop = 19

abbrev pub sigtstp : ℕ
sigtstp = 20

abbrev pub sigttin : ℕ
sigttin = 21

abbrev pub sigttou : ℕ
sigttou = 22

abbrev pub sigurg : ℕ
sigurg = 23

abbrev pub sigwinch : ℕ
sigwinch = 28

abbrev pub no_fd : FdEntry
no_fd = record { node = 0; offset = 0; flags = 0; in_use = false; pipe_id = negsuc 0 }

-- `init_process_fd_table`: descriptors 0, 1 and 2 are in use.
abbrev pub std_fd : FdEntry
std_fd = record no_fd { in_use = true }

unfoldable pub init_fd_table : List FdEntry
init_fd_table = set (set (set (replicate max_fds no_fd) 0 std_fd) 1 std_fd) 2 std_fd

abbrev pub default_handlers : List ℕ
default_handlers = replicate nsig 0

abbrev pub no_process : Process
no_process = record {
  pid = 0;
  ppid = 0;
  pgid = 0;
  state = unused;
  start_time = 0;
  cpu_time = 0;
  priority = 0;
  exit_code = pos 0;
  pending_signals = 0;
  blocked_signals = 0;
  signal_handlers = replicate nsig 0;
  waiting_for_pid = 0;
  fd_table = [];
}

abbrev pub proc_at : List Process → ℕ → Process
proc_at t i = get_or t i no_process

-- A process whose fields are set anew at `slot`.
abbrev pub update : Kernel → ℕ → Process → Kernel
update k slot p = record k { table = set k.table slot p }

unfoldable pub process_init : Kernel
unfolding init_fd_table
process_init =
    let kernel : Process = record no_process { state = running; fd_table = init_fd_table } in
    let shell : Process = record no_process {
      pid = 1;
      pgid = 1;
      state = running;
      priority = 1;
      fd_table = init_fd_table;
    } in
    record {
      table = set (set (replicate max_processes no_process) 0 kernel) 1 shell;
      next_pid = 2;
      current_pid = 1;
    }

abbrev pub lives_as : ℕ → Process → Bool
lives_as pid p = not (is_unused p.state) && p.pid == pid

unfoldable pub process_get : Kernel → ℕ → Option ℕ
process_get k pid = find_index? (lives_as pid) k.table

unfoldable pub process_current : Kernel → Option ℕ
unfolding process_get
process_current k = process_get k k.current_pid

unfoldable pub process_set_current : Kernel → ℕ → Kernel
process_set_current k pid = record k { current_pid = pid }

abbrev pub count_live : List Process → ℕ
count_live [] = 0
count_live (p ∷ ps) = (if is_unused p.state then 0 else 1) + count_live ps

unfoldable pub process_count : Kernel → ℕ
process_count k = count_live k.table

-- A process that takes a slot over. The slot's `exit_code` and `waiting_for_pid` are cleared too; `now`
-- is the tick count. `next_pid++` wraps.
unfoldable pub fresh_process : Process → ℕ → ℕ → ℕ → Process
unfolding init_fd_table
fresh_process old pid ppid now = record old {
  pid = pid;
  ppid = ppid;
  pgid = pid;
  state = ready;
  start_time = now;
  cpu_time = 0;
  priority = 10;
  exit_code = pos 0;
  waiting_for_pid = 0;
  fd_table = init_fd_table;
  pending_signals = 0;
  blocked_signals = 0;
  signal_handlers = default_handlers;
}

abbrev pub slot_unused : Process → Bool
slot_unused p = is_unused p.state

abbrev pub create_at : Kernel → ℕ → ℕ → Option ℕ → Kernel × ℕ
create_at k ppid now none = (k, 0)
create_at k ppid now (some slot) = (
  record k {
    table = set k.table slot (fresh_process (proc_at k.table slot) k.next_pid ppid now);
    next_pid = (k.next_pid + 1) % 2 ^ 32;
  },
  k.next_pid,
)

unfoldable pub process_create : Kernel → ℕ → ℕ → Kernel × ℕ
process_create k ppid now = create_at k ppid now (find_index? slot_unused k.table)
