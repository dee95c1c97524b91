-- ===== src/Process/Calls.antt =====
-- The calls of kernel/process/process.c that change the table: kill, fork, wait, signal, exit and groups.
use zurich_os.Base.{
  ℕ, zero, suc, ◌-◌, ◌^◌, Bool, not, ◌&&◌, List, [], ◌∷◌, leb, ◌==◌, if◌then◌else◌, bit_or, ℤ, pos,
  negsuc, neg, Option, none, some, find_index?,
}
use zurich_os.Process.{
  is_unused, is_zombie, is_stopped, Process, Kernel, nsig, sigchld, sigcont, proc_at, update,
  process_get, process_current, fresh_process, process_create, unused, ready, zombie,
}

abbrev pub kill_at : Kernel → Option ℕ → Kernel × ℤ
kill_at k none = (k, neg 3)
kill_at k (some i) = (update k i (record (proc_at k.table i) { state = unused }), pos 0)

unfoldable pub process_kill : Kernel → ℕ → Kernel × ℤ
process_kill k pid =
    if pid == 0
    then (k, neg 1)
    else (if pid == 1 then (k, neg 2) else kill_at k (process_get k pid))

-- The rest of `process_fork`, with the parent's index and the child's.
abbrev pub fork_into : Kernel → ℕ → ℕ → Option ℕ → Kernel × ℤ
fork_into k parent child_pid none = (k, neg 1)
fork_into k parent child_pid (some child) =
    let p = proc_at k.table parent in
    (
      update k child (record (proc_at k.table child) {
        pgid = p.pgid;
        fd_table = p.fd_table;
        blocked_signals = p.blocked_signals;
        signal_handlers = p.signal_handlers;
      }),
      pos child_pid,
    )

abbrev pub fork_from : Kernel → ℕ → Option ℕ → Kernel × ℤ
fork_from k now none = (k, neg 1)
fork_from k now (some parent) =
    let (k', child_pid) = process_create k (proc_at k.table parent).pid now in
    if child_pid == 0
    then (k', neg 11)
    else fork_into k' parent child_pid (process_get k' child_pid)

unfoldable pub process_fork : Kernel → ℕ → Kernel × ℤ
unfolding process_create fresh_process
process_fork k now = fork_from k now (process_current k)

-- The children that `process_waitpid` may reap.
abbrev pub reapable : ℕ → ℤ → Process → Bool
reapable parent (pos (suc pid)) p = is_zombie p.state && p.ppid == parent && p.pid == suc pid
reapable parent (pos zero) p = is_zombie p.state && p.ppid == parent
reapable parent (negsuc n) p = is_zombie p.state && p.ppid == parent

-- The new state, the result, and what is written through `status`.
pub record Waited : Type 0 where
  pub kernel : Kernel
  pub result : ℤ
  pub status : Option ℤ

abbrev pub reap : Kernel → Option ℕ → Waited
reap k none = record { kernel = k; result = neg 10; status = none }
reap k (some i) =
    let child = proc_at k.table i in
    record {
      kernel = update k i (record child { state = unused });
      result = pos child.pid;
      status = some child.exit_code;
    }

abbrev pub wait_as : Kernel → ℤ → Option ℕ → Waited
wait_as k pid none = record { kernel = k; result = neg 1; status = none }
wait_as k pid (some i) = reap k (find_index? (reapable (proc_at k.table i).pid pid) k.table)

unfoldable pub process_waitpid : Kernel → ℤ → Waited
process_waitpid k pid = wait_as k pid (process_current k)

-- `process_reparent_children`
unfoldable pub reparent : ℕ → List Process → List Process
reparent parent [] = []
reparent parent (p ∷ ps) =
    (if not (is_unused p.state) && p.ppid == parent then record p { ppid = 1 } else p)
    ∷ reparent parent ps

-- Signal `sig` made pending at a process; SIGCONT wakes one that is stopped.
unfoldable pub raise : Process → ℕ → Process
raise p sig =
    let q = record p { pending_signals = bit_or p.pending_signals (2 ^ (sig - 1)) } in
    if sig == sigcont && is_stopped p.state then record q { state = ready } else q

abbrev pub raise_at : Kernel → ℕ → Option ℕ → Kernel × ℤ
raise_at k sig none = (k, neg 3)
raise_at k sig (some i) = (update k i (raise (proc_at k.table i) sig), pos 0)

abbrev pub probe : Option ℕ → ℤ
probe none = neg 3
probe (some i) = pos 0

-- `process_signal`, which `signal_send` repeats
unfoldable pub process_signal : Kernel → ℕ → ℤ → Kernel × ℤ
unfolding raise
process_signal k pid (negsuc n) = (k, neg 22)
process_signal k pid (pos sig) =
    if leb nsig sig
    then (k, neg 22)
    else (if sig == 0 then (k, probe (process_get k pid)) else raise_at k sig (process_get k pid))

abbrev pub exit_at : Kernel → ℤ → Option ℕ → Kernel
exit_at k status none = k
exit_at k status (some i) =
    let p = proc_at k.table i in
    let k1 = update k i (record p { exit_code = status }) in
    let k2 = record k1 { table = reparent p.pid k1.table } in
    let k3 = (process_signal k2 (proc_at k2.table i).ppid (pos sigchld)).0 in
    let done = update k3 i (record (proc_at k3.table i) { state = zombie }) in
    if leb p.pid 1 then k else done

unfoldable pub process_exit : Kernel → ℤ → Kernel
unfolding reparent
process_exit k status = exit_at k status (process_current k)

-- The process that `pid` names, 0 being the current one.
abbrev pub target : Kernel → ℕ → Option ℕ
target k pid = if pid == 0 then process_current k else process_get k pid

abbrev pub setpgid_at : Kernel → ℕ → Option ℕ → Kernel × ℤ
setpgid_at k pgid none = (k, neg 3)
setpgid_at k pgid (some i) =
    let p = proc_at k.table i in
    (update k i (record p { pgid = if pgid == 0 then p.pid else pgid }), pos 0)

unfoldable pub process_setpgid : Kernel → ℕ → ℕ → Kernel × ℤ
process_setpgid k pid pgid = setpgid_at k pgid (target k pid)

abbrev pub getpgid_at : Kernel → Option ℕ → ℤ
getpgid_at k none = neg 3
getpgid_at k (some i) = pos (proc_at k.table i).pgid

unfoldable pub process_getpgid : Kernel → ℕ → ℤ
process_getpgid k pid = getpgid_at k (target k pid)
