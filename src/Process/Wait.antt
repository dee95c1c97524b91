-- ===== src/Process/Wait.antt =====
-- `process_waitpid`: which child a wait takes up.
use zurich_os.Base.{
  ℕ, zero, suc, ◌<◌, ◌≡◌, ◌≢◌, refl, ap, sym, true, false, get_or-set_self, get_or-set_ne, length,
  Option, none, some, find_index?, Found, find_index?-Found, find_index?-none, ℤ, pos, negsuc, neg,
  arith,
}
use zurich_os.Process.{
  State, unused, running, ready, blocked, zombie, stopped, is_zombie, Process, Kernel, no_process,
  proc_at, process_current,
}
use zurich_os.Process.Calls.{reapable, reap, Waited, process_waitpid}
use zurich_os.Process.Pids.{is_live}

-- A zombie child of `parent_pid`, with the pid that a wait names if it names one.
pub record ZombieChild (parent_pid : ℕ) (pid : ℤ) (p : Process) : Type 0 where
  pub dead : p.state ≡ zombie
  pub of_parent : p.ppid ≡ parent_pid
  pub named : (n : ℕ) → pid ≡ pos (suc n) → p.pid ≡ suc n

is_zombie_lem : (s : State) → is_zombie s ≡ true → s ≡ zombie
is_zombie_lem zombie h = refl
is_zombie_lem unused h = absurd (ground arith)
is_zombie_lem running h = absurd (ground arith)
is_zombie_lem ready h = absurd (ground arith)
is_zombie_lem blocked h = absurd (ground arith)
is_zombie_lem stopped h = absurd (ground arith)

reapable_sound :
    (parent_pid : ℕ) (pid : ℤ) (p : Process)
    → reapable parent_pid pid p ≡ true
    → ZombieChild parent_pid pid p
reapable_sound parent_pid (pos (suc m)) p h = record {
  dead = is_zombie_lem p.state (ground arith);
  of_parent = ground arith;
  named = λ n e. ground arith;
}
reapable_sound parent_pid (pos zero) p h = record {
  dead = is_zombie_lem p.state (ground arith);
  of_parent = ground arith;
  named = λ n e. absurd (ground arith);
}
reapable_sound parent_pid (negsuc m) p h = record {
  dead = is_zombie_lem p.state (ground arith);
  of_parent = ground arith;
  named = λ n e. absurd (ground arith);
}

reapable_complete :
    (parent_pid : ℕ) (pid : ℤ) (p : Process)
    → ZombieChild parent_pid pid p
    → reapable parent_pid pid p ≡ true
reapable_complete parent_pid (pos (suc m)) p z =
    ground (arith, z.of_parent, z.named m refl, ap is_zombie z.dead)
reapable_complete parent_pid (pos zero) p z = ground (arith, z.of_parent, ap is_zombie z.dead)
reapable_complete parent_pid (negsuc m) p z = ground (arith, z.of_parent, ap is_zombie z.dead)

-- A wait that reaps: the entry was a zombie and a child of the caller, under the pid asked for if one was;
-- its pid and exit code are returned, its slot is unused, and no other entry changes.
pub record Reaped (k : Kernel) (parent : ℕ) (pid : ℤ) (w : Waited) (i : ℕ) : Type 0 where
  pub zombie_child : ZombieChild (proc_at k.table parent).pid pid (proc_at k.table i)
  pub first : (j : ℕ) → j < i → ¬ ZombieChild (proc_at k.table parent).pid pid (proc_at k.table j)
  pub result : w.result ≡ pos (proc_at k.table i).pid
  pub status : w.status ≡ some (proc_at k.table i).exit_code
  pub freed : is_live (proc_at w.kernel.table i) ≡ false
  pub others : (j : ℕ) → j ≢ i → proc_at w.kernel.table j ≡ proc_at k.table j

-- What `process_waitpid` may do for the caller at `parent`.
pub data Outcome (k : Kernel) (parent : ℕ) (pid : ℤ) (w : Waited) : Type 0 where
  reaped : (i : ℕ) → Reaped k parent pid w i → Outcome k parent pid w
  no_zombie :
      ((j : ℕ)
        → j < length k.table
        → ¬ ZombieChild (proc_at k.table parent).pid pid (proc_at k.table j))
      → w ≡ record { kernel = k; result = neg 10; status = none }
      → Outcome k parent pid w

not_child :
    (parent_pid : ℕ) (pid : ℤ) (p : Process)
    → reapable parent_pid pid p ≡ false
    → ¬ ZombieChild parent_pid pid p
not_child parent_pid pid p refused z = absurd (ground (arith, reapable_complete parent_pid pid p z))

reap-Outcome :
    (k : Kernel) (parent : ℕ) (pid : ℤ) (o : Option ℕ)
    → find_index? (reapable (proc_at k.table parent).pid pid) k.table ≡ o
    → Outcome k parent pid (reap k o)
reap-Outcome k parent pid none e =
    Outcome.no_zombie
      (λ j lt z.
        not_child (proc_at k.table parent).pid pid (proc_at k.table j)
          (find_index?-none (reapable (proc_at k.table parent).pid pid) k.table no_process j e lt)
          z)
      refl
reap-Outcome k parent pid (some i) e =
    let test = reapable (proc_at k.table parent).pid pid in
    let f : Found test k.table no_process i = find_index?-Found test k.table no_process i e in
    let gone : Process = record (proc_at k.table i) { state = unused } in
    Outcome.reaped i (record {
      zombie_child = reapable_sound (proc_at k.table parent).pid pid (proc_at k.table i) f.holds;
      first =
          λ j lt z. not_child (proc_at k.table parent).pid pid (proc_at k.table j) (f.first j lt) z;
      result = refl;
      status = refl;
      freed = ap is_live (get_or-set_self k.table i gone no_process f.within);
      others = λ j ne. get_or-set_ne k.table i j gone no_process (λ q. ne (sym q));
    })

-- `process_waitpid` reaps the first zombie child of the caller that fits the pid asked for, or, where there is
-- none, answers -10 and changes nothing.
pub process_waitpid-Outcome :
    (k : Kernel) (pid : ℤ) (parent : ℕ)
    → process_current k ≡ some parent
    → Outcome k parent pid (process_waitpid k pid)
unfolding process_waitpid
process_waitpid-Outcome k pid parent cur = rw cur (
    reap-Outcome k parent pid (find_index? (reapable (proc_at k.table parent).pid pid) k.table)
      refl)
