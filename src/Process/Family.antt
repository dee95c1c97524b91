-- ===== src/Process/Family.antt =====
-- Parents and children: what an exit leaves behind.
use zurich_os.Base.{
  ℕ, zero, suc, ◌<◌, ◌≡◌, ◌≢◌, refl, ap, sym, ◌∙◌, true, false, List, [], ◌∷◌, leb, ◌==◌, if_holds,
  set, get_or-set_self, get_or-set_ne, get_or-set_cases, length, length-set, Option, none, some, ℤ,
  pos, arith,
}
use zurich_os.Process.{
  zombie, Process, Kernel, no_process, proc_at, process_get, process_current, update, sigchld,
}
use zurich_os.Process.Calls.{reparent, raise, raise_at, process_signal, process_exit}
use zurich_os.Process.Pids.{is_live}

length-reparent : (parent : ℕ) (ps : List Process) → length (reparent parent ps) ≡ length ps
unfolding reparent
length-reparent parent [] = refl
length-reparent parent (p ∷ ps) = ap suc (length-reparent parent ps)

-- No live process has the parent `pid`.
abbrev pub NoChildren : ℕ → List Process → Type 0
NoChildren pid ps = (i : ℕ) → is_live (proc_at ps i) ≡ true → (proc_at ps i).ppid ≢ pid

reparent-NoChildren :
    (parent : ℕ) (ps : List Process) → parent ≢ 1 → NoChildren parent (reparent parent ps)
unfolding reparent
reparent-NoChildren parent [] ne i live = absurd (ground arith)
reparent-NoChildren parent (p ∷ ps) ne zero live = ground arith
reparent-NoChildren parent (p ∷ ps) ne (suc i) live = reparent-NoChildren parent ps ne i live

-- An entry keeps all but its parent.
reparent_keeps :
    (parent : ℕ) (ps : List Process) (i : ℕ)
    → let q = proc_at (reparent parent ps) i in
      let p = proc_at ps i in (q.pid ≡ p.pid) × (q.state ≡ p.state) × (q.exit_code ≡ p.exit_code)
unfolding reparent
reparent_keeps parent [] i = (refl, refl, refl)
reparent_keeps parent (p ∷ ps) zero = ground arith
reparent_keeps parent (p ∷ ps) (suc i) = reparent_keeps parent ps i

-- A signal changes neither the parent nor the pid nor the exit code of any process, and none to or from
-- unused.
record SameFamily (ps qs : List Process) : Type 0 where
  length_same : length qs ≡ length ps
  ppid_same : (i : ℕ) → (proc_at qs i).ppid ≡ (proc_at ps i).ppid
  pid_same : (i : ℕ) → (proc_at qs i).pid ≡ (proc_at ps i).pid
  code_same : (i : ℕ) → (proc_at qs i).exit_code ≡ (proc_at ps i).exit_code
  live_same : (i : ℕ) → is_live (proc_at qs i) ≡ is_live (proc_at ps i)

same_refl : (ps : List Process) → SameFamily ps ps
same_refl ps = record {
  length_same = refl;
  ppid_same = λ i. refl;
  pid_same = λ i. refl;
  code_same = λ i. refl;
  live_same = λ i. refl;
}

raise_same :
    (p : Process) (sig : ℕ)
    → let q = raise p sig in
      (q.ppid ≡ p.ppid) × (q.pid ≡ p.pid) × (q.exit_code ≡ p.exit_code) × (is_live q ≡ is_live p)
unfolding raise
raise_same p sig = ground arith

set_same :
    (ps : List Process) (i : ℕ) (q : Process)
    → (q.ppid ≡ (proc_at ps i).ppid)
      × (q.pid ≡ (proc_at ps i).pid)
      × (q.exit_code ≡ (proc_at ps i).exit_code)
      × (is_live q ≡ is_live (proc_at ps i))
    → SameFamily ps (set ps i q)
set_same ps i q h = record {
  length_same = length-set ps i q;
  ppid_same = λ j.
      get_or-set_cases (λ p. p.ppid ≡ (proc_at ps j).ppid) ps i j q no_process (λ e. rw (← e) h.0)
        refl;
  pid_same = λ j.
      get_or-set_cases (λ p. p.pid ≡ (proc_at ps j).pid) ps i j q no_process (λ e. rw (← e) h.1)
        refl;
  code_same = λ j.
      get_or-set_cases (λ p. p.exit_code ≡ (proc_at ps j).exit_code) ps i j q no_process
        (λ e. rw (← e) h.2) refl;
  live_same = λ j.
      get_or-set_cases (λ p. is_live p ≡ is_live (proc_at ps j)) ps i j q no_process
        (λ e. rw (← e) h.3) refl;
}

raise_at-same :
    (k : Kernel) (sig : ℕ) (o : Option ℕ) → SameFamily k.table (raise_at k sig o).0.table
raise_at-same k sig none = same_refl k.table
raise_at-same k sig (some i) =
    set_same k.table i (raise (proc_at k.table i) sig) (raise_same (proc_at k.table i) sig)

signal-same :
    (k : Kernel) (pid : ℕ) (sig : ℤ) → SameFamily k.table (process_signal k pid sig).0.table
unfolding process_signal
signal-same k pid (ℤ.negsuc n) = same_refl k.table
signal-same k pid (pos sig) =
    if_holds (λ (r : Kernel × ℤ). SameFamily k.table r.0.table) (leb 32 sig) (same_refl k.table)
      (if_holds (λ (r : Kernel × ℤ). SameFamily k.table r.0.table) (sig == 0) (same_refl k.table)
        (raise_at-same k sig (process_get k pid)))

-- What the exit of the process at `i` leaves: a zombie with the exit code, and no child of its own.
pub record Exited (k k' : Kernel) (i : ℕ) (status : ℤ) : Type 0 where
  pub dead : (proc_at k'.table i).state ≡ zombie
  pub code : (proc_at k'.table i).exit_code ≡ status
  pub same_pid : (proc_at k'.table i).pid ≡ (proc_at k.table i).pid
  pub orphans :
      (j : ℕ)
      → j ≢ i
      → is_live (proc_at k'.table j) ≡ true
      → (proc_at k'.table j).ppid ≢ (proc_at k.table i).pid
  pub rest : (j : ℕ) → j ≢ i → (proc_at k'.table j).pid ≡ (proc_at k.table j).pid

module _ (k : Kernel) (status : ℤ) (i : ℕ) (lt : i < length k.table)
    (big : 1 < (proc_at k.table i).pid) where
  abbrev pid : ℕ
  pid = (proc_at k.table i).pid

  abbrev k1 : Kernel
  k1 = update k i (record (proc_at k.table i) { exit_code = status })

  abbrev k2 : Kernel
  k2 = record k1 { table = reparent pid k1.table }

  abbrev k3 : Kernel
  k3 = (process_signal k2 (proc_at k2.table i).ppid (pos sigchld)).0

  abbrev corpse : Process
  corpse = record (proc_at k3.table i) { state = zombie }

  told : SameFamily k2.table k3.table
  told = signal-same k2 (proc_at k2.table i).ppid (pos sigchld)

  at_k1 : proc_at k1.table i ≡ record (proc_at k.table i) { exit_code = status }
  at_k1 =
      get_or-set_self k.table i (record (proc_at k.table i) { exit_code = status }) no_process lt

  at_end : proc_at (set k3.table i corpse) i ≡ corpse
  at_end = get_or-set_self k3.table i corpse no_process (
      omega (
        arith,
        told.length_same,
        length-reparent pid k1.table,
        length-set k.table i (record (proc_at k.table i) { exit_code = status }),
      ))

  other_at_end : (j : ℕ) → j ≢ i → proc_at (set k3.table i corpse) j ≡ proc_at k3.table j
  other_at_end j ne = get_or-set_ne k3.table i j corpse no_process (λ e. ne (sym e))

  exit_Exited : Exited k (update k3 i corpse) i status
  exit_Exited = record {
    dead = ap (λ (p : Process). p.state) at_end;
    code =
        ap (λ (p : Process). p.exit_code) at_end
        ∙ told.code_same i
        ∙ (reparent_keeps pid k1.table i).2
        ∙ ap (λ (p : Process). p.exit_code) at_k1;
    same_pid =
        ap (λ (p : Process). p.pid) at_end
        ∙ told.pid_same i
        ∙ (reparent_keeps pid k1.table i).0
        ∙ ap (λ (p : Process). p.pid) at_k1;
    orphans = λ j ne live e.
        reparent-NoChildren pid k1.table (omega arith) j
          (sym (told.live_same j) ∙ sym (ap is_live (other_at_end j ne)) ∙ live)
          (sym (told.ppid_same j) ∙ sym (ap (λ (p : Process). p.ppid) (other_at_end j ne)) ∙ e);
    rest = λ j ne.
        ap (λ (p : Process). p.pid) (other_at_end j ne)
        ∙ told.pid_same j
        ∙ (reparent_keeps pid k1.table j).0
        ∙ ap (λ (p : Process). p.pid)
            (get_or-set_ne k.table i j (record (proc_at k.table i) { exit_code = status })
              no_process (λ e. ne (sym e)));
  }

  past_one : leb pid 1 ≡ false
  past_one = ground arith

-- `process_exit` turns the current process into a zombie with the exit code, unless its pid is 0 or 1, and
-- leaves no process as its child.
pub process_exit-Exited :
    (k : Kernel) (status : ℤ) (i : ℕ)
    → process_current k ≡ some i
    → i < length k.table
    → 1 < (proc_at k.table i).pid
    → Exited k (process_exit k status) i status
unfolding process_exit
process_exit-Exited k status i cur lt big =
    rw (cur, past_one k status i lt big) (exit_Exited k status i lt big)
