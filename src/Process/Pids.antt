-- ===== src/Process/Pids.antt =====
-- Process ids: live processes have different ones, and a new process is found by its own.
use native.Mathlib.Decide.{ℕ_discrete}
use zurich_os.Base.{
  ℕ, ◌+◌, ◌%◌, ◌^◌, ◌<◌, ◌≡◌, ◌≢◌, refl, ap, sym, ◌∙◌, Bool, true, false, not, ◌==◌, set,
  get_or-set_self, get_or-set_ne, length, length-set, Option, none, some, find_index?, Found,
  find_index?-Found, find_index?-set_eq, find_index?-here, ==_refl, arith,
}
use zurich_os.Process.{
  is_unused, Process, Kernel, max_processes, no_process, proc_at, lives_as, process_get,
  fresh_process, slot_unused, create_at, process_create,
}

abbrev pub is_live : Process → Bool
is_live p = not (is_unused p.state)

-- The table has 64 slots, live processes have pids that were handed out before, and no two the same.
pub record IsOk (k : Kernel) : Type 0 where
  pub size : length k.table ≡ max_processes
  pub below : (i : ℕ) → is_live (proc_at k.table i) ≡ true → (proc_at k.table i).pid < k.next_pid
  pub distinct :
      (i j : ℕ)
      → is_live (proc_at k.table i) ≡ true
      → is_live (proc_at k.table j) ≡ true
      → (proc_at k.table i).pid ≡ (proc_at k.table j).pid
      → i ≡ j

-- What a process creation does: a slot that was unused now holds a process with the next pid, which is
-- found under that pid, and what is found under any other pid stays.
pub record Created (k k' : Kernel) (slot pid : ℕ) : Type 0 where
  pub was_unused : is_live (proc_at k.table slot) ≡ false
  pub given : pid ≡ k.next_pid
  pub gets : process_get k' pid ≡ some slot
  pub others : (q : ℕ) → q ≢ pid → process_get k' q ≡ process_get k q
  pub ok : IsOk k'

module _ (k : Kernel) (ppid now slot : ℕ) (h : IsOk k) (room : k.next_pid + 1 < 2 ^ 32)
    (free : find_index? slot_unused k.table ≡ some slot) where
  abbrev newcomer : Process
  newcomer = fresh_process (proc_at k.table slot) k.next_pid ppid now

  there : Found slot_unused k.table no_process slot
  there = find_index?-Found slot_unused k.table no_process slot free

  was_free : is_live (proc_at k.table slot) ≡ false
  was_free = ap not there.holds

  newcomer_at : proc_at (set k.table slot newcomer) slot ≡ newcomer
  newcomer_at = get_or-set_self k.table slot newcomer no_process there.within

  elsewhere : (j : ℕ) → j ≢ slot → proc_at (set k.table slot newcomer) j ≡ proc_at k.table j
  elsewhere j ne = get_or-set_ne k.table slot j newcomer no_process (λ e. ne (sym e))

  newcomer_lives : (q : ℕ) → lives_as q newcomer ≡ (k.next_pid == q)
  unfolding fresh_process
  newcomer_lives q = refl

  newcomer_pid : newcomer.pid ≡ k.next_pid
  unfolding fresh_process
  newcomer_pid = refl

  abbrev after : Kernel
  after = record k { table = set k.table slot newcomer; next_pid = (k.next_pid + 1) % 2 ^ 32 }

  not_yet : (j : ℕ) → lives_as k.next_pid (proc_at k.table j) ≡ false
  not_yet j = ground (arith, h.below j)

  after_gets : process_get after k.next_pid ≡ some slot
  unfolding process_get
  after_gets =
      find_index?-here (lives_as k.next_pid) (set k.table slot newcomer) slot no_process
        (omega (arith, length-set k.table slot newcomer, there.within))
        (rw (newcomer_at, newcomer_lives k.next_pid) (==_refl k.next_pid))
        (λ j lt. rw (elsewhere j (omega arith)) (not_yet j))

  after_others : (q : ℕ) → q ≢ k.next_pid → process_get after q ≡ process_get k q
  unfolding process_get
  after_others q ne =
      find_index?-set_eq (lives_as q) k.table slot newcomer no_process
        (rw (newcomer_lives q) (ground (arith, there.holds)))

  pid_here : (i : ℕ) → i ≡ slot → (proc_at after.table i).pid ≡ k.next_pid
  pid_here i e = rw (e, newcomer_at) newcomer_pid

  pid_there : (i : ℕ) → i ≢ slot → (proc_at after.table i).pid ≡ (proc_at k.table i).pid
  pid_there i ne = ap (λ (p : Process). p.pid) (elsewhere i ne)

  old_below :
      (i : ℕ)
      → i ≢ slot
      → is_live (proc_at after.table i) ≡ true
      → (proc_at k.table i).pid < k.next_pid
  old_below i ne live = h.below i (sym (ap is_live (elsewhere i ne)) ∙ live)

  pids_differ :
      (i j : ℕ)
      → Dec (i ≡ slot)
      → Dec (j ≡ slot)
      → is_live (proc_at after.table i) ≡ true
      → is_live (proc_at after.table j) ≡ true
      → (proc_at after.table i).pid ≡ (proc_at after.table j).pid
      → i ≡ j
  pids_differ i j (yes p) (yes q) a b e = p ∙ sym q
  pids_differ i j (yes p) (no q) a b e =
      absurd (omega (arith, pid_here i p, pid_there j q, old_below j q b))
  pids_differ i j (no p) (yes q) a b e =
      absurd (omega (arith, pid_here j q, pid_there i p, old_below i p a))
  pids_differ i j (no p) (no q) a b e =
      h.distinct i j (sym (ap is_live (elsewhere i p)) ∙ a) (sym (ap is_live (elsewhere j q)) ∙ b)
        (sym (pid_there i p) ∙ e ∙ pid_there j q)

  after-IsOk : IsOk after
  after-IsOk = record {
    size = length-set k.table slot newcomer ∙ h.size;
    below = λ i live. elim (ℕ_discrete i slot) [
      | yes e ↦ omega (arith, pid_here i e)
      | no ne ↦ omega (arith, pid_there i ne, old_below i ne live)
    ];
    distinct = λ i j. pids_differ i j (ℕ_discrete i slot) (ℕ_discrete j slot);
  }

  after-Created : Created k after slot k.next_pid
  after-Created = record {
    was_unused = was_free;
    given = refl;
    gets = after_gets;
    others = after_others;
    ok = after-IsOk;
  }

create_Created :
    (k : Kernel) (ppid now : ℕ) (o : Option ℕ)
    → IsOk k
    → k.next_pid + 1 < 2 ^ 32
    → find_index? slot_unused k.table ≡ o
    → (o ≡ none → create_at k ppid now o ≡ (k, 0))
      × ((slot : ℕ)
          → o ≡ some slot
          → Created k (create_at k ppid now o).0 slot (create_at k ppid now o).1)
create_Created k ppid now none h room e = (λ _. refl, λ slot p. absurd (ground arith))
create_Created k ppid now (some s) h room e = (
  λ p. absurd (ground arith),
  λ slot p. let same : s ≡ slot = ground arith in rw (← same) (after-Created k ppid now s h room e),
)

-- While pids do not run out, `process_create` takes the first unused slot over for a process that is then
-- found under the pid returned, and under no other, and keeps pids different; with no unused slot it
-- returns 0 and changes nothing.
pub process_create_lem :
    (k : Kernel) (ppid now : ℕ)
    → IsOk k
    → k.next_pid + 1 < 2 ^ 32
    → (find_index? slot_unused k.table ≡ none → process_create k ppid now ≡ (k, 0))
      × ((slot : ℕ)
          → find_index? slot_unused k.table ≡ some slot
          → Created k (process_create k ppid now).0 slot (process_create k ppid now).1)
unfolding process_create
process_create_lem k ppid now h room =
    create_Created k ppid now (find_index? slot_unused k.table) h room refl
