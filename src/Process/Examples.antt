-- ===== src/Process/Examples.antt =====
-- The theorems on process.c and signal.c at concrete process tables.
use zurich_os.Base.{
  ℕ, zero, suc, ◌+◌, ◌^◌, ◌<◌, ◌≡◌, refl, ap, inl, inr, true, false, [], ◌∷◌, List, length, get_or,
  get_or-replicate, pos, neg, none, some, find_index?, arith, not, ◌∙◌, all_below_sound, replicate,
}
use zurich_os.Base.Bits.{bit}
use zurich_os.Process.{
  Kernel, Process, running, zombie, no_process, proc_at, process_init, process_current, process_get,
  process_create, slot_unused, max_processes,
}
use zurich_os.Process.Calls.{process_exit, process_waitpid}
use zurich_os.Process.Pids.{is_live, IsOk, Created, process_create_lem}
use zurich_os.Process.Family.{Exited, process_exit-Exited}
use zurich_os.Process.Wait.{Outcome, process_waitpid-Outcome}
use zurich_os.Process.Signals.{
  Action, default_actions, signal_send, clear_pending, handle_at, signal_pending,
}
use zurich_os.Process.Signals.Masks.{IsGuarded, AllGuarded}
use zurich_os.Process.Signals.Delivery.{Sent, signal_send-Sent, handle_at-Exited}
use zurich_os.Process.Signals.Delivery

init_live : (i : ℕ) → is_live (proc_at process_init.table i) ≡ true → i < 2
unfolding process_init
init_live zero h = omega arith
init_live (suc zero) h = omega arith
init_live (suc (suc i)) h =
    let blank : get_or (replicate 62 no_process) i no_process ≡ no_process =
      get_or-replicate 62 i no_process in
    let dead : is_live (get_or (replicate 62 no_process) i no_process) ≡ false = ap is_live blank in
    absurd (ground arith)

init_below :
    (i : ℕ)
    → is_live (proc_at process_init.table i) ≡ true
    → (proc_at process_init.table i).pid < process_init.next_pid
unfolding process_init
init_below zero h = omega arith
init_below (suc zero) h = omega arith
init_below (suc (suc i)) h = absurd (omega (arith, init_live (suc (suc i)) h))

init_distinct :
    (i j : ℕ)
    → is_live (proc_at process_init.table i) ≡ true
    → is_live (proc_at process_init.table j) ≡ true
    → (proc_at process_init.table i).pid ≡ (proc_at process_init.table j).pid
    → i ≡ j
unfolding process_init
init_distinct zero zero h k e = refl
init_distinct zero (suc zero) h k e = absurd (omega arith)
init_distinct (suc zero) zero h k e = absurd (omega arith)
init_distinct (suc zero) (suc zero) h k e = refl
init_distinct (suc (suc i)) j h k e = absurd (omega (arith, init_live (suc (suc i)) h))
init_distinct zero (suc (suc j)) h k e = absurd (omega (arith, init_live (suc (suc j)) k))
init_distinct (suc zero) (suc (suc j)) h k e = absurd (omega (arith, init_live (suc (suc j)) k))

init_size : length process_init.table ≡ max_processes
unfolding process_init
init_size = refl

init_IsOk : IsOk process_init
init_IsOk = record { size = init_size; below = init_below; distinct = init_distinct }

init_next : process_init.next_pid + 1 < 2 ^ 32
unfolding process_init
init_next = omega arith

process_create_lem_example :
    (find_index? slot_unused process_init.table ≡ none
      → process_create process_init 1 7 ≡ (process_init, 0))
    × ((slot : ℕ)
        → find_index? slot_unused process_init.table ≡ some slot
        → Created process_init
            (process_create process_init 1 7).0
            slot
            (process_create process_init 1 7).1)
process_create_lem_example = process_create_lem process_init 1 7 init_IsOk init_next

-- A parent with pid 2 and its child with pid 3, which has ended with code 9.
abbrev family : List Process → ℕ → Kernel
family ps pid = record { table = ps; next_pid = 4; current_pid = pid }

abbrev parent : Process
parent = record no_process { pid = 2; ppid = 1; state = running; pending_signals = 16384 }

abbrev child : Process
child = record no_process { pid = 3; ppid = 2; state = zombie; exit_code = pos 9 }

abbrev two : Kernel
two = family (parent ∷ child ∷ []) 2

two_current : process_current two ≡ some 0
unfolding process_current
two_current = refl

two_get : process_get two 2 ≡ some 0
unfolding process_get
two_get = refl

process_waitpid-Outcome_example : Outcome two 0 (pos 3) (process_waitpid two (pos 3))
process_waitpid-Outcome_example = process_waitpid-Outcome two (pos 3) 0 two_current

process_exit-Exited_example : Exited two (process_exit two (pos 7)) 0 (pos 7)
process_exit-Exited_example =
    process_exit-Exited two (pos 7) 0 two_current (omega arith) (omega arith)

signal_send-Sent_example :
    ((signal_send two 2 (pos 10)).1 ≡ pos 0) × Sent two (signal_send two 2 (pos 10)).0 0 10
signal_send-Sent_example =
    signal_send-Sent two 2 10 0 two_get (omega arith) (omega arith) (omega arith)

blank_IsGuarded : IsGuarded no_process
blank_IsGuarded = record {
  mask_open = record { kill_open = refl; stop_open = refl };
  kill_default = refl;
  stop_default = refl;
}

init_AllGuarded : AllGuarded process_init
unfolding process_init
init_AllGuarded zero = record {
  mask_open = record { kill_open = refl; stop_open = refl };
  kill_default = refl;
  stop_default = refl;
}
init_AllGuarded (suc zero) = record {
  mask_open = record { kill_open = refl; stop_open = refl };
  kill_default = refl;
  stop_default = refl;
}
init_AllGuarded (suc (suc i)) =
    let blank : get_or (replicate 62 no_process) i no_process ≡ no_process =
      get_or-replicate 62 i no_process in
    rw blank blank_IsGuarded

-- The default actions, with no handler of the process's own.
abbrev nothing : ℕ → ℕ → Kernel → Kernel
nothing handler sig k = k

abbrev default : ℕ → Action
default sig = get_or default_actions sig Action.ign

parent_pending : signal_pending parent ≡ 16384
unfolding signal_pending
parent_pending = refl

-- Only SIGTERM, 15, is pending at the parent.
term-Lowest : Delivery.Lowest nothing default two 0 15
term-Lowest = record {
  low = omega arith;
  high = omega arith;
  set_here = ap (λ n. bit n 14) parent_pending;
  clear_below = λ j lt. ap (λ n. bit n j) parent_pending ∙ lower j lt;
  fits = omega arith;
}
  where
    lower : (j : ℕ) → j < 14 → bit 16384 j ≡ false
    lower j lt = ground (arith, all_below_sound 14 (λ i. not (bit 16384 i)) j refl lt)

term-Fatal : Delivery.Fatal nothing default two 0 15
unfolding Delivery.Fatal
term-Fatal = inr (λ e. absurd (omega arith), refl, inl refl)

handle_at-Exited_example :
    Exited (clear_pending two 0 15) (handle_at nothing default two 0) 0 (neg 15)
handle_at-Exited_example =
    handle_at-Exited nothing default two 0 15 term-Lowest two_current (omega arith) (omega arith)
      term-Fatal
