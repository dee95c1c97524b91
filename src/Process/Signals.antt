-- ===== src/Process/Signals.antt =====
-- kernel/signal/signal.c: sending, blocking and handling signals, and the check of process.c that does the
-- same with its own table of defaults.
pub mod Masks
pub mod Delivery
use zurich_os.Base.{
  ℕ, zero, suc, ◌+◌, ◌-◌, ◌^◌, Bool, true, false, not, ◌&&◌, ◌||◌, List, [], ◌∷◌, ltb, leb, ◌==◌,
  if◌then◌else◌, get_or, set, replicate, bit_and, bit_or, ℤ, pos, negsuc, neg, Option, none, some,
}
use zurich_os.Base.Bits.{bit_not}
use zurich_os.Process.{
  State, ready, stopped, is_stopped, Process, Kernel, proc_at, update, nsig, sigkill, sigchld,
  sigcont, sigstop, sigtstp, sigttin, sigttou, sigurg, sigwinch, default_handlers, process_current,
}
use zurich_os.Process.Calls.{process_exit, process_signal, raise}

-- The last is the stop of `process_check_signals`, whose loop goes on behind it.
pub data Action : Type 0 where
  term ign core stop cont halt : Action

-- `default_actions`, by the number of the signal.
abbrev pub default_actions : List Action
default_actions =
    ign ∷ term ∷ term ∷ core ∷ core ∷ core ∷ core ∷ core ∷ core ∷ term ∷ term ∷ core ∷ term ∷ term
    ∷ term ∷ term ∷ term ∷ ign ∷ cont ∷ stop ∷ stop ∷ stop ∷ stop ∷ ign ∷ core ∷ core ∷ term ∷ term
    ∷ ign ∷ term ∷ term ∷ core ∷ []

abbrev pub sig_dfl : ℕ
sig_dfl = 0

abbrev pub sig_ign : ℕ
sig_ign = 1

abbrev pub sig_bit : ℕ → ℕ
sig_bit sig = 2 ^ (sig - 1)

unfoldable pub signal_init_process : Process → Process
signal_init_process p = record p {
  pending_signals = 0;
  blocked_signals = 0;
  signal_handlers = default_handlers;
}

-- `signal_send` is `process_signal` with a line on the serial port.
unfoldable pub signal_send : Kernel → ℕ → ℤ → Kernel × ℤ
unfolding process_signal
signal_send k pid sig = process_signal k pid sig

unfoldable pub signal_pending : Process → ℕ
signal_pending p = bit_and p.pending_signals (bit_not 32 p.blocked_signals)

abbrev pub clear_pending : Kernel → ℕ → ℕ → Kernel
clear_pending k i sig =
    let p = proc_at k.table i in
    update k i (record p { pending_signals = bit_and p.pending_signals (bit_not 32 (sig_bit sig)) })

abbrev pub stop_process : Kernel → ℕ → Kernel
stop_process k i = update k i (record (proc_at k.table i) { state = stopped })

abbrev pub continue_process : Kernel → ℕ → Kernel
continue_process k i =
    let p = proc_at k.table i in
    if is_stopped p.state then update k i (record p { state = ready }) else k

-- The `switch` over the default action. The flag says whether the loop returns.
unfoldable pub default_action : Kernel → ℕ → ℕ → Action → Kernel × Bool
default_action k i sig term = (process_exit k (neg sig), true)
default_action k i sig core = (process_exit k (neg sig), true)
default_action k i sig stop = (stop_process k i, true)
default_action k i sig halt = (stop_process k i, false)
default_action k i sig cont = (continue_process k i, false)
default_action k i sig ign = (k, false)

-- The action of `process_check_signals` for a signal with no handler.
abbrev pub check_action : ℕ → Action
check_action sig =
    if sig == sigchld || sig == sigurg || sig == sigwinch
    then ign
    else (if sig == sigcont
        then cont
        else (if sig == sigtstp || sig == sigttin || sig == sigttou then halt else term))

-- `call handler sig k` is the state after a process's own handler has run.
module _ (call : ℕ → ℕ → Kernel → Kernel) (action : ℕ → Action) where
  -- One pending signal of the process at `i`, its bit already cleared.
  unfoldable pub deliver_one : Kernel → ℕ → ℕ → Kernel × Bool
  unfolding default_action
  deliver_one k i sig =
      let handler = get_or (proc_at k.table i).signal_handlers sig 0 in
      if sig == sigkill
      then (process_exit k (neg sig), true)
      else (if sig == sigstop
          then (stop_process k i, true)
          else (if handler == sig_ign
              then (k, false)
              else (if handler == sig_dfl
                  then default_action k i sig (action sig)
                  else (call handler sig k, false))))

  abbrev pub deliver_if : Kernel → ℕ → ℕ → ℕ → Kernel × Bool
  deliver_if k i pending sig =
      if bit_and pending (sig_bit sig) == 0
      then (k, false)
      else deliver_one (clear_pending k i sig) i sig

  -- `for (sig = 1; sig < NSIG; sig++)`: `n` rounds are left, the next for `sig`.
  unfoldable pub deliver : ℕ → ℕ → ℕ → ℕ → Kernel → Kernel
  deliver i pending zero sig k = k
  deliver i pending (suc n) sig k =
      let (k', returns) = deliver_if k i pending sig in
      elim returns [ true ↦ k' | false ↦ deliver i pending n (sig + 1) k' ]

  -- The body of both functions, for the process at `i`.
  unfoldable pub handle_at : Kernel → ℕ → Kernel
  unfolding signal_pending
  handle_at k i =
      let pending = signal_pending (proc_at k.table i) in
      let done = deliver i pending (nsig - 1) 1 k in if pending == 0 then k else done

-- `p` is the index of the process, `none` for a null pointer.
unfoldable pub signal_handle_pending : (ℕ → ℕ → Kernel → Kernel) → Kernel → Option ℕ → Kernel
unfolding handle_at
signal_handle_pending call k none = k
signal_handle_pending call k (some i) = handle_at call (λ sig. get_or default_actions sig ign) k i

abbrev pub check_at : (ℕ → ℕ → Kernel → Kernel) → Kernel → Option ℕ → Kernel
check_at call k none = k
check_at call k (some i) = handle_at call check_action k i

unfoldable pub process_check_signals : (ℕ → ℕ → Kernel → Kernel) → Kernel → Kernel
unfolding handle_at
process_check_signals call k = check_at call k (process_current k)

-- A result with the old value that goes through the second pointer, if it is not null.
pub record Changed : Type 0 where
  pub kernel : Kernel
  pub result : ℤ
  pub old : Option ℕ

abbrev pub refuse : Kernel → ℤ → Changed
refuse k e = record { kernel = k; result = e; old = none }

abbrev pub if_wanted : Bool → ℕ → Option ℕ
if_wanted wanted v = if wanted then some v else none

abbrev pub install : Kernel → ℕ → ℕ → Bool → Option ℕ → Changed
install k sig handler wanted none = refuse k (neg 1)
install k sig handler wanted (some i) =
    let p = proc_at k.table i in
    record {
      kernel = update k i (record p { signal_handlers = set p.signal_handlers sig handler });
      result = pos 0;
      old = if_wanted wanted (get_or p.signal_handlers sig 0);
    }

unfoldable pub signal_set_handler : Kernel → ℤ → ℕ → Bool → Changed
signal_set_handler k (negsuc n) handler wanted = refuse k (neg 22)
signal_set_handler k (pos sig) handler wanted =
    if ltb sig 1 || leb nsig sig
    then refuse k (neg 22)
    else (if sig == sigkill || sig == sigstop
        then refuse k (neg 22)
        else install k sig handler wanted (process_current k))

-- A mask without the bits of SIGKILL and SIGSTOP.
unfoldable pub blockable : ℕ → ℕ
blockable mask = bit_and mask (bit_not 32 (bit_or (sig_bit sigkill) (sig_bit sigstop)))

-- `f` gives the new mask from the old one and `*set`.
abbrev pub mask_at : (ℕ → ℕ → ℕ) → Kernel → Option ℕ → Bool → Option ℕ → Changed
mask_at f k arg wanted none = refuse k (neg 1)
mask_at f k none wanted (some i) = record {
  kernel = k;
  result = pos 0;
  old = if_wanted wanted (proc_at k.table i).blocked_signals;
}
mask_at f k (some mask) wanted (some i) =
    let p = proc_at k.table i in
    record {
      kernel = update k i (record p { blocked_signals = f p.blocked_signals mask });
      result = pos 0;
      old = if_wanted wanted p.blocked_signals;
    }

unfoldable pub signal_block : Kernel → Option ℕ → Bool → Changed
unfolding blockable
signal_block k arg wanted =
    mask_at (λ old mask. bit_or old (blockable mask)) k arg wanted (process_current k)

unfoldable pub signal_unblock : Kernel → Option ℕ → Bool → Changed
signal_unblock k arg wanted =
    mask_at (λ old mask. bit_and old (bit_not 32 mask)) k arg wanted (process_current k)

unfoldable pub signal_setmask : Kernel → Option ℕ → Bool → Changed
unfolding blockable
signal_setmask k arg wanted = mask_at (λ old mask. blockable mask) k arg wanted (process_current k)
