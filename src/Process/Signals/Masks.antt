-- ===== src/Process/Signals/Masks.antt =====
-- SIGKILL and SIGSTOP can be neither blocked nor caught.
use zurich_os.Base.{
  ℕ, ◌^◌, ◌≡◌, ◌≢◌, ◌∙◌, Bool, false, ◌||◌, ltb, leb, ◌==◌, if_cases, get_or, get_or-set_keeps,
  get_or-set_ne, bit_and, bit_or, ℤ, pos, negsuc, Option, none, some, arith,
}
use zurich_os.Base.Bits.{bit, bit_not, bit-bit_and, bit-bit_or}
use zurich_os.Process.{Process, Kernel, no_process, proc_at, update, process_current}
use zurich_os.Process.Signals.{
  Changed, install, signal_set_handler, blockable, mask_at, signal_block, signal_unblock,
  signal_setmask,
}

-- The bits of SIGKILL and SIGSTOP in a mask.
pub record Open (mask : ℕ) : Type 0 where
  pub kill_open : bit mask 8 ≡ false
  pub stop_open : bit mask 18 ≡ false

-- Neither signal is blocked, and neither has a handler.
pub record IsGuarded (p : Process) : Type 0 where
  pub mask_open : Open p.blocked_signals
  pub kill_default : get_or p.signal_handlers 9 0 ≡ 0
  pub stop_default : get_or p.signal_handlers 19 0 ≡ 0

abbrev pub AllGuarded : Kernel → Type 0
AllGuarded k = (i : ℕ) → IsGuarded (proc_at k.table i)

blockable-Open : (mask : ℕ) → Open (blockable mask)
unfolding blockable
blockable-Open mask = record {
  kill_open = ground (arith, bit-bit_and mask (bit_not 32 (bit_or (2 ^ 8) (2 ^ 18))) 8);
  stop_open = ground (arith, bit-bit_and mask (bit_not 32 (bit_or (2 ^ 8) (2 ^ 18))) 18);
}

or-Open : (a b : ℕ) → Open a → Open b → Open (bit_or a b)
or-Open a b p q = record {
  kill_open = ground (arith, bit-bit_or a b 8);
  stop_open = ground (arith, bit-bit_or a b 18);
}

and-Open : (a b : ℕ) → Open a → Open (bit_and a b)
and-Open a b p = record {
  kill_open = ground (arith, bit-bit_and a b 8);
  stop_open = ground (arith, bit-bit_and a b 18);
}

update-AllGuarded :
    (k : Kernel) (i : ℕ) (p : Process) → AllGuarded k → IsGuarded p → AllGuarded (update k i p)
update-AllGuarded k i p a g j = get_or-set_keeps IsGuarded k.table i j p no_process g (a j)

mask_at-AllGuarded :
    (f : ℕ → ℕ → ℕ) (k : Kernel) (arg : Option ℕ) (wanted : Bool) (o : Option ℕ)
    → ((old mask : ℕ) → Open old → Open (f old mask))
    → AllGuarded k
    → AllGuarded (mask_at f k arg wanted o).kernel
mask_at-AllGuarded f k arg wanted none h a = a
mask_at-AllGuarded f k none wanted (some i) h a = a
mask_at-AllGuarded f k (some mask) wanted (some i) h a = update-AllGuarded k i _ a (record {
  mask_open = h (proc_at k.table i).blocked_signals mask (a i).mask_open;
  kill_default = (a i).kill_default;
  stop_default = (a i).stop_default;
})

install-AllGuarded :
    (k : Kernel) (sig handler : ℕ) (wanted : Bool) (o : Option ℕ)
    → sig ≢ 9
    → sig ≢ 19
    → AllGuarded k
    → AllGuarded (install k sig handler wanted o).kernel
install-AllGuarded k sig handler wanted none n9 n19 a = a
install-AllGuarded k sig handler wanted (some i) n9 n19 a =
    let p : Process = proc_at k.table i in
    update-AllGuarded k i _ a (record {
      mask_open = (a i).mask_open;
      kill_default = get_or-set_ne p.signal_handlers sig 9 handler 0 n9 ∙ (a i).kill_default;
      stop_default = get_or-set_ne p.signal_handlers sig 19 handler 0 n19 ∙ (a i).stop_default;
    })

set_handler-AllGuarded :
    (k : Kernel) (sig : ℤ) (handler : ℕ) (wanted : Bool)
    → AllGuarded k
    → AllGuarded (signal_set_handler k sig handler wanted).kernel
unfolding signal_set_handler
set_handler-AllGuarded k (negsuc n) handler wanted a = a
set_handler-AllGuarded k (pos sig) handler wanted a =
    if_cases (λ (c : Changed). AllGuarded c.kernel) (ltb sig 1 || leb 32 sig) (λ _. a)
      (λ _.
        if_cases (λ (c : Changed). AllGuarded c.kernel) (sig == 9 || sig == 19) (λ _. a)
          (λ other.
            install-AllGuarded k sig handler wanted (process_current k) (ground (arith, other))
              (ground (arith, other)) a))

-- The calls by which a process changes its handlers and its mask.
pub data Call : Type 0 where
  set_handler : ℤ → ℕ → Bool → Call
  block : Option ℕ → Bool → Call
  unblock : Option ℕ → Bool → Call
  setmask : Option ℕ → Bool → Call

unfoldable pub apply : Call → Kernel → Kernel
apply (set_handler sig handler wanted) k = (signal_set_handler k sig handler wanted).kernel
apply (block arg wanted) k = (signal_block k arg wanted).kernel
apply (unblock arg wanted) k = (signal_unblock k arg wanted).kernel
apply (setmask arg wanted) k = (signal_setmask k arg wanted).kernel

-- No call of `signal_set_handler`, `signal_block`, `signal_unblock` or `signal_setmask` blocks SIGKILL or
-- SIGSTOP or installs a handler for one, in any process.
pub apply-AllGuarded : (c : Call) (k : Kernel) → AllGuarded k → AllGuarded (apply c k)
unfolding apply signal_block signal_unblock signal_setmask
apply-AllGuarded (set_handler sig handler wanted) k a =
    set_handler-AllGuarded k sig handler wanted a
apply-AllGuarded (block arg wanted) k a =
    mask_at-AllGuarded (λ old mask. bit_or old (blockable mask)) k arg wanted (process_current k)
      (λ old mask o. or-Open old (blockable mask) o (blockable-Open mask)) a
apply-AllGuarded (unblock arg wanted) k a =
    mask_at-AllGuarded (λ old mask. bit_and old (bit_not 32 mask)) k arg wanted (process_current k)
      (λ old mask o. and-Open old (bit_not 32 mask) o) a
apply-AllGuarded (setmask arg wanted) k a =
    mask_at-AllGuarded (λ old mask. blockable mask) k arg wanted (process_current k)
      (λ old mask o. blockable-Open mask) a
