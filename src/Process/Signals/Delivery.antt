-- ===== src/Process/Signals/Delivery.antt =====
-- What sending a signal and handling the lowest pending one do.
use zurich_os.Base.{
  ℕ, zero, suc, ◌+◌, ◌-◌, ◌^◌, ◌<◌, ◌≤◌, ◌≡◌, ◌≢◌, ◌⊎◌, refl, ap, ap₂, sym, ◌∙◌, Bool, true, false,
  not, ◌||◌, leb, ◌==◌, if◌then◌else◌, length, length-set, get_or, get_or-set_self, get_or-set_ne,
  bit_and, pos, neg, some, find_index?-set_eq, arith,
}
use zurich_os.Base.Bits.{bit, bit_not, bit-bit_or, bit-pow, bit-zero, mask_test, bit_and-lt}
use zurich_os.Process.{Process, Kernel, no_process, proc_at, lives_as, process_current, process_get}
use zurich_os.Process.Calls.{process_exit, raise}
use zurich_os.Process.Family.{Exited, process_exit-Exited}
use zurich_os.Process.Signals.{
  Action, term, core, sig_bit, signal_pending, signal_send, clear_pending, deliver_one, deliver_if,
  deliver, handle_at,
}

raise-pending :
    (p : Process) (s j : ℕ)
    → bit (raise p s).pending_signals j ≡ (j == s - 1 || bit p.pending_signals j)
unfolding raise
raise-pending p s j =
    ground (arith, bit-bit_or p.pending_signals (2 ^ (s - 1)) j, bit-pow j (s - 1))

-- A signal sent to a process: pending there, with what was pending before, and nothing else changes.
pub record Sent (k k' : Kernel) (i s : ℕ) : Type 0 where
  pub pending :
      (j : ℕ)
      → bit (proc_at k'.table i).pending_signals j
        ≡ (j == s - 1 || bit (proc_at k.table i).pending_signals j)
  pub others : (j : ℕ) → j ≢ i → proc_at k'.table j ≡ proc_at k.table j

-- `signal_send` of a signal from 1 to 31 to a process that exists makes it pending at that process and
-- reports 0.
pub signal_send-Sent :
    (k : Kernel) (pid s i : ℕ)
    → process_get k pid ≡ some i
    → i < length k.table
    → 0 < s
    → s < 32
    → ((signal_send k pid (pos s)).1 ≡ pos 0) × Sent k (signal_send k pid (pos s)).0 i s
unfolding signal_send
signal_send-Sent k pid s i there lt low high =
    rw (below s high, nonzero s low, there)
      (
        refl,
        record {
          pending = λ j.
              ap (λ (p : Process). bit p.pending_signals j)
                (get_or-set_self k.table i (raise (proc_at k.table i) s) no_process lt)
              ∙ raise-pending (proc_at k.table i) s j;
          others = λ j ne.
              get_or-set_ne k.table i j (raise (proc_at k.table i) s) no_process (λ e. ne (sym e));
        },
      )
  where
    below : (s : ℕ) → s < 32 → leb 32 s ≡ false
    below s h = ground arith

    nonzero : (s : ℕ) → 0 < s → (s == 0) ≡ false
    nonzero s h = ground arith

module _ (call : ℕ → ℕ → Kernel → Kernel) (action : ℕ → Action) (k : Kernel) (i : ℕ) where
  abbrev me : Process
  me = proc_at k.table i

  abbrev Clear : ℕ → ℕ → ℕ → Type 0
  Clear pending lo hi = (j : ℕ) → lo ≤ j → j < hi → (bit_and pending (sig_bit j) == 0) ≡ true

  -- A round, by what the step of its signal gives.
  by_step :
      (pending r sig : ℕ) {x : Kernel × Bool}
      → deliver_if call action k i pending sig ≡ x
      → deliver call action i pending (suc r) sig k
        ≡ (elim (x.1) [ true ↦ x.0 | false ↦ deliver call action i pending r (sig + 1) x.0 ])
  unfolding deliver
  by_step pending r sig e =
      ap
        (λ (y : Kernel × Bool). elim (y.1) [
          | true ↦ y.0
          | false ↦ deliver call action i pending r (sig + 1) y.0
        ])
        e

  one_round :
      (pending r sig : ℕ)
      → (bit_and pending (sig_bit sig) == 0) ≡ true
      → deliver call action i pending (suc r) sig k ≡ deliver call action i pending r (sig + 1) k
  one_round pending r sig off = by_step pending r sig (
      ap (λ b. if b then (k, false) else deliver_one call action (clear_pending k i sig) i sig) off)

  -- The rounds before the lowest pending signal change nothing.
  deliver_skips :
      (pending m t n sig : ℕ)
      → t ≡ m + n
      → Clear pending sig (sig + m)
      → deliver call action i pending t sig k ≡ deliver call action i pending n (sig + m) k
  deliver_skips pending zero t n sig e c =
      let a : t ≡ n = omega arith in
      let b : sig ≡ sig + 0 = omega arith in ap₂ (λ t s. deliver call action i pending t s k) a b
  deliver_skips pending (suc m) t n sig e c =
      let a : t ≡ suc (m + n) = omega arith in
      let b : sig + 1 + m ≡ sig + suc m = omega arith in
      ap (λ t. deliver call action i pending t sig k) a
      ∙ one_round pending (m + n) sig (c sig (omega arith) (omega arith))
      ∙ deliver_skips pending m (m + n) n (sig + 1) refl
          (λ j lo hi. c j (omega arith) (omega arith))
      ∙ ap (λ s. deliver call action i pending n s k) b

  -- A signal that ends the process: SIGKILL, or one left to a default action that terminates.
  unfoldable pub Fatal : ℕ → Type 0
  Fatal s =
      (s ≡ 9)
      ⊎ ((s ≢ 19) × (get_or me.signal_handlers s 0 ≡ 0) × ((action s ≡ term) ⊎ (action s ≡ core)))

  module _ (s : ℕ) (lt : i < length k.table) where
    handlers_kept :
        get_or (proc_at (clear_pending k i s).table i).signal_handlers s 0
        ≡ get_or me.signal_handlers s 0
    handlers_kept =
        ap (λ (p : Process). get_or p.signal_handlers s 0)
          (get_or-set_self k.table i _ no_process lt)

    Fatal-one :
        Fatal s
        → deliver_one call action (clear_pending k i s) i s
          ≡ (process_exit (clear_pending k i s) (neg s), true)
    unfolding Fatal deliver_one
    Fatal-one f = rw handlers_kept (ground arith)

    Fatal-round :
        (pending r : ℕ)
        → (bit_and pending (sig_bit s) == 0) ≡ false
        → Fatal s
        → deliver call action i pending (suc r) s k ≡ process_exit (clear_pending k i s) (neg s)
    Fatal-round pending r on f = by_step pending r s (
        ap (λ b. if b then (k, false) else deliver_one call action (clear_pending k i s) i s) on
        ∙ Fatal-one f)

    still_current : process_current k ≡ some i → process_current (clear_pending k i s) ≡ some i
    unfolding process_current
    still_current cur =
        find_index?-set_eq (lives_as k.current_pid) k.table i _ no_process refl ∙ cur

  -- `s` is the lowest signal that is pending and not blocked.
  pub record Lowest (s : ℕ) : Type 0 where
    pub low : 0 < s
    pub high : s < 32
    pub set_here : bit (signal_pending me) (s - 1) ≡ true
    pub clear_below : (j : ℕ) → j < s - 1 → bit (signal_pending me) j ≡ false
    pub fits : me.pending_signals < 2 ^ 32

  module _ (s : ℕ) (l : Lowest s) where
    pending_fits : signal_pending me < 2 ^ 32
    unfolding signal_pending
    pending_fits = bit_and-lt me.pending_signals (bit_not 32 me.blocked_signals) 32 l.fits

    mask_of :
        (j : ℕ)
        → j < 32
        → not (bit_and (signal_pending me) (2 ^ j) == 0) ≡ bit (signal_pending me) j
    mask_of j lt = mask_test 32 (signal_pending me) j lt pending_fits

    not_pending : (j : ℕ) → 1 ≤ j → j < s → (bit_and (signal_pending me) (sig_bit j) == 0) ≡ true
    not_pending j lo hi =
        not_flip (bit_and (signal_pending me) (sig_bit j) == 0)
          (mask_of (j - 1) (omega (arith, l.high)) ∙ l.clear_below (j - 1) (omega arith))
      where
        not_flip : (b : Bool) → not b ≡ false → b ≡ true
        not_flip b e = ground arith

    now_pending : (bit_and (signal_pending me) (sig_bit s) == 0) ≡ false
    now_pending =
        not_flip (bit_and (signal_pending me) (sig_bit s) == 0)
          (mask_of (s - 1) (omega (arith, l.high)) ∙ l.set_here)
      where
        not_flip : (b : Bool) → not b ≡ true → b ≡ false
        not_flip b e = ground arith

    some_pending : (signal_pending me == 0) ≡ false
    some_pending = ground (arith, l.set_here, bit-zero (s - 1), ap (λ n. bit n (s - 1)))

    handle_is_exit :
        i < length k.table
        → Fatal s
        → handle_at call action k i ≡ process_exit (clear_pending k i s) (neg s)
    unfolding handle_at
    handle_is_exit lt f =
        let rounds : 31 ≡ s - 1 + suc (31 - s) = omega (arith, l.low, l.high) in
        let at : 1 + (s - 1) ≡ s = omega (arith, l.low) in
        ap (λ b. if b then k else deliver call action i (signal_pending me) 31 1 k) some_pending
        ∙ deliver_skips (signal_pending me) (s - 1) 31 (suc (31 - s)) 1 rounds
            (λ j lo hi. not_pending j lo (omega arith))
        ∙ ap (λ t. deliver call action i (signal_pending me) (suc (31 - s)) t k) at
        ∙ Fatal-round s lt (signal_pending me) (31 - s) now_pending f

    -- Where the lowest signal that is pending and not blocked is SIGKILL, or has no handler and a default
    -- action that terminates, handling signals ends the current process (unless its pid is 0 or 1): it is
    -- a zombie, with the negated signal number as its exit code.
    pub handle_at-Exited :
        process_current k ≡ some i
        → i < length k.table
        → 1 < me.pid
        → Fatal s
        → Exited (clear_pending k i s) (handle_at call action k i) i (neg s)
    handle_at-Exited cur lt big f = rw (handle_is_exit lt f) (
        process_exit-Exited (clear_pending k i s) (neg s) i (still_current s lt cur)
          (omega (arith, same_length)) (omega (arith, same_pid)))
      where
        same_length : length (clear_pending k i s).table ≡ length k.table
        same_length = length-set k.table i _

        same_pid : (proc_at (clear_pending k i s).table i).pid ≡ me.pid
        same_pid = ap (λ (p : Process). p.pid) (get_or-set_self k.table i _ no_process lt)
