-- ===== src/Ipc/Pipes/Pick.antt =====
-- The loop of `pipe_create` that looks for two free descriptors.
use zurich_os.Base.{
  ℕ, zero, suc, ◌+◌, ◌<◌, ◌≤◌, ◌≡◌, ◌≢◌, refl, ap, ◌∙◌, Bool, true, false, List, if◌then◌else◌,
  get_or, Option, none, some, arith,
}
use native.Mathlib.Decide.{ℕ_discrete}
use zurich_os.Process.{FdEntry, no_fd}
use zurich_os.Ipc.Pipes.{pick_fds}

abbrev pub in_use_at : List FdEntry → ℕ → Bool
in_use_at fds j = (get_or fds j no_fd).in_use

-- What the loop over the descriptors from `lo` to `hi` finds: the two lowest that are free, or that there
-- are fewer.
pub data Lowest (fds : List FdEntry) (lo hi : ℕ) : Option ℕ × Option ℕ → Type 0 where
  two :
      (r w : ℕ)
      → lo ≤ r
      → r < w
      → w < hi
      → in_use_at fds r ≡ false
      → in_use_at fds w ≡ false
      → ((j : ℕ) → lo ≤ j → j < w → j ≢ r → in_use_at fds j ≡ true)
      → Lowest fds lo hi (some r, some w)
  fewer :
      (r : Option ℕ)
      → ((j k : ℕ) → lo ≤ j → j < k → k < hi → in_use_at fds j ≡ false → in_use_at fds k ≡ true)
      → Lowest fds lo hi (r, none)

-- One descriptor is found; the loop is at `i`.
second :
    (fds : List FdEntry) (lo n i r : ℕ)
    → lo ≤ r
    → r < i
    → in_use_at fds r ≡ false
    → ((j : ℕ) → lo ≤ j → j < i → j ≢ r → in_use_at fds j ≡ true)
    → Lowest fds lo (i + n) (pick_fds fds n i (some r) none)
unfolding pick_fds
second fds lo zero i r le lt free used =
    fewer (some r) (λ j k a b c off. later j k a b (omega arith) off)
  where
    later : (j k : ℕ) → lo ≤ j → j < k → k < i → in_use_at fds j ≡ false → in_use_at fds k ≡ true
    later j k a b c off = elim (ℕ_discrete k r) [
      | yes e ↦ absurd (ground (arith, used j a (omega arith) (omega arith)))
      | no ne ↦ used k (omega arith) c ne
    ]
second fds lo (suc n) i r le lt free used =
    step (in_use_at fds i) refl (λ on. second fds lo n (i + 1) r le (omega arith) free (more on))
  where
    more : in_use_at fds i ≡ true → (j : ℕ) → lo ≤ j → j < i + 1 → j ≢ r → in_use_at fds j ≡ true
    more on j a b ne = elim (ℕ_discrete j i) [
      | yes e ↦ ap (in_use_at fds) e ∙ on
      | no other ↦ used j a (omega arith) ne
    ]

    hi : i + 1 + n ≡ i + suc n
    hi = omega arith

    done : (m : ℕ) (w : ℕ) → pick_fds fds m (i + 1) (some r) (some w) ≡ (some r, some w)
    done zero w = refl
    done (suc m) w = refl

    step :
        (b : Bool)
        → in_use_at fds i ≡ b
        → (in_use_at fds i ≡ true
            → Lowest fds lo (i + 1 + n) (pick_fds fds n (i + 1) (some r) none))
        → Lowest fds lo (i + suc n) (pick_fds fds n (i + 1) (some r) (if b then none else some i))
    step true on rest = rw (← hi) (rest on)
    step false off rest =
        rw (done n i) (two r i le lt (omega arith) free off (λ j a b ne. used j a b ne))

-- None is found; the loop is at `i`.
pub first :
    (fds : List FdEntry) (lo n i : ℕ)
    → lo ≤ i
    → ((j : ℕ) → lo ≤ j → j < i → in_use_at fds j ≡ true)
    → Lowest fds lo (i + n) (pick_fds fds n i none none)
unfolding pick_fds
first fds lo zero i le used = fewer none (λ j k a b c off. used k (omega arith) (omega arith))
first fds lo (suc n) i le used =
    step (in_use_at fds i) refl (λ on. first fds lo n (i + 1) (omega arith) (more on))
  where
    more : in_use_at fds i ≡ true → (j : ℕ) → lo ≤ j → j < i + 1 → in_use_at fds j ≡ true
    more on j a b = elim (ℕ_discrete j i) [
      | yes e ↦ ap (in_use_at fds) e ∙ on
      | no other ↦ used j a (omega arith)
    ]

    hi : i + 1 + n ≡ i + suc n
    hi = omega arith

    step :
        (b : Bool)
        → in_use_at fds i ≡ b
        → (in_use_at fds i ≡ true → Lowest fds lo (i + 1 + n) (pick_fds fds n (i + 1) none none))
        → Lowest fds lo (i + suc n) (pick_fds fds n (i + 1) (if b then none else some i) none)
    step true on rest = rw (← hi) (rest on)
    step false off rest =
        rw (← hi)
          (second fds lo n (i + 1) i le (omega arith) off (λ j a b ne. used j a (omega arith)))
