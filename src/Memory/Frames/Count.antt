-- ===== src/Memory/Frames/Count.antt =====
-- How many numbers below a bound satisfy a test.
use native.Mathlib.Decide.{ℕ_discrete}
use zurich_os.Base.{
  ℕ, zero, suc, ◌+◌, ◌<◌, ◌≤◌, ◌≡◌, refl, Bool, true, false, not, ◌&&◌, ◌||◌, ◌==◌, if◌then◌else◌,
  arith,
}

abbrev pub count_below : ℕ → (ℕ → Bool) → ℕ
count_below zero p = 0
count_below (suc n) p = (if p n then 1 else 0) + count_below n p

pub count-le : (n : ℕ) (p : ℕ → Bool) → count_below n p ≤ n
count-le zero p = omega arith
count-le (suc n) p = ground (arith, count-le n p)

pub count_full : (n : ℕ) (p : ℕ → Bool) → ((g : ℕ) → g < n → p g ≡ true) → count_below n p ≡ n
count_full zero p h = refl
count_full (suc n) p h =
    ground (arith, h n (omega arith), count_full n p (λ g lt. h g (omega arith)))

pub count_agree :
    (n : ℕ) (p q : ℕ → Bool) → ((g : ℕ) → g < n → q g ≡ p g) → count_below n q ≡ count_below n p
count_agree zero p q h = refl
count_agree (suc n) p q h =
    ground (arith, h n (omega arith), count_agree n p q (λ g lt. h g (omega arith)))

pub count_add :
    (n f : ℕ) (p q : ℕ → Bool)
    → f < n
    → p f ≡ false
    → ((g : ℕ) → q g ≡ (g == f || p g))
    → count_below n q ≡ suc (count_below n p)
count_add zero f p q lt off h = absurd (omega arith)
count_add (suc n) f p q lt off h = elim (ℕ_discrete n f) [
  | yes e ↦ ground (arith, h n, rw (← e) at off, count_agree n p q (λ g below. ground (arith, h g)))
  | no e ↦ ground (arith, h n, count_add n f p q (omega arith) off h)
]

pub count_remove :
    (n f : ℕ) (p q : ℕ → Bool)
    → f < n
    → p f ≡ true
    → ((g : ℕ) → q g ≡ (not (g == f) && p g))
    → suc (count_below n q) ≡ count_below n p
count_remove zero f p q lt on h = absurd (omega arith)
count_remove (suc n) f p q lt on h = elim (ℕ_discrete n f) [
  | yes e ↦ ground (arith, h n, rw (← e) at on, count_agree n p q (λ g below. ground (arith, h g)))
  | no e ↦ ground (arith, h n, count_remove n f p q (omega arith) on h)
]

-- A count as large as the bound leaves nothing out.
pub full_count : (n : ℕ) (p : ℕ → Bool) → n ≤ count_below n p → (g : ℕ) → 0 ≤ g → g < n → p g ≡ true
full_count zero p h g z lt = absurd (omega arith)
full_count (suc n) p h g z lt = elim (ℕ_discrete g n) [
  | yes e ↦ rw e (ground (arith, count-le n p))
  | no e ↦ full_count n p (ground (arith, count-le n p)) g z (omega arith)
]
