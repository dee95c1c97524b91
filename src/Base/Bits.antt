-- ===== src/Base/Bits.antt =====
-- The bits of machine words. `bit_and` and `bit_or` are native; `bit a i` is bit `i` of `a`, and
-- the laws below reduce words to their bits.
use Prim.Native.Nat.{min, max, digits, bitwise, bit_and-bitwise, bit_or-bitwise}
use Prim.Native.Nat.{ℕ, zero, suc, ◌+◌, ◌-◌, ◌*◌, ◌/◌, ◌%◌, ◌^◌, ◌≤◌, ◌<◌, bit_and, bit_or}
use mathlib.Core.Path.{◌≡◌, refl, ap, sym, ◌∙◌}
use mathlib.Core.Bool.{Bool, true, false, ◌&&◌, ◌||◌, not}
use native.Mathlib.Omega.{arith}
use native.Mathlib.Nat.{two-pow-succ, one-le-pow}
use native.Mathlib.Decide.{ℕ_discrete}
use zurich_os.Base.Tests.{◌==◌}

abbrev pub bit : ℕ → ℕ → Bool
bit a zero = a % 2 == 1
bit a (suc i) = bit (a / 2) i

-- `~a` on a word of `w` bits.
abbrev pub bit_not : ℕ → ℕ → ℕ
bit_not w a = 2 ^ w - 1 - a

module _ (z : ℕ → ℕ) (g : ℕ → ℕ → ℕ) where
  digits_enough : (n m a b : ℕ) → a ≤ n → a ≤ m → digits z g n a b ≡ digits z g m a b
  digits_enough zero zero a b p q = refl
  digits_enough (suc n) (suc m) zero b p q = refl
  digits_enough zero (suc m) zero b p q = refl
  digits_enough (suc n) zero zero b p q = refl
  digits_enough zero (suc m) (suc a) b p q = absurd (omega arith)
  digits_enough (suc n) zero (suc a) b p q = absurd (omega arith)
  digits_enough (suc n) (suc m) (suc a) b p q =
      ap (λ k. k * 2 + g (suc a % 2) (b % 2))
        (digits_enough n m (suc a / 2) (b / 2) (omega arith) (omega arith))

  bitwise_digit :
      (a b : ℕ)
      → bitwise z g (suc a) b ≡ bitwise z g (suc a / 2) (b / 2) * 2 + g (suc a % 2) (b % 2)
  bitwise_digit a b =
      omega (arith, digits_enough a (suc a / 2) (suc a / 2) (b / 2) (omega arith) (omega arith))

pub bit_and_digit : (a b : ℕ) → bit_and a b ≡ bit_and (a / 2) (b / 2) * 2 + min (a % 2) (b % 2)
bit_and_digit zero b = simp bit_and-bitwise (omega arith)
bit_and_digit (suc a) b = simp bit_and-bitwise (bitwise_digit (λ _. zero) min a b)

pub bit_or_digit : (a b : ℕ) → bit_or a b ≡ bit_or (a / 2) (b / 2) * 2 + max (a % 2) (b % 2)
bit_or_digit zero b = simp bit_or-bitwise (omega arith)
bit_or_digit (suc a) b = simp bit_or-bitwise (bitwise_digit (λ y. y) max a b)

bit_and_half : (a b : ℕ) → bit_and a b / 2 ≡ bit_and (a / 2) (b / 2)
bit_and_half a b = omega (arith, bit_and_digit a b)

bit_or_half : (a b : ℕ) → bit_or a b / 2 ≡ bit_or (a / 2) (b / 2)
bit_or_half a b = omega (arith, bit_or_digit a b)

pub bit-bit_and : (a b i : ℕ) → bit (bit_and a b) i ≡ (bit a i && bit b i)
bit-bit_and a b zero = ground (arith, bit_and_digit a b)
bit-bit_and a b (suc i) = ap (λ k. bit k i) (bit_and_half a b) ∙ bit-bit_and (a / 2) (b / 2) i

pub bit-bit_or : (a b i : ℕ) → bit (bit_or a b) i ≡ (bit a i || bit b i)
bit-bit_or a b zero = ground (arith, bit_or_digit a b)
bit-bit_or a b (suc i) = ap (λ k. bit k i) (bit_or_half a b) ∙ bit-bit_or (a / 2) (b / 2) i

pub bit-zero : (i : ℕ) → bit 0 i ≡ false
bit-zero zero = refl
bit-zero (suc i) = bit-zero i

bit_not_half : (w a : ℕ) → bit_not (suc w) a / 2 ≡ bit_not w (a / 2)
bit_not_half w a = omega (arith, two-pow-succ w, one-le-pow w 2)

pub bit-bit_not : (w a i : ℕ) → i < w → a < 2 ^ w → bit (bit_not w a) i ≡ not (bit a i)
bit-bit_not zero a i h k = absurd (omega arith)
bit-bit_not (suc w) a zero h k = ground (arith, two-pow-succ w, one-le-pow w 2)
bit-bit_not (suc w) a (suc i) h k =
    ap (λ n. bit n i) (bit_not_half w a)
    ∙ bit-bit_not w (a / 2) i (omega arith) (omega (arith, two-pow-succ w))

-- Words with the same bits are equal.
pub bit_ext : (w a b : ℕ) → a < 2 ^ w → b < 2 ^ w → ((i : ℕ) → i < w → bit a i ≡ bit b i) → a ≡ b
bit_ext zero a b p q h = omega arith
bit_ext (suc w) a b p q h =
    let low : (a % 2 == 1) ≡ (b % 2 == 1) = h 0 (omega arith) in
    let high : a / 2 ≡ b / 2 =
      bit_ext w (a / 2) (b / 2) (omega (arith, two-pow-succ w)) (omega (arith, two-pow-succ w))
        (λ i lt. h (suc i) (omega arith)) in
    ground arith

-- A shifted one has its bit alone set.
pub bit-pow : (i j : ℕ) → bit (2 ^ j) i ≡ (i == j)
bit-pow zero zero = refl
bit-pow zero (suc j) = ground (arith, two-pow-succ j)
bit-pow (suc i) zero = bit-zero i ∙ ground arith
bit-pow (suc i) (suc j) =
    ap (λ k. bit k i) (omega (arith, two-pow-succ j)) ∙ bit-pow i j ∙ ground arith

zero-bit_and : (b : ℕ) → bit_and 0 b ≡ 0
zero-bit_and b = bit_and-bitwise 0 b

zero-bit_or : (b : ℕ) → bit_or 0 b ≡ b
zero-bit_or b = bit_or-bitwise 0 b

pub bit_and-lt : (a b w : ℕ) → a < 2 ^ w → bit_and a b < 2 ^ w
bit_and-lt zero b w h = omega (arith, zero-bit_and b)
bit_and-lt (suc a) b zero h = absurd (omega arith)
bit_and-lt (suc a) b (suc w) h = omega (
  arith,
  bit_and_digit (suc a) b,
  two-pow-succ w,
  bit_and-lt (suc a / 2) (b / 2) w (omega (arith, two-pow-succ w)),
)

pub bit_or-lt : (a b w : ℕ) → a < 2 ^ w → b < 2 ^ w → bit_or a b < 2 ^ w
bit_or-lt zero b w h k = omega (arith, zero-bit_or b)
bit_or-lt (suc a) b zero h k = absurd (omega arith)
bit_or-lt (suc a) b (suc w) h k = omega (
  arith,
  bit_or_digit (suc a) b,
  two-pow-succ w,
  bit_or-lt (suc a / 2) (b / 2) w (omega (arith, two-pow-succ w)) (omega (arith, two-pow-succ w)),
)

pub bit_not-lt : (w a : ℕ) → bit_not w a < 2 ^ w
bit_not-lt w a = omega (arith, one-le-pow w 2)

pub pow_lt : (i w : ℕ) → i < w → 2 ^ i < 2 ^ w
pow_lt i zero h = absurd (omega arith)
pow_lt zero (suc w) h = omega (arith, two-pow-succ w, one-le-pow w 2)
pow_lt (suc i) (suc w) h = omega (arith, two-pow-succ i, two-pow-succ w, pow_lt i w (omega arith))

bit_and-pow : (a i j : ℕ) → Dec (i ≡ j) → bit a j ≡ false → bit (bit_and a (2 ^ j)) i ≡ bit 0 i
bit_and-pow a i j (yes e) off = bit-bit_and a (2 ^ j) i ∙ rw e (rw off (sym (bit-zero j)))
bit_and-pow a i j (no e) off = ground (arith, bit-bit_and a (2 ^ j) i, bit-pow i j, bit-zero i)

-- `a & (1 << j)` is not 0 exactly when bit `j` of `a` is set.
pub mask_test : (w a j : ℕ) → j < w → a < 2 ^ w → not (bit_and a (2 ^ j) == 0) ≡ bit a j
mask_test w a j h k = cases (bit a j) refl
  where
    cases : (b : Bool) → bit a j ≡ b → not (bit_and a (2 ^ j) == 0) ≡ bit a j
    cases true on =
        let apart : bit_and a (2 ^ j) ≡ 0 → ⊥ = λ e.
          ground (arith, bit-bit_and a (2 ^ j) j, bit-pow j j, bit-zero j, ap (λ n. bit n j) e) in
        ground (arith, apart)
    cases false off =
        let none_set : bit_and a (2 ^ j) ≡ 0 =
          bit_ext w (bit_and a (2 ^ j)) 0 (bit_and-lt a (2 ^ j) w k) (omega (arith, one-le-pow w 2))
            (λ i lt. bit_and-pow a i j (ℕ_discrete i j) off) in
        ground arith
