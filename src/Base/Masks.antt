-- ===== src/Base/Masks.antt =====
-- Masks that keep the low or the high bits of a word, as remainders and quotients.
use native.Mathlib.Nat.{
  two-pow-succ, one-le-pow, div-div-eq-div-mul, div-add-mod, mul_assoc, mod-eq_of_lt,
}
use Prim.Native.Nat.{ℕ, zero, suc, ◌+◌, ◌-◌, ◌*◌, ◌/◌, ◌%◌, ◌^◌, ◌≤◌, ◌<◌, bit_and, bit_or}
use mathlib.Core.Path.{◌≡◌, refl, ap, sym, ◌∙◌}
use native.Mathlib.Omega.{arith}
use zurich_os.Base.Bits.{bit_and_digit, bit_or_digit}

no_bits : (n a : ℕ) → a ≤ n → (bit_and a 0 ≡ 0) × (bit_or a 0 ≡ a)
no_bits n zero h = (refl, refl)
no_bits zero (suc a) h = absurd (omega arith)
no_bits (suc n) (suc a) h =
    let rest = no_bits n (suc a / 2) (omega arith) in
    (omega (arith, bit_and_digit (suc a) 0, rest.0), omega (arith, bit_or_digit (suc a) 0, rest.1))

bit_and-zero : (a : ℕ) → bit_and a 0 ≡ 0
bit_and-zero a = (no_bits a a (omega arith)).0

pub bit_or-zero : (a : ℕ) → bit_or a 0 ≡ a
bit_or-zero a = (no_bits a a (omega arith)).1

-- `a & (2^k - 1)`
mod_double : (a p : ℕ) → a / 2 % p * 2 + a % 2 ≡ a % (2 * p)
mod_double a p =
    let q : a / 2 / p ≡ a / (2 * p) = div-div-eq-div-mul a 2 p in
    let m : 2 * p * (a / (2 * p)) ≡ 2 * (p * (a / (2 * p))) = mul_assoc 2 p (a / (2 * p)) in
    let e : p * (a / 2 / p) ≡ p * (a / (2 * p)) = ap (λ k. p * k) q in
    omega (arith, div-add-mod (a / 2) p, div-add-mod a (2 * p), m, e)

pub bit_and-low : (k a : ℕ) → bit_and a (2 ^ k - 1) ≡ a % 2 ^ k
bit_and-low zero a = omega (arith, bit_and-zero a)
bit_and-low (suc k) a =
    let half : (2 ^ suc k - 1) / 2 ≡ 2 ^ k - 1 = omega (arith, two-pow-succ k, one-le-pow k 2) in
    let pow : 2 ^ suc k ≡ 2 * 2 ^ k = omega (arith, two-pow-succ k) in
    omega (
      arith,
      bit_and_digit a (2 ^ suc k - 1),
      ap (λ n. bit_and (a / 2) n) half,
      bit_and-low k (a / 2),
      mod_double a (2 ^ k),
      ap (λ n. a % n) pow,
      two-pow-succ k,
      one-le-pow k 2,
    )

-- `a & (m << k)`
pub bit_and-high : (k a m : ℕ) → bit_and a (2 ^ k * m) ≡ bit_and (a / 2 ^ k) m * 2 ^ k
bit_and-high zero a m =
    let same : 2 ^ 0 * m ≡ m = omega arith in
    let all : a / 2 ^ 0 ≡ a = omega arith in
    omega (arith, ap (λ n. bit_and a n) same, ap (λ n. bit_and n m) all)
bit_and-high (suc k) a m =
    let e : 2 ^ suc k * m ≡ 2 * (2 ^ k * m) =
      ap (λ n. n * m) (omega (arith, two-pow-succ k)) ∙ mul_assoc 2 (2 ^ k) m in
    let half : 2 ^ suc k * m / 2 ≡ 2 ^ k * m = omega (arith, e) in
    let q : a / 2 / 2 ^ k ≡ a / 2 ^ suc k =
      div-div-eq-div-mul a 2 (2 ^ k) ∙ ap (λ n. a / n) (omega (arith, two-pow-succ k)) in
    let top = bit_and (a / 2 ^ suc k) m in
    let double : top * 2 ^ suc k ≡ top * 2 ^ k * 2 =
      ap (λ n. top * n) (omega (arith, two-pow-succ k)) ∙ sym (mul_assoc top (2 ^ k) 2) in
    omega (
      arith,
      bit_and_digit a (2 ^ suc k * m),
      ap (λ n. bit_and (a / 2) n) half,
      bit_and-high k (a / 2) m,
      ap (λ n. bit_and n m * 2 ^ k) q,
      double,
      e,
    )

-- `(a << k) | b` for a small `b`
pub bit_or-sum : (k a b : ℕ) → b < 2 ^ k → bit_or (a * 2 ^ k) b ≡ a * 2 ^ k + b
bit_or-sum zero a b h = omega (arith, bit_or-zero (a * 2 ^ 0), ap (λ n. bit_or (a * 2 ^ 0) n) none)
  where
    none : b ≡ 0
    none = omega arith
bit_or-sum (suc k) a b h =
    let double : a * 2 ^ suc k ≡ a * 2 ^ k * 2 =
      ap (λ n. a * n) (omega (arith, two-pow-succ k)) ∙ sym (mul_assoc a (2 ^ k) 2) in
    let half : a * 2 ^ suc k / 2 ≡ a * 2 ^ k = omega (arith, double) in
    omega (
      arith,
      bit_or_digit (a * 2 ^ suc k) b,
      ap (λ n. bit_or n (b / 2)) half,
      bit_or-sum k a (b / 2) (omega (arith, two-pow-succ k)),
      double,
    )

-- All the bits of a word.
pub bit_and-all : (k a : ℕ) → a < 2 ^ k → bit_and a (2 ^ k - 1) ≡ a
bit_and-all k a h = bit_and-low k a ∙ mod-eq_of_lt h
