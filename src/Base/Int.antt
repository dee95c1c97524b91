-- ===== src/Base/Int.antt =====
-- C integers that may be negative, under the library's names (its ℤ stands on the unary ℕ), and
-- the index test that opens most operations on a table.
use Prim.Native.Nat.{ℕ, zero, suc, ◌-◌, ◌<◌}
use mathlib.Core.Path.{◌≡◌}
use mathlib.Core.Bool.{Bool, false}
use mathlib.Core.Option.{Option, none, some}
use native.Mathlib.Omega.{arith}
use zurich_os.Base.Tests.{ltb, leb, ◌==◌, if◌then◌else◌}

-- `negsuc n` is -(n + 1).
pub data ℤ : Type 0 where
  pos : ℕ → ℤ
  negsuc : ℕ → ℤ

-- -n, as error codes are written.
abbrev pub neg : ℕ → ℤ
neg zero = pos 0
neg (suc n) = negsuc n

-- a - b, as an integer.
abbrev pub sub_ℕ : ℕ → ℕ → ℤ
sub_ℕ a b = if leb b a then pos (a - b) else negsuc (b - a - 1)

-- The index that passes `if (i < 0 || i >= n) return`.
abbrev pub index? : ℕ → ℤ → Option ℕ
index? n (pos i) = if ltb i n then some i else none
index? n (negsuc i) = none

pub index?-lt : (n : ℕ) (z : ℤ) {i : ℕ} → index? n z ≡ some i → i < n
index?-lt n (pos j) h = ground arith
index?-lt n (negsuc j) h = ground arith

abbrev pub eqb_ℤ : ℤ → ℤ → Bool
eqb_ℤ (pos a) (pos b) = a == b
eqb_ℤ (negsuc a) (negsuc b) = a == b
eqb_ℤ _ _ = false
