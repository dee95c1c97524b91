-- ===== src/Memory/Frames/Bitmap.antt =====
-- The bitmap as a predicate on frames.
use native.Mathlib.Decide.{ℕ_discrete}
use zurich_os.Base.{
  ℕ, ◌/◌, ◌%◌, ◌^◌, ◌<◌, ◌≡◌, Bool, not, ◌&&◌, ◌||◌, List, ◌==◌, get_or, length, get_or-set_self,
  get_or-set_ne, get_or-set_keeps, arith,
}
use zurich_os.Base.Bits.{
  bit, bit_not, bit-bit_and, bit-bit_or, bit-bit_not, bit-pow, bit_and-lt, bit_or-lt, pow_lt,
  mask_test,
}
use zurich_os.Memory.Frames.{bitmap_set, bitmap_clear, bitmap_test}

-- The bit of a frame.
abbrev pub frame_bit : List ℕ → ℕ → Bool
frame_bit b f = bit (get_or b (f / 32) 0) (f % 32)

-- Every word of the bitmap is a `uint32_t`.
abbrev pub WordsFit : List ℕ → Type 0
WordsFit b = (i : ℕ) → get_or b i 0 < 2 ^ 32

bit_lt : (f : ℕ) → 2 ^ (f % 32) < 2 ^ 32
bit_lt f = pow_lt (f % 32) 32 (omega arith)

pub test_frame_bit : (b : List ℕ) (f : ℕ) → WordsFit b → bitmap_test b f ≡ frame_bit b f
unfolding bitmap_test
test_frame_bit b f w = mask_test 32 (get_or b (f / 32) 0) (f % 32) (omega arith) (w (f / 32))

pub set-WordsFit : (b : List ℕ) (f : ℕ) → WordsFit b → WordsFit (bitmap_set b f)
unfolding bitmap_set
set-WordsFit b f w i =
    get_or-set_keeps (λ k. k < 2 ^ 32) b (f / 32) i _ 0
      (bit_or-lt (get_or b (f / 32) 0) (2 ^ (f % 32)) 32 (w (f / 32)) (bit_lt f)) (w i)

pub clear-WordsFit : (b : List ℕ) (f : ℕ) → WordsFit b → WordsFit (bitmap_clear b f)
unfolding bitmap_clear
clear-WordsFit b f w i =
    get_or-set_keeps (λ k. k < 2 ^ 32) b (f / 32) i _ 0
      (bit_and-lt (get_or b (f / 32) 0) (bit_not 32 (2 ^ (f % 32))) 32 (w (f / 32))) (w i)

-- Setting a frame's bit changes that frame alone.
pub frame_bit-set :
    (b : List ℕ) (f g : ℕ)
    → f / 32 < length b
    → frame_bit (bitmap_set b f) g ≡ (g == f || frame_bit b g)
unfolding bitmap_set
frame_bit-set b f g h = elim (ℕ_discrete (f / 32) (g / 32)) [
  | yes e ↦ rw (← e) (
      rw (get_or-set_self b (f / 32) _ 0 h) (
        ground (
          arith,
          bit-bit_or (get_or b (f / 32) 0) (2 ^ (f % 32)) (g % 32),
          bit-pow (g % 32) (f % 32),
        )))
  | no e ↦ rw (get_or-set_ne b (f / 32) (g / 32) _ 0 e) (ground arith)
]

-- Clearing a frame's bit changes that frame alone.
pub frame_bit-clear :
    (b : List ℕ) (f g : ℕ)
    → f / 32 < length b
    → frame_bit (bitmap_clear b f) g ≡ (not (g == f) && frame_bit b g)
unfolding bitmap_clear
frame_bit-clear b f g h = elim (ℕ_discrete (f / 32) (g / 32)) [
  | yes e ↦ rw (← e) (
      rw (get_or-set_self b (f / 32) _ 0 h) (
        ground (
          arith,
          bit-bit_and (get_or b (f / 32) 0) (bit_not 32 (2 ^ (f % 32))) (g % 32),
          bit-bit_not 32 (2 ^ (f % 32)) (g % 32) (omega arith) (bit_lt f),
          bit-pow (g % 32) (f % 32),
        )))
  | no e ↦ rw (get_or-set_ne b (f / 32) (g / 32) _ 0 e) (ground arith)
]
