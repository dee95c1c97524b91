-- ===== src/Memory/Frames/Invariant.antt =====
-- The invariant of the frame allocator: the counter of used frames counts the set bits.
use native.Mathlib.Decide.{ℕ_discrete}
use zurich_os.Base.{
  ℕ, suc, ◌+◌, ◌-◌, ◌/◌, ◌^◌, ◌<◌, ◌≤◌, ◌≡◌, sym, ◌∙◌, Bool, true, false, not, ◌&&◌, ◌||◌, List,
  leb, ◌==◌, length, length-set, if_cases, arith,
}
use zurich_os.Memory.Frames.{
  Frames, page_size, u32, bitmap_set, bitmap_clear, bitmap_test, mark_used, free_frame,
}
use zurich_os.Memory.Frames.Count.{count_below, count-le, count_add, count_remove}
use zurich_os.Memory.Frames.Bitmap.{
  frame_bit, WordsFit, test_frame_bit, set-WordsFit, clear-WordsFit, frame_bit-set, frame_bit-clear,
}

-- Whether a frame is in use.
abbrev pub is_used : Frames → ℕ → Bool
is_used p f = frame_bit p.bitmap f

pub record IsOk (p : Frames) : Type 0 where
  pub words : WordsFit p.bitmap
  pub size : length p.bitmap ≡ p.bitmap_size
  pub cover : p.bitmap_size ≡ (p.total_frames + 31) / 32
  pub small : p.total_frames ≤ 2 ^ 20
  pub counted : p.used_frames ≡ count_below p.total_frames (is_used p)

length-bitmap_set : (b : List ℕ) (f : ℕ) → length (bitmap_set b f) ≡ length b
unfolding bitmap_set
length-bitmap_set b f = length-set b (f / 32) _

length-bitmap_clear : (b : List ℕ) (f : ℕ) → length (bitmap_clear b f) ≡ length b
unfolding bitmap_clear
length-bitmap_clear b f = length-set b (f / 32) _

pub in_bitmap : (p : Frames) (f : ℕ) → IsOk p → f < p.total_frames → f / 32 < length p.bitmap
in_bitmap p f k h = omega (arith, k.size, k.cover)

unfoldable pub taken : Frames → ℕ → Frames
taken p f = record p { bitmap = bitmap_set p.bitmap f; used_frames = u32 (p.used_frames + 1) }

unfoldable pub released : Frames → ℕ → Frames
released p f = record p {
  bitmap = bitmap_clear p.bitmap f;
  used_frames = u32 (p.used_frames + 2 ^ 32 - 1);
}

module _ (p : Frames) (f : ℕ) (k : IsOk p) (lt : f < p.total_frames) where
  pub is_used-taken : (g : ℕ) → is_used (taken p f) g ≡ (g == f || is_used p g)
  unfolding taken
  is_used-taken g = frame_bit-set p.bitmap f g (in_bitmap p f k lt)

  pub is_used-released : (g : ℕ) → is_used (released p f) g ≡ (not (g == f) && is_used p g)
  unfolding released
  is_used-released g = frame_bit-clear p.bitmap f g (in_bitmap p f k lt)

  pub taken-IsOk : is_used p f ≡ false → IsOk (taken p f)
  unfolding taken
  taken-IsOk off =
      let more : count_below p.total_frames (is_used (taken p f))
          ≡ suc (count_below p.total_frames (is_used p)) =
        count_add p.total_frames f (is_used p) (is_used (taken p f)) lt off is_used-taken in
      record {
        words = set-WordsFit p.bitmap f k.words;
        size = length-bitmap_set p.bitmap f ∙ k.size;
        cover = k.cover;
        small = k.small;
        counted = omega (arith, more, k.counted, k.small, count-le p.total_frames (is_used p));
      }

  pub released-IsOk : is_used p f ≡ true → IsOk (released p f)
  unfolding released
  released-IsOk on =
      let less : suc (count_below p.total_frames (is_used (released p f)))
          ≡ count_below p.total_frames (is_used p) =
        count_remove p.total_frames f (is_used p) (is_used (released p f)) lt on is_used-released in
      record {
        words = clear-WordsFit p.bitmap f k.words;
        size = length-bitmap_clear p.bitmap f ∙ k.size;
        cover = k.cover;
        small = k.small;
        counted = omega (arith, less, k.counted, k.small, count-le p.total_frames (is_used p));
      }

-- `pmm_mark_used` keeps the invariant.
pub mark_used-IsOk : (p : Frames) (addr : ℕ) → IsOk p → IsOk (mark_used p addr)
unfolding mark_used taken
mark_used-IsOk p addr k =
    let f : ℕ = addr / page_size in
    if_cases IsOk (leb p.total_frames f) (λ _. k)
      (λ below.
        if_cases IsOk (bitmap_test p.bitmap f) (λ _. k)
          (λ off. taken-IsOk p f k (ground arith) (sym (test_frame_bit p.bitmap f k.words) ∙ off)))

-- `pmm_free_frame` keeps the invariant.
pub free_frame-IsOk : (p : Frames) (addr : ℕ) → IsOk p → IsOk (free_frame p addr)
unfolding free_frame released
free_frame-IsOk p addr k =
    let f : ℕ = addr / page_size in
    if_cases IsOk (leb p.total_frames f) (λ _. k)
      (λ below.
        if_cases IsOk (bitmap_test p.bitmap f)
          (λ on. released-IsOk p f k (ground arith) (sym (test_frame_bit p.bitmap f k.words) ∙ on))
          (λ _. k))

skipped : (b : ℕ → Bool) (g f : ℕ) → b f ≡ false → b g ≡ (not (g == f) && b g)
skipped b g f off = elim (ℕ_discrete g f) [ yes e ↦ rw e (ground arith) | no e ↦ ground arith ]

-- `pmm_free_frame` frees the frame of the address, if it is one of the frames, and no other.
pub is_used-free_frame :
    (p : Frames) (addr g : ℕ)
    → IsOk p
    → g < p.total_frames
    → is_used (free_frame p addr) g ≡ (not (g == addr / page_size) && is_used p g)
unfolding free_frame released
is_used-free_frame p addr g k lt =
    let f : ℕ = addr / page_size in
    if_cases (λ q. is_used q g ≡ (not (g == f) && is_used p g)) (leb p.total_frames f)
      (λ above. ground arith)
      (λ below.
        if_cases (λ q. is_used q g ≡ (not (g == f) && is_used p g)) (bitmap_test p.bitmap f)
          (λ on. is_used-released p f k (ground arith) g)
          (λ off. skipped (is_used p) g f (sym (test_frame_bit p.bitmap f k.words) ∙ off)))
