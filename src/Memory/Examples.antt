-- ===== src/Memory/Examples.antt =====
-- The theorems on pmm.c at a memory of 32 frames, of which the lowest four are in use.
use zurich_os.Base.{zero, suc, refl, [], ◌∷◌, arith}
use zurich_os.Memory.Frames.{Frames, alloc_frame, free_frame}
use zurich_os.Memory.Frames.Bitmap.{WordsFit}
use zurich_os.Memory.Frames.Invariant.{IsOk, free_frame-IsOk}
use zurich_os.Memory.Frames.Alloc.{Allocated, alloc_frame-Allocated, alloc_frame-IsOk}

abbrev small : Frames
small = record {
  bitmap = 15 ∷ [];
  bitmap_size = 1;
  total_frames = 32;
  used_frames = 4;
  total_memory = 131072;
}

small_IsOk : IsOk small
small_IsOk = record {
  words = words;
  size = refl;
  cover = refl;
  small = omega arith;
  counted = refl;
}
  where
    words : WordsFit (15 ∷ [])
    words zero = omega arith
    words (suc i) = omega arith

alloc_frame-Allocated_example : Allocated small (alloc_frame small)
alloc_frame-Allocated_example = alloc_frame-Allocated small small_IsOk

alloc_frame-IsOk_example : IsOk (alloc_frame small).1
alloc_frame-IsOk_example = alloc_frame-IsOk small small_IsOk

free_frame-IsOk_example : IsOk (free_frame small 8192)
free_frame-IsOk_example = free_frame-IsOk small 8192 small_IsOk
