-- ===== src/Memory/Paging/Examples.antt =====
-- The theorems on kernel/mm/vmm.c at empty page tables behind a directory that leads to itself.
use zurich_os.Base.{
  ℕ, zero, suc, ◌+◌, ◌*◌, ◌/◌, ◌%◌, ◌^◌, ◌<◌, ◌≡◌, ◌≢◌, inr, refl, ap, ◌∙◌, List, [], ◌∷◌, get_or,
  replicate, length, length-replicate, if◌then◌else◌, ◌==◌, arith,
}
use zurich_os.Memory.Frames.{Frames, alloc_frame, bitmap_test}
use zurich_os.Memory.Paging.{Paging, map_page, unmap_page, get_physical}
use zurich_os.Memory.Paging.Lookup.{get_physical-map_page, get_physical-unmap_page}
use zurich_os.Memory.Paging.Cells.{IsPaged}
use zurich_os.Memory.Paging.Shape.{map_page-IsPaged}

abbrev some_frames : Frames
some_frames = record {
  bitmap = 15 ∷ [];
  bitmap_size = 1;
  total_frames = 32;
  used_frames = 4;
  total_memory = 131072;
}

row_of : (n i : ℕ) (row : List ℕ) → i < n → get_or (replicate n row) i [] ≡ row
row_of zero i row lt = absurd (omega arith)
row_of (suc n) zero row lt = refl
row_of (suc n) (suc i) row lt = row_of n i row (omega arith)

blank : Paging
blank = record { directory = replicate 1024 0; tables = replicate 1024 (replicate 1024 0) }

blank-IsPaged : IsPaged blank
unfolding blank
blank-IsPaged = record {
  directory = length-replicate {A = ℕ} 1024 0;
  tables = length-replicate 1024 (replicate {A = ℕ} 1024 0);
  table = rows;
}
  where
    rows : (i : ℕ) → i < 1024 → length (get_or blank.tables i []) ≡ 1024
    rows i lt = ap length (row_of 1024 i (replicate 1024 0) lt) ∙ length-replicate {A = ℕ} 1024 0

first_free : (alloc_frame some_frames).0 ≢ 0
unfolding alloc_frame bitmap_test
first_free e = absurd (omega arith)

-- 0x400000 on the frame at 0x200000, for the kernel.
get_physical-map_page_example :
    get_physical (map_page blank some_frames 0x400000 0x200000 3).0 0x400123 ≡ (
      if 0x400123 / 2 ^ 12 == 0x400000 / 2 ^ 12
      then 0x200000 / 2 ^ 12 * 2 ^ 12 + 0x400123 % 2 ^ 12
      else get_physical blank 0x400123)
get_physical-map_page_example =
    get_physical-map_page blank blank-IsPaged 0x400000 0x400123
      (omega arith, (λ e. absurd (omega arith))) (omega arith, (λ e. absurd (omega arith)))
      some_frames 0x200000 3 (omega arith) (inr first_free)

get_physical-unmap_page_example :
    get_physical (unmap_page blank 0x400000) 0x400123
    ≡ (if 0x400123 / 2 ^ 12 == 0x400000 / 2 ^ 12 then 0 else get_physical blank 0x400123)
get_physical-unmap_page_example =
    get_physical-unmap_page blank blank-IsPaged 0x400000 0x400123
      (omega arith, (λ e. absurd (omega arith))) (omega arith, (λ e. absurd (omega arith)))

-- A mapping leads the shape on to the next call.
mapped-IsPaged : IsPaged (map_page blank some_frames 0x400000 0x200000 3).0
mapped-IsPaged = map_page-IsPaged blank some_frames 0x400000 0x200000 3 blank-IsPaged
