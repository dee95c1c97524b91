-- ===== src/Memory/Heap/Examples.antt =====
-- The theorems on kernel/mm/heap.c at a small heap, and at one that reaches high addresses.
use zurich_os.Base.{
  ℕ, ◌+◌, ◌^◌, ◌≤◌, ◌≡◌, ◌≢◌, ◌↔◌, inl, inr, refl, true, false, some, List, [], ◌∷◌, arith,
}
use zurich_os.Memory.Frames.{Frames}
use zurich_os.Memory.Heap.{
  Heap, header_size, guard_size, block_size, carve, take_block, count_allocation, kmalloc, kfree,
  find_block,
}
use zurich_os.Memory.Heap.Layout.{IsOk}
use zurich_os.Memory.Heap.Live.{Live, Apart}
use zurich_os.Memory.Heap.Allocate.{Granted, kmalloc-Allocated}
use zurich_os.Memory.Heap.Free.{kfree-Live}
use zurich_os.Memory.Heap.Runs.{Call, malloc, free, run, run-Apart}

abbrev no_frames : Frames
no_frames = record {
  bitmap = [];
  bitmap_size = 0;
  total_frames = 0;
  used_frames = 0;
  total_memory = 0;
}

-- One free block of 200 bytes at 16.
abbrev small_heap : Heap
small_heap = record {
  heap_start = 16;
  heap_end = 4096;
  heap_max = 2 ^ 20;
  blocks = record { addr = 16; size = 200; user_size = 0; free = true } ∷ [];
  total_allocations = 0;
  total_frees = 0;
  current_allocations = 0;
  bytes_allocated = 0;
  peak_allocations = 0;
  peak_bytes = 0;
  paging = record { directory = []; tables = [] };
  frames = no_frames;
}

small_heap-IsOk : IsOk small_heap
small_heap-IsOk = record {
  laid = (omega arith, omega arith);
  fits = ((λ off. cc), tt);
  within = omega arith;
  max = omega arith;
}

kmalloc-Allocated_example : Granted small_heap 10 (kmalloc 7 10 small_heap)
kmalloc-Allocated_example = kmalloc-Allocated 7 10 small_heap small_heap-IsOk (omega arith)

-- The block in use, of 10 bytes.
abbrev used_heap : Heap
used_heap = record small_heap {
  blocks =
      record { addr = 16; size = 16; user_size = 10; free = false }
      ∷ record { addr = 56; size = 160; user_size = 7; free = true }
      ∷ [];
}

used_heap-IsOk : IsOk used_heap
used_heap-IsOk = record {
  laid = (omega arith, (omega arith, omega arith));
  fits = ((λ on. omega arith), ((λ off. cc), tt));
  within = omega arith;
  max = omega arith;
}

kfree-Live_example :
    (h' : Heap) × (kfree false 40 used_heap ≡ some h')
    × ((p m : ℕ) → Live p m h'.blocks ↔ ((p ≢ 40) × Live p m used_heap.blocks))
kfree-Live_example = kfree-Live false 40 10 used_heap used_heap-IsOk (inl (refl, refl, refl))

-- Two requests, then the first is freed.
abbrev calls : List Call
calls = malloc 7 10 ∷ malloc 7 30 ∷ free true 40 ∷ []

run-Apart_example :
    (h' : Heap) × (run calls (some small_heap) ≡ some h')
    × ((p n q m : ℕ)
        → Live p n h'.blocks
        → Live q m h'.blocks
        → (h'.heap_start + header_size ≤ p) × (p + n + guard_size ≤ h'.heap_end) × Apart p n q m)
unfolding kmalloc take_block carve block_size count_allocation find_block kfree
run-Apart_example =
    run-Apart calls small_heap small_heap-IsOk
      (omega arith, (omega arith, (inr (inr (_, refl)), tt)))

-- One allocation is left.
left : (h' : Heap) × (run calls (some small_heap) ≡ some h') × Live 80 30 h'.blocks
unfolding kmalloc take_block carve block_size count_allocation kfree find_block
left = (_, refl, inr (inl (refl, refl, refl)))

-- The kernel's heap before its first block.
abbrev kernel_heap : Heap
kernel_heap = record small_heap {
  heap_start = 0xD0000000;
  heap_end = 0xD0000000;
  heap_max = 0xD0800000;
  blocks = [];
}
