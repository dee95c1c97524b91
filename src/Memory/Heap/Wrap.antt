-- ===== src/Memory/Heap/Wrap.antt =====
-- kernel/mm/heap.c: a request that does not fit between the end of the heap and the end of the
-- address space.
use zurich_os.Base.{ℕ, ◌+◌, ◌^◌, ◌≤◌, ◌<◌, ◌≡◌, Option, some}
use zurich_os.Memory.Frames.{align_page}
use zurich_os.Memory.Heap.{Heap, header_size, block_size}
use zurich_os.Memory.Heap.Layout.{IsOk}

-- What the caller gets: an address with less room behind it than was asked for, no new page, and a
-- heap whose end lies below its last block.
pub record Wrapped (h : Heap) (size : ℕ) (r : Option ℕ × Heap) : Type 0 where
  pub given : r.0 ≡ some (h.heap_end + header_size)
  pub beyond : 2 ^ 32 < h.heap_end + header_size + size
  pub frames : r.1.frames ≡ h.frames
  pub end : r.1.heap_end < h.heap_end

module _ (stale size : ℕ) (h : Heap) (o : IsOk h) (small : size + 2 ^ 13 ≤ 2 ^ 32)
    (over : 2 ^ 32 ≤ h.heap_end + size) where
  new_end : ℕ
  new_end = align_page (h.heap_end + (header_size + block_size size))
