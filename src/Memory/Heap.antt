-- ===== src/Memory/Heap.antt =====
-- kernel/mm/heap.c: the first-fit allocator of the kernel. The blocks are listed in the order of
-- their `next` pointers, and `prev` leads to the block before; every block of the list carries the
-- magic number. The guard word behind the user's bytes is only ever reported on, and is left out but
-- for its room.
pub mod Layout
pub mod Release
pub mod Sound
pub mod Live
pub mod Allocate
pub mod Free
pub mod Runs
pub mod Wrap
mod Examples
use zurich_os.Base.{
  ℕ, zero, suc, ◌+◌, ◌-◌, ◌*◌, ◌/◌, ◌%◌, ◌^◌, Bool, true, false, ◌&&◌, not, Option, none, some,
  List, [], ◌∷◌, ◌++◌, ltb, leb, ◌==◌, if◌then◌else◌, max,
}
use zurich_os.Memory.Frames.{Frames, alloc_frame, u32, page_size, align_page}
use zurich_os.Memory.Paging.{Paging, map_page, page_kernel}

pub record Block : Type 0 where
  pub addr : ℕ
  pub size : ℕ
  pub user_size : ℕ
  pub free : Bool

pub record Heap : Type 0 where
  pub heap_start : ℕ
  pub heap_end : ℕ
  pub heap_max : ℕ
  pub blocks : List Block
  pub total_allocations : ℕ
  pub total_frees : ℕ
  pub current_allocations : ℕ
  pub bytes_allocated : ℕ
  pub peak_allocations : ℕ
  pub peak_bytes : ℕ
  pub paging : Paging
  pub frames : Frames

-- `sizeof(heap_block_t)`: five words and a byte, in full words.
abbrev pub header_size : ℕ
header_size = 24

abbrev pub guard_size : ℕ
guard_size = 4

abbrev pub heap_min_size : ℕ
heap_min_size = 16

-- `ALIGN_UP(a, 16)`
abbrev pub align_16 : ℕ → ℕ
align_16 a = u32 (a + 15) / 16 * 16

unfoldable pub heap_init : Heap → ℕ → ℕ → Heap
heap_init h start size = record h {
  heap_start = align_16 start;
  heap_end = align_16 start;
  heap_max = u32 (align_16 start + size);
  blocks = [];
}

-- The loop of `heap_expand`: `n` pages are left, the next at `addr`. The flag says whether every
-- page got a frame.
unfoldable pub back_pages : ℕ → ℕ → Paging × Frames → Bool × Paging × Frames
back_pages zero addr (v, p) = (true, v, p)
back_pages (suc n) addr (v, p) =
    let (phys, p') = alloc_frame p in
    let rest = back_pages n (addr + page_size) (map_page v p' addr phys page_kernel) in
    if phys == 0 then (false, v, p') else rest

-- The rounds of that loop, `addr` growing by a page from `heap_end` to `new_end`.
abbrev pub pages_between : ℕ → ℕ → ℕ
pages_between low high = (high - low + (page_size - 1)) / page_size

abbrev pub with_pages : Heap → ℕ → Bool × Paging × Frames → Bool × Heap
with_pages h new_end (true, v, p) = (true, record h { heap_end = new_end; paging = v; frames = p })
with_pages h new_end (false, v, p) = (false, record h { paging = v; frames = p })

unfoldable pub heap_expand : Heap → ℕ → Bool × Heap
heap_expand h size =
    let new_end = align_page (h.heap_end + size) in
    if ltb h.heap_max new_end
    then (false, h)
    else with_pages h new_end
        (back_pages (pages_between h.heap_end new_end) h.heap_end (h.paging, h.frames))

-- The size of the block for a request.
unfoldable pub block_size : ℕ → ℕ
block_size size =
    let aligned = align_16 (size + guard_size) in
    if ltb aligned heap_min_size then heap_min_size else aligned

-- The block found, cut in two if the rest can hold a block. `stale` is what stood in memory where
-- the rest has its `user_size`, which the code does not write.
unfoldable pub carve : ℕ → ℕ → ℕ → Block → List Block → List Block
carve stale size user_size b bs =
    if leb (u32 (size + header_size + heap_min_size)) b.size
    then record b { size = size; free = false; user_size = user_size }
      ∷ record {
        addr = b.addr + header_size + size;
        size = b.size - size - header_size;
        user_size = stale;
        free = true;
      }
      ∷ bs
    else record b { free = false; user_size = user_size } ∷ bs

abbrev pub behind : Block → Option (ℕ × List Block) → Option (ℕ × List Block)
behind b none = none
behind b (some (a, bs)) = some (a, b ∷ bs)

-- The loop over the blocks: the address of the first free one that is large enough, and the blocks
-- once it is taken.
unfoldable pub take_block : ℕ → ℕ → ℕ → List Block → Option (ℕ × List Block)
unfolding carve
take_block stale size user_size [] = none
take_block stale size user_size (b ∷ bs) =
    if b.free && leb size b.size
    then some (b.addr, carve stale size user_size b bs)
    else behind b (take_block stale size user_size bs)

unfoldable pub count_allocation : ℕ → Heap → Heap
count_allocation user_size h =
    let current = u32 (h.current_allocations + 1) in
    let bytes = u32 (h.bytes_allocated + user_size) in
    record h {
      total_allocations = u32 (h.total_allocations + 1);
      current_allocations = current;
      bytes_allocated = bytes;
      peak_allocations = if ltb h.peak_allocations current then current else h.peak_allocations;
      peak_bytes = if ltb h.peak_bytes bytes then bytes else h.peak_bytes;
    }

abbrev pub block_at : ℕ → ℕ → ℕ → Block
block_at a size user_size = record { addr = a; size = size; user_size = user_size; free = false }

append_block : ℕ → ℕ → ℕ → Bool × Heap → Option ℕ × Heap
unfolding count_allocation
append_block a size user_size (false, h) = (none, h)
append_block a size user_size (true, h) = (
  some (a + header_size),
  count_allocation user_size (record h { blocks = h.blocks ++ block_at a size user_size ∷ [] }),
)

allocate : ℕ → ℕ → Heap → Option (ℕ × List Block) → Option ℕ × Heap
unfolding append_block count_allocation
allocate size user_size h (some (a, bs)) =
    (some (a + header_size), count_allocation user_size (record h { blocks = bs }))
allocate size user_size h none =
    append_block h.heap_end size user_size (heap_expand h (header_size + size))

unfoldable pub kmalloc : ℕ → ℕ → Heap → Option ℕ × Heap
unfolding allocate take_block
kmalloc stale user_size h =
    if user_size == 0
    then (none, h)
    else allocate (block_size user_size) user_size h
        (take_block stale (block_size user_size) user_size h.blocks)

abbrev pub freed : Block → Block
freed b = record b { free = true }

abbrev pub joined : Block → Block → Block
joined b n = record b { size = u32 (b.size + header_size + n.size) }

unfoldable pub merge_next : Block → List Block → List Block
merge_next b [] = b ∷ []
merge_next b (n ∷ bs) = if n.free then joined b n ∷ bs else b ∷ n ∷ bs

unfoldable pub merge_prev : Block → List Block → List Block
merge_prev p [] = p ∷ []
merge_prev p (b ∷ bs) = if p.free then joined p b ∷ bs else p ∷ b ∷ bs

-- The block at `a` becomes free and is joined with its neighbours; `p` stands before the list.
unfoldable pub free_after : ℕ → Block → List Block → List Block
unfolding merge_next merge_prev
free_after a p [] = p ∷ []
free_after a p (b ∷ bs) =
    if b.addr == a then merge_prev p (merge_next (freed b) bs) else p ∷ free_after a b bs

unfoldable pub release : ℕ → List Block → List Block
unfolding free_after
release a [] = []
release a (b ∷ bs) = if b.addr == a then merge_next (freed b) bs else free_after a b bs

-- The block of the list that begins at the address.
unfoldable pub find_block : ℕ → List Block → Option Block
find_block a [] = none
find_block a (b ∷ bs) = if b.addr == a then some b else find_block a bs

release_block : Bool → ℕ → Heap → Option Block → Option Heap
release_block magic a h none = if magic then none else some h
release_block magic a h (some b) = some (record h {
  blocks = release a h.blocks;
  total_frees = u32 (h.total_frees + 1);
  current_allocations = u32 (h.current_allocations + 2 ^ 32 - 1);
  bytes_allocated = u32 (h.bytes_allocated + 2 ^ 32 - b.user_size);
})

abbrev pub header_of : ℕ → ℕ
header_of ptr = u32 (ptr + 2 ^ 32 - header_size)

-- `magic` says whether memory holds the magic number in front of a pointer where no block of the list
-- begins, as it does at a block that a merge has absorbed. The code then takes for a block what stands
-- there; the model ends with `none`.
unfoldable pub kfree : Bool → ℕ → Heap → Option Heap
unfolding find_block release release_block
kfree magic ptr h =
    if ptr == 0
    then some h
    else release_block magic (header_of ptr) h (find_block (header_of ptr) h.blocks)

unfoldable pub heap_check_leaks : Heap → ℕ
heap_check_leaks h =
    if not (h.total_allocations == h.total_frees)
    then u32 (h.total_allocations + 2 ^ 32 - h.total_frees)
    else 0
