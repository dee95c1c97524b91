-- ===== src/Memory/Heap/Sound.antt =====
-- kernel/mm/heap.c: every call keeps the blocks in order, apart, and inside the heap.
use zurich_os.Base.{
  ℕ, ◌+◌, ◌^◌, ◌≤◌, ◌<◌, ◌≡◌, ◌⊎◌, inl, inr, refl, ap, Bool, true, false, Option, none, some, List,
  [], ◌∷◌, ◌++◌, ltb, ◌==◌, if_false, if_cases, if_holds, arith,
}
use zurich_os.Memory.Frames.{Frames, align_page}
use zurich_os.Memory.Paging.{Paging}
use zurich_os.Memory.Heap.{
  Block, Heap, header_size, with_pages, heap_expand, block_size, take_block, count_allocation,
  block_at, append_block, allocate, kmalloc, find_block, release_block, header_of, kfree,
}
use zurich_os.Memory.Heap.Layout.{
  Fits, IsOk, block_size_fits, take_block-Taken, Taken-Laid, Taken-AllFit, Laid-append,
  AllFit-append,
}
use zurich_os.Memory.Heap.Release.{release-Laid, release-AllFit}

-- What the layout needs of the other fields.
pub record SameBlocks (h h' : Heap) : Type 0 where
  pub blocks : h'.blocks ≡ h.blocks
  pub heap_start : h'.heap_start ≡ h.heap_start
  pub heap_max : h'.heap_max ≡ h.heap_max

-- What `heap_expand` does to the heap.
pub data Expanded (h : Heap) (size : ℕ) (r : Bool × Heap) : Type 0 where
  grown :
      r.0 ≡ true
      → r.1.heap_end ≡ align_page (h.heap_end + size)
      → align_page (h.heap_end + size) ≤ h.heap_max
      → SameBlocks h r.1
      → Expanded h size r
  kept : r.0 ≡ false → r.1.heap_end ≡ h.heap_end → SameBlocks h r.1 → Expanded h size r

with_pages-Expanded :
    (h : Heap) (size : ℕ) (r : Bool × Paging × Frames)
    → align_page (h.heap_end + size) ≤ h.heap_max
    → Expanded h size (with_pages h (align_page (h.heap_end + size)) r)
with_pages-Expanded h size (true, v, p) le =
    grown refl refl le (record { blocks = refl; heap_start = refl; heap_max = refl })
with_pages-Expanded h size (false, v, p) le =
    kept refl refl (record { blocks = refl; heap_start = refl; heap_max = refl })

pub heap_expand-Expanded : (h : Heap) (size : ℕ) → Expanded h size (heap_expand h size)
unfolding heap_expand
heap_expand-Expanded h size =
    if_cases (Expanded h size) (ltb h.heap_max (align_page (h.heap_end + size)))
      (λ _. kept refl refl (record { blocks = refl; heap_start = refl; heap_max = refl }))
      (λ e. with_pages-Expanded h size _ (ground arith))

-- A request so small that no sum of the code wraps.
abbrev pub Modest : Heap → ℕ → Type 0
Modest h size = h.heap_end + size + 2 ^ 13 ≤ 2 ^ 32

pub block_size-le : (size : ℕ) → size + 2 ^ 13 ≤ 2 ^ 32 → block_size size ≤ size + 19
unfolding block_size
block_size-le size h = ground arith

le-align_page : (a : ℕ) → a + 4095 < 2 ^ 32 → a ≤ align_page a
le-align_page a h = omega arith

counted-IsOk : (h : Heap) (n : ℕ) → IsOk h → IsOk (count_allocation n h)
unfolding count_allocation
counted-IsOk h n o = record { laid = o.laid; fits = o.fits; within = o.within; max = o.max }

append_block-IsOk :
    (h : Heap) (size : ℕ) (r : Bool × Heap)
    → IsOk h
    → Modest h size
    → Expanded h (header_size + block_size size) r
    → IsOk (append_block h.heap_end (block_size size) size r).1
unfolding append_block
append_block-IsOk h size (true, h') o m (kept e end s) = absurd (ground arith)
append_block-IsOk h size (false, h') o m (grown e end le s) = absurd (ground arith)
append_block-IsOk h size (false, h') o m (kept e end s) = record {
  laid = rw (s.blocks, s.heap_start, end) o.laid;
  fits = rw s.blocks o.fits;
  within = rw (s.heap_max, end) o.within;
  max = rw s.heap_max o.max;
}
append_block-IsOk h size (true, h') o m (grown e end le s) =
    let b = block_at h.heap_end (block_size size) size in
    let fits : Fits b = λ _. block_size_fits size (omega arith) in
    let small = block_size-le size (omega arith) in
    let above : b.addr + header_size + b.size
        ≤ align_page (h.heap_end + (header_size + block_size size)) =
      omega (arith, le-align_page (h.heap_end + (header_size + block_size size)) (omega arith)) in
    counted-IsOk (record h' { blocks = h'.blocks ++ b ∷ [] }) size
      (record {
        laid =
            rw (s.blocks, s.heap_start, end)
              (Laid-append h.heap_start h.blocks h.heap_end _ b o.laid (omega arith) above);
        fits = rw s.blocks (AllFit-append h.blocks b o.fits fits);
        within = rw (s.heap_max, end) le;
        max = rw s.heap_max o.max;
      })

allocate-IsOk :
    (stale size : ℕ) (h : Heap) (t : Option (ℕ × List Block))
    → IsOk h
    → Modest h size
    → take_block stale (block_size size) size h.blocks ≡ t
    → IsOk (allocate (block_size size) size h t).1
unfolding allocate
allocate-IsOk stale size h none o m e =
    append_block-IsOk h size (heap_expand h (header_size + block_size size)) o m
      (heap_expand-Expanded h (header_size + block_size size))
allocate-IsOk stale size h (some (a, bs)) o m e =
    let small = block_size-le size (omega arith) in
    let t = take_block-Taken stale (block_size size) size h.blocks a bs e in
    counted-IsOk (record h { blocks = bs }) size
      (record {
        laid =
            Taken-Laid stale (block_size size) size h.blocks a bs h.heap_start h.heap_end
              (omega arith) t o.laid;
        fits =
            Taken-AllFit stale (block_size size) size h.blocks a bs
              (block_size_fits size (omega arith)) t o.fits;
        within = o.within;
        max = o.max;
      })

pub kmalloc-IsOk :
    (stale size : ℕ) (h : Heap) → IsOk h → Modest h size → IsOk (kmalloc stale size h).1
unfolding kmalloc
kmalloc-IsOk stale size h o m =
    if_holds (λ (r : Option ℕ × Heap). IsOk r.1) (size == 0) o
      (allocate-IsOk stale size h (take_block stale (block_size size) size h.blocks) o m refl)

-- A heap, where there is one, is sound.
abbrev pub MaybeOk : Option Heap → Type 0
MaybeOk none = Unit {0}
MaybeOk (some h) = IsOk h

release_block-MaybeOk :
    (magic : Bool) (a : ℕ) (h : Heap) (b : Option Block)
    → IsOk h
    → MaybeOk (release_block magic a h b)
unfolding release_block
release_block-MaybeOk magic a h none o = if_holds MaybeOk magic tt o
release_block-MaybeOk magic a h (some b) o = record {
  laid = release-Laid a h.heap_start h.blocks h.heap_end (omega (arith, o.within, o.max)) o.laid;
  fits = release-AllFit a h.blocks o.fits;
  within = o.within;
  max = o.max;
}

pub kfree-MaybeOk : (magic : Bool) (ptr : ℕ) (h : Heap) → IsOk h → MaybeOk (kfree magic ptr h)
unfolding kfree
kfree-MaybeOk magic ptr h o =
    if_holds MaybeOk (ptr == 0) o
      (release_block-MaybeOk magic (header_of ptr) h (find_block (header_of ptr) h.blocks) o)

-- The pointer is null, belongs to a block of the list, or has no magic number in front.
abbrev pub IsFreeable : Bool → ℕ → Heap → Type 0
IsFreeable magic ptr h =
    (ptr ≡ 0) ⊎ (magic ≡ false) ⊎ ((b : Block) × (find_block (header_of ptr) h.blocks ≡ some b))

-- Then the call returns.
pub kfree-IsFreeable :
    (magic : Bool) (ptr : ℕ) (h : Heap)
    → IsFreeable magic ptr h
    → (h' : Heap) × (kfree magic ptr h ≡ some h')
unfolding kfree release_block
kfree-IsFreeable magic ptr h ok =
    if_cases (λ (o : Option Heap). (h' : Heap) × (o ≡ some h')) (ptr == 0) (λ _. (h, refl))
      (other ok)
  where
    other :
        IsFreeable magic ptr h
        → (ptr == 0) ≡ false
        → (h' : Heap) × (release_block magic (header_of ptr) h (find_block (header_of ptr) h.blocks)
            ≡ some h')
    other (inl null) off = absurd (ground arith)
    other (inr (inl unmarked)) off = without (find_block (header_of ptr) h.blocks)
      where
        without :
            (o : Option Block) → (h' : Heap) × (release_block magic (header_of ptr) h o ≡ some h')
        without none = (h, if_false magic none (some h) unmarked)
        without (some b) = (_, refl)
    other (inr (inr (b, found))) off = (_, ap (release_block magic (header_of ptr) h) found)
