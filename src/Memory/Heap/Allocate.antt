-- ===== src/Memory/Heap/Allocate.antt =====
-- kernel/mm/heap.c: the allocations that are live after `kmalloc`.
use zurich_os.Base.{
  ℕ, ◌+◌, ◌≤◌, ◌≡◌, ◌≢◌, ◌↔◌, ◌⊎◌, inl, inr, refl, sym, ap, ◌∙◌, Bool, true, false, Option, none,
  some, List, [], ◌∷◌, ◌++◌, ◌==◌, if_holds, arith,
}
use zurich_os.Memory.Heap.{
  Block, Heap, header_size, guard_size, heap_expand, block_size, carve, take_block,
  count_allocation, block_at, append_block, allocate, kmalloc,
}
use zurich_os.Memory.Heap.Layout.{Laid, AllFit, IsOk, Taken, take_block-Taken}
use zurich_os.Memory.Heap.Sound.{Modest, kmalloc-IsOk, Expanded, grown, kept, heap_expand-Expanded}
use zurich_os.Memory.Heap.Live.{
  Live, Uses-free, Live-bounds, Apart, Live-Apart, NewOr, carve-Live, carve-NewOr,
}

Live-of : (p n : ℕ) (bs cs : List Block) → bs ≡ cs → Live p n cs → Live p n bs
Live-of p n bs cs e v = rw e v

module _ (stale size user_size p n : ℕ) where
  pass_over :
      (ptr : ℕ) (b : Block) (bs rest : List Block)
      → (Live p n rest → NewOr ptr user_size p n bs)
      → Live p n (b ∷ rest)
      → NewOr ptr user_size p n (b ∷ bs)
  pass_over ptr b bs rest ih (inl u) = inr (inl u)
  pass_over ptr b bs rest ih (inr w) = elim (ih w) [ inl e ↦ inl e | inr x ↦ inr (inr x) ]

  Taken-Live :
      (bs : List Block) (a : ℕ) (cs : List Block)
      → Taken stale size user_size bs a cs
      → Live p n cs
      → NewOr (a + header_size) user_size p n bs
  Taken-Live [] a cs t v = absurd t
  Taken-Live (b ∷ bs) a cs (inl t) v =
      elim (carve-Live stale size user_size b bs p n
        (Live-of p n (carve stale size user_size b bs) cs t.3 v)) [
          | inl e ↦ inl (omega (arith, e.0, t.2), e.1)
          | inr w ↦ inr (inr w)
        ]
  Taken-Live (b ∷ bs) a cs (inr (rest, e, t)) v =
      pass_over (a + header_size) b bs rest (λ w. Taken-Live bs a rest t w)
        (Live-of p n (b ∷ rest) cs e v)

  Taken-NewOr :
      (bs : List Block) (a : ℕ) (cs : List Block)
      → Taken stale size user_size bs a cs
      → NewOr (a + header_size) user_size p n bs
      → Live p n cs
  Taken-NewOr [] a cs t v = absurd t
  Taken-NewOr (b ∷ bs) a cs (inl t) (inl e) =
      Live-of p n cs (carve stale size user_size b bs) (sym t.3)
        (carve-NewOr stale size user_size b bs p n (inl (omega (arith, e.0, t.2), e.1)))
  Taken-NewOr (b ∷ bs) a cs (inl t) (inr (inl u)) = absurd (Uses-free p n b t.0 u)
  Taken-NewOr (b ∷ bs) a cs (inl t) (inr (inr w)) =
      Live-of p n cs (carve stale size user_size b bs) (sym t.3)
        (carve-NewOr stale size user_size b bs p n (inr w))
  Taken-NewOr (b ∷ bs) a cs (inr (rest, e, t)) (inl q) =
      Live-of p n cs (b ∷ rest) (sym e) (inr (Taken-NewOr bs a rest t (inl q)))
  Taken-NewOr (b ∷ bs) a cs (inr (rest, e, t)) (inr (inl u)) =
      Live-of p n cs (b ∷ rest) (sym e) (inl u)
  Taken-NewOr (b ∷ bs) a cs (inr (rest, e, t)) (inr (inr w)) =
      Live-of p n cs (b ∷ rest) (sym e) (inr (Taken-NewOr bs a rest t (inr w)))

  append-Live :
      (bs : List Block) (b : Block)
      → b.free ≡ false
      → b.user_size ≡ user_size
      → Live p n (bs ++ b ∷ [])
      → NewOr (b.addr + header_size) user_size p n bs
  append-Live [] b off e (inl u) = inl (sym u.1, sym u.2 ∙ e)
  append-Live [] b off e (inr v) = absurd v
  append-Live (c ∷ bs) b off e v =
      pass_over (b.addr + header_size) c bs (bs ++ b ∷ []) (λ w. append-Live bs b off e w) v

  append-NewOr :
      (bs : List Block) (b : Block)
      → b.free ≡ false
      → b.user_size ≡ user_size
      → NewOr (b.addr + header_size) user_size p n bs
      → Live p n (bs ++ b ∷ [])
  append-NewOr [] b off e (inl q) = inl (off, sym q.0, e ∙ sym q.1)
  append-NewOr [] b off e (inr v) = absurd v
  append-NewOr (c ∷ bs) b off e (inl q) = inr (append-NewOr bs b off e (inl q))
  append-NewOr (c ∷ bs) b off e (inr (inl u)) = inl u
  append-NewOr (c ∷ bs) b off e (inr (inr w)) = inr (append-NewOr bs b off e (inr w))

module _ (stale size user_size : ℕ) where
  Taken-bounds :
      (bs : List Block) (a : ℕ) (cs : List Block) (lo hi : ℕ)
      → Taken stale size user_size bs a cs
      → Laid lo bs hi
      → lo ≤ a
  Taken-bounds [] a cs lo hi t l = absurd t
  Taken-bounds (b ∷ bs) a cs lo hi (inl t) l = omega (arith, t.2, l.0)
  Taken-bounds (b ∷ bs) a cs lo hi (inr (rest, e, t)) l =
      let later = Taken-bounds bs a rest (b.addr + header_size + b.size) hi t l.1 in
      omega (arith, l.0, later)

  -- The address was in no use before.
  Taken-fresh :
      (bs : List Block) (a : ℕ) (cs : List Block) (lo hi n : ℕ)
      → Taken stale size user_size bs a cs
      → Laid lo bs hi
      → AllFit bs
      → ¬ Live (a + header_size) n bs
  Taken-fresh [] a cs lo hi n t l f v = absurd t
  Taken-fresh (b ∷ bs) a cs lo hi n (inl t) l f (inl u) = Uses-free (a + header_size) n b t.0 u
  Taken-fresh (b ∷ bs) a cs lo hi n (inl t) l f (inr v) =
      let later = Live-bounds (a + header_size) n (b.addr + header_size + b.size) hi bs l.1 f.1 v in
      absurd (omega (arith, later.0, t.2))
  Taken-fresh (b ∷ bs) a cs lo hi n (inr (rest, e, t)) l f (inl u) =
      let later = Taken-bounds bs a rest (b.addr + header_size + b.size) hi t l.1 in
      absurd (omega (arith, later, u.1))
  Taken-fresh (b ∷ bs) a cs lo hi n (inr (rest, e, t)) l f (inr v) =
      Taken-fresh bs a rest (b.addr + header_size + b.size) hi n t l.1 f.1 v

-- What a request gives: memory that was not in use, and then is, beside all that was; or nothing.
pub data Allocated (h : Heap) (size : ℕ) (r : Option ℕ × Heap) : Type 0 where
  given :
      (ptr : ℕ)
      → r.0 ≡ some ptr
      → ((n : ℕ) → ¬ Live ptr n h.blocks)
      → ((p n : ℕ) → Live p n r.1.blocks ↔ NewOr ptr size p n h.blocks)
      → Allocated h size r
  refused : r.0 ≡ none → r.1.blocks ≡ h.blocks → Allocated h size r

append_block-Allocated :
    (h : Heap) (need size : ℕ) (r : Bool × Heap)
    → IsOk h
    → Expanded h (header_size + need) r
    → Allocated h size (append_block h.heap_end need size r)
unfolding append_block count_allocation
append_block-Allocated h need size (true, h') o (kept e end s) = absurd (ground arith)
append_block-Allocated h need size (false, h') o (grown e end le s) = absurd (ground arith)
append_block-Allocated h need size (false, h') o (kept e end s) = refused refl s.blocks
append_block-Allocated h need size (true, h') o (grown e end le s) =
    let b = block_at h.heap_end need size in
    given (h.heap_end + header_size) refl
      (λ n v.
        let old =
          Live-bounds (h.heap_end + header_size) n h.heap_start h.heap_end h.blocks o.laid o.fits
            v in
        absurd (omega (arith, old.1)))
      (λ p n. (
        (λ v. append-Live need need size p n h.blocks b refl refl (
            Live-of p n (h.blocks ++ b ∷ []) (h'.blocks ++ b ∷ [])
              (ap (λ x. x ++ b ∷ []) (sym s.blocks)) v)),
        (λ v.
            Live-of p n (h'.blocks ++ b ∷ []) (h.blocks ++ b ∷ []) (ap (λ x. x ++ b ∷ []) s.blocks)
              (append-NewOr need need size p n h.blocks b refl refl v)),
      ))

allocate-Allocated :
    (stale need size : ℕ) (h : Heap) (t : Option (ℕ × List Block))
    → IsOk h
    → take_block stale need size h.blocks ≡ t
    → Allocated h size (allocate need size h t)
unfolding allocate count_allocation
allocate-Allocated stale need size h none o e =
    append_block-Allocated h need size (heap_expand h (header_size + need)) o
      (heap_expand-Expanded h (header_size + need))
allocate-Allocated stale need size h (some (a, bs)) o e =
    let t = take_block-Taken stale need size h.blocks a bs e in
    given (a + header_size) refl
      (λ n. Taken-fresh stale need size h.blocks a bs h.heap_start h.heap_end n t o.laid o.fits)
      (λ p n. (
        (λ v. Taken-Live stale need size p n h.blocks a bs t v),
        (λ v. Taken-NewOr stale need size p n h.blocks a bs t v),
      ))

kmalloc_gives : (stale size : ℕ) (h : Heap) → IsOk h → Allocated h size (kmalloc stale size h)
unfolding kmalloc
kmalloc_gives stale size h o = if_holds (Allocated h size) (size == 0) (refused refl refl) (
    allocate-Allocated stale (block_size size) size h
      (take_block stale (block_size size) size h.blocks) o refl)

-- The same with the place of the memory: inside the heap with its guard, and apart from the other
-- allocations and their guards.
pub data Granted (h : Heap) (size : ℕ) (r : Option ℕ × Heap) : Type 0 where
  granted :
      (ptr : ℕ)
      → r.0 ≡ some ptr
      → ((n : ℕ) → ¬ Live ptr n h.blocks)
      → ((p n : ℕ) → Live p n r.1.blocks ↔ NewOr ptr size p n h.blocks)
      → (r.1.heap_start + header_size ≤ ptr)
      → (ptr + size + guard_size ≤ r.1.heap_end)
      → ((q m : ℕ) → Live q m h.blocks → (ptr + size + guard_size ≤ q) ⊎ (q + m + guard_size ≤ ptr))
      → Granted h size r
  nothing : r.0 ≡ none → r.1.blocks ≡ h.blocks → Granted h size r

-- `kmalloc` of a size so small that no sum wraps gives an address that no live allocation has, and
-- the live allocations are then the old ones and this one, of the size asked for; its bytes and its
-- guard lie inside the heap and overlap no other allocation or its guard. Or it gives nothing and
-- leaves the blocks alone.
pub kmalloc-Allocated :
    (stale size : ℕ) (h : Heap) → IsOk h → Modest h size → Granted h size (kmalloc stale size h)
kmalloc-Allocated stale size h o small = elim (kmalloc_gives stale size h o) [
  | refused e same ↦ nothing e same
  | given ptr e fresh all ↦
      let r : Option ℕ × Heap = kmalloc stale size h in
      let o' = kmalloc-IsOk stale size h o small in
      let here = (all ptr size).1 (inl (refl, refl)) in
      let inside =
        Live-bounds ptr size r.1.heap_start r.1.heap_end r.1.blocks o'.laid o'.fits here in
      granted ptr e fresh all inside.0 inside.1 (λ q m v.
        others ptr q m (λ same. fresh m (rw same v))
          (Live-Apart ptr size q m r.1.heap_start r.1.heap_end r.1.blocks o'.laid o'.fits here
            ((all q m).1 (inr v))))
]
  where
    others :
        (ptr q m : ℕ)
        → (ptr ≢ q)
        → Apart ptr size q m
        → (ptr + size + guard_size ≤ q) ⊎ (q + m + guard_size ≤ ptr)
    others ptr q m ne (inl same) = absurd (ne same.0)
    others ptr q m ne (inr apart) = apart
