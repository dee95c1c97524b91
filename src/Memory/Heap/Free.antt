-- ===== src/Memory/Heap/Free.antt =====
-- kernel/mm/heap.c: the allocations that are live after `kfree`.
use zurich_os.Base.{
  ℕ, ◌+◌, ◌-◌, ◌≤◌, ◌≡◌, ◌≢◌, ◌⊎◌, ◌↔◌, inl, inr, refl, sym, ap, ◌∙◌, Bool, true, false, some, List,
  [], ◌∷◌, ◌==◌, if_cases, if_true, if_false, Bool-cases, arith,
}
use zurich_os.Memory.Heap.{
  Block, Heap, header_size, freed, joined, merge_next, merge_prev, free_after, release, find_block,
  release_block, header_of, kfree,
}
use zurich_os.Memory.Heap.Layout.{Laid, AllFit, IsOk}
use zurich_os.Memory.Heap.Live.{Live, Uses-free, Live-bounds}

-- A freed block and its next one become a free block, and the rest keeps its allocations.
record Merged (bs cs : List Block) : Type 0 where
  head : Block
  tail : List Block
  shape : cs ≡ head ∷ tail
  free : head.free ≡ true
  live : (p n : ℕ) → Live p n tail ↔ Live p n bs

merge_next-Merged : (b : Block) (bs : List Block) → b.free ≡ true → Merged bs (merge_next b bs)
unfolding merge_next
merge_next-Merged b [] on = record {
  head = b;
  tail = [];
  shape = refl;
  free = on;
  live = λ p n. ((λ v. v), (λ v. v));
}
merge_next-Merged b (m ∷ bs) on =
    if_cases (Merged (m ∷ bs)) m.free
      (λ gone. record {
        head = joined b m;
        tail = bs;
        shape = refl;
        free = on;
        live = λ p n.
            ((λ v. inr v), λ v. elim v [ inl u ↦ absurd (Uses-free p n m gone u) | inr w ↦ w ]);
      })
      (λ _. record {
        head = b;
        tail = m ∷ bs;
        shape = refl;
        free = on;
        live = λ p n. ((λ v. v), (λ v. v));
      })

-- The list has the allocations of the old one, but for the freed address.
abbrev Without : ℕ → List Block → List Block → Type 0
Without a bs cs = (p n : ℕ) → Live p n cs ↔ ((p ≢ a + header_size) × Live p n bs)

module _ (a : ℕ) where
  -- The allocations behind the freed block have other addresses.
  behind_apart :
      (p n lo hi : ℕ) (bs : List Block)
      → a + header_size ≤ lo
      → Laid lo bs hi
      → AllFit bs
      → Live p n bs
      → p ≢ a + header_size
  behind_apart p n lo hi bs above l f v e =
      let inside = Live-bounds p n lo hi bs l f v in omega (arith, inside.0)

  Merged-Without :
      (b : Block) (bs : List Block) (hi : ℕ) (cs : List Block)
      → b.addr ≡ a
      → Laid (b.addr + header_size + b.size) bs hi
      → AllFit bs
      → Merged bs cs
      → Without a (b ∷ bs) cs
  Merged-Without b bs hi cs here l f m p n = (there, back)
    where
      there : Live p n cs → (p ≢ a + header_size) × Live p n (b ∷ bs)
      there v = after (rw m.shape at v)
        where
          after : Live p n (m.head ∷ m.tail) → (p ≢ a + header_size) × Live p n (b ∷ bs)
          after (inl u) = absurd (Uses-free p n m.head m.free u)
          after (inr w) =
              let old = (m.live p n).0 w in
              (
                behind_apart p n (b.addr + header_size + b.size) hi bs (omega arith) l f old,
                inr old,
              )

      back : (p ≢ a + header_size) × Live p n (b ∷ bs) → Live p n cs
      back (ne, inl u) = absurd (ne (omega (arith, u.1)))
      back (ne, inr w) = rw m.shape (inr ((m.live p n).1 w))

  cons-Without :
      (c : Block) (bs cs : List Block) → c.addr ≢ a → Without a bs cs → Without a (c ∷ bs) (c ∷ cs)
  cons-Without c bs cs ne w p n = (there, back)
    where
      there : Live p n (c ∷ cs) → (p ≢ a + header_size) × Live p n (c ∷ bs)
      there (inl u) = ((λ e. ne (omega (arith, u.1, e))), inl u)
      there (inr v) = (((w p n).0 v).0, inr ((w p n).0 v).1)

      back : (p ≢ a + header_size) × Live p n (c ∷ bs) → Live p n (c ∷ cs)
      back (out, inl u) = inl u
      back (out, inr v) = inr ((w p n).1 (out, v))

  -- Joining a block with a free one behind it changes no allocation.
  merge_prev-Without :
      (c b : Block) (bs cs : List Block)
      → c.addr ≢ a
      → Merged bs cs
      → Without a (b ∷ bs) cs
      → Without a (c ∷ b ∷ bs) (merge_prev c cs)
  unfolding merge_prev
  merge_prev-Without c b bs cs ne m w =
      rw m.shape (joins (cons-Without c (b ∷ bs) (m.head ∷ m.tail) ne (rw m.shape at w)))
    where
      joins :
          Without a (c ∷ b ∷ bs) (c ∷ m.head ∷ m.tail)
          → Without a (c ∷ b ∷ bs) (merge_prev c (m.head ∷ m.tail))
      joins whole =
          if_cases (λ x. Without a (c ∷ b ∷ bs) x) c.free
            (λ on p n.
              ((λ v. (whole p n).0 (inr (drop_head p n on v))), λ v. keep p n on ((whole p n).1 v)))
            (λ _. whole)
        where
          drop_head :
              (p n : ℕ)
              → c.free ≡ true
              → Live p n (joined c m.head ∷ m.tail)
              → Live p n (m.head ∷ m.tail)
          drop_head p n on (inl u) = absurd (Uses-free p n (joined c m.head) on u)
          drop_head p n on (inr v) = inr v

          keep :
              (p n : ℕ)
              → c.free ≡ true
              → Live p n (c ∷ m.head ∷ m.tail)
              → Live p n (joined c m.head ∷ m.tail)
          keep p n on (inl u) = absurd (Uses-free p n c on u)
          keep p n on (inr (inl u)) = absurd (Uses-free p n m.head m.free u)
          keep p n on (inr (inr v)) = inr v

  free_after-Without :
      (lo : ℕ) (c : Block) (bs : List Block) (hi : ℕ)
      → c.addr ≢ a
      → Laid lo (c ∷ bs) hi
      → AllFit bs
      → Without a (c ∷ bs) (free_after a c bs)
  unfolding free_after
  free_after-Without lo c [] hi ne l f = cons-Without c [] [] ne (λ p n. (absurd, λ v. v.1))
  free_after-Without lo c (b ∷ bs) hi ne l f =
      if_cases (λ x. Without a (c ∷ b ∷ bs) x) (b.addr == a)
        (λ e.
          let m = merge_next-Merged (freed b) bs refl in
          merge_prev-Without c b bs (merge_next (freed b) bs) ne m
            (Merged-Without b bs hi (merge_next (freed b) bs) (ground arith) l.1.1 f.1 m))
        (λ e.
          cons-Without c (b ∷ bs) (free_after a b bs) ne
            (free_after-Without (c.addr + header_size + c.size) b bs hi (ground arith) l.1 f.1))

  pub release-Without :
      (lo : ℕ) (bs : List Block) (hi : ℕ) → Laid lo bs hi → AllFit bs → Without a bs (release a bs)
  unfolding release
  release-Without lo [] hi l f = λ p n. (absurd, λ v. v.1)
  release-Without lo (b ∷ bs) hi l f =
      if_cases (λ x. Without a (b ∷ bs) x) (b.addr == a)
        (λ e.
          Merged-Without b bs hi (merge_next (freed b) bs) (ground arith) l.1 f.1
            (merge_next-Merged (freed b) bs refl))
        (λ e. free_after-Without lo b bs hi (ground arith) l f.1)

  find-Live :
      (n : ℕ) (bs : List Block)
      → Live (a + header_size) n bs
      → (b : Block) × (find_block a bs ≡ some b)
  unfolding find_block
  find-Live n [] v = absurd v
  find-Live n (b ∷ bs) (inl u) =
      (b, if_true (b.addr == a) (some b) (find_block a bs) (ground arith))
  find-Live n (b ∷ bs) (inr v) =
      let (c, e) = find-Live n bs v in either c e (Bool-cases (b.addr == a))
    where
      either :
          (c : Block)
          → find_block a bs ≡ some c
          → ((b.addr == a) ≡ true) ⊎ ((b.addr == a) ≡ false)
          → (x : Block) × (find_block a (b ∷ bs) ≡ some x)
      either c e (inl on) = (b, if_true (b.addr == a) (some b) (find_block a bs) on)
      either c e (inr off) = (c, if_false (b.addr == a) (some b) (find_block a bs) off ∙ e)

-- `kfree` of a live allocation returns, and ends it and no other.
pub kfree-Live :
    (magic : Bool) (ptr n : ℕ) (h : Heap)
    → IsOk h
    → Live ptr n h.blocks
    → (h' : Heap) × (kfree magic ptr h ≡ some h')
      × ((p m : ℕ) → Live p m h'.blocks ↔ ((p ≢ ptr) × Live p m h.blocks))
unfolding kfree release_block
kfree-Live magic ptr n h o v =
    let a = ptr - header_size in
    let inside = Live-bounds ptr n h.heap_start h.heap_end h.blocks o.laid o.fits v in
    let above : header_size ≤ ptr = omega (arith, inside.0) in
    let whole : ptr ≡ a + header_size = omega arith in
    let place : header_of ptr ≡ a = omega (arith, inside.1, o.within, o.max) in
    let (b, found) = find-Live a n h.blocks (rw whole at v) in
    (
      _,
      if_false (ptr == 0) (some h) _ (ground arith)
          ∙ ap (λ c. release_block magic c h (find_block c h.blocks)) place
          ∙ ap (release_block magic a h) found,
      λ p m.
          let w = release-Without a h.heap_start h.blocks h.heap_end o.laid o.fits p m in
          (
            (λ x. ((λ e. (w.0 x).0 (e ∙ whole)), (w.0 x).1)),
            λ x. w.1 ((λ e. x.0 (e ∙ sym whole)), x.1),
          ),
    )
