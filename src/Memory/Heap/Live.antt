-- ===== src/Memory/Heap/Live.antt =====
-- kernel/mm/heap.c: which allocations are live, and what `kmalloc` adds to them.
use zurich_os.Base.{
  ℕ, ◌+◌, ◌-◌, ◌≤◌, ◌≡◌, ◌⊎◌, inl, inr, refl, sym, ◌∙◌, true, false, List, [], ◌∷◌, leb, if_holds,
  arith,
}
use zurich_os.Memory.Frames.{u32}
use zurich_os.Memory.Heap.{Block, header_size, guard_size, heap_min_size, carve}
use zurich_os.Memory.Heap.Layout.{Laid, AllFit, Laid-le}

-- The block is in use, and holds `n` bytes for the caller at `p`.
abbrev pub Uses : ℕ → ℕ → Block → Type 0
Uses p n b = (b.free ≡ false) × (b.addr + header_size ≡ p) × (b.user_size ≡ n)

-- Some block of the list does.
abbrev pub Live : ℕ → ℕ → List Block → Type 0
Live p n [] = ⊥
Live p n (b ∷ bs) = Uses p n b ⊎ Live p n bs

pub Uses-free : (p n : ℕ) (b : Block) → b.free ≡ true → ¬ Uses p n b
Uses-free p n b on u = cc (u.0)

-- An allocation lies inside, with its guard.
pub Live-bounds :
    (p n lo hi : ℕ) (bs : List Block)
    → Laid lo bs hi
    → AllFit bs
    → Live p n bs
    → (lo + header_size ≤ p) × (p + n + guard_size ≤ hi)
Live-bounds p n lo hi [] l f v = absurd v
Live-bounds p n lo hi (b ∷ bs) l f (inl u) =
    let end = Laid-le (b.addr + header_size + b.size) bs hi l.1 in
    let fit = f.0 u.0 in (omega (arith, u.1, l.0), omega (arith, u.1, u.2, fit, end))
Live-bounds p n lo hi (b ∷ bs) l f (inr v) =
    let rest = Live-bounds p n (b.addr + header_size + b.size) hi bs l.1 f.1 v in
    (omega (arith, l.0, rest.0), rest.1)

-- Two allocations are the same, or do not overlap.
abbrev pub Apart : ℕ → ℕ → ℕ → ℕ → Type 0
Apart p n q m = ((p ≡ q) × (n ≡ m)) ⊎ ((p + n + guard_size ≤ q) ⊎ (q + m + guard_size ≤ p))

pub Live-Apart :
    (p n q m lo hi : ℕ) (bs : List Block)
    → Laid lo bs hi
    → AllFit bs
    → Live p n bs
    → Live q m bs
    → Apart p n q m
Live-Apart p n q m lo hi [] l f v w = absurd v
Live-Apart p n q m lo hi (b ∷ bs) l f (inl u) (inl w) = inl (sym u.1 ∙ w.1, sym u.2 ∙ w.2)
Live-Apart p n q m lo hi (b ∷ bs) l f (inl u) (inr w) =
    let rest = Live-bounds q m (b.addr + header_size + b.size) hi bs l.1 f.1 w in
    let fit = f.0 u.0 in inr (inl (omega (arith, u.1, u.2, fit, rest.0)))
Live-Apart p n q m lo hi (b ∷ bs) l f (inr v) (inl u) =
    let rest = Live-bounds p n (b.addr + header_size + b.size) hi bs l.1 f.1 v in
    let fit = f.0 u.0 in inr (inr (omega (arith, u.1, u.2, fit, rest.0)))
Live-Apart p n q m lo hi (b ∷ bs) l f (inr v) (inr w) =
    Live-Apart p n q m (b.addr + header_size + b.size) hi bs l.1 f.1 v w

-- The allocation at `p` is the new one, or an old one.
abbrev pub NewOr : ℕ → ℕ → ℕ → ℕ → List Block → Type 0
NewOr ptr size p n bs = ((p ≡ ptr) × (n ≡ size)) ⊎ Live p n bs

module _ (stale size user_size : ℕ) (b : Block) (bs : List Block) (p n : ℕ) where
  pub carve-Live :
      Live p n (carve stale size user_size b bs) → NewOr (b.addr + header_size) user_size p n bs
  unfolding carve
  carve-Live =
      if_holds (λ x. Live p n x → NewOr (b.addr + header_size) user_size p n bs)
        (leb (u32 (size + header_size + heap_min_size)) b.size) split whole
    where
      first :
          (c : Block)
          → c.addr ≡ b.addr
          → c.user_size ≡ user_size
          → Uses p n c
          → NewOr (b.addr + header_size) user_size p n bs
      first c e s u = inl (omega (arith, u.1), omega (arith, u.2))

      whole :
          Live p n (record b { free = false; user_size = user_size } ∷ bs)
          → NewOr (b.addr + header_size) user_size p n bs
      whole (inl u) = first (record b { free = false; user_size = user_size }) refl refl u
      whole (inr v) = inr v

      split :
          Live p n (
            record b { size = size; free = false; user_size = user_size }
            ∷ record {
              addr = b.addr + header_size + size;
              size = b.size - size - header_size;
              user_size = stale;
              free = true;
            }
            ∷ bs)
          → NewOr (b.addr + header_size) user_size p n bs
      split (inl u) =
          first (record b { size = size; free = false; user_size = user_size }) refl refl u
      split (inr (inl u)) = absurd (ground arith)
      split (inr (inr v)) = inr v

  pub carve-NewOr :
      NewOr (b.addr + header_size) user_size p n bs → Live p n (carve stale size user_size b bs)
  unfolding carve
  carve-NewOr (inl e) =
      if_holds (λ x. Live p n x) (leb (u32 (size + header_size + heap_min_size)) b.size)
        (inl (refl, sym e.0, sym e.1)) (inl (refl, sym e.0, sym e.1))
  carve-NewOr (inr v) =
      if_holds (λ x. Live p n x) (leb (u32 (size + header_size + heap_min_size)) b.size)
        (inr (inr v)) (inr v)
