-- ===== src/Memory/Heap/Layout.antt =====
-- kernel/mm/heap.c: where the blocks lie. They stand in the order of their addresses and do not
-- overlap, and the user's bytes and the guard fit the block.
use zurich_os.Base.{
  ℕ, ◌+◌, ◌-◌, ◌^◌, ◌≤◌, ◌<◌, ◌≡◌, ◌⊎◌, inl, inr, refl, ap, Bool, true, false, ◌&&◌, Option, none,
  some, List, [], ◌∷◌, ◌++◌, leb, if◌then◌else◌, if_cases, if_holds, arith,
}
use zurich_os.Memory.Frames.{u32}
use zurich_os.Memory.Heap.{
  Block, Heap, header_size, guard_size, heap_min_size, block_size, carve, behind, take_block,
}

-- The blocks lie one behind another between the addresses.
abbrev pub Laid : ℕ → List Block → ℕ → Type 0
Laid lo [] hi = lo ≤ hi
Laid lo (b ∷ bs) hi = (lo ≤ b.addr) × Laid (b.addr + header_size + b.size) bs hi

-- The bytes in use and the guard fit.
abbrev pub Fits : Block → Type 0
Fits b = b.free ≡ false → b.user_size + guard_size ≤ b.size

abbrev pub AllFit : List Block → Type 0
AllFit [] = Unit {0}
AllFit (b ∷ bs) = Fits b × AllFit bs

pub record IsOk (h : Heap) : Type 0 where
  pub laid : Laid h.heap_start h.blocks h.heap_end
  pub fits : AllFit h.blocks
  pub within : h.heap_end ≤ h.heap_max
  pub max : h.heap_max < 2 ^ 32

pub Laid-le : (lo : ℕ) (bs : List Block) (hi : ℕ) → Laid lo bs hi → lo ≤ hi
Laid-le lo [] hi l = l
Laid-le lo (b ∷ bs) hi l = omega (arith, Laid-le (b.addr + header_size + b.size) bs hi l.1, l.0)

-- A lower start and a higher end do no harm.
pub Laid-lower : (lo lo' : ℕ) (bs : List Block) (hi : ℕ) → lo' ≤ lo → Laid lo bs hi → Laid lo' bs hi
Laid-lower lo lo' [] hi le l = omega arith
Laid-lower lo lo' (b ∷ bs) hi le l = (omega (arith, l.0), l.1)

-- The room for a request with its guard, where the sum does not wrap.
pub block_size_fits :
    (size : ℕ) → size + guard_size + 15 < 2 ^ 32 → size + guard_size ≤ block_size size
unfolding block_size
block_size_fits size h = ground arith

carve-Laid :
    (stale size user_size : ℕ) (b : Block) (bs : List Block) (lo hi : ℕ)
    → size + header_size + heap_min_size < 2 ^ 32
    → Laid lo (b ∷ bs) hi
    → Laid lo (carve stale size user_size b bs) hi
unfolding carve
carve-Laid stale size user_size b bs lo hi small l =
    if_cases (λ x. Laid lo x hi) (leb (u32 (size + header_size + heap_min_size)) b.size)
      (λ e.
        let room : size + header_size + heap_min_size ≤ b.size = ground arith in
        let end : b.addr + header_size + size + header_size + (b.size - size - header_size)
            ≡ b.addr + header_size + b.size =
          omega arith in
        (l.0, (omega arith, rw end l.1)))
      (λ _. l)

carve-AllFit :
    (stale size user_size : ℕ) (b : Block) (bs : List Block)
    → user_size + guard_size ≤ size
    → size ≤ b.size
    → AllFit bs
    → AllFit (carve stale size user_size b bs)
unfolding carve
carve-AllFit stale size user_size b bs room le f =
    if_holds AllFit (leb (u32 (size + header_size + heap_min_size)) b.size)
      ((λ _. room), ((λ e. absurd (ground arith)), f)) ((λ _. omega arith), f)

-- How `take_block` finds its block: the first one is carved, or is passed over.
module _ (stale size user_size : ℕ) where
  abbrev pub Taken : List Block → ℕ → List Block → Type 0
  Taken [] a cs = ⊥
  Taken (b ∷ bs) a cs =
      ((b.free ≡ true) × (size ≤ b.size) × (b.addr ≡ a) × (carve stale size user_size b bs ≡ cs))
      ⊎ ((rest : List Block) × (b ∷ rest ≡ cs) × Taken bs a rest)

  Taken-step :
      (b : Block) (bs : List Block) (a : ℕ) (cs : List Block) (o : Option (ℕ × List Block))
      (fit : Bool)
      → (b.free && leb size b.size) ≡ fit
      → ((rest : List Block) → o ≡ some (a, rest) → Taken bs a rest)
      → (if fit then some (b.addr, carve stale size user_size b bs) else behind b o) ≡ some (a, cs)
      → Taken (b ∷ bs) a cs
  Taken-step b bs a cs o true fit ih e =
      inl (ground arith, ground arith, ground arith, ground arith)
  Taken-step b bs a cs none false fit ih e = absurd (ground arith)
  Taken-step b bs a cs (some (a', rest)) false fit ih e =
      let same : a' ≡ a = ground arith in
      inr (rest, ground arith, ih rest (ap (λ k. some (k, rest)) same))

  pub take_block-Taken :
      (bs : List Block) (a : ℕ) (cs : List Block)
      → take_block stale size user_size bs ≡ some (a, cs)
      → Taken bs a cs
  unfolding take_block
  take_block-Taken [] a cs e = absurd (ground arith)
  take_block-Taken (b ∷ bs) a cs e =
      Taken-step b bs a cs (take_block stale size user_size bs) (b.free && leb size b.size) refl
        (λ rest. take_block-Taken bs a rest) e

  pub Taken-Laid :
      (bs : List Block) (a : ℕ) (cs : List Block) (lo hi : ℕ)
      → size + header_size + heap_min_size < 2 ^ 32
      → Taken bs a cs
      → Laid lo bs hi
      → Laid lo cs hi
  Taken-Laid [] a cs lo hi small t l = absurd t
  Taken-Laid (b ∷ bs) a cs lo hi small (inl t) l =
      rw (← t.3) (carve-Laid stale size user_size b bs lo hi small l)
  Taken-Laid (b ∷ bs) a cs lo hi small (inr (rest, e, t)) l =
      rw (← e) (l.0, Taken-Laid bs a rest (b.addr + header_size + b.size) hi small t l.1)

  pub Taken-AllFit :
      (bs : List Block) (a : ℕ) (cs : List Block)
      → user_size + guard_size ≤ size
      → Taken bs a cs
      → AllFit bs
      → AllFit cs
  Taken-AllFit [] a cs room t f = absurd t
  Taken-AllFit (b ∷ bs) a cs room (inl t) f =
      rw (← t.3) (carve-AllFit stale size user_size b bs room t.1 f.1)
  Taken-AllFit (b ∷ bs) a cs room (inr (rest, e, t)) f =
      rw (← e) (f.0, Taken-AllFit bs a rest room t f.1)

pub Laid-append :
    (lo : ℕ) (bs : List Block) (mid hi : ℕ) (b : Block)
    → Laid lo bs mid
    → mid ≤ b.addr
    → b.addr + header_size + b.size ≤ hi
    → Laid lo (bs ++ b ∷ []) hi
Laid-append lo [] mid hi b l le top = (omega arith, top)
Laid-append lo (c ∷ bs) mid hi b l le top =
    (l.0, Laid-append (c.addr + header_size + c.size) bs mid hi b l.1 le top)

pub AllFit-append : (bs : List Block) (b : Block) → AllFit bs → Fits b → AllFit (bs ++ b ∷ [])
AllFit-append [] b f g = (g, tt)
AllFit-append (c ∷ bs) b f g = (f.0, AllFit-append bs b f.1 g)
