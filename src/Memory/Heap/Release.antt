-- ===== src/Memory/Heap/Release.antt =====
-- kernel/mm/heap.c: freeing a block and joining it with its neighbours keeps the blocks in place.
use zurich_os.Base.{
  ℕ, ◌+◌, ◌^◌, ◌<◌, ◌≡◌, refl, true, List, [], ◌∷◌, ◌==◌, if_cases, if_holds, arith,
}
use zurich_os.Memory.Frames.{u32}
use zurich_os.Memory.Heap.{
  Block, header_size, freed, joined, merge_next, merge_prev, free_after, release,
}
use zurich_os.Memory.Heap.Layout.{Laid, Fits, AllFit, Laid-le, Laid-lower}

-- Joining keeps the layout: the joined block ends where its second part did, or before the gap.
joined-Laid :
    (lo : ℕ) (b n : Block) (bs : List Block) (hi : ℕ)
    → hi < 2 ^ 32
    → Laid lo (b ∷ n ∷ bs) hi
    → Laid lo (joined b n ∷ bs) hi
joined-Laid lo b n bs hi top l =
    let end = Laid-le (n.addr + header_size + n.size) bs hi l.1.1 in
    let size : u32 (b.size + header_size + n.size) ≡ b.size + header_size + n.size =
      omega (arith, l.0, l.1.0) in
    (
      l.0,
      Laid-lower (n.addr + header_size + n.size)
          (b.addr + header_size + u32 (b.size + header_size + n.size)) bs hi (omega (arith, l.1.0))
          l.1.1,
    )

merge_next-Laid :
    (lo : ℕ) (b : Block) (bs : List Block) (hi : ℕ)
    → hi < 2 ^ 32
    → Laid lo (b ∷ bs) hi
    → Laid lo (merge_next b bs) hi
unfolding merge_next
merge_next-Laid lo b [] hi top l = l
merge_next-Laid lo b (n ∷ bs) hi top l =
    if_holds (λ x. Laid lo x hi) n.free (joined-Laid lo b n bs hi top l) l

merge_prev-Laid :
    (lo : ℕ) (p : Block) (bs : List Block) (hi : ℕ)
    → hi < 2 ^ 32
    → Laid lo (p ∷ bs) hi
    → Laid lo (merge_prev p bs) hi
unfolding merge_prev
merge_prev-Laid lo p [] hi top l = l
merge_prev-Laid lo p (b ∷ bs) hi top l =
    if_holds (λ x. Laid lo x hi) p.free (joined-Laid lo p b bs hi top l) l

free_after-Laid :
    (a lo : ℕ) (p : Block) (bs : List Block) (hi : ℕ)
    → hi < 2 ^ 32
    → Laid lo (p ∷ bs) hi
    → Laid lo (free_after a p bs) hi
unfolding free_after
free_after-Laid a lo p [] hi top l = l
free_after-Laid a lo p (b ∷ bs) hi top l =
    if_holds (λ x. Laid lo x hi) (b.addr == a)
      (merge_prev-Laid lo p (merge_next (freed b) bs) hi top
        (l.0, merge_next-Laid (p.addr + header_size + p.size) (freed b) bs hi top l.1))
      (l.0, free_after-Laid a (p.addr + header_size + p.size) b bs hi top l.1)

pub release-Laid :
    (a lo : ℕ) (bs : List Block) (hi : ℕ) → hi < 2 ^ 32 → Laid lo bs hi → Laid lo (release a bs) hi
unfolding release
release-Laid a lo [] hi top l = l
release-Laid a lo (b ∷ bs) hi top l =
    if_holds (λ x. Laid lo x hi) (b.addr == a) (merge_next-Laid lo (freed b) bs hi top l)
      (free_after-Laid a lo b bs hi top l)

-- A joined block is free.
joined-AllFit :
    (b n : Block) (bs : List Block) → b.free ≡ true → AllFit bs → AllFit (joined b n ∷ bs)
joined-AllFit b n bs on f = ((λ off. absurd (ground arith)), f)

merge_next-AllFit :
    (b : Block) (bs : List Block) → b.free ≡ true → AllFit bs → AllFit (merge_next b bs)
unfolding merge_next
merge_next-AllFit b [] on f = ((λ off. absurd (ground arith)), tt)
merge_next-AllFit b (n ∷ bs) on f =
    if_holds AllFit n.free (joined-AllFit b n bs on f.1) ((λ off. absurd (ground arith)), f)

merge_prev-AllFit : (p : Block) (bs : List Block) → Fits p → AllFit bs → AllFit (merge_prev p bs)
unfolding merge_prev
merge_prev-AllFit p [] g f = (g, tt)
merge_prev-AllFit p (b ∷ bs) g f =
    if_cases AllFit p.free (λ on. joined-AllFit p b bs on f.1) (λ _. (g, f))

free_after-AllFit :
    (a : ℕ) (p : Block) (bs : List Block) → Fits p → AllFit bs → AllFit (free_after a p bs)
unfolding free_after
free_after-AllFit a p [] g f = (g, tt)
free_after-AllFit a p (b ∷ bs) g f =
    if_holds AllFit (b.addr == a)
      (merge_prev-AllFit p (merge_next (freed b) bs) g (merge_next-AllFit (freed b) bs refl f.1))
      (g, free_after-AllFit a b bs f.0 f.1)

pub release-AllFit : (a : ℕ) (bs : List Block) → AllFit bs → AllFit (release a bs)
unfolding release
release-AllFit a [] f = tt
release-AllFit a (b ∷ bs) f =
    if_holds AllFit (b.addr == a) (merge_next-AllFit (freed b) bs refl f.1)
      (free_after-AllFit a b bs f.0 f.1)
