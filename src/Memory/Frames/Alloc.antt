-- ===== src/Memory/Frames/Alloc.antt =====
-- `pmm_alloc_frame` hands out the lowest free frame, and fails only where there is none.
use zurich_os.Base.{
  ℕ, zero, suc, ◌+◌, ◌*◌, ◌/◌, ◌%◌, ◌<◌, ◌≤◌, ◌≡◌, refl, sym, ◌∙◌, Bool, true, false, ◌||◌, leb,
  ◌==◌, get_or, if_cases, arith, all_below_sound,
}
use zurich_os.Base.Bits.{bit}
use zurich_os.Memory.Frames.{
  Frames, page_size, full_word, bitmap_test, Search, found, give_up, ran_out, or_on, search_word,
  search, take_found, alloc_frame,
}
use zurich_os.Memory.Frames.Count.{full_count}
use zurich_os.Memory.Frames.Bitmap.{test_frame_bit}
use zurich_os.Memory.Frames.Invariant.{IsOk, is_used, taken, taken-IsOk, is_used-taken}

-- All frames from `lo` on, below `hi`, are in use.
abbrev pub AllUsed : Frames → ℕ → ℕ → Type 0
AllUsed p lo hi = (g : ℕ) → lo ≤ g → g < hi → is_used p g ≡ true

-- What a search of the frames from `lo` on, below `hi`, may answer.
abbrev Right : Frames → ℕ → ℕ → Search → Type 0
Right p lo hi (found f) = (lo ≤ f) × (f < p.total_frames) × (is_used p f ≡ false) × AllUsed p lo f
Right p lo hi give_up = (p.total_frames ≤ hi) × AllUsed p lo p.total_frames
Right p lo hi ran_out = AllUsed p lo hi

AllUsed-join : (p : Frames) (lo mid hi : ℕ) → AllUsed p lo mid → AllUsed p mid hi → AllUsed p lo hi
AllUsed-join p lo mid hi a b g h k = if_side (leb mid g) refl
  where
    if_side : (c : Bool) → leb mid g ≡ c → is_used p g ≡ true
    if_side true e = b g (ground arith) k
    if_side false e = a g h (ground arith)

AllUsed-one : (p : Frames) (lo hi : ℕ) → is_used p lo ≡ true → hi ≡ lo + 1 → AllUsed p lo hi
AllUsed-one p lo hi on e g h k = let same : g ≡ lo = omega arith in rw same on

-- A search that goes on behind frames in use.
Right-extend :
    (p : Frames) (lo mid hi : ℕ) (s : Search)
    → lo ≤ mid
    → AllUsed p lo mid
    → Right p mid hi s
    → Right p lo hi s
Right-extend p lo mid hi (found f) h a r = (omega arith, r.1, r.2, AllUsed-join p lo mid f a r.3)
Right-extend p lo mid hi give_up h a r = (r.0, AllUsed-join p lo mid p.total_frames a r.1)
Right-extend p lo mid hi ran_out h a r = AllUsed-join p lo mid hi a r

search_word-Right :
    (p : Frames) (i n j hi : ℕ)
    → IsOk p
    → i * 32 + j + n ≡ hi
    → Right p (i * 32 + j) hi (search_word p i n j)
unfolding search_word
search_word-Right p i zero j hi k e = λ g h lt. absurd (omega arith)
search_word-Right p i (suc n) j hi k e =
    let f : ℕ = i * 32 + j in
    if_cases (Right p f hi) (leb p.total_frames f)
      (λ above. (ground arith, λ g h lt. absurd (ground arith)))
      (λ below.
        if_cases (Right p f hi) (bitmap_test p.bitmap f)
          (λ on.
            Right-extend p f (i * 32 + (j + 1)) hi (search_word p i n (j + 1)) (omega arith)
              (AllUsed-one p f (i * 32 + (j + 1)) (sym (test_frame_bit p.bitmap f k.words) ∙ on)
                (omega arith))
              (search_word-Right p i n (j + 1) hi k (omega arith)))
          (λ off. (
            omega arith,
            ground arith,
            sym (test_frame_bit p.bitmap f k.words) ∙ off,
            λ g h lt. absurd (omega arith),
          )))

-- A word of ones stands for 32 frames in use.
full_word_used :
    (p : Frames) (i hi : ℕ)
    → get_or p.bitmap i 0 ≡ full_word
    → hi ≡ (i + 1) * 32
    → AllUsed p (i * 32) hi
full_word_used p i hi e h g lo lt =
    let word : g / 32 ≡ i = omega arith in
    rw (word, e) (all_below_sound 32 (λ j. bit full_word j) (g % 32) refl (omega arith))

-- The part of a search behind one word.
or_on-Right :
    (p : Frames) (lo mid hi : ℕ) (s rest : Search)
    → lo ≤ mid
    → mid ≤ hi
    → Right p lo mid s
    → Right p mid hi rest
    → Right p lo hi (or_on s rest)
or_on-Right p lo mid hi (found f) rest h k r q = r
or_on-Right p lo mid hi give_up rest h k r q = (omega (arith, r.0), r.1)
or_on-Right p lo mid hi ran_out rest h k r q = Right-extend p lo mid hi rest h r q

word_Right :
    (p : Frames) (i mid : ℕ)
    → IsOk p
    → mid ≡ (i + 1) * 32
    → Right p (i * 32) mid (search_word p i 32 0)
word_Right p i mid k m =
    let start : i * 32 + 0 ≡ i * 32 = omega arith in
    rw start at (search_word-Right p i 32 0 mid k (omega arith))

search-Right :
    (p : Frames) (n i hi : ℕ) → IsOk p → (i + n) * 32 ≡ hi → Right p (i * 32) hi (search p n i)
unfolding search
search-Right p zero i hi k e = λ g h lt. absurd (omega arith)
search-Right p (suc n) i hi k e =
    let mid : ℕ = (i + 1) * 32 in
    let tail : Right p mid hi (search p n (i + 1)) = search-Right p n (i + 1) hi k (omega arith) in
    if_cases (Right p (i * 32) hi) (get_or p.bitmap i 0 == full_word)
      (λ ones.
        Right-extend p (i * 32) mid hi (search p n (i + 1)) (omega arith)
          (full_word_used p i mid (ground arith) refl) tail)
      (λ mixed.
        or_on-Right p (i * 32) mid hi (search_word p i 32 0) (search p n (i + 1)) (omega arith)
          (omega arith) (word_Right p i mid k refl) tail)

-- The two ways in which `pmm_alloc_frame` ends: `frame` was the lowest free frame and is now taken, its
-- address being returned; or every frame is in use, and 0 is returned.
pub data Allocated (p : Frames) (r : ℕ × Frames) : Type 0 where
  took :
      (frame : ℕ)
      → frame < p.total_frames
      → is_used p frame ≡ false
      → AllUsed p 0 frame
      → r.0 ≡ frame * page_size
      → ((g : ℕ) → is_used r.1 g ≡ (g == frame || is_used p g))
      → Allocated p r
  full : AllUsed p 0 p.total_frames → r ≡ (0, p) → Allocated p r

take_found-Allocated :
    (p : Frames) (s : Search) (hi : ℕ)
    → IsOk p
    → p.total_frames ≤ hi
    → Right p 0 hi s
    → Allocated p (take_found p s)
unfolding taken
take_found-Allocated p (found f) hi k h r =
    Allocated.took f r.1 r.2 r.3 (omega (arith, r.1, k.small)) (is_used-taken p f k r.1)
take_found-Allocated p give_up hi k h r = Allocated.full r.1 refl
take_found-Allocated p ran_out hi k h r = Allocated.full (λ g a b. r g a (omega arith)) refl

used_up : (p : Frames) → IsOk p → p.total_frames ≤ p.used_frames → AllUsed p 0 p.total_frames
used_up p k h = full_count p.total_frames (is_used p) (omega (arith, k.counted))

-- `pmm_alloc_frame` takes the lowest free frame and no other, or fails and changes nothing, and it fails
-- only where every frame is in use.
pub alloc_frame-Allocated : (p : Frames) → IsOk p → Allocated p (alloc_frame p)
unfolding alloc_frame
alloc_frame-Allocated p k =
    if_cases (Allocated p) (leb p.total_frames p.used_frames)
      (λ none_left. Allocated.full (used_up p k (ground arith)) refl)
      (λ some_left.
        take_found-Allocated p (search p p.bitmap_size 0) (p.bitmap_size * 32) k
          (omega (arith, k.cover))
          (search-Right p p.bitmap_size 0 (p.bitmap_size * 32) k (omega arith)))

take_found-IsOk :
    (p : Frames) (s : Search) (hi : ℕ) → IsOk p → Right p 0 hi s → IsOk (take_found p s).1
unfolding taken
take_found-IsOk p (found f) hi k r = taken-IsOk p f k r.1 r.2
take_found-IsOk p give_up hi k r = k
take_found-IsOk p ran_out hi k r = k

-- `pmm_alloc_frame` keeps the invariant.
pub alloc_frame-IsOk : (p : Frames) → IsOk p → IsOk (alloc_frame p).1
unfolding alloc_frame
alloc_frame-IsOk p k =
    if_cases (λ (r : ℕ × Frames). IsOk r.1) (leb p.total_frames p.used_frames) (λ _. k)
      (λ some_left.
        take_found-IsOk p (search p p.bitmap_size 0) (p.bitmap_size * 32) k
          (search-Right p p.bitmap_size 0 (p.bitmap_size * 32) k (omega arith)))
