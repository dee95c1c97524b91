-- ===== src/Memory/Frames/Init.antt =====
-- `pmm_init` sets the invariant up, and leaves the kernel's own frames in use.
use native.Mathlib.Decide.{ℕ_discrete, dec_lt}
use zurich_os.Base.{
  ℕ, zero, suc, ◌+◌, ◌-◌, ◌*◌, ◌/◌, ◌%◌, ◌^◌, ◌<◌, ◌≤◌, ◌≡◌, refl, ap, sym, ◌∙◌, Bool, true, not,
  ◌&&◌, leb, ◌==◌, get_or, if_cases, arith, all_below_sound, ◌⊎◌, replicate, length-replicate,
}
use zurich_os.Base.Bits.{bit}
use zurich_os.Memory.Frames.{
  Frames, page_size, u32, full_word, bitmap_test, mark_used, clear_from, mark_from, detect_memory,
  align_page, init,
}
use zurich_os.Memory.Frames.Count.{count_full}
use zurich_os.Memory.Frames.Bitmap.{test_frame_bit}
use zurich_os.Memory.Frames.Invariant.{
  IsOk, is_used, taken, taken-IsOk, is_used-taken, released, released-IsOk, is_used-released,
}

get_or-replicate : (n i v : ℕ) → i < n → get_or (replicate n v) i 0 ≡ v
get_or-replicate zero i v h = absurd (omega arith)
get_or-replicate (suc n) zero v h = refl
get_or-replicate (suc n) (suc i) v h = get_or-replicate n i v (omega arith)

replicate_fits : (n i : ℕ) → get_or (replicate n full_word) i 0 < 2 ^ 32
replicate_fits zero i = omega arith
replicate_fits (suc n) zero = omega arith
replicate_fits (suc n) (suc i) = replicate_fits n i

-- The state before the first loop over the frames.
abbrev all_used : ℕ → Frames
all_used memory = record {
  bitmap = replicate ((memory / page_size + 31) / 32) full_word;
  bitmap_size = (memory / page_size + 31) / 32;
  total_frames = memory / page_size;
  used_frames = memory / page_size;
  total_memory = memory;
}

is_used-all_used : (memory g : ℕ) → g < memory / page_size → is_used (all_used memory) g ≡ true
is_used-all_used memory g h =
    rw (get_or-replicate ((memory / page_size + 31) / 32) (g / 32) full_word (omega arith))
      (all_below_sound 32 (λ j. bit full_word j) (g % 32) refl (omega arith))

all_used-IsOk : (memory : ℕ) → memory < 2 ^ 32 → IsOk (all_used memory)
all_used-IsOk memory h = record {
  words = replicate_fits ((memory / page_size + 31) / 32);
  size = length-replicate ((memory / page_size + 31) / 32) full_word;
  cover = refl;
  small = omega arith;
  counted =
      sym (count_full (memory / page_size) (is_used (all_used memory)) (is_used-all_used memory));
}

-- The loop that clears: what it needs of the frames ahead, and what it leaves alone.
record Cleared (p q : Frames) (frame : ℕ) : Type 0 where
  ok : IsOk q
  total : q.total_frames ≡ p.total_frames
  below : (g : ℕ) → g < frame → is_used q g ≡ is_used p g

clear_from-Cleared :
    (p : Frames) (n frame : ℕ)
    → IsOk p
    → (0 < n → frame + n ≤ p.total_frames)
    → ((g : ℕ) → frame ≤ g → g < p.total_frames → is_used p g ≡ true)
    → Cleared p (clear_from p n frame) frame
unfolding clear_from released
clear_from-Cleared p zero frame k h u = record { ok = k; total = refl; below = λ g lt. refl }
clear_from-Cleared p (suc n) frame k h u =
    let lt : frame < p.total_frames = omega arith in
    let rest : Cleared (released p frame) (clear_from (released p frame) n (frame + 1))
        (frame + 1) =
      clear_from-Cleared (released p frame) n (frame + 1)
        (released-IsOk p frame k lt (u frame (omega arith) lt)) (omega arith)
        (λ g a b. ahead g a b (u g (omega arith) b) (is_used-released p frame k lt g)) in
    record {
      ok = rest.ok;
      total = rest.total;
      below = λ g b. rest.below g (omega arith) ∙ is_used-released p frame k lt g ∙ ground arith;
    }
  where
    ahead :
        (g : ℕ)
        → frame + 1 ≤ g
        → g < p.total_frames
        → is_used p g ≡ true
        → is_used (released p frame) g ≡ (not (g == frame) && is_used p g)
        → is_used (released p frame) g ≡ true
    ahead g a b on e = e ∙ ground arith

-- The loop that marks: it keeps what is in use, and adds the frames that it passes.
record Marked (p q : Frames) (lo n : ℕ) : Type 0 where
  ok : IsOk q
  total : q.total_frames ≡ p.total_frames
  kept : (g : ℕ) → is_used p g ≡ true → is_used q g ≡ true
  passed : (g : ℕ) → g < p.total_frames → lo ≤ g → g < lo + n → is_used q g ≡ true

mark_one : (p : Frames) (addr : ℕ) → IsOk p → Marked p (mark_used p addr) (addr / page_size) 1
unfolding mark_used taken
mark_one p addr k =
    let f : ℕ = addr / page_size in
    if_cases (λ q. Marked p q f 1) (leb p.total_frames f)
      (λ above. record {
        ok = k;
        total = refl;
        kept = λ g on. on;
        passed = λ g lt a b. absurd (ground arith);
      })
      (λ below.
        if_cases (λ q. Marked p q f 1) (bitmap_test p.bitmap f)
          (λ on. record {
            ok = k;
            total = refl;
            kept = λ g u. u;
            passed = λ g lt a b.
                let same : g ≡ f = omega arith in
                rw same (sym (test_frame_bit p.bitmap f k.words) ∙ on);
          })
          (λ off. record {
            ok = taken-IsOk p f k (ground arith) (sym (test_frame_bit p.bitmap f k.words) ∙ off);
            total = refl;
            kept = λ g u. is_used-taken p f k (ground arith) g ∙ ground arith;
            passed = λ g lt a b. is_used-taken p f k (ground arith) g ∙ ground arith;
          }))

mark_from-Marked :
    (p : Frames) (n addr : ℕ) → IsOk p → Marked p (mark_from p n addr) (addr / page_size) n
unfolding mark_from
mark_from-Marked p zero addr k = record {
  ok = k;
  total = refl;
  kept = λ g u. u;
  passed = λ g lt a b. absurd (omega arith);
}
mark_from-Marked p (suc n) addr k =
    let one : Marked p (mark_used p addr) (addr / page_size) 1 = mark_one p addr k in
    let rest : Marked (mark_used p addr) (mark_from (mark_used p addr) n (addr + page_size))
        ((addr + page_size) / page_size) n =
      mark_from-Marked (mark_used p addr) n (addr + page_size) one.ok in
    record {
      ok = rest.ok;
      total = rest.total ∙ one.total;
      kept = λ g u. rest.kept g (one.kept g u);
      passed = λ g lt a b. elim (ℕ_discrete g (addr / page_size)) [
        | yes e ↦ rest.kept g (one.passed g lt a (omega arith))
        | no e ↦ rest.passed g (omega (arith, one.total)) (omega arith) (omega arith)
      ];
    }

detect_memory-lt : (mem_upper : ℕ) (known : Bool) → detect_memory mem_upper known < 2 ^ 32
unfolding detect_memory
detect_memory-lt mem_upper known = ground arith

-- The state that both loops leave, for any size of memory.
abbrev settle : ℕ → ℕ → Frames
settle memory kernel_end_phys =
    let total = memory / page_size in
    let size = (total + 31) / 32 in
    let kernel_end = align_page (u32 (kernel_end_phys + size * 4)) in
    mark_from (clear_from (all_used memory) (total - 256) 256)
      ((kernel_end + page_size - 1 - 0x100000) / page_size) 0x100000

rounds_reach :
    (top g : ℕ)
    → top + page_size ≤ 2 ^ 32
    → g * page_size < top
    → g < 256 + (align_page (u32 top) + page_size - 1 - 0x100000) / page_size
rounds_reach top g h k = omega arith

settled :
    (memory kernel_end_phys : ℕ)
    → memory < 2 ^ 32
    → let q = settle memory kernel_end_phys in
      let top = kernel_end_phys + q.bitmap_size * 4 in
      IsOk q
      × ((g : ℕ)
          → top + page_size ≤ 2 ^ 32
          → g < q.total_frames
          → (g < 256) ⊎ (g * page_size < top)
          → is_used q g ≡ true)
settled memory kernel_end_phys h = (marked.ok, reserved)
  where
    total : ℕ
    total = memory / page_size

    size : ℕ
    size = (total + 31) / 32

    rounds : ℕ
    rounds = (align_page (u32 (kernel_end_phys + size * 4)) + page_size - 1 - 0x100000) / page_size

    cleared : Cleared (all_used memory) (clear_from (all_used memory) (total - 256) 256) 256
    cleared =
        clear_from-Cleared (all_used memory) (total - 256) 256 (all_used-IsOk memory h)
          (omega arith) (λ g a b. is_used-all_used memory g b)

    marked :
        Marked
          (clear_from (all_used memory) (total - 256) 256)
          (settle memory kernel_end_phys)
          256
          rounds
    marked =
        mark_from-Marked (clear_from (all_used memory) (total - 256) 256) rounds 0x100000 cleared.ok

    all : (settle memory kernel_end_phys).total_frames ≡ total
    all = marked.total ∙ cleared.total

    same_size : (settle memory kernel_end_phys).bitmap_size ≡ size
    same_size = marked.ok.cover ∙ ap (λ (t : ℕ). (t + 31) / 32) all

    low : (g : ℕ) → g < total → g < 256 → is_used (settle memory kernel_end_phys) g ≡ true
    low g lt a = marked.kept g (cleared.below g a ∙ is_used-all_used memory g lt)

    reserved :
        (g : ℕ)
        → kernel_end_phys + (settle memory kernel_end_phys).bitmap_size * 4 + page_size ≤ 2 ^ 32
        → g < (settle memory kernel_end_phys).total_frames
        → (g < 256)
          ⊎ (g * page_size < kernel_end_phys + (settle memory kernel_end_phys).bitmap_size * 4)
        → is_used (settle memory kernel_end_phys) g ≡ true
    reserved g fits lt side = elim (dec_lt g 256) [
      | yes a ↦ low g (omega (arith, all)) a
      | no b ↦ marked.passed g (omega (arith, all, cleared.total)) (omega arith) (
          rounds_reach (kernel_end_phys + size * 4) g (omega (arith, same_size))
            (omega (arith, same_size)))
    ]

-- `pmm_init` leaves the allocator with the invariant, and with the frames below 1 MB, of the kernel and of
-- the bitmap itself in use, where the end of the bitmap is at least a page below 2 ^ 32.
pub init_lem :
    (mem_upper : ℕ) (known : Bool) (kernel_end_phys : ℕ)
    → let q = init mem_upper known kernel_end_phys in
      let top = kernel_end_phys + q.bitmap_size * 4 in
      IsOk q
      × ((g : ℕ)
          → top + page_size ≤ 2 ^ 32
          → g < q.total_frames
          → (g < 256) ⊎ (g * page_size < top)
          → is_used q g ≡ true)
unfolding init
init_lem mem_upper known kernel_end_phys =
    settled (detect_memory mem_upper known) kernel_end_phys (detect_memory-lt mem_upper known)
