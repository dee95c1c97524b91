-- ===== src/Memory/Frames.antt =====
-- kernel/mm/pmm.c: the bitmap of physical page frames. A set bit marks a frame in use.
pub mod Bitmap
mod Count
pub mod Invariant
pub mod Alloc
pub mod Init
use zurich_os.Base.{
  ℕ, zero, suc, ◌+◌, ◌-◌, ◌*◌, ◌/◌, ◌%◌, ◌^◌, Bool, true, false, not, List, ltb, leb, ◌==◌,
  if◌then◌else◌, get_or, set, replicate, bit_and, bit_or,
}
use zurich_os.Base.Bits.{bit_not}

-- The static variables. `bitmap` is the memory at `pmm_bitmap`.
pub record Frames : Type 0 where
  pub bitmap : List ℕ
  pub bitmap_size : ℕ
  pub total_frames : ℕ
  pub used_frames : ℕ
  pub total_memory : ℕ

abbrev pub page_size : ℕ
page_size = 4096

-- `uint32_t` values wrap.
abbrev pub u32 : ℕ → ℕ
u32 n = n % 2 ^ 32

abbrev pub full_word : ℕ
full_word = 2 ^ 32 - 1

unfoldable pub bitmap_set : List ℕ → ℕ → List ℕ
bitmap_set b frame = set b (frame / 32) (bit_or (get_or b (frame / 32) 0) (2 ^ (frame % 32)))

unfoldable pub bitmap_clear : List ℕ → ℕ → List ℕ
bitmap_clear b frame =
    set b (frame / 32) (bit_and (get_or b (frame / 32) 0) (bit_not 32 (2 ^ (frame % 32))))

unfoldable pub bitmap_test : List ℕ → ℕ → Bool
bitmap_test b frame = not (bit_and (get_or b (frame / 32) 0) (2 ^ (frame % 32)) == 0)

unfoldable pub mark_used : Frames → ℕ → Frames
mark_used p addr =
    let frame = addr / page_size in
    if leb p.total_frames frame
    then p
    else (if bitmap_test p.bitmap frame
        then p
        else record p { bitmap = bitmap_set p.bitmap frame; used_frames = u32 (p.used_frames + 1) })

unfoldable pub free_frame : Frames → ℕ → Frames
free_frame p addr =
    let frame = addr / page_size in
    if leb p.total_frames frame
    then p
    else (if bitmap_test p.bitmap frame
        then record p {
          bitmap = bitmap_clear p.bitmap frame;
          used_frames = u32 (p.used_frames + 2 ^ 32 - 1);
        }
        else p)

-- How the search for a clear bit ends: at a frame, by `return 0`, or by running through.
pub data Search : Type 0 where
  found : ℕ → Search
  give_up : Search
  ran_out : Search

-- The loop over the bits of word `i`: `n` rounds are left, the next at bit `j`.
unfoldable pub search_word : Frames → ℕ → ℕ → ℕ → Search
search_word p i zero j = ran_out
search_word p i (suc n) j =
    let frame = i * 32 + j in
    let rest = search_word p i n (j + 1) in
    if leb p.total_frames frame
    then give_up
    else (if bitmap_test p.bitmap frame then rest else found frame)

-- `rest` is what the words after a searched one give.
abbrev pub or_on : Search → Search → Search
or_on ran_out rest = rest
or_on (found frame) rest = found frame
or_on give_up rest = give_up

-- The loop over the words: `n` rounds are left, the next at word `i`.
unfoldable pub search : Frames → ℕ → ℕ → Search
unfolding search_word
search p zero i = ran_out
search p (suc n) i =
    let rest = search p n (i + 1) in
    if get_or p.bitmap i 0 == full_word then rest else or_on (search_word p i 32 0) rest

abbrev pub take_found : Frames → Search → ℕ × Frames
take_found p (found frame) = (
  u32 (frame * page_size),
  record p { bitmap = bitmap_set p.bitmap frame; used_frames = u32 (p.used_frames + 1) },
)
take_found p give_up = (0, p)
take_found p ran_out = (0, p)

unfoldable pub alloc_frame : Frames → ℕ × Frames
unfolding search
alloc_frame p =
    if leb p.total_frames p.used_frames then (0, p) else take_found p (search p p.bitmap_size 0)

unfoldable pub get_used_memory : Frames → ℕ
get_used_memory p = u32 (p.used_frames * page_size)

unfoldable pub get_free_memory : Frames → ℕ
get_free_memory p = u32 (u32 (p.total_frames + 2 ^ 32 - p.used_frames) * page_size)

-- `for (frame = 256; frame < total; frame++)`: `n` rounds are left.
unfoldable pub clear_from : Frames → ℕ → ℕ → Frames
clear_from p zero frame = p
clear_from p (suc n) frame =
    clear_from
      (record p {
        bitmap = bitmap_clear p.bitmap frame;
        used_frames = u32 (p.used_frames + 2 ^ 32 - 1);
      })
      n (frame + 1)

-- `for (addr = 0x100000; addr < kernel_end; addr += PAGE_SIZE)`: `n` rounds are left.
unfoldable pub mark_from : Frames → ℕ → ℕ → Frames
unfolding mark_used
mark_from p zero addr = p
mark_from p (suc n) addr = mark_from (mark_used p addr) n (addr + page_size)

-- `ALIGN_UP(a, PAGE_SIZE)`
abbrev pub align_page : ℕ → ℕ
align_page a = u32 (a + page_size - 1) / page_size * page_size

-- What the boot loader reports; `known` says whether it gives the memory size at all.
unfoldable pub detect_memory : ℕ → Bool → ℕ
detect_memory mem_upper known =
    let reported = u32 (u32 (mem_upper + 1024) * 1024) in
    let default : ℕ = 256 * 1024 * 1024 in
    if known then (if reported == 0 then default else reported) else default

unfoldable pub init : ℕ → Bool → ℕ → Frames
unfolding detect_memory clear_from mark_from
init mem_upper known kernel_end_phys =
    let memory = detect_memory mem_upper known in
    let total = memory / page_size in
    let size = (total + 31) / 32 in
    let all_used : Frames = record {
      bitmap = replicate size full_word;
      bitmap_size = size;
      total_frames = total;
      used_frames = total;
      total_memory = memory;
    } in
    let kernel_end = align_page (u32 (kernel_end_phys + size * 4)) in
    mark_from (clear_from all_used (total - 256) 256)
      ((kernel_end + page_size - 1 - 0x100000) / page_size) 0x100000
