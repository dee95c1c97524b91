-- ===== src/Memory/Paging.antt =====
-- kernel/mm/vmm.c and include/mm/vmm.h: the page directory and the page tables, seen through the
-- recursive entry 1023. A table is known by the entry of the directory that leads to it, and every
-- entry leads to a table of its own; entry 1023 leads to the directory. Flushing the processor's
-- cache of translations is left out.
pub mod Entries
pub mod Cells
pub mod Lookup
pub mod Shape
mod Examples
use zurich_os.Base.{
  ℕ, zero, suc, ◌+◌, ◌-◌, ◌*◌, ◌/◌, ◌%◌, ◌^◌, Bool, true, false, not, List, [], get_or, set,
  replicate, ◌==◌, if◌then◌else◌, bit_and, bit_or,
}
use zurich_os.Memory.Frames.{Frames, alloc_frame}

pub record Paging : Type 0 where
  pub directory : List ℕ
  pub tables : List (List ℕ)

abbrev pub page_present : ℕ
page_present = 1

abbrev pub page_write : ℕ
page_write = 2

abbrev pub page_user : ℕ
page_user = 4

abbrev pub page_kernel : ℕ
page_kernel = bit_or page_present page_write

abbrev pub recursive_pd_index : ℕ
recursive_pd_index = 1023

-- `0xFFFFF000` and `0xFFF`.
abbrev pub page_mask : ℕ
page_mask = 2 ^ 12 * (2 ^ 20 - 1)

abbrev pub offset_mask : ℕ
offset_mask = 2 ^ 12 - 1

-- `(virt >> 22) & 0x3FF`
abbrev pub pd_index : ℕ → ℕ
pd_index virt = bit_and (virt / 2 ^ 22) (2 ^ 10 - 1)

abbrev pub pt_index : ℕ → ℕ
pt_index virt = bit_and (virt / 2 ^ 12) (2 ^ 10 - 1)

abbrev pub is_present : ℕ → Bool
is_present entry = not (bit_and entry page_present == 0)

abbrev pub directory_at : Paging → ℕ → ℕ
directory_at v i = get_or v.directory i 0

abbrev pub set_directory : Paging → ℕ → ℕ → Paging
set_directory v i entry = record v { directory = set v.directory i entry }

abbrev pub put_table : Paging → ℕ → List ℕ → Paging
put_table v i table =
    if i == recursive_pd_index
    then record v { directory = table }
    else record v { tables = set v.tables i table }

-- `GET_PT(i)`
abbrev pub table_at : Paging → ℕ → List ℕ
table_at v i = if i == recursive_pd_index then v.directory else get_or v.tables i ([])

abbrev pub set_entry : Paging → ℕ → ℕ → ℕ → Paging
set_entry v i j entry = put_table v i (set (table_at v i) j entry)

-- The entry for a page, and the one for a new table.
abbrev pub page_entry : ℕ → ℕ → ℕ
page_entry phys flags =
    bit_or (bit_or (bit_and phys page_mask) (bit_and flags offset_mask)) page_present

abbrev pub table_entry : ℕ → ℕ → ℕ
table_entry phys flags =
    bit_or (bit_or (bit_or phys page_present) page_write) (bit_and flags page_user)

new_table : Paging → ℕ → ℕ → ℕ → Paging
new_table v i phys flags =
    put_table (set_directory v i (table_entry phys flags)) i (replicate 1024 0)

allow_user : Paging → ℕ → ℕ → Paging
allow_user v i flags =
    if not (bit_and flags page_user == 0)
    then set_directory v i (bit_or (directory_at v i) page_user)
    else v

map_new : Paging → ℕ → ℕ → ℕ → ℕ × Frames → Paging × Frames
unfolding new_table
map_new v virt phys flags (zero, p) = (v, p)
map_new v virt phys flags (suc pt_phys, p) = (
  set_entry (new_table v (pd_index virt) (suc pt_phys) flags) (pd_index virt) (pt_index virt)
      (page_entry phys flags),
  p,
)

unfoldable pub map_page : Paging → Frames → ℕ → ℕ → ℕ → Paging × Frames
unfolding map_new allow_user
map_page v p virt phys flags =
    if is_present (directory_at v (pd_index virt))
    then (
      set_entry (allow_user v (pd_index virt) flags) (pd_index virt) (pt_index virt)
          (page_entry phys flags),
      p,
    )
    else map_new v virt phys flags (alloc_frame p)

unfoldable pub unmap_page : Paging → ℕ → Paging
unmap_page v virt =
    if is_present (directory_at v (pd_index virt))
    then set_entry v (pd_index virt) (pt_index virt) 0
    else v

-- What `vmm_get_physical` makes of an entry of a table.
abbrev pub physical_of : ℕ → ℕ → ℕ
physical_of entry virt =
    if is_present entry then bit_or (bit_and entry page_mask) (bit_and virt offset_mask) else 0

abbrev pub entry_for : Paging → ℕ → ℕ
entry_for v virt = get_or (table_at v (pd_index virt)) (pt_index virt) 0

unfoldable pub get_physical : Paging → ℕ → ℕ
get_physical v virt =
    if is_present (directory_at v (pd_index virt)) then physical_of (entry_for v virt) virt else 0

unfoldable pub is_mapped : Paging → ℕ → Bool
is_mapped v virt =
    if is_present (directory_at v (pd_index virt)) then is_present (entry_for v virt) else false

-- `vmm_init`: the directory's last entry leads to the directory, whose address is a multiple of the
-- page size.
unfoldable pub init_paging : Paging → ℕ → Paging
init_paging v dir_phys =
    set_directory v recursive_pd_index (bit_or (bit_or dir_phys page_present) page_write)
