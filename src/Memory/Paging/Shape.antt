-- ===== src/Memory/Paging/Shape.antt =====
-- kernel/mm/vmm.c: every call leaves the directory and the tables at 1024 entries each.
use zurich_os.Base.{
  ℕ, zero, suc, ◌<◌, ◌≡◌, ◌∙◌, not, List, [], set, replicate, length, length-set, length-replicate,
  get_or-set_cases, ◌==◌, if_holds, bit_and, arith,
}
use zurich_os.Memory.Frames.{Frames, alloc_frame}
use zurich_os.Memory.Paging.{
  Paging, page_user, recursive_pd_index, pd_index, pt_index, is_present, directory_at,
  set_directory, put_table, table_at, set_entry, page_entry, table_entry, new_table, allow_user,
  map_new, map_page, unmap_page,
}
use zurich_os.Memory.Paging.Entries.{pd_index_lem}
use zurich_os.Memory.Paging.Cells.{IsPaged}

set_directory-IsPaged : (v : Paging) (i e : ℕ) → IsPaged v → IsPaged (set_directory v i e)
set_directory-IsPaged v i e s = record {
  directory = length-set v.directory i e ∙ s.directory;
  tables = s.tables;
  table = s.table;
}

put_table-IsPaged :
    (v : Paging) (i : ℕ) (t : List ℕ) → length t ≡ 1024 → IsPaged v → IsPaged (put_table v i t)
put_table-IsPaged v i t e s =
    if_holds IsPaged (i == recursive_pd_index)
      (record { directory = e; tables = s.tables; table = s.table })
      (record {
        directory = s.directory;
        tables = length-set v.tables i t ∙ s.tables;
        table = λ k lt.
            get_or-set_cases (λ (x : List ℕ). length x ≡ 1024) v.tables i k t [] (λ p. e)
              (s.table k lt);
      })

length-table_at : (v : Paging) (i : ℕ) → i < 1024 → IsPaged v → length (table_at v i) ≡ 1024
length-table_at v i lt s =
    if_holds (λ (x : List ℕ). length x ≡ 1024) (i == recursive_pd_index) s.directory (s.table i lt)

set_entry-IsPaged : (v : Paging) (i j e : ℕ) → i < 1024 → IsPaged v → IsPaged (set_entry v i j e)
set_entry-IsPaged v i j e lt s =
    put_table-IsPaged v i (set (table_at v i) j e)
      (length-set (table_at v i) j e ∙ length-table_at v i lt s) s

allow_user-IsPaged : (v : Paging) (i flags : ℕ) → IsPaged v → IsPaged (allow_user v i flags)
unfolding allow_user
allow_user-IsPaged v i flags s =
    if_holds IsPaged (not (bit_and flags page_user == 0)) (set_directory-IsPaged v i _ s) s

index_lt : (virt : ℕ) → pd_index virt < 1024
index_lt virt = omega (arith, pd_index_lem virt)

map_new-IsPaged :
    (v : Paging) (virt phys flags : ℕ) (r : ℕ × Frames)
    → IsPaged v
    → IsPaged (map_new v virt phys flags r).0
unfolding map_new new_table
map_new-IsPaged v virt phys flags (zero, p) s = s
map_new-IsPaged v virt phys flags (suc frame, p) s =
    let i = pd_index virt in
    let first = set_directory-IsPaged v i (table_entry (suc frame) flags) s in
    set_entry-IsPaged (new_table v i (suc frame) flags) i (pt_index virt) (page_entry phys flags)
      (index_lt virt)
      (put_table-IsPaged (set_directory v i (table_entry (suc frame) flags)) i (replicate 1024 0)
        (length-replicate {A = ℕ} 1024 0) first)

pub map_page-IsPaged :
    (v : Paging) (p : Frames) (virt phys flags : ℕ)
    → IsPaged v
    → IsPaged (map_page v p virt phys flags).0
unfolding map_page
map_page-IsPaged v p virt phys flags s =
    if_holds (λ (r : Paging × Frames). IsPaged r.0) (is_present (directory_at v (pd_index virt)))
      (set_entry-IsPaged (allow_user v (pd_index virt) flags) (pd_index virt) (pt_index virt)
        (page_entry phys flags) (index_lt virt) (allow_user-IsPaged v (pd_index virt) flags s))
      (map_new-IsPaged v virt phys flags (alloc_frame p) s)

pub unmap_page-IsPaged : (v : Paging) (virt : ℕ) → IsPaged v → IsPaged (unmap_page v virt)
unfolding unmap_page
unmap_page-IsPaged v virt s =
    if_holds IsPaged (is_present (directory_at v (pd_index virt)))
      (set_entry-IsPaged v (pd_index virt) (pt_index virt) 0 (index_lt virt) s) s
