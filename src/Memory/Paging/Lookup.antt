-- ===== src/Memory/Paging/Lookup.antt =====
-- kernel/mm/vmm.c: what a translation gives after a page has been mapped or unmapped.
use zurich_os.Base.{
  ℕ, zero, suc, ◌+◌, ◌*◌, ◌/◌, ◌%◌, ◌^◌, ◌<◌, ◌≡◌, ◌≢◌, ◌⊎◌, inl, inr, refl, sym, ap, ap₂, ◌∙◌,
  Bool, true, false, not, List, [], get_or, set, replicate, length, length-set, length-replicate,
  get_or-set_self, get_or-set_ne, get_or-replicate, get_or-set_cases, ◌==◌, if◌then◌else◌, if_true,
  if_false, if_holds, Bool-cases, bit_and, arith,
}
use native.Mathlib.Decide.{ℕ_discrete}
use zurich_os.Memory.Frames.{Frames, alloc_frame}
use zurich_os.Memory.Paging.{
  Paging, page_user, pd_index, pt_index, is_present, directory_at, set_directory, set_entry,
  page_entry, table_entry, new_table, allow_user, map_new, map_page, unmap_page, physical_of,
  get_physical,
}
use zurich_os.Memory.Paging.Entries.{
  is_present-user, is_present-table_entry, physical_of-page_entry, same_page, page-indices,
}
use zurich_os.Memory.Paging.Cells.{
  IsPaged, Plain, cell, plain_put, plain_set, pd_lt, pt_lt, get_physical_lem, seen, written,
  seen-written, seen-written_self,
}

-- A flag for user programs changes no translation.
allow_user-present :
    (v : Paging) (i flags a : ℕ)
    → is_present (directory_at (allow_user v i flags) a) ≡ is_present (directory_at v a)
unfolding allow_user
allow_user-present v i flags a =
    if_holds (λ w. is_present (directory_at w a) ≡ is_present (directory_at v a))
      (not (bit_and flags page_user == 0))
      (get_or-set_cases (λ e. is_present e ≡ is_present (directory_at v a)) v.directory i a _ 0
        (λ p. is_present-user (directory_at v i) ∙ ap (λ k. is_present (directory_at v k)) p) refl)
      refl

allow_user-tables : (v : Paging) (i flags : ℕ) → (allow_user v i flags).tables ≡ v.tables
unfolding allow_user
allow_user-tables v i flags =
    if_holds (λ (w : Paging). w.tables ≡ v.tables) (not (bit_and flags page_user == 0)) refl refl

allow_user-seen :
    (v : Paging) (i flags a b q : ℕ) → seen (allow_user v i flags) a b q ≡ seen v a b q
allow_user-seen v i flags a b q =
    ap₂ (λ on (t : List (List ℕ)). if on then physical_of (get_or (get_or t a []) b 0) q else 0)
      (allow_user-present v i flags a) (allow_user-tables v i flags)

-- A directory entry that was not present, with a table of zeros behind it, translates nothing yet.
abbrev opened : Paging → ℕ → ℕ → List ℕ → Paging
opened v i entry zeros = record v {
  directory = set v.directory i entry;
  tables = set v.tables i zeros;
}

opened-seen :
    (v : Paging) (i entry : ℕ) (zeros : List ℕ) (a b q : ℕ)
    → ((k : ℕ) → get_or zeros k 0 ≡ 0)
    → i < length v.tables
    → is_present (directory_at v i) ≡ false
    → seen (opened v i entry zeros) a b q ≡ seen v a b q
opened-seen v i entry zeros a b q blank size off = cases (ℕ_discrete i a)
  where
    row : get_or (opened v i entry zeros).tables i [] ≡ zeros
    row = get_or-set_self v.tables i zeros [] size

    nothing : (x : Bool) → (if x then physical_of (cell (opened v i entry zeros) i b) q else 0) ≡ 0
    nothing true = ap (λ c. physical_of c q) (ap (λ t. get_or t b 0) row ∙ blank b)
    nothing false = refl

    cases : Dec (i ≡ a) → seen (opened v i entry zeros) a b q ≡ seen v a b q
    cases (yes p) =
        ap (λ k. seen (opened v i entry zeros) k b q) (sym p)
        ∙ nothing (is_present (directory_at (opened v i entry zeros) i))
        ∙ sym (if_false (is_present (directory_at v i)) (physical_of (cell v i b) q) 0 off)
        ∙ ap (λ k. seen v k b q) p
    cases (no ne) =
        ap₂ (λ d t. if is_present d then physical_of (get_or t b 0) q else 0)
          (get_or-set_ne v.directory i a entry 0 ne) (get_or-set_ne v.tables i a zeros [] ne)

true-ne-false : true ≢ false
true-ne-false e = cc

-- The indices of addresses on different pages differ.
apart_indices :
    (virt q : ℕ)
    → virt < 2 ^ 32
    → q < 2 ^ 32
    → (q / 2 ^ 12 == virt / 2 ^ 12) ≡ false
    → (pd_index virt ≢ pd_index q) ⊎ (pt_index virt ≢ pt_index q)
apart_indices virt q h k off = elim (ℕ_discrete (pd_index virt) (pd_index q)) [
  | no ne ↦ inl ne
  | yes p ↦ inr (λ e. ground (arith, same_page virt q h k p e))
]

module _ (v w : Paging) (virt q e : ℕ) (plain : Plain virt) (plain_q : Plain q)
    (size : pd_index virt < length w.tables)
    (size_table : pt_index virt < length (get_or w.tables (pd_index virt) []))
    (on : is_present (directory_at w (pd_index virt)) ≡ true)
    (old : seen w (pd_index q) (pt_index q) q ≡ seen v (pd_index q) (pt_index q) q) where
  -- Writing the entry of one page changes the translations of that page alone.
  write_page :
      get_physical (set_entry w (pd_index virt) (pt_index virt) e) q
      ≡ (if q / 2 ^ 12 == virt / 2 ^ 12 then physical_of e q else get_physical v q)
  write_page = start ∙ elim (Bool-cases (q / 2 ^ 12 == virt / 2 ^ 12)) [
    | inl p ↦
        let i = page-indices virt q (ground arith) in
        ap₂ (λ a b. seen after a b q) (sym i.0) (sym i.1)
        ∙ seen-written_self w (pd_index virt) (pt_index virt) e size size_table q on
        ∙ sym (if_true (q / 2 ^ 12 == virt / 2 ^ 12) (physical_of e q) (get_physical v q) p)
    | inr p ↦
        seen-written w (pd_index virt) (pt_index virt) e size size_table (pd_index q) (pt_index q) q
          (apart_indices virt q plain.0 plain_q.0 p)
        ∙ old
        ∙ sym (get_physical_lem v q plain_q.1)
        ∙ sym (if_false (q / 2 ^ 12 == virt / 2 ^ 12) (physical_of e q) (get_physical v q) p)
  ]
    where
      after : Paging
      after = written w (pd_index virt) (pt_index virt) e

      start :
          get_physical (set_entry w (pd_index virt) (pt_index virt) e) q
          ≡ seen after (pd_index q) (pt_index q) q
      start =
          ap (λ x. get_physical x q) (plain_set w (pd_index virt) (pt_index virt) e plain.1)
          ∙ get_physical_lem after q plain_q.1

module _ (v : Paging) (sound : IsPaged v) (virt q : ℕ) (plain : Plain virt)
    (plain_q : Plain q) where
  table_exists : pd_index virt < length v.tables
  table_exists = omega (arith, pd_lt virt, sound.tables)

  directory_exists : pd_index virt < length v.directory
  directory_exists = omega (arith, pd_lt virt, sound.directory)

  entry_exists : pt_index virt < length (get_or v.tables (pd_index virt) [])
  entry_exists = omega (arith, pt_lt virt, sound.table (pd_index virt) (pd_lt virt))

  -- Without a table, a page of the region has no translation.
  untouched :
      is_present (directory_at v (pd_index virt)) ≡ false
      → get_physical v q ≡ (if q / 2 ^ 12 == virt / 2 ^ 12 then 0 else get_physical v q)
  untouched off = elim (Bool-cases (q / 2 ^ 12 == virt / 2 ^ 12)) [
    | inl p ↦
        let i = page-indices virt q (ground arith) in
        get_physical_lem v q plain_q.1
        ∙ if_false (is_present (directory_at v (pd_index q))) _ 0
            (ap (λ k. is_present (directory_at v k)) (sym i.0) ∙ off)
        ∙ sym (if_true (q / 2 ^ 12 == virt / 2 ^ 12) 0 (get_physical v q) p)
    | inr p ↦ sym (if_false (q / 2 ^ 12 == virt / 2 ^ 12) 0 (get_physical v q) p)
  ]

  map_new-seen :
      (phys flags : ℕ) (r : ℕ × Frames)
      → is_present (directory_at v (pd_index virt)) ≡ false
      → r.0 ≢ 0
      → get_physical (map_new v virt phys flags r).0 q ≡ (
          if q / 2 ^ 12 == virt / 2 ^ 12
          then physical_of (page_entry phys flags) q
          else get_physical v q)
  unfolding map_new new_table
  map_new-seen phys flags (zero, p) off some_frame = absurd (some_frame refl)
  map_new-seen phys flags (suc frame, p) off some_frame =
      let i = pd_index virt in
      let entry = table_entry (suc frame) flags in
      let zeros = replicate 1024 0 in
      let w = opened v i entry zeros in
      let row : get_or w.tables i [] ≡ zeros = get_or-set_self v.tables i zeros [] table_exists in
      ap (λ x. get_physical (set_entry x i (pt_index virt) (page_entry phys flags)) q)
        (plain_put (set_directory v i entry) i zeros plain.1)
      ∙ write_page v w virt q (page_entry phys flags) plain plain_q
          (rw (length-set v.tables i zeros) table_exists)
          (rw (row, length-replicate {A = ℕ} 1024 0) (pt_lt virt))
          (ap is_present (get_or-set_self v.directory i entry 0 directory_exists)
            ∙ is_present-table_entry (suc frame) flags)
          (opened-seen v i entry zeros (pd_index q) (pt_index q) q (λ k. get_or-replicate 1024 k 0)
            table_exists off)

  -- `vmm_unmap_page` takes the translations of one page away, and no other.
  pub get_physical-unmap_page :
      get_physical (unmap_page v virt) q
      ≡ (if q / 2 ^ 12 == virt / 2 ^ 12 then 0 else get_physical v q)
  unfolding unmap_page
  get_physical-unmap_page = elim (Bool-cases (is_present (directory_at v (pd_index virt)))) [
    | inl on ↦
        ap (λ x. get_physical x q) (if_true (is_present (directory_at v (pd_index virt))) _ v on)
        ∙ write_page v v virt q 0 plain plain_q table_exists entry_exists on refl
    | inr off ↦
        ap (λ x. get_physical x q) (if_false (is_present (directory_at v (pd_index virt))) _ v off)
        ∙ untouched off
  ]

  -- For pages that the recursive entry of the directory does not serve (below 0xFFC00000):
  -- `vmm_map_page` gives the page the frame asked for, unless there is no frame for a new table, and no
  -- other of these pages is translated differently.
  pub get_physical-map_page :
      (p : Frames) (phys flags : ℕ)
      → phys < 2 ^ 32
      → (is_present (directory_at v (pd_index virt)) ≡ true) ⊎ ((alloc_frame p).0 ≢ 0)
      → get_physical (map_page v p virt phys flags).0 q ≡ (
          if q / 2 ^ 12 == virt / 2 ^ 12
          then phys / 2 ^ 12 * 2 ^ 12 + q % 2 ^ 12
          else get_physical v q)
  unfolding map_page
  get_physical-map_page p phys flags h can =
      elim (Bool-cases (is_present (directory_at v (pd_index virt)))) [
        | inl on ↦
            let w = allow_user v (pd_index virt) flags in
            ap (λ (x : Paging × Frames). get_physical x.0 q)
              (if_true (is_present (directory_at v (pd_index virt))) _
                (map_new v virt phys flags (alloc_frame p)) on)
            ∙ write_page v w virt q (page_entry phys flags) plain plain_q
                (rw (allow_user-tables v (pd_index virt) flags) table_exists)
                (rw (allow_user-tables v (pd_index virt) flags) entry_exists)
                (allow_user-present v (pd_index virt) flags (pd_index virt) ∙ on)
                (allow_user-seen v (pd_index virt) flags (pd_index q) (pt_index q) q)
            ∙ frame
        | inr off ↦
            ap (λ (x : Paging × Frames). get_physical x.0 q)
              (if_false (is_present (directory_at v (pd_index virt))) _
                (map_new v virt phys flags (alloc_frame p)) off)
            ∙ map_new-seen phys flags (alloc_frame p) off (frame_given off can)
            ∙ frame
      ]
    where
      frame :
          (if q / 2 ^ 12 == virt / 2 ^ 12
            then physical_of (page_entry phys flags) q
            else get_physical v q)
          ≡ (if q / 2 ^ 12 == virt / 2 ^ 12
              then phys / 2 ^ 12 * 2 ^ 12 + q % 2 ^ 12
              else get_physical v q)
      frame =
          ap (λ t. if q / 2 ^ 12 == virt / 2 ^ 12 then t else get_physical v q)
            (physical_of-page_entry phys flags q h)

      frame_given :
          is_present (directory_at v (pd_index virt)) ≡ false
          → (is_present (directory_at v (pd_index virt)) ≡ true) ⊎ ((alloc_frame p).0 ≢ 0)
          → (alloc_frame p).0 ≢ 0
      frame_given off (inl on) = absurd (true-ne-false (sym on ∙ off))
      frame_given off (inr ne) = ne
