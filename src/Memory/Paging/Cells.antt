-- ===== src/Memory/Paging/Cells.antt =====
-- kernel/mm/vmm.c: a translation in terms of the entries of the directory and of the tables.
use zurich_os.Base.{
  ℕ, ◌^◌, ◌<◌, ◌≡◌, ◌≢◌, ◌⊎◌, inl, inr, sym, ap, ◌∙◌, true, List, [], get_or, set, length,
  get_or-set_self, get_or-set_ne, if◌then◌else◌, if_true, arith,
}
use native.Mathlib.Decide.{ℕ_discrete}
use zurich_os.Memory.Paging.{
  Paging, recursive_pd_index, pd_index, pt_index, is_present, directory_at, put_table, table_at,
  set_entry, physical_of, get_physical,
}
use zurich_os.Memory.Paging.Entries.{pd_index_lem, pt_index_lem}

-- The directory and every table have 1024 entries.
pub record IsPaged (v : Paging) : Type 0 where
  pub directory : length v.directory ≡ 1024
  pub tables : length v.tables ≡ 1024
  pub table : (i : ℕ) → i < 1024 → length (get_or v.tables i []) ≡ 1024

-- An address that the recursive entry does not serve.
abbrev pub Plain : ℕ → Type 0
Plain virt = (virt < 2 ^ 32) × (pd_index virt ≢ recursive_pd_index)

-- The entry `j` of the table `i`, where `i` is not the recursive one.
abbrev pub cell : Paging → ℕ → ℕ → ℕ
cell v i j = get_or (get_or v.tables i []) j 0

plain_table : (v : Paging) (i : ℕ) → i ≢ recursive_pd_index → table_at v i ≡ get_or v.tables i []
plain_table v i ne = ground arith

pub plain_put :
    (v : Paging) (i : ℕ) (t : List ℕ)
    → i ≢ recursive_pd_index
    → put_table v i t ≡ record v { tables = set v.tables i t }
plain_put v i t ne = ground arith

pub plain_set :
    (v : Paging) (i j e : ℕ)
    → i ≢ recursive_pd_index
    → set_entry v i j e ≡ record v { tables = set v.tables i (set (get_or v.tables i []) j e) }
plain_set v i j e ne =
    plain_put v i (set (table_at v i) j e) ne
    ∙ ap (λ t. record v { tables = set v.tables i (set t j e) }) (plain_table v i ne)

pub pd_lt : (virt : ℕ) → pd_index virt < 1024
pd_lt virt = omega (arith, pd_index_lem virt)

pub pt_lt : (virt : ℕ) → pt_index virt < 1024
pt_lt virt = omega (arith, pt_index_lem virt)

-- A translation in terms of the entries.
pub get_physical_lem :
    (v : Paging) (q : ℕ)
    → pd_index q ≢ recursive_pd_index
    → get_physical v q ≡ (
        if is_present (directory_at v (pd_index q))
        then physical_of (cell v (pd_index q) (pt_index q)) q
        else 0)
unfolding get_physical
get_physical_lem v q ne =
    ap
      (λ t.
        if is_present (directory_at v (pd_index q))
        then physical_of (get_or t (pt_index q) 0) q
        else 0)
      (plain_table v (pd_index q) ne)

-- The translation that the entries `a` and `b` give.
abbrev pub seen : Paging → ℕ → ℕ → ℕ → ℕ
seen v a b q = if is_present (directory_at v a) then physical_of (cell v a b) q else 0

-- The page tables with one entry written.
abbrev pub written : Paging → ℕ → ℕ → ℕ → Paging
written w i j e = record w { tables = set w.tables i (set (get_or w.tables i []) j e) }

module _ (w : Paging) (i j e : ℕ) (size : i < length w.tables)
    (size_table : j < length (get_or w.tables i [])) where
  new_row : get_or (written w i j e).tables i [] ≡ set (get_or w.tables i []) j e
  new_row = get_or-set_self w.tables i (set (get_or w.tables i []) j e) [] size

  cell-written_self : cell (written w i j e) i j ≡ e
  cell-written_self =
      ap (λ t. get_or t j 0) new_row ∙ get_or-set_self (get_or w.tables i []) j e 0 size_table

  cell-written_row : (b : ℕ) → j ≢ b → cell (written w i j e) i b ≡ cell w i b
  cell-written_row b ne =
      ap (λ t. get_or t b 0) new_row ∙ get_or-set_ne (get_or w.tables i []) j b e 0 ne

  cell-written_other : (a b : ℕ) → i ≢ a → cell (written w i j e) a b ≡ cell w a b
  cell-written_other a b ne =
      ap (λ t. get_or t b 0) (get_or-set_ne w.tables i a (set (get_or w.tables i []) j e) [] ne)

  -- Every other translation is as it was.
  pub seen-written : (a b q : ℕ) → (i ≢ a) ⊎ (j ≢ b) → seen (written w i j e) a b q ≡ seen w a b q
  seen-written a b q apart =
      ap (λ c. if is_present (directory_at w a) then physical_of c q else 0) same
    where
      by_row : Dec (i ≡ a) → (i ≢ a) ⊎ (j ≢ b) → cell (written w i j e) a b ≡ cell w a b
      by_row d (inl ne) = cell-written_other a b ne
      by_row (no ne) (inr _) = cell-written_other a b ne
      by_row (yes p) (inr ne) =
          ap (λ k. cell (written w i j e) k b) (sym p)
          ∙ cell-written_row b ne
          ∙ ap (λ k. cell w k b) p

      same : cell (written w i j e) a b ≡ cell w a b
      same = by_row (ℕ_discrete i a) apart

  pub seen-written_self :
      (q : ℕ)
      → is_present (directory_at w i) ≡ true
      → seen (written w i j e) i j q ≡ physical_of e q
  seen-written_self q on =
      if_true (is_present (directory_at w i)) _ 0 on ∙ ap (λ c. physical_of c q) cell-written_self
