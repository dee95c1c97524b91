-- ===== src/Memory/Paging/Entries.antt =====
-- The entries of the page tables of kernel/mm/vmm.c as numbers.
use zurich_os.Base.{
  ℕ, ◌+◌, ◌-◌, ◌*◌, ◌/◌, ◌%◌, ◌^◌, ◌<◌, ◌≡◌, refl, ap, ap₂, ◌∙◌, true, ◌==◌, bit_and, bit_or, arith,
  if_true,
}
use zurich_os.Base.Bits.{bit_or_digit, bit_and_digit}
use zurich_os.Base.Masks.{bit_and-low, bit_and-high, bit_and-all, bit_or-sum, bit_or-zero}
use zurich_os.Memory.Paging.{
  page_present, page_write, page_user, page_mask, offset_mask, pd_index, pt_index, is_present,
  page_entry, table_entry, physical_of,
}

pub pd_index_lem : (virt : ℕ) → pd_index virt ≡ virt / 2 ^ 22 % 2 ^ 10
pd_index_lem virt = bit_and-low 10 (virt / 2 ^ 22)

pub pt_index_lem : (virt : ℕ) → pt_index virt ≡ virt / 2 ^ 12 % 2 ^ 10
pt_index_lem virt = bit_and-low 10 (virt / 2 ^ 12)

-- Only the lowest bit counts.
pub is_present_lem : (entry : ℕ) → is_present entry ≡ (entry % 2 == 1)
is_present_lem entry = ground (arith, bit_and-low 1 entry)

or_even : (a b : ℕ) → b % 2 ≡ 0 → bit_or a b % 2 ≡ a % 2
or_even a b h = omega (arith, bit_or_digit a b)

or_one : (a : ℕ) → bit_or a 1 ≡ a / 2 * 2 + 1
or_one a = omega (arith, bit_or_digit a 1, bit_or-zero (a / 2))

pub is_present-user : (entry : ℕ) → is_present (bit_or entry page_user) ≡ is_present entry
is_present-user entry = ground (
  arith,
  is_present_lem entry,
  is_present_lem (bit_or entry page_user),
  or_even entry page_user refl,
)

pub is_present-page_entry : (phys flags : ℕ) → is_present (page_entry phys flags) ≡ true
is_present-page_entry phys flags =
    let body = bit_or (bit_and phys page_mask) (bit_and flags offset_mask) in
    ground (arith, is_present_lem (page_entry phys flags), or_one body)

pub is_present-table_entry : (phys flags : ℕ) → is_present (table_entry phys flags) ≡ true
is_present-table_entry phys flags =
    let start = bit_or phys page_present in
    let user = bit_and flags page_user in
    let even : user % 2 ≡ 0 = omega (arith, bit_and_digit flags page_user) in
    ground (
      arith,
      is_present_lem (table_entry phys flags),
      or_even (bit_or start page_write) user even,
      or_even start page_write refl,
      or_one phys,
    )

-- The part of an address that a page keeps.
pub bit_and-page_mask : (a : ℕ) → a < 2 ^ 32 → bit_and a page_mask ≡ a / 2 ^ 12 * 2 ^ 12
bit_and-page_mask a h =
    bit_and-high 12 a (2 ^ 20 - 1)
    ∙ ap (λ k. k * 2 ^ 12) (bit_and-all 20 (a / 2 ^ 12) (omega arith))

page_entry_lem :
    (phys flags : ℕ)
    → phys < 2 ^ 32
    → page_entry phys flags ≡ (phys / 2 ^ 12 * 2 ^ 12 + flags % 2 ^ 12) / 2 * 2 + 1
page_entry_lem phys flags h =
    let frame : bit_and phys page_mask ≡ phys / 2 ^ 12 * 2 ^ 12 = bit_and-page_mask phys h in
    let rest : bit_and flags offset_mask ≡ flags % 2 ^ 12 = bit_and-low 12 flags in
    or_one (bit_or (bit_and phys page_mask) (bit_and flags offset_mask))
    ∙ ap (λ k. k / 2 * 2 + 1)
        (ap₂ bit_or frame rest ∙ bit_or-sum 12 (phys / 2 ^ 12) (flags % 2 ^ 12) (omega arith))

-- An entry made for a page gives the page's frame back, and the offset of the address asked for.
pub physical_of-page_entry :
    (phys flags virt : ℕ)
    → phys < 2 ^ 32
    → physical_of (page_entry phys flags) virt ≡ phys / 2 ^ 12 * 2 ^ 12 + virt % 2 ^ 12
physical_of-page_entry phys flags virt h =
    let entry = page_entry phys flags in
    let small : entry < 2 ^ 32 = omega (arith, page_entry_lem phys flags h) in
    let frame : bit_and entry page_mask ≡ phys / 2 ^ 12 * 2 ^ 12 =
      bit_and-page_mask entry small ∙ omega (arith, page_entry_lem phys flags h) in
    if_true (is_present entry) _ 0 (is_present-page_entry phys flags)
    ∙ ap₂ bit_or frame (bit_and-low 12 virt)
    ∙ bit_or-sum 12 (phys / 2 ^ 12) (virt % 2 ^ 12) (omega arith)

pub physical_of-zero : (virt : ℕ) → physical_of 0 virt ≡ 0
physical_of-zero virt = refl

-- Addresses of one page are those with the same two indices.
pub same_page :
    (a b : ℕ)
    → a < 2 ^ 32
    → b < 2 ^ 32
    → pd_index a ≡ pd_index b
    → pt_index a ≡ pt_index b
    → a / 2 ^ 12 ≡ b / 2 ^ 12
same_page a b h k p q =
    omega (arith, pd_index_lem a, pd_index_lem b, pt_index_lem a, pt_index_lem b)

pub page-indices :
    (a b : ℕ) → a / 2 ^ 12 ≡ b / 2 ^ 12 → (pd_index a ≡ pd_index b) × (pt_index a ≡ pt_index b)
page-indices a b e =
    (omega (arith, pd_index_lem a, pd_index_lem b), omega (arith, pt_index_lem a, pt_index_lem b))
