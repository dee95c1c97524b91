-- ===== src/Fs/Ramfs/Contents.antt =====
-- kernel/fs/ramfs.c: what a file holds after a write, and what a read of it gives.
use zurich_os.Base.{
  ℕ, zero, suc, ◌+◌, ◌≤◌, ◌<◌, ◌≡◌, ◌≢◌, ◌⊎◌, inl, inr, refl, sym, ap, ap₂, ◌∙◌, false, Option,
  none, some, List, [], ◌∷◌, length, get_or, set, take, replicate, length-set, length-replicate,
  get_or-set_self, get_or-set_ne, get_or-replicate, take_all, ltb, Bool-cases, arith,
}
use zurich_os.Fs.Ramfs.{Node, ramfs_max_file_size, is_directory, slice, put_bytes, regrown}

pub length-put_bytes :
    (xs : List ℕ) (offset : ℕ) (bs : List ℕ) → length (put_bytes xs offset bs) ≡ length xs
unfolding put_bytes
length-put_bytes xs offset [] = refl
length-put_bytes xs offset (b ∷ bs) =
    length-put_bytes (set xs offset b) (offset + 1) bs ∙ length-set xs offset b

pub get_or-put_bytes_out :
    (xs : List ℕ) (offset : ℕ) (bs : List ℕ) (k : ℕ)
    → (k < offset) ⊎ (offset + length bs ≤ k)
    → get_or (put_bytes xs offset bs) k 0 ≡ get_or xs k 0
unfolding put_bytes
get_or-put_bytes_out xs offset [] k out = refl
get_or-put_bytes_out xs offset (b ∷ bs) k out =
    get_or-put_bytes_out (set xs offset b) (offset + 1) bs k (later out)
    ∙ get_or-set_ne xs offset k b 0 (apart out)
  where
    later :
        (k < offset) ⊎ (offset + suc (length bs) ≤ k)
        → (k < offset + 1) ⊎ (offset + 1 + length bs ≤ k)
    later (inl low) = inl (omega arith)
    later (inr high) = inr (omega arith)

    apart : (k < offset) ⊎ (offset + suc (length bs) ≤ k) → offset ≢ k
    apart (inl low) e = omega (arith, e)
    apart (inr high) e = omega (arith, e)

pub get_or-put_bytes_in :
    (xs : List ℕ) (offset : ℕ) (bs : List ℕ) (k : ℕ)
    → offset + length bs ≤ length xs
    → k < length bs
    → get_or (put_bytes xs offset bs) (offset + k) 0 ≡ get_or bs k 0
unfolding put_bytes
get_or-put_bytes_in xs offset [] k room lt = absurd (omega arith)
get_or-put_bytes_in xs offset (b ∷ bs) zero room lt =
    ap (λ j. get_or (put_bytes (set xs offset b) (offset + 1) bs) j 0) (omega arith)
    ∙ get_or-put_bytes_out (set xs offset b) (offset + 1) bs offset (inl (omega arith))
    ∙ get_or-set_self xs offset b 0 (omega arith)
get_or-put_bytes_in xs offset (b ∷ bs) (suc k) room lt =
    ap (λ j. get_or (put_bytes (set xs offset b) (offset + 1) bs) j 0) (omega arith)
    ∙ get_or-put_bytes_in (set xs offset b) (offset + 1) bs k
        (rw (length-set xs offset b) (omega arith)) (omega arith)

pub slice-eq :
    (xs : List ℕ) (offset : ℕ) (bs : List ℕ)
    → ((k : ℕ) → k < length bs → get_or xs (offset + k) 0 ≡ get_or bs k 0)
    → slice xs offset (length bs) ≡ bs
unfolding slice
slice-eq xs offset [] e = refl
slice-eq xs offset (b ∷ bs) e =
    ap₂ ◌∷◌ (ap (λ j. get_or xs j 0) (omega arith) ∙ e 0 (omega arith)) (
      slice-eq xs (offset + 1) bs
        (λ k lt. ap (λ j. get_or xs j 0) (omega arith) ∙ e (suc k) (omega arith)))

pub get_or_out : (xs : List ℕ) (k : ℕ) → length xs ≤ k → get_or xs k 0 ≡ 0
get_or_out [] k h = refl
get_or_out (x ∷ xs) zero h = absurd (omega arith)
get_or_out (x ∷ xs) (suc k) h = get_or_out xs k (omega arith)

abbrev pub length_of : Option (List ℕ) → ℕ
length_of none = 0
length_of (some xs) = length xs

-- Byte `k` of the file's array, or 0 behind its end.
abbrev pub byte_at : Option (List ℕ) → ℕ → ℕ
byte_at none k = 0
byte_at (some xs) k = get_or xs k 0

-- A file whose array is as long as its capacity and holds zeros behind the file's end.
pub record IsFile (n : Node) : Type 0 where
  pub plain : is_directory n ≡ false
  pub array : length_of n.bytes ≡ n.capacity
  pub within : n.size ≤ n.capacity
  pub bound : n.capacity ≤ ramfs_max_file_size
  pub zeros : (k : ℕ) → n.size ≤ k → byte_at n.bytes k ≡ 0

-- The array as `grow_file` leaves it.
pub record Grown (end_pos : ℕ) (n g : Node) : Type 0 where
  pub array : length_of g.bytes ≡ g.capacity
  pub room : end_pos ≤ g.capacity
  pub bound : g.capacity ≤ ramfs_max_file_size
  pub larger : n.capacity ≤ g.capacity
  pub same_size : g.size ≡ n.size
  pub same_kind : is_directory g ≡ is_directory n
  pub same : (k : ℕ) → byte_at g.bytes k ≡ byte_at n.bytes k

pub length-regrown : (new old : ℕ) (bytes : Option (List ℕ)) → length (regrown new old bytes) ≡ new
length-regrown new old none = length-replicate {A = ℕ} new 0
length-regrown new old (some xs) =
    length-put_bytes (replicate new 0) 0 (take old xs) ∙ length-replicate {A = ℕ} new 0

pub get_or-regrown :
    (new old : ℕ) (bytes : Option (List ℕ)) (k : ℕ)
    → length_of bytes ≡ old
    → old ≤ new
    → get_or (regrown new old bytes) k 0 ≡ byte_at bytes k
get_or-regrown new old none k e le = get_or-replicate new k 0
get_or-regrown new old (some xs) k e le = elim (Bool-cases (ltb k (length xs))) [
  | inl inside ↦ rw whole (
      ap (λ j. get_or (put_bytes (replicate new 0) 0 xs) j 0) (omega arith)
      ∙ get_or-put_bytes_in (replicate new 0) 0 xs k
          (rw (length-replicate {A = ℕ} new 0) (omega arith)) (ground arith))
  | inr outside ↦ rw whole (
      get_or-put_bytes_out (replicate new 0) 0 xs k (inr (ground arith))
      ∙ get_or-replicate new k 0
      ∙ sym (get_or_out xs k (ground arith)))
]
  where
    whole : take old xs ≡ xs
    whole = take_all old xs (omega arith)
