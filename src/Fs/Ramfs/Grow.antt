-- ===== src/Fs/Ramfs/Grow.antt =====
-- kernel/fs/ramfs.c: the array of a file after it has grown.
use zurich_os.Base.{
  ℕ, ◌≤◌, ◌<◌, ◌≡◌, ◌≢◌, ◌⊎◌, inl, inr, refl, sym, ◌∙◌, Bool, true, false, none, some, ltb,
  if◌then◌else◌, if_true, if_false, Bool-cases, arith,
}
use zurich_os.Fs.Ramfs.{Node, ramfs_max_file_size, new_capacity, regrown, grow_file}
use zurich_os.Fs.Ramfs.Contents.{IsFile, Grown, length-regrown, get_or-regrown}

option_injective : (a b : Node) → some a ≡ some b → a ≡ b
option_injective a b e = cc

none-ne-some : (a : Node) → none ≢ some a
none-ne-some a e = cc

new_capacity_fits :
    (end_pos : ℕ)
    → end_pos ≤ ramfs_max_file_size
    → (end_pos ≤ new_capacity end_pos) × (new_capacity end_pos ≤ ramfs_max_file_size)
new_capacity_fits end_pos h = ground arith

pub grow_file-Grown :
    (room : Bool) (end_pos : ℕ) (n g : Node)
    → IsFile n
    → end_pos ≤ ramfs_max_file_size
    → grow_file room end_pos n ≡ some g
    → Grown end_pos n g
unfolding grow_file
grow_file-Grown room end_pos n g f small e = cases (Bool-cases (ltb n.capacity end_pos)) room e
  where
    fits : (end_pos ≤ new_capacity end_pos) × (new_capacity end_pos ≤ ramfs_max_file_size)
    fits = new_capacity_fits end_pos small

    grown : Node
    grown = record n {
      bytes = some (regrown (new_capacity end_pos) n.capacity n.bytes);
      capacity = new_capacity end_pos;
    }

    enlarged : n.capacity < end_pos → Grown end_pos n grown
    enlarged less = record {
      array = length-regrown (new_capacity end_pos) n.capacity n.bytes;
      room = fits.0;
      bound = fits.1;
      larger = omega (arith, fits.0);
      same_size = refl;
      same_kind = refl;
      same = λ k.
          get_or-regrown (new_capacity end_pos) n.capacity n.bytes k f.array
            (omega (arith, fits.0));
    }

    as_before : end_pos ≤ n.capacity → Grown end_pos n n
    as_before le = record {
      array = f.array;
      room = le;
      bound = f.bound;
      larger = omega arith;
      same_size = refl;
      same_kind = refl;
      same = λ k. refl;
    }

    cases :
        ((ltb n.capacity end_pos) ≡ true) ⊎ ((ltb n.capacity end_pos) ≡ false)
        → (r : Bool)
        → (if ltb n.capacity end_pos then (if r then some grown else none) else some n) ≡ some g
        → Grown end_pos n g
    cases (inl less) true e =
        let same : grown ≡ g =
          option_injective grown g
            (sym (if_true (ltb n.capacity end_pos) (some grown) (some n) less) ∙ e) in
        rw (← same) (enlarged (ground arith))
    cases (inl less) false e =
        absurd (none-ne-some g (sym (if_true (ltb n.capacity end_pos) none (some n) less) ∙ e))
    cases (inr not_less) r e =
        let same : n ≡ g = option_injective n g (
          sym (if_false (ltb n.capacity end_pos) (if r then some grown else none) (some n) not_less)
          ∙ e) in
        rw (← same) (as_before (ground arith))
