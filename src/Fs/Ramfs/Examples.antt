-- ===== src/Fs/Ramfs/Examples.antt =====
-- kernel/fs/ramfs.c: the theorems at concrete inputs, and tests.
use zurich_os.Base.{ℕ, zero, suc, ◌≤◌, ◌≡◌, refl, none, some, [], ◌∷◌, true, pos, neg, arith}
use zurich_os.Fs.Ramfs.{Node, Ramfs, put_bytes, ramfs_read, ramfs_write, grow_file, store_bytes}
use zurich_os.Fs.Ramfs.Contents.{byte_at, IsFile}
use zurich_os.Fs.Ramfs.Write.{WriteOutcome, ramfs_write-Outcome, ramfs_read-ramfs_write}
use zurich_os.Fs.Ramfs.Tree.{
  ramfs_finddir, ramfs_create, eq_name, find_child, find_in, create_in, create_unless, add_new,
  ramfs_alloc_node, ramfs_add_child, add_to, append_child, ramfs_unlink,
}
use zurich_os.Fs.Ramfs.Create.{ramfs_finddir-ramfs_create}

-- A file "a" of four bytes with room for two more.
abbrev file_a : Node
file_a = record {
  name = 97 ∷ [];
  flags = 1;
  inode = 2;
  size = 4;
  ctime = 0;
  mtime = 0;
  atime = 0;
  parent = some 0;
  bytes = some (1 ∷ 2 ∷ 3 ∷ 4 ∷ 0 ∷ 0 ∷ []);
  capacity = 6;
  children = [];
  child_capacity = 0;
}

-- The root, with this file in it.
abbrev root : Node
root = record {
  name = 47 ∷ [];
  flags = 2;
  inode = 1;
  size = 0;
  ctime = 0;
  mtime = 0;
  atime = 0;
  parent = none;
  bytes = none;
  capacity = 0;
  children = 1 ∷ [];
  child_capacity = 8;
}

abbrev tree : Ramfs
tree = record { nodes = some root ∷ some file_a ∷ []; next_inode = 3 }

file_a-IsFile : IsFile file_a
file_a-IsFile = record {
  plain = refl;
  array = refl;
  within = omega arith;
  bound = omega arith;
  zeros = λ k le. behind k le;
}
  where
    behind : (k : ℕ) → 4 ≤ k → byte_at file_a.bytes k ≡ 0
    behind zero le = absurd (omega arith)
    behind (suc zero) le = absurd (omega arith)
    behind (suc (suc zero)) le = absurd (omega arith)
    behind (suc (suc (suc zero))) le = absurd (omega arith)
    behind (suc (suc (suc (suc zero)))) le = refl
    behind (suc (suc (suc (suc (suc zero))))) le = refl
    behind (suc (suc (suc (suc (suc (suc k)))))) le = refl

-- A write across the old end of the file.
ramfs_write-Outcome_example :
    WriteOutcome file_a 3 (8 ∷ 9 ∷ []) (ramfs_write true 5 3 (8 ∷ 9 ∷ []) file_a)
ramfs_write-Outcome_example =
    ramfs_write-Outcome true 5 3 (8 ∷ 9 ∷ []) file_a file_a-IsFile (omega arith)

two_written : (ramfs_write true 5 3 (8 ∷ 9 ∷ []) file_a).0 ≡ pos 2
unfolding ramfs_write grow_file put_bytes store_bytes
two_written = refl

ramfs_read-ramfs_write_example :
    let r = ramfs_read 6 3 2 (ramfs_write true 5 3 (8 ∷ 9 ∷ []) file_a).1 in
    (r.count ≡ pos 2) × (r.copied ≡ 8 ∷ 9 ∷ [])
ramfs_read-ramfs_write_example =
    ramfs_read-ramfs_write file_a 3 (8 ∷ 9 ∷ []) (omega arith) true 5 6 file_a-IsFile two_written

created_b : (ramfs_create true true 9 0 (98 ∷ []) 1 tree).0 ≡ pos 0
unfolding ramfs_create create_in create_unless add_new ramfs_alloc_node ramfs_add_child add_to
    append_child ramfs_finddir find_in find_child eq_name
created_b = refl

-- "b" is made beside "a", which is still found.
ramfs_finddir-ramfs_create_example :
    ramfs_finddir (ramfs_create true true 9 0 (98 ∷ []) 1 tree).1 0 (97 ∷ []) ≡ some 1
unfolding ramfs_finddir find_in find_child eq_name
ramfs_finddir-ramfs_create_example =
    ramfs_finddir-ramfs_create tree 0 (98 ∷ []) root refl refl true true 9 1 (97 ∷ [])
      (omega arith, tt) (omega arith) created_b

-- A directory that is not empty stays.
root_kept : ramfs_unlink 0 (98 ∷ []) tree ≡ (neg 1, tree)
unfolding ramfs_unlink eq_name find_child
root_kept = refl
