-- ===== src/Fs/Vfs/Examples.antt =====
-- kernel/fs/vfs.c: the theorems on a small tree.
use zurich_os.Base.{ℕ, ◌≡◌, refl, true, false, none, some, List, [], ◌∷◌, pos, arith}
use zurich_os.Fs.Ramfs.{Name, Node, Ramfs}
use zurich_os.Fs.Ramfs.Tree.{
  ramfs_finddir, ramfs_create, eq_name, find_child, find_in, create_in, create_unless, add_new,
  ramfs_alloc_node, ramfs_add_child, add_to, append_child,
}
use zurich_os.Fs.Vfs.{slash, ramfs_system, vfs_lookup, visit, vfs_finddir}
use zurich_os.Fs.Vfs.Path.{path_of}
use zurich_os.Fs.Vfs.Lookup.{vfs_lookup-path_of, vfs_lookup-ramfs_create}

abbrev node : Name → ℕ → List ℕ → Node
node name flags children = record {
  name = name;
  flags = flags;
  inode = 0;
  size = 0;
  ctime = 0;
  mtime = 0;
  atime = 0;
  parent = some 0;
  bytes = none;
  capacity = 0;
  children = children;
  child_capacity = 8;
}

-- A root with the directory "d", and the file "a" in that.
abbrev tree : Ramfs
tree = record {
  nodes =
      some (node (47 ∷ []) 2 (1 ∷ []))
      ∷ some (node (100 ∷ []) 2 (2 ∷ []))
      ∷ some (node (97 ∷ []) 1 [])
      ∷ [];
  next_inode = 4;
}

-- "/d/../d/a"
vfs_lookup-path_of_example :
    vfs_lookup
      (ramfs_system tree 0)
      (path_of ((100 ∷ []) ∷ (46 ∷ 46 ∷ []) ∷ (100 ∷ []) ∷ (97 ∷ []) ∷ []))
    ≡ some 2
unfolding visit vfs_finddir eq_name ramfs_finddir find_in find_child
vfs_lookup-path_of_example =
    vfs_lookup-path_of (ramfs_system tree 0)
      ((100 ∷ []) ∷ (46 ∷ 46 ∷ []) ∷ (100 ∷ []) ∷ (97 ∷ []) ∷ [])
      (
        (omega arith, omega arith, (refl, tt)),
        (
          (omega arith, omega arith, (refl, (refl, tt))),
          ((omega arith, omega arith, (refl, tt)), ((omega arith, omega arith, (refl, tt)), tt)),
        ),
      )

not_dots : (eq_name (98 ∷ []) (46 ∷ []) ≡ false) × (eq_name (98 ∷ []) (46 ∷ 46 ∷ []) ≡ false)
unfolding eq_name
not_dots = (refl, refl)

created_b : (ramfs_create true true 9 0 (98 ∷ []) 1 tree).0 ≡ pos 0
unfolding ramfs_create create_in create_unless add_new ramfs_alloc_node ramfs_add_child add_to
    append_child ramfs_finddir find_in find_child eq_name
created_b = refl

-- "/b", which has just been made.
vfs_lookup-ramfs_create_example :
    vfs_lookup (ramfs_system (ramfs_create true true 9 0 (98 ∷ []) 1 tree).1 0) (slash ∷ 98 ∷ [])
    ≡ some 3
vfs_lookup-ramfs_create_example =
    vfs_lookup-ramfs_create tree 0 (node (47 ∷ []) 2 (1 ∷ [])) (98 ∷ []) true true 9 1 refl refl
      (omega arith, tt) (omega arith, omega arith, (refl, tt)) not_dots.0 not_dots.1 created_b
