-- ===== src/Fs/Vfs.antt =====
-- kernel/fs/vfs.c, `vfs_lookup`: the walk along a path. What the walk asks of a file system is a record
-- of the fields it reads and of the function behind `finddir`.
pub mod Path
pub mod Lookup
mod Examples
use zurich_os.Base.{
  ℕ, zero, suc, ◌-◌, Bool, true, false, not, Option, none, some, List, [], ◌∷◌, length, ◌==◌,
  if◌then◌else◌, or_else,
}
use zurich_os.Fs.Ramfs.{Name, Node, Ramfs, vfs_max_name}
use zurich_os.Fs.Ramfs
use zurich_os.Fs.Ramfs.Tree.{eq_name, node_at, ramfs_finddir}

-- `mounted` is `ptr` where the flag VFS_MOUNTPOINT is set.
pub record FileSystem (N : Type 0) : Type 0 where
  pub root : Option N
  pub is_directory : N → Bool
  pub parent_of : N → Option N
  pub mounted : N → Option N
  pub finddir : N → Name → Option N

abbrev pub directory_of : Option Node → Bool
directory_of none = false
directory_of (some n) = Ramfs.is_directory n

abbrev pub parent_in : Option Node → Option ℕ
parent_in none = none
parent_in (some n) = n.parent

-- The nodes of a ramfs with nothing mounted on them.
abbrev pub ramfs_system : Ramfs → ℕ → FileSystem ℕ
ramfs_system r root = record {
  root = some root;
  is_directory = λ i. directory_of (node_at r.nodes i);
  parent_of = λ i. parent_in (node_at r.nodes i);
  mounted = λ i. none;
  finddir = ramfs_finddir r;
}

abbrev pub slash : ℕ
slash = 47

abbrev pub dot : Name
dot = 46 ∷ []

abbrev pub dot_dot : Name
dot_dot = 46 ∷ 46 ∷ []

-- The loop that copies a component, of at most so many bytes, and the path behind it.
unfoldable pub take_component : ℕ → Name → Name × Name
take_component zero path = ([], path)
take_component (suc room) [] = ([], [])
take_component (suc room) (b ∷ path) =
    let rest = take_component room path in
    if b == slash then ([], b ∷ path) else (b ∷ rest.0, rest.1)

unfoldable pub skip_slashes : Name → Name
skip_slashes [] = []
skip_slashes (b ∷ path) = let rest = skip_slashes path in if b == slash then rest else b ∷ path

module _ {N : Type 0} (fs : FileSystem N) where
  abbrev pub enter_mount : Option N → Option N
  enter_mount none = none
  enter_mount (some n) = or_else (fs.mounted n) (some n)

  unfoldable pub vfs_finddir : N → Name → Option N
  vfs_finddir n name = if fs.is_directory n then enter_mount (fs.finddir n name) else none

  -- Where a component leads from a node.
  unfoldable pub visit : N → Name → Option N
  visit n name =
      if eq_name name dot
      then some n
      else (if eq_name name dot_dot
          then or_else (fs.parent_of n) (some n)
          else (if not (fs.is_directory n) then none else enter_mount (vfs_finddir n name)))

  -- The loop, on fuel.
  unfoldable pub walk : ℕ → Option N → Name → Option N
  walk fuel none path = none
  walk fuel (some n) [] = some n
  walk zero (some n) (b ∷ path) = none
  walk (suc fuel) (some n) (b ∷ path) =
      let part = take_component (vfs_max_name - 1) (b ∷ path) in
      walk fuel (visit n part.0) (skip_slashes part.1)

  abbrev pub walk_all : Option N → Name → Option N
  walk_all from path = walk (length path) from path

  unfoldable pub vfs_lookup : Name → Option N
  vfs_lookup [] = walk_all fs.root []
  vfs_lookup (b ∷ path) = if b == slash then walk_all fs.root path else walk_all fs.root (b ∷ path)
