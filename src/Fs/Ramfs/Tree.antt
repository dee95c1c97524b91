-- ===== src/Fs/Ramfs/Tree.antt =====
-- kernel/fs/ramfs.c: directories. A directory's array of children is taken to be allocated with its
-- node, and grows where `kmalloc` has room.
use zurich_os.Base.{
  ℕ, suc, ◌+◌, ◌-◌, ◌*◌, Bool, true, false, ◌&&◌, ◌||◌, not, Option, none, some, List, [], ◌∷◌,
  ◌++◌, length, get_or, set, take, ltb, leb, ◌==◌, if◌then◌else◌, ℤ, pos, neg,
}
use zurich_os.Memory.Frames.{u32}
use zurich_os.Base.Ring.{delete_at}
use zurich_os.Fs.Ramfs.{Name, Node, Ramfs, vfs_max_name, vfs_directory, is_directory, ramfs_write}

abbrev pub node_at : List (Option Node) → ℕ → Option Node
node_at nodes i = get_or nodes i none

-- The name as the node keeps it: the first bytes that `strncpy` copies.
abbrev pub kept_name : Name → Name
kept_name name = take (vfs_max_name - 1) name

abbrev pub new_node : ℕ → Name → ℕ → ℕ → Node
new_node now name type inode = record {
  name = kept_name name;
  flags = type;
  inode = inode;
  size = 0;
  ctime = now;
  mtime = now;
  atime = now;
  parent = none;
  bytes = none;
  capacity = 0;
  children = [];
  child_capacity = if type == vfs_directory then 8 else 0;
}

unfoldable pub ramfs_alloc_node : Bool → ℕ → Name → ℕ → Ramfs → Option ℕ × Ramfs
ramfs_alloc_node room now name type r =
    if room
    then (
      some (length r.nodes),
      record {
        nodes = r.nodes ++ some (new_node now name type r.next_inode) ∷ [];
        next_inode = u32 (r.next_inode + 1);
      },
    )
    else (none, r)

abbrev pub set_node : Ramfs → ℕ → Node → Ramfs
set_node r i n = record r { nodes = set r.nodes i (some n) }

-- `child->vfs.parent = &parent->vfs`
unfoldable pub set_parent : Ramfs → ℕ → ℕ → Option Node → Ramfs
set_parent r child parent none = r
set_parent r child parent (some c) = set_node r child (record c { parent = some parent })

unfoldable pub append_child : Ramfs → ℕ → ℕ → Node → ℤ × Ramfs
unfolding set_parent
append_child r parent child p =
    let r1 = set_node r parent (record p { children = p.children ++ child ∷ [] }) in
    (pos 0, set_parent r1 child parent (node_at r1.nodes child))

-- `kmalloc` of no bytes gives nothing.
unfoldable pub add_to : Bool → Ramfs → ℕ → ℕ → Option Node → ℤ × Ramfs
unfolding append_child
add_to room r parent child none = (neg 1, r)
add_to room r parent child (some p) =
    if not (is_directory p)
    then (neg 1, r)
    else (if leb p.child_capacity (length p.children)
        then (if room && not (u32 (p.child_capacity * 2) == 0)
            then append_child r parent child
                (record p { child_capacity = u32 (p.child_capacity * 2) })
            else (neg 1, r))
        else append_child r parent child p)

unfoldable pub ramfs_add_child : Bool → ℕ → ℕ → Ramfs → ℤ × Ramfs
unfolding add_to
ramfs_add_child room parent child r = add_to room r parent child (node_at r.nodes parent)

-- `strcmp` of two names gives 0.
unfoldable pub eq_name : Name → Name → Bool
eq_name [] [] = true
eq_name [] (b ∷ bs) = false
eq_name (a ∷ as') [] = false
eq_name (a ∷ as') (b ∷ bs) = a == b && eq_name as' bs

-- The name at a pointer, `none` where the node has been freed.
abbrev pub name_of : Option Node → Option Name
name_of none = none
name_of (some n) = some n.name

abbrev pub is_named : Name → Option Name → Bool
is_named name none = false
is_named name (some other) = eq_name other name

-- The loop of `ramfs_finddir` over the children.
unfoldable pub find_child : List (Option Node) → Name → List ℕ → Option ℕ
unfolding eq_name
find_child nodes name [] = none
find_child nodes name (c ∷ cs) =
    if is_named name (name_of (node_at nodes c)) then some c else find_child nodes name cs

unfoldable pub find_in : Ramfs → Name → Option Node → Option ℕ
unfolding find_child
find_in r name none = none
find_in r name (some p) = if is_directory p then find_child r.nodes name p.children else none

unfoldable pub ramfs_finddir : Ramfs → ℕ → Name → Option ℕ
unfolding find_in
ramfs_finddir r i name = find_in r name (node_at r.nodes i)

-- The entry of `readdir`.
pub record Dirent : Type 0 where
  pub name : Name
  pub inode : ℕ

abbrev pub entry_of : Option Node → Option Dirent
entry_of none = none
entry_of (some c) = some (record { name = kept_name c.name; inode = c.inode })

entry_in : Ramfs → ℕ → Option Node → Option Dirent
entry_in r index none = none
entry_in r index (some p) =
    if not (is_directory p) || leb (length p.children) index
    then none
    else entry_of (node_at r.nodes (get_or p.children index 0))

unfoldable pub ramfs_readdir : Ramfs → ℕ → ℕ → Option Dirent
unfolding entry_in
ramfs_readdir r i index = entry_in r index (node_at r.nodes i)

unfoldable pub add_new : Bool → ℕ → Option ℕ × Ramfs → ℤ × Ramfs
add_new room parent (none, r) = (neg 1, r)
add_new room parent (some child, r) = ramfs_add_child room parent child r

unfoldable pub create_unless : Bool → Bool → ℕ → ℕ → Name → ℕ → Ramfs → Option ℕ → ℤ × Ramfs
unfolding add_new
create_unless room grow now parent name type r (some found) = (neg 1, r)
create_unless room grow now parent name type r none =
    add_new grow parent (ramfs_alloc_node room now name type r)

unfoldable pub create_in : Bool → Bool → ℕ → ℕ → Name → ℕ → Ramfs → Option Node → ℤ × Ramfs
unfolding create_unless
create_in room grow now parent name type r none = (neg 1, r)
create_in room grow now parent name type r (some p) =
    if is_directory p
    then create_unless room grow now parent name type r (ramfs_finddir r parent name)
    else (neg 1, r)

-- `room` is for the node, `grow` for a larger array of children.
unfoldable pub ramfs_create : Bool → Bool → ℕ → ℕ → Name → ℕ → Ramfs → ℤ × Ramfs
unfolding create_in
ramfs_create room grow now parent name type r =
    create_in room grow now parent name type r (node_at r.nodes parent)

-- Where the pointer stands among the children.
unfoldable pub index_of : ℕ → List ℕ → Option ℕ
index_of c [] = none
index_of c (d ∷ ds) =
    if d == c then some 0 else elim (index_of c ds) [ none ↦ none | some i ↦ some (suc i) ]

remove_at : Ramfs → ℕ → Node → Option ℕ → Ramfs
remove_at r parent p none = r
remove_at r parent p (some i) = set_node r parent (record p { children = delete_at i p.children })

abbrev pub has_children : Node → Bool
has_children n = is_directory n && ltb 0 (length n.children)

unlink_child : Ramfs → ℕ → Node → ℕ → Option Node → ℤ × Ramfs
unfolding remove_at
unlink_child r parent p c none = (neg 1, r)
unlink_child r parent p c (some n) =
    if has_children n
    then (neg 1, r)
    else let r1 = remove_at r parent p (index_of c p.children) in
      (pos 0, record r1 { nodes = set r1.nodes c none })

unlink_found : Ramfs → ℕ → Node → Option ℕ → ℤ × Ramfs
unfolding unlink_child
unlink_found r parent p none = (neg 1, r)
unlink_found r parent p (some c) = unlink_child r parent p c (node_at r.nodes c)

unlink_in : Ramfs → ℕ → Name → Option Node → ℤ × Ramfs
unfolding unlink_found
unlink_in r parent name none = (neg 1, r)
unlink_in r parent name (some p) =
    if is_directory p
    then unlink_found r parent p (find_child r.nodes name p.children)
    else (neg 1, r)

unfoldable pub ramfs_unlink : ℕ → Name → Ramfs → ℤ × Ramfs
unfolding unlink_in
ramfs_unlink parent name r = unlink_in r parent name (node_at r.nodes parent)

-- `ramfs_init`: the root.
unfoldable pub ramfs_init : Bool → ℕ → Ramfs → Option ℕ × Ramfs
ramfs_init room now r = ramfs_alloc_node room now (47 ∷ []) vfs_directory r

unfoldable pub ramfs_write_file : Bool → ℕ → List ℕ → Node → ℤ × Node
ramfs_write_file room now bytes n = ramfs_write room now 0 bytes n
