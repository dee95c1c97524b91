-- ===== src/Fs/Ramfs.antt =====
-- kernel/fs/ramfs.c: files and directories in memory. A node is an index into the list of nodes,
-- which grows by `kmalloc` and has `none` where a node has been freed; a name is the list of its
-- bytes before the zero. Whether `kmalloc` has room, and the time, are arguments of the calls.
pub mod Contents
pub mod Grow
pub mod Write
pub mod Tree
pub mod Names
pub mod Create
mod Examples
use zurich_os.Base.{
  ℕ, zero, suc, ◌+◌, ◌-◌, ◌*◌, ◌%◌, ◌^◌, Bool, true, false, ◌&&◌, ◌||◌, not, Option, none, some,
  List, [], ◌∷◌, ◌++◌, length, get_or, set, take, replicate, ltb, leb, ◌==◌, if◌then◌else◌, bit_and,
  ℤ, pos, neg,
}
use zurich_os.Memory.Frames.{u32}

abbrev pub Name : Type 0
Name = List ℕ

-- The fields of `vfs_node_t` that this file sets, and those of `ramfs_node_t`. The children are the
-- first `child_count` of the array.
pub record Node : Type 0 where
  pub name : Name
  pub flags : ℕ
  pub inode : ℕ
  pub size : ℕ
  pub ctime : ℕ
  pub mtime : ℕ
  pub atime : ℕ
  pub parent : Option ℕ
  pub bytes : Option (List ℕ)
  pub capacity : ℕ
  pub children : List ℕ
  pub child_capacity : ℕ

pub record Ramfs : Type 0 where
  pub nodes : List (Option Node)
  pub next_inode : ℕ

abbrev pub vfs_max_name : ℕ
vfs_max_name = 64

abbrev pub vfs_directory : ℕ
vfs_directory = 2

abbrev pub vfs_file : ℕ
vfs_file = 1

abbrev pub ramfs_max_file_size : ℕ
ramfs_max_file_size = 64 * 1024

abbrev pub is_directory : Node → Bool
is_directory n = not (bit_and n.flags vfs_directory == 0)

-- `memcpy` from an array to a buffer, and from a buffer into an array.
unfoldable pub slice : List ℕ → ℕ → ℕ → List ℕ
slice xs offset zero = []
slice xs offset (suc n) = get_or xs offset 0 ∷ slice xs (offset + 1) n

unfoldable pub put_bytes : List ℕ → ℕ → List ℕ → List ℕ
put_bytes xs offset [] = xs
put_bytes xs offset (b ∷ bs) = put_bytes (set xs offset b) (offset + 1) bs

-- What a read copies to the buffer: nothing where the file has no array.
abbrev pub slice_of : Option (List ℕ) → ℕ → ℕ → List ℕ
slice_of none offset n = []
slice_of (some xs) offset n = slice xs offset n

-- The count that is returned, the bytes copied, and the node after.
pub record Read : Type 0 where
  pub count : ℤ
  pub copied : List ℕ
  pub node : Node

abbrev pub bytes_to_read : Node → ℕ → ℕ → ℕ
bytes_to_read n offset size = if ltb n.size (u32 (offset + size)) then n.size - offset else size

unfoldable pub ramfs_read : ℕ → ℕ → ℕ → Node → Read
ramfs_read now offset size n =
    if is_directory n
    then record { count = neg 1; copied = []; node = n }
    else (if leb n.size offset then record { count = pos 0; copied = []; node = n } else record {
      count = pos (bytes_to_read n offset size);
      copied = slice_of n.bytes offset (bytes_to_read n offset size);
      node = record n { atime = now };
    })

-- The capacity that a write asks for.
abbrev pub new_capacity : ℕ → ℕ
new_capacity end_pos =
    if ltb ramfs_max_file_size (end_pos + 1024) then ramfs_max_file_size else end_pos + 1024

-- The first `capacity` bytes of the old array at the start of the new one.
abbrev pub regrown : ℕ → ℕ → Option (List ℕ) → List ℕ
regrown new old none = replicate new 0
regrown new old (some xs) = put_bytes (replicate new 0) 0 (take old xs)

unfoldable pub grow_file : Bool → ℕ → Node → Option Node
grow_file room end_pos n =
    if ltb n.capacity end_pos
    then (if room
        then some (record n {
          bytes = some (regrown (new_capacity end_pos) n.capacity n.bytes);
          capacity = new_capacity end_pos;
        })
        else none)
    else some n

abbrev pub written : Option (List ℕ) → ℕ → List ℕ → Option (List ℕ)
written none offset buffer = none
written (some xs) offset buffer = some (put_bytes xs offset buffer)

store_bytes : ℕ → ℕ → List ℕ → Node → Option Node → ℤ × Node
store_bytes now offset buffer n none = (neg 1, n)
store_bytes now offset buffer n (some g) =
    let end_pos = u32 (offset + length buffer) in
    (
      pos (length buffer),
      record g {
        bytes = written g.bytes offset buffer;
        size = if ltb g.size end_pos then end_pos else g.size;
        mtime = now;
      },
    )

-- The buffer holds the bytes that are asked for.
unfoldable pub ramfs_write : Bool → ℕ → ℕ → List ℕ → Node → ℤ × Node
unfolding store_bytes
ramfs_write room now offset buffer n =
    let end_pos = u32 (offset + length buffer) in
    if is_directory n
    then (neg 1, n)
    else (if ltb ramfs_max_file_size end_pos
        then (neg 1, n)
        else store_bytes now offset buffer n (grow_file room end_pos n))
