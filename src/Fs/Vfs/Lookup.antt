-- ===== src/Fs/Vfs/Lookup.antt =====
-- kernel/fs/vfs.c: `vfs_lookup` follows the components of a path, one at a time.
use zurich_os.Base.{
  ℕ, zero, suc, ◌-◌, ◌≤◌, ◌≡◌, refl, sym, ap, ◌∙◌, Bool, true, false, not, Option, none, some, List,
  [], ◌∷◌, ◌++◌, length, length-append, if_true, if_false, pos, arith,
}
use zurich_os.Fs.Ramfs.{is_directory, Name, Node, Ramfs, vfs_max_name}
use zurich_os.Fs.Ramfs.Tree.{node_at, eq_name, ramfs_create, ramfs_finddir}
use zurich_os.Fs.Ramfs.Names.{eq_name_iff, AllBelow}
use zurich_os.Fs.Ramfs.Create.{ramfs_create-Created, ramfs_finddir-ramfs_create}
use zurich_os.Fs.Vfs.{
  FileSystem, directory_of, ramfs_system, slash, dot, dot_dot, take_component, skip_slashes,
  enter_mount, vfs_finddir, visit, walk, vfs_lookup,
}
use zurich_os.Fs.Vfs.Path.{
  IsComponent, AllComponents, path_of, joined, take_component-append, skip_slashes-path_of,
  length-joined, round_shortens,
}

append_nil : (xs : Name) → xs ++ [] ≡ xs
append_nil [] = refl
append_nil (x ∷ xs) = ap (λ (ys : Name). x ∷ ys) (append_nil xs)

module _ {N : Type 0} (fs : FileSystem N) where
  -- The components one after the other, as long as they lead somewhere.
  abbrev pub follow : Option N → List Name → Option N
  follow none cs = none
  follow (some n) [] = some n
  follow (some n) (c ∷ cs) = follow (visit fs n c) cs

  -- As much fuel as the path is long is enough.
  pub walk_enough :
      (more less : ℕ) (from : Option N) (path : Name)
      → length path ≤ less
      → length path ≤ more
      → walk fs more from path ≡ walk fs less from path
  unfolding walk
  walk_enough more less none path h k = refl
  walk_enough more less (some n) [] h k = refl
  walk_enough zero less (some n) (b ∷ path) h k = absurd (omega arith)
  walk_enough (suc more) zero (some n) (b ∷ path) h k = absurd (omega arith)
  walk_enough (suc more) (suc less) (some n) (b ∷ path) h k =
      let part = take_component (vfs_max_name - 1) (b ∷ path) in
      walk_enough more less (visit fs n part.0) (skip_slashes part.1)
        (omega (arith, round_shortens 62 b path)) (omega (arith, round_shortens 62 b path))

  walk-joined :
      (fuel : ℕ) (from : Option N) (cs : List Name)
      → AllComponents cs
      → length (joined cs) ≤ fuel
      → walk fs fuel from (joined cs) ≡ follow from cs
  unfolding walk
  walk-joined fuel none cs ok h = refl
  walk-joined fuel (some n) [] ok h = refl
  walk-joined fuel (some n) ([] ∷ cs) ok h = absurd (omega (arith, ok.0.0))
  walk-joined zero (some n) ((b ∷ c) ∷ cs) ok h = absurd (omega arith)
  walk-joined (suc fuel) (some n) ((b ∷ c) ∷ cs) ok h =
      let whole = length-append c (path_of cs) in
      ap (λ (r : Name × Name). walk fs fuel (visit fs n r.0) (skip_slashes r.1))
        (take_component-append (vfs_max_name - 1) (b ∷ c) cs (omega (arith, ok.0.1)) ok.0.2)
      ∙ ap (walk fs fuel (visit fs n (b ∷ c))) (skip_slashes-path_of cs ok.1)
      ∙ walk-joined fuel (visit fs n (b ∷ c)) cs ok.1 (omega (arith, whole, length-joined cs))

  -- A path of components of 1 to 63 bytes, each behind one slash, leads from the root where its
  -- components lead one after the other.
  pub vfs_lookup-path_of :
      (cs : List Name) → AllComponents cs → vfs_lookup fs (path_of cs) ≡ follow fs.root cs
  unfolding vfs_lookup
  vfs_lookup-path_of [] ok = walk-joined 0 fs.root [] ok (omega arith)
  vfs_lookup-path_of (c ∷ cs) ok =
      walk-joined (length (joined (c ∷ cs))) fs.root (c ∷ cs) ok (omega arith)

-- Where `ramfs_create` in the root returns 0, for a name of 1 to 63 bytes without a slash that is neither
-- "." nor "..", the walk along "/" and this name then leads to the new node.
pub vfs_lookup-ramfs_create :
    (r : Ramfs) (root : ℕ) (p : Node) (name : Name) (room grow : Bool) (now type : ℕ)
    → node_at r.nodes root ≡ some p
    → is_directory p ≡ true
    → AllBelow (length r.nodes) p.children
    → IsComponent name
    → eq_name name dot ≡ false
    → eq_name name dot_dot ≡ false
    → (ramfs_create room grow now root name type r).0 ≡ pos 0
    → vfs_lookup (ramfs_system (ramfs_create room grow now root name type r).1 root) (slash ∷ name)
      ≡ some (length r.nodes)
unfolding visit vfs_finddir
vfs_lookup-ramfs_create r root p name room grow now type was dir below ok not_dot not_dot_dot done =
    let fs = ramfs_system (ramfs_create room grow now root name type r).1 root in
    let (q, there, dir', kids) =
      (ramfs_create-Created r root name p was dir room grow now type done).1.now in
    let itself = ap directory_of there ∙ dir' in
    let found : ramfs_finddir (ramfs_create room grow now root name type r).1 root name
        ≡ some (length r.nodes) =
      ramfs_finddir-ramfs_create r root name p was dir room grow now type name below ok.1 done
      ∙ if_true (eq_name name name) _ _ ((eq_name_iff name name).1 refl) in
    let path : slash ∷ name ≡ path_of (name ∷ []) =
      ap (λ (xs : Name). slash ∷ xs) (sym (append_nil name)) in
    ap (vfs_lookup fs) path
    ∙ vfs_lookup-path_of fs (name ∷ []) (ok, tt)
    ∙ ap (λ (x : Option ℕ). follow fs x [])
        (if_false (eq_name name dot) _ _ not_dot
          ∙ if_false (eq_name name dot_dot) _ _ not_dot_dot
          ∙ if_false
              (not
                (directory_of (node_at (ramfs_create room grow now root name type r).1.nodes root)))
              _ _ (ground (arith, itself))
          ∙ ap (enter_mount fs) (
              if_true
                (directory_of (node_at (ramfs_create room grow now root name type r).1.nodes root))
                _ _ itself
              ∙ ap (enter_mount fs) found))
