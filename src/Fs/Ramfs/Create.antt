-- ===== src/Fs/Ramfs/Create.antt =====
-- kernel/fs/ramfs.c: what `ramfs_create` leaves, and how a search of the directory sees it.
use zurich_os.Base.{
  ℕ, zero, suc, ◌+◌, ◌-◌, ◌*◌, ◌<◌, ◌≡◌, ◌≢◌, refl, sym, ap, ◌∙◌, Bool, true, false, ◌&&◌, not,
  Option, none, some, List, [], ◌∷◌, ◌++◌, length, set, take_all, get_or-set_self, get_or-set_ne,
  length-append, length-set, leb, ◌==◌, if◌then◌else◌, if_cases, or_else, Bool-cases, inl, inr, ℤ,
  pos, neg, arith,
}
use zurich_os.Memory.Frames.{u32}
use zurich_os.Fs.Ramfs.{Name, Node, Ramfs, vfs_max_name, is_directory}
use zurich_os.Fs.Ramfs.Tree.{
  node_at, kept_name, new_node, ramfs_alloc_node, set_parent, append_child, add_to, ramfs_add_child,
  eq_name, name_of, ramfs_finddir, add_new, create_unless, create_in, ramfs_create,
}
use zurich_os.Fs.Ramfs.Names.{
  eq_name_iff, AllBelow, get_or_append, get_or_last, Created, find-Created,
}

node_at_bound :
    (nodes : List (Option Node)) (i : ℕ) (n : Node) → node_at nodes i ≡ some n → i < length nodes
node_at_bound [] i n e = absurd (none-ne-some n e)
  where
    none-ne-some : (n : Node) → none ≢ some n
    none-ne-some n e = cc
node_at_bound (x ∷ nodes) zero n e = omega arith
node_at_bound (x ∷ nodes) (suc i) n e = let h = node_at_bound nodes i n e in omega arith

-- A node set at `i` in a list with one entry more, seen from the other entries.
node_at-grown :
    (nodes : List (Option Node)) (new x y : Option Node) (i k : ℕ)
    → k < length nodes
    → i ≢ k
    → node_at (set (set (nodes ++ new ∷ []) i x) (length nodes) y) k ≡ node_at nodes k
node_at-grown nodes new x y i k lt ne =
    get_or-set_ne (set (nodes ++ new ∷ []) i x) (length nodes) k y none (λ e. omega (arith, e))
    ∙ get_or-set_ne (nodes ++ new ∷ []) i k x none ne
    ∙ get_or_append nodes new k lt

neg-ne-pos : neg 1 ≢ pos 0
neg-ne-pos e = cc

module _ (r : Ramfs) (parent : ℕ) (name : Name) (p : Node) (was : node_at r.nodes parent ≡ some p)
    (dir : is_directory p ≡ true) where
  -- The steps of `append_child` for the node `c` that stands last in the list.
  append_child-Created :
      (next : ℕ) (c p' : Node)
      → c.name ≡ kept_name name
      → is_directory p' ≡ true
      → p'.children ≡ p.children
      → p'.name ≡ p.name
      → Created r
          (append_child
            (record { nodes = r.nodes ++ some c ∷ []; next_inode = next })
            parent
            (length r.nodes)
            p').1
          parent
          name
          p
  unfolding append_child set_parent
  append_child-Created next c p' named dir' kids same = rw last record {
    directory = dir;
    was = was;
    now = (
      q,
      get_or-set_ne middle L parent (some c1) none (λ e. omega (arith, e, bound))
          ∙ get_or-set_self grown parent (some q) none (rw longer (omega (arith, bound))),
      dir',
      ap (λ (xs : List ℕ). xs ++ L ∷ []) kids,
    );
    child =
        ap name_of (
          get_or-set_self middle L (some c1) none
            (rw (length-set grown parent (some q)) (rw longer (omega arith))))
        ∙ ap (λ (x : Name). some x) named;
    others = λ k lt. elim (Bool-cases (k == parent)) [
      | inl same_node ↦
          let e : parent ≡ k = ground arith in
          rw (← e) (
            ap name_of (
              get_or-set_ne middle L parent (some c1) none (λ e'. omega (arith, e', bound))
              ∙ get_or-set_self grown parent (some q) none (rw longer (omega (arith, bound))))
            ∙ ap (λ (x : Name). some x) same
            ∙ sym (ap name_of was))
      | inr other_node ↦
          ap name_of
            (node_at-grown r.nodes (some c) (some q) (some c1) parent k lt (λ e. ground arith))
    ];
  }
    where
      L : ℕ
      L = length r.nodes

      grown : List (Option Node)
      grown = r.nodes ++ some c ∷ []

      q : Node
      q = record p' { children = p'.children ++ L ∷ [] }

      c1 : Node
      c1 = record c { parent = some parent }

      middle : List (Option Node)
      middle = set grown parent (some q)

      bound : parent < L
      bound = node_at_bound r.nodes parent p was

      longer : length grown ≡ L + 1
      longer = length-append r.nodes (some c ∷ [])

      last : node_at middle L ≡ some c
      last =
          get_or-set_ne grown parent L (some q) none (λ e. omega (arith, e, bound))
          ∙ get_or_last r.nodes (some c)

  module _ (grow : Bool) (now next type inode : ℕ) where
    -- The state in which `ramfs_add_child` is called.
    abbrev with_new : Ramfs
    with_new = record {
      nodes = r.nodes ++ some (new_node now name type inode) ∷ [];
      next_inode = next;
    }

    still_there : node_at with_new.nodes parent ≡ some p
    still_there =
        get_or_append r.nodes (some (new_node now name type inode)) parent
          (node_at_bound r.nodes parent p was)
        ∙ was

    ramfs_add_child-Created :
        (ramfs_add_child grow parent (length r.nodes) with_new).0 ≡ pos 0
        → Created r (ramfs_add_child grow parent (length r.nodes) with_new).1 parent name p
    unfolding ramfs_add_child add_to append_child
    ramfs_add_child-Created = rw still_there (
        if_cases Goal (not (is_directory p)) (λ _. refused)
          (λ _.
            if_cases Goal (leb p.child_capacity (length p.children))
              (λ _.
                if_cases Goal (grow && not (u32 (p.child_capacity * 2) == 0))
                  (λ _ _.
                    append_child-Created next (new_node now name type inode)
                      (record p { child_capacity = u32 (p.child_capacity * 2) }) refl dir refl refl)
                  (λ _. refused))
              (λ _ _.
                append_child-Created next (new_node now name type inode) p refl dir refl refl)))
      where
        Goal : ℤ × Ramfs → Type 0
        Goal x = x.0 ≡ pos 0 → Created r x.1 parent name p

        refused : neg 1 ≡ pos 0 → Created r with_new parent name p
        refused e = absurd (neg-ne-pos e)

  -- A creation that returns 0 found no such name, and leaves a new node of it.
  pub ramfs_create-Created :
      (room grow : Bool) (now type : ℕ)
      → (ramfs_create room grow now parent name type r).0 ≡ pos 0
      → (ramfs_finddir r parent name ≡ none)
        × Created r (ramfs_create room grow now parent name type r).1 parent name p
  unfolding ramfs_create create_in create_unless add_new ramfs_alloc_node
  ramfs_create-Created room grow now type = rw was (
      if_cases Goal (is_directory p) (λ _. found (ramfs_finddir r parent name))
        (λ off e. absurd (neg-ne-pos e)))
    where
      Kept : ℤ × Ramfs → Type 0
      Kept x = x.0 ≡ pos 0 → Created r x.1 parent name p

      Goal : ℤ × Ramfs → Type 0
      Goal x = x.0 ≡ pos 0 → (ramfs_finddir r parent name ≡ none) × Created r x.1 parent name p

      allocated :
          (b : Bool)
          → Kept (
              add_new grow parent (
                if b
                then (
                  some (length r.nodes),
                  with_new grow now (u32 (r.next_inode + 1)) type r.next_inode,
                )
                else (none, r)))
      allocated true = ramfs_add_child-Created grow now (u32 (r.next_inode + 1)) type r.next_inode
      allocated false = λ e. absurd (neg-ne-pos e)

      found :
          (o : Option ℕ)
          → (create_unless room grow now parent name type r o).0 ≡ pos 0
          → (o ≡ none)
            × Created r (create_unless room grow now parent name type r o).1 parent name p
      found none e = (refl, allocated room e)
      found (some c) e = absurd (neg-ne-pos e)

  -- After a creation that returns 0, in a directory whose children are nodes of the list and with a name
  -- of at most 63 bytes, this name leads to the new node and any other name where it led before.
  pub ramfs_finddir-ramfs_create :
      (room grow : Bool) (now type : ℕ) (other : Name)
      → AllBelow (length r.nodes) p.children
      → length name < vfs_max_name
      → (ramfs_create room grow now parent name type r).0 ≡ pos 0
      → ramfs_finddir (ramfs_create room grow now parent name type r).1 parent other
        ≡ (if eq_name name other then some (length r.nodes) else ramfs_finddir r parent other)
  ramfs_finddir-ramfs_create room grow now type other below short done =
      let (absent, made) = ramfs_create-Created room grow now type done in
      find-Created r (ramfs_create room grow now parent name type r).1 parent name other p made
        below
      ∙ ap
          (λ (x : Name).
            or_else (ramfs_finddir r parent other)
              (if eq_name x other then some (length r.nodes) else none))
          (take_all (vfs_max_name - 1) name (omega arith))
      ∙ by_name (eq_name name other) refl absent
    where
      or_else-none : (o : Option ℕ) → or_else o none ≡ o
      or_else-none none = refl
      or_else-none (some c) = refl

      by_name :
          (b : Bool)
          → eq_name name other ≡ b
          → ramfs_finddir r parent name ≡ none
          → or_else (ramfs_finddir r parent other) (if b then some (length r.nodes) else none)
            ≡ (if b then some (length r.nodes) else ramfs_finddir r parent other)
      by_name true e absent =
          ap (λ (o : Option ℕ). or_else o (some (length r.nodes)))
            (ap (ramfs_finddir r parent) (sym ((eq_name_iff name other).0 e)) ∙ absent)
      by_name false e absent = or_else-none (ramfs_finddir r parent other)
