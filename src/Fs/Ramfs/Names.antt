-- ===== src/Fs/Ramfs/Names.antt =====
-- kernel/fs/ramfs.c: a node that has been created is found under its name, and the other names lead
-- where they did.
use zurich_os.Base.{
  ℕ, zero, suc, ◌<◌, ◌≡◌, ◌↔◌, refl, sym, ap, ap₂, ◌∙◌, true, Option, none, some, List, [], ◌∷◌,
  ◌++◌, length, if◌then◌else◌, if_true, if_cases, or_else, arith,
}
use zurich_os.Fs.Ramfs.{Name, Node, Ramfs, is_directory}
use zurich_os.Fs.Ramfs.Tree.{
  node_at, kept_name, eq_name, name_of, is_named, find_child, find_in, ramfs_finddir,
}

pub eq_name_iff : (a b : Name) → (eq_name a b ≡ true) ↔ (a ≡ b)
unfolding eq_name
eq_name_iff [] [] = ((λ e. refl), λ e. refl)
eq_name_iff [] (b ∷ bs) = ((λ e. cc), λ e. cc)
eq_name_iff (a ∷ xs) [] = ((λ e. cc), λ e. cc)
eq_name_iff (a ∷ xs) (b ∷ bs) =
    let rest = eq_name_iff xs bs in
    ((λ e. ap₂ ◌∷◌ (ground arith) (rest.0 (ground arith))), λ e. ground (arith, rest.1))

-- Every child is an entry of the list of nodes.
abbrev pub AllBelow : ℕ → List ℕ → Type 0
AllBelow n [] = Unit {0}
AllBelow n (c ∷ cs) = (c < n) × AllBelow n cs

-- The search sees only the names.
find_child-agree :
    (nodes nodes' : List (Option Node)) (name : Name) (cs : List ℕ)
    → AllBelow (length nodes) cs
    → ((c : ℕ) → c < length nodes → name_of (node_at nodes' c) ≡ name_of (node_at nodes c))
    → find_child nodes' name cs ≡ find_child nodes name cs
unfolding find_child
find_child-agree nodes nodes' name [] below same = refl
find_child-agree nodes nodes' name (c ∷ cs) below same =
    ap₂ (λ (x : Option Name) rest. if is_named name x then some c else rest) (same c below.0)
      (find_child-agree nodes nodes' name cs below.1 same)

find_child-append :
    (nodes : List (Option Node)) (name : Name) (cs : List ℕ) (c : ℕ)
    → find_child nodes name (cs ++ c ∷ [])
      ≡ or_else (find_child nodes name cs) (find_child nodes name (c ∷ []))
unfolding find_child
find_child-append nodes name [] c = refl
find_child-append nodes name (d ∷ cs) c =
    if_cases
      (λ x.
        x
        ≡ or_else
            (if is_named name (name_of (node_at nodes d)) then some d else find_child nodes name cs)
            (find_child nodes name (c ∷ [])))
      (is_named name (name_of (node_at nodes d)))
      (λ on.
        ap
          (λ b.
            or_else (if b then some d else find_child nodes name cs)
              (find_child nodes name (c ∷ [])))
          (sym on))
      (λ off.
        find_child-append nodes name cs c
        ∙ ap
            (λ b.
              or_else (if b then some d else find_child nodes name cs)
                (find_child nodes name (c ∷ [])))
            (sym off))

pub get_or_append :
    (xs : List (Option Node)) (x : Option Node) (k : ℕ)
    → k < length xs
    → node_at (xs ++ x ∷ []) k ≡ node_at xs k
get_or_append [] x k lt = absurd (omega arith)
get_or_append (y ∷ xs) x zero lt = refl
get_or_append (y ∷ xs) x (suc k) lt = get_or_append xs x k (omega arith)

pub get_or_last :
    (xs : List (Option Node)) (x : Option Node) → node_at (xs ++ x ∷ []) (length xs) ≡ x
get_or_last [] x = refl
get_or_last (y ∷ xs) x = get_or_last xs x

-- The state after a creation: a new node of this name stands last among the children.
pub record Created (r r' : Ramfs) (parent : ℕ) (name : Name) (p : Node) : Type 0 where
  pub directory : is_directory p ≡ true
  pub was : node_at r.nodes parent ≡ some p
  pub now :
      (q : Node) × (node_at r'.nodes parent ≡ some q)
      × (is_directory q ≡ true)
      × (q.children ≡ p.children ++ length r.nodes ∷ [])
  pub child : name_of (node_at r'.nodes (length r.nodes)) ≡ some (kept_name name)
  pub others :
      (c : ℕ) → c < length r.nodes → name_of (node_at r'.nodes c) ≡ name_of (node_at r.nodes c)

-- Then a search finds what it found, and behind that the new node.
pub find-Created :
    (r r' : Ramfs) (parent : ℕ) (name other : Name) (p : Node)
    → Created r r' parent name p
    → AllBelow (length r.nodes) p.children
    → ramfs_finddir r' parent other
      ≡ or_else
          (ramfs_finddir r parent other)
          (if eq_name (kept_name name) other then some (length r.nodes) else none)
unfolding ramfs_finddir find_in find_child
find-Created r r' parent name other p w below =
    let (q, there, dir, kids) = w.now in
    let last : find_child r'.nodes other (length r.nodes ∷ [])
        ≡ (if eq_name (kept_name name) other then some (length r.nodes) else none) =
      ap (λ (x : Option Name). if is_named other x then some (length r.nodes) else none) w.child in
    ap (find_in r' other) there
    ∙ if_true (is_directory q) _ none dir
    ∙ ap (find_child r'.nodes other) kids
    ∙ find_child-append r'.nodes other p.children (length r.nodes)
    ∙ ap₂ or_else (find_child-agree r.nodes r'.nodes other p.children below w.others) last
    ∙ ap
        (λ (x : Option ℕ).
          or_else x (if eq_name (kept_name name) other then some (length r.nodes) else none))
        (sym (
          ap (find_in r other) w.was
          ∙ if_true (is_directory p) (find_child r.nodes other p.children) none w.directory))
