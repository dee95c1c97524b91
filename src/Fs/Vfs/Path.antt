-- ===== src/Fs/Vfs/Path.antt =====
-- kernel/fs/vfs.c: what a path gives to the walk, one component after the other.
use zurich_os.Base.{
  ℕ, zero, suc, ◌≤◌, ◌<◌, ◌≡◌, refl, ap, ◌∙◌, false, List, [], ◌∷◌, ◌++◌, length, ◌==◌, if_false,
  if_cases, arith,
}
use zurich_os.Fs.Ramfs.{Name, vfs_max_name}
use zurich_os.Fs.Vfs.{slash, take_component, skip_slashes}

abbrev pub HasNoSlash : Name → Type 0
HasNoSlash [] = Unit {0}
HasNoSlash (b ∷ bs) = ((b == slash) ≡ false) × HasNoSlash bs

-- A name that the walk takes as one component.
abbrev pub IsComponent : Name → Type 0
IsComponent c = (0 < length c) × (length c < vfs_max_name) × HasNoSlash c

abbrev pub AllComponents : List Name → Type 0
AllComponents [] = Unit {0}
AllComponents (c ∷ cs) = IsComponent c × AllComponents cs

-- Each component behind a slash.
abbrev pub path_of : List Name → Name
path_of [] = []
path_of (c ∷ cs) = slash ∷ c ++ path_of cs

-- The same without the first slash.
abbrev pub joined : List Name → Name
joined [] = []
joined (c ∷ cs) = c ++ path_of cs

take_nothing : (room : ℕ) (cs : List Name) → take_component room (path_of cs) ≡ ([], path_of cs)
unfolding take_component
take_nothing zero cs = refl
take_nothing (suc room) [] = refl
take_nothing (suc room) (c ∷ cs) = refl

pub take_component-append :
    (room : ℕ) (c : Name) (cs : List Name)
    → length c ≤ room
    → HasNoSlash c
    → take_component room (c ++ path_of cs) ≡ (c, path_of cs)
unfolding take_component
take_component-append room [] cs le plain = take_nothing room cs
take_component-append zero (b ∷ c) cs le plain = absurd (omega arith)
take_component-append (suc room) (b ∷ c) cs le plain =
    if_false (b == slash) _ _ plain.0
    ∙ ap (λ (r : Name × Name). (b ∷ r.0, r.1))
        (take_component-append room c cs (omega arith) plain.1)

skip_nothing : (c rest : Name) → 0 < length c → HasNoSlash c → skip_slashes (c ++ rest) ≡ c ++ rest
unfolding skip_slashes
skip_nothing [] rest some_byte plain = absurd (omega arith)
skip_nothing (b ∷ c) rest some_byte plain = if_false (b == slash) _ _ plain.0

pub skip_slashes-path_of :
    (cs : List Name) → AllComponents cs → skip_slashes (path_of cs) ≡ joined cs
unfolding skip_slashes
skip_slashes-path_of [] ok = refl
skip_slashes-path_of (c ∷ cs) ok = skip_nothing c (path_of cs) ok.0.0 ok.0.2

pub length-joined : (cs : List Name) → length (joined cs) ≤ length (path_of cs)
length-joined [] = omega arith
length-joined (c ∷ cs) = omega arith

pub length-skip_slashes : (path : Name) → length (skip_slashes path) ≤ length path
unfolding skip_slashes
length-skip_slashes [] = omega arith
length-skip_slashes (b ∷ path) =
    if_cases (λ (r : Name). length r ≤ suc (length path)) (b == slash)
      (λ _. omega (arith, length-skip_slashes path)) (λ _. omega arith)

pub length-take_component :
    (room : ℕ) (path : Name) → length (take_component room path).1 ≤ length path
unfolding take_component
length-take_component zero path = omega arith
length-take_component (suc room) [] = omega arith
length-take_component (suc room) (b ∷ path) =
    if_cases (λ (r : Name × Name). length r.1 ≤ suc (length path)) (b == slash) (λ _. omega arith)
      (λ _. omega (arith, length-take_component room path))

-- Each round of the walk leaves a shorter path.
pub round_shortens :
    (room : ℕ) (b : ℕ) (path : Name)
    → length (skip_slashes (take_component (suc room) (b ∷ path)).1) ≤ length path
unfolding take_component skip_slashes
round_shortens room b path =
    if_cases (λ (r : Name × Name). length (skip_slashes r.1) ≤ length path) (b == slash)
      (λ on. rw on (length-skip_slashes path))
      (λ _.
        omega (
          arith,
          length-skip_slashes (take_component room path).1,
          length-take_component room path,
        ))
