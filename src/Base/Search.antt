-- ===== src/Base/Search.antt =====
-- The loops that look through a table for the first entry that passes a test.
use Prim.Native.Nat.{ℕ, zero, suc, ◌<◌}
use mathlib.Core.Path.{◌≡◌, refl, ap, ◌∙◌}
use mathlib.Core.Bool.{Bool, true, false}
use mathlib.Core.List.{List, [], ◌∷◌}
use mathlib.Core.Option.{Option, none, some}
use native.Mathlib.Omega.{arith}
use zurich_os.Base.Tests.{if◌then◌else◌}
use zurich_os.Base.Lists.{length, get_or, set}

abbrev pub next_index : Option ℕ → Option ℕ
next_index none = none
next_index (some i) = some (suc i)

module _ {ℓ} {A : Type ℓ} where
  -- The index of the first entry that passes.
  abbrev pub find_index? : (A → Bool) → List A → Option ℕ
  find_index? p [] = none
  find_index? p (x ∷ xs) = if p x then some 0 else next_index (find_index? p xs)

  pub record Found (p : A → Bool) (xs : List A) (d : A) (i : ℕ) : Type ℓ where
    pub within : i < length xs
    pub holds : p (get_or xs i d) ≡ true
    pub first : (j : ℕ) → j < i → p (get_or xs j d) ≡ false

  pub find_index?-Found :
      (p : A → Bool) (xs : List A) (d : A) (i : ℕ) → find_index? p xs ≡ some i → Found p xs d i
  find_index?-Found p [] d i e = absurd (ground arith)
  find_index?-Found p (x ∷ xs) d i e =
      cases (p x) refl (find_index? p xs) refl i (λ k. find_index?-Found p xs d k) e
    where
      cases :
          (b : Bool)
          → p x ≡ b
          → (o : Option ℕ) → find_index? p xs ≡ o
          → (i : ℕ) → ((k : ℕ) → find_index? p xs ≡ some k → Found p xs d k)
          → (if b then some 0 else next_index o) ≡ some i
          → Found p (x ∷ xs) d i
      cases true px o eo zero ih e = record {
        within = omega arith;
        holds = px;
        first = λ j lt. absurd (omega arith);
      }
      cases true px o eo (suc i) ih e = absurd (ground arith)
      cases false px none eo i ih e = absurd (ground arith)
      cases false px (some k) eo zero ih e = absurd (ground arith)
      cases false px (some k) eo (suc i) ih e =
          let same : k ≡ i = ground arith in
          let rest : Found p xs d i = ih i (eo ∙ ap some same) in
          record { within = omega (arith, rest.within); holds = rest.holds; first = earlier rest }
        where
          earlier : Found p xs d i → (j : ℕ) → j < suc i → p (get_or (x ∷ xs) j d) ≡ false
          earlier rest zero lt = px
          earlier rest (suc j) lt = rest.first j (omega arith)

  pub find_index?-none :
      (p : A → Bool) (xs : List A) (d : A) (j : ℕ)
      → find_index? p xs ≡ none
      → j < length xs
      → p (get_or xs j d) ≡ false
  find_index?-none p [] d j e lt = absurd (omega arith)
  find_index?-none p (x ∷ xs) d zero e lt = ground arith
  find_index?-none p (x ∷ xs) d (suc j) e lt =
      find_index?-none p xs d j (tail (p x) (find_index? p xs) e) (omega arith)
    where
      tail : (b : Bool) (o : Option ℕ) → (if b then some 0 else next_index o) ≡ none → o ≡ none
      tail true o e = absurd (ground arith)
      tail false none e = refl
      tail false (some k) e = absurd (ground arith)

module _ {ℓ} {A : Type ℓ} where
  -- A write of an entry that passes just if the old one did changes nothing.
  pub find_index?-set_eq :
      (p : A → Bool) (xs : List A) (i : ℕ) (v d : A)
      → p v ≡ p (get_or xs i d)
      → find_index? p (set xs i v) ≡ find_index? p xs
  find_index?-set_eq p [] i v d a = refl
  find_index?-set_eq p (x ∷ xs) zero v d a =
      ap (λ b. if b then some 0 else next_index (find_index? p xs)) a
  find_index?-set_eq p (x ∷ xs) (suc i) v d a =
      ap (λ o. if p x then some 0 else next_index o) (find_index?-set_eq p xs i v d a)

  -- The entry that passes while none before it does is the one that is found.
  pub find_index?-here :
      (p : A → Bool) (xs : List A) (i : ℕ) (d : A)
      → i < length xs
      → p (get_or xs i d) ≡ true
      → ((j : ℕ) → j < i → p (get_or xs j d) ≡ false)
      → find_index? p xs ≡ some i
  find_index?-here p [] i d lt on off = absurd (omega arith)
  find_index?-here p (x ∷ xs) zero d lt on off = rw on refl
  find_index?-here p (x ∷ xs) (suc i) d lt on off =
      let first : p x ≡ false = off 0 (omega arith) in
      rw first (
        ap next_index
          (find_index?-here p xs i d (omega arith) on (λ j less. off (suc j) (omega arith))))
