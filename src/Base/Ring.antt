-- ===== src/Base/Ring.antt =====
-- Circular buffers: an array read modulo its capacity, as the list of what lies in a window.
use native.Mathlib.Decide.{dec_lt}
use zurich_os.Base.Lists.{length, get_or, set, length-set, get_or-set_self, get_or-set_ne}
use Prim.Native.Nat.{ℕ, zero, suc, ◌+◌, ◌-◌, ◌%◌, ◌≤◌, ◌<◌}
use mathlib.Core.Path.{◌≡◌, refl, sym, ap, ap₂, ◌∙◌}
use mathlib.Core.Logic.{◌≢◌}
use mathlib.Core.List.{List, [], ◌∷◌, ◌++◌}
use native.Mathlib.Omega.{arith}
use native.Mathlib.Nat.{mod-add-mod, mod-eq_of_lt, mod-eq-sub-mod, mod-lt}

module _ {ℓ} {A : Type ℓ} where
  -- The list without its element `i`.
  abbrev pub delete_at : ℕ → List A → List A
  delete_at i [] = []
  delete_at zero (x ∷ xs) = xs
  delete_at (suc i) (x ∷ xs) = x ∷ delete_at i xs

module _ {ℓ} {A : Type ℓ} (cap : ℕ) (d : A) where
  -- The element at a position that may lie past the end of the array.
  abbrev pub at : List A → ℕ → A
  at buf k = get_or buf (k % cap) d

  -- The `n` elements from position `h` on.
  abbrev pub window : List A → ℕ → ℕ → List A
  window buf h zero = []
  window buf h (suc n) = at buf h ∷ window buf (h + 1) n

  pub length-window : (buf : List A) (h n : ℕ) → length (window buf h n) ≡ n
  length-window buf h zero = refl
  length-window buf h (suc n) = ap suc (length-window buf (h + 1) n)

  pub window_agree :
      (buf buf' : List A) (h h' n : ℕ)
      → ((k : ℕ) → k < n → at buf' (h' + k) ≡ at buf (h + k))
      → window buf' h' n ≡ window buf h n
  window_agree buf buf' h h' zero e = refl
  window_agree buf buf' h h' (suc n) e =
      ap₂ ◌∷◌ first (window_agree buf buf' (h + 1) (h' + 1) n later)
    where
      first : at buf' h' ≡ at buf h
      first =
          let p : h' + 0 ≡ h' = omega arith in
          let q : h + 0 ≡ h = omega arith in
          ap (at buf') (sym p) ∙ e 0 (omega arith) ∙ ap (at buf) q

      later : (k : ℕ) → k < n → at buf' (h' + 1 + k) ≡ at buf (h + 1 + k)
      later k lt =
          let p : h' + 1 + k ≡ h' + suc k = omega arith in
          let q : h + suc k ≡ h + 1 + k = omega arith in
          ap (at buf') p ∙ e (suc k) (omega arith) ∙ ap (at buf) q

  pub window-last :
      (buf : List A) (h n : ℕ) → window buf h (suc n) ≡ window buf h n ++ at buf (h + n) ∷ []
  window-last buf h zero = let p : h ≡ h + 0 = omega arith in ap (λ k. at buf k ∷ []) p
  window-last buf h (suc n) =
      let p : h + 1 + n ≡ h + suc n = omega arith in
      ap (λ l. at buf h ∷ l)
        (window-last buf (h + 1) n ∙ ap (λ k. window buf (h + 1) n ++ at buf k ∷ []) p)

  -- Positions that are taken modulo the capacity before they are used.
  pub window-mod : (buf : List A) (h n : ℕ) → window buf (h % cap) n ≡ window buf h n
  window-mod buf h n =
      window_agree buf buf h (h % cap) n (λ k lt. ap (λ p. get_or buf p d) (mod-add-mod h cap k))

  pub length-write : (buf : List A) (p : ℕ) (v : A) → length (set buf (p % cap) v) ≡ length buf
  length-write buf p v = length-set buf (p % cap) v

-- Positions less than a round apart are different places.
step_differs : (cap r s : ℕ) → r < cap → 0 < s → s < cap → (r + s) % cap ≢ r
step_differs cap r s a b c e = elim (dec_lt (r + s) cap) [
  | yes p ↦ omega (arith, mod-eq_of_lt p)
  | no p ↦ omega (
    arith,
    mod-eq-sub-mod {n = r + s} {m = cap} (omega arith),
    mod-eq_of_lt {n = r + s - cap} {m = cap} (omega arith),
  )
]

pub places_differ : (cap h j k : ℕ) → j < k → k < j + cap → (h + j) % cap ≢ (h + k) % cap
places_differ cap h j k a b e =
    let split : h + k ≡ h + j + (k - j) = omega arith in
    step_differs cap ((h + j) % cap) (k - j) (mod-lt (h + j) (omega arith)) (omega arith)
      (omega arith) (mod-add-mod (h + j) cap (k - j) ∙ ap (λ p. p % cap) (sym split) ∙ sym e)

module _ {ℓ} {A : Type ℓ} (cap : ℕ) (d : A) (buf : List A) (h : ℕ) (room : cap ≤ length buf) where
  -- A write at one position of a round is seen there, and nowhere else in the round.
  pub at-write_self : (n : ℕ) (v : A) → 0 < cap → at cap d (set buf ((h + n) % cap) v) (h + n) ≡ v
  at-write_self n v pos =
      get_or-set_self buf ((h + n) % cap) v d (omega (arith, mod-lt (h + n) pos))

  pub at-write_lt :
      (n k : ℕ) (v : A)
      → k < n
      → n < k + cap
      → at cap d (set buf ((h + n) % cap) v) (h + k) ≡ at cap d buf (h + k)
  at-write_lt n k v lt wrap =
      get_or-set_ne buf ((h + n) % cap) ((h + k) % cap) v d
        (λ e. places_differ cap h k n lt wrap (sym e))

  pub at-write_gt :
      (n k : ℕ) (v : A)
      → n < k
      → k < n + cap
      → at cap d (set buf ((h + n) % cap) v) (h + k) ≡ at cap d buf (h + k)
  at-write_gt n k v lt wrap =
      get_or-set_ne buf ((h + n) % cap) ((h + k) % cap) v d (places_differ cap h n k lt wrap)

  -- A write just behind a window that is not full extends it by the value.
  pub window-write :
      (n : ℕ) (v : A)
      → n < cap
      → window cap d (set buf ((h + n) % cap) v) h (suc n) ≡ window cap d buf h n ++ v ∷ []
  window-write n v lt =
      window-last cap d (set buf ((h + n) % cap) v) h n
      ∙ ap₂ (λ l x. l ++ x ∷ [])
          (window_agree cap d buf (set buf ((h + n) % cap) v) h h n
            (λ k less. at-write_lt n k v less (omega arith)))
          (at-write_self n v (omega arith))

-- The loop that closes the gap at position `j` of a round, `n` rounds long: each element moves one place
-- towards the start.
unfoldable pub close_gap {ℓ} : {A : Type ℓ} → ℕ → A → List A → ℕ → ℕ → ℕ → List A
close_gap cap d buf h zero j = buf
close_gap cap d buf h (suc n) j =
    close_gap cap d (set buf ((h + j) % cap) (at cap d buf (h + j + 1))) h n (j + 1)

module _ {ℓ} {A : Type ℓ} (cap : ℕ) (d : A) (h : ℕ) where
  pub length-close_gap : (n j : ℕ) (buf : List A) → length (close_gap cap d buf h n j) ≡ length buf
  unfolding close_gap
  length-close_gap zero j buf = refl
  length-close_gap (suc n) j buf =
      length-close_gap n (j + 1) (set buf ((h + j) % cap) (at cap d buf (h + j + 1)))
      ∙ length-write cap d buf (h + j) (at cap d buf (h + j + 1))

  close_gap_before :
      (n j k : ℕ) (buf : List A)
      → cap ≤ length buf
      → k < j
      → j + n < cap
      → at cap d (close_gap cap d buf h n j) (h + k) ≡ at cap d buf (h + k)
  unfolding close_gap
  close_gap_before zero j k buf room lt fits = refl
  close_gap_before (suc n) j k buf room lt fits =
      let v : A = at cap d buf (h + j + 1) in
      close_gap_before n (j + 1) k (set buf ((h + j) % cap) v)
        (omega (arith, length-write cap d buf (h + j) v)) (omega arith) (omega arith)
      ∙ at-write_lt cap d buf h room j k v lt (omega arith)

  close_gap_after :
      (n j k : ℕ) (buf : List A)
      → cap ≤ length buf
      → j ≤ k
      → k < j + n
      → j + n < cap
      → at cap d (close_gap cap d buf h n j) (h + k) ≡ at cap d buf (h + (k + 1))
  unfolding close_gap
  close_gap_after zero j k buf room le lt fits = absurd (omega arith)
  close_gap_after (suc n) j k buf room le lt fits = elim (dec_lt j k) [
    | yes p ↦
        close_gap_after n (j + 1) k next more (omega arith) (omega arith) (omega arith)
        ∙ at-write_gt cap d buf h room j (k + 1) v (omega arith) (omega arith)
    | no p ↦
        let same : k ≡ j = omega arith in
        rw same (
          close_gap_before n (j + 1) j next more (omega arith) (omega arith)
          ∙ at-write_self cap d buf h room j v (omega arith)
          ∙ ap (at cap d buf) place)
  ]
    where
      v : A
      v = at cap d buf (h + j + 1)

      next : List A
      next = set buf ((h + j) % cap) v

      more : cap ≤ length next
      more = omega (arith, length-write cap d buf (h + j) v)

      place : h + j + 1 ≡ h + (j + 1)
      place = omega arith

module _ {ℓ} {A : Type ℓ} (cap : ℕ) (d : A) where
  window-delete :
      (buf buf' : List A) (i n h : ℕ)
      → i ≤ n
      → ((k : ℕ) → k < i → at cap d buf' (h + k) ≡ at cap d buf (h + k))
      → ((k : ℕ) → i ≤ k → k < n → at cap d buf' (h + k) ≡ at cap d buf (h + (k + 1)))
      → window cap d buf' h n ≡ delete_at i (window cap d buf h (suc n))
  window-delete buf buf' zero n h le before after = window_agree cap d buf buf' (h + 1) h n (λ k lt.
      let e : h + (k + 1) ≡ h + 1 + k = omega arith in
      after k (omega arith) lt ∙ ap (at cap d buf) e)
  window-delete buf buf' (suc i) zero h le before after = absurd (omega arith)
  window-delete buf buf' (suc i) (suc n) h le before after = ap₂ ◌∷◌ first (
      window-delete buf buf' i n (h + 1) (omega arith)
        (λ k lt. sym (move buf' k) ∙ before (k + 1) (omega arith) ∙ move buf k)
        (λ k a b. sym (move buf' k) ∙ after (k + 1) (omega arith) (omega arith) ∙ move buf (k + 1)))
    where
      first : at cap d buf' h ≡ at cap d buf h
      first =
          let e : h + 0 ≡ h = omega arith in
          ap (at cap d buf') (sym e) ∙ before 0 (omega arith) ∙ ap (at cap d buf) e

      move : (b : List A) (k : ℕ) → at cap d b (h + (k + 1)) ≡ at cap d b (h + 1 + k)
      move b k = let e : h + (k + 1) ≡ h + 1 + k = omega arith in ap (at cap d b) e

  -- Closing the gap at `i` takes element `i` out of the window.
  pub window-close_gap :
      (buf : List A) (h i n : ℕ)
      → cap ≤ length buf
      → i + n < cap
      → window cap d (close_gap cap d buf h n i) h (i + n)
        ≡ delete_at i (window cap d buf h (suc (i + n)))
  window-close_gap buf h i n room fits =
      window-delete buf (close_gap cap d buf h n i) i (i + n) h (omega arith)
        (λ k lt. close_gap_before cap d h n i k buf room lt fits)
        (λ k a b. close_gap_after cap d h n i k buf room a b fits)
