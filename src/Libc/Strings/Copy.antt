-- ===== src/Libc/Strings/Copy.antt =====
-- libc/string/string.c: what the copies of memory leave behind, also where the two regions overlap.
use zurich_os.Base.{
  ℕ, zero, suc, ◌+◌, ◌≤◌, ◌<◌, ◌≡◌, ◌≢◌, ◌⊎◌, inl, inr, refl, sym, ap, ◌∙◌, ltb, ◌==◌, if_cases,
  Bool-cases, arith,
}
use zurich_os.Libc.Strings.{Bytes, write, copy_up, copy_down, memcpy, memmove}

pub write_self : (m : Bytes) (a v : ℕ) → write m a v a ≡ v
unfolding write
write_self m a v = ground arith

pub write_ne : (m : Bytes) (a v p : ℕ) → p ≢ a → write m a v p ≡ m p
unfolding write
write_ne m a v p ne = ground arith

-- The `n` bytes at `d` are those that stood at `s` before, and no other byte has changed.
pub record Moved (d s n : ℕ) (m m' : Bytes) : Type 0 where
  pub copied : (i : ℕ) → i < n → m' (d + i) ≡ m (s + i)
  pub kept : (p : ℕ) → (p < d) ⊎ (d + n ≤ p) → m' p ≡ m p

module _ (n d s : ℕ) (m m' : Bytes) where
  -- The first byte, and then the others upwards.
  up_step :
      (d < s) ⊎ (s + suc n ≤ d)
      → Moved (d + 1) (s + 1) n (write m d (m s)) m'
      → Moved d s (suc n) m m'
  up_step apart rest = record { copied = copied; kept = kept }
    where
      copied : (i : ℕ) → i < suc n → m' (d + i) ≡ m (s + i)
      copied zero lt =
          ap m' (omega arith)
          ∙ rest.kept d (inl (omega arith))
          ∙ write_self m d (m s)
          ∙ ap m (omega arith)
      copied (suc i) lt =
          let other : s + 1 + i ≢ d = λ e. elim apart [
            | inl less ↦ omega (arith, less, e)
            | inr far ↦ omega (arith, far, e)
          ] in
          ap m' (omega arith)
          ∙ rest.copied i (omega arith)
          ∙ write_ne m d (m s) (s + 1 + i) other
          ∙ ap m (omega arith)

      kept : (p : ℕ) → (p < d) ⊎ (d + suc n ≤ p) → m' p ≡ m p
      kept p (inl below) =
          rest.kept p (inl (omega arith)) ∙ write_ne m d (m s) p (λ e. omega (arith, e))
      kept p (inr above) =
          rest.kept p (inr (omega arith)) ∙ write_ne m d (m s) p (λ e. omega (arith, e))

  -- The last byte, and then the others downwards.
  down_step : s ≤ d → Moved d s n (write m (d + n) (m (s + n))) m' → Moved d s (suc n) m m'
  down_step below rest = record { copied = copied; kept = kept }
    where
      w : Bytes
      w = write m (d + n) (m (s + n))

      last_byte : m' (d + n) ≡ m (s + n)
      last_byte = rest.kept (d + n) (inr (omega arith)) ∙ write_self m (d + n) (m (s + n))

      copied : (i : ℕ) → i < suc n → m' (d + i) ≡ m (s + i)
      copied i lt = elim (Bool-cases (i == n)) [
        | inl e ↦
            let same : i ≡ n = ground arith in
            ap (λ k. m' (d + k)) same ∙ last_byte ∙ ap (λ k. m (s + k)) (sym same)
        | inr ne ↦
            let less : i < n = ground arith in
            rest.copied i less
            ∙ write_ne m (d + n) (m (s + n)) (s + i) (λ e. omega (arith, e, less))
      ]

      kept : (p : ℕ) → (p < d) ⊎ (d + suc n ≤ p) → m' p ≡ m p
      kept p (inl low) =
          rest.kept p (inl low) ∙ write_ne m (d + n) (m (s + n)) p (λ e. omega (arith, e))
      kept p (inr high) =
          rest.kept p (inr (omega arith)) ∙ write_ne m (d + n) (m (s + n)) p (λ e. omega (arith, e))

copy_up-Moved : (n d s : ℕ) (m : Bytes) → (d < s) ⊎ (s + n ≤ d) → Moved d s n m (copy_up n d s m)
unfolding copy_up
copy_up-Moved zero d s m apart = record {
  copied = λ i lt. absurd (omega arith);
  kept = λ p out. refl;
}
copy_up-Moved (suc n) d s m apart =
    up_step n d s m _ apart (copy_up-Moved n (d + 1) (s + 1) (write m d (m s)) (shifted apart))
  where
    shifted : (d < s) ⊎ (s + suc n ≤ d) → (d + 1 < s + 1) ⊎ (s + 1 + n ≤ d + 1)
    shifted (inl less) = inl (omega arith)
    shifted (inr far) = inr (omega arith)

copy_down-Moved : (n d s : ℕ) (m : Bytes) → s ≤ d → Moved d s n m (copy_down n d s m)
unfolding copy_down
copy_down-Moved zero d s m below = record {
  copied = λ i lt. absurd (omega arith);
  kept = λ p out. refl;
}
copy_down-Moved (suc n) d s m below =
    down_step n d s m _ below (copy_down-Moved n d s (write m (d + n) (m (s + n))) below)

-- `memmove` moves the bytes as they were, however the regions overlap, and changes no others.
pub memmove-Moved : (dest src n : ℕ) (m : Bytes) → Moved dest src n m (memmove dest src n m)
unfolding memmove
memmove-Moved dest src n m =
    if_cases (Moved dest src n m) (ltb dest src)
      (λ less. copy_up-Moved n dest src m (inl (ground arith)))
      (λ not_less. copy_down-Moved n dest src m (ground arith))

-- `memcpy` does so where the target begins below the source or behind it.
pub memcpy-Moved :
    (dest src n : ℕ) (m : Bytes)
    → (dest < src) ⊎ (src + n ≤ dest)
    → Moved dest src n m (memcpy dest src n m)
unfolding memcpy
memcpy-Moved dest src n m apart = copy_up-Moved n dest src m apart
