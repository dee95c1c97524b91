-- ===== src/Libc/Strings/Ends.antt =====
-- libc/string/string.c: the length of a string, and copies that stop at its end.
use zurich_os.Base.{
  ℕ, zero, suc, ◌+◌, ◌≤◌, ◌<◌, ◌≡◌, ◌≢◌, ◌⊎◌, inl, inr, refl, sym, ap, ◌∙◌, some, ltb, ◌==◌,
  if◌then◌else◌, if_true, if_false, if_cases, Bool-cases, arith,
}
use zurich_os.Libc.Strings.{Bytes, write, length_from, strlen, pad, copy_string, strncpy}
use zurich_os.Libc.Strings.Copy.{write_self, write_ne}

-- The string at `s` has `n` bytes before its zero.
pub record Terminated (m : Bytes) (s n : ℕ) : Type 0 where
  pub end : m (s + n) ≡ 0
  pub body : (i : ℕ) → i < n → m (s + i) ≢ 0

length_from_lem :
    (fuel s i n : ℕ) (m : Bytes)
    → Terminated m s n
    → i ≤ n
    → n < i + fuel
    → length_from fuel s i m ≡ some n
unfolding length_from
length_from_lem zero s i n m t le enough = absurd (omega arith)
length_from_lem (suc f) s i n m t le enough = elim (Bool-cases (m (s + i) == 0)) [
  | inl zero_there ↦
      let there : i ≡ n = at_end (ground arith) in
      if_true (m (s + i) == 0) (some i) _ zero_there ∙ ap some there
  | inr more ↦
      if_false (m (s + i) == 0) (some i) _ more
      ∙ length_from_lem f s (i + 1) n m t (before (ground arith)) (omega arith)
]
  where
    at_end : m (s + i) ≡ 0 → i ≡ n
    at_end z = elim (Bool-cases (ltb i n)) [
      | inl less ↦ absurd (t.body i (ground arith) z)
      | inr not_less ↦ ground arith
    ]

    before : m (s + i) ≢ 0 → i + 1 ≤ n
    before ne = elim (Bool-cases (i == n)) [
      | inl e ↦ absurd (ne (ap (λ k. m (s + k)) (ground arith) ∙ t.end))
      | inr apart ↦ ground arith
    ]

-- `strlen` ends at the zero of the string, and gives the number of bytes before it.
pub strlen_lem : (fuel s n : ℕ) (m : Bytes) → Terminated m s n → n < fuel → strlen fuel s m ≡ some n
unfolding strlen
strlen_lem fuel s n m t enough = length_from_lem fuel s 0 n m t (omega arith) (omega arith)

-- Byte `i` of what `strncpy` writes.
abbrev pub byte_of : Bytes → ℕ → ℕ → ℕ → ℕ
byte_of m src len i = if ltb i len then m (src + i) else 0

-- The bytes from `i` to `n` are the string's, filled up with zeros, and no other has changed.
pub record Filled (dest src len i n : ℕ) (m m' : Bytes) : Type 0 where
  pub written : (k : ℕ) → i ≤ k → k < n → m' (dest + k) ≡ byte_of m src len k
  pub kept : (p : ℕ) → (p < dest + i) ⊎ (dest + n ≤ p) → m' p ≡ m p

-- One byte written, and the rest by the later rounds, which see the same source.
module _ (dest src len i n v : ℕ) (m m' : Bytes) where
  Filled-step :
      v ≡ byte_of m src len i
      → ((k : ℕ) → k < n → write m (dest + i) v (src + k) ≡ m (src + k))
      → i < n
      → Filled dest src len (i + 1) n (write m (dest + i) v) m'
      → Filled dest src len i n m m'
  Filled-step value same lt rest = record { written = written; kept = kept }
    where
      written : (k : ℕ) → i ≤ k → k < n → m' (dest + k) ≡ byte_of m src len k
      written k le less = elim (Bool-cases (i == k)) [
        | inl e ↦
            let here : i ≡ k = ground arith in
            ap (λ j. m' (dest + j)) (sym here)
            ∙ rest.kept (dest + i) (inl (omega arith))
            ∙ write_self m (dest + i) v
            ∙ value
            ∙ ap (byte_of m src len) here
        | inr ne ↦
            rest.written k (ground arith) less ∙ ap (λ b. if ltb k len then b else 0) (same k less)
      ]

      kept : (p : ℕ) → (p < dest + i) ⊎ (dest + n ≤ p) → m' p ≡ m p
      kept p (inl below) =
          rest.kept p (inl (omega arith)) ∙ write_ne m (dest + i) v p (λ e. omega (arith, e))
      kept p (inr above) =
          rest.kept p (inr (omega arith)) ∙ write_ne m (dest + i) v p (λ e. omega (arith, e))

-- The target and the source share no byte.
abbrev pub Disjoint : ℕ → ℕ → ℕ → Type 0
Disjoint dest src n = (src + n ≤ dest) ⊎ (dest + n ≤ src)

-- The first `n` bytes at `src` as far as the end of the string goes.
abbrev Reads : Bytes → ℕ → ℕ → ℕ → Type 0
Reads m src len n = (k : ℕ) → k < n → (k < len → m (src + k) ≢ 0) × (k ≡ len → m (src + k) ≡ 0)

unwritten :
    (dest src i n v : ℕ) (m : Bytes)
    → Disjoint dest src n
    → i < n
    → (k : ℕ) → k < n
    → write m (dest + i) v (src + k) ≡ m (src + k)
unwritten dest src i n v m (inl a) lt k less =
    write_ne m (dest + i) v (src + k) (λ e. omega (arith, e))
unwritten dest src i n v m (inr a) lt k less =
    write_ne m (dest + i) v (src + k) (λ e. omega (arith, e))

Reads-write :
    (dest src len i n v : ℕ) (m : Bytes)
    → Disjoint dest src n
    → i < n
    → Reads m src len n
    → Reads (write m (dest + i) v) src len n
Reads-write dest src len i n v m a lt r k less =
    let same = unwritten dest src i n v m a lt k less in
    ((λ p z. (r k less).0 p (sym same ∙ z)), λ e. same ∙ (r k less).1 e)

nothing_left : (dest src len i n : ℕ) (m : Bytes) → n ≤ i → Filled dest src len i n m m
nothing_left dest src len i n m over = record {
  written = λ k le less. absurd (omega arith);
  kept = λ p out. refl;
}

pad-Filled :
    (rounds dest src len i n : ℕ) (m : Bytes)
    → Disjoint dest src n
    → len ≤ i
    → i + rounds ≡ n
    → Filled dest src len i n m (pad dest rounds i m)
unfolding pad
pad-Filled zero dest src len i n m a past e = nothing_left dest src len i n m (omega arith)
pad-Filled (suc r) dest src len i n m a past e =
    Filled-step dest src len i n 0 m _ (sym (if_false (ltb i len) (m (src + i)) 0 (ground arith)))
      (unwritten dest src i n 0 m a (omega arith)) (omega arith)
      (pad-Filled r dest src len (i + 1) n (write m (dest + i) 0) a (omega arith) (omega arith))

copy_string-Filled :
    (rounds dest src len i n : ℕ) (m : Bytes)
    → Disjoint dest src n
    → Reads m src len n
    → i ≤ len
    → i + rounds ≡ n
    → Filled dest src len i n m (copy_string dest src rounds i m)
unfolding copy_string
copy_string-Filled zero dest src len i n m a r le e = nothing_left dest src len i n m (omega arith)
copy_string-Filled (suc rounds) dest src len i n m a r le e =
    if_cases (Filled dest src len i n m) (m (src + i) == 0)
      (λ z. pad-Filled (suc rounds) dest src len i n m a (ended (ground arith)) e)
      (λ nz.
        let more : i < len = going (ground arith) in
        Filled-step dest src len i n (m (src + i)) m _
          (sym (if_true (ltb i len) (m (src + i)) 0 (ground arith)))
          (unwritten dest src i n (m (src + i)) m a inside) inside
          (copy_string-Filled rounds dest src len (i + 1) n (write m (dest + i) (m (src + i))) a
            (Reads-write dest src len i n (m (src + i)) m a inside r) (omega arith) (omega arith)))
  where
    inside : i < n
    inside = omega arith

    ended : m (src + i) ≡ 0 → len ≤ i
    ended z = elim (Bool-cases (ltb i len)) [
      | inl less ↦ absurd ((r i inside).0 (ground arith) z)
      | inr not_less ↦ ground arith
    ]

    going : m (src + i) ≢ 0 → i < len
    going ne = elim (Bool-cases (i == len)) [
      | inl same ↦ absurd (ne ((r i inside).1 (ground arith)))
      | inr apart ↦ ground arith
    ]

-- `strncpy` writes exactly the `n` bytes at `dest`: the bytes of the string as far as it goes, and
-- zeros behind them, so the copy has no zero where the string is `n` bytes or longer.
pub strncpy-Filled :
    (dest src n len : ℕ) (m : Bytes)
    → Disjoint dest src n
    → Terminated m src len
    → Filled dest src len 0 n m (strncpy dest src n m)
unfolding strncpy
strncpy-Filled dest src n len m a t =
    copy_string-Filled n dest src len 0 n m a
      (λ k less. (t.body k, λ e. ap (λ j. m (src + j)) e ∙ t.end)) (omega arith) (omega arith)
