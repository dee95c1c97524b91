-- ===== src/Libc/Strings/Compare.antt =====
-- libc/string/string.c: `strcmp` tells whether two strings are the same.
use zurich_os.Base.{
  ℕ, zero, suc, ◌+◌, ◌<◌, ◌≡◌, ◌≢◌, ◌↔◌, inl, inr, refl, sym, ap, ◌∙◌, false, ◌&&◌, not, Option,
  some, ◌==◌, if◌then◌else◌, if_true, if_false, Bool-cases, ℤ, pos, sub_ℕ, arith,
}
use zurich_os.Libc.Strings.{Bytes, strcmp}
use zurich_os.Libc.Strings.Ends.{Terminated}

-- The same bytes before the zero, and as many.
pub record SameString (m : Bytes) (s1 a s2 b : ℕ) : Type 0 where
  pub size : a ≡ b
  pub bytes : (i : ℕ) → i < a → m (s1 + i) ≡ m (s2 + i)

tail-Terminated : (m : Bytes) (s n : ℕ) → Terminated m s (suc n) → Terminated m (s + 1) n
tail-Terminated m s n t = record {
  end = ap m (omega arith) ∙ t.end;
  body = λ i lt e. t.body (suc i) (omega arith) (ap m (omega arith) ∙ e);
}

first_byte : (m : Bytes) (s n : ℕ) → Terminated m s (suc n) → m s ≢ 0
first_byte m s n t e = t.body 0 (omega arith) (ap m (omega arith) ∙ e)

no_byte : (m : Bytes) (s : ℕ) → Terminated m s 0 → m s ≡ 0
no_byte m s t = ap m (omega arith) ∙ t.end

sub_ℕ_zero : (a b : ℕ) → (sub_ℕ a b ≡ pos 0) ↔ (a ≡ b)
sub_ℕ_zero a b = ground arith

-- What `strcmp` answers.
abbrev pub Compared : Bytes → ℕ → ℕ → ℕ → ℕ → Option ℤ → Type 0
Compared m s1 a s2 b r = (z : ℤ) × (r ≡ some z) × ((z ≡ pos 0) ↔ SameString m s1 a s2 b)

-- The loop stops where the bytes differ or the first is zero, and the difference decides.
stops :
    (s1 a s2 b : ℕ) (m : Bytes) (rest : Option ℤ)
    → (not (m s1 == 0) && (m s1 == m s2)) ≡ false
    → (m s1 ≡ m s2) ↔ SameString m s1 a s2 b
    → Compared m s1 a s2 b
        (if not (m s1 == 0) && (m s1 == m s2) then rest else some (sub_ℕ (m s1) (m s2)))
stops s1 a s2 b m rest off same = (
  sub_ℕ (m s1) (m s2),
  if_false (not (m s1 == 0) && (m s1 == m s2)) rest (some (sub_ℕ (m s1) (m s2))) off,
  ((λ z. same.0 ((sub_ℕ_zero (m s1) (m s2)).0 z)), λ e. (sub_ℕ_zero (m s1) (m s2)).1 (same.1 e)),
)

SameString-cons :
    (m : Bytes) (s1 a s2 b : ℕ)
    → m s1 ≡ m s2
    → SameString m (s1 + 1) a (s2 + 1) b
    → SameString m s1 (suc a) s2 (suc b)
SameString-cons m s1 a s2 b e r = record { size = ap suc r.size; bytes = bytes }
  where
    bytes : (i : ℕ) → i < suc a → m (s1 + i) ≡ m (s2 + i)
    bytes zero lt = ap m (omega arith) ∙ e ∙ ap m (omega arith)
    bytes (suc i) lt = ap m (omega arith) ∙ r.bytes i (omega arith) ∙ ap m (omega arith)

SameString-tail :
    (m : Bytes) (s1 a s2 b : ℕ)
    → SameString m s1 (suc a) s2 (suc b)
    → SameString m (s1 + 1) a (s2 + 1) b
SameString-tail m s1 a s2 b r = record {
  size = omega (arith, r.size);
  bytes = λ i lt. ap m (omega arith) ∙ r.bytes (suc i) (omega arith) ∙ ap m (omega arith);
}

SameString-first : (m : Bytes) (s1 a s2 b : ℕ) → SameString m s1 (suc a) s2 b → m s1 ≡ m s2
SameString-first m s1 a s2 b r = ap m (omega arith) ∙ r.bytes 0 (omega arith) ∙ ap m (omega arith)

-- `strcmp` ends by the end of the first string, and answers 0 exactly when both strings are the
-- same.
pub strcmp-Compared :
    (fuel s1 a s2 b : ℕ) (m : Bytes)
    → Terminated m s1 a
    → Terminated m s2 b
    → a < fuel
    → Compared m s1 a s2 b (strcmp fuel s1 s2 m)
unfolding strcmp
strcmp-Compared zero s1 a s2 b m t u enough = absurd (omega arith)
strcmp-Compared (suc f) s1 zero s2 zero m t u enough =
    let x = no_byte m s1 t in
    stops s1 0 s2 0 m (strcmp f (s1 + 1) (s2 + 1) m) (ground arith) (
      (λ _. record { size = refl; bytes = λ i lt. absurd (omega arith) }),
      λ _. x ∙ sym (no_byte m s2 u),
    )
strcmp-Compared (suc f) s1 zero s2 (suc b) m t u enough =
    let x = no_byte m s1 t in
    let y = first_byte m s2 b u in
    stops s1 0 s2 (suc b) m (strcmp f (s1 + 1) (s2 + 1) m) (ground arith)
      ((λ e. absurd (y (sym e ∙ x))), λ r. absurd (omega (arith, r.size)))
strcmp-Compared (suc f) s1 (suc a) s2 zero m t u enough =
    let x = first_byte m s1 a t in
    let y = no_byte m s2 u in
    stops s1 (suc a) s2 0 m (strcmp f (s1 + 1) (s2 + 1) m) (ground (arith, x))
      ((λ e. absurd (x (e ∙ y))), λ r. absurd (omega (arith, r.size)))
strcmp-Compared (suc f) s1 (suc a) s2 (suc b) m t u enough = elim (Bool-cases (m s1 == m s2)) [
  | inl same ↦
      let x = first_byte m s1 a t in
      let e : m s1 ≡ m s2 = ground arith in
      let (z, ez, iff) =
        strcmp-Compared f (s1 + 1) a (s2 + 1) b m (tail-Terminated m s1 a t)
          (tail-Terminated m s2 b u) (omega arith) in
      (
        z,
        if_true (not (m s1 == 0) && (m s1 == m s2)) (strcmp f (s1 + 1) (s2 + 1) m) _
              (ground (arith, x))
            ∙ ez,
        (
          (λ q. SameString-cons m s1 a s2 b e (iff.0 q)),
          λ r. iff.1 (SameString-tail m s1 a s2 b r),
        ),
      )
  | inr differ ↦
      stops s1 (suc a) s2 (suc b) m (strcmp f (s1 + 1) (s2 + 1) m) (ground arith)
        ((λ e. absurd (ground arith)), λ r. SameString-first m s1 a s2 (suc b) r)
]
