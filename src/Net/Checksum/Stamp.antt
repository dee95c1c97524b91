-- ===== src/Net/Checksum/Stamp.antt =====
-- A packet that carries its own checksum sums to nothing.
use native.Mathlib.Decide.{dec_lt}
use zurich_os.Base.{
  ℕ, suc, ◌+◌, ◌-◌, ◌*◌, ◌/◌, ◌%◌, ◌^◌, ◌<◌, ◌≤◌, ◌≡◌, refl, ap, ◌∙◌, List, [], ◌∷◌, ◌++◌, ◌==◌,
  if_cases, length, arith,
}
use zurich_os.Net.Checksum.{
  add_words, fold_carry, carry_rounds, finish, ip_checksum, tcp_checksum, pseudo,
}

-- A byte list.
abbrev pub Bytes : List ℕ → Type 0
Bytes [] = Unit {0}
Bytes (a ∷ rest) = (a < 256) × Bytes rest

-- Pairs of bytes.
pub data Even : List ℕ → Type 0 where
  none_left : Even []
  pair : (a b : ℕ) (rest : List ℕ) → Even rest → Even (a ∷ b ∷ rest)

-- The sum of the words, without wrap.
abbrev words : List ℕ → ℕ
words [] = 0
words (a ∷ []) = a
words (a ∷ b ∷ rest) = a + 256 * b + words rest

words_bound : (d : List ℕ) → Bytes d → 2 * words d ≤ 65535 * (length d + 1)
words_bound [] h = omega arith
words_bound (a ∷ []) h = omega (arith, h.0)
words_bound (a ∷ b ∷ rest) h = omega (arith, h.0, h.1.0, words_bound rest h.1.1)

add_words_lem : (sum : ℕ) (d : List ℕ) → sum + words d < 2 ^ 32 → add_words sum d ≡ sum + words d
unfolding add_words
add_words_lem sum [] lt = omega arith
add_words_lem sum (a ∷ []) lt = omega arith
add_words_lem sum (a ∷ b ∷ rest) lt =
    let small : (sum + (a + 256 * b)) % 2 ^ 32 ≡ sum + (a + 256 * b) = omega arith in
    ap (λ s. add_words s rest) small
    ∙ add_words_lem (sum + (a + 256 * b)) rest (omega arith)
    ∙ (let e : sum + (a + 256 * b) + words rest ≡ sum + (a + 256 * b + words rest) = omega arith in
        e)

-- The loop ends within two rounds, keeps the sum modulo 65535, and gives 0 only for 0.
record Folded (s r : ℕ) : Type 0 where
  small : r < 2 ^ 16
  same : r % 65535 ≡ s % 65535
  positive : 0 < s → 0 < r
  zeros : s ≡ 0 → r ≡ 0

Folded-round :
    (s n : ℕ)
    → Folded (s % 2 ^ 16 + s / 2 ^ 16) (fold_carry n (s % 2 ^ 16 + s / 2 ^ 16))
    → Folded s (fold_carry (suc n) s)
unfolding fold_carry
Folded-round s n f =
    if_cases (Folded s) (s / 2 ^ 16 == 0)
      (λ z. record { small = ground arith; same = refl; positive = λ p. p; zeros = λ e. e })
      (λ nz. record {
        small = f.small;
        same = omega (arith, f.same);
        positive = λ p. f.positive (omega arith);
        zeros = λ e. f.zeros (omega arith);
      })

Folded-stop : (s : ℕ) → s < 2 ^ 16 → Folded s (fold_carry 0 s)
unfolding fold_carry
Folded-stop s lt = record { small = lt; same = refl; positive = λ p. p; zeros = λ e. e }

fold_carry-Folded : (s : ℕ) → s < 2 ^ 32 → Folded s (fold_carry carry_rounds s)
fold_carry-Folded s lt =
    let t : ℕ = s % 2 ^ 16 + s / 2 ^ 16 in
    Folded-round s 1 (Folded-round t 0 (Folded-stop (t % 2 ^ 16 + t / 2 ^ 16) (omega arith)))

words_stamp :
    (pre : List ℕ) (x y : ℕ) (post : List ℕ)
    → Even pre
    → words (pre ++ x ∷ y ∷ post) ≡ words (pre ++ 0 ∷ 0 ∷ post) + (x + 256 * y)
words_stamp pre x y post none_left = omega arith
words_stamp pre x y post (pair a b rest even) = omega (arith, words_stamp rest x y post even)

-- A sum and the complement of its folding fold to all ones.
complement : (sum r q : ℕ) → Folded sum r → Folded (sum + (65535 - r)) q → q ≡ 65535
complement sum r q f g = elim (dec_lt 0 sum) [
  | yes p ↦
      let some_there : 0 < q = g.positive (omega arith) in
      omega (arith, f.small, f.same, g.small, g.same)
  | no z ↦
      let empty : r ≡ 0 = f.zeros (omega arith) in
      let some_there : 0 < q = g.positive (omega arith) in
      omega (arith, f.small, f.same, g.small, g.same)
]

-- Stamping a packet whose field is zero with the checksum of the packet.
abbrev pub stamped : List ℕ → List ℕ → ℕ → List ℕ
stamped pre post c = pre ++ c % 256 ∷ c / 256 ∷ post

finish_lem :
    (start : ℕ) (d : List ℕ) (r : ℕ)
    → start + words d < 2 ^ 32
    → fold_carry carry_rounds (start + words d) ≡ r
    → r < 2 ^ 16
    → finish start d ≡ 65535 - r
unfolding finish
finish_lem start d r fits e small =
    ap (λ s. (2 ^ 32 - 1 - fold_carry carry_rounds s) % 2 ^ 16) (add_words_lem start d fits)
    ∙ ap (λ s. (2 ^ 32 - 1 - s) % 2 ^ 16) e
    ∙ (let last : (2 ^ 32 - 1 - r) % 2 ^ 16 ≡ 65535 - r = omega arith in last)

stamp_verifies :
    (start : ℕ) (pre post : List ℕ)
    → Even pre
    → start + words (pre ++ 0 ∷ 0 ∷ post) + 65535 < 2 ^ 32
    → finish start (stamped pre post (finish start (pre ++ 0 ∷ 0 ∷ post))) ≡ 0
stamp_verifies start pre post even fits =
    let sum : ℕ = start + words (pre ++ 0 ∷ 0 ∷ post) in
    let r : ℕ = fold_carry carry_rounds sum in
    let f : Folded sum r = fold_carry-Folded sum (omega arith) in
    let c : ℕ = finish start (pre ++ 0 ∷ 0 ∷ post) in
    let is_c : c ≡ 65535 - r =
      finish_lem start (pre ++ 0 ∷ 0 ∷ post) r (omega arith) refl f.small in
    let stamp = words_stamp pre (c % 256) (c / 256) post even in
    let sum_2 : start + words (stamped pre post c) ≡ sum + (65535 - r) =
      omega (arith, stamp, is_c) in
    let g : Folded (sum + (65535 - r)) (fold_carry carry_rounds (sum + (65535 - r))) =
      fold_carry-Folded (sum + (65535 - r)) (omega arith) in
    finish_lem start (stamped pre post c) 65535 (omega (arith, sum_2))
      (ap (fold_carry carry_rounds) sum_2
        ∙ complement sum r (fold_carry carry_rounds (sum + (65535 - r))) f g)
      (omega arith)

Bytes-stamp :
    (pre : List ℕ) (x y : ℕ) (post : List ℕ)
    → Bytes (pre ++ x ∷ y ∷ post)
    → Bytes (pre ++ 0 ∷ 0 ∷ post)
Bytes-stamp [] x y post h = (omega arith, (omega arith, h.1.1))
Bytes-stamp (a ∷ pre) x y post h = (h.0, Bytes-stamp pre x y post h.1)

-- A packet of fewer than 2 ^ 16 bytes whose checksum field, at an even place, is filled in with the
-- `ip_checksum` of the packet with a zero field has itself the `ip_checksum` 0, the test of a receiver.
pub ip_checksum_verifies :
    (pre post : List ℕ)
    → Even pre
    → Bytes (pre ++ 0 ∷ 0 ∷ post)
    → length (pre ++ 0 ∷ 0 ∷ post) < 2 ^ 16
    → ip_checksum (stamped pre post (ip_checksum (pre ++ 0 ∷ 0 ∷ post))) ≡ 0
unfolding ip_checksum
ip_checksum_verifies pre post even bytes short =
    stamp_verifies 0 pre post even (omega (arith, words_bound (pre ++ 0 ∷ 0 ∷ post) bytes))

length-stamp :
    (pre : List ℕ) (x y : ℕ) (post : List ℕ)
    → length (pre ++ x ∷ y ∷ post) ≡ length (pre ++ 0 ∷ 0 ∷ post)
length-stamp [] x y post = refl
length-stamp (a ∷ pre) x y post = ap suc (length-stamp pre x y post)

pseudo_small : (src_ip dest_ip len : ℕ) → pseudo src_ip dest_ip len < 2 ^ 20
pseudo_small src_ip dest_ip len = omega arith

-- A TCP segment of fewer than 2 ^ 16 bytes whose checksum field, at an even place, is filled in with the
-- `tcp_checksum` of the segment with a zero field has itself the `tcp_checksum` 0 for the same two addresses,
-- as this code sums them.
pub tcp_checksum_verifies :
    (src_ip dest_ip : ℕ) (pre post : List ℕ)
    → Even pre
    → Bytes (pre ++ 0 ∷ 0 ∷ post)
    → length (pre ++ 0 ∷ 0 ∷ post) < 2 ^ 16
    → tcp_checksum src_ip dest_ip
        (stamped pre post (tcp_checksum src_ip dest_ip (pre ++ 0 ∷ 0 ∷ post)))
      ≡ 0
unfolding tcp_checksum
tcp_checksum_verifies src_ip dest_ip pre post even bytes short =
    let len : ℕ = length (pre ++ 0 ∷ 0 ∷ post) in
    let start : ℕ = pseudo src_ip dest_ip len in
    let c : ℕ = finish start (pre ++ 0 ∷ 0 ∷ post) in
    ap (λ n. finish (pseudo src_ip dest_ip n) (stamped pre post c))
      (length-stamp pre (c % 256) (c / 256) post)
    ∙ stamp_verifies start pre post even
        (omega (arith, pseudo_small src_ip dest_ip len, words_bound (pre ++ 0 ∷ 0 ∷ post) bytes))
