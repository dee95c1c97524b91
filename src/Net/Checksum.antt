-- ===== src/Net/Checksum.antt =====
-- The Internet checksum, which ip.c, icmp.c and tcp.c of services/net each compute with the same loops. A
-- packet is the list of its bytes; two bytes are read as a word with the first one low.
pub mod Stamp
use zurich_os.Base.{
  ℕ, zero, suc, ◌+◌, ◌-◌, ◌*◌, ◌/◌, ◌%◌, ◌^◌, List, [], ◌∷◌, ◌==◌, if◌then◌else◌, length,
}

-- The loop over the words, and the odd byte at the end; `sum` wraps.
unfoldable pub add_words : ℕ → List ℕ → ℕ
add_words sum [] = sum
add_words sum (a ∷ []) = (sum + a) % 2 ^ 32
add_words sum (a ∷ b ∷ rest) = add_words ((sum + (a + 256 * b)) % 2 ^ 32) rest

-- `while (sum >> 16)`: at most `n` rounds.
unfoldable pub fold_carry : ℕ → ℕ → ℕ
fold_carry zero sum = sum
fold_carry (suc n) sum =
    let rest = fold_carry n (sum % 2 ^ 16 + sum / 2 ^ 16) in if sum / 2 ^ 16 == 0 then sum else rest

-- The rounds allowed to the loop, which has no bound in the code.
abbrev pub carry_rounds : ℕ
carry_rounds = 2

-- What is left of each function once `sum` has its start value: `return (uint16_t)~sum`.
unfoldable pub finish : ℕ → List ℕ → ℕ
unfolding add_words fold_carry
finish sum data_bytes = (2 ^ 32 - 1 - fold_carry carry_rounds (add_words sum data_bytes)) % 2 ^ 16

unfoldable pub ip_checksum : List ℕ → ℕ
ip_checksum bytes = finish 0 bytes

unfoldable pub icmp_checksum : List ℕ → ℕ
icmp_checksum bytes = finish 0 bytes

-- `htons` on a 16-bit value.
abbrev pub htons : ℕ → ℕ
htons x = x % 256 * 256 + x / 256 % 256

-- The sum over the pseudo-header, with both addresses as the host holds them.
abbrev pub pseudo : ℕ → ℕ → ℕ → ℕ
pseudo src_ip dest_ip len =
    (src_ip / 2 ^ 16 % 2 ^ 16
      + src_ip % 2 ^ 16
      + dest_ip / 2 ^ 16 % 2 ^ 16
      + dest_ip % 2 ^ 16
      + htons 6
      + htons len)
    % 2 ^ 32

unfoldable pub tcp_checksum : ℕ → ℕ → List ℕ → ℕ
tcp_checksum src_ip dest_ip bytes = finish (pseudo src_ip dest_ip (length bytes)) bytes
