-- ===== src/Checksum/Reference.antt =====
-- The reference: the one's complement sum of the 16-bit words of RFC 1071, modulo 65535.
use pc_communication_protoco.Prelude.{
  ℕ, ◌+◌, ◌*◌, ◌%◌, ◌≤◌, ◌<◌, ◌≡◌, Text, [], ◌∷◌, arith, All, length,
}
use pc_communication_protoco.Checksum.{u64, be_word, sum_blocks}

abbrev pub IsBytes : Text → Type 0
IsBytes = All (λ b. b < 256)

-- The 16-bit words, high byte first; an odd byte at the end is the high byte of a word.
abbrev pub word_sum : Text → ℕ
word_sum [] = 0
word_sum (a ∷ []) = a * 256
word_sum (a ∷ b ∷ rest) = a * 256 + b + word_sum rest

-- The sum of one's complement arithmetic, with 65535 for zero.
abbrev pub ones : ℕ → ℕ
ones n = 1 + (n + 65534) % 65535

-- Room for the words of these bytes above the accumulator.
abbrev pub Fits : Text → ℕ → Type 0
Fits bytes acc = acc + 4294967296 * length bytes < 18446744073709551616

abbrev pub Sums : ℕ → ℕ → ℕ → Type 0
Sums result acc n =
    (result % 65535 ≡ (acc + n) % 65535) × (acc ≤ result) × (result < 18446744073709551616)

pub sum_blocks-Sums :
    (bytes : Text) (acc : ℕ)
    → IsBytes bytes
    → Fits bytes acc
    → Sums (sum_blocks bytes acc) acc (word_sum bytes)
unfolding sum_blocks
sum_blocks-Sums [] acc small fits = omega arith
sum_blocks-Sums (a ∷ []) acc small fits = omega arith
sum_blocks-Sums (a ∷ b ∷ []) acc small fits = omega arith
sum_blocks-Sums (a ∷ b ∷ c ∷ []) acc small fits = omega arith
sum_blocks-Sums (a ∷ b ∷ c ∷ d ∷ rest) acc small fits =
    omega (arith, sum_blocks-Sums rest (u64 (acc + be_word a b c d)) small.1.1.1.1 (omega arith))

-- Shifting the pairing by one byte multiplies the sum by 256.
pub word_sum-shift :
    (a : ℕ) (rest : Text) → (256 * word_sum (a ∷ rest)) % 65535 ≡ (a + word_sum rest) % 65535
word_sum-shift a [] = omega arith
word_sum-shift a (b ∷ rest) = omega (arith, word_sum-shift b rest)
