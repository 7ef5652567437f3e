-- ===== src/Checksum/Fold.antt =====
-- The deferred carries, and the checksum against the reference.
use pc_communication_protoco.Prelude.{
  ℕ, zero, suc, ◌+◌, ◌-◌, ◌*◌, ◌/◌, ◌%◌, ◌≤◌, ◌<◌, ◌≡◌, refl, ap, ◌∙◌, Text, [], ◌∷◌, arith, length,
  ◌==◌, inl, inr, Bool-cases, ltb, if◌then◌else◌,
}
use pc_communication_protoco.Checksum.{
  htons, u64, be_word, sum_from_1, sum_from_2, sum_from_3, sum_words, fold_carries, ip_checksum,
}
use pc_communication_protoco.Checksum.Reference.{
  IsBytes, word_sum, ones, Fits, Sums, sum_blocks-Sums, word_sum-shift,
}

-- A representative of the same sum in 16 bits that is not zero.
abbrev Folded : ℕ → ℕ → Type 0
Folded acc r = (0 < r) × (r < 65536) × (r % 65535 ≡ acc % 65535)

fold_carries-done : (fuel acc : ℕ) → acc < 65536 → fold_carries (suc fuel) acc ≡ acc
unfolding fold_carries
fold_carries-done fuel acc h = ground arith

fold_carries-more :
    (fuel acc : ℕ)
    → 65536 ≤ acc
    → fold_carries (suc fuel) acc ≡ fold_carries fuel (acc % 65536 + acc / 65536)
unfolding fold_carries
fold_carries-more fuel acc h = ground arith

-- A round keeps the sum.
fold_carries-suc :
    (fuel acc : ℕ)
    → 0 < acc
    → Folded (acc % 65536 + acc / 65536) (fold_carries fuel (acc % 65536 + acc / 65536))
    → Folded acc (fold_carries (suc fuel) acc)
fold_carries-suc fuel acc pos next = elim (Bool-cases (ltb acc 65536)) [
  | inl done ↦
      (let small : acc < 65536 = ground (arith, done) in
        rw (fold_carries-done fuel acc small) (omega arith))
  | inr more ↦
      (let large : 65536 ≤ acc = ground (arith, more) in
        rw (fold_carries-more fuel acc large) (omega (arith, next)))
]

fold_once : (acc : ℕ) → 0 < acc → acc < 65536 → Folded acc (fold_carries 1 acc)
fold_once acc pos small = rw (fold_carries-done 0 acc small) (omega arith)

fold_twice : (acc : ℕ) → 0 < acc → acc < 65539 → Folded acc (fold_carries 2 acc)
fold_twice acc pos small =
    fold_carries-suc 1 acc pos (fold_once (acc % 65536 + acc / 65536) (omega arith) (omega arith))

fold_thrice : (acc : ℕ) → 0 < acc → acc < 196608 → Folded acc (fold_carries 3 acc)
fold_thrice acc pos small =
    fold_carries-suc 2 acc pos (fold_twice (acc % 65536 + acc / 65536) (omega arith) (omega arith))

-- Four rounds are enough for 33 bits.
fold_carries-Folded : (acc : ℕ) → 0 < acc → acc < 8589934592 → Folded acc (fold_carries 4 acc)
fold_carries-Folded acc pos small =
    fold_carries-suc 3 acc pos (fold_thrice (acc % 65536 + acc / 65536) (omega arith) (omega arith))

-- The shifts of the pairing at the four alignments.
sum_from_1-Sums :
    (bytes : Text)
    → IsBytes bytes
    → Fits bytes 65535
    → Sums (sum_from_1 bytes 65535) 65535 (256 * word_sum bytes)
unfolding sum_from_1
sum_from_1-Sums [] small fits = omega arith
sum_from_1-Sums (a ∷ []) small fits = omega arith
sum_from_1-Sums (a ∷ b ∷ []) small fits = omega arith
sum_from_1-Sums (a ∷ b ∷ c ∷ rest) small fits = omega (
  arith,
  sum_blocks-Sums rest (u64 (65535 + be_word 0 a b c)) small.1.1.1 (omega arith),
  word_sum-shift a (b ∷ c ∷ rest),
)

sum_from_2-Sums :
    (bytes : Text)
    → IsBytes bytes
    → Fits bytes 65535
    → Sums (sum_from_2 bytes 65535) 65535 (word_sum bytes)
unfolding sum_from_2
sum_from_2-Sums [] small fits = omega arith
sum_from_2-Sums (a ∷ []) small fits = omega arith
sum_from_2-Sums (a ∷ b ∷ rest) small fits =
    omega (arith, sum_blocks-Sums rest (u64 (65535 + be_word 0 0 a b)) small.1.1 (omega arith))

sum_from_3-Sums :
    (bytes : Text)
    → IsBytes bytes
    → Fits bytes 65535
    → Sums (sum_from_3 bytes 65535) 65535 (256 * word_sum bytes)
unfolding sum_from_3
sum_from_3-Sums [] small fits = omega arith
sum_from_3-Sums (a ∷ rest) small fits = omega (
  arith,
  sum_blocks-Sums rest (u64 (65535 + be_word 0 0 0 a)) small.1 (omega arith),
  word_sum-shift a rest,
)

-- What is done with the sum of the words.
finish : ℕ → ℕ → ℕ
finish offset sum =
    let acc = fold_carries 4 (u64 (sum % 4294967296 + sum / 4294967296)) in
    let acc' = if offset % 2 == 1 then acc / 256 % 256 + acc % 256 * 256 else acc in
    htons (65535 - acc' % 65536)

finish-even :
    (offset sum n : ℕ)
    → offset % 2 ≡ 0
    → Sums sum 65535 n
    → finish offset sum ≡ htons (65535 - ones n)
unfolding finish
finish-even offset sum n even sums =
    let folded =
      fold_carries-Folded (sum % 4294967296 + sum / 4294967296) (omega arith) (omega arith) in
    let whole : u64 (sum % 4294967296 + sum / 4294967296) ≡ sum % 4294967296 + sum / 4294967296 =
      omega arith in
    rw (even, whole) (ap htons (omega (arith, folded, sums)))

finish-odd :
    (offset sum n : ℕ)
    → offset % 2 ≡ 1
    → Sums sum 65535 (256 * n)
    → finish offset sum ≡ htons (65535 - ones n)
unfolding finish
finish-odd offset sum n odd sums =
    let folded =
      fold_carries-Folded (sum % 4294967296 + sum / 4294967296) (omega arith) (omega arith) in
    let whole : u64 (sum % 4294967296 + sum / 4294967296) ≡ sum % 4294967296 + sum / 4294967296 =
      omega arith in
    rw (odd, whole) (ap htons (omega (arith, folded, sums)))

ip_checksum-finish :
    (offset : ℕ) (bytes : Text) → ip_checksum offset bytes ≡ finish offset (sum_words offset bytes)
unfolding ip_checksum finish
ip_checksum-finish offset bytes = refl

-- At every alignment `ip_checksum` is the complement of the one's complement sum of the 16-bit
-- words of the data, in network order. The data are bytes, fewer than 2 ^ 31 of them.
pub ip_checksum-reference :
    (offset : ℕ) (bytes : Text)
    → offset < 4
    → IsBytes bytes
    → length bytes < 2147483648
    → ip_checksum offset bytes ≡ htons (65535 - ones (word_sum bytes))
unfolding sum_words
ip_checksum-reference zero bytes aligned small short =
    ip_checksum-finish 0 bytes
    ∙ finish-even 0 _ _ refl (sum_blocks-Sums bytes 65535 small (omega arith))
ip_checksum-reference (suc zero) bytes aligned small short =
    ip_checksum-finish 1 bytes ∙ finish-odd 1 _ _ refl (sum_from_1-Sums bytes small (omega arith))
ip_checksum-reference (suc (suc zero)) bytes aligned small short =
    ip_checksum-finish 2 bytes ∙ finish-even 2 _ _ refl (sum_from_2-Sums bytes small (omega arith))
ip_checksum-reference (suc (suc (suc zero))) bytes aligned small short =
    ip_checksum-finish 3 bytes ∙ finish-odd 3 _ _ refl (sum_from_3-Sums bytes small (omega arith))
ip_checksum-reference (suc (suc (suc (suc n)))) bytes aligned small short = absurd (omega arith)
