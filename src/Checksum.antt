-- ===== src/Checksum.antt =====
-- `ip_checksum` and `icmp_checksum` of `router/skel.c`. A masked or shifted word is written as a
-- remainder or a quotient by a power of two, and `|` of two disjoint bytes as a sum.
pub mod Reference
pub mod Fold
pub mod Icmp
mod Examples
use pc_communication_protoco.Prelude.{
  ℕ, zero, suc, ◌+◌, ◌-◌, ◌*◌, ◌/◌, ◌%◌, ◌^◌, Bool, List, [], ◌∷◌, Text, ltb, ◌==◌, if◌then◌else◌,
  length, Run, ok, fault, ◌>>=◌,
}

-- `htons` and `ntohs` on a little-endian machine.
unfoldable pub htons : ℕ → ℕ
htons v = v % 256 * 256 + v / 256 % 256

-- `ntohl` of a word whose bytes in memory are these.
abbrev pub be_word : ℕ → ℕ → ℕ → ℕ → ℕ
be_word a b c d = a * 16777216 + b * 65536 + c * 256 + d

abbrev pub u64 : ℕ → ℕ
u64 n = n % 18446744073709551616

-- The complete 32-bit blocks, and the partial block behind them, filled up with zeros.
unfoldable pub sum_blocks : Text → ℕ → ℕ
sum_blocks [] acc = acc
sum_blocks (a ∷ []) acc = u64 (acc + be_word a 0 0 0)
sum_blocks (a ∷ b ∷ []) acc = u64 (acc + be_word a b 0 0)
sum_blocks (a ∷ b ∷ c ∷ []) acc = u64 (acc + be_word a b c 0)
sum_blocks (a ∷ b ∷ c ∷ d ∷ rest) acc = sum_blocks rest (u64 (acc + be_word a b c d))

-- The partial block at the start of data that begins one, two or three bytes into a word.
unfoldable pub sum_from_1 : Text → ℕ → ℕ
unfolding sum_blocks
sum_from_1 [] acc = acc
sum_from_1 (a ∷ []) acc = u64 (acc + be_word 0 a 0 0)
sum_from_1 (a ∷ b ∷ []) acc = u64 (acc + be_word 0 a b 0)
sum_from_1 (a ∷ b ∷ c ∷ rest) acc = sum_blocks rest (u64 (acc + be_word 0 a b c))

unfoldable pub sum_from_2 : Text → ℕ → ℕ
unfolding sum_blocks
sum_from_2 [] acc = acc
sum_from_2 (a ∷ []) acc = u64 (acc + be_word 0 0 a 0)
sum_from_2 (a ∷ b ∷ rest) acc = sum_blocks rest (u64 (acc + be_word 0 0 a b))

unfoldable pub sum_from_3 : Text → ℕ → ℕ
unfolding sum_blocks
sum_from_3 [] acc = acc
sum_from_3 (a ∷ rest) acc = sum_blocks rest (u64 (acc + be_word 0 0 0 a))

-- `offset` is the address of the data modulo 4.
unfoldable pub sum_words : ℕ → Text → ℕ
unfolding sum_from_1 sum_from_2 sum_from_3
sum_words offset bytes =
    if offset == 0
    then sum_blocks bytes 65535
    else if offset == 1
    then sum_from_1 bytes 65535
    else if offset == 2
    then sum_from_2 bytes 65535
    else sum_from_3 bytes 65535

-- `while (acc >> 16) acc = (acc & 0xffff) + (acc >> 16);`
unfoldable pub fold_carries : ℕ → ℕ → ℕ
fold_carries zero acc = acc
fold_carries (suc fuel) acc =
    let rest = fold_carries fuel (acc % 65536 + acc / 65536) in
    if acc / 65536 == 0 then acc else rest

-- After the first fold the accumulator has at most 33 bits, and three rounds of the loop and the
-- failing test are enough.
unfoldable pub ip_checksum : ℕ → Text → ℕ
unfolding htons sum_words fold_carries
ip_checksum offset bytes =
    let acc = sum_words offset bytes in
    let acc = u64 (acc % 4294967296 + acc / 4294967296) in
    let acc = fold_carries 4 acc in
    let acc = if offset % 2 == 1 then acc / 256 % 256 + acc % 256 * 256 else acc in
    htons (65535 - acc % 65536)

-- The loop of `icmp_checksum` over `size` bytes of 16-bit words, and the read of one more word for
-- an odd byte. `unsigned long` has 64 bits.
unfoldable pub icmp_loop : List ℕ → ℕ → ℕ → Run ℕ
icmp_loop [] size cksum = if size == 0 then ok cksum else fault
icmp_loop (w ∷ ws) size cksum =
    if ltb 1 size
    then icmp_loop ws (size - 2) (u64 (cksum + w))
    else if size == 0
    then ok cksum
    else ok (u64 (cksum + w))

unfoldable pub icmp_fold : ℕ → ℕ
icmp_fold cksum =
    let once = cksum / 65536 + cksum % 65536 in
    let twice = once + once / 65536 in 65535 - twice % 65536

unfoldable pub icmp_checksum : List ℕ → ℕ → Run ℕ
unfolding icmp_loop icmp_fold
icmp_checksum buffer size = do cksum ← icmp_loop buffer size 0; ok (icmp_fold cksum)
