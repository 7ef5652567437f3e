-- ===== src/Checksum/Icmp.antt =====
-- `icmp_checksum` over the four words of an ICMP header.
use pc_communication_protoco.Prelude.{ℕ, ◌+◌, ◌<◌, ◌≡◌, ap, ◌∙◌, [], ◌∷◌, arith, ok}
use pc_communication_protoco.Checksum.{icmp_fold, icmp_checksum}

icmp_checksum-words :
    (a b c d : ℕ)
    → a < 65536
    → b < 65536
    → c < 65536
    → d < 65536
    → icmp_checksum (a ∷ b ∷ c ∷ d ∷ []) 8 ≡ ok (icmp_fold (a + b + c + d))
unfolding icmp_checksum
icmp_checksum-words a b c d ha hb hc hd = ap (λ (n : ℕ). ok (icmp_fold n)) (omega arith)

-- An ICMP header of 16-bit words, whose checksum field holds the checksum of the header with that
-- field cleared, has the checksum 0.
pub icmp_checksum-verifies :
    (kind id sequence : ℕ)
    → kind < 65536
    → id < 65536
    → sequence < 65536
    → (check : ℕ) × (icmp_checksum (kind ∷ 0 ∷ id ∷ sequence ∷ []) 8 ≡ ok check)
      × (check < 65536)
      × (icmp_checksum (kind ∷ check ∷ id ∷ sequence ∷ []) 8 ≡ ok 0)
icmp_checksum-verifies kind id sequence hk hi hs =
    let check = icmp_fold (kind + 0 + id + sequence) in
    let small = icmp_fold-lt (kind + 0 + id + sequence) in
    (
      check,
      icmp_checksum-words kind 0 id sequence hk (omega arith) hi hs,
      small,
      icmp_checksum-words kind check id sequence hk small hi hs
          ∙ ap (λ (n : ℕ). ok n) (icmp_fold-again kind id sequence hk hi hs),
    )
  where
    icmp_fold-lt : (n : ℕ) → icmp_fold n < 65536
    icmp_fold-lt n = unfold icmp_fold in omega arith

    icmp_fold-again :
        (k i s : ℕ)
        → k < 65536
        → i < 65536
        → s < 65536
        → icmp_fold (k + icmp_fold (k + 0 + i + s) + i + s) ≡ 0
    icmp_fold-again k i s hk hi hs = unfold icmp_fold in omega arith
