-- ===== src/Checksum/Examples.antt =====
-- The checksums at small inputs.
use pc_communication_protoco.Prelude.{◌-◌, ◌≡◌, [], ◌∷◌, arith}
use pc_communication_protoco.Checksum.{htons, ip_checksum}
use pc_communication_protoco.Checksum.Reference.{word_sum, ones}
use pc_communication_protoco.Checksum.Fold.{ip_checksum-reference}

ip_checksum-reference_example :
    ip_checksum 1 (69 ∷ 0 ∷ 7 ∷ []) ≡ htons (65535 - ones (word_sum (69 ∷ 0 ∷ 7 ∷ [])))
ip_checksum-reference_example =
    ip_checksum-reference 1 (69 ∷ 0 ∷ 7 ∷ []) (omega arith) (omega arith) (omega arith)
