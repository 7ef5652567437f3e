-- ===== src/Backup/Examples.antt =====
-- A backup of one small file, and of one that begins as the end mark.
use pc_communication_protoco.Prelude.{
  ◌≡◌, refl, some, [], ◌∷◌, ◌++◌, Text, take, drop, ok, ◌>>=◌, codes, decimal, arith,
}
use pc_communication_protoco.Backup.{File, end_mark, send_chunks, client, server}
use pc_communication_protoco.Backup.Chunks.{differs}
use pc_communication_protoco.Backup.Files.{client-server, server-marked}

abbrev file : File
file = (codes "client_a", codes "text")

-- Zeros, more than a name has bytes.
abbrev zeros : Text
zeros = 0 ∷ 0 ∷ 0 ∷ 0 ∷ 0 ∷ 0 ∷ 0 ∷ 0 ∷ 0 ∷ []

client-server_example :
    (client (file ∷ []) >>= server (λ i. zeros) zeros)
    ≡ ok (some ((codes "server_a", codes "text") ∷ []))
unfolding decimal send_chunks differs
client-server_example =
    client-server (λ i. zeros) zeros 0 (drop 2 zeros) (file ∷ []) refl (omega arith) refl
      ((omega arith, omega arith, omega arith, omega arith, (refl, tt)), tt) (([], refl), tt)

server-marked_example :
    (client ((codes "client_a", take 7 end_mark ++ codes "!") ∷ []) >>= server (λ i. zeros) zeros)
    ≡ ok (some ((codes "server_a", []) ∷ []))
server-marked_example =
    server-marked (λ i. zeros) zeros (codes "client_a") (codes "!") [] (drop 2 zeros) 0 refl refl
      (omega arith) (omega arith) (omega arith) (omega arith) refl
