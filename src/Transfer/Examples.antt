-- ===== src/Transfer/Examples.antt =====
-- The transfer of a small file.
use pc_communication_protoco.Prelude.{
  ℕ, ◌+◌, ◌<◌, ◌≡◌, ◌++◌, ◌∷◌, Option, some, [], Text, length, All, ok, codes, arith,
}
use pc_communication_protoco.Transfer.{Sending, send_file, receive_file}
use pc_communication_protoco.Transfer.Roundtrip.{IsMessage}
use pc_communication_protoco.Transfer.Window.{send_file-received}
use pc_communication_protoco.Transfer.Window.Stalls.{send_file-stalls}

abbrev content : Text
content = codes "hello"

-- What the receiver answers with.
abbrev acks : ℕ → Option Text
acks k = some (codes "ACK" ++ 0 ∷ [])

send_file-received_example :
    (sending : Sending) × (send_file acks (codes "file.in") content 1 [] ≡ ok sending)
    × All IsMessage sending.messages
    × ((receive_file sending.messages).name ≡ codes "file.in_copy")
    × ((receive_file sending.messages).written ≡ content)
    × (sending.answers
        ≡ (receive_file sending.messages).acks + length (receive_file sending.messages).unread)
send_file-received_example =
    send_file-received acks (codes "file.in") content 1 [] (omega arith) (omega arith) (omega arith)
      (omega arith)

send_file-stalls_example :
    (sending : Sending) × (send_file acks (codes "file.in") content 1000 [] ≡ ok sending)
    × ((receive_file sending.messages).acks ≡ 3)
    × (3 < sending.answers)
send_file-stalls_example =
    send_file-stalls acks (codes "file.in") content 1000 [] (omega arith) (omega arith)
      (omega arith) (omega arith) (omega arith)
