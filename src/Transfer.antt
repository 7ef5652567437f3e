-- ===== src/Transfer.antt =====
-- The file transfer of `labs/Sliding Window-lab3`: `send_file` of send.c and `receive_file` of
-- recv.c. What was sent and what is received is a list of messages; reading from a file is taking
-- its next bytes.
pub mod Roundtrip
pub mod Window
mod Examples
use Prim.Native.Nat.{bit_and, bit_xor}
use pc_communication_protoco.Prelude.{
  ℕ, zero, suc, ◌+◌, ◌-◌, ◌*◌, ◌/◌, ◌%◌, ◌^◌, Bool, true, false, Option, none, some, List, [], ◌∷◌,
  ◌++◌, Text, ◌==◌, ltb, leb, if◌then◌else◌, length, take, drop, Run, ok, fault, ◌>>=◌, codes,
  c_str, decimal, atoi,
}
use pc_communication_protoco.Http.Request.{sprintf}

abbrev pub msgsize : ℕ
msgsize = 1396

pub record Msg : Type 0 where
  pub len : ℕ
  pub payload : Text
  pub checksum : ℕ

-- The inner loop over the bits of one byte, from bit `j` on.
unfoldable pub add_bits : ℕ → ℕ → ℕ → ℕ → ℕ
add_bits zero j b sum = sum
add_bits (suc left) j b sum = add_bits left (j + 1) b (bit_xor sum (bit_and (2 ^ j) b))

unfoldable pub add_bytes : Text → ℕ → ℕ
unfolding add_bits
add_bytes [] sum = sum
add_bytes (b ∷ bytes) sum = add_bytes bytes (add_bits 8 0 b sum)

unfoldable pub get_checksum : Text → ℕ
unfolding add_bytes
get_checksum payload = add_bytes payload 0

-- What is stored at the start of the payload; the bytes behind it stay.
unfoldable pub store : Text → Text → Text
store bytes payload = bytes ++ drop (length bytes) payload

unfoldable pub message : ℕ → Text → Msg
unfolding get_checksum
message len payload = record { len = len; payload = payload; checksum = get_checksum payload }

-- The loop over the first window: it reads and sends so many times, at the end of the file too. The
-- results are the messages, what is unread, and the payload as it is left.
unfoldable pub send_window : ℕ → Text → Text → List Msg × Text × Text
unfolding store message
send_window zero file payload = ([], file, payload)
send_window (suc n) file payload =
    let bytes = take msgsize file in
    let payload' = store bytes payload in
    let (msgs, file', payload'') = send_window n (drop msgsize file) payload' in
    (message (length bytes) payload' ∷ msgs, file', payload'')

-- An `int` is its 32 bits: from 2 ^ 31 on it is negative.
unfoldable pub int_lt : ℕ → ℕ → Bool
int_lt a b = ltb ((a + 2147483648) % 4294967296) ((b + 2147483648) % 4294967296)

unfoldable pub magnitude : ℕ → ℕ
magnitude w = if leb 2147483648 w then 4294967296 - w else w

-- `sprintf("%d")`.
unfoldable pub decimal_int : ℕ → Text
unfolding magnitude
decimal_int w = if leb 2147483648 w then b'-' ∷ decimal (magnitude w) else decimal w

-- `check`: what `recv_message` received takes the place of the message; `none` is an error.
abbrev pub check : Option Text → Text → Text
check none payload = payload
check (some answer) payload = answer

-- The loop over the rest, each message followed by the wait for an answer, which is number `k`. A
-- round with something left to read sends a byte at least, so one round more than the size is
-- enough.
unfoldable pub send_rest : (ℕ → Option Text) → ℕ → ℕ → ℕ → ℕ → Text → Text → Run (List Msg)
unfolding store message int_lt
send_rest answers zero k sent_size size file payload = fault
send_rest answers (suc fuel) k sent_size size file payload =
    let bytes = take msgsize file in
    let payload' = store bytes payload in
    let rest =
      send_rest answers fuel (k + 1) ((sent_size + length bytes) % 4294967296) size
        (drop msgsize file) (check (answers k) payload') in
    if int_lt sent_size size
    then (do msgs ← rest; ok (message (length bytes) payload' ∷ msgs))
    else ok []

-- How many rounds the loops up to `window_size` have, for two 32-bit numbers. A division by 0 ends
-- the process; both products wrap around.
unfoldable pub window_size : ℕ → ℕ → Run ℕ
unfolding magnitude
window_size count size =
    let n = (count * 100) % 4294967296 in
    let d = (8 * size) % 4294967296 in
    if d == 0
    then fault
    else if leb 2147483648 n
    then ok (if leb 2147483648 d then magnitude n / magnitude d else 0)
    else ok (if leb 2147483648 d then 0 else n / d)

-- What `send_file` sends, and for how many answers it waits.
pub record Sending : Type 0 where
  pub messages : List Msg
  pub answers : ℕ

-- A C string as the contents of the payload.
unfoldable pub text_message : Text → Text → Msg
unfolding store message
text_message text payload = message (length text + 1) (store (text ++ 0 ∷ []) payload)

-- `answers` are the payloads of what `recv_message` gives; `count` is an `int` too.
unfoldable pub send_file : (ℕ → Option Text) → Text → Text → ℕ → Text → Run Sending
unfolding sprintf text_message decimal_int window_size send_window send_rest
send_file answers name file count payload =
    let size = length file % 4294967296 in
    do
      copy ← sprintf msgsize (name ++ codes "_copy")
      let first = text_message copy payload
      let second = text_message (decimal_int size) (check (answers 0) first.payload)
      window ← window_size count size
      let (early, file', payload') = send_window window file (check (answers 1) second.payload)
      late ←
          send_rest answers (length file + 1) 2 ((length file - length file') % 4294967296) size
            file' payload'
      ok (record { messages = first ∷ second ∷ early ++ late; answers = 2 + length late + window })

-- The loop of `receive_file`: what it writes, the answers that it sends, and the messages that it
-- leaves. A list that ends is a receiver that waits, with what it has so far.
pub record Receiving : Type 0 where
  pub name : Text
  pub written : Text
  pub acks : ℕ
  pub unread : List Msg

unfoldable pub receive_data : List Msg → ℕ → ℕ → Text × ℕ × List Msg
receive_data [] received_size size = ([], 0, [])
receive_data (r ∷ msgs) received_size size =
    let (written, acks, unread) = receive_data msgs (received_size + r.len) size in
    if ltb received_size size
    then (take r.len r.payload ++ written, acks + 1, unread)
    else ([], 0, r ∷ msgs)

unfoldable pub receive_file : List Msg → Receiving
unfolding receive_data
receive_file [] = record { name = []; written = []; acks = 0; unread = [] }
receive_file (r ∷ []) = record { name = c_str r.payload; written = []; acks = 1; unread = [] }
receive_file (r ∷ r' ∷ msgs) =
    let (written, acks, unread) = receive_data msgs 0 (atoi r'.payload) in
    record { name = c_str r.payload; written = written; acks = acks + 2; unread = unread }
