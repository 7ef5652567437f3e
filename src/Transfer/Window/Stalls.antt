-- ===== src/Transfer/Window/Stalls.antt =====
-- A window that is wider than the file.
use native.Mathlib.Nat.{le-div_iff_mul-le}
use pc_communication_protoco.Prelude.{
  Option, leb, ◌%◌, ℕ, zero, suc, ◌+◌, ◌*◌, ◌/◌, ◌≤◌, ◌<◌, ◌≡◌, refl, ap, ◌∙◌, true, false, ltb,
  take_all, List, [], ◌∷◌, ◌++◌, Text, ◌==◌, length, take, drop, ok, arith,
}
use pc_communication_protoco.Transfer.{
  msgsize, Msg, store, message, send_window, check, window_size, Sending, send_file, receive_data,
  receive_file,
}
use pc_communication_protoco.Transfer.Window.{stored-number, first, second, early, send_file-sends}

received_all : (msgs : List Msg) (size : ℕ) → receive_data msgs size size ≡ ([], 0, msgs)
unfolding receive_data
received_all [] size = refl
received_all (r ∷ msgs) size = let done : ltb size size ≡ false = ground arith in rw done

-- A first message that carries everything is the only one that is answered.
one_answer :
    (r : Msg) (msgs : List Msg) (size : ℕ)
    → 0 < size
    → r.len ≡ size
    → (receive_data (r ∷ msgs) 0 size).1 ≡ 1
unfolding receive_data
one_answer r msgs size real whole =
    let more : ltb 0 size ≡ true = ground arith in
    let len : 0 + r.len ≡ size = omega (arith, whole) in
    rw (more, len, received_all msgs size) (omega arith)

first_answer :
    (window : ℕ) (file p : Text) (late : List Msg)
    → 0 < length file
    → length file ≤ msgsize
    → 0 < window
    → (receive_data ((send_window window file p).0 ++ late) 0 (length file)).1 ≡ 1
unfolding send_window message
first_answer zero file p late some_bytes one_message real = absurd (omega arith)
first_answer (suc n) file p late some_bytes one_message real =
    let bytes = take msgsize file in
    one_answer (message (length bytes) (store bytes p))
      ((send_window n (drop msgsize file) (store bytes p)).0 ++ late) (length file) some_bytes
      (ap length (take_all msgsize file one_message))

wide_window : (size count : ℕ) → 0 < size → 16 * size ≤ count * 100 → 2 ≤ (count * 100) / (8 * size)
wide_window size count positive wide = (le-div_iff_mul-le (omega arith)).1 (omega (arith, wide))

window_size-wide :
    (count size : ℕ)
    → 0 < size
    → size ≤ msgsize
    → count * 100 < 2147483648
    → window_size count size ≡ ok ((count * 100) / (8 * size))
unfolding window_size
window_size-wide count size real short below =
    let n : (count * 100) % 4294967296 ≡ count * 100 = omega (arith, below) in
    let d : (8 * size) % 4294967296 ≡ 8 * size = omega (arith, short) in
    let some_size : ((8 * size) == 0) ≡ false = ground arith in
    let positive : leb 2147483648 (count * 100) ≡ false = ground (arith, below) in
    let positive' : leb 2147483648 (8 * size) ≡ false = ground (arith, short) in
    rw (n, d, some_size, positive, positive') refl

-- For a file that is not empty and fits one message, a window of two messages or more, as 100 times
-- the count is at least 16 times the size, a count whose product with 100 is below 2 ^ 31, and a
-- name that fits the payload with `_copy` and a terminator, the receiver answers three times, and
-- the sender waits for more answers.
pub send_file-stalls :
    (answers : ℕ → Option Text) (name file : Text) (count : ℕ) (payload : Text)
    → 0 < length file
    → length file ≤ msgsize
    → 16 * length file ≤ count * 100
    → count * 100 < 2147483648
    → length name + 5 < msgsize
    → (sending : Sending) × (send_file answers name file count payload ≡ ok sending)
      × ((receive_file sending.messages).acks ≡ 3)
      × (3 < sending.answers)
unfolding receive_file
send_file-stalls answers name file count payload some_bytes one_message wide below fits =
    let small : length file < 2147483648 = omega (arith, one_message) in
    let window = (count * 100) / (8 * length file) in
    let (late, e, late_all, late_full) =
      send_file-sends answers name file count payload fits small window
        (window_size-wide count (length file) some_bytes one_message below) in
    let one = first answers name file count payload fits small in
    let two = second answers name file count payload fits small in
    let sent = early answers name file count payload fits small window in
    (
      record { messages = one ∷ two ∷ sent.0 ++ late; answers = 2 + length late + window },
      e,
      ap (λ (n : ℕ). (receive_data (sent.0 ++ late) 0 n).1 + 2)
            (stored-number (length file) (check (answers 0) one.payload))
          ∙ ap (λ (n : ℕ). n + 2)
              (first_answer window file (check (answers 1) two.payload) late some_bytes one_message
                (omega (arith, wide_window (length file) count some_bytes wide)))
          ∙ omega arith,
      omega (arith, wide_window (length file) count some_bytes wide),
    )
