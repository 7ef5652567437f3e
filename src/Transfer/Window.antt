-- ===== src/Transfer/Window.antt =====
-- The whole transfer, and the answers that the sender waits for.
pub mod Stalls
use native.Mathlib.Nat.{le-div_iff_mul-le}
use mathlib.Core.Path.{subst}
use pc_communication_protoco.Http.Request.Lines.{sprintf-ok}
use pc_communication_protoco.Prelude.{
  Bool-cases, inl, inr, Option, leb, if◌then◌else◌, ◌%◌, NoNul, c_str-text, ℕ, zero, suc, ◌+◌, ◌-◌,
  ◌*◌, ◌/◌, ◌≤◌, ◌<◌, ◌≡◌, ◌≢◌, refl, ap, ◌∙◌, true, false, ltb, take_all, List, [], ◌∷◌, ◌++◌,
  append_assoc, Text, ◌==◌, length, length-append, take, drop, All, All-append, ok, codes, c_str,
  decimal, atoi, atoi-decimal, arith,
}
use pc_communication_protoco.Transfer.{
  msgsize, Msg, store, message, send_window, send_rest, check, magnitude, decimal_int, window_size,
  Sending, text_message, send_file, receive_data, receive_file,
}
use pc_communication_protoco.Transfer.Roundtrip.{
  IsMessage, all_carried, all_carried-append, message-IsMessage, send_window-carried,
  send_rest-carried, receive_data-carried,
}

stored-text : (t payload : Text) → NoNul t → c_str (text_message t payload).payload ≡ t
unfolding text_message message store
stored-text t payload no_nul = c_str-text t (drop (length (t ++ 0 ∷ [])) payload) no_nul

stored-number : (n : ℕ) (payload : Text) → atoi (text_message (decimal n) payload).payload ≡ n
unfolding text_message message store
stored-number n payload =
    let rest = drop (length (decimal n ++ 0 ∷ [])) payload in
    ap atoi (append_assoc (decimal n) (0 ∷ []) rest) ∙ atoi-decimal n (0 ∷ rest) refl

text_message-IsMessage : (t payload : Text) → IsMessage (text_message t payload)
unfolding text_message
text_message-IsMessage t payload =
    subst (λ n. IsMessage (message n (store (t ++ 0 ∷ []) payload))) (length-append t (0 ∷ []))
      (message-IsMessage (t ++ 0 ∷ []) payload)

decimal_int-small : (n : ℕ) → n < 2147483648 → decimal_int n ≡ decimal n
unfolding decimal_int
decimal_int-small n small =
    let positive : leb 2147483648 n ≡ false = ground arith in rw positive refl

-- Where the division is one, the loops have some number of rounds.
window_size-some :
    (count size : ℕ)
    → (8 * size) % 4294967296 ≢ 0
    → (window : ℕ) × (window_size count size ≡ ok window)
unfolding window_size
window_size-some count size real =
    let n = (count * 100) % 4294967296 in
    let d = (8 * size) % 4294967296 in
    let some_size : (d == 0) ≡ false = ground (arith, real) in
    elim (Bool-cases (leb 2147483648 n)) [
      | inl below ↦
          (if leb 2147483648 d then magnitude n / magnitude d else 0, rw (some_size, below) refl)
      | inr above ↦ (if leb 2147483648 d then 0 else n / d, rw (some_size, above) refl)
    ]

module _ (answers : ℕ → Option Text) (name file : Text) (count : ℕ) (payload : Text)
    (fits : length name + 5 < msgsize) (small : length file < 2147483648) where
  abbrev first : Msg
  first = text_message (name ++ codes "_copy") payload

  abbrev second : Msg
  second = text_message (decimal (length file)) (check (answers 0) first.payload)

  abbrev early : ℕ → List Msg × Text × Text
  early window = send_window window file (check (answers 1) second.payload)

  early-whole :
      (window : ℕ) → length (all_carried (early window).0) + length (early window).1 ≡ length file
  early-whole window =
      let e = (send_window-carried window file (check (answers 1) second.payload)).0 in
      omega (arith, ap length e, length-append (all_carried (early window).0) (early window).1)

  send_file-late :
      (window : ℕ) (late : List Msg)
      → window_size count (length file) ≡ ok window
      → send_rest answers
          (length file + 1)
          2
          (length file - length (early window).1)
          (length file)
          (early window).1
          (early window).2
        ≡ ok late
      → send_file answers name file count payload
        ≡ ok (record {
          messages = first ∷ second ∷ (early window).0 ++ late;
          answers = 2 + length late + window;
        })
  unfolding send_file
  send_file-late window late known e =
      let size : length file % 4294967296 ≡ length file = omega (arith, small) in
      let sent : (length file - length (early window).1) % 4294967296
          ≡ length file - length (early window).1 =
        omega (arith, small) in
      let named =
        sprintf-ok msgsize (name ++ codes "_copy")
          (omega (arith, fits, length-append name (codes "_copy"))) in
      rw (named, size, decimal_int-small (length file) small, known, sent, e) refl

  -- What the sender sends in all, once its window is known.
  send_file-sends :
      (window : ℕ)
      → window_size count (length file) ≡ ok window
      → (late : List Msg) × (send_file answers name file count payload
          ≡ ok (record {
            messages = first ∷ second ∷ (early window).0 ++ late;
            answers = 2 + length late + window;
          }))
        × (all_carried late ≡ (early window).1)
        × All IsMessage late
  send_file-sends window known =
      let (late, e, late_all, late_full) =
        send_rest-carried answers (length file + 1) 2 (length file - length (early window).1)
          (length file) (early window).1 (early window).2 (omega (arith, early-whole window)) small
          (omega (arith, early-whole window)) in
      (late, send_file-late window late known e, late_all, late_full)

-- For a file of fewer than 2 ^ 31 bytes whose size times 8 is not 0 modulo 2 ^ 32, and a name
-- without a zero byte that fits the payload with `_copy` and a terminator, `send_file` ends,
-- whatever its window is and whatever the answers carry, and every message has its length and the
-- checksum of its payload; `receive_file`, given these messages in order, opens the name with
-- `_copy` behind it and writes exactly the file. The sender waits for as many answers as the
-- receiver gives and messages as it leaves unread.
pub send_file-received :
    (answers : ℕ → Option Text) (name file : Text) (count : ℕ) (payload : Text)
    → length file < 2147483648
    → (8 * length file) % 4294967296 ≢ 0
    → NoNul name
    → length name + 5 < msgsize
    → (sending : Sending) × (send_file answers name file count payload ≡ ok sending)
      × All IsMessage sending.messages
      × ((receive_file sending.messages).name ≡ name ++ codes "_copy")
      × ((receive_file sending.messages).written ≡ file)
      × (sending.answers
          ≡ (receive_file sending.messages).acks + length (receive_file sending.messages).unread)
unfolding receive_file
send_file-received answers name file count payload small real no_nul fits =
    let (window, known) = window_size-some count (length file) real in
    let (late, e, late_all, late_full) =
      send_file-sends answers name file count payload fits small window known in
    let one = first answers name file count payload fits small in
    let two = second answers name file count payload fits small in
    let sent = early answers name file count payload fits small window in
    let (early_all, early_full, early_count) =
      send_window-carried window file (check (answers 1) two.payload) in
    let full = All-append IsMessage sent.0 late early_full late_full in
    let all : all_carried (sent.0 ++ late) ≡ file =
      all_carried-append sent.0 late
      ∙ ap (λ (t : Text). all_carried sent.0 ++ t) late_all
      ∙ early_all in
    let number = stored-number (length file) (check (answers 0) one.payload) in
    let (written, count') =
      receive_data-carried (sent.0 ++ late) 0 (atoi two.payload) full
        (omega (arith, ap length all, number)) in
    (
      record { messages = one ∷ two ∷ sent.0 ++ late; answers = 2 + length late + window },
      e,
      (
        text_message-IsMessage (name ++ codes "_copy") payload,
        (text_message-IsMessage (decimal (length file)) (check (answers 0) one.payload), full),
      ),
      stored-text (name ++ codes "_copy") payload
          (All-append (λ b. b ≢ 0) name (codes "_copy") no_nul (omega arith)),
      written ∙ all,
      omega (arith, count', early_count, length-append sent.0 late),
    )
