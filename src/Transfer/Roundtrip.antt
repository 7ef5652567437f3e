-- ===== src/Transfer/Roundtrip.antt =====
-- What is received is what was sent.
use pc_communication_protoco.Prelude.{
  ℕ, zero, suc, ◌+◌, ◌%◌, ◌<◌, ◌≡◌, refl, sym, ap, ◌∙◌, Bool-cases, inl, inr, Option, List, [], ◌∷◌,
  ◌++◌, append-nil, append_assoc, Text, ltb, length, length-append, length-take, take, drop,
  take-append-drop, All, ok, arith,
}
use pc_communication_protoco.Transfer.{
  msgsize, Msg, get_checksum, store, message, send_window, int_lt, check, send_rest, receive_data,
}

-- The bytes that a message carries, and all those of some messages.
abbrev pub carried : Msg → Text
carried m = take m.len m.payload

abbrev pub all_carried : List Msg → Text
all_carried [] = []
all_carried (m ∷ msgs) = carried m ++ all_carried msgs

-- A message as the sender makes it: full, and with the checksum of its payload.
abbrev pub IsMessage : Msg → Type 0
IsMessage m = (m.len ≡ length (carried m)) × (m.checksum ≡ get_checksum m.payload)

take-front : (bytes rest : Text) → take (length bytes) (bytes ++ rest) ≡ bytes
take-front [] rest = refl
take-front (b ∷ bytes) rest = ap (λ (t : Text). b ∷ t) (take-front bytes rest)

message-carried :
    (bytes payload : Text) → carried (message (length bytes) (store bytes payload)) ≡ bytes
unfolding message store
message-carried bytes payload = take-front bytes (drop (length bytes) payload)

pub message-IsMessage :
    (bytes payload : Text) → IsMessage (message (length bytes) (store bytes payload))
unfolding message store
message-IsMessage bytes payload =
    (ap length (sym (take-front bytes (drop (length bytes) payload))), refl)

pub all_carried-append :
    (xs ys : List Msg) → all_carried (xs ++ ys) ≡ all_carried xs ++ all_carried ys
all_carried-append [] ys = refl
all_carried-append (x ∷ xs) ys =
    ap (λ (t : Text). carried x ++ t) (all_carried-append xs ys)
    ∙ sym (append_assoc (carried x) (all_carried xs) (all_carried ys))

-- A step of the sender: the next bytes, then what the rest of the messages carry.
next_bytes :
    (file payload : Text) (msgs : List Msg) (rest : Text)
    → all_carried msgs ++ rest ≡ drop msgsize file
    → all_carried (message (length (take msgsize file)) (store (take msgsize file) payload) ∷ msgs)
        ++ rest
      ≡ file
next_bytes file payload msgs rest e =
    ap (λ (t : Text). t ++ all_carried msgs ++ rest) (message-carried (take msgsize file) payload)
    ∙ append_assoc (take msgsize file) (all_carried msgs) rest
    ∙ ap (λ (t : Text). take msgsize file ++ t) e
    ∙ take-append-drop msgsize file

pub send_window-carried :
    (n : ℕ) (file payload : Text)
    → (all_carried (send_window n file payload).0 ++ (send_window n file payload).1 ≡ file)
      × All IsMessage (send_window n file payload).0
      × (length (send_window n file payload).0 ≡ n)
unfolding send_window
send_window-carried zero file payload = (refl, tt, refl)
send_window-carried (suc n) file payload =
    let bytes = take msgsize file in
    let (e, all, len) = send_window-carried n (drop msgsize file) (store bytes payload) in
    (
      next_bytes file payload (send_window n (drop msgsize file) (store bytes payload)).0
          (send_window n (drop msgsize file) (store bytes payload)).1 e,
      (message-IsMessage bytes payload, all),
      omega (arith, len),
    )

pub split_length : (n : ℕ) (file : Text) → length (take n file) + length (drop n file) ≡ length file
split_length n file =
    omega (arith, length-append (take n file) (drop n file), ap length (take-append-drop n file))

some_taken : (n : ℕ) (file : Text) → 0 < n → 0 < length file → 0 < length (take n file)
some_taken n file real some_bytes = omega (arith, length-take n file)

nothing_left : (file : Text) → length file ≡ 0 → [] ≡ file
nothing_left [] e = refl
nothing_left (b ∷ file) e = absurd (omega arith)

-- Below 2 ^ 31 an `int` is the number itself.
pub int_lt-small : (a b : ℕ) → a < 2147483648 → b < 2147483648 → int_lt a b ≡ ltb a b
unfolding int_lt
int_lt-small a b small small' = ground arith

pub send_rest-carried :
    (answers : ℕ → Option Text) (fuel k sent_size size : ℕ) (file payload : Text)
    → sent_size + length file ≡ size
    → size < 2147483648
    → length file < fuel
    → (msgs : List Msg) × (send_rest answers fuel k sent_size size file payload ≡ ok msgs)
      × (all_carried msgs ≡ file)
      × All IsMessage msgs
unfolding send_rest
send_rest-carried answers zero k sent_size size file payload whole small enough =
    absurd (omega arith)
send_rest-carried answers (suc fuel) k sent_size size file payload whole small enough =
    let as_number : int_lt sent_size size ≡ ltb sent_size size =
      int_lt-small sent_size size (omega arith) small in
    elim (Bool-cases (ltb sent_size size)) [
      | inr done ↦ ([], rw (as_number, done), nothing_left file (ground (arith, done)), tt)
      | inl more ↦
          (let some_left : 0 < length file = ground (arith, more) in
            let bytes = take msgsize file in
            let split = split_length msgsize file in
            let taken = some_taken msgsize file (omega arith) some_left in
            let (msgs, e, all, full) =
              send_rest-carried answers fuel (k + 1) ((sent_size + length bytes) % 4294967296) size
                (drop msgsize file) (check (answers k) (store bytes payload))
                (omega (arith, split, whole)) small (omega (arith, split, taken, enough)) in
            (
              message (length bytes) (store bytes payload) ∷ msgs,
              rw (as_number, more, e),
              sym (append-nil _)
                  ∙ next_bytes file payload msgs [] (append-nil (all_carried msgs) ∙ all),
              (message-IsMessage bytes payload, full),
            ))
    ]

-- The receiver writes all that the messages carry, and answers every message that it does not leave.
pub receive_data-carried :
    (msgs : List Msg) (received_size size : ℕ)
    → All IsMessage msgs
    → received_size + length (all_carried msgs) ≡ size
    → ((receive_data msgs received_size size).0 ≡ all_carried msgs)
      × ((receive_data msgs received_size size).1 + length (receive_data msgs received_size size).2
          ≡ length msgs)
unfolding receive_data
receive_data-carried [] received_size size full whole = (refl, omega arith)
receive_data-carried (r ∷ msgs) received_size size full whole =
    let joint = length-append (carried r) (all_carried msgs) in
    elim (Bool-cases (ltb received_size size)) [
      | inl more ↦
          (let (written, count) =
              receive_data-carried msgs (received_size + r.len) size full.1
                (omega (arith, joint, full.0.0, whole)) in
            rw more (ap (λ (t : Text). carried r ++ t) written, omega (arith, count)))
      | inr done ↦
          rw done (
            nothing_left (carried r ++ all_carried msgs) (ground (arith, done, whole)),
            omega arith,
          )
    ]
