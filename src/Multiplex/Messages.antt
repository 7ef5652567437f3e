-- ===== src/Multiplex/Messages.antt =====
-- To whom a message goes.
use pc_communication_protoco.Prelude.{
  NoNul, c_str-NoNul_eq, ℕ, ◌+◌, ◌*◌, ◌<◌, ◌≡◌, refl, ap, ◌∙◌, true, false, ◌∷◌, Text, length, leb,
  ltb, some, is_digit, ok, arith,
}
use pc_communication_protoco.Multiplex.{Server, log, read_number, scan_digits, scan_int, on_message}

read_number-digit :
    (d : ℕ) (bytes : Text) → d < 10 → read_number 0 ((48 + d) ∷ bytes) ≡ read_number d bytes
unfolding read_number
read_number-digit d bytes small =
    let digit : is_digit (48 + d) ≡ true = ground arith in
    rw digit (ap (λ (n : ℕ). read_number n bytes) (omega arith))

scan_int-digit :
    (d : ℕ) (bytes : Text)
    → d < 10
    → scan_int ((48 + d) ∷ bytes) ≡ some (false, read_number d bytes)
unfolding scan_int scan_digits
scan_int-digit d bytes small = ground (arith, read_number-digit d bytes small)

-- Behind the digit and one more byte stands what is sent.
on_message-number :
    (d sep : ℕ) (text : Text) (s : Server)
    → d < 10
    → NoNul (sep ∷ text)
    → length text < 254
    → on_message ((48 + d) ∷ sep ∷ text) s ≡ ok (log s (read_number d (sep ∷ text)) text)
unfolding on_message
on_message-number d sep text s small no_nul fits =
    let fits' : leb 256 (length ((48 + d) ∷ sep ∷ text)) ≡ false = ground arith in
    let long : ltb (length ((48 + d) ∷ sep ∷ text)) 2 ≡ false = ground arith in
    rw
      (
        c_str-NoNul_eq ((48 + d) ∷ sep ∷ text) (omega arith, no_nul),
        fits',
        long,
        scan_int-digit d (sep ∷ text) small,
      )
      refl

-- Of a message of a number, a byte that is no digit, and fewer than 253 more bytes, all of them not
-- zero, the bytes behind that byte go to the descriptor, if the number has one digit; if it has
-- two, that byte is sent with them.
pub on_message-digits :
    (a b sep : ℕ) (text : Text) (s : Server)
    → a < 10
    → b < 10
    → is_digit sep ≡ false
    → NoNul (sep ∷ text)
    → length text < 253
    → (on_message ((48 + a) ∷ sep ∷ text) s ≡ ok (log s a text))
      × (on_message ((48 + a) ∷ (48 + b) ∷ sep ∷ text) s ≡ ok (log s (a * 10 + b) (sep ∷ text)))
unfolding read_number
on_message-digits a b sep text s small_a small_b stop no_nul fits = (
  on_message-number a sep text s small_a no_nul (omega arith) ∙ rw stop refl,
  on_message-number a (48 + b) (sep ∷ text) s small_a (omega arith, no_nul) (omega arith)
      ∙ ap (λ (dest : ℕ). ok (log s dest (sep ∷ text))) second,
)
  where
    digit : is_digit (48 + b) ≡ true
    digit = ground arith

    second : read_number a ((48 + b) ∷ sep ∷ text) ≡ a * 10 + b
    second = rw (digit, stop) (omega arith)
