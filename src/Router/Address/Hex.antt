-- ===== src/Router/Address/Hex.antt =====
-- Hardware addresses as texts.
use pc_communication_protoco.Prelude.{
  ℕ, ◌+◌, ◌/◌, ◌%◌, ◌<◌, ◌≡◌, ap, sym, ◌∙◌, some, List, [], ◌∷◌, Text, ltb, if◌then◌else◌, length,
  All, arith,
}
use pc_communication_protoco.Router.Address.{
  hex2num, first_digit, both_digits, separator, hwaddr_from, hwaddr_aton,
}

abbrev pub hex_digit : ℕ → ℕ
hex_digit d = if ltb d 10 then 48 + d else 87 + d

-- Two hexadecimal digits for each byte, with colons between them.
abbrev pub hwaddr_text : List ℕ → Text
hwaddr_text [] = []
hwaddr_text (b ∷ []) = hex_digit (b / 16) ∷ hex_digit (b % 16) ∷ []
hwaddr_text (b ∷ c ∷ bytes) = hex_digit (b / 16) ∷ hex_digit (b % 16) ∷ 58 ∷ hwaddr_text (c ∷ bytes)

hex2num-hex_digit : (d : ℕ) → d < 16 → hex2num (hex_digit d) ≡ some d
unfolding hex2num
hex2num-hex_digit d small = ground arith

first_digit-hex_digit :
    (d : ℕ) (rest : Text) → d < 16 → first_digit (hex_digit d ∷ rest) ≡ some (d, rest)
unfolding first_digit
first_digit-hex_digit d rest small = rw (hex2num-hex_digit d small, first_digit)

both_digits-byte :
    (b : ℕ) (rest : Text)
    → b < 256
    → both_digits (hex_digit (b / 16) ∷ hex_digit (b % 16) ∷ rest) ≡ some (b, rest)
unfolding both_digits
both_digits-byte b rest small =
    rw
      (
        first_digit-hex_digit (b / 16) (hex_digit (b % 16) ∷ rest) (omega arith),
        both_digits,
        first_digit-hex_digit (b % 16) rest (omega arith),
      )
      (ap (λ (n : ℕ). some (n, rest)) (omega arith))

hwaddr_from-text :
    (b : ℕ) (bytes : List ℕ)
    → All (λ b. b < 256) (b ∷ bytes)
    → hwaddr_from (length (b ∷ bytes)) (hwaddr_text (b ∷ bytes)) ≡ some (b ∷ bytes)
unfolding hwaddr_from separator
hwaddr_from-text b [] small = rw (both_digits-byte b [] small.0, hwaddr_from)
hwaddr_from-text b (c ∷ bytes) small = rw (
  both_digits-byte b (58 ∷ hwaddr_text (c ∷ bytes)) small.0,
  hwaddr_from,
  hwaddr_from-text c bytes small.1,
)

-- The text of six bytes, two hexadecimal digits for each, is read back as the six bytes.
pub hwaddr_aton-text :
    (bytes : List ℕ)
    → length bytes ≡ 6
    → All (λ b. b < 256) bytes
    → hwaddr_aton (hwaddr_text bytes) ≡ some bytes
unfolding hwaddr_aton
hwaddr_aton-text [] six small = absurd (omega arith)
hwaddr_aton-text (b ∷ bytes) six small =
    ap (λ (n : ℕ). hwaddr_from n (hwaddr_text (b ∷ bytes))) (sym six)
    ∙ hwaddr_from-text b bytes small
