-- ===== src/Router/Address.antt =====
-- `hex2num`, `hex2byte` and `hwaddr_aton` of `router/skel.c`. A text ends with its list, which is
-- where the terminator stands; `none` is the result -1.
pub mod Hex
use pc_communication_protoco.Prelude.{
  ℕ, zero, suc, ◌+◌, ◌-◌, ◌*◌, Bool, true, false, not, ◌&&◌, Option, none, some, List, [], ◌∷◌,
  Text, ◌==◌, ltb, leb, if◌then◌else◌,
}

unfoldable pub hex2num : ℕ → Option ℕ
hex2num c =
    if leb 48 c && leb c 57
    then some (c - 48)
    else if leb 97 c && leb c 102
    then some (c - 97 + 10)
    else if leb 65 c && leb c 70
    then some (c - 65 + 10)
    else none

-- The terminator is no digit.
unfoldable pub first_digit : Text → Option (ℕ × Text)
unfolding hex2num
first_digit [] = none
first_digit (c ∷ hex) = elim (hex2num c) [ none ↦ none | some a ↦ some (a, hex) ]

unfoldable pub both_digits : Text → Option (ℕ × Text)
unfolding first_digit
both_digits hex = elim (first_digit hex) [
  | none ↦ none
  | some (a, rest) ↦ elim (first_digit rest) [
    | none ↦ none
    | some (b, rest') ↦ some (a * 16 + b, rest')
  ]
]

unfoldable pub hex2byte : Text → Option ℕ
unfolding both_digits
hex2byte hex = elim (both_digits hex) [ none ↦ none | some (byte, rest) ↦ some byte ]

-- The colon behind every byte but the last, `n` bytes being left.
unfoldable pub separator : ℕ → Text → Option Text
separator zero txt = some txt
separator (suc n) [] = none
separator (suc n) (c ∷ txt) = if c == 58 then some txt else none

unfoldable pub hwaddr_from : ℕ → Text → Option (List ℕ)
unfolding both_digits separator
hwaddr_from zero txt = some []
hwaddr_from (suc n) txt = elim (both_digits txt) [
  | none ↦ none
  | some (byte, rest) ↦ elim (separator n rest) [
    | none ↦ none
    | some rest' ↦ elim (hwaddr_from n rest') [ none ↦ none | some addr ↦ some (byte ∷ addr) ]
  ]
]

unfoldable pub hwaddr_aton : Text → Option (List ℕ)
unfolding hwaddr_from
hwaddr_aton txt = hwaddr_from 6 txt
