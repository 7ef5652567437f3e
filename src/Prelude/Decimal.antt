-- ===== src/Prelude/Decimal.antt =====
-- Decimal texts as `sprintf("%d")` prints and `atoi` reads them, and C strings in buffers.
use Prim.Native.Nat.{ℕ, zero, suc, ◌+◌, ◌-◌, ◌*◌, ◌/◌, ◌%◌, ◌<◌}
use Prim.Native.Char.{code}
use Prim.Native.String.{String}
use mathlib.Core.Path.{◌≡◌, refl, ◌∙◌, ap}
use mathlib.Core.Logic.{inl, inr}
use mathlib.Core.Bool.{Bool, true, false, ◌&&◌}
use mathlib.Core.List.{[], ◌∷◌, ◌++◌}
use native.Mathlib.Omega.{arith}
use pc_communication_protoco.Prelude.Tests.{Text, ltb, leb, ◌==◌, if◌then◌else◌, Bool-cases}

-- The code points of a literal.
abbrev pub codes : String → Text
codes String.[] = []
codes (String.◌∷◌ c s) = code c ∷ codes s

-- The bytes before the terminator: what `strcpy` and `%s` see.
unfoldable pub c_str : Text → Text
c_str [] = []
c_str (b ∷ bs) = if b == 0 then [] else b ∷ c_str bs

abbrev pub is_digit : ℕ → Bool
is_digit b = leb 48 b && leb b 57

-- One digit is put in front in each round; a number has at most as many digits as its value plus
-- one, so that much fuel is enough.
unfoldable pub print_digits : ℕ → ℕ → Text → Text
print_digits zero n acc = acc
print_digits (suc fuel) n acc =
    let rest = print_digits fuel (n / 10) ((48 + n % 10) ∷ acc) in
    if ltb n 10 then (48 + n) ∷ acc else rest

-- `sprintf(buf, "%d", n)` of a number that is not negative.
unfoldable pub decimal : ℕ → Text
unfolding print_digits
decimal n = print_digits (n + 1) n []

unfoldable pub read_digits : ℕ → Text → ℕ
read_digits acc [] = acc
read_digits acc (b ∷ bs) = if is_digit b then read_digits (acc * 10 + (b - 48)) bs else acc

-- `atoi` of a text without space or sign in front.
unfoldable pub atoi : Text → ℕ
unfolding read_digits
atoi bs = read_digits 0 bs

read_digits-digit :
    (k d : ℕ) (rest : Text)
    → d < 10
    → read_digits k ((48 + d) ∷ rest) ≡ read_digits (k * 10 + d) rest
unfolding read_digits
read_digits-digit k d rest small =
    rw digit (ap (λ (t : ℕ). read_digits (k * 10 + t) rest) (omega arith))
  where
    digit : is_digit (48 + d) ≡ true
    digit = ground arith

-- The digits of a number, pushed in front of what is there, are read back as the number.
read_digits-print_digits :
    (fuel n : ℕ) (rest : Text)
    → n < fuel
    → (pow : ℕ) × ((k : ℕ)
        → read_digits k (print_digits fuel n rest) ≡ read_digits (k * pow + n) rest)
unfolding read_digits print_digits
read_digits-print_digits zero n rest h = absurd (omega arith)
read_digits-print_digits (suc fuel) n rest h = elim (Bool-cases (ltb n 10)) [
  | inl small ↦ (10, λ k. rw small (read_digits-digit k n rest (ground arith)))
  | inr large ↦
      (let (pow, e) =
          read_digits-print_digits fuel (n / 10) ((48 + n % 10) ∷ rest) (ground arith) in
        (
          pow * 10,
          λ k. rw large (
              e k
              ∙ read_digits-digit (k * pow + n / 10) (n % 10) rest (omega arith)
              ∙ ap (λ (t : ℕ). read_digits t rest) (omega arith)),
        ))
]

-- A printed number begins with a digit.
pub print_digits-first :
    (fuel n : ℕ) (acc : Text)
    → n < fuel
    → (d : ℕ) × (rest : Text) × (print_digits fuel n acc ≡ (48 + d) ∷ rest) × (d < 10)
unfolding print_digits
print_digits-first zero n acc h = absurd (omega arith)
print_digits-first (suc fuel) n acc h = elim (Bool-cases (ltb n 10)) [
  | inl small ↦ (n, acc, rw small, ground arith)
  | inr large ↦
      (let (d, rest, e, digit) =
          print_digits-first fuel (n / 10) ((48 + n % 10) ∷ acc) (ground arith) in
        (d, rest, rw large e, digit))
]

-- What does not begin with a digit.
abbrev pub NoDigit : Text → Type 0
NoDigit [] = Unit
NoDigit (b ∷ bs) = is_digit b ≡ false

read_digits-stop : (k : ℕ) (rest : Text) → NoDigit rest → read_digits k rest ≡ k
unfolding read_digits
read_digits-stop k [] stop = refl
read_digits-stop k (b ∷ bs) stop = rw stop

print_digits-append :
    (fuel n : ℕ) (acc rest : Text)
    → print_digits fuel n acc ++ rest ≡ print_digits fuel n (acc ++ rest)
unfolding print_digits
print_digits-append zero n acc rest = refl
print_digits-append (suc fuel) n acc rest =
    ground (arith, print_digits-append fuel (n / 10) ((48 + n % 10) ∷ acc) rest)

-- `atoi` reads back what `sprintf("%d")` printed, whatever follows that is no digit.
pub atoi-decimal : (n : ℕ) (rest : Text) → NoDigit rest → atoi (decimal n ++ rest) ≡ n
unfolding atoi decimal
atoi-decimal n rest stop =
    let (pow, e) = read_digits-print_digits (n + 1) n rest (omega arith) in
    ap (λ (t : Text). read_digits 0 t) (print_digits-append (n + 1) n [] rest)
    ∙ e 0
    ∙ ap (λ (t : ℕ). read_digits t rest) (omega arith)
    ∙ read_digits-stop n rest stop
