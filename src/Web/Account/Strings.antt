-- ===== src/Web/Account/Strings.antt =====
-- The library functions on strings at texts without a terminator, and the buffers of the cookie and
-- of the token.
use pc_communication_protoco.Prelude.{
  NoNul, ℕ, zero, suc, ◌-◌, ◌≤◌, ◌<◌, ◌≡◌, refl, ap, Bool, false, some, [], ◌∷◌, ◌++◌, Text,
  Bool-cases, inl, inr, text_eq, ◌==◌, length, length-append, take, drop, c_str, arith,
}
use mathlib.Core.Path.{subst}
use pc_communication_protoco.Subscriber.{skip_sep, take_token, strtok}
use pc_communication_protoco.Web.{buflen, begins, strstr, strncpy_bytes}

-- What the guards of the commands ask.
abbrev pub is_empty : Text → Bool
is_empty buf = text_eq (c_str buf) []

pub strstr-NoNul : (t word r : Text) → NoNul t → strstr t word ≡ some r → NoNul r
unfolding strstr
strstr-NoNul [] word r h e = elim (Bool-cases (begins word [])) [
  | inl hit ↦ subst NoNul {x = []} (ground (arith, hit)) h
  | inr miss ↦ absurd (ground (arith, miss))
]
strstr-NoNul (b ∷ t) word r h e = elim (Bool-cases (begins word (b ∷ t))) [
  | inl hit ↦ subst NoNul {x = b ∷ t} (ground (arith, hit)) h
  | inr miss ↦ strstr-NoNul t word r h.1 (ground (arith, miss))
]

skip_sep-NoNul : (t : Text) → NoNul t → NoNul (skip_sep t)
unfolding skip_sep
skip_sep-NoNul [] h = tt
skip_sep-NoNul (b ∷ t) h = elim (Bool-cases (b == 32)) [
  | inl space ↦ rw space (skip_sep-NoNul t h.1)
  | inr other ↦ rw other h
]

take_token-NoNul : (t : Text) → NoNul t → NoNul (take_token t).0 × NoNul (take_token t).1
unfolding take_token
take_token-NoNul [] h = (tt, tt)
take_token-NoNul (b ∷ t) h = elim (Bool-cases (b == 32)) [
  | inl space ↦ rw space (tt, h.1)
  | inr other ↦ let (x, y) = take_token-NoNul t h.1 in rw other ((h.0, x), y)
]

-- What `strtok` gives, by what `skip_sep` leaves.
strtok_lem : (t s : Text) {r : Text × Text} → skip_sep t ≡ s → strtok t ≡ some r → r ≡ take_token s
unfolding strtok
strtok_lem t [] e h = absurd (cc)
strtok_lem t (b ∷ s) e h = cc

pub strtok-NoNul :
    (t : Text) {r : Text × Text} → NoNul t → strtok t ≡ some r → NoNul r.0 × NoNul r.1
strtok-NoNul t h e =
    rw (strtok_lem t (skip_sep t) refl e) (take_token-NoNul (skip_sep t) (skip_sep-NoNul t h))

pub length-strncpy_bytes : (n : ℕ) (src : Text) → length (strncpy_bytes n src) ≡ n
unfolding strncpy_bytes
length-strncpy_bytes zero src = refl
length-strncpy_bytes (suc n) [] = omega (arith, length-strncpy_bytes n [])
length-strncpy_bytes (suc n) (b ∷ src) =
    ground (arith, length-strncpy_bytes n [], length-strncpy_bytes n src)

pub strncpy_bytes-take :
    (n : ℕ) (src : Text) → NoNul src → n ≤ length src → strncpy_bytes n src ≡ take n src
unfolding strncpy_bytes
strncpy_bytes-take zero src h le = refl
strncpy_bytes-take (suc n) [] h le = absurd (omega arith)
strncpy_bytes-take (suc n) (b ∷ src) h le =
    let more : (b == 0) ≡ false = ground arith in
    rw more (ap (λ (t : Text). b ∷ t) (strncpy_bytes-take n src h.1 (omega arith)))

-- With the terminator, the whole string is there.
pub c_str-strncpy_bytes :
    (n : ℕ) (src rest : Text) → length src < n → c_str (strncpy_bytes n src ++ rest) ≡ c_str src
unfolding strncpy_bytes c_str
c_str-strncpy_bytes zero src rest lt = absurd (omega arith)
c_str-strncpy_bytes (suc n) [] rest lt = refl
c_str-strncpy_bytes (suc n) (b ∷ src) rest lt = elim (Bool-cases (b == 0)) [
  | inl nul ↦ rw nul refl
  | inr other ↦
      rw (other, other) (ap (λ (t : Text). b ∷ t) (c_str-strncpy_bytes n src rest (omega arith)))
]

length-drop : (n : ℕ) (t : Text) → length (drop n t) ≡ length t - n
length-drop zero t = omega arith
length-drop (suc n) [] = omega arith
length-drop (suc n) (b ∷ t) = omega (arith, length-drop n t)

-- Bytes at the start of a buffer leave it as long as it was, if they fit.
pub overwrite-fits :
    (bytes old : Text) (n : ℕ)
    → length bytes ≡ n
    → n ≤ buflen
    → length old ≤ buflen
    → length (bytes ++ drop n old) ≤ buflen
overwrite-fits bytes old n e le le' =
    omega (arith, length-append bytes (drop n old), length-drop n old)

-- The first `n` bytes of a string make no string empty that was not.
pub overwrite-is_empty :
    (n : ℕ) (src old : Text)
    → NoNul src
    → n ≤ length src
    → is_empty old ≡ false
    → is_empty (take n src ++ drop n old) ≡ false
unfolding c_str text_eq
overwrite-is_empty zero src old h le e = e
overwrite-is_empty (suc n) [] old h le e = absurd (omega arith)
overwrite-is_empty (suc n) (b ∷ src) old h le e =
    let more : (b == 0) ≡ false = ground arith in rw more refl
