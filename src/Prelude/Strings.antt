-- ===== src/Prelude/Strings.antt =====
-- C strings: texts without a terminator, and what of a buffer is a string.
use Prim.Native.Nat.{ℕ, zero, suc}
use mathlib.Core.Path.{◌≡◌, refl, sym, ap, ◌∙◌}
use mathlib.Core.Logic.{◌≢◌, inl, inr}
use mathlib.Core.Bool.{false}
use mathlib.Core.List.{[], ◌∷◌, ◌++◌, append-nil, append_assoc}
use native.Mathlib.Omega.{arith}
use pc_communication_protoco.Prelude.Tests.{Text, ◌==◌, Bool-cases}
use pc_communication_protoco.Prelude.Lists.{All, drop}
use pc_communication_protoco.Prelude.Decimal.{c_str}

abbrev pub NoNul : Text → Type 0
NoNul = All (λ b. b ≢ 0)

pub c_str-append : (xs ys : Text) → NoNul xs → c_str (xs ++ ys) ≡ xs ++ c_str ys
unfolding c_str
c_str-append [] ys h = refl
c_str-append (x ∷ xs) ys h =
    let more : (x == 0) ≡ false = ground arith in
    rw more (ap (λ (t : Text). x ∷ t) (c_str-append xs ys h.1))

pub c_str-NoNul_eq : (t : Text) → NoNul t → c_str t ≡ t
unfolding c_str
c_str-NoNul_eq t h = ap c_str (sym (append-nil t)) ∙ c_str-append t [] h ∙ append-nil t

-- A string with its terminator, in front of anything.
pub c_str-text : (t rest : Text) → NoNul t → c_str (t ++ 0 ∷ [] ++ rest) ≡ t
unfolding c_str
c_str-text t rest h =
    ap c_str (append_assoc t (0 ∷ []) rest) ∙ c_str-append t (0 ∷ rest) h ∙ append-nil t

pub c_str-NoNul : (t : Text) → NoNul (c_str t)
unfolding c_str
c_str-NoNul [] = tt
c_str-NoNul (b ∷ t) = elim (Bool-cases (b == 0)) [
  | inl nul ↦ rw nul tt
  | inr other ↦ rw other (ground (arith, other), c_str-NoNul t)
]

pub drop-NoNul : (n : ℕ) (t : Text) → NoNul t → NoNul (drop n t)
drop-NoNul zero t h = h
drop-NoNul (suc n) [] h = tt
drop-NoNul (suc n) (b ∷ t) h = drop-NoNul n t h.1
