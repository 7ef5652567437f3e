-- ===== src/Link/Param/Value.antt =====
-- The text that `atof` gets for a value.
use pc_communication_protoco.Prelude.{
  NoNul, ℕ, zero, suc, ◌+◌, ◌≤◌, ◌<◌, ◌≡◌, ◌≢◌, refl, sym, ap, ◌∙◌, false, some, [], ◌∷◌, ◌++◌,
  append-nil, append_assoc, Text, ◌==◌, lt→ltb, length, length-append, take, drop, All, All-append,
  Run, ok, fault, ◌>>=◌, arith,
}
use pc_communication_protoco.Link.Param.{
  ParamType, param_type, set_char, read_chars, Split, param, split_value, start_value, split_name,
  split_param,
}

-- Bytes of a name: no terminator and no `=`.
abbrev pub IsName : Text → Type 0
IsName = All (λ b. (b ≢ 0) × (b ≢ b'='))

take-length : (v rest : Text) → take (length v) (v ++ rest) ≡ v
take-length [] rest = refl
take-length (x ∷ v) rest = ap (λ (t : Text). x ∷ t) (take-length v rest)

drop-length : (v : Text) (x : ℕ) (rest : Text) → drop (suc (length v)) (v ++ x ∷ rest) ≡ rest
drop-length [] x rest = refl
drop-length (y ∷ v) x rest = drop-length v x rest

drop-end : (v : Text) → drop (suc (length v)) v ≡ []
drop-end [] = refl
drop-end (y ∷ v) = drop-end v

-- A byte written behind the last one.
set_char-end : (v : Text) (b : ℕ) → length v < 100 → set_char v (length v) b ≡ ok (v ++ b ∷ [])
unfolding set_char
set_char-end v b small = rw (lt→ltb (length v) 100 small) (
    ap (λ (t : Text). ok (t ++ b ∷ drop (suc (length v)) v))
      (ap (take (length v)) (sym (append-nil v)) ∙ take-length v [])
    ∙ ap (λ (t : Text). ok (v ++ b ∷ t)) (drop-end v))

-- A byte written over one that is there.
set_char-over :
    (v : Text) (x b : ℕ) (rest : Text)
    → length v < 100
    → set_char (v ++ x ∷ rest) (length v) b ≡ ok (v ++ b ∷ rest)
unfolding set_char
set_char-over v x b rest small =
    rw (lt→ltb (length v) 100 small, take-length v (x ∷ rest), drop-length v x rest)

read_chars-text : (v rest : Text) → NoNul v → read_chars (v ++ 0 ∷ rest) ≡ ok v
unfolding read_chars
read_chars-text [] rest no_nul = refl
read_chars-text (b ∷ v) rest no_nul =
    let more : (b == 0) ≡ false = ground arith in rw (more, read_chars-text v rest no_nul.1)

read_chars-open : (v : Text) → NoNul v → read_chars v ≡ fault
unfolding read_chars
read_chars-open [] no_nul = refl
read_chars-open (b ∷ v) no_nul =
    let more : (b == 0) ≡ false = ground arith in rw (more, read_chars-open v no_nul.1)

-- What follows once the value is written.
abbrev finished : ParamType → Text → Run Split
finished type c = read_chars c >>= λ text. ok (param (some type) text)

-- The value over the bytes of the name that are left, and their terminator.
split_value-over :
    (value done old : Text) (type : ParamType)
    → length value ≤ length old
    → length done + length value < 100
    → split_value value (done ++ (old ++ 0 ∷ [])) (length done) type
      ≡ finished type (done ++ (value ++ (drop (length value) old ++ 0 ∷ [])))
unfolding split_value
split_value-over [] done old type fits small = refl
split_value-over (b ∷ value) done [] type fits small = absurd (omega arith)
split_value-over (b ∷ value) done (x ∷ old) type fits small =
    let done' = done ++ b ∷ [] in
    let rest = old ++ 0 ∷ [] in
    let moved : length done + 1 ≡ length done' = omega (arith, length-append done (b ∷ [])) in
    rw (set_char-over done x b rest (omega (arith, small))) (
      ap (λ (n : ℕ). split_value value (done ++ b ∷ rest) n type) moved
      ∙ ap (λ (t : Text). split_value value t (length done') type)
          (sym (append_assoc done (b ∷ []) rest))
      ∙ split_value-over value done' old type (omega arith) (omega (arith, moved, small))
      ∙ ap (finished type)
          (append_assoc done (b ∷ []) (value ++ (drop (length value) old ++ 0 ∷ []))))

-- A value behind all that was written.
split_value-behind :
    (value done : Text) (type : ParamType)
    → length done + length value < 100
    → split_value value done (length done) type ≡ finished type (done ++ value)
unfolding split_value
split_value-behind [] done type small = ap (finished type) (sym (append-nil done))
split_value-behind (b ∷ value) done type small =
    let done' = done ++ b ∷ [] in
    let moved : length done + 1 ≡ length done' = omega (arith, length-append done (b ∷ [])) in
    rw (set_char-end done b (omega (arith, small))) (
      ap (λ (n : ℕ). split_value value done' n type) moved
      ∙ split_value-behind value done' type (omega (arith, moved, small))
      ∙ ap (finished type) (append_assoc done (b ∷ []) value))

-- A value over the bytes of the name that are left, over their terminator, and behind it.
split_value-beyond :
    (value done old : Text) (type : ParamType)
    → length old < length value
    → length done + length value < 100
    → split_value value (done ++ (old ++ 0 ∷ [])) (length done) type ≡ finished type (done ++ value)
unfolding split_value
split_value-beyond [] done old type longer small = absurd (omega arith)
split_value-beyond (b ∷ value) done [] type longer small =
    let done' = done ++ b ∷ [] in
    let moved : length done + 1 ≡ length done' = omega (arith, length-append done (b ∷ [])) in
    rw (set_char-over done 0 b [] (omega (arith, small))) (
      ap (λ (n : ℕ). split_value value done' n type) moved
      ∙ split_value-behind value done' type (omega (arith, moved, small))
      ∙ ap (finished type) (append_assoc done (b ∷ []) value))
split_value-beyond (b ∷ value) done (x ∷ old) type longer small =
    let done' = done ++ b ∷ [] in
    let rest = old ++ 0 ∷ [] in
    let moved : length done + 1 ≡ length done' = omega (arith, length-append done (b ∷ [])) in
    rw (set_char-over done x b rest (omega (arith, small))) (
      ap (λ (n : ℕ). split_value value (done ++ b ∷ rest) n type) moved
      ∙ ap (λ (t : Text). split_value value t (length done') type)
          (sym (append_assoc done (b ∷ []) rest))
      ∙ split_value-beyond value done' old type (omega arith) (omega (arith, moved, small))
      ∙ ap (finished type) (append_assoc done (b ∷ []) value))

-- The name is written, and the value starts over it.
split_name-value :
    (name done value : Text) (type : ParamType)
    → IsName name
    → NoNul done
    → length done + length name < 100
    → param_type (done ++ name) ≡ some type
    → split_name (name ++ b'=' ∷ value) done (length done)
      ≡ split_value value (done ++ name ++ 0 ∷ []) 0 type
unfolding split_name
split_name-value [] done value type names no_nul small known =
    let known' : param_type done ≡ some type = ap param_type (sym (append-nil done)) ∙ known in
    rw (
      set_char-end done 0 (omega (arith, small)),
      read_chars-text done [] no_nul,
      append-nil done,
      known',
      start_value,
    )
split_name-value (b ∷ name) done value type names no_nul small known =
    let done' = done ++ b ∷ [] in
    let other : (b == b'=') ≡ false = ground (arith, names.0.1) in
    let moved : length done + 1 ≡ length done' = omega (arith, length-append done (b ∷ [])) in
    let regroup = append_assoc done (b ∷ []) name in
    rw (other, set_char-end done b (omega (arith, small)))
      (ap (λ (n : ℕ). split_name (name ++ b'=' ∷ value) done' n) moved
        ∙ split_name-value name done' value type names.1
            (All-append (λ b. b ≢ 0) done (b ∷ []) no_nul (names.0.0, tt))
            (omega (arith, moved, small)) (ap param_type regroup ∙ known)
        ∙ ap (λ (t : Text). split_value value (t ++ 0 ∷ []) 0 type) regroup)

drop-NoNul : (n : ℕ) (name : Text) → IsName name → NoNul (drop n name)
drop-NoNul zero [] names = tt
drop-NoNul (suc n) [] names = tt
drop-NoNul zero (b ∷ name) names = (names.0.0, drop-NoNul zero name names.1)
drop-NoNul (suc n) (b ∷ name) names = drop-NoNul n name names.1

module _ (name value : Text) (type : ParamType) (names : IsName name) (no_nul : NoNul value) where
  -- Of a known name and a value, both shorter than 100 bytes without a zero, the name without a
  -- `=`, joined by `=`, `split_param` gives the type of the name; the text that it reads the value
  -- from is the value followed by what is left of the name behind the value's length, and a value
  -- longer than the name makes it read bytes that were never written.
  pub split_param-value :
      param_type name ≡ some type
      → length name < 100
      → length value < 100
      → (length value ≤ length name
          → split_param (name ++ b'=' ∷ value)
            ≡ ok (param (some type) (value ++ drop (length value) name)))
        × (length name < length value → split_param (name ++ b'=' ∷ value) ≡ fault)
  unfolding split_param
  split_param-value known short short' =
      let start = split_name-value name [] value type names tt (omega arith) known in
      let left = drop (length value) name in
      let text : finished type (value ++ (left ++ 0 ∷ []))
          ≡ ok (param (some type) (value ++ left)) =
        ap (finished type) (sym (append_assoc value left (0 ∷ [])))
        ∙ rw
            (read_chars-text (value ++ left) []
              (All-append (λ b. b ≢ 0) value left no_nul (drop-NoNul (length value) name names)))
            refl in
      (
        λ fits. start ∙ split_value-over value [] name type fits (omega arith) ∙ text,
        λ longer.
            start
            ∙ split_value-beyond value [] name type longer (omega arith)
            ∙ rw (read_chars-open value no_nul) refl,
      )
