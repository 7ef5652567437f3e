-- ===== src/Http/Find.antt =====
-- The two searches of `buffer.c` against occurrences.
use mathlib.Core.Path.{subst}
use pc_communication_protoco.Prelude.{
  ℕ, zero, suc, ◌+◌, ◌-◌, ◌%◌, lt→ltb, ◌≤◌, ◌<◌, ◌≡◌, refl, ap, ◌∙◌, true, false, Bool-cases, inl,
  inr, ◌⊎◌, Option, none, some, [], ◌∷◌, Text, ◌==◌, ltb, length, drop, ok, arith,
}
use pc_communication_protoco.Http.{
  Buffer, buffer, as_int, same_bytes, find_from, buffer_find_by, buffer_find,
  buffer_find_insensitive, tolower,
}

-- The wanted bytes stand at the front of these, both read by `fold`.
abbrev pub StartsWith : (ℕ → ℕ) → Text → Text → Type 0
StartsWith fold [] bytes = Unit
StartsWith fold (y ∷ wanted) [] = ⊥
StartsWith fold (y ∷ wanted) (x ∷ bytes) = (fold x ≡ fold y) × StartsWith fold wanted bytes

abbrev pub Occurs : (ℕ → ℕ) → Text → Text → ℕ → Type 0
Occurs fold wanted bytes i = StartsWith fold wanted (drop i bytes)

-- What a search says: the first occurrence, or that there is none.
abbrev pub FirstOf : (ℕ → ℕ) → Text → Text → Option ℕ → Type 0
FirstOf fold wanted bytes none =
    (i : ℕ) → i + length wanted ≤ length bytes → Occurs fold wanted bytes i → ⊥
FirstOf fold wanted bytes (some i) =
    Occurs fold wanted bytes i × ((k : ℕ) → k < i → Occurs fold wanted bytes k → ⊥)

same_bytes-decides :
    (fold : ℕ → ℕ) (wanted bytes : Text)
    → length wanted ≤ length bytes
    → ((same_bytes fold (length wanted) bytes wanted ≡ ok true) × StartsWith fold wanted bytes)
      ⊎ ((same_bytes fold (length wanted) bytes wanted ≡ ok false)
          × (StartsWith fold wanted bytes → ⊥))
unfolding same_bytes
same_bytes-decides fold [] bytes fits = inl (refl, tt)
same_bytes-decides fold (y ∷ wanted) [] fits = absurd (omega arith)
same_bytes-decides fold (y ∷ wanted) (x ∷ bytes) fits = elim (Bool-cases (fold x == fold y)) [
  | inr other ↦ inr (rw other, λ (same, _). ground arith)
  | inl same ↦ elim (same_bytes-decides fold wanted bytes (omega arith)) [
    | inl (e, starts) ↦ inl (rw same e, (ground arith, starts))
    | inr (e, miss) ↦ inr (rw same e, λ (_, starts). miss starts)
  ]
]

-- A result for the bytes from the second on, told of all the bytes, which do not start with the
-- wanted ones.
abbrev Outcome : (ℕ → ℕ) → Text → Text → ℕ → Option ℕ → Type 0
Outcome fold wanted bytes i r =
    ((r ≡ none) × FirstOf fold wanted bytes none)
    ⊎ ((k : ℕ) × (r ≡ some (i + k)) × FirstOf fold wanted bytes (some k))

Outcome-later :
    (fold : ℕ → ℕ) (wanted : Text) (x : ℕ) (bytes : Text) (i : ℕ) (r : Option ℕ)
    → (StartsWith fold wanted (x ∷ bytes) → ⊥)
    → Outcome fold wanted bytes (i + 1) r
    → Outcome fold wanted (x ∷ bytes) i r
Outcome-later fold wanted x bytes i r miss (inl (e, nowhere)) = inl (e, λ k. absent k)
  where
    absent : (k : ℕ) → k + length wanted ≤ length (x ∷ bytes) → Occurs fold wanted (x ∷ bytes) k → ⊥
    absent zero inside occurs = miss occurs
    absent (suc k) inside occurs = nowhere k (omega arith) occurs
Outcome-later fold wanted x bytes i r miss (inr (k, e, (occurs, first))) =
    inr (suc k, e ∙ ap some (omega arith), (occurs, before))
  where
    before : (j : ℕ) → j < suc k → Occurs fold wanted (x ∷ bytes) j → ⊥
    before zero less here = miss here
    before (suc j) less here = first j (omega arith) here

find_from-first :
    (fold : ℕ → ℕ) (wanted : Text) (tries i : ℕ) (bytes : Text)
    → tries + length wanted ≡ length bytes + 1
    → (r : Option ℕ) × (find_from fold tries i bytes wanted (length wanted) ≡ ok r)
      × Outcome fold wanted bytes i r
unfolding find_from
find_from-first fold wanted zero i bytes fits = (none, refl, inl (refl, λ k inside _. omega arith))
find_from-first fold [] (suc tries) i [] fits =
    (some i, refl, inr (0, ap some (omega arith), (tt, λ k less _. omega arith)))
find_from-first fold (y ∷ wanted) (suc tries) i [] fits = absurd (omega arith)
find_from-first fold wanted (suc tries) i (x ∷ bytes) fits =
    elim (same_bytes-decides fold wanted (x ∷ bytes) (omega arith)) [
      | inl (e, starts) ↦ (
        some i,
        rw (e, same_bytes),
        inr (0, ap some (omega arith), (starts, λ k less _. omega arith)),
      )
      | inr (e, miss) ↦
          (let (r, e', found) = find_from-first fold wanted tries (i + 1) bytes (omega arith) in
            (r, rw (e, same_bytes) e', Outcome-later fold wanted x bytes i r miss found))
    ]

-- A buffer that is consistent: `size` bytes, and NULL only for none.
abbrev pub IsBuffer : Buffer → Type 0
IsBuffer b = elim b.contents [ none ↦ b.size ≡ 0 | some d ↦ b.size ≡ length d ]

-- A search finds the first occurrence or that there is none, and returns it as an `int`.
pub buffer_find_by-found :
    (fold : ℕ → ℕ) (d wanted : Text)
    → (r : Option ℕ) × (buffer_find_by fold (buffer (some d) (length d)) wanted (length wanted)
        ≡ ok (as_int r))
      × FirstOf fold wanted d r
unfolding buffer_find_by as_int
buffer_find_by-found fold d wanted = elim (Bool-cases (ltb (length d) (length wanted))) [
  | inl long ↦ (none, rw long, λ i inside _. ground arith)
  | inr fits ↦
      (let (r, e, found) =
          find_from-first fold wanted (length d - length wanted + 1) 0 d (ground arith) in
        (r, rw (fits, e), told r found))
]
  where
    told : (r : Option ℕ) → Outcome fold wanted d 0 r → FirstOf fold wanted d r
    told none (inl (e, nowhere)) = nowhere
    told none (inr (k, e, found)) = cc
    told (some k) (inl (e, nowhere)) = cc
    told (some j) (inr (k, e, found)) =
        let same : k ≡ j = ground arith in subst (λ t. FirstOf fold wanted d (some t)) same found

FirstOf-inside :
    (fold : ℕ → ℕ) (wanted bytes : Text) (i : ℕ)
    → 0 < length wanted
    → Occurs fold wanted bytes i
    → i < length bytes
FirstOf-inside fold [] bytes i some_bytes occurs = absurd (omega arith)
FirstOf-inside fold (y ∷ wanted) [] zero some_bytes occurs = absurd occurs
FirstOf-inside fold (y ∷ wanted) [] (suc i) some_bytes occurs = absurd occurs
FirstOf-inside fold (y ∷ wanted) (x ∷ bytes) zero some_bytes occurs = omega arith
FirstOf-inside fold (y ∷ wanted) (x ∷ bytes) (suc i) some_bytes occurs =
    let inside = FirstOf-inside fold (y ∷ wanted) bytes i some_bytes occurs in omega arith

-- On a buffer with data of fewer than 2 ^ 31 bytes whose size is the data's length, `buffer_find`
-- and `buffer_find_insensitive`, asked for at least one byte, return the first position where the
-- wanted bytes stand, the second one in any case of the letters, or the answer that they stand
-- nowhere.
pub buffer_find-first :
    (d wanted : Text)
    → 0 < length wanted
    → length d < 2147483648
    → let b = buffer (some d) (length d) in
      ((r : Option ℕ) × (buffer_find b wanted (length wanted) ≡ ok r) × FirstOf (λ c. c) wanted d r)
      × ((r : Option ℕ) × (buffer_find_insensitive b wanted (length wanted) ≡ ok r)
          × FirstOf tolower wanted d r)
unfolding buffer_find buffer_find_insensitive
buffer_find-first d wanted some_bytes small = (search_by (λ c. c), search_by tolower)
  where
    exact : (fold : ℕ → ℕ) (r : Option ℕ) → FirstOf fold wanted d r → as_int r ≡ r
    exact fold none found = unfold as_int in refl
    exact fold (some i) found =
        let inside : i < length d = FirstOf-inside fold wanted d i some_bytes found.0 in
        let low : i % 4294967296 ≡ i = omega arith in
        let positive : ltb i 2147483648 ≡ true = lt→ltb i 2147483648 (omega arith) in
        unfold as_int in rw (low, positive)

    search_by :
        (fold : ℕ → ℕ)
        → (r : Option ℕ) × (buffer_find_by fold (buffer (some d) (length d)) wanted (length wanted)
            ≡ ok r)
          × FirstOf fold wanted d r
    search_by fold =
        let (r, e, found) = buffer_find_by-found fold d wanted in
        (r, e ∙ ap ok (exact fold r found), found)
