-- ===== src/Mail/Lines.antt =====
-- Which bytes `read_line` takes.
use pc_communication_protoco.Prelude.{
  ℕ, zero, suc, ◌+◌, ◌-◌, ◌<◌, ◌≡◌, ◌≢◌, ap, ◌∙◌, false, [], ◌∷◌, ◌++◌, append-nil, append_assoc,
  Text, ◌==◌, length, All, arith,
}
use pc_communication_protoco.Mail.{got, Reads, line, read_bytes, read_line}

-- The bytes as they come in.
abbrev pub bytes_in : Text → Reads
bytes_in [] = []
bytes_in (b ∷ bs) = got b ∷ bytes_in bs

abbrev pub NoNewline : Text → Type 0
NoNewline = All (λ b. b ≢ 10)

-- A line that fits, ended by a newline.
read_bytes-line :
    (left n : ℕ) (buffer text : Text) (rest : Reads)
    → NoNewline text
    → length text < left
    → read_bytes left n buffer (bytes_in text ++ got 10 ∷ rest)
      ≡ line (n + length text) (buffer ++ (text ++ 10 ∷ [])) rest
unfolding read_bytes
read_bytes-line zero n buffer text rest plain fits = absurd (omega arith)
read_bytes-line (suc left) n buffer [] rest plain fits =
    ap (λ (k : ℕ). line k (buffer ++ 10 ∷ []) rest) (omega arith)
read_bytes-line (suc left) n buffer (b ∷ text) rest plain fits =
    let other : (b == 10) ≡ false = ground arith in
    rw other (
      read_bytes-line left (suc n) (buffer ++ b ∷ []) text rest plain.1 (omega arith)
      ∙ ap (λ (t : Text). line (suc n + length text) t rest)
          (append_assoc buffer (b ∷ []) (text ++ 10 ∷ []))
      ∙ ap (λ (k : ℕ). line k (buffer ++ (b ∷ (text ++ 10 ∷ []))) rest) (omega arith))

-- Bytes up to the end of the stream.
read_bytes-end :
    (left n : ℕ) (buffer text : Text)
    → NoNewline text
    → length text < left
    → 1 < n + length text
    → read_bytes left n buffer (bytes_in text) ≡ line (n + length text) (buffer ++ text) []
unfolding read_bytes
read_bytes-end zero n buffer text plain fits some_bytes = absurd (omega arith)
read_bytes-end (suc left) n buffer [] plain fits some_bytes =
    let later : (n == 1) ≡ false = ground arith in
    rw (later, append-nil buffer) (ap (λ (k : ℕ). line k buffer []) (omega arith))
read_bytes-end (suc left) n buffer (b ∷ text) plain fits some_bytes =
    let other : (b == 10) ≡ false = ground arith in
    rw other (
      read_bytes-end left (suc n) (buffer ++ b ∷ []) text plain.1 (omega arith) (omega arith)
      ∙ ap (λ (t : Text). line (suc n + length text) t []) (append_assoc buffer (b ∷ []) text)
      ∙ ap (λ (k : ℕ). line k (buffer ++ (b ∷ text)) []) (omega arith))

-- More bytes than there is room for.
read_bytes-full :
    (left n : ℕ) (buffer text : Text) (rest : Reads)
    → NoNewline text
    → length text ≡ left
    → read_bytes left n buffer (bytes_in text ++ rest) ≡ line (n + left) (buffer ++ text) rest
unfolding read_bytes
read_bytes-full zero n buffer [] rest plain e =
    rw (append-nil buffer) (ap (λ (k : ℕ). line k buffer rest) (omega arith))
read_bytes-full zero n buffer (b ∷ text) rest plain e = absurd (omega arith)
read_bytes-full (suc left) n buffer [] rest plain e = absurd (omega arith)
read_bytes-full (suc left) n buffer (b ∷ text) rest plain e =
    let other : (b == 10) ≡ false = ground arith in
    rw other (
      read_bytes-full left (suc n) (buffer ++ b ∷ []) text rest plain.1 (omega arith)
      ∙ ap (λ (t : Text). line (suc n + left) t rest) (append_assoc buffer (b ∷ []) text)
      ∙ ap (λ (k : ℕ). line k (buffer ++ (b ∷ text)) rest) (omega arith))

-- A line that fits is read with its newline, its length is returned, and the rest is unread.
pub read_line-line :
    (max : ℕ) (text : Text) (rest : Reads)
    → NoNewline text
    → length text + 1 < max
    → read_line max (bytes_in text ++ got 10 ∷ rest) ≡ line (length text + 1) (text ++ 10 ∷ []) rest
unfolding read_line
read_line-line max text rest plain fits =
    read_bytes-line (max - 1) 1 [] text rest plain (omega arith)
    ∙ ap (λ (k : ℕ). line k (text ++ 10 ∷ []) rest) (omega arith)

-- Without a newline, at the end of the stream or when the buffer is full, the returned number is
-- one more than that of the bytes read.
pub read_line-one_more :
    (max : ℕ) (text : Text) (rest : Reads)
    → NoNewline text
    → 0 < length text
    → (length text + 1 < max → read_line max (bytes_in text) ≡ line (length text + 1) text [])
      × (length text + 1 ≡ max
          → read_line max (bytes_in text ++ rest) ≡ line (length text + 1) text rest)
unfolding read_line
read_line-one_more max text rest plain some_bytes = (
  λ fits.
      read_bytes-end (max - 1) 1 [] text plain (omega (arith, fits)) (omega arith)
      ∙ ap (λ (k : ℕ). line k text []) (omega arith),
  λ full.
      read_bytes-full (max - 1) 1 [] text rest plain (omega (arith, full))
      ∙ ap (λ (k : ℕ). line k text rest) (omega (arith, full)),
)
