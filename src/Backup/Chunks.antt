-- ===== src/Backup/Chunks.antt =====
-- The parts of a file on their way.
use pc_communication_protoco.Prelude.{
  ℕ, zero, suc, ◌-◌, ◌≤◌, ◌<◌, ◌≡◌, refl, ap, ◌∙◌, Bool, true, false, Bool-cases, inl, inr, some,
  List, [], ◌∷◌, ◌++◌, Text, ◌==◌, if◌then◌else◌, length, length-take, take, take_all,
  take-append-drop, drop, All, arith,
}
use pc_communication_protoco.Web.{begins}
use pc_communication_protoco.Backup.{buflen, end_mark, send_chunks, receive, receive_data}

-- Whether the texts are different at a place that both have.
unfoldable pub differs : Text → Text → Bool
differs [] bs = false
differs (w ∷ word) [] = false
differs (w ∷ word) (b ∷ bs) = if w == b then differs word bs else true

begins-differs : (word bs rest : Text) → differs word bs ≡ true → begins word (bs ++ rest) ≡ false
unfolding differs begins
begins-differs [] bs rest h = absurd (cc)
begins-differs (w ∷ word) [] rest h = absurd (cc)
begins-differs (w ∷ word) (b ∷ bs) rest h = elim (Bool-cases (w == b)) [
  | inl same ↦ rw same (begins-differs word bs rest (ground (arith, same)))
  | inr other ↦ rw other refl
]

-- No part of the file looks like the end mark.
abbrev pub Unmarked : List Text → Type 0
Unmarked = All (λ chunk. differs (take 7 end_mark) chunk ≡ true)

pub receive-short :
    (buf datagram : Text)
    → length datagram ≤ buflen
    → receive buf datagram ≡ datagram ++ drop (length datagram) buf
unfolding receive
receive-short buf datagram fits = rw (take_all buflen datagram fits) refl

pub take-front : (bs rest : Text) → take (length bs) (bs ++ rest) ≡ bs
take-front [] rest = refl
take-front (b ∷ bs) rest = ap (λ (t : Text). b ∷ t) (take-front bs rest)

pub receive_data-chunk :
    (buf chunk : Text) (datagrams : List Text)
    → length chunk ≤ buflen
    → differs (take 7 end_mark) chunk ≡ true
    → {contents buf' : Text} {left : List Text}
    → receive_data (receive buf chunk) datagrams ≡ some (contents, buf', left)
    → receive_data buf (chunk ∷ datagrams) ≡ some (chunk ++ contents, buf', left)
unfolding receive_data
receive_data-chunk buf chunk datagrams fits plain {contents} {buf'} {left} e =
    let mark = take 7 end_mark in
    let whole : take buflen chunk ≡ chunk = take_all buflen chunk fits in
    let now = receive-short buf chunk fits in
    let other : begins mark (receive buf chunk) ≡ false =
      ap (begins mark) now ∙ begins-differs mark chunk (drop (length chunk) buf) plain in
    let part : take (length (take buflen chunk)) (receive buf chunk) ≡ chunk =
      ap (λ (t : Text). take (length t) (receive buf chunk)) whole
      ∙ ap (take (length chunk)) now
      ∙ take-front chunk (drop (length chunk) buf) in
    rw (other, e) (ap (λ (t : Text). some (t ++ contents, buf', left)) part)

pub receive_data-end :
    (buf : Text) (datagrams : List Text)
    → receive_data buf (end_mark ∷ datagrams) ≡ some ([], receive buf end_mark, datagrams)
unfolding receive_data begins
receive_data-end buf datagrams = refl

length-take-le : (n : ℕ) (t : Text) → length (take n t) ≤ n
length-take-le n t = omega (arith, length-take n t)

length-drop_lem : (n : ℕ) (t : Text) → length (drop n t) ≡ length t - n
length-drop_lem zero t = omega arith
length-drop_lem (suc n) [] = omega arith
length-drop_lem (suc n) (b ∷ t) = omega (arith, length-drop_lem n t)

-- The parts of a file, put together again.
pub receive_data-chunks :
    (fuel : ℕ) (buf contents : Text) (more : List Text)
    → length contents < fuel
    → Unmarked (send_chunks fuel contents)
    → (buf' : Text) × (receive_data buf (send_chunks fuel contents ++ end_mark ∷ more)
        ≡ some (contents, buf', more))
unfolding send_chunks
receive_data-chunks zero buf contents more lt plain = absurd (omega arith)
receive_data-chunks (suc fuel) buf [] more lt plain =
    (receive buf end_mark, receive_data-end buf more)
receive_data-chunks (suc fuel) buf (b ∷ bs) more lt plain =
    let contents = b ∷ bs in
    let chunk = take buflen contents in
    let (buf', e) =
      receive_data-chunks fuel (receive buf chunk) (drop buflen contents) more
        (omega (arith, length-drop_lem buflen contents)) plain.1 in
    (
      buf',
      receive_data-chunk buf chunk (send_chunks fuel (drop buflen contents) ++ end_mark ∷ more)
            (length-take-le buflen contents) plain.0 e
          ∙ ap (λ (t : Text). some (t, buf', more)) (take-append-drop buflen contents),
    )
