-- ===== src/Http/Request/Lines.antt =====
-- Messages that are built of lines.
use pc_communication_protoco.Prelude.{
  ℕ, ◌+◌, ◌<◌, ◌≡◌, refl, sym, ap, ◌∙◌, List, [], ◌∷◌, ◌++◌, append-nil, append_assoc, Text, lt→ltb,
  length, length-append, ok, ◌>>=◌, arith,
}
use pc_communication_protoco.Http.Request.{buflen, crlf, strcat, sprintf}

-- Lines, each with its end.
abbrev pub lines_text : List Text → Text
lines_text [] = []
lines_text (l ∷ ls) = l ++ crlf ++ lines_text ls

lines_text-append : (xs ys : List Text) → lines_text (xs ++ ys) ≡ lines_text xs ++ lines_text ys
lines_text-append [] ys = refl
lines_text-append (x ∷ xs) ys =
    ap (λ (t : Text). x ++ crlf ++ t) (lines_text-append xs ys)
    ∙ sym (append_assoc (x ++ crlf) (lines_text xs) (lines_text ys))

pub length-lines_text :
    (xs ys : List Text)
    → length (lines_text (xs ++ ys)) ≡ length (lines_text xs) + length (lines_text ys)
length-lines_text xs ys =
    ap length (lines_text-append xs ys) ∙ length-append (lines_text xs) (lines_text ys)

pub strcat-ok : (room : ℕ) (s t : Text) → length s + length t < room → strcat room s t ≡ ok (s ++ t)
unfolding strcat
strcat-ok room s t fits = rw (lt→ltb (length s + length t) room fits)

pub sprintf-ok : (room : ℕ) (t : Text) → length t < room → sprintf room t ≡ ok t
unfolding sprintf
sprintf-ok room t fits = rw (lt→ltb (length t) room fits)

-- A line and its end behind a message.
pub append_line-ok :
    (m l : Text)
    → length m + length l + 2 < buflen
    → (strcat buflen m l >>= λ m'. strcat buflen m' crlf) ≡ ok (m ++ l ++ crlf)
append_line-ok m l fits =
    rw (strcat-ok buflen m l (omega arith))
      (strcat-ok buflen (m ++ l) crlf (omega (arith, length-append m l)))

-- One more line.
pub append_lines-ok :
    (ls : List Text) (l : Text)
    → length (lines_text (ls ++ l ∷ [])) < buflen
    → (strcat buflen (lines_text ls) l >>= λ m. strcat buflen m crlf)
      ≡ ok (lines_text (ls ++ l ∷ []))
append_lines-ok ls l fits =
    append_line-ok (lines_text ls) l (
      omega (
        arith,
        fits,
        length-lines_text ls (l ∷ []),
        length-append (l ++ crlf) [],
        length-append l crlf,
      ))
    ∙ ap ok (regroup ∙ sym (lines_text-append ls (l ∷ [])))
  where
    regroup : lines_text ls ++ l ++ crlf ≡ lines_text ls ++ (l ++ crlf ++ [])
    regroup =
        append_assoc (lines_text ls) l crlf
        ∙ ap (λ (t : Text). lines_text ls ++ t) (sym (append-nil (l ++ crlf)))

-- The same through a buffer for the line.
pub print_line-ok :
    (room : ℕ) (ls : List Text) (l : Text)
    → length l < room
    → length (lines_text (ls ++ l ∷ [])) < buflen
    → (do line ← sprintf room l; m ← strcat buflen (lines_text ls) line; strcat buflen m crlf)
      ≡ ok (lines_text (ls ++ l ∷ []))
print_line-ok room ls l short fits = rw (sprintf-ok room l short) (append_lines-ok ls l fits)

pub prefix-fits :
    (xs ys : List Text) → length (lines_text (xs ++ ys)) < buflen → length (lines_text xs) < buflen
prefix-fits xs ys fits = omega (arith, fits, length-lines_text xs ys)
