-- ===== src/Backup/Files.antt =====
-- What the server makes of the files that the client sends.
use pc_communication_protoco.Prelude.{
  NoNul, ℕ, zero, suc, ◌+◌, ◌-◌, ◌*◌, ◌≤◌, ◌<◌, ◌≡◌, refl, ap, ◌∙◌, false, Bool-cases, inl, inr,
  some, List, [], ◌∷◌, ◌++◌, Text, ◌==◌, length, take, take_all, drop, All, Run, ok, ◌>>=◌, codes,
  decimal, atoi, atoi-decimal, read_digits, is_digit, arith,
}
use pc_communication_protoco.Http.Request.{sprintf}
use pc_communication_protoco.Http.Request.Lines.{sprintf-ok}
use pc_communication_protoco.Web.{begins, strncpy_bytes}
use pc_communication_protoco.Backup.{
  buflen, end_mark, File, send_chunks, send_files, client, receive, string_in, new_name,
  serve_files, server, atoi_in,
}
use pc_communication_protoco.Backup.Chunks.{Unmarked, receive-short, receive_data-chunks}

string_in-append : (t rest : Text) → NoNul t → string_in (t ++ 0 ∷ rest) ≡ ok t
unfolding string_in
string_in-append [] rest h = refl
string_in-append (b ∷ t) rest h =
    let more : (b == 0) ≡ false = ground arith in rw (more, string_in-append t rest h.1) refl

-- What the client may send: the name is a C string of at least seven bytes, and neither it nor the
-- name of the copy is too long.
abbrev pub IsFile : File → Type 0
IsFile (name, contents) =
    NoNul name
    × (length name < buflen)
    × (7 + length (drop 7 name) < buflen)
    × (7 ≤ length name)
    × Unmarked (send_chunks (suc (length contents)) contents)

abbrev pub copy_name : Text → Text
copy_name name = codes "server_" ++ drop 7 name

abbrev pub copies : List File → List File
copies [] = []
copies ((name, contents) ∷ files) = (copy_name name, contents) ∷ copies files

drop-front : (n : ℕ) (t rest : Text) → n ≤ length t → drop n (t ++ rest) ≡ drop n t ++ rest
drop-front zero t rest le = refl
drop-front (suc n) [] rest le = absurd (omega arith)
drop-front (suc n) (b ∷ t) rest le = drop-front n t rest (omega arith)

drop-NoNul_lem : (n : ℕ) (t : Text) → NoNul t → NoNul (drop n t)
drop-NoNul_lem zero t h = h
drop-NoNul_lem (suc n) [] h = tt
drop-NoNul_lem (suc n) (b ∷ t) h = drop-NoNul_lem n t h.1

strncpy_bytes-front :
    (name rest : Text) → NoNul name → strncpy_bytes (length name) (name ++ rest) ≡ name
unfolding strncpy_bytes
strncpy_bytes-front [] rest h = refl
strncpy_bytes-front (b ∷ name) rest h =
    let more : (b == 0) ≡ false = ground arith in
    rw more (ap (λ (t : Text). b ∷ t) (strncpy_bytes-front name rest h.1))

-- With a terminator behind the name in `nF`, the name of the copy is as meant.
new_name-copy :
    (nf buf name behind : Text)
    → NoNul name
    → length name < buflen
    → 7 + length (drop 7 name) < buflen
    → 7 ≤ length name
    → drop (length name) nf ≡ 0 ∷ behind
    → new_name nf (receive buf name) (length (take buflen name)) ≡ ok (copy_name name)
unfolding new_name
new_name-copy nf buf name behind text short fits long ended =
    let whole : take buflen name ≡ name = take_all buflen name (omega arith) in
    let now = receive-short buf name (omega arith) in
    let copied : strncpy_bytes (length (take buflen name)) (receive buf name) ≡ name =
      ap (λ (t : Text). strncpy_bytes (length t) (receive buf name)) whole
      ∙ ap (strncpy_bytes (length name)) now
      ∙ strncpy_bytes-front name (drop (length name) buf) text in
    let array : strncpy_bytes (length (take buflen name)) (receive buf name)
          ++ drop (length (take buflen name)) nf
        ≡ name ++ 0 ∷ behind =
      ap (λ (t : Text). t ++ drop (length (take buflen name)) nf) copied
      ∙ ap (λ (t : Text). name ++ drop (length t) nf) whole
      ∙ ap (λ (t : Text). name ++ t) ended in
    let read : string_in (drop 7 (name ++ 0 ∷ behind)) ≡ ok (drop 7 name) =
      ap string_in (drop-front 7 name (0 ∷ behind) long)
      ∙ string_in-append (drop 7 name) behind (drop-NoNul_lem 7 name text) in
    ap (λ (t : Text). string_in (drop 7 t) >>= λ n. sprintf buflen (codes "server_" ++ n)) array
    ∙ ap (λ (m : Run Text). m >>= λ n. sprintf buflen (codes "server_" ++ n)) read
    ∙ sprintf-ok buflen (copy_name name) (omega arith)

-- Every array `nF` holds a terminator behind the name that is copied into it.
abbrev pub Ended : (ℕ → Text) → ℕ → List File → Type 0
Ended nf i [] = Unit
Ended nf i ((name, contents) ∷ files) =
    ((behind : Text) × (drop (length name) (nf i) ≡ 0 ∷ behind)) × Ended nf (suc i) files

-- The datagrams for the files, all of which may be sent.
abbrev pub datagrams_of : List File → List Text
datagrams_of [] = []
datagrams_of ((name, contents) ∷ files) =
    name ∷ (send_chunks (suc (length contents)) contents ++ (end_mark ∷ datagrams_of files))

send_files-ok : (files : List File) → All IsFile files → send_files files ≡ ok (datagrams_of files)
unfolding send_files
send_files-ok [] good = refl
send_files-ok ((name, contents) ∷ files) good =
    rw (sprintf-ok buflen name good.0.1, send_files-ok files good.1) refl

serve_files-copies :
    (nf : ℕ → Text) (files : List File) (i : ℕ) (buf : Text)
    → All IsFile files
    → Ended nf i files
    → serve_files nf (length files) i buf (datagrams_of files) ≡ ok (some (copies files))
unfolding serve_files
serve_files-copies nf [] i buf good ended = refl
serve_files-copies nf ((name, contents) ∷ files) i buf ((text, short, fits, long, plain), good)
      ((behind, e), ended) =
    let (buf', received) =
      receive_data-chunks (suc (length contents)) (receive buf name) contents (datagrams_of files)
        (omega arith) plain in
    rw
      (
        new_name-copy (nf i) buf name behind text short fits long e,
        received,
        serve_files-copies nf files (suc i) buf' good ended,
      )
      refl

-- In memory where something that is no digit follows, `atoi` is what it is on texts.
atoi_in-read_digits :
    (acc : ℕ) (bs : Text) (x : ℕ) (rest : Text)
    → is_digit x ≡ false
    → atoi_in acc (bs ++ x ∷ rest) ≡ ok (read_digits acc (bs ++ x ∷ rest))
unfolding atoi_in read_digits
atoi_in-read_digits acc [] x rest stop = rw stop refl
atoi_in-read_digits acc (b ∷ bs) x rest stop = elim (Bool-cases (is_digit b)) [
  | inl digit ↦ rw digit (atoi_in-read_digits (acc * 10 + (b - 48)) bs x rest stop)
  | inr other ↦ rw other refl
]

atoi_in-count :
    (n x : ℕ) (buf rest : Text)
    → is_digit x ≡ false
    → length (decimal n) ≤ buflen
    → drop (length (decimal n)) buf ≡ x ∷ rest
    → atoi_in 0 (receive buf (decimal n)) ≡ ok n
unfolding atoi
atoi_in-count n x buf rest stop fits e =
    ap (atoi_in 0) (receive-short buf (decimal n) fits ∙ ap (λ (t : Text). decimal n ++ t) e)
    ∙ atoi_in-read_digits 0 (decimal n) x rest stop
    ∙ ap ok (atoi-decimal n (x ∷ rest) stop)

module _ (nf : ℕ → Text) (buf : Text) (x : ℕ) (rest : Text) (files : List File)
    (stop : is_digit x ≡ false) (fits : length (decimal (length files)) ≤ buflen)
    (behind : drop (length (decimal (length files))) buf ≡ x ∷ rest) where
  -- The server writes each file that the client sends, in order and with the same contents, under
  -- its name with `server_` in place of the first seven bytes. The names have seven bytes or more,
  -- no zero byte, and fit the buffers; no chunk of a file begins as the end mark does; the arrays
  -- of the names have a zero behind each name, and the buffer a byte that is no digit behind the
  -- number of files.
  pub client-server :
      All IsFile files
      → Ended nf 0 files
      → (client files >>= server nf buf) ≡ ok (some (copies files))
  unfolding client server
  client-server good ended =
      rw
        (
          send_files-ok files good,
          atoi_in-count (length files) x buf rest stop fits behind,
          serve_files-copies nf files 0 (receive buf (decimal (length files))) good ended,
        )
        refl

-- A file that begins with the first seven bytes of the end mark, sent alone, is written as an empty
-- file. Its name has seven bytes or more, no zero byte, and fits the buffers; the array of the name
-- has a zero behind it, and the buffer a byte that is no digit behind the number of files.
pub server-marked :
    (nf : ℕ → Text) (buf name contents behind more : Text) (x : ℕ)
    → is_digit x ≡ false
    → drop 1 buf ≡ x ∷ more
    → NoNul name
    → length name < buflen
    → 7 + length (drop 7 name) < buflen
    → 7 ≤ length name
    → drop (length name) (nf 0) ≡ 0 ∷ behind
    → (client ((name, take 7 end_mark ++ contents) ∷ []) >>= server nf buf)
      ≡ ok (some ((copy_name name, []) ∷ []))
unfolding client server decimal begins
server-marked nf buf name contents behind more x stop count text short fits long ended =
    rw
      (
        sprintf-ok buflen name short,
        atoi_in-count 1 x buf more stop (omega arith) count,
        new_name-copy (nf 0) (receive buf (decimal 1)) name behind text short fits long ended,
      )
      refl
