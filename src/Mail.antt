-- ===== src/Mail.antt =====
-- The mail client `labs/E-mail-lab11/send_mail.c`. What `read` gives for one byte is a list: after it
-- the connection is closed. The results of `write` are not looked at.
pub mod Lines
pub mod Dialogue
mod Examples
use pc_communication_protoco.Prelude.{
  ℕ, zero, suc, ◌+◌, ◌-◌, Bool, true, false, Option, none, some, List, [], ◌∷◌, ◌++◌, Text, ◌==◌,
  if◌then◌else◌, c_str, Run, ok, died, fault, ◌>>=◌, codes,
}
use pc_communication_protoco.Http.Request.{crlf, strcat, sprintf}
use pc_communication_protoco.Web.{begins}

abbrev pub maxlen : ℕ
maxlen = 500

-- A byte, a call that a signal interrupted, or an error.
pub data ReadResult : Type 0 where
  got : ℕ → ReadResult
  interrupted failed : ReadResult

abbrev pub Reads : Type 0
Reads = List ReadResult

-- What `read_line` returns, the string in the buffer, and what is unread. A result 0 leaves the
-- buffer as it was.
pub data LineRead : Type 0 where
  error : LineRead
  closed : Reads → LineRead
  line : ℕ → Text → Reads → LineRead

-- The loop, with so many rounds left; `n` is its counter and `buffer` what it has stored.
unfoldable pub read_bytes : ℕ → ℕ → Text → Reads → LineRead
read_bytes zero n buffer reads = line n buffer reads
read_bytes (suc left) n buffer [] = if n == 1 then closed [] else line n buffer []
read_bytes (suc left) n buffer (failed ∷ reads) = error
read_bytes (suc left) n buffer (interrupted ∷ reads) = read_bytes left (suc n) buffer reads
read_bytes (suc left) n buffer (got c ∷ reads) =
    let rest = read_bytes left (suc n) (buffer ++ c ∷ []) reads in
    if c == 10 then line n (buffer ++ c ∷ []) reads else rest

unfoldable pub read_line : ℕ → Reads → LineRead
unfolding read_bytes
read_line max reads = read_bytes (max - 1) 1 [] reads

-- The string that `send_command` looks at: with -1 it writes in front of its buffer.
unfoldable pub reply : LineRead → Run (Text × Reads)
reply error = fault
reply (closed reads) = ok ([], reads)
reply (line n text reads) = ok (c_str text, reads)

-- What was written to the socket, and what is unread. `strstr(recvbuf, expected) != recvbuf` is that
-- the reply does not begin with `expected`.
unfoldable pub send_command : Text → Text → Reads → Run (Text × Reads)
unfolding read_line reply
send_command sendbuf expected reads = do
  (recvbuf, unread) ← reply (read_line (maxlen - 1) reads)
  if begins expected recvbuf then ok (sendbuf ++ crlf, unread) else died

-- One command after the other.
unfoldable pub send_commands : List (Text × Text) → Reads → Run (Text × Reads)
unfolding send_command
send_commands [] reads = ok ([], reads)
send_commands ((sendbuf, expected) ∷ script) reads = do
  (sent, unread) ← send_command sendbuf expected reads
  (more, unread') ← send_commands script unread
  ok (sent ++ more, unread')

-- The parts of the mail, which `strcat` puts one behind the other.
abbrev pub mail_parts : List Text
mail_parts =
    (codes "From: Student Studentescu <student@upb.ro>" ++ crlf)
    ∷ (codes "To: Profesor PC <profesor@upb.ro>" ++ crlf)
    ∷ (codes "Subject: Re: Tema" ++ crlf)
    ∷ (codes "Content-Type: multipart/mixed; boundary=abc" ++ crlf ++ crlf)
    ∷ (codes "--abc" ++ crlf)
    ∷ (codes "Content-Type: text/plain" ++ crlf ++ crlf)
    ∷ (codes "Atasez tema." ++ crlf ++ crlf)
    ∷ (codes "Cu bine," ++ crlf)
    ∷ (codes "Studentul" ++ crlf ++ crlf)
    ∷ (codes "--abc" ++ crlf)
    ∷ (codes "Content-Type: text/plain" ++ crlf)
    ∷ (codes "Content-Disposition: attachment; filename="
        ++ 34 ∷ codes "file.txt"
        ++ 34 ∷ crlf
        ++ crlf)
    ∷ (codes "This is an attachment." ++ crlf)
    ∷ (codes "--abc" ++ crlf)
    ∷ codes "."
    ∷ []

unfoldable pub strcat_all : Text → List Text → Run Text
unfolding strcat
strcat_all sendbuf [] = ok sendbuf
strcat_all sendbuf (part ∷ parts) = do
  sendbuf' ← strcat maxlen sendbuf part
  strcat_all sendbuf' parts

unfoldable pub mail_text : Run Text
unfolding sprintf strcat_all
mail_text = do
  sendbuf ← sprintf maxlen (codes "MIME-Version: 1.0" ++ crlf)
  strcat_all sendbuf mail_parts

abbrev pub script : Text → List (Text × Text)
script mail =
    (codes "HELO localhost", codes "250")
    ∷ (codes "MAIL FROM: <student@upb.ro>", codes "250")
    ∷ (codes "RCPT TO: <profesor@upb.ro>", codes "250")
    ∷ (codes "DATA", codes "354")
    ∷ (mail, codes "250")
    ∷ (codes "QUIT", codes "221")
    ∷ []

-- The first line is printed: with nothing stored, or no terminator, that reads unwritten memory.
unfoldable pub greeting : LineRead → Run Reads
greeting error = fault
greeting (closed reads) = fault
greeting (line n text reads) = ok reads

-- `main` once it is connected.
unfoldable pub send_mail : Reads → Run (Text × Reads)
unfolding greeting read_line mail_text send_commands
send_mail reads = do
  unread ← greeting (read_line (maxlen - 1) reads)
  mail ← mail_text
  send_commands (script mail) unread
