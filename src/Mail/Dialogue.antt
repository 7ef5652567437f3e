-- ===== src/Mail/Dialogue.antt =====
-- The dialogue with the server.
use pc_communication_protoco.Prelude.{
  ◌+◌, ◌<◌, ◌≡◌, refl, ap, ◌∙◌, true, false, List, [], ◌∷◌, ◌++◌, Text, if◌then◌else◌, length,
  c_str, ok, died, codes,
}
use pc_communication_protoco.Http.Request.{crlf}
use pc_communication_protoco.Web.{begins}
use pc_communication_protoco.Mail.{
  got, Reads, reply, send_command, send_commands, mail_parts, script, greeting, send_mail,
}
use pc_communication_protoco.Mail.Lines.{bytes_in, NoNewline, read_line-line}

-- A reply of one line.
abbrev pub IsLine : Text → Type 0
IsLine text = NoNewline text × (length text + 1 < 499)

-- The lines that the server sends.
abbrev pub line_in : Text → Reads → Reads
line_in text rest = bytes_in text ++ got 10 ∷ rest

abbrev pub lines_in : List Text → Reads → Reads
lines_in [] rest = rest
lines_in (text ∷ replies) rest = line_in text (lines_in replies rest)

-- Every command is answered by a line that begins as it is expected to.
abbrev pub Agrees : List (Text × Text) → List Text → Type 0
Agrees [] [] = Unit
Agrees [] (r ∷ replies) = ⊥
Agrees (command ∷ script) [] = ⊥
Agrees (command ∷ script) (r ∷ replies) =
    IsLine r × (begins command.1 (c_str (r ++ 10 ∷ [])) ≡ true) × Agrees script replies

-- The commands as they are written.
abbrev pub written : List (Text × Text) → Text
written [] = []
written (command ∷ script) = command.0 ++ crlf ++ written script

send_command-answered :
    (sendbuf expected text : Text) (rest : Reads)
    → IsLine text
    → send_command sendbuf expected (line_in text rest)
      ≡ (if begins expected (c_str (text ++ 10 ∷ [])) then ok (sendbuf ++ crlf, rest) else died)
unfolding send_command reply
send_command-answered sendbuf expected text rest is_line =
    rw (read_line-line 499 text rest is_line.0 is_line.1) refl

send_commands-answered :
    (script : List (Text × Text)) (replies : List Text) (rest : Reads)
    → Agrees script replies
    → send_commands script (lines_in replies rest) ≡ ok (written script, rest)
unfolding send_commands
send_commands-answered [] [] rest agree = refl
send_commands-answered [] (r ∷ replies) rest agree = elim agree [ ]
send_commands-answered (command ∷ script) [] rest agree = elim agree [ ]
send_commands-answered (command ∷ script) (r ∷ replies) rest agree =
    rw
      (
        send_command-answered command.0 command.1 r (lines_in replies rest) agree.0,
        agree.1,
        send_commands-answered script replies rest agree.2,
      )
      refl

-- The replies before the first one that is not what is expected.
send_commands-refused :
    (before after : List (Text × Text)) (sendbuf expected : Text) (replies : List Text)
    (text : Text) (rest : Reads)
    → Agrees before replies
    → IsLine text
    → begins expected (c_str (text ++ 10 ∷ [])) ≡ false
    → send_commands (before ++ (sendbuf, expected) ∷ after) (lines_in replies (line_in text rest))
      ≡ died
unfolding send_commands
send_commands-refused [] after sendbuf expected [] text rest agree is_line other =
    rw (send_command-answered sendbuf expected text rest is_line, other) refl
send_commands-refused [] after sendbuf expected (r ∷ replies) text rest agree is_line other =
    elim agree [ ]
send_commands-refused (c ∷ before) after sendbuf expected [] text rest agree is_line other =
    elim agree [ ]
send_commands-refused (c ∷ before) after sendbuf expected (r ∷ replies) text rest agree is_line
      other =
    rw
      (
        send_command-answered c.0 c.1 r (lines_in replies (line_in text rest)) agree.0,
        agree.1,
        send_commands-refused before after sendbuf expected replies text rest agree.2 is_line other,
      )
      refl

-- The mail fits its buffer.
abbrev pub mail : Text
mail = all (codes "MIME-Version: 1.0" ++ crlf) mail_parts
  where
    all : Text → List Text → Text
    all t [] = t
    all t (p ∷ ps) = all (t ++ p) ps

-- If the server greets, and answers each command by a line that begins as expected, the mail client
-- sends all the commands in order, each with its line end, and reads no more than the answers. The
-- lines have no newline inside and fit the buffer.
pub send_mail-sent :
    (hello : Text) (replies : List Text) (rest : Reads)
    → IsLine hello
    → Agrees (script mail) replies
    → send_mail (lines_in (hello ∷ replies) rest) ≡ ok (written (script mail), rest)
unfolding send_mail greeting
send_mail-sent hello replies rest is_line agree =
    rw (read_line-line 499 hello (lines_in replies rest) is_line.0 is_line.1)
      (send_commands-answered (script mail) replies rest agree)

-- An answer that does not begin as expected ends the program, if all before it do.
pub send_mail-refused :
    (hello sendbuf expected text : Text) (before after : List (Text × Text)) (replies : List Text)
    (rest : Reads)
    → IsLine hello
    → script mail ≡ before ++ (sendbuf, expected) ∷ after
    → Agrees before replies
    → IsLine text
    → begins expected (c_str (text ++ 10 ∷ [])) ≡ false
    → send_mail (lines_in (hello ∷ replies) (line_in text rest)) ≡ died
unfolding send_mail greeting
send_mail-refused hello sendbuf expected text before after replies rest is_hello split agree is_line
      other =
    rw (read_line-line 499 hello (lines_in replies (line_in text rest)) is_hello.0 is_hello.1) (
      ap (λ (s : List (Text × Text)). send_commands s (lines_in replies (line_in text rest))) split
      ∙ send_commands-refused before after sendbuf expected replies text rest agree is_line other)
