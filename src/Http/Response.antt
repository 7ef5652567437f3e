-- ===== src/Http/Response.antt =====
-- `receive_from_server` and `send_to_server` of `helpers.c`. What `read` returns is a list: `none`
-- is an error, no bytes are the end of the stream; after the list the stream has ended.
pub mod Received
pub mod Whole
use pc_communication_protoco.Prelude.{
  ℕ, zero, suc, ◌+◌, ◌-◌, ◌*◌, ◌%◌, Bool, true, false, ◌||◌, ◌&&◌, Option, none, some, List, [],
  ◌∷◌, ◌++◌, Text, ◌==◌, ltb, leb, if◌then◌else◌, length, take, drop, is_digit, Run, ok, died,
  fault, ◌>>=◌, deref, codes,
}
use pc_communication_protoco.Http.{
  Buffer, buffer_init, buffer_add, buffer_find, buffer_find_insensitive,
}

abbrev pub Reads : Type 0
Reads = List (Option Text)

abbrev pub header_terminator : Text
header_terminator = 13 ∷ 10 ∷ 13 ∷ 10 ∷ []

abbrev pub content_length_name : Text
content_length_name = codes "Content-Length: "

abbrev u64 : ℕ → ℕ
u64 n = n % 18446744073709551616

-- The digits of `strtol`. The data has no terminator: digits up to its last byte lead out of it.
unfoldable pub strtol_digits : ℕ → Text → Run ℕ
strtol_digits acc [] = fault
strtol_digits acc (b ∷ bs) = if is_digit b then strtol_digits (acc * 10 + (b - 48)) bs else ok acc

-- A `long` that was limited to its range, converted to `int` and then to `size_t`; `minus` tells
-- the sign of the text.
unfoldable pub to_size : Bool → ℕ → ℕ
to_size minus n =
    let v =
      if minus
      then u64
          (18446744073709551616 - (if leb n 9223372036854775808 then n else 9223372036854775808))
      else if leb n 9223372036854775807
      then n
      else 9223372036854775807 in
    let low = v % 4294967296 in if ltb low 2147483648 then low else low + 18446744069414584320

-- `strtol`: white space, a sign, digits.
unfoldable pub strtol : Text → Run ℕ
unfolding strtol_digits to_size
strtol [] = fault
strtol (b ∷ bs) =
    let blank = strtol bs in
    if (b == 32) || (leb 9 b && leb b 13)
    then blank
    else if b == 45
    then (do n ← strtol_digits 0 bs; ok (to_size true n))
    else if b == 43
    then (do n ← strtol_digits 0 bs; ok (to_size false n))
    else (do n ← strtol_digits 0 (b ∷ bs); ok (to_size false n))

-- What the first loop leaves: the buffer, `header_end` and `content_length` as `size_t`, and what
-- is still to read.
pub record Header : Type 0 where
  pub buffer_of : Buffer
  pub header_end : ℕ
  pub content_length : ℕ
  pub unread : Reads

-- The place of Content-Length, if the header is complete; -1 is `none`.
unfoldable pub content_length_at : Buffer → Option ℕ → Run (Option ℕ)
content_length_at b none = ok none
content_length_at b (some e) = buffer_find_insensitive b content_length_name 16

unfoldable pub header_size : Option ℕ → ℕ
header_size none = 18446744073709551615
header_size (some e) = e + 4

-- The round ends the loop if Content-Length is there, and else goes on with `next`.
unfoldable pub take_length : Run Header → Buffer → ℕ → Reads → Option ℕ → Run Header
unfolding strtol
take_length next b header_end reads none = next
take_length next b header_end reads (some at) = do
  bytes ← deref b.contents
  content_length ← strtol (drop (at + 16) bytes)
  ok (record {
    buffer_of = b;
    header_end = header_end;
    content_length = content_length;
    unread = reads;
  })

unfoldable pub read_header : Reads → Buffer → ℕ → Run Header
unfolding content_length_at header_size take_length
read_header [] b header_end =
    ok (record { buffer_of = b; header_end = header_end; content_length = 0; unread = [] })
read_header (none ∷ reads) b header_end = died
read_header (some response ∷ reads) b header_end =
    if length response == 0
    then ok (record { buffer_of = b; header_end = header_end; content_length = 0; unread = reads })
    else (do
      b' ← buffer_add b response (length response)
      e ← buffer_find b' header_terminator 4
      place ← content_length_at b' e
      take_length (read_header reads b' (header_size e)) b' (header_size e) reads place)

-- The second loop.
unfoldable pub read_body : Reads → Buffer → ℕ → Run (Buffer × Reads)
read_body [] b total = ok (b, [])
read_body (r ∷ reads) b total =
    if ltb b.size total
    then elim r [
      | none ↦ died
      | some response ↦
          if length response == 0
          then ok (b, reads)
          else (do b' ← buffer_add b response (length response); read_body reads b' total)
    ]
    else ok (b, r ∷ reads)

-- The string that is returned, and what is left unread.
unfoldable pub receive_from_server : Reads → Run (Option Text × Reads)
unfolding read_header read_body
receive_from_server reads = do
  h ← read_header reads buffer_init 0
  (b, unread) ← read_body h.unread h.buffer_of (u64 (h.content_length + h.header_end))
  b' ← buffer_add b (0 ∷ []) 1
  ok (b'.contents, unread)

-- `send_to_server`: what each `write` returned, `none` for an error. The rest of the message goes
-- on in the next one; the result is what was written.
unfoldable pub send_to_server : List (Option ℕ) → Text → Run Text
send_to_server [] message = ok []
send_to_server (none ∷ writes) message = died
send_to_server (some bytes ∷ writes) message =
    if bytes == 0
    then ok []
    else (if leb (length message) bytes then ok (take bytes message) else (do
      sent ← send_to_server writes (drop bytes message)
      ok (take bytes message ++ sent)))
