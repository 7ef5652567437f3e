-- ===== src/Web/Exchange/Received.antt =====
-- What `receive_from_server` of `web client/utils.cpp` makes of the bytes of a connection.
use pc_communication_protoco.Prelude.{
  ℕ, ◌-◌, ◌≤◌, ◌<◌, ◌≡◌, refl, ap, sym, ◌∙◌, some, List, [], ◌∷◌, ◌++◌, append-nil, append_assoc,
  Text, length, length-append, false, All, c_str, ok, died, arith, Bool-cases, inl, inr, ◌==◌, leb,
}
use pc_communication_protoco.Http.Response.{Reads}
use pc_communication_protoco.Web.{buflen}
use pc_communication_protoco.Web.Exchange.{receive_rest, receive_from_server}

-- The bytes of reads that all bring some.
abbrev pub bytes_of : List Text → Text
bytes_of [] = []
bytes_of (bytes ∷ reads) = bytes ++ bytes_of reads

abbrev pub successes : List Text → Reads
successes [] = []
successes (bytes ∷ reads) = some bytes ∷ successes reads

abbrev pub NonEmpty : List Text → Type 0
NonEmpty = All (λ bytes. 0 < length bytes)

receive_rest-whole :
    (room : ℕ) (response : Text) (reads : List Text)
    → NonEmpty reads
    → length (bytes_of reads) < room
    → receive_rest room response (successes reads) ≡ ok (response ++ bytes_of reads)
unfolding receive_rest
receive_rest-whole room response [] some_bytes fits = ap ok (sym (append-nil response))
receive_rest-whole room response (bytes ∷ reads) some_bytes fits =
    let whole = length-append bytes (bytes_of reads) in
    let more : (length bytes == 0) ≡ false = ground (arith, some_bytes.0) in
    let room_left : leb room (length bytes) ≡ false = ground (arith, whole, fits) in
    rw (more, room_left)
      (receive_rest-whole (room - length bytes) (response ++ bytes) reads some_bytes.1
          (omega (arith, whole, fits))
        ∙ ap ok (append_assoc response bytes (bytes_of reads)))

receive_rest-full :
    (room : ℕ) (response : Text) (reads : List Text)
    → NonEmpty reads
    → 0 < room
    → room ≤ length (bytes_of reads)
    → receive_rest room response (successes reads) ≡ died
unfolding receive_rest
receive_rest-full room response [] some_bytes pos full = absurd (omega arith)
receive_rest-full room response (bytes ∷ reads) some_bytes pos full =
    let whole = length-append bytes (bytes_of reads) in
    let more : (length bytes == 0) ≡ false = ground (arith, some_bytes.0) in
    elim (Bool-cases (leb room (length bytes))) [
      | inl all ↦ rw (more, all)
      | inr part ↦
          rw (more, part)
            (receive_rest-full (room - length bytes) (response ++ bytes) reads some_bytes.1
              (ground arith) (ground (arith, whole, full)))
    ]

-- Of reads that each bring bytes until the stream ends, `receive_from_server` of the web client
-- gives all the bytes up to a terminator if they are fewer than 4096, and stops the program if they
-- are 4096 or more.
pub receive_from_server-bounded :
    (reads : List Text)
    → NonEmpty reads
    → (length (bytes_of reads) < buflen
        → receive_from_server (successes reads) ≡ ok (c_str (bytes_of reads)))
      × (buflen ≤ length (bytes_of reads) → receive_from_server (successes reads) ≡ died)
unfolding receive_from_server
receive_from_server-bounded reads some_bytes = (
  λ fits. rw (receive_rest-whole buflen [] reads some_bytes fits) refl,
  λ full. rw (receive_rest-full buflen [] reads some_bytes (omega arith) full) refl,
)
