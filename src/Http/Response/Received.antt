-- ===== src/Http/Response/Received.antt =====
-- What `receive_from_server` returns.
use pc_communication_protoco.Prelude.{
  ℕ, ◌+◌, ◌≡◌, refl, sym, ap, ◌∙◌, true, Bool-cases, inl, inr, Option, none, some, [], ◌∷◌, ◌++◌,
  append_assoc, Text, ltb, leb, ◌==◌, length, length-append, take, Run, ok, Ends, Ends->>=,
  Ends-map, Ends-at, ◌%◌, arith, deref, drop,
}
use pc_communication_protoco.Http.{Buffer, buffer, buffer_init, buffer_add, buffer_find}
use pc_communication_protoco.Http.Find.{IsBuffer}
use pc_communication_protoco.Http.Response.{
  Reads, Header, read_header, read_body, take_length, receive_from_server, content_length_at,
  header_size, strtol, header_terminator,
}

abbrev pub content : Buffer → Text
content b = elim b.contents [ none ↦ [] | some d ↦ d ]

-- All the bytes that the reads bring.
abbrev pub stream : Reads → Text
stream [] = []
stream (none ∷ reads) = stream reads
stream (some t ∷ reads) = t ++ stream reads

take-length : (d : Text) → take (length d) d ≡ d
take-length [] = refl
take-length (x ∷ d) = ap (λ (t : Text). x ∷ t) (take-length d)

abbrev pub Added : Buffer → Text → Type 0
Added b t =
    (b' : Buffer) × (buffer_add b t (length t) ≡ ok b')
    × IsBuffer b'
    × (content b' ≡ content b ++ t)

add-Added :
    (contents : Option Text) (size : ℕ) (t : Text)
    → IsBuffer (buffer contents size)
    → Added (buffer contents size) t
unfolding buffer_add
add-Added none n t whole =
    let all : leb (length t) (length t) ≡ true = ground arith in
    let empty : (n == 0) ≡ true = ground arith in
    (
      buffer (some (take (length t) t)) (n + length t),
      rw (all, empty),
      omega (arith, whole, ap length (take-length t)),
      take-length t,
    )
add-Added (some d) n t whole =
    let all : leb (length t) (length t) ≡ true = ground arith in
    let same : take n d ++ take (length t) t ≡ d ++ t = rw (whole, take-length d, take-length t) in
    (
      buffer (some (take n d ++ take (length t) t)) (n + length t),
      rw all,
      omega (arith, whole, ap length same, length-append d t),
      same,
    )

-- Adding all of a text to a consistent buffer always succeeds.
pub buffer_add-Added : (b : Buffer) (t : Text) → IsBuffer b → Added b t
buffer_add-Added b t whole = add-Added b.contents b.size t whole

-- Nothing is lost or made up: what was there and what came is what is there and what is to come.
abbrev Conserved : Buffer → Reads → Buffer → Reads → Type 0
Conserved b reads b' unread =
    IsBuffer b' × (content b ++ stream reads ≡ content b' ++ stream unread)

added :
    (b b' b'' : Buffer) (t : Text) (reads unread : Reads)
    → content b' ≡ content b ++ t
    → content b' ++ stream reads ≡ content b'' ++ stream unread
    → content b ++ (t ++ stream reads) ≡ content b'' ++ stream unread
added b b' b'' t reads unread e same =
    sym (append_assoc (content b) t (stream reads))
    ∙ ap (λ (x : Text). x ++ stream reads) (sym e)
    ∙ same

nothing :
    (b : Buffer) (t : Text) (reads : Reads)
    → (length t == 0) ≡ true
    → content b ++ (t ++ stream reads) ≡ content b ++ stream reads
nothing b [] reads ended = refl
nothing b (x ∷ t) reads ended = ground arith

read_body-Conserved :
    (reads : Reads) (b : Buffer) (total : ℕ)
    → IsBuffer b
    → Ends (λ (b', unread). Conserved b reads b' unread) (read_body reads b total)
unfolding read_body
read_body-Conserved [] b total whole = (whole, refl)
read_body-Conserved (none ∷ reads) b total whole = elim (Bool-cases (ltb b.size total)) [
  | inl more ↦ rw (more, Ends) tt
  | inr done ↦ rw (done, Ends) (whole, refl)
]
read_body-Conserved (some t ∷ reads) b total whole = elim (Bool-cases (ltb b.size total)) [
  | inr done ↦ rw (done, Ends) (whole, refl)
  | inl more ↦ elim (Bool-cases (length t == 0)) [
    | inl ended ↦ rw (more, ended, Ends) (whole, nothing b t reads ended)
    | inr going ↦
        (let (b', e, whole', grown) = buffer_add-Added b t whole in
          rw (more, going, e, Ends)
            (Ends-map
              (λ (b'', unread) (whole'', same). (whole'', added b b' b'' t reads unread grown same))
              (read_body reads b' total) (read_body-Conserved reads b' total whole')))
  ]
]

Parsed : Buffer → Reads → Header → Type 0
Parsed b reads h = Conserved b reads h.buffer_of h.unread

take_length-Parsed :
    (next : Run Header) (b b' : Buffer) (header_end : ℕ) (t : Text) (reads : Reads)
    (place : Option ℕ)
    → IsBuffer b'
    → content b' ≡ content b ++ t
    → Ends (Parsed b' reads) next
    → Ends (Parsed b (some t ∷ reads)) (take_length next b' header_end reads place)
unfolding take_length Parsed
take_length-Parsed next b b' header_end t reads none whole grown later =
    Ends-map (λ h (whole', same). (whole', added b b' h.buffer_of t reads h.unread grown same)) next
      later
take_length-Parsed next b b' header_end t reads (some at) whole grown later =
    Ends->>= (Parsed b (some t ∷ reads)) (deref b'.contents) _ (λ bytes _.
      Ends->>= (Parsed b (some t ∷ reads)) (strtol (drop (at + 16) bytes)) _
        (λ n _. (whole, added b b' b' t reads reads grown refl)))

read_header-Parsed :
    (reads : Reads) (b : Buffer) (header_end : ℕ)
    → IsBuffer b
    → Ends (Parsed b reads) (read_header reads b header_end)
unfolding read_header Parsed
read_header-Parsed [] b header_end whole = (whole, refl)
read_header-Parsed (none ∷ reads) b header_end whole = tt
read_header-Parsed (some t ∷ reads) b header_end whole = elim (Bool-cases (length t == 0)) [
  | inl ended ↦ rw (ended, Ends) (whole, nothing b t reads ended)
  | inr going ↦
      (let (b', e, whole', grown) = buffer_add-Added b t whole in
        rw (going, e, Ends)
          (Ends->>= (Parsed b (some t ∷ reads)) (buffer_find b' header_terminator 4) _ (λ found _.
            Ends->>= (Parsed b (some t ∷ reads)) (content_length_at b' found) _ (λ place _.
              take_length-Parsed (read_header reads b' (header_size found)) b b' (header_size found)
                t reads place whole' grown
                (read_header-Parsed reads b' (header_size found) whole')))))
]

pub terminated :
    (c : Option Text) (n : ℕ) (t : Text)
    → content (buffer c n) ≡ t ++ 0 ∷ []
    → c ≡ some (t ++ 0 ∷ [])
terminated none n [] e = ground arith
terminated none n (x ∷ t) e = ground arith
terminated (some d) n t e = ap some e

pub buffer_init-IsBuffer : IsBuffer buffer_init
unfolding buffer_init
buffer_init-IsBuffer = refl

pub buffer_init-content : content buffer_init ≡ []
unfolding buffer_init
buffer_init-content = refl

-- If the function returns, its text is the first bytes that the server sent, in their order and
-- without a gap, and a terminator; the bytes behind them are left unread.
pub receive_from_server-prefix :
    (reads : Reads)
    → Ends
        (λ (text, unread).
          (received : Text) × (text ≡ some (received ++ 0 ∷ []))
          × (stream reads ≡ received ++ stream unread))
        (receive_from_server reads)
unfolding receive_from_server Parsed
receive_from_server-prefix reads = Ends->>= _ (read_header reads buffer_init 0) _ (λ h read.
    let (whole, same) =
      Ends-at (Parsed buffer_init reads) (read_header reads buffer_init 0)
        (read_header-Parsed reads buffer_init 0 buffer_init-IsBuffer) read in
    let total = (h.content_length + h.header_end) % 18446744073709551616 in
    Ends->>= _ (read_body h.unread h.buffer_of total) _ (λ (b, unread) body.
      let (whole', same') =
        Ends-at (λ (b, unread). Conserved h.buffer_of h.unread b unread)
          (read_body h.unread h.buffer_of total)
          (read_body-Conserved h.unread h.buffer_of total whole) body in
      let (b', e, _, grown) = buffer_add-Added b (0 ∷ []) whole' in
      rw (e, Ends)
        (
          content b,
          terminated b'.contents b'.size (content b) grown,
          ap (λ (t : Text). t ++ stream reads) (sym buffer_init-content) ∙ same ∙ same',
        )))
