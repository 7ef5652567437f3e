-- ===== src/Http/Response/Whole.antt =====
-- A response that is read to the end of the stream.
use mathlib.Core.Path.{subst}
use pc_communication_protoco.Prelude.{
  ℕ, zero, suc, ◌≢◌, ◌<◌, ◌≡◌, refl, sym, ap, ◌∙◌, false, Option, none, some, [], ◌∷◌, ◌++◌,
  append-nil, append_assoc, Text, ◌==◌, length, ok, arith,
}
use pc_communication_protoco.Http.{
  Buffer, buffer, buffer_init, as_int, buffer_find, buffer_find_insensitive, tolower,
}
use pc_communication_protoco.Http.Find.{IsBuffer, StartsWith, Occurs, FirstOf, buffer_find_by-found}
use pc_communication_protoco.Http.Response.{
  Reads, Header, read_header, read_body, take_length, receive_from_server, content_length_at,
  header_size, header_terminator, content_length_name,
}
use pc_communication_protoco.Http.Response.Received.{
  content, stream, buffer_add-Added, terminated, buffer_init-IsBuffer, buffer_init-content,
}

-- Reads that bring bytes, up to the end of the stream.
abbrev pub AllBytes : Reads → Type 0
AllBytes [] = Unit
AllBytes (none ∷ reads) = ⊥
AllBytes (some t ∷ reads) = (0 < length t) × AllBytes reads

StartsWith-append :
    (fold : ℕ → ℕ) (wanted bytes more : Text)
    → StartsWith fold wanted bytes
    → StartsWith fold wanted (bytes ++ more)
StartsWith-append fold [] bytes more starts = tt
StartsWith-append fold (y ∷ wanted) [] more starts = absurd starts
StartsWith-append fold (y ∷ wanted) (x ∷ bytes) more starts =
    (starts.0, StartsWith-append fold wanted bytes more starts.1)

Occurs-append :
    (fold : ℕ → ℕ) (wanted bytes more : Text) (i : ℕ)
    → Occurs fold wanted bytes i
    → wanted ≢ []
    → Occurs fold wanted (bytes ++ more) i
Occurs-append fold wanted bytes more zero occurs some_bytes =
    StartsWith-append fold wanted bytes more occurs
Occurs-append fold [] [] more (suc i) occurs some_bytes = absurd (some_bytes refl)
Occurs-append fold (y ∷ wanted) [] more (suc i) occurs some_bytes = absurd occurs
Occurs-append fold wanted (x ∷ bytes) more (suc i) occurs some_bytes =
    Occurs-append fold wanted bytes more i occurs some_bytes

-- Nowhere in a text, up to case, does Content-Length stand.
abbrev pub NoLength : Text → Type 0
NoLength d = (i : ℕ) → Occurs tolower content_length_name d i → ⊥

-- A buffer without Content-Length lets the first loop go on.
goes_on :
    (b : Buffer)
    → IsBuffer b
    → b.contents ≢ none
    → NoLength (content b)
    → (e : Option ℕ) × (buffer_find b header_terminator 4 ≡ ok e)
      × (content_length_at b e ≡ ok none)
goes_on b whole live absent = go b.contents b.size whole live absent
  where
    go :
        (c : Option Text) (n : ℕ)
        → IsBuffer (buffer c n)
        → c ≢ none
        → NoLength (content (buffer c n))
        → (e : Option ℕ) × (buffer_find (buffer c n) header_terminator 4 ≡ ok e)
          × (content_length_at (buffer c n) e ≡ ok none)
    go none n whole live absent = absurd (live refl)
    go (some d) n whole live absent = rw whole found
      where
        told :
            (e r : Option ℕ)
            → buffer_find_insensitive (buffer (some d) (length d)) content_length_name 16
              ≡ ok (as_int r)
            → FirstOf tolower content_length_name d r
            → content_length_at (buffer (some d) (length d)) e ≡ ok none
        told none r search first = unfold content_length_at in refl
        told (some e) none search first = unfold content_length_at as_int in search
        told (some e) (some i) search first = absurd (absent i first.0)

        found :
            (e : Option ℕ) × (buffer_find (buffer (some d) (length d)) header_terminator 4 ≡ ok e)
            × (content_length_at (buffer (some d) (length d)) e ≡ ok none)
        found =
            let (e, search, _) = buffer_find_by-found (λ c. c) d header_terminator in
            let (r, search', first) = buffer_find_by-found tolower d content_length_name in
            (
              as_int e,
              unfold buffer_find in search,
              told (as_int e) r (unfold buffer_find_insensitive in search') first,
            )

full :
    (c : Option Text) (n : ℕ) (s t : Text) → content (buffer c n) ≡ s ++ t → 0 < length t → c ≢ none
full none n [] [] e some_bytes absent = omega arith
full none n [] (x ∷ t) e some_bytes absent = ground arith
full none n (x ∷ s) t e some_bytes absent = ground arith
full (some d) n s t e some_bytes absent = ground arith

read_header-whole :
    (reads : Reads) (b : Buffer) (header_end : ℕ)
    → IsBuffer b
    → AllBytes reads
    → NoLength (content b ++ stream reads)
    → (h : Header) × (read_header reads b header_end ≡ ok h)
      × (h.unread ≡ [])
      × IsBuffer h.buffer_of
      × (content h.buffer_of ≡ content b ++ stream reads)
unfolding read_header
read_header-whole [] b header_end whole bytes absent =
    (_, refl, refl, whole, sym (append-nil (content b)))
read_header-whole (none ∷ reads) b header_end whole bytes absent = absurd bytes
read_header-whole (some t ∷ reads) b header_end whole (some_bytes, bytes) absent =
    let (b', e, whole', grown) = buffer_add-Added b t whole in
    let going : (length t == 0) ≡ false = ground arith in
    let joint : content b' ++ stream reads ≡ content b ++ (t ++ stream reads) =
      ap (λ (x : Text). x ++ stream reads) grown ∙ append_assoc (content b) t (stream reads) in
    let absent' : NoLength (content b' ++ stream reads) = subst NoLength (sym joint) absent in
    let (found, search, nowhere) =
      goes_on b' whole' (full b'.contents b'.size (content b) t grown some_bytes) (λ i occurs.
        absent' i (
          Occurs-append tolower content_length_name (content b') (stream reads) i occurs
            (λ same. cc))) in
    let (h, e', read, last, all) =
      read_header-whole reads b' (header_size found) whole' bytes absent' in
    (h, rw (going, e, search, nowhere, take_length) e', read, last, all ∙ joint)

-- A response of which every read brings bytes until the stream ends, and in which the text
-- Content-Length stands nowhere, in any case of its letters, is returned whole with a terminator,
-- and nothing is left unread.
pub receive_from_server-whole :
    (reads : Reads)
    → AllBytes reads
    → NoLength (stream reads)
    → receive_from_server reads ≡ ok (some (stream reads ++ 0 ∷ []), [])
unfolding receive_from_server read_body
receive_from_server-whole reads bytes absent =
    let start = ap (λ (t : Text). t ++ stream reads) buffer_init-content in
    let (h, e, read, whole, all) =
      read_header-whole reads buffer_init 0 buffer_init-IsBuffer bytes
        (subst NoLength (sym start) absent) in
    let (b', e', _, grown) = buffer_add-Added h.buffer_of (0 ∷ []) whole in
    let text = terminated b'.contents b'.size (content h.buffer_of) grown in
    rw (e, read, e', text, all, start)
