-- ===== src/Http/Request/Printed.antt =====
-- The requests as texts.
use pc_communication_protoco.Prelude.{
  ℕ, ◌+◌, ◌<◌, ◌≡◌, refl, sym, ap, ◌∙◌, Option, none, some, List, [], ◌∷◌, ◌++◌, map, append-nil,
  append_assoc, Text, length, length-append, All, ok, ◌>>=◌, codes, decimal, arith, >>=-ok,
}
use pc_communication_protoco.Http.Request.Lines.{
  lines_text, length-lines_text, strcat-ok, append_line-ok, print_line-ok, prefix-fits,
}
use pc_communication_protoco.Http.Request.{
  buflen, linelen, crlf, compute_message, add_line, add_cookies, compute_get_request, join_fields,
  body_of, compute_post_request,
}

abbrev pub cookie_line : Text → Text
cookie_line c = codes "Cookie: " ++ c

-- The fields with `&` between them.
abbrev pub joined : Text → List Text → Text
joined f [] = f
joined f (g ∷ fields) = f ++ codes "&" ++ joined g fields

abbrev pub ShortLines : List Text → Type 0
ShortLines = All (λ l. length l < linelen)

compute_message-ok :
    (m l : Text) → length m + length l + 2 < buflen → compute_message m l ≡ ok (m ++ l ++ crlf)
unfolding compute_message
compute_message-ok m l fits = append_line-ok m l fits

add_line-ok :
    (ls : List Text) (l : Text)
    → length l < linelen
    → length (lines_text (ls ++ l ∷ [])) < buflen
    → add_line (lines_text ls) l ≡ ok (lines_text (ls ++ l ∷ []))
unfolding add_line
add_line-ok ls l short fits = print_line-ok linelen ls l short fits

add_cookies-ok :
    (ls : List Text) (cookies : List Text)
    → ShortLines (map cookie_line cookies)
    → length (lines_text (ls ++ map cookie_line cookies)) < buflen
    → add_cookies (lines_text ls) cookies ≡ ok (lines_text (ls ++ map cookie_line cookies))
unfolding add_cookies
add_cookies-ok ls [] short fits = ap (λ (t : List Text). ok (lines_text t)) (sym (append-nil ls))
add_cookies-ok ls (c ∷ cookies) short fits =
    let rest = map cookie_line cookies in
    let regroup : (ls ++ cookie_line c ∷ []) ++ rest ≡ ls ++ cookie_line c ∷ rest =
      append_assoc ls (cookie_line c ∷ []) rest in
    let all : length (lines_text ((ls ++ cookie_line c ∷ []) ++ rest)) < buflen = rw regroup fits in
    rw
      (add_line-ok ls (cookie_line c) short.0
        (omega (arith, all, length-lines_text (ls ++ cookie_line c ∷ []) rest)))
      (add_cookies-ok (ls ++ cookie_line c ∷ []) cookies short.1 all
        ∙ ap (λ (t : List Text). ok (lines_text t)) regroup)

join_fields-ok :
    (f : Text) (fields : List Text) (size : ℕ) (body : Text)
    → length body + length (joined f fields) < linelen
    → join_fields (f ∷ fields) size body
      ≡ ok (size + length (joined f fields), body ++ joined f fields)
unfolding join_fields
join_fields-ok f [] size body fits = rw (strcat-ok linelen body f fits)
join_fields-ok f (g ∷ fields) size body fits =
    let joint = codes "&" in
    let rest = joined g fields in
    let whole : length (f ++ joint ++ rest) ≡ length f + 1 + length rest =
      omega (arith, length-append (f ++ joint) rest, length-append f joint) in
    rw (strcat-ok linelen body f (omega (arith, fits, whole))) (
      rw (strcat-ok linelen (body ++ f) joint (omega (arith, fits, whole, length-append body f))) (
        join_fields-ok g fields (size + (length f + 1)) (body ++ f ++ joint)
          (omega (arith, fits, whole, length-append (body ++ f) joint, length-append body f))
        ∙ ap (λ (n : ℕ). ok (n, body ++ f ++ joint ++ rest)) (omega (arith, whole))
        ∙ ap (λ (t : Text). ok (size + length (f ++ joint ++ rest), t)) regroup))
  where
    regroup :
        body ++ f ++ codes "&" ++ joined g fields ≡ body ++ (f ++ codes "&" ++ joined g fields)
    regroup =
        append_assoc (body ++ f) (codes "&") (joined g fields)
        ∙ append_assoc body f (codes "&" ++ joined g fields)
        ∙ ap (λ (t : Text). body ++ t) (sym (append_assoc f (codes "&") (joined g fields)))

-- The body of a request: NULL, or fields of which there is one at least.
abbrev pub body_fields : Option (Text × List Text) → Option (List Text)
body_fields none = none
body_fields (some (f, fields)) = some (f ∷ fields)

abbrev pub body_text : Option (Text × List Text) → Text
body_text none = []
body_text (some (f, fields)) = joined f fields

body_of-ok :
    (b : Option (Text × List Text))
    → length (body_text b) < linelen
    → body_of (body_fields b) ≡ ok (length (body_text b), body_text b)
unfolding body_of
body_of-ok none fits = refl
body_of-ok (some (f, fields)) fits =
    join_fields-ok f fields 0 [] (omega (arith, fits))
    ∙ ap (λ (n : ℕ). ok (n, joined f fields)) (omega arith)

abbrev pub get_line : Text → Option Text → Text
get_line url none = codes "GET " ++ url ++ codes " HTTP/1.1"
get_line url (some q) = codes "GET " ++ url ++ codes "?" ++ q ++ codes " HTTP/1.1"

abbrev pub get_lines : Text → Text → Option Text → List Text → List Text
get_lines host url query cookies =
    get_line url query ∷ (codes "Host: " ++ host) ∷ map cookie_line cookies

abbrev pub post_lines : Text → Text → Text → Text → List Text → List Text
post_lines host url content_type body cookies =
    (codes "POST " ++ url ++ codes " HTTP/1.1")
    ∷ (codes "Host: " ++ host)
    ∷ (codes "Content-Type: " ++ content_type)
    ∷ (codes "Content-Length: " ++ decimal (length body))
    ∷ map cookie_line cookies

-- A message of lines, an empty line and a body fits its buffer.
abbrev pub FitsMessage : List Text → Text → Type 0
FitsMessage lines body =
    ShortLines lines × (length (lines_text lines) + 2 + length body + 2 < buflen)

finish_message :
    (lines : List Text) (body : Text)
    → length (lines_text lines) + 2 + length body + 2 < buflen
    → (compute_message (lines_text lines) [] >>= λ m. compute_message m body)
      ≡ ok (lines_text lines ++ crlf ++ body ++ crlf)
finish_message lines body room =
    >>=-ok _ (compute_message-ok (lines_text lines) [] (omega (arith, room))) (
      rw (append-nil (lines_text lines)) (
        compute_message-ok (lines_text lines ++ crlf) body
          (omega (arith, room, length-append (lines_text lines) crlf))))

-- When its lines and the whole message fit their buffers, a POST request is its lines, an empty
-- line, the fields joined by `&`, and two more bytes; its Content-Length is the length of the
-- joined fields. There is no body, or one of at least one field.
pub compute_post_request-text :
    (host url content_type : Text) (b : Option (Text × List Text)) (cookies : List Text)
    → length (body_text b) < linelen
    → FitsMessage (post_lines host url content_type (body_text b) cookies) (body_text b)
    → compute_post_request host url content_type (body_fields b) cookies
      ≡ ok (
          lines_text (post_lines host url content_type (body_text b) cookies)
          ++ crlf
          ++ body_text b
          ++ crlf)
unfolding compute_post_request
compute_post_request-text host url content_type b cookies small
      ((s1, (s2, (s3, (s4, short)))), room) =
    let body = body_text b in
    let l1 = codes "POST " ++ url ++ codes " HTTP/1.1" in
    let l2 = codes "Host: " ++ host in
    let l3 = codes "Content-Type: " ++ content_type in
    let l4 = codes "Content-Length: " ++ decimal (length body) in
    let more = map cookie_line cookies in
    let lines = l1 ∷ l2 ∷ l3 ∷ l4 ∷ more in
    let all : length (lines_text lines) < buflen = omega (arith, room) in
    >>=-ok _ (add_line-ok [] l1 s1 (prefix-fits (l1 ∷ []) (l2 ∷ l3 ∷ l4 ∷ more) all)) (
      >>=-ok _ (add_line-ok (l1 ∷ []) l2 s2 (prefix-fits (l1 ∷ l2 ∷ []) (l3 ∷ l4 ∷ more) all)) (
        >>=-ok _
          (add_line-ok (l1 ∷ l2 ∷ []) l3 s3 (prefix-fits (l1 ∷ l2 ∷ l3 ∷ []) (l4 ∷ more) all))
          (>>=-ok _ (body_of-ok b small) (
            >>=-ok _
              (add_line-ok (l1 ∷ l2 ∷ l3 ∷ []) l4 s4
                (prefix-fits (l1 ∷ l2 ∷ l3 ∷ l4 ∷ []) more all))
              (>>=-ok _ (add_cookies-ok (l1 ∷ l2 ∷ l3 ∷ l4 ∷ []) cookies short all)
                (finish_message lines body room))))))

get_steps :
    (l1 host : Text) (cookies : List Text)
    → FitsMessage (l1 ∷ (codes "Host: " ++ host) ∷ map cookie_line cookies) []
    → (do
      m ← add_line [] l1
      m ← add_line m (codes "Host: " ++ host)
      m ← add_cookies m cookies
      compute_message m [])
      ≡ ok (lines_text (l1 ∷ (codes "Host: " ++ host) ∷ map cookie_line cookies) ++ crlf)
get_steps l1 host cookies ((s1, (s2, short)), room) =
    let l2 = codes "Host: " ++ host in
    let more = map cookie_line cookies in
    let lines = l1 ∷ l2 ∷ more in
    let all : length (lines_text lines) < buflen = omega (arith, room) in
    >>=-ok _ (add_line-ok [] l1 s1 (prefix-fits (l1 ∷ []) (l2 ∷ more) all)) (
      >>=-ok _ (add_line-ok (l1 ∷ []) l2 s2 (prefix-fits (l1 ∷ l2 ∷ []) more all)) (
        >>=-ok _ (add_cookies-ok (l1 ∷ l2 ∷ []) cookies short all) (
          compute_message-ok (lines_text lines) [] (omega (arith, room))
          ∙ ap (λ (t : Text). ok (t ++ crlf)) (append-nil (lines_text lines)))))

-- When its lines and the whole fit their buffers, a GET request is its lines and an empty line.
pub compute_get_request-text :
    (host url : Text) (query : Option Text) (cookies : List Text)
    → FitsMessage (get_lines host url query cookies) []
    → compute_get_request host url query cookies
      ≡ ok (lines_text (get_lines host url query cookies) ++ crlf)
unfolding compute_get_request
compute_get_request-text host url none cookies fits =
    get_steps (get_line url none) host cookies fits
compute_get_request-text host url (some q) cookies fits =
    get_steps (get_line url (some q)) host cookies fits
