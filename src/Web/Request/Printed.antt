-- ===== src/Web/Request/Printed.antt =====
-- The requests of the web client as texts.
use pc_communication_protoco.Prelude.{
  ℕ, ◌+◌, ◌<◌, ◌≡◌, sym, ap, ◌∙◌, Option, none, some, List, [], ◌∷◌, ◌++◌, append-nil, Text, length,
  length-append, All, All-front, All-behind, ok, codes, decimal, arith, >>=-ok,
}
use pc_communication_protoco.Http.Request.{crlf}
use pc_communication_protoco.Http.Request.Lines.{
  lines_text, length-lines_text, append_line-ok, append_lines-ok, print_line-ok,
}
use pc_communication_protoco.Web.{buflen}
use pc_communication_protoco.Web.Request.{
  linelen, host, compute_message, add_line, add_header, compute_get_request, compute_post_request,
  last_line, compute_delete_request,
}

-- The lines fit the line buffer, and with a body of this length the whole fits the message.
abbrev pub FitsLines : List Text → ℕ → Type 0
FitsLines lines body =
    All (λ l. length l < linelen) lines × (length (lines_text lines) + body < buflen)

abbrev pub header_lines : Text → Option Text → List Text
header_lines name none = []
header_lines name (some value) = (name ++ value) ∷ []

abbrev pub bearer : Option Text → List Text
bearer token = header_lines (codes "Authorization: Bearer ") token

abbrev pub host_line : Text
host_line = codes "Host: " ++ host

abbrev pub get_lines : Text → Option Text → Option Text → List Text
get_lines url cookie token =
    (codes "GET " ++ url ++ codes " HTTP/1.1")
    ∷ host_line
    ∷ (header_lines (codes "Cookie: ") cookie ++ bearer token)

abbrev pub post_lines : Text → Text → Option Text → List Text
post_lines url body token =
    (codes "POST " ++ url ++ codes " HTTP/1.1")
    ∷ host_line
    ∷ codes "Content-Type: application/json"
    ∷ (codes "Content-Length: " ++ decimal (length body))
    ∷ bearer token

-- The last line of the headers once more.
abbrev pub delete_lines : Text → Option Text → List Text
delete_lines url token =
    (codes "DELETE " ++ url ++ codes " HTTP/1.1")
    ∷ host_line
    ∷ (bearer token ++ last_line token ∷ [])

compute_message-ok :
    (m l : Text) → length m + length l + 2 < buflen → compute_message m l ≡ ok (m ++ l ++ crlf)
unfolding compute_message
compute_message-ok m l fits = append_line-ok m l fits

-- A further line of a message whose lines all fit.
add_line-ok :
    (ls : List Text) (l : Text) (more : List Text)
    → length l < linelen
    → length (lines_text (ls ++ (l ∷ more))) < buflen
    → add_line (lines_text ls) l ≡ ok (lines_text (ls ++ l ∷ []))
unfolding add_line
add_line-ok ls l more short fits = print_line-ok linelen ls l short (
    omega (
      arith,
      fits,
      length-lines_text ls (l ∷ more),
      length-lines_text ls (l ∷ []),
      length-append (l ++ crlf) (lines_text more),
      length-append (l ++ crlf) [],
    ))

add_header-ok :
    (ls : List Text) (name : Text) (value : Option Text) (more : List Text)
    → All (λ l. length l < linelen) (header_lines name value)
    → length (lines_text (ls ++ (header_lines name value ++ more))) < buflen
    → add_header (lines_text ls) name value ≡ ok (lines_text (ls ++ header_lines name value))
unfolding add_header
add_header-ok ls name none more short fits =
    ap (λ (t : List Text). ok (lines_text t)) (sym (append-nil ls))
add_header-ok ls name (some value) more short fits =
    add_line-ok ls (name ++ value) more short.0 fits

finish-ok :
    (ls : List Text)
    → length (lines_text ls) + 2 < buflen
    → compute_message (lines_text ls) [] ≡ ok (lines_text ls ++ crlf)
finish-ok ls fits =
    compute_message-ok (lines_text ls) [] (omega arith)
    ∙ ap (λ (t : Text). ok (t ++ crlf)) (append-nil (lines_text ls))

-- When its lines fit their buffers, a POST request is its lines, an empty line and its body.
pub compute_post_request-lines :
    (url body : Text) (token : Option Text)
    → FitsLines (post_lines url body token) (2 + length body + 2)
    → compute_post_request url body token
      ≡ ok (lines_text (post_lines url body token) ++ crlf ++ body ++ crlf)
unfolding compute_post_request
compute_post_request-lines url body token ((s1, (s2, (s3, (s4, short)))), room) =
    let l1 = codes "POST " ++ url ++ codes " HTTP/1.1" in
    let l3 = codes "Content-Type: application/json" in
    let l4 = codes "Content-Length: " ++ decimal (length body) in
    let more = bearer token in
    let lines = l1 ∷ host_line ∷ l3 ∷ l4 ∷ more in
    let all : length (lines_text lines) < buflen = omega (arith, room) in
    >>=-ok _ (add_line-ok [] l1 (host_line ∷ l3 ∷ l4 ∷ more) s1 all) (
      >>=-ok _ (add_line-ok (l1 ∷ []) host_line (l3 ∷ l4 ∷ more) s2 all) (
        >>=-ok _ (add_line-ok (l1 ∷ host_line ∷ []) l3 (l4 ∷ more) s3 all) (
          >>=-ok _ (add_line-ok (l1 ∷ host_line ∷ l3 ∷ []) l4 more s4 all) (
            >>=-ok _
              (add_header-ok (l1 ∷ host_line ∷ l3 ∷ l4 ∷ []) (codes "Authorization: Bearer ") token
                [] short (rw (append-nil more) all))
              (>>=-ok _ (finish-ok lines (omega (arith, room))) (
                compute_message-ok (lines_text lines ++ crlf) body
                  (omega (arith, room, length-append (lines_text lines) crlf))))))))

-- A line that is in its buffer already.
message_line-ok :
    (ls : List Text) (l : Text)
    → length (lines_text (ls ++ l ∷ [])) < buflen
    → compute_message (lines_text ls) l ≡ ok (lines_text (ls ++ l ∷ []))
unfolding compute_message
message_line-ok ls l fits = append_lines-ok ls l fits

-- When its lines fit their buffers, a GET request is its lines and an empty line.
pub compute_get_request-lines :
    (url : Text) (cookie token : Option Text)
    → FitsLines (get_lines url cookie token) 2
    → compute_get_request url cookie token ≡ ok (lines_text (get_lines url cookie token) ++ crlf)
unfolding compute_get_request
compute_get_request-lines url cookie token ((s1, (s2, short)), room) =
    let l1 = codes "GET " ++ url ++ codes " HTTP/1.1" in
    let cookies = header_lines (codes "Cookie: ") cookie in
    let tokens = bearer token in
    let lines = l1 ∷ host_line ∷ (cookies ++ tokens) in
    let all : length (lines_text lines) < buflen = omega (arith, room) in
    >>=-ok _ (add_line-ok [] l1 (host_line ∷ (cookies ++ tokens)) s1 all) (
      >>=-ok _ (add_line-ok (l1 ∷ []) host_line (cookies ++ tokens) s2 all) (
        >>=-ok _
          (add_header-ok (l1 ∷ host_line ∷ []) (codes "Cookie: ") cookie tokens
            (All-front _ cookies tokens short) all)
          (>>=-ok _
            (add_header-ok (l1 ∷ host_line ∷ cookies) (codes "Authorization: Bearer ") token []
              (All-behind _ cookies tokens short) (rw (append-nil tokens) all))
            (finish-ok lines room))))

-- When its lines fit their buffers, a DELETE request is its lines and an empty line, and the last
-- of its lines, the one of the token or, without a token, the one of the host, stands twice.
pub compute_delete_request-twice :
    (url : Text) (token : Option Text)
    → FitsLines (delete_lines url token) 2
    → compute_delete_request url token ≡ ok (lines_text (delete_lines url token) ++ crlf)
unfolding compute_delete_request
compute_delete_request-twice url token ((s1, (s2, short)), room) =
    let l1 = codes "DELETE " ++ url ++ codes " HTTP/1.1" in
    let tokens = bearer token in
    let again = last_line token ∷ [] in
    let lines = l1 ∷ host_line ∷ (tokens ++ again) in
    let all : length (lines_text lines) < buflen = omega (arith, room) in
    >>=-ok _ (add_line-ok [] l1 (host_line ∷ (tokens ++ again)) s1 all) (
      >>=-ok _ (add_line-ok (l1 ∷ []) host_line (tokens ++ again) s2 all) (
        >>=-ok _
          (add_header-ok (l1 ∷ host_line ∷ []) (codes "Authorization: Bearer ") token again
            (All-front _ tokens again short) all)
          (>>=-ok _ (message_line-ok (l1 ∷ host_line ∷ tokens) (last_line token) all)
            (finish-ok lines room))))
