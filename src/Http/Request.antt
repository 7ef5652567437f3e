-- ===== src/Http/Request.antt =====
-- `requests.c` and `compute_message` of `helpers.c`. A message is the C string in its buffer of
-- buflen bytes, a line one in a buffer of linelen.
pub mod Lines
pub mod Printed
use pc_communication_protoco.Prelude.{
  ℕ, zero, suc, ◌+◌, ◌-◌, ◌≤◌, ◌<◌, ◌≡◌, refl, ap, ◌∙◌, Bool, true, false, Option, none, some, List,
  [], ◌∷◌, ◌++◌, append-nil, append_assoc, Text, ltb, leb, if◌then◌else◌, length, length-append,
  Run, ok, fault, ◌>>=◌, codes, decimal, arith,
}

abbrev pub buflen : ℕ
buflen = 4096

abbrev pub linelen : ℕ
linelen = 1000

abbrev pub crlf : Text
crlf = 13 ∷ 10 ∷ []

-- `strcat` into a buffer of this many bytes, terminator included.
unfoldable pub strcat : ℕ → Text → Text → Run Text
strcat room s t = if ltb (length s + length t) room then ok (s ++ t) else fault

-- `sprintf` into a buffer of this many bytes.
unfoldable pub sprintf : ℕ → Text → Run Text
sprintf room t = if ltb (length t) room then ok t else fault

unfoldable pub compute_message : Text → Text → Run Text
unfolding strcat
compute_message message line = do message' ← strcat buflen message line; strcat buflen message' crlf

-- The line is printed and added to the message.
unfoldable pub add_line : Text → Text → Run Text
unfolding sprintf compute_message
add_line message printed = do line ← sprintf linelen printed; compute_message message line

unfoldable pub add_cookies : Text → List Text → Run Text
unfolding add_line
add_cookies message [] = ok message
add_cookies message (c ∷ cookies) = do
  message' ← add_line message (codes "Cookie: " ++ c)
  add_cookies message' cookies

unfoldable pub compute_get_request : Text → Text → Option Text → List Text → Run Text
unfolding add_line add_cookies compute_message
compute_get_request host url query_params cookies =
    let request : Text = elim query_params [
      | some q ↦ codes "GET " ++ url ++ codes "?" ++ q ++ codes " HTTP/1.1"
      | none ↦ codes "GET " ++ url ++ codes " HTTP/1.1"
    ] in
    do
      message ← add_line [] request
      message ← add_line message (codes "Host: " ++ host)
      message ← add_cookies message cookies
      compute_message message []

-- The loop over all but the last field, and the last one: the counted size and the body. No field
-- at all is a read in front of the array.
unfoldable pub join_fields : List Text → ℕ → Text → Run (ℕ × Text)
unfolding strcat
join_fields [] size body = fault
join_fields (f ∷ []) size body = do body' ← strcat linelen body f; ok (size + length f, body')
join_fields (f ∷ g ∷ fields) size body = do
  body' ← strcat linelen body f
  body'' ← strcat linelen body' (codes "&")
  join_fields (g ∷ fields) (size + (length f + 1)) body''

-- `none` is a NULL `body_data`.
unfoldable pub body_of : Option (List Text) → Run (ℕ × Text)
unfolding join_fields
body_of none = ok (0, [])
body_of (some fields) = join_fields fields 0 []

unfoldable pub compute_post_request : Text → Text → Text → Option (List Text) → List Text → Run Text
unfolding add_line add_cookies compute_message body_of
compute_post_request host url content_type body_data cookies = do
  message ← add_line [] (codes "POST " ++ url ++ codes " HTTP/1.1")
  message ← add_line message (codes "Host: " ++ host)
  message ← add_line message (codes "Content-Type: " ++ content_type)
  (size, body) ← body_of body_data
  message ← add_line message (codes "Content-Length: " ++ decimal size)
  message ← add_cookies message cookies
  message ← compute_message message []
  compute_message message body
