-- ===== src/Web/Request.antt =====
-- The requests of `web client/utils.cpp`. A message is the C string in its buffer.
pub mod Printed
use pc_communication_protoco.Prelude.{
  ℕ, Option, none, some, List, [], ◌∷◌, ◌++◌, Text, length, Run, ok, ◌>>=◌, codes, decimal,
}
use pc_communication_protoco.Http.Request.{crlf, strcat, sprintf}
use pc_communication_protoco.Web.{buflen}

abbrev pub linelen : ℕ
linelen = 300

abbrev pub host : Text
host = codes "34.118.48.238"

unfoldable pub compute_message : Text → Text → Run Text
unfolding strcat
compute_message message line = do message' ← strcat buflen message line; strcat buflen message' crlf

-- The line is printed and added to the message.
unfoldable pub add_line : Text → Text → Run Text
unfolding sprintf compute_message
add_line message printed = do line ← sprintf linelen printed; compute_message message line

-- A line that is there if its value is; `none` is NULL.
unfoldable pub add_header : Text → Text → Option Text → Run Text
unfolding add_line
add_header message name none = ok message
add_header message name (some value) = add_line message (name ++ value)

unfoldable pub compute_get_request : Text → Option Text → Option Text → Run Text
unfolding add_line add_header compute_message
compute_get_request url cookie token = do
  message ← add_line [] (codes "GET " ++ url ++ codes " HTTP/1.1")
  message ← add_line message (codes "Host: " ++ host)
  message ← add_header message (codes "Cookie: ") cookie
  message ← add_header message (codes "Authorization: Bearer ") token
  compute_message message []

unfoldable pub compute_post_request : Text → Text → Option Text → Run Text
unfolding add_line add_header compute_message
compute_post_request url body_data token = do
  message ← add_line [] (codes "POST " ++ url ++ codes " HTTP/1.1")
  message ← add_line message (codes "Host: " ++ host)
  message ← add_line message (codes "Content-Type: application/json")
  message ← add_line message (codes "Content-Length: " ++ decimal (length body_data))
  message ← add_header message (codes "Authorization: Bearer ") token
  message ← compute_message message []
  compute_message message body_data

-- What stands in `line` when the token has been added, or not.
abbrev pub last_line : Option Text → Text
last_line none = codes "Host: " ++ host
last_line (some token) = codes "Authorization: Bearer " ++ token

unfoldable pub compute_delete_request : Text → Option Text → Run Text
unfolding add_line add_header compute_message
compute_delete_request url token = do
  message ← add_line [] (codes "DELETE " ++ url ++ codes " HTTP/1.1")
  message ← add_line message (codes "Host: " ++ host)
  message ← add_header message (codes "Authorization: Bearer ") token
  message ← compute_message message (last_line token)
  compute_message message []
