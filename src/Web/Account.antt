-- ===== src/Web/Account.antt =====
-- `register_client`, `login_client`, `enter_library` and `logout_client` of
-- `web client/actions.cpp`.
pub mod Kept
pub mod Strings
pub mod After
pub mod Cookie
use pc_communication_protoco.Prelude.{
  ℕ, suc, ◌-◌, Bool, true, false, Option, none, some, List, [], ◌∷◌, ◌++◌, Text, length, c_str,
  if◌then◌else◌, text_eq, Run, ok, died, fault, ◌>>=◌, deref, codes,
}
use pc_communication_protoco.Http.Request.{sprintf}
use pc_communication_protoco.Subscriber.{strtok}
use pc_communication_protoco.Web.{
  buflen, JsonLibrary, Shown, login_you_must, registered, logged_in, entered, logged_out, error,
  failed, WebClient, show, read_word, strstr, strncpy,
}
use pc_communication_protoco.Web.Request.{compute_get_request, compute_post_request}
use pc_communication_protoco.Web.Exchange.{open_connection, talk, is_ok, report}

-- The name and the password, as the payload; the name is printed later.
unfoldable pub read_account : JsonLibrary → WebClient → Run ((Text × Text) × WebClient)
unfolding read_word sprintf
read_account lib c = do
  (username, c) ← read_word 100 none c
  (password, c) ← read_word 100 (some username) c
  dumped ← lib.dump ((codes "username", username) ∷ (codes "password", password) ∷ [])
  payload ← sprintf buflen (c_str dumped)
  ok ((username, payload), c)

unfoldable pub register_client : JsonLibrary → WebClient → Run WebClient
unfolding read_account open_connection talk report show
register_client lib c = do
  ((username, payload), c) ← read_account lib c
  (sock, c) ← open_connection c
  message ← compute_post_request (codes "/api/v1/tema/auth/register") payload none
  (response, c) ← talk sock message c
  if is_ok response (codes "Created")
      then ok (show (registered username) c)
      else report lib error response c

-- The second token of a text.
unfoldable pub second_token : Text → Run Text
unfolding strtok
second_token aux = do (name, rest) ← deref (strtok aux); (p, rest') ← deref (strtok rest); ok p

-- The text behind `Set-Cookie: `, up to the next space.
unfoldable pub cookie_of : Text → Run Text
unfolding strstr second_token
cookie_of response = do aux ← deref (strstr response (codes "Set-Cookie: ")); second_token aux

-- It is copied without its last byte.
unfoldable pub store_cookie : Text → WebClient → Run WebClient
unfolding cookie_of strncpy
store_cookie response c = do
  p ← cookie_of response
  cookie ← strncpy c.cookie p (length p - 1)
  ok (record c { cookie = cookie })

unfoldable pub login_client : JsonLibrary → WebClient → Run WebClient
unfolding read_account open_connection talk report show store_cookie
login_client lib c = do
  ((username, payload), c) ← read_account lib c
  (sock, c) ← open_connection c
  message ← compute_post_request (codes "/api/v1/tema/auth/login") payload none
  (response, c) ← talk sock message c
  if is_ok response (codes "OK")
      then store_cookie response (show (logged_in username) c)
      else report lib failed response c

-- The token of the response.
unfoldable pub store_token : JsonLibrary → Text → WebClient → Run WebClient
unfolding strncpy
store_token lib response c = do
  j ← lib.parse (strstr response (codes "{"))
  str ← lib.value j (codes "token")
  token ← strncpy c.token str (suc (length str))
  ok (record c { token = token })

unfoldable pub enter_library : JsonLibrary → WebClient → Run WebClient
unfolding open_connection talk report show store_token
enter_library lib c = if text_eq (c_str c.cookie) [] then ok (show login_you_must c) else (do
  (sock, c) ← open_connection c
  message ← compute_get_request (codes "/api/v1/tema/library/access") (some (c_str c.cookie)) none
  (response, c) ← talk sock message c
  if is_ok response (codes "OK")
      then store_token lib response (show entered c)
      else report lib error response c)

unfoldable pub logout_client : JsonLibrary → WebClient → Run WebClient
unfolding open_connection talk report show
logout_client lib c = if text_eq (c_str c.cookie) [] then ok (show login_you_must c) else (do
  message ← compute_get_request (codes "/api/v1/tema/auth/logout") (some (c_str c.cookie)) none
  (sock, c) ← open_connection c
  (response, c) ← talk sock message c
  if is_ok response (codes "OK") then ok (show logged_out c) else report lib error response c)
