-- ===== src/Web/Examples.antt =====
-- The web client at small inputs.
use pc_communication_protoco.Prelude.{
  ◌<◌, ◌≤◌, ◌≡◌, refl, true, Option, none, some, List, [], ◌∷◌, ◌++◌, Text, length, drop, c_str,
  text_eq, decimal, Run, ok, died, Ends, codes, arith,
}
use pc_communication_protoco.Http.Request.{crlf}
use pc_communication_protoco.Http.Request.Lines.{lines_text}
use pc_communication_protoco.Web.{
  JsonLibrary, entered, logged_out, Connection, WebClient, read_word, strstr, buflen,
}
use pc_communication_protoco.Web.Request.{compute_get_request, compute_post_request}
use pc_communication_protoco.Web.Request.Printed.{get_lines, post_lines}
use pc_communication_protoco.Web.Exchange.{open_connection, talk, receive_from_server}
use pc_communication_protoco.Web.Exchange.Received.{
  bytes_of, successes, receive_from_server-bounded,
}
use pc_communication_protoco.Web.Account.{read_account, login_client, enter_library}
use pc_communication_protoco.Web.Account.Cookie.{enter_library-token}
use pc_communication_protoco.Web.Books.{books_url}
use pc_communication_protoco.Web.Loop.{on_logout, round}
use pc_communication_protoco.Web.Loop.Session.{Valid, anonymous, phase, Stepped}
use pc_communication_protoco.Web.Loop.Safety.{
  Quiet, round-Stepped, round-outside, login_client-stale,
}

-- A library whose values are texts: an object is the text of its values.
abbrev values : List (Text × Text) → Text
values [] = []
values ((name, value) ∷ members) = value ++ values members

abbrev parse_text : Option Text → Run Text
parse_text none = died
parse_text (some t) = ok t

abbrev texts : JsonLibrary
texts = record {
  Json = Text;
  parse = parse_text;
  at = λ j k. ok j;
  value = λ j k. ok (drop 1 j);
  items = λ j. [];
  dump = λ members. ok (values members);
  print = λ j. j;
}

-- A socket that takes all, and answers with this text.
abbrev answers : Text → Option Connection
answers t = some (record { writes = some 4000 ∷ []; reads = some t ∷ [] })

abbrev client : Text → Text → List Text → List (Option Connection) → WebClient
client cookie token words connections = record {
  cookie = cookie;
  token = token;
  command = none;
  words = words;
  connections = connections;
  sent = [];
  shown = [];
  running = true;
}

receive_from_server-bounded_example :
    let reads : List Text = codes "HTTP/1.1 " ∷ codes "200 OK" ∷ [] in
    (length (bytes_of reads) < buflen
      → receive_from_server (successes reads) ≡ ok (c_str (bytes_of reads)))
    × (buflen ≤ length (bytes_of reads) → receive_from_server (successes reads) ≡ died)
receive_from_server-bounded_example =
    receive_from_server-bounded (codes "HTTP/1.1 " ∷ codes "200 OK" ∷ []) (omega arith)

abbrev page : WebClient
page = client (codes "c") (codes "t") (decimal 0 ∷ codes "none" ∷ []) []

abbrev silent : WebClient
silent = client (codes "c") (codes "t") [] (answers [] ∷ [])

abbrev books_message : Text
books_message = lines_text (get_lines books_url none (some (codes "t"))) ++ crlf

abbrev member : List Text → WebClient
member words = client (codes "c") (codes "t") words []

member-Valid : (words : List Text) → Valid (member words)
unfolding c_str text_eq
member-Valid words = record {
  cookie_first = λ e. cc;
  cookie_fits = omega arith;
  token_fits = omega arith;
}

abbrev leaving : WebClient
leaving =
    client (codes "c") (codes "t") (codes "logout" ∷ []) (answers (codes "Too many requests") ∷ [])

leaving-Valid : Valid leaving
unfolding c_str text_eq
leaving-Valid = record {
  cookie_first = λ e. cc;
  cookie_fits = omega arith;
  token_fits = omega arith;
}

round-Stepped_example :
    Ends (Stepped (codes "logout") leaving) (round texts leaving)
    × (codes "logout" ≡ codes "logout" → Ends (λ c'. phase c' ≡ anonymous) (round texts leaving))
unfolding read_word
round-Stepped_example =
    round-Stepped texts leaving (record leaving { words = [] }) (codes "logout") leaving-Valid refl

abbrev visitor : WebClient
visitor = client [] [] (codes "get_books" ∷ []) (answers (codes "OK") ∷ [])

visitor-Valid : Valid visitor
unfolding c_str text_eq
visitor-Valid = record {
  cookie_first = λ e. refl;
  cookie_fits = omega arith;
  token_fits = omega arith;
}

round-outside_example : Ends (Quiet visitor) (round texts visitor)
unfolding read_word c_str text_eq
round-outside_example =
    round-outside texts visitor (record visitor { words = [] }) (codes "get_books") visitor-Valid
      refl refl (λ e. cc) (λ e. cc)

abbrev entering : WebClient
entering = client (codes "c") [] [] (answers (codes "OK {tok") ∷ [])

abbrev access_message : Text
access_message =
    lines_text (get_lines (codes "/api/v1/tema/library/access") (some (codes "c")) none) ++ crlf

enter_library-token_example :
    (c : WebClient) × (enter_library texts entering ≡ ok c)
    × (c_str c.token ≡ c_str (codes "tok"))
    × (c.cookie ≡ codes "c")
    × (c.shown ≡ entered ∷ [])
unfolding open_connection talk c_str compute_get_request text_eq strstr
enter_library-token_example =
    enter_library-token texts entering (record entering { connections = [] })
      (record entering { connections = []; sent = access_message ∷ [] })
      (record { writes = some 4000 ∷ []; reads = some (codes "OK {tok") ∷ [] }) access_message
      (codes "OK {tok") (codes "tok") (codes "{tok") refl refl refl refl refl refl refl
      (omega arith)

abbrev logout_message : Text
logout_message =
    lines_text (get_lines (codes "/api/v1/tema/auth/logout") (some (codes "longer")) none) ++ crlf

abbrev login_message : Text
login_message =
    lines_text (post_lines (codes "/api/v1/tema/auth/login") (codes "up") none)
    ++ crlf
    ++ codes "up"
    ++ crlf

abbrev login_response : Text
login_response = codes "OK Set-Cookie: ab; x"

-- Somebody with a cookie of six bytes, who leaves, and comes back for one of two.
abbrev before_logout : WebClient
before_logout =
    client (codes "longer") [] (codes "u" ∷ codes "p" ∷ [])
      (answers (codes "OK") ∷ answers login_response ∷ [])

abbrev after_logout : WebClient
after_logout = record before_logout {
  cookie = 0 ∷ codes "onger";
  token = 0 ∷ [];
  connections = answers login_response ∷ [];
  sent = logout_message ∷ [];
  shown = logged_out ∷ [];
}

login_client-stale_example :
    (c : WebClient) × (login_client texts after_logout ≡ ok c) × (c_str c.cookie ≡ codes "abnger")
unfolding on_logout read_account open_connection talk c_str compute_get_request compute_post_request
    text_eq strstr decimal
login_client-stale_example =
    login_client-stale texts before_logout after_logout (record after_logout { words = [] })
      (record after_logout { words = []; connections = [] })
      (record after_logout {
        words = [];
        connections = [];
        sent = logout_message ∷ login_message ∷ [];
      })
      (record { writes = some 4000 ∷ []; reads = some login_response ∷ [] }) (codes "u")
      (codes "up") login_message login_response (codes "ab") (codes "x") b';' refl refl refl refl
      refl refl refl (omega arith) (omega arith) (omega arith) (omega arith) (omega arith)
      (omega arith) (omega arith)
