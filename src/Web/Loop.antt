-- ===== src/Web/Loop.antt =====
-- The loop of `web client/client.cpp`.
pub mod Session
pub mod Safety
use pc_communication_protoco.Prelude.{
  ℕ, zero, suc, Bool, true, false, Option, none, some, List, [], ◌∷◌, ◌++◌, Text, if◌then◌else◌,
  text_eq, Run, ok, ◌>>=◌, codes,
}
use pc_communication_protoco.Web.{JsonLibrary, Connection, WebClient, read_word, clear_buffer}
use pc_communication_protoco.Web.Account.{
  register_client, login_client, enter_library, logout_client,
}
use pc_communication_protoco.Web.Books.{get_books, get_book, add_book, delete_book}

-- `main` before its loop.
unfoldable pub start : List Text → List (Option Connection) → WebClient
start words connections = record {
  cookie = [];
  token = [];
  command = none;
  words = words;
  connections = connections;
  sent = [];
  shown = [];
  running = true;
}

-- The `logout` branch.
unfoldable pub on_logout : JsonLibrary → WebClient → Run WebClient
unfolding logout_client clear_buffer
on_logout lib c = do
  c ← logout_client lib c
  ok (record c { cookie = clear_buffer c.cookie; token = clear_buffer c.token })

-- The branches of the loop.
unfoldable pub dispatch : JsonLibrary → Text → WebClient → Run WebClient
unfolding register_client login_client enter_library get_books get_book add_book delete_book
    on_logout
dispatch lib command c =
    if text_eq command (codes "exit")
    then ok (record c { running = false })
    else if text_eq command (codes "register")
    then register_client lib c
    else if text_eq command (codes "login")
    then login_client lib c
    else if text_eq command (codes "enter_library")
    then enter_library lib c
    else if text_eq command (codes "get_books")
    then get_books lib c
    else if text_eq command (codes "get_book")
    then get_book lib c
    else if text_eq command (codes "add_book")
    then add_book lib c
    else if text_eq command (codes "delete_book")
    then delete_book lib c
    else if text_eq command (codes "logout")
    then on_logout lib c
    else ok c

unfoldable pub round : JsonLibrary → WebClient → Run WebClient
unfolding read_word dispatch
round lib c = do
  (command, c) ← read_word 100 c.command c
  dispatch lib command (record c { command = some command })

-- At most so many rounds.
unfoldable pub run : JsonLibrary → ℕ → WebClient → Run WebClient
unfolding round
run lib zero c = ok c
run lib (suc rounds) c = if c.running then (do c' ← round lib c; run lib rounds c') else ok c
