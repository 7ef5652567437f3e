-- ===== src/Web/Exchange.antt =====
-- The sockets of `web client/utils.cpp`, and the exchange of a request for a response that every
-- command of `actions.cpp` makes.
pub mod Received
use pc_communication_protoco.Prelude.{
  ℕ, zero, suc, ◌+◌, ◌-◌, Bool, true, false, Option, none, some, List, [], ◌∷◌, ◌++◌, Text, ◌==◌,
  leb, ltb, if◌then◌else◌, length, take, drop, c_str, Run, ok, died, fault, ◌>>=◌, codes,
}
use pc_communication_protoco.Http.Response.{Reads}
use pc_communication_protoco.Web.{
  buflen, JsonLibrary, Shown, too_many_requests, Connection, WebClient, show, strstr,
}

-- `socket` and `connect`; a failure stops the program.
unfoldable pub next_connection :
    List (Option Connection) → Run (Connection × List (Option Connection))
next_connection [] = died
next_connection (none ∷ more) = died
next_connection (some sock ∷ more) = ok (sock, more)

unfoldable pub open_connection : WebClient → Run (Connection × WebClient)
unfolding next_connection
open_connection c = do
  (sock, more) ← next_connection c.connections
  ok (sock, record c { connections = more })

-- What was written: each `write` takes a part of what is left, none of it at the end.
unfoldable pub send_to_server : List (Option ℕ) → Text → Run Text
send_to_server [] message = ok []
send_to_server (none ∷ writes) message = died
send_to_server (some bytes ∷ writes) message =
    if bytes == 0
    then ok []
    else (if leb (length message) bytes then ok message else (do
      sent ← send_to_server writes (drop bytes message)
      ok (take bytes message ++ sent)))

-- `room` is `total - received`; a read brings at most so many bytes.
unfoldable pub receive_rest : ℕ → Text → Reads → Run Text
receive_rest room response [] = ok response
receive_rest room response (none ∷ reads) = died
receive_rest room response (some bytes ∷ reads) =
    let rest = receive_rest (room - length bytes) (response ++ bytes) reads in
    if length bytes == 0 then ok response else if leb room (length bytes) then died else rest

-- The string in the buffer that is returned.
unfoldable pub receive_from_server : Reads → Run Text
unfolding receive_rest
receive_from_server reads = do response ← receive_rest buflen [] reads; ok (c_str response)

-- `send_to_server`, `receive_from_server` and `close_connection` on an open socket.
unfoldable pub talk : Connection → Text → WebClient → Run (Text × WebClient)
unfolding send_to_server receive_from_server
talk sock message c = do
  written ← send_to_server sock.writes message
  response ← receive_from_server sock.reads
  ok (response, record c { sent = c.sent ++ written ∷ [] })

abbrev pub is_ok : Text → Text → Bool
is_ok response word = elim (strstr response word) [ none ↦ false | some rest ↦ true ]

-- The branch for a response that is no success; `label` is the message that quotes the error.
unfoldable pub report : JsonLibrary → (Text → Shown) → Text → WebClient → Run WebClient
unfolding strstr show
report lib label response c =
    if is_ok response (codes "Too many requests") then ok (show too_many_requests c) else (do
      j ← lib.parse (strstr response (codes "{"))
      e ← lib.at j (codes "error")
      ok (show (label (lib.print e)) c))
