-- ===== src/Subscriber.antt =====
-- The client of the broker, `tcp & udp communication/subscriber.c`: one round of its loop for a
-- line of the standard input, and one for the server's socket.
pub mod Commands
pub mod Packets
mod Examples
use pc_communication_protoco.Prelude.{
  ◌||◌, ℕ, ◌+◌, ◌%◌, Bool, true, false, ◌&&◌, Option, none, some, List, [], ◌∷◌, ◌++◌, Text, ◌==◌,
  ltb, leb, if◌then◌else◌, length, take, drop, Run, ok, died, fault, ◌>>=◌, deref, codes, atoi,
}
use pc_communication_protoco.Broker.Types.{Action}

-- `action` is a local variable that keeps its contents; `none` is what it holds before the first
-- command, and `ended` says whether a `strcpy` has written the last byte of its topic. `sent` is what `send` was called with, `shown` the buffers that were printed.
pub record Session : Type 0 where
  pub action : Option Action
  pub ended : Bool
  pub sent : List (Option Action)
  pub shown : List Text
  pub stop : Bool

-- `strncmp(line, word, strlen(word)) == 0`.
unfoldable pub starts_with : Text → Text → Bool
starts_with [] line = true
starts_with (w ∷ word) [] = false
starts_with (w ∷ word) (b ∷ line) = (w == b) && starts_with word line

unfoldable pub skip_sep : Text → Text
skip_sep [] = []
skip_sep (b ∷ bs) = if b == 32 then skip_sep bs else b ∷ bs

unfoldable pub take_token : Text → Text × Text
take_token [] = ([], [])
take_token (b ∷ bs) =
    let (token, rest) = take_token bs in if b == 32 then ([], bs) else (b ∷ token, rest)

-- `strtok` with a space as the only separator: the token and what is behind it; `none` is NULL.
unfoldable pub strtok : Text → Option (Text × Text)
unfolding skip_sep take_token
strtok line = elim (skip_sep line) [ [] ↦ none | b ∷ bs ↦ some (take_token (b ∷ bs)) ]

-- `strcpy` into a buffer of this many bytes.
unfoldable pub strcpy : ℕ → Text → Run Text
strcpy room t = if ltb (length t) room then ok t else fault

-- The `Action` of a `subscribe` line. The text of `sf` has no sign and no blank in front.
unfoldable pub subscribe_action : Text → Run Action
unfolding strtok strcpy
subscribe_action buffer = do
  (word, rest) ← deref (strtok buffer)
  (name, rest') ← deref (strtok rest)
  topic ← strcpy 51 name
  (sf, rest'') ← deref (strtok rest')
  ok (record { type = codes "subscribe"; topic = topic; sf = atoi sf % 256 })

-- The `Action` of an `unsubscribe` line. `strncpy` writes 50 bytes, and no terminator behind a topic
-- of 50 or more: that its last byte was never written is a `fault`.
unfoldable pub unsubscribe_action : Bool → Text → Run Action
unfolding strtok
unsubscribe_action ended buffer = do
  (word, rest) ← deref (strtok buffer)
  (name, rest') ← deref (strtok rest)
  if ended || ltb (length name) 50
      then ok (record { type = codes "unsubscribe"; topic = take 50 name; sf = 2 })
      else fault

abbrev pub send_action : Session → Option Action → Session
send_action s action = record s { action = action; sent = s.sent ++ action ∷ [] }

-- A line of the standard input, as a C string; any other line sends what `action` still holds.
unfoldable pub on_line : Text → Session → Run Session
unfolding starts_with subscribe_action unsubscribe_action
on_line buffer s =
    if starts_with (codes "exit") buffer
    then ok (record s { stop = true })
    else if starts_with (codes "subscribe") buffer
    then (do
      action ← subscribe_action buffer
      ok (record (send_action s (some action)) { ended = s.ended || (length action.topic == 50) }))
    else if starts_with (codes "unsubscribe") buffer
    then (do action ← unsubscribe_action s.ended buffer; ok (send_action s (some action)))
    else ok (send_action s s.action)

-- What `recv` stores at the start of the buffer.
unfoldable pub overwrite : Text → Text → Run Text
overwrite chunk buff =
    if leb (length chunk) (length buff) then ok (chunk ++ drop (length chunk) buff) else fault

-- The inner loop: what each `recv` brings is stored at the start. `none` is an error, no bytes are
-- the end of the connection.
unfoldable pub receive_packet : List (Option Text) → ℕ → ℕ → Text → Run Text
unfolding overwrite
receive_packet [] dim received buff = ok buff
receive_packet (none ∷ chunks) dim received buff = if ltb received dim then died else ok buff
receive_packet (some chunk ∷ chunks) dim received buff =
    let ended = (length chunk == 0) in
    if ltb received dim
    then (if ended then ok buff else (do
      buff' ← overwrite chunk buff
      receive_packet chunks dim (received + length chunk) buff'))
    else ok buff

-- The socket of the server is ready: the size of a packet, and its bytes into a cleared buffer.
-- The clearing of `TCP_SIZE+1` bytes goes one byte beyond the buffer; that byte is left out.
unfoldable pub on_server : Text → Option Text → List (Option Text) → Session → Run Session
unfolding receive_packet
on_server cleared none chunks s = died
on_server cleared (some size) chunks s =
    if length size == 0 then ok (record s { stop = true }) else (do
      buff ← receive_packet chunks (atoi size) 0 cleared
      ok (record s { shown = s.shown ++ buff ∷ [] }))
