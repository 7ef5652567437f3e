-- ===== src/Multiplex.antt =====
-- The server of `labs/TCP_Multiplexare-lab8/server.c`, which passes messages between its clients.
pub mod Notices
pub mod Kept
pub mod Watched
pub mod Rounds
pub mod Messages
mod Examples
use pc_communication_protoco.Prelude.{
  ℕ, zero, suc, ◌+◌, ◌-◌, ◌*◌, Bool, true, false, not, ◌&&◌, ◌||◌, Option, none, some, List, [],
  ◌∷◌, ◌++◌, Text, ◌==◌, ltb, leb, if◌then◌else◌, length, take, drop, among, c_str, Run, ok, died,
  fault, ◌>>=◌, deref, codes, decimal, is_digit,
}
use pc_communication_protoco.Http.Request.{strcat, sprintf}

abbrev pub buflen : ℕ
buflen = 256

-- `read_fds`, `fdmax` and `clients`, whose length is `idx`; `sent` is what `send` was called with.
pub record Server : Type 0 where
  pub read_fds : List ℕ
  pub fdmax : ℕ
  pub clients : List ℕ
  pub sent : List (ℕ × Text)

-- What `accept` and `recv` return on a descriptor; `none` is an error.
pub record Events : Type 0 where
  pub accepted : Option ℕ
  pub received : ℕ → Option Text

abbrev pub newline : Text
newline = 10 ∷ []

unfoldable pub log : Server → ℕ → Text → Server
log s fd message = record s { sent = s.sent ++ (fd, message) ∷ [] }

-- The loop over the earlier clients: what is in `aux` behind it, and who was told.
unfoldable pub tell_clients : List ℕ → Text → Text → Server → Run (Text × Server)
unfolding strcat sprintf log
tell_clients [] new_client aux s = ok (aux, s)
tell_clients (client ∷ clients) new_client aux s = do
  cl ← sprintf 10 (decimal client)
  aux' ← strcat 100 aux cl
  aux'' ← strcat 100 aux' (codes " ")
  tell_clients clients new_client aux'' (log s client new_client)

abbrev pub list_title : Text
list_title = codes "Lista clientilor disponibili este: "

-- The branch for `sockfd`. `clients` has room for ten.
unfoldable pub on_accept : ℕ → Server → Run Server
unfolding tell_clients log
on_accept newsockfd s =
    if ltb (length s.clients) 10
    then (do
      let s' = record s {
        read_fds = newsockfd ∷ s.read_fds;
        fdmax = if ltb s.fdmax newsockfd then newsockfd else s.fdmax;
        clients = s.clients ++ newsockfd ∷ [];
      }
      new_client ← sprintf 100 (codes "Noul client disponibil: " ++ (decimal newsockfd ++ newline))
      (aux, told) ← tell_clients s.clients new_client list_title s'
      aux' ← strcat 100 aux newline
      ok (if ltb 1 (length s'.clients) then log told newsockfd aux' else told))
    else fault

-- The loop that tells of a closed connection, from index `k` on. It passes over the index, not the
-- socket, that is `i`.
unfoldable pub tell_closed : ℕ → ℕ → Text → List ℕ → Server → Server
unfolding log
tell_closed i k closed [] s = s
tell_closed i k closed (client ∷ clients) s =
    tell_closed i (suc k) closed clients (if k == i then s else log s client closed)

unfoldable pub remove_fd : ℕ → List ℕ → List ℕ
remove_fd i [] = []
remove_fd i (fd ∷ fds) = if fd == i then remove_fd i fds else fd ∷ remove_fd i fds

unfoldable pub on_closed : ℕ → Server → Run Server
unfolding tell_closed remove_fd sprintf
on_closed i s = do
  closed ←
      sprintf 100
        (codes "Socket-ul client " ++ (decimal i ++ (codes " a inchis conexiunea" ++ newline)))
  let told = tell_closed i 0 closed s.clients s
  ok (record told { read_fds = remove_fd i told.read_fds })

unfoldable pub read_number : ℕ → Text → ℕ
read_number acc [] = acc
read_number acc (b ∷ bs) = if is_digit b then read_number (acc * 10 + (b - 48)) bs else acc

-- The number of `sscanf("%d")` behind blanks and a sign; without a digit it stores nothing. An `int`
-- does not overflow here.
unfoldable pub scan_digits : Text → Option ℕ
unfolding read_number
scan_digits [] = none
scan_digits (b ∷ bs) = if is_digit b then some (read_number 0 (b ∷ bs)) else none

-- Whether the number has a minus sign, and its digits.
unfoldable pub scan_int : Text → Option (Bool × ℕ)
unfolding scan_digits
scan_int [] = none
scan_int (b ∷ bs) =
    let blank = scan_int bs in
    if (b == 32) || (leb 9 b && leb b 13)
    then blank
    else if b == b'-'
    then elim (scan_digits bs) [ none ↦ none | some n ↦ some (true, n) ]
    else if b == b'+'
    then elim (scan_digits bs) [ none ↦ none | some n ↦ some (false, n) ]
    else elim (scan_digits (b ∷ bs)) [ none ↦ none | some n ↦ some (false, n) ]

-- A message of `recv`. Without a number `dest` has no value; a text of less than two bytes is sent
-- with a huge length; one that fills the buffer has no terminator. A negative descriptor is refused.
unfoldable pub on_message : Text → Server → Run Server
unfolding scan_int log
on_message bytes s =
    let buffer = c_str bytes in
    if leb buflen (length buffer) then fault else (do
      (minus, dest) ← deref (scan_int buffer)
      if ltb (length buffer) 2
          then fault
          else if minus && not (dest == 0)
          then ok s
          else ok (log s dest (drop 2 buffer)))

unfoldable pub handle : ℕ → Events → ℕ → Server → Run Server
unfolding on_accept on_closed on_message
handle sockfd events i s =
    if i == sockfd
    then elim events.accepted [ none ↦ died | some newsockfd ↦ on_accept newsockfd s ]
    else elim (events.received i) [
      | none ↦ died
      | some [] ↦ on_closed i s
      | some (b ∷ bytes) ↦ on_message (b ∷ bytes) s
    ]

-- The loop over the descriptors from `i` on, for so many more; `tmp_fds` are the ready ones. Its
-- bound `fdmax` is read in each round.
unfoldable pub scan : ℕ → Events → List ℕ → ℕ → ℕ → Server → Run Server
unfolding handle
scan sockfd events tmp_fds zero i s = ok s
scan sockfd events tmp_fds (suc left) i s =
    if leb i s.fdmax
    then (do
      s' ← (if among i tmp_fds then handle sockfd events i s else ok s)
      scan sockfd events tmp_fds left (suc i) s')
    else ok s

unfoldable pub start : ℕ → Server
start sockfd = record { read_fds = sockfd ∷ []; fdmax = sockfd; clients = []; sent = [] }

-- One round of the loop after another: the ready descriptors, and what they give. A descriptor set
-- holds 1024.
unfoldable pub serve : ℕ → List (List ℕ × Events) → Server → Run Server
unfolding scan
serve sockfd [] s = ok s
serve sockfd ((tmp_fds, events) ∷ rounds) s = do
  s' ← scan sockfd events tmp_fds 1024 0 s
  serve sockfd rounds s'
