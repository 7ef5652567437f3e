-- ===== src/Backup.antt =====
-- The backup of files over UDP, `labs/Sockets UDP-lab6`: client.c and server.c. The network is the
-- list of the datagrams, in order. What an array holds before it is written is an argument.
pub mod Chunks
pub mod Files
mod Examples
use mathlib.Core.Option
use pc_communication_protoco.Prelude.{
  ℕ, zero, suc, ◌+◌, ◌-◌, ◌*◌, Bool, true, false, Option, none, some, List, [], ◌∷◌, ◌++◌, Text,
  ◌==◌, ltb, leb, if◌then◌else◌, length, take, drop, Run, ok, fault, ◌>>=◌, codes, decimal,
  is_digit,
}
use pc_communication_protoco.Http.Request.{sprintf}
use pc_communication_protoco.Web.{begins, strncpy_bytes}

abbrev pub buflen : ℕ
buflen = 1500

abbrev pub end_mark : Text
end_mark = codes "Gata boss"

-- A file: its name and what is in it.
abbrev pub File : Type 0
File = Text × Text

-- The loop over `read`. Each round takes a byte at least, so one round more than there are bytes is
-- enough.
unfoldable pub send_chunks : ℕ → Text → List Text
send_chunks zero contents = []
send_chunks (suc fuel) [] = []
send_chunks (suc fuel) (b ∷ contents) =
    take buflen (b ∷ contents) ∷ send_chunks fuel (drop buflen (b ∷ contents))

-- The datagrams for the files. A name that does not fit `buf` is a `fault`.
unfoldable pub send_files : List File → Run (List Text)
unfolding sprintf send_chunks
send_files [] = ok []
send_files ((name, contents) ∷ files) = do
  buf ← sprintf buflen name
  more ← send_files files
  ok (buf ∷ (send_chunks (suc (length contents)) contents ++ (end_mark ∷ more)))

unfoldable pub client : List File → Run (List Text)
unfolding send_files
client files = do datagrams ← send_files files; ok (decimal (length files) ∷ datagrams)

-- `recvfrom` into `buf`: the bytes behind the datagram stay.
unfoldable pub receive : Text → Text → Text
receive buf datagram = take buflen datagram ++ drop (length (take buflen datagram)) buf

-- `atoi` without blanks or a sign in front, in memory that ends: a number up to its end leads out of
-- it.
unfoldable pub atoi_in : ℕ → Text → Run ℕ
atoi_in acc [] = fault
atoi_in acc (b ∷ bs) = if is_digit b then atoi_in (acc * 10 + (b - 48)) bs else ok acc

-- The inner loop: what is written to the file, `buf`, and what is still to come. `none` is a server
-- that waits.
unfoldable pub receive_data : Text → List Text → Option (Text × Text × List Text)
unfolding receive
receive_data buf [] = none
receive_data buf (datagram ∷ datagrams) =
    let buf' = receive buf datagram in
    let dim = length (take buflen datagram) in
    let rest = receive_data buf' datagrams in
    if begins (take 7 end_mark) buf' then some ([], buf', datagrams) else elim rest [
      | none ↦ none
      | some (contents, buf'', left) ↦ some (take dim buf' ++ contents, buf'', left)
    ]

-- A C string in an array: without a terminator it leads out of it.
unfoldable pub string_in : Text → Run Text
string_in [] = fault
string_in (b ∷ bs) = let rest = string_in bs in if b == 0 then ok [] else (do t ← rest; ok (b ∷ t))

-- The name of the file that is created.
unfoldable pub new_name : Text → Text → ℕ → Run Text
unfolding string_in sprintf
new_name nf buf dim = do
  let nf' = strncpy_bytes dim buf ++ drop dim nf
  name ← string_in (drop 7 nf')
  sprintf buflen (codes "server_" ++ name)

-- The loop over the files. `nf i` is what the array `nF` holds at the start of round `i`. `none` is a
-- server that waits.
unfoldable pub serve_files : (ℕ → Text) → ℕ → ℕ → Text → List Text → Run (Option (List File))
unfolding new_name receive_data
serve_files nf zero i buf datagrams = ok (some [])
serve_files nf (suc left) i buf [] = ok none
serve_files nf (suc left) i buf (datagram ∷ datagrams) = do
  let buf' = receive buf datagram
  name ← new_name (nf i) buf' (length (take buflen datagram))
  elim (receive_data buf' datagrams) [
    | none ↦ ok none
    | some (contents, buf'', rest) ↦ (do
      more ← serve_files nf left (suc i) buf'' rest
      ok (Option.map (λ files. (name, contents) ∷ files) more))
  ]

-- `buf` is what the buffer holds at first. The files are in the order in which they were written.
unfoldable pub server : (ℕ → Text) → Text → List Text → Run (Option (List File))
unfolding atoi_in serve_files
server nf buf [] = ok none
server nf buf (datagram ∷ datagrams) = do
  let buf' = receive buf datagram
  num_files ← atoi_in 0 buf'
  serve_files nf num_files 0 buf' datagrams
