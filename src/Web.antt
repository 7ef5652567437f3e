-- ===== src/Web.antt =====
-- The client of the library service, `web client/`: the program's state, the JSON library that it
-- calls, and the library functions on strings.
pub mod Request
pub mod Exchange
pub mod Account
pub mod Books
pub mod Loop
mod Examples
use pc_communication_protoco.Prelude.{
  ℕ, zero, suc, ◌+◌, Bool, true, false, ◌&&◌, Option, none, some, List, [], ◌∷◌, ◌++◌, Text, ◌==◌,
  ltb, leb, if◌then◌else◌, length, take, drop, Run, ok, fault, ◌>>=◌,
}
use pc_communication_protoco.Http.Response.{Reads}

abbrev pub buflen : ℕ
buflen = 4096

-- nlohmann::json: `parse` of a pointer that can be NULL, `at`, `value(key, "")`, the elements that a
-- loop goes through (`empty()` is that there are none), `dump(4)` of an object with these members,
-- and what `<<` prints. An exception that nothing catches is `died`.
pub record JsonLibrary : Type 1 where
  pub Json : Type 0
  pub parse : Option Text → Run Json
  pub at : Json → Text → Run Json
  pub value : Json → Text → Run Text
  pub items : Json → List Json
  pub dump : List (Text × Text) → Run Text
  pub print : Json → Text

-- What the program prints, without the prompts: the text of a message, and what it quotes.
pub data Shown : Type 0 where
  login_you_must enter_the_library_you_must too_many_requests : Shown
  registered logged_in added deleted : Text → Shown
  entered logged_out no_book not_a_number the_books the_book : Shown
  error failed : Text → Shown
  book : Text → Text → Shown
  details : List Text → Shown

-- What `write` and `read` return on a socket.
pub record Connection : Type 0 where
  pub writes : List (Option ℕ)
  pub reads : Reads

-- The variables of `main`: `cookie` and `token` are the bytes of their buffers up to the last one
-- ever written, and zeros follow them; `command` is `none` before the first command. Then the words
-- of the standard input, the sockets still to come (`none` is one that cannot be opened), what was
-- sent and what was printed. The buffer `payload` is written before each use, and is no state.
pub record WebClient : Type 0 where
  pub cookie : Text
  pub token : Text
  pub command : Option Text
  pub words : List Text
  pub connections : List (Option Connection)
  pub sent : List Text
  pub shown : List Shown
  pub running : Bool

unfoldable pub show : Shown → WebClient → WebClient
show s c = record c { shown = c.shown ++ s ∷ [] }

-- `cin >> buffer` and `fscanf("%s")` into a buffer of this many bytes. At the end of the input the
-- buffer keeps what it holds; a word that is too long is written behind its end.
unfoldable pub next_word : ℕ → Option Text → List Text → Run (Text × List Text)
next_word room none [] = fault
next_word room (some old) [] = ok (old, [])
next_word room old (w ∷ words) = if ltb (length w) room then ok (w, words) else fault

unfoldable pub read_word : ℕ → Option Text → WebClient → Run (Text × WebClient)
unfolding next_word
read_word room old c = do
  (w, words) ← next_word room old c.words
  ok (w, record c { words = words })

-- Whether the text begins with the word.
unfoldable pub begins : Text → Text → Bool
begins [] bs = true
begins (w ∷ word) [] = false
begins (w ∷ word) (b ∷ bs) = (w == b) && begins word bs

-- `strstr(text, word)`; `none` is NULL.
unfoldable pub strstr : Text → Text → Option Text
unfolding begins
strstr [] word = if begins word [] then some [] else none
strstr (b ∷ bs) word = if begins word (b ∷ bs) then some (b ∷ bs) else strstr bs word

-- The `n` bytes that `strncpy` writes.
unfoldable pub strncpy_bytes : ℕ → Text → Text
strncpy_bytes zero src = []
strncpy_bytes (suc n) [] = 0 ∷ strncpy_bytes n []
strncpy_bytes (suc n) (b ∷ src) = if b == 0 then 0 ∷ strncpy_bytes n [] else b ∷ strncpy_bytes n src

-- `strncpy` to the start of one of the two buffers.
unfoldable pub strncpy : Text → Text → ℕ → Run Text
unfolding strncpy_bytes
strncpy dest src n = if leb n buflen then ok (strncpy_bytes n src ++ drop n dest) else fault

-- `strcpy(buffer, "")`.
unfoldable pub clear_buffer : Text → Text
clear_buffer buf = 0 ∷ drop 1 buf
