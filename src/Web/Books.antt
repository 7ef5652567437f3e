-- ===== src/Web/Books.antt =====
-- `get_books`, `get_book`, `add_book` and `delete_book` of `web client/actions.cpp`.
pub mod Kept
pub mod PageCount
use pc_communication_protoco.Prelude.{
  ℕ, ◌%◌, Bool, true, false, ◌||◌, Option, none, some, List, [], ◌∷◌, ◌++◌, Text, ◌==◌, leb, c_str,
  if◌then◌else◌, text_eq, atoi, Run, ok, fault, ◌>>=◌, codes,
}
use pc_communication_protoco.Http.Request.{sprintf}
use pc_communication_protoco.Web.{
  buflen, JsonLibrary, enter_the_library_you_must, added, deleted, no_book, not_a_number, the_books,
  the_book, error, book, details, WebClient, show, read_word, strstr,
}
use pc_communication_protoco.Web.Request.{
  compute_get_request, compute_post_request, compute_delete_request,
}
use pc_communication_protoco.Web.Exchange.{open_connection, talk, is_ok, report}

abbrev pub books_url : Text
books_url = codes "/api/v1/tema/library/books"

unfoldable pub show_books : (lib : JsonLibrary) → List lib.Json → WebClient → Run WebClient
unfolding show
show_books lib [] c = ok c
show_books lib (it ∷ items) c = do
  id ← lib.at it (codes "id")
  title ← lib.at it (codes "title")
  show_books lib items (show (book (lib.print id) (lib.print title)) c)

-- The lines for the books, or the one that there is none.
unfoldable pub list_books : (lib : JsonLibrary) → List lib.Json → WebClient → Run WebClient
unfolding show_books show
list_books lib [] c = ok (show no_book c)
list_books lib (it ∷ items) c = show_books lib (it ∷ items) c

unfoldable pub get_books : JsonLibrary → WebClient → Run WebClient
unfolding open_connection talk report show list_books
get_books lib c = if text_eq (c_str c.token) [] then ok (show enter_the_library_you_must c) else (do
  (sock, c) ← open_connection c
  message ← compute_get_request books_url none (some (c_str c.token))
  (response, c) ← talk sock message c
  if is_ok response (codes "OK")
      then (do
        j ← lib.parse (strstr response (codes "["))
        list_books lib (lib.items j) (show the_books c))
      else report lib error response c)

unfoldable pub show_details : (lib : JsonLibrary) → List lib.Json → WebClient → Run WebClient
unfolding show
show_details lib [] c = ok c
show_details lib (it ∷ items) c = do
  title ← lib.at it (codes "title")
  author ← lib.at it (codes "author")
  publisher ← lib.at it (codes "publisher")
  genre ← lib.at it (codes "genre")
  page_count ← lib.at it (codes "page_count")
  show_details lib items (
      show
        (details (
          lib.print title
          ∷ lib.print author
          ∷ lib.print publisher
          ∷ lib.print genre
          ∷ lib.print page_count
          ∷ []))
        c)

-- `sprintf` of the address of a book.
unfoldable pub book_url : Text → Run Text
unfolding sprintf
book_url id = sprintf 100 (books_url ++ codes "/" ++ id)

unfoldable pub get_book : JsonLibrary → WebClient → Run WebClient
unfolding open_connection talk report show show_details read_word book_url
get_book lib c = if text_eq (c_str c.token) [] then ok (show enter_the_library_you_must c) else (do
  (id, c) ← read_word 10 none c
  (sock, c) ← open_connection c
  message ← (do url ← book_url id; compute_get_request url none (some (c_str c.token)))
  (response, c) ← talk sock message c
  if is_ok response (codes "OK")
      then (do
        j ← lib.parse (strstr response (codes "["))
        show_details lib (lib.items j) (show the_book c))
      else report lib error response c)

-- `(int) strtol(digits) == 0`, which a `long` limits to its range; `minus` tells the sign.
unfoldable pub digits_zero : Bool → Text → Bool
digits_zero minus bs =
    let n = atoi bs in if leb n 9223372036854775807 then n % 4294967296 == 0 else minus

-- `atoi(read) == 0` of a word without a space in front.
unfoldable pub atoi_zero : Text → Bool
unfolding digits_zero
atoi_zero [] = true
atoi_zero (b ∷ bs) =
    if b == b'-'
    then digits_zero true bs
    else if b == b'+'
    then digits_zero false bs
    else digits_zero false (b ∷ bs)

-- A page count that `atoi` reads as 0 is asked for once more.
unfoldable pub read_page_count : Text → WebClient → Run (Text × WebClient)
unfolding read_word atoi_zero show
read_page_count old c = do
  (page_count, c) ← read_word 100 (some old) c
  if atoi_zero page_count
      then read_word 100 (some page_count) (show not_a_number c)
      else ok (page_count, c)

-- The title, which is printed later, and the payload.
unfoldable pub read_book : JsonLibrary → WebClient → Run ((Text × Text) × WebClient)
unfolding read_word read_page_count sprintf
read_book lib c = do
  (title, c) ← read_word 100 none c
  (author, c) ← read_word 100 (some title) c
  (genre, c) ← read_word 100 (some author) c
  (publisher, c) ← read_word 100 (some genre) c
  (page_count, c) ← read_page_count publisher c
  dumped ← lib.dump (
      (codes "title", title)
      ∷ (codes "author", author)
      ∷ (codes "genre", genre)
      ∷ (codes "publisher", publisher)
      ∷ (codes "page_count", page_count)
      ∷ [])
  payload ← sprintf buflen (c_str dumped)
  ok ((title, payload), c)

unfoldable pub add_book : JsonLibrary → WebClient → Run WebClient
unfolding open_connection talk report show read_book
add_book lib c = if text_eq (c_str c.token) [] then ok (show enter_the_library_you_must c) else (do
  ((title, payload), c) ← read_book lib c
  message ← compute_post_request books_url payload (some (c_str c.token))
  (sock, c) ← open_connection c
  (response, c) ← talk sock message c
  if is_ok response (codes "OK") then ok (show (added title) c) else report lib error response c)

unfoldable pub delete_book : JsonLibrary → WebClient → Run WebClient
unfolding open_connection talk report show read_word book_url
delete_book lib c =
    if text_eq (c_str c.token) [] then ok (show enter_the_library_you_must c) else (do
      (id, c) ← read_word 10 none c
      message ← (do url ← book_url id; compute_delete_request url (some (c_str c.token)))
      (sock, c) ← open_connection c
      (response, c) ← talk sock message c
      if is_ok response (codes "OK") then ok (show (deleted id) c) else report lib error response c)
