-- ===== src/Web/Books/PageCount.antt =====
-- The page count of a new book, and a server that does not answer.
use pc_communication_protoco.Prelude.{
  ℕ, ◌+◌, ◌%◌, ◌<◌, ◌≡◌, refl, sym, ap, ◌∙◌, true, false, Option, none, some, List, [], ◌∷◌,
  append-nil, Text, lt→ltb, length, c_str, ◌==◌, leb, atoi, decimal, atoi-decimal,
  print_digits-first, ok, died, >>=-ok, arith,
}
use pc_communication_protoco.Web.{
  JsonLibrary, Connection, not_a_number, WebClient, show, read_word, next_word, strstr, begins,
}
use pc_communication_protoco.Web.Request.{compute_get_request}
use pc_communication_protoco.Web.Exchange.{open_connection, talk, report}
use pc_communication_protoco.Web.Account.Strings.{is_empty}
use pc_communication_protoco.Web.Books.{
  books_url, get_books, digits_zero, atoi_zero, read_page_count,
}

-- A text that begins with a digit has no sign.
atoi_zero-digit :
    (d : ℕ) (rest : Text)
    → d < 10
    → atoi_zero ((48 + d) ∷ rest) ≡ digits_zero false ((48 + d) ∷ rest)
unfolding atoi_zero
atoi_zero-digit d rest digit =
    let no_minus : (48 + d == b'-') ≡ false = ground arith in
    let no_plus : (48 + d == b'+') ≡ false = ground arith in rw (no_minus, no_plus) refl

digits_zero-of :
    (n : ℕ) (bs : Text) → atoi bs ≡ n → n < 4294967296 → digits_zero false bs ≡ (n == 0)
unfolding digits_zero
digits_zero-of n bs e small =
    let fits : leb n 9223372036854775807 ≡ true = ground arith in
    let same : n % 4294967296 ≡ n = omega arith in rw (e, fits, same) refl

-- What a printed number is for `atoi`.
atoi_zero-decimal : (n : ℕ) → n < 4294967296 → atoi_zero (decimal n) ≡ (n == 0)
unfolding decimal
atoi_zero-decimal n small =
    let (d, rest, e, digit) = print_digits-first (n + 1) n [] (omega arith) in
    let read : atoi (decimal n) ≡ n =
      ap atoi (sym (append-nil (decimal n))) ∙ atoi-decimal n [] tt in
    ap atoi_zero e
    ∙ atoi_zero-digit d rest digit
    ∙ digits_zero-of n ((48 + d) ∷ rest) (ap atoi (sym e) ∙ read) small

next_word-there :
    (room : ℕ) (old : Option Text) (w : Text) (words : List Text)
    → length w < room
    → next_word room old (w ∷ words) ≡ ok (w, words)
unfolding next_word
next_word-there room none w words short = rw (lt→ltb (length w) room short)
next_word-there room (some old) w words short = rw (lt→ltb (length w) room short)

-- A page count above 0 is taken; for a page count of 0 the next word is taken as it is.
pub read_page_count-once :
    (c : WebClient) (old w : Text) (words : List Text) (n : ℕ)
    → c.words ≡ decimal n ∷ w ∷ words
    → n < 4294967296
    → length (decimal n) < 100
    → length w < 100
    → (0 < n → read_page_count old c ≡ ok (decimal n, record c { words = w ∷ words }))
      × (n ≡ 0 → read_page_count old c ≡ ok (w, record (show not_a_number c) { words = words }))
unfolding read_page_count read_word show
read_page_count-once c old w words n given small short short' =
    let first : next_word 100 (some old) c.words ≡ ok (decimal n, w ∷ words) =
      ap (next_word 100 (some old)) given
      ∙ next_word-there 100 (some old) (decimal n) (w ∷ words) short in
    let second = next_word-there 100 (some (decimal n)) w words short' in
    let test = atoi_zero-decimal n small in
    (
      λ pos. let number : (n == 0) ≡ false = ground arith in rw (first, test, number) refl,
      λ none_given.
          let zero_pages : (n == 0) ≡ true = ground arith in
          rw (first, test, zero_pages) (rw second refl),
    )

-- An empty answer stops the program, if the JSON library takes no null pointer.
pub get_books-silent :
    (lib : JsonLibrary) (c c1 c2 : WebClient) (sock : Connection) (message : Text)
    → lib.parse none ≡ died
    → is_empty c.token ≡ false
    → open_connection c ≡ ok (sock, c1)
    → compute_get_request books_url none (some (c_str c1.token)) ≡ ok message
    → talk sock message c1 ≡ ok ([], c2)
    → get_books lib c ≡ died
unfolding get_books report strstr begins
get_books-silent lib c c1 c2 sock message null inside opened request answer =
    rw inside (>>=-ok _ opened (>>=-ok _ request (>>=-ok _ answer (rw null refl))))
