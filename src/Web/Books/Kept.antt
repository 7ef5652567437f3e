-- ===== src/Web/Books/Kept.antt =====
-- The commands on books change neither the cookie nor the token.
use pc_communication_protoco.Prelude.{
  refl, ◌∙◌, none, some, List, [], ◌∷◌, Text, Bool-cases, inl, inr, if◌then◌else◌, text_eq, c_str,
  Run, ok, ◌>>=◌, Ends, Ends-map, Ends-bind, Ends-after, codes,
}
use pc_communication_protoco.Http.Request.{sprintf}
use pc_communication_protoco.Web.{
  buflen, JsonLibrary, enter_the_library_you_must, WebClient, show, read_word, strstr, no_book,
  not_a_number, the_books, the_book, book, details, error, deleted, added,
}
use pc_communication_protoco.Web.Exchange.{is_ok, report}
use pc_communication_protoco.Web.Request.{
  compute_get_request, compute_post_request, compute_delete_request,
}
use pc_communication_protoco.Web.Account.Kept.{
  Kept, KeptBy, read_word-Kept, show-Kept, Ends-exchange, Ends-prepared, report-Kept,
}
use pc_communication_protoco.Web.Books.{
  books_url, show_books, list_books, get_books, show_details, book_url, get_book, atoi_zero,
  read_page_count, read_book, add_book, delete_book,
}

-- What is kept from a state on that was kept itself.
Kept-from : (c c' : WebClient) (m : Run WebClient) → Kept c c' → Ends (Kept c') m → Ends (Kept c) m
Kept-from c c' m h e = Ends-map (λ d k. (k.0 ∙ h.0, k.1 ∙ h.1)) m e

show_books-Kept :
    (lib : JsonLibrary) (items : List lib.Json) (c : WebClient)
    → Ends (Kept c) (show_books lib items c)
unfolding show_books
show_books-Kept lib [] c = (refl, refl)
show_books-Kept lib (it ∷ items) c = Ends-after (Kept c) (lib.at it (codes "id")) _ (λ id.
    Ends-after (Kept c) (lib.at it (codes "title")) _ (λ title.
      let line = book (lib.print id) (lib.print title) in
      let c' = show line c in
      Kept-from c c' (show_books lib items c') (show-Kept line c) (show_books-Kept lib items c')))

list_books-Kept :
    (lib : JsonLibrary) (items : List lib.Json) (c : WebClient)
    → Ends (Kept c) (list_books lib items c)
unfolding list_books
list_books-Kept lib [] c = show-Kept no_book c
list_books-Kept lib (it ∷ items) c = show_books-Kept lib (it ∷ items) c

show_details-Kept :
    (lib : JsonLibrary) (items : List lib.Json) (c : WebClient)
    → Ends (Kept c) (show_details lib items c)
unfolding show_details
show_details-Kept lib [] c = (refl, refl)
show_details-Kept lib (it ∷ items) c = Ends-after (Kept c) (lib.at it (codes "title")) _ (λ title.
    Ends-after (Kept c) (lib.at it (codes "author")) _ (λ author.
      Ends-after (Kept c) (lib.at it (codes "publisher")) _ (λ publisher.
        Ends-after (Kept c) (lib.at it (codes "genre")) _ (λ genre.
          Ends-after (Kept c) (lib.at it (codes "page_count")) _ (λ page_count.
            let lines =
              lib.print title
              ∷ lib.print author
              ∷ lib.print publisher
              ∷ lib.print genre
              ∷ lib.print page_count
              ∷ [] in
            let c' = show (details lines) c in
            Kept-from c c' (show_details lib items c') (show-Kept (details lines) c)
              (show_details-Kept lib items c'))))))

-- What a command does with a response that is a success, and with any other.
respond-Kept :
    (lib : JsonLibrary) (c c' : WebClient) (response word : Text) (m : Run WebClient)
    → Kept c c'
    → Ends (Kept c') m
    → Ends (Kept c) (if is_ok response word then m else report lib error response c')
respond-Kept lib c c' response word m h e = elim (Bool-cases (is_ok response word)) [
  | inl success ↦ rw success (Kept-from c c' m h e)
  | inr other ↦
      rw other (Kept-from c c' (report lib error response c') h (report-Kept lib error response c'))
]

-- A command that the guard turns away, or lets go on.
guarded-Kept :
    (c : WebClient) (m : Run WebClient)
    → Ends (Kept c) m
    → Ends
        (Kept c)
        (if text_eq (c_str c.token) [] then ok (show enter_the_library_you_must c) else m)
guarded-Kept c m e = elim (Bool-cases (text_eq (c_str c.token) [])) [
  | inl outside ↦ rw outside (show-Kept enter_the_library_you_must c)
  | inr inside ↦ rw inside e
]

pub get_books-Kept : (lib : JsonLibrary) (c : WebClient) → Ends (Kept c) (get_books lib c)
unfolding get_books
get_books-Kept lib c = guarded-Kept c _ (
    Ends-exchange (Kept c) c (λ c. compute_get_request books_url none (some (c_str c.token))) _
      λ response c' text h. respond-Kept lib c c' response (codes "OK") _ h (
        Ends-after (Kept c') (lib.parse (strstr response (codes "["))) _ (λ j.
          Kept-from c' (show the_books c') _ (show-Kept the_books c')
            (list_books-Kept lib (lib.items j) (show the_books c')))))

pub get_book-Kept : (lib : JsonLibrary) (c : WebClient) → Ends (Kept c) (get_book lib c)
unfolding get_book
get_book-Kept lib c = guarded-Kept c _ (
    Ends-bind (KeptBy c) (Kept c) (read_word 10 none c) _ (read_word-Kept 10 none c) λ (id, c1) h1.
      Ends-exchange (Kept c) c1
        (λ c. book_url id >>= λ url. compute_get_request url none (some (c_str c.token))) _
        λ response c' text h.
          respond-Kept lib c c' response (codes "OK") _ (h.0 ∙ h1.0, h.1 ∙ h1.1)
            (Ends-after (Kept c') (lib.parse (strstr response (codes "["))) _ (λ j.
              Kept-from c' (show the_book c') _ (show-Kept the_book c')
                (show_details-Kept lib (lib.items j) (show the_book c')))))

pub delete_book-Kept : (lib : JsonLibrary) (c : WebClient) → Ends (Kept c) (delete_book lib c)
unfolding delete_book
delete_book-Kept lib c = guarded-Kept c _ (
    Ends-bind (KeptBy c) (Kept c) (read_word 10 none c) _ (read_word-Kept 10 none c) λ (id, c1) h1.
      Ends-prepared (Kept c) c1
        (book_url id >>= λ url. compute_delete_request url (some (c_str c1.token))) _
        λ response c' text h.
          respond-Kept lib c c' response (codes "OK") _ (h.0 ∙ h1.0, h.1 ∙ h1.1)
            (show-Kept (deleted id) c'))

read_page_count-Kept : (old : Text) (c : WebClient) → Ends (KeptBy c) (read_page_count old c)
unfolding read_page_count
read_page_count-Kept old c =
    Ends-bind (KeptBy c) (KeptBy c) (read_word 100 (some old) c) _ (read_word-Kept 100 (some old) c)
      λ (count, c1) h. elim (Bool-cases (atoi_zero count)) [
        | inl zero_pages ↦ rw zero_pages (
            Ends-map (λ r k. (k.0 ∙ h.0, k.1 ∙ h.1))
              (read_word 100 (some count) (show not_a_number c1))
              (read_word-Kept 100 (some count) (show not_a_number c1)))
        | inr number ↦ rw number h
      ]

read_book-Kept : (lib : JsonLibrary) (c : WebClient) → Ends (KeptBy c) (read_book lib c)
unfolding read_book
read_book-Kept lib c =
    Ends-bind (KeptBy c) (KeptBy c) (read_word 100 none c) _ (read_word-Kept 100 none c)
      λ (title, c1) h1.
        Ends-bind (KeptBy c1) (KeptBy c) (read_word 100 (some title) c1) _
          (read_word-Kept 100 (some title) c1)
          λ (author, c2) h2.
            Ends-bind (KeptBy c2) (KeptBy c) (read_word 100 (some author) c2) _
              (read_word-Kept 100 (some author) c2)
              λ (genre, c3) h3.
                Ends-bind (KeptBy c3) (KeptBy c) (read_word 100 (some genre) c3) _
                  (read_word-Kept 100 (some genre) c3)
                  λ (publisher, c4) h4.
                    Ends-bind (KeptBy c4) (KeptBy c) (read_page_count publisher c4) _
                      (read_page_count-Kept publisher c4)
                      λ (page_count, c5) h5.
                        Ends-after (KeptBy c)
                          (lib.dump (
                            (codes "title", title)
                            ∷ (codes "author", author)
                            ∷ (codes "genre", genre)
                            ∷ (codes "publisher", publisher)
                            ∷ (codes "page_count", page_count)
                            ∷ []))
                          _
                          λ dumped.
                            Ends-after (KeptBy c) (sprintf buflen (c_str dumped)) _ λ payload.
                              (h5.0 ∙ h4.0 ∙ h3.0 ∙ h2.0 ∙ h1.0, h5.1 ∙ h4.1 ∙ h3.1 ∙ h2.1 ∙ h1.1)

pub add_book-Kept : (lib : JsonLibrary) (c : WebClient) → Ends (Kept c) (add_book lib c)
unfolding add_book
add_book-Kept lib c = guarded-Kept c _ (
    Ends-bind (KeptBy c) (Kept c) (read_book lib c) _ (read_book-Kept lib c)
      λ ((title, payload), c1) h1.
        Ends-prepared (Kept c) c1 (compute_post_request books_url payload (some (c_str c1.token))) _
          λ response c' text h.
            respond-Kept lib c c' response (codes "OK") _ (h.0 ∙ h1.0, h.1 ∙ h1.1)
              (show-Kept (added title) c'))
