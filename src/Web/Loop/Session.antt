-- ===== src/Web/Loop/Session.antt =====
-- The session of the web client: who may do what, and what a command makes of it.
use pc_communication_protoco.Prelude.{
  ◌≤◌, ◌≡◌, refl, Bool, true, false, [], ◌∷◌, Text, Bool-cases, inl, inr, if◌then◌else◌, text_eq,
  text_eq→eq, length, c_str, Run, ok, Ends, Ends-map, Ends-bind, codes, arith,
}
use pc_communication_protoco.Web.{
  buflen, JsonLibrary, login_you_must, show, WebClient, clear_buffer,
}
use pc_communication_protoco.Web.Account.{
  register_client, login_client, enter_library, logout_client,
}
use pc_communication_protoco.Web.Account.Kept.{Kept, show-Kept}
use pc_communication_protoco.Web.Account.Strings.{is_empty}
use pc_communication_protoco.Web.Account.After.{
  LoggedIn, Entered, register_client-Kept, login_client-LoggedIn, enter_library-Entered,
  logout_client-Kept,
}
use pc_communication_protoco.Web.Books.{get_books, get_book, add_book, delete_book}
use pc_communication_protoco.Web.Books.Kept.{
  get_books-Kept, get_book-Kept, add_book-Kept, delete_book-Kept,
}
use pc_communication_protoco.Web.Loop.{on_logout, dispatch}

-- No token without a cookie, and both buffers in their bounds.
pub record Valid (c : WebClient) : Type 0 where
  pub cookie_first : is_empty c.cookie ≡ true → is_empty c.token ≡ true
  pub cookie_fits : length c.cookie ≤ buflen
  pub token_fits : length c.token ≤ buflen

pub data Phase : Type 0 where
  anonymous with_cookie in_library : Phase

unfoldable pub phase_of : Bool → Bool → Phase
phase_of true t = anonymous
phase_of false true = with_cookie
phase_of false false = in_library

unfoldable pub phase : WebClient → Phase
unfolding phase_of
phase c = phase_of (is_empty c.cookie) (is_empty c.token)

-- What a command may make of the phase.
pub data Moves (command : Text) : Phase → Phase → Type 0 where
  stay : (p : Phase) → Moves command p p
  log_in : command ≡ codes "login" → Moves command anonymous with_cookie
  enter : command ≡ codes "enter_library" → Moves command with_cookie in_library
  lose_token : command ≡ codes "enter_library" → Moves command in_library with_cookie
  log_out : (p : Phase) → command ≡ codes "logout" → Moves command p anonymous

-- A round of the loop with this command.
pub record Stepped (command : Text) (c c' : WebClient) : Type 0 where
  pub valid : Valid c'
  pub moves : Moves command (phase c) (phase c')

login-Moves :
    {command : Text} (cookie token cookie' : Bool)
    → command ≡ codes "login"
    → (cookie ≡ true → token ≡ true)
    → (cookie ≡ false → cookie' ≡ false)
    → Moves command (phase_of cookie token) (phase_of cookie' token)
unfolding phase_of
login-Moves true true true e h k = stay anonymous
login-Moves true true false e h k = log_in e
login-Moves true false cookie' e h k = absurd (cc (h refl))
login-Moves false token true e h k = absurd (cc (k refl))
login-Moves false token false e h k = stay (phase_of false token)

enter-Moves :
    {command : Text} (cookie token token' : Bool)
    → command ≡ codes "enter_library"
    → Moves command (phase_of cookie token) (phase_of cookie token')
unfolding phase_of
enter-Moves true token token' e = stay anonymous
enter-Moves false true true e = stay with_cookie
enter-Moves false true false e = enter e
enter-Moves false false true e = lose_token e
enter-Moves false false false e = stay in_library

module _ (command : Text) (c c' : WebClient) (v : Valid c) where
  pub Kept-Stepped : Kept c c' → Stepped command c c'
  unfolding phase
  Kept-Stepped h = record {
    valid = record {
      cookie_first = rw (h.0, h.1) v.cookie_first;
      cookie_fits = rw h.0 v.cookie_fits;
      token_fits = rw h.1 v.token_fits;
    };
    moves = rw (h.0, h.1) (stay (phase c));
  }

  LoggedIn-Stepped : command ≡ codes "login" → LoggedIn c c' → Stepped command c c'
  unfolding phase
  LoggedIn-Stepped e l = record {
    valid = record {
      cookie_first = rw l.token_kept (still l);
      cookie_fits = l.cookie_fits v.cookie_fits;
      token_fits = rw l.token_kept v.token_fits;
    };
    moves = rw l.token_kept (
        login-Moves (is_empty c.cookie) (is_empty c.token) (is_empty c'.cookie) e v.cookie_first
          l.cookie_stays);
  }
    where
      still : LoggedIn c c' → is_empty c'.cookie ≡ true → is_empty c.token ≡ true
      still l none_now = elim (Bool-cases (is_empty c.cookie)) [
        | inl none_before ↦ v.cookie_first none_before
        | inr some_before ↦ absurd (cc (l.cookie_stays some_before))
      ]

  Entered-Stepped :
      command ≡ codes "enter_library"
      → is_empty c.cookie ≡ false
      → Entered c c'
      → Stepped command c c'
  unfolding phase
  Entered-Stepped e inside l = record {
    valid = record {
      cookie_first = rw l.cookie_kept (λ outside. cc);
      cookie_fits = rw l.cookie_kept v.cookie_fits;
      token_fits = l.token_fits v.token_fits;
    };
    moves =
        rw l.cookie_kept (enter-Moves (is_empty c.cookie) (is_empty c.token) (is_empty c'.token) e);
  }

-- Without a cookie, or without a token, the commands that need it change nothing.
pub enter_library-outside :
    (lib : JsonLibrary) (c : WebClient)
    → is_empty c.cookie ≡ true
    → enter_library lib c ≡ ok (show login_you_must c)
unfolding enter_library
enter_library-outside lib c e = rw e refl

pub logout_client-outside :
    (lib : JsonLibrary) (c : WebClient)
    → is_empty c.cookie ≡ true
    → logout_client lib c ≡ ok (show login_you_must c)
unfolding logout_client
logout_client-outside lib c e = rw e refl

enter_library-Stepped :
    (lib : JsonLibrary) (command : Text) (c : WebClient)
    → Valid c
    → command ≡ codes "enter_library"
    → Ends (Stepped command c) (enter_library lib c)
enter_library-Stepped lib command c v e = elim (Bool-cases (is_empty c.cookie)) [
  | inl outside ↦
      rw (enter_library-outside lib c outside)
        (Kept-Stepped command c (show login_you_must c) v (show-Kept login_you_must c))
  | inr inside ↦
      Ends-map (λ d l. Entered-Stepped command c d v e inside l) (enter_library lib c)
        (enter_library-Entered lib c)
]

pub on_logout-Stepped :
    (lib : JsonLibrary) (command : Text) (c : WebClient)
    → Valid c
    → command ≡ codes "logout"
    → Ends (λ c'. Stepped command c c' × (phase c' ≡ anonymous)) (on_logout lib c)
unfolding on_logout phase phase_of clear_buffer c_str text_eq
on_logout-Stepped lib command c v e =
    Ends-bind (Kept c) (λ c'. Stepped command c c' × (phase c' ≡ anonymous)) (logout_client lib c) _
      (logout_client-Kept lib c)
      (λ c' h. (
        record {
          valid = record {
            cookie_first = λ _. refl;
            cookie_fits = cleared c'.cookie (rw h.0 v.cookie_fits);
            token_fits = cleared c'.token (rw h.1 v.token_fits);
          };
          moves = log_out (phase c) e;
        },
        refl,
      ))
  where
    cleared : (t : Text) → length t ≤ buflen → length (clear_buffer t) ≤ buflen
    cleared [] h = omega arith
    cleared (b ∷ t) h = h

-- One branch of a chain of tests.
pub branch :
    (Q : WebClient → Type 0) (b : Bool) (m n : Run WebClient)
    → (b ≡ true → Ends Q m)
    → Ends Q n
    → Ends Q (if b then m else n)
branch Q true m n h k = h refl
branch Q false m n h k = k

module _ (lib : JsonLibrary) (command : Text) (c : WebClient) (v : Valid c) where
  Unchanged-Stepped : (m : Run WebClient) → Ends (Kept c) m → Ends (Stepped command c) m
  Unchanged-Stepped m e = Ends-map (λ d h. Kept-Stepped command c d v h) m e

  pub dispatch-Stepped : Ends (Stepped command c) (dispatch lib command c)
  unfolding dispatch
  dispatch-Stepped =
      branch (Stepped command c) (text_eq command (codes "exit")) _ _
        (λ _. Kept-Stepped command c (record c { running = false }) v (refl, refl))
        (branch (Stepped command c) (text_eq command (codes "register")) (register_client lib c) _
          (λ _. Unchanged-Stepped (register_client lib c) (register_client-Kept lib c))
          (branch (Stepped command c) (text_eq command (codes "login")) (login_client lib c) _
            (λ e.
              Ends-map
                (λ d l. LoggedIn-Stepped command c d v (text_eq→eq command (codes "login") e) l)
                (login_client lib c) (login_client-LoggedIn lib c))
            (branch (Stepped command c) (text_eq command (codes "enter_library"))
              (enter_library lib c) _
              (λ e.
                enter_library-Stepped lib command c v
                  (text_eq→eq command (codes "enter_library") e))
              (branch (Stepped command c) (text_eq command (codes "get_books")) (get_books lib c) _
                (λ _. Unchanged-Stepped (get_books lib c) (get_books-Kept lib c))
                (branch (Stepped command c) (text_eq command (codes "get_book")) (get_book lib c) _
                  (λ _. Unchanged-Stepped (get_book lib c) (get_book-Kept lib c))
                  (branch (Stepped command c) (text_eq command (codes "add_book")) (add_book lib c)
                    _ (λ _. Unchanged-Stepped (add_book lib c) (add_book-Kept lib c))
                    (branch (Stepped command c) (text_eq command (codes "delete_book"))
                      (delete_book lib c) _
                      (λ _. Unchanged-Stepped (delete_book lib c) (delete_book-Kept lib c))
                      (branch (Stepped command c) (text_eq command (codes "logout"))
                        (on_logout lib c) (ok c)
                        (λ e.
                          Ends-map (λ d h. h.0) (on_logout lib c)
                            (on_logout-Stepped lib command c v
                              (text_eq→eq command (codes "logout") e)))
                        (Kept-Stepped command c c v (refl, refl))))))))))
