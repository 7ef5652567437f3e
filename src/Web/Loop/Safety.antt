-- ===== src/Web/Loop/Safety.antt =====
-- What every run of the web client's loop keeps to.
use pc_communication_protoco.Prelude.{
  NoNul, drop-NoNul, c_str-NoNul_eq, ℕ, zero, suc, ◌≤◌, ◌<◌, ◌≡◌, ◌≢◌, refl, ap, ◌∙◌, true, false,
  Option, none, some, List, [], ◌∷◌, ◌++◌, Text, text_eq, text_eq_ne, length, drop, c_str, Run, ok,
  ◌>>=◌, Ends, Ends-map, Ends-bind, Ends-after, Ends-at, codes, arith,
}
use pc_communication_protoco.Subscriber.Commands.{IsWord}
use pc_communication_protoco.Web.{
  buflen, JsonLibrary, Shown, login_you_must, enter_the_library_you_must, show, Connection,
  WebClient, next_word, read_word, clear_buffer, strstr,
}
use pc_communication_protoco.Web.Request.{compute_post_request}
use pc_communication_protoco.Web.Exchange.{open_connection, talk, is_ok}
use pc_communication_protoco.Web.Account.{read_account, login_client, enter_library, logout_client}
use pc_communication_protoco.Web.Account.Kept.{Kept, KeptBy, read_word-Kept}
use pc_communication_protoco.Web.Account.Strings.{is_empty}
use pc_communication_protoco.Web.Account.After.{logout_client-Kept}
use pc_communication_protoco.Web.Account.Cookie.{login_client-cookie}
use pc_communication_protoco.Web.Books.{get_books, get_book, add_book, delete_book}
use pc_communication_protoco.Web.Loop.{start, on_logout, dispatch, round, run}
use pc_communication_protoco.Web.Loop.Session.{
  Valid, anonymous, phase, Stepped, dispatch-Stepped, on_logout-Stepped, enter_library-outside,
  branch,
}

-- The state in which the command is carried out.
abbrev pub with_command : Text → WebClient → WebClient
with_command command c = record c { command = some command }

-- What a step from a state with the same cookie and token comes to.
Stepped-from :
    {command : Text} {c c' d : WebClient} → Kept c c' → Stepped command c' d → Stepped command c d
unfolding phase
Stepped-from {command} {c} {c'} {d} h s = record {
  valid = s.valid;
  moves = rw (← h.0, ← h.1) s.moves;
}

Kept-Valid : {c c' : WebClient} → Kept c c' → Valid c → Valid c'
Kept-Valid h v = record {
  cookie_first = rw (h.0, h.1) v.cookie_first;
  cookie_fits = rw h.0 v.cookie_fits;
  token_fits = rw h.1 v.token_fits;
}

logged_out :
    (lib : JsonLibrary) (c : WebClient)
    → Valid c
    → Ends
        (λ c'. phase c' ≡ anonymous)
        (dispatch lib (codes "logout") (with_command (codes "logout") c))
unfolding dispatch text_eq
logged_out lib c v =
    let c' = with_command (codes "logout") c in
    Ends-map (λ d h. h.1) (on_logout lib c')
      (on_logout-Stepped lib (codes "logout") c' (Kept-Valid {c = c} (refl, refl) v) refl)

module _ (lib : JsonLibrary) (c c1 : WebClient) (command : Text) (v : Valid c) where
  -- A round of the web client's loop that ends well, with the command it reads, keeps the session
  -- valid and moves its phase as the abstract session allows: `login` may take it from no cookie to
  -- a cookie, `enter_library` from a cookie to a token or back, `logout` to no cookie, and no other
  -- command changes it; after `logout` there is neither, whatever the server answered.
  pub round-Stepped :
      read_word 100 c.command c ≡ ok (command, c1)
      → Ends (Stepped command c) (round lib c)
        × (command ≡ codes "logout" → Ends (λ c'. phase c' ≡ anonymous) (round lib c))
  unfolding round
  round-Stepped e =
      let k : Kept c c1 =
        Ends-at (KeptBy c) (read_word 100 c.command c) (read_word-Kept 100 c.command c) e in
      let c2 = with_command command c1 in
      let v2 : Valid c2 = Kept-Valid {c = c} k v in
      let k2 : Kept c c2 = (k.0, k.1) in
      (
        rw e (
            Ends-map (λ d s. Stepped-from {c' = c2} k2 s) (dispatch lib command c2)
              (dispatch-Stepped lib command c2 v2)),
        λ logout. rw (e, logout) (logged_out lib c1 (Kept-Valid {c = c} k v)),
      )

round-Valid : (lib : JsonLibrary) (c : WebClient) → Valid c → Ends Valid (round lib c)
unfolding round
round-Valid lib c v =
    Ends-bind (KeptBy c) Valid (read_word 100 c.command c) _ (read_word-Kept 100 c.command c)
      λ (command, c1) k.
        let c2 = with_command command c1 in
        Ends-map (λ d s. s.valid) (dispatch lib command c2)
          (dispatch-Stepped lib command c2 (Kept-Valid {c = c} k v))

run-Valid-from :
    (lib : JsonLibrary) (rounds : ℕ) (c : WebClient) → Valid c → Ends Valid (run lib rounds c)
unfolding run
run-Valid-from lib zero c v = v
run-Valid-from lib (suc rounds) c v =
    branch Valid c.running (round lib c >>= λ c'. run lib rounds c') (ok c)
      (λ _.
        Ends-bind Valid Valid (round lib c) _ (round-Valid lib c v)
          (λ c' v'. run-Valid-from lib rounds c' v'))
      v

-- From the start, after any number of rounds of any input and any answers, nothing was written
-- behind the buffers of the cookie and of the token, and there is no token without a cookie, unless
-- the program was stopped or touched other memory.
pub run-Valid :
    (lib : JsonLibrary) (rounds : ℕ) (words : List Text) (connections : List (Option Connection))
    → Ends Valid (run lib rounds (start words connections))
unfolding start c_str text_eq
run-Valid lib rounds words connections =
    run-Valid-from lib rounds (start words connections)
      (record { cookie_first = λ _. refl; cookie_fits = omega arith; token_fits = omega arith })

-- Nothing was sent, and no connection opened.
abbrev pub Quiet : WebClient → WebClient → Type 0
Quiet c c' = (c'.sent ≡ c.sent) × (c'.connections ≡ c.connections)

read_word-Quiet :
    (room : ℕ) (old : Option Text) (c : WebClient) → Ends (λ r. Quiet c r.1) (read_word room old c)
unfolding read_word
read_word-Quiet room old c =
    Ends-after (λ r. Quiet c r.1) (next_word room old c.words) _ (λ r. (refl, refl))

-- A message is all that a command comes to.
message-Quiet :
    (c : WebClient) (m : Run WebClient) (s : Shown) → m ≡ ok (show s c) → Ends (Quiet c) m
unfolding show
message-Quiet c m s e = rw e (refl, refl)

module _ (lib : JsonLibrary) (c : WebClient) (v : Valid c)
    (outside : is_empty c.cookie ≡ true) where
  dispatch-Quiet :
      (command : Text)
      → text_eq command (codes "register") ≡ false
      → text_eq command (codes "login") ≡ false
      → Ends (Quiet c) (dispatch lib command c)
  unfolding dispatch get_books get_book add_book delete_book on_logout
  dispatch-Quiet command not_register not_login =
      let no_token : is_empty c.token ≡ true = v.cookie_first outside in
      rw (not_register, not_login)
        (branch (Quiet c) (text_eq command (codes "exit")) _ _ (λ _. (refl, refl))
          (branch (Quiet c) (text_eq command (codes "enter_library")) (enter_library lib c) _
            (λ _. message-Quiet c _ login_you_must (enter_library-outside lib c outside))
            (branch (Quiet c) (text_eq command (codes "get_books")) (get_books lib c) _
              (λ _. message-Quiet c _ enter_the_library_you_must (rw no_token refl))
              (branch (Quiet c) (text_eq command (codes "get_book")) (get_book lib c) _
                (λ _. message-Quiet c _ enter_the_library_you_must (rw no_token refl))
                (branch (Quiet c) (text_eq command (codes "add_book")) (add_book lib c) _
                  (λ _. message-Quiet c _ enter_the_library_you_must (rw no_token refl))
                  (branch (Quiet c) (text_eq command (codes "delete_book")) (delete_book lib c) _
                    (λ _. message-Quiet c _ enter_the_library_you_must (rw no_token refl))
                    (branch (Quiet c) (text_eq command (codes "logout")) (on_logout lib c) (ok c)
                      (λ _. rw outside (refl, refl)) (refl, refl))))))))

-- Without a cookie, in a valid session, a round with any command but `register` and `login` opens
-- no connection and sends nothing.
pub round-outside :
    (lib : JsonLibrary) (c c1 : WebClient) (command : Text)
    → Valid c
    → is_empty c.cookie ≡ true
    → read_word 100 c.command c ≡ ok (command, c1)
    → command ≢ codes "register"
    → command ≢ codes "login"
    → Ends (Quiet c) (round lib c)
unfolding round
round-outside lib c c1 command v outside e not_register not_login =
    let old = c.command in
    let k : Kept c c1 = Ends-at (KeptBy c) (read_word 100 old c) (read_word-Kept 100 old c) e in
    let q : Quiet c c1 =
      Ends-at (λ r. Quiet c r.1) (read_word 100 old c) (read_word-Quiet 100 old c) e in
    let c2 = with_command command c1 in
    rw e (
      Ends-map (λ d q'. (q'.0 ∙ q.0, q'.1 ∙ q.1)) (dispatch lib command c2)
        (dispatch-Quiet lib c2 (Kept-Valid {c = c} k v) (rw k.0 outside) command
          (text_eq_ne command (codes "register") not_register)
          (text_eq_ne command (codes "login") not_login)))

on_logout-cookie :
    (lib : JsonLibrary) (c : WebClient)
    → Ends (λ c'. c'.cookie ≡ clear_buffer c.cookie) (on_logout lib c)
unfolding on_logout
on_logout-cookie lib c =
    Ends-bind (Kept c) (λ c'. c'.cookie ≡ clear_buffer c.cookie) (logout_client lib c) _
      (logout_client-Kept lib c) (λ c' h. ap clear_buffer h.0)

-- Behind the new cookie, the cleared buffer holds the old one.
behind :
    (cookie old : Text)
    → 0 < length cookie
    → NoNul old
    → c_str (drop (length cookie) (clear_buffer old)) ≡ drop (length cookie) old
unfolding clear_buffer c_str
behind [] old pos h = absurd (omega arith)
behind (b ∷ []) [] pos h = refl
behind (b ∷ x ∷ cookie) [] pos h = refl
behind (b ∷ cookie) (y ∷ old) pos h =
    c_str-NoNul_eq (drop (length cookie) old) (drop-NoNul (length cookie) old h.1)

-- After a `logout` of a client with any cookie, a login whose answer carries a cookie of at least
-- one byte without a space leaves that cookie followed by the bytes of the old one behind its
-- length.
pub login_client-stale :
    (lib : JsonLibrary) (c0 c c1 c2 c3 : WebClient) (sock : Connection)
    (username payload message response cookie rest : Text) (last : ℕ)
    → on_logout lib c0 ≡ ok c
    → read_account lib c ≡ ok ((username, payload), c1)
    → open_connection c1 ≡ ok (sock, c2)
    → compute_post_request (codes "/api/v1/tema/auth/login") payload none ≡ ok message
    → talk sock message c2 ≡ ok (response, c3)
    → is_ok response (codes "OK") ≡ true
    → strstr response (codes "Set-Cookie: ")
      ≡ some (codes "Set-Cookie: " ++ (cookie ++ last ∷ []) ++ 32 ∷ rest)
    → NoNul cookie
    → IsWord cookie
    → last ≢ 0
    → last ≢ 32
    → length cookie ≤ buflen
    → 0 < length cookie
    → NoNul c0.cookie
    → (c4 : WebClient) × (login_client lib c ≡ ok c4)
      × (c_str c4.cookie ≡ cookie ++ drop (length cookie) c0.cookie)
unfolding on_logout
login_client-stale lib c0 c c1 c2 c3 sock username payload message response cookie rest last out
      account opened request answer success found text word end end' fits some_bytes old =
    let (c4, done, cookie4, token4, shown4) =
      login_client-cookie response cookie rest last lib c c1 c2 c3 sock username payload message
        account opened request answer success found text word end end' fits in
    let cleared : c.cookie ≡ clear_buffer c0.cookie =
      Ends-at (λ c. c.cookie ≡ clear_buffer c0.cookie) (on_logout lib c0) (on_logout-cookie lib c0)
        out in
    (
      c4,
      done,
      cookie4
          ∙ ap (λ (t : Text). cookie ++ c_str (drop (length cookie) t)) cleared
          ∙ ap (λ (t : Text). cookie ++ t) (behind cookie c0.cookie some_bytes old),
    )
