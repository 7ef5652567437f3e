-- ===== src/Web/Account/Cookie.antt =====
-- The cookie that a login leaves behind, and the token.
use pc_communication_protoco.Prelude.{
  NoNul, c_str-append, ℕ, zero, suc, ◌-◌, ◌≤◌, ◌<◌, ◌≡◌, ◌≢◌, refl, ap, ◌∙◌, sym, true, false,
  Option, none, some, [], ◌∷◌, ◌++◌, Text, leb, length, length-append, take, drop, c_str,
  All-append, ok, ◌>>=◌, >>=-ok, codes, arith, deref, Ends-at,
}
use pc_communication_protoco.Subscriber.{strtok}
use pc_communication_protoco.Subscriber.Commands.{IsWord, strtok-word}
use pc_communication_protoco.Web.{
  buflen, JsonLibrary, logged_in, entered, Connection, WebClient, show, strstr, strncpy,
  strncpy_bytes,
}
use pc_communication_protoco.Web.Request.{compute_get_request, compute_post_request}
use pc_communication_protoco.Web.Exchange.{open_connection, talk, is_ok}
use pc_communication_protoco.Web.Account.{
  read_account, login_client, second_token, cookie_of, store_cookie, store_token, enter_library,
}
use pc_communication_protoco.Web.Account.Kept.{
  Kept, KeptBy, Answered, read_account-Kept, open_connection-Kept, talk-Answered,
}
use pc_communication_protoco.Web.Account.Strings.{is_empty, strncpy_bytes-take, c_str-strncpy_bytes}

take-end : (n : ℕ) (t : Text) (b : ℕ) → length t ≡ n → take n (t ++ b ∷ []) ≡ t
take-end zero [] b e = refl
take-end (suc n) [] b e = absurd (omega arith)
take-end zero (x ∷ t) b e = absurd (omega arith)
take-end (suc n) (x ∷ t) b e = ap (λ (s : Text). x ∷ s) (take-end n t b (omega arith))

-- The bytes of a cookie, and the byte behind it that is not copied.
strncpy-cookie :
    (old cookie : Text) (last : ℕ)
    → NoNul cookie
    → last ≢ 0
    → length cookie ≤ buflen
    → strncpy old (cookie ++ last ∷ []) (length (cookie ++ last ∷ []) - 1)
      ≡ ok (cookie ++ drop (length cookie) old)
unfolding strncpy
strncpy-cookie old cookie last h h' fits =
    let p = cookie ++ last ∷ [] in
    let n = length p - 1 in
    let whole : n ≡ length cookie = omega (arith, length-append cookie (last ∷ [])) in
    let room : leb n buflen ≡ true = ground (arith, whole) in
    let bytes : strncpy_bytes n p ≡ cookie =
      strncpy_bytes-take n p (All-append (λ b. b ≢ 0) cookie (last ∷ []) h (h', tt))
        (omega (arith, whole, length-append cookie (last ∷ [])))
      ∙ take-end n cookie last (sym whole) in
    rw (room, bytes) (ap (λ (k : ℕ). ok (cookie ++ drop k old)) whole)

-- The three steps of a command before its response keep the cookie and the token.
Kept-chain :
    (lib : JsonLibrary) (c : WebClient) {c1 c2 c3 : WebClient} {account : Text × Text}
    {sock : Connection} (message : Text) {response : Text}
    → read_account lib c ≡ ok (account, c1)
    → open_connection c1 ≡ ok (sock, c2)
    → talk sock message c2 ≡ ok (response, c3)
    → Kept c c3
Kept-chain lib c {c1} {c2} {c3} {account} {sock} message {response} e1 e2 e3 =
    let k1 = Ends-at (KeptBy c) (read_account lib c) (read_account-Kept lib c) e1 in
    let k2 = Ends-at (KeptBy c1) (open_connection c1) (open_connection-Kept c1) e2 in
    let k3 = Ends-at (Answered c2) (talk sock message c2) (talk-Answered sock message c2) e3 in
    (k3.1.0 ∙ k2.0 ∙ k1.0, k3.1.1 ∙ k2.1 ∙ k1.1)

module _ (response cookie rest : Text) (last : ℕ) where
  cookie_of-found :
      strstr response (codes "Set-Cookie: ")
        ≡ some (codes "Set-Cookie: " ++ (cookie ++ last ∷ []) ++ 32 ∷ rest)
      → IsWord cookie
      → last ≢ 32
      → cookie_of response ≡ ok (cookie ++ last ∷ [])
  unfolding cookie_of second_token
  cookie_of-found found word end =
      let p = cookie ++ last ∷ [] in
      let first : strtok (codes "Set-Cookie: " ++ p ++ 32 ∷ rest)
          ≡ some (codes "Set-Cookie:", p ++ 32 ∷ rest) =
        strtok-word (codes "Set-Cookie:") (p ++ 32 ∷ rest) (omega arith) (omega arith) in
      let second : strtok (p ++ 32 ∷ rest) ≡ some (p, rest) =
        strtok-word p rest (omega (arith, length-append cookie (last ∷ [])))
          (All-append (λ b. b ≢ 32) cookie (last ∷ []) word (end, tt)) in
      ap (λ (o : Option Text). deref o >>= λ t. second_token t) found
      ∙ ap (λ (o : Option (Text × Text)). deref o >>= λ r. deref (strtok r.1) >>= λ s. ok s.0) first
      ∙ ap (λ (o : Option (Text × Text)). deref o >>= λ s. ok s.0) second

  -- A response that carries a cookie.
  pub store_cookie-copied :
      (c : WebClient)
      → strstr response (codes "Set-Cookie: ")
        ≡ some (codes "Set-Cookie: " ++ (cookie ++ last ∷ []) ++ 32 ∷ rest)
      → NoNul cookie
      → IsWord cookie
      → last ≢ 0
      → last ≢ 32
      → length cookie ≤ buflen
      → store_cookie response c ≡ ok (record c { cookie = cookie ++ drop (length cookie) c.cookie })
  unfolding store_cookie
  store_cookie-copied c found text word end end' fits =
      rw (cookie_of-found found word end', strncpy-cookie c.cookie cookie last text end fits)

  -- A login that succeeds ends, stores the cookie of the answer in front of what is left of the
  -- old one, keeps the token, and tells the user.
  pub login_client-cookie :
      (lib : JsonLibrary) (c c1 c2 c3 : WebClient) (sock : Connection)
      (username payload message : Text)
      → read_account lib c ≡ ok ((username, payload), c1)
      → open_connection c1 ≡ ok (sock, c2)
      → compute_post_request (codes "/api/v1/tema/auth/login") payload none ≡ ok message
      → talk sock message c2 ≡ ok (response, c3)
      → is_ok response (codes "OK") ≡ true
      → strstr response (codes "Set-Cookie: ")
        ≡ some (codes "Set-Cookie: " ++ (cookie ++ last ∷ []) ++ 32 ∷ rest)
      → NoNul cookie
      → IsWord cookie
      → last ≢ 0
      → last ≢ 32
      → length cookie ≤ buflen
      → (c4 : WebClient) × (login_client lib c ≡ ok c4)
        × (c_str c4.cookie ≡ cookie ++ c_str (drop (length cookie) c.cookie))
        × (c4.token ≡ c.token)
        × (c4.shown ≡ c3.shown ++ logged_in username ∷ [])
  unfolding login_client show
  login_client-cookie lib c c1 c2 c3 sock username payload message account opened request answer
        success found text word end end' fits =
      let shown = show (logged_in username) c3 in
      let kept : Kept c c3 = Kept-chain lib c message account opened answer in
      (
        record shown { cookie = cookie ++ drop (length cookie) c3.cookie },
        >>=-ok _ account (
            >>=-ok _ opened (
              >>=-ok _ request (
                >>=-ok _ answer
                  (rw success (store_cookie-copied shown found text word end end' fits))))),
        c_str-append cookie (drop (length cookie) c3.cookie) text
            ∙ ap (λ (t : Text). cookie ++ c_str (drop (length cookie) t)) kept.0,
        kept.1,
        refl,
      )

-- For a client with a cookie, whose request is answered with a success and a JSON text with a token
-- below 4096 bytes, `enter_library` ends, the token's buffer reads back as the token, and the
-- cookie is as it was.
pub enter_library-token :
    (lib : JsonLibrary) (c c1 c2 : WebClient) (sock : Connection) (message response str : Text)
    (j : lib.Json)
    → is_empty c.cookie ≡ false
    → open_connection c ≡ ok (sock, c1)
    → compute_get_request (codes "/api/v1/tema/library/access") (some (c_str c1.cookie)) none
      ≡ ok message
    → talk sock message c1 ≡ ok (response, c2)
    → is_ok response (codes "OK") ≡ true
    → lib.parse (strstr response (codes "{")) ≡ ok j
    → lib.value j (codes "token") ≡ ok str
    → length str < buflen
    → (c3 : WebClient) × (enter_library lib c ≡ ok c3)
      × (c_str c3.token ≡ c_str str)
      × (c3.cookie ≡ c.cookie)
      × (c3.shown ≡ c2.shown ++ entered ∷ [])
unfolding enter_library store_token strncpy show
enter_library-token lib c c1 c2 sock message response str j inside opened request answer success
      parsed token fits =
    let shown = show entered c2 in
    let n = suc (length str) in
    let room : leb n buflen ≡ true = ground arith in
    let k1 = Ends-at (KeptBy c) (open_connection c) (open_connection-Kept c) opened in
    let k2 = Ends-at (Answered c1) (talk sock message c1) (talk-Answered sock message c1) answer in
    (
      record shown { token = strncpy_bytes n str ++ drop n c2.token },
      rw inside (
          >>=-ok _ opened (
            >>=-ok _ request
              (>>=-ok _ answer (rw success (>>=-ok _ parsed (>>=-ok _ token (rw room refl))))))),
      c_str-strncpy_bytes n str (drop n c2.token) (omega arith),
      k2.1.0 ∙ k1.0,
      refl,
    )
