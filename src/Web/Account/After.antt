-- ===== src/Web/Account/After.antt =====
-- What the commands on accounts leave of the cookie and of the token.
use pc_communication_protoco.Prelude.{
  NoNul, ℕ, suc, ◌-◌, ◌≤◌, ◌≡◌, refl, ◌∙◌, false, none, some, Text, [], Bool-cases, inl, inr,
  if◌then◌else◌, text_eq, leb, leb→le, length, c_str, Run, ok, deref, Ends, Ends-map, Ends-bind,
  Ends-after, Ends->>=, Ends-at, deref-ok, codes, arith,
}
use pc_communication_protoco.Subscriber.{strtok}
use pc_communication_protoco.Web.{
  buflen, JsonLibrary, login_you_must, logged_in, entered, error, failed, WebClient, show, strstr,
  strncpy, strncpy_bytes,
}
use pc_communication_protoco.Web.Request.{compute_get_request, compute_post_request}
use pc_communication_protoco.Web.Exchange.{is_ok, report}
use pc_communication_protoco.Web.Account.{
  read_account, register_client, second_token, cookie_of, store_cookie, login_client, store_token,
  enter_library, logout_client,
}
use pc_communication_protoco.Web.Account.Kept.{
  Kept, KeptBy, read_account-Kept, show-Kept, Ends-exchange, Ends-prepared, report-Kept,
}
use pc_communication_protoco.Web.Account.Strings.{
  is_empty, strstr-NoNul, strtok-NoNul, length-strncpy_bytes, strncpy_bytes-take, overwrite-fits,
  overwrite-is_empty,
}

-- A buffer that is written: it stays in its bounds.
abbrev pub Fits : Text → Text → Type 0
Fits old new = length old ≤ buflen → length new ≤ buflen

-- After `login`: the token is as it was, and no cookie is lost.
pub record LoggedIn (c c' : WebClient) : Type 0 where
  pub token_kept : c'.token ≡ c.token
  pub cookie_stays : is_empty c.cookie ≡ false → is_empty c'.cookie ≡ false
  pub cookie_fits : Fits c.cookie c'.cookie

-- After `enter_library`: the cookie is as it was.
pub record Entered (c c' : WebClient) : Type 0 where
  pub cookie_kept : c'.cookie ≡ c.cookie
  pub token_fits : Fits c.token c'.token

strncpy-Fits : (dest src : Text) (n : ℕ) → Ends (Fits dest) (strncpy dest src n)
unfolding strncpy
strncpy-Fits dest src n = elim (Bool-cases (leb n buflen)) [
  | inl room ↦ rw room (λ h.
      overwrite-fits (strncpy_bytes n src) dest n (length-strncpy_bytes n src)
        (leb→le n buflen room) h)
  | inr large ↦ rw large tt
]

second_token-NoNul : (t : Text) → NoNul t → Ends NoNul (second_token t)
unfolding second_token
second_token-NoNul t h = Ends->>= NoNul (deref (strtok t)) _ (λ (name, rest) e.
    let (x, y) = strtok-NoNul t h (deref-ok (strtok t) e) in
    Ends->>= NoNul (deref (strtok rest)) _
      (λ (p, r) e'. (strtok-NoNul rest y (deref-ok (strtok rest) e')).0))

cookie_of-NoNul : (response : Text) → NoNul response → Ends NoNul (cookie_of response)
unfolding cookie_of
cookie_of-NoNul response h =
    let name = codes "Set-Cookie: " in
    Ends->>= NoNul (deref (strstr response name)) _ (λ aux e.
      second_token-NoNul aux (strstr-NoNul response name aux h (deref-ok (strstr response name) e)))

-- The new cookie is not empty if the old one was not.
strncpy-is_empty :
    (dest p : Text)
    → NoNul p
    → Ends (λ new. is_empty dest ≡ false → is_empty new ≡ false) (strncpy dest p (length p - 1))
unfolding strncpy
strncpy-is_empty dest p h = elim (Bool-cases (leb (length p - 1) buflen)) [
  | inl room ↦
      rw (room, strncpy_bytes-take (length p - 1) p h (omega arith))
        (overwrite-is_empty (length p - 1) p dest h (omega arith))
  | inr large ↦ rw large tt
]

store_cookie-LoggedIn :
    (response : Text) (c : WebClient) → NoNul response → Ends (LoggedIn c) (store_cookie response c)
unfolding store_cookie
store_cookie-LoggedIn response c h =
    Ends-bind NoNul (LoggedIn c) (cookie_of response) _ (cookie_of-NoNul response h) (λ p h'.
      let m = strncpy c.cookie p (length p - 1) in
      Ends->>= (LoggedIn c) m _ (λ cookie e. record {
        token_kept = refl;
        cookie_stays = Ends-at _ m (strncpy-is_empty c.cookie p h') e;
        cookie_fits = Ends-at _ m (strncpy-Fits c.cookie p (length p - 1)) e;
      }))

Kept-LoggedIn : {c c' : WebClient} → Kept c c' → LoggedIn c c'
Kept-LoggedIn h = record {
  token_kept = h.1;
  cookie_stays = λ e. rw h.0 e;
  cookie_fits = λ le. rw h.0 le;
}

Kept-Entered : {c c' : WebClient} → Kept c c' → Entered c c'
Kept-Entered h = record { cookie_kept = h.0; token_fits = λ le. rw h.1 le }

LoggedIn-trans : {c c' d : WebClient} → Kept c c' → LoggedIn c' d → LoggedIn c d
LoggedIn-trans h l = record {
  token_kept = l.token_kept ∙ h.1;
  cookie_stays = λ e. l.cookie_stays (rw h.0 e);
  cookie_fits = λ le. l.cookie_fits (rw h.0 le);
}

Entered-trans : {c c' d : WebClient} → Kept c c' → Entered c' d → Entered c d
Entered-trans h l = record {
  cookie_kept = l.cookie_kept ∙ h.0;
  token_fits = λ le. l.token_fits (rw h.1 le);
}

pub register_client-Kept :
    (lib : JsonLibrary) (c : WebClient) → Ends (Kept c) (register_client lib c)
unfolding register_client
register_client-Kept lib c =
    Ends-bind (KeptBy c) (Kept c) (read_account lib c) _ (read_account-Kept lib c)
      λ ((username, payload), c1) h1.
        Ends-exchange (Kept c) c1
          (λ c. compute_post_request (codes "/api/v1/tema/auth/register") payload none) _
          λ response c' text h.
            let whole : Kept c c' = (h.0 ∙ h1.0, h.1 ∙ h1.1) in
            elim (Bool-cases (is_ok response (codes "Created"))) [
              | inl success ↦ rw success (whole.0, whole.1)
              | inr other ↦ rw other (
                  Ends-map (λ d k. (k.0 ∙ whole.0, k.1 ∙ whole.1)) (report lib error response c')
                    (report-Kept lib error response c'))
            ]

pub login_client-LoggedIn :
    (lib : JsonLibrary) (c : WebClient) → Ends (LoggedIn c) (login_client lib c)
unfolding login_client
login_client-LoggedIn lib c =
    Ends-bind (KeptBy c) (LoggedIn c) (read_account lib c) _ (read_account-Kept lib c)
      λ ((username, payload), c1) h1.
        Ends-exchange (LoggedIn c) c1
          (λ c. compute_post_request (codes "/api/v1/tema/auth/login") payload none) _
          λ response c' text h.
            let whole : Kept c c' = (h.0 ∙ h1.0, h.1 ∙ h1.1) in
            elim (Bool-cases (is_ok response (codes "OK"))) [
              | inl success ↦ rw success (
                  Ends-map (λ d l. LoggedIn-trans {c' = show (logged_in username) c'} whole l)
                    (store_cookie response (show (logged_in username) c'))
                    (store_cookie-LoggedIn response (show (logged_in username) c') text))
              | inr other ↦ rw other (
                  Ends-map (λ d k. LoggedIn-trans {c' = c'} whole (Kept-LoggedIn k))
                    (report lib failed response c') (report-Kept lib failed response c'))
            ]

-- A command that the guard turns away, or lets go on.
guarded :
    (Q : WebClient → Type 0) (c : WebClient) (m : Run WebClient)
    → Q (show login_you_must c)
    → Ends Q m
    → Ends Q (if text_eq (c_str c.cookie) [] then ok (show login_you_must c) else m)
guarded Q c m q e = elim (Bool-cases (text_eq (c_str c.cookie) [])) [
  | inl outside ↦ rw outside q
  | inr inside ↦ rw inside e
]

store_token-Entered :
    (lib : JsonLibrary) (response : Text) (c : WebClient)
    → Ends (Entered c) (store_token lib response c)
unfolding store_token
store_token-Entered lib response c =
    Ends-after (Entered c) (lib.parse (strstr response (codes "{"))) _ (λ j.
      Ends-after (Entered c) (lib.value j (codes "token")) _ (λ str.
        Ends-bind (Fits c.token) (Entered c) (strncpy c.token str (suc (length str))) _
          (strncpy-Fits c.token str (suc (length str)))
          (λ token fits. record { cookie_kept = refl; token_fits = fits })))

pub enter_library-Entered :
    (lib : JsonLibrary) (c : WebClient) → Ends (Entered c) (enter_library lib c)
unfolding enter_library
enter_library-Entered lib c = guarded (Entered c) c _ (Kept-Entered (show-Kept login_you_must c)) (
    Ends-exchange (Entered c) c
      (λ c. compute_get_request (codes "/api/v1/tema/library/access") (some (c_str c.cookie)) none)
      _
      λ response c' text h. elim (Bool-cases (is_ok response (codes "OK"))) [
        | inl success ↦ rw success (
            Ends-map (λ d l. Entered-trans {c' = show entered c'} h l)
              (store_token lib response (show entered c'))
              (store_token-Entered lib response (show entered c')))
        | inr other ↦ rw other (
            Ends-map (λ d k. Entered-trans {c' = c'} h (Kept-Entered k))
              (report lib error response c') (report-Kept lib error response c'))
      ])

pub logout_client-Kept : (lib : JsonLibrary) (c : WebClient) → Ends (Kept c) (logout_client lib c)
unfolding logout_client
logout_client-Kept lib c = guarded (Kept c) c _ (show-Kept login_you_must c) (
    Ends-prepared (Kept c) c
      (compute_get_request (codes "/api/v1/tema/auth/logout") (some (c_str c.cookie)) none) _
      λ response c' text h. elim (Bool-cases (is_ok response (codes "OK"))) [
        | inl success ↦ rw success h
        | inr other ↦ rw other (
            Ends-map (λ d k. (k.0 ∙ h.0, k.1 ∙ h.1)) (report lib error response c')
              (report-Kept lib error response c'))
      ])
