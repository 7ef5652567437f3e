-- ===== src/Web/Account/Kept.antt =====
-- What the commands of the web client do not change: the cookie and the token.
use pc_communication_protoco.Prelude.{
  NoNul, c_str-NoNul, ℕ, ◌≡◌, refl, ◌∙◌, Option, none, some, [], ◌∷◌, Text, Bool-cases, inl, inr,
  Run, ok, ◌>>=◌, Ends, Ends-bind, Ends-after, codes, c_str,
}
use pc_communication_protoco.Web.{
  JsonLibrary, Shown, too_many_requests, Connection, WebClient, show, next_word, read_word, strstr,
  buflen,
}
use pc_communication_protoco.Web.Exchange.{
  next_connection, open_connection, send_to_server, receive_rest, receive_from_server, talk, is_ok,
  report,
}
use pc_communication_protoco.Http.Request.{sprintf}
use pc_communication_protoco.Web.Account.{read_account}

-- The second state has the cookie and the token of the first.
abbrev pub Kept : WebClient → WebClient → Type 0
Kept c c' = (c'.cookie ≡ c.cookie) × (c'.token ≡ c.token)

-- A result beside the state.
abbrev pub KeptBy : {A : Type 0} → WebClient → A × WebClient → Type 0
KeptBy c r = Kept c r.1

pub read_word-Kept :
    (room : ℕ) (old : Option Text) (c : WebClient) → Ends (KeptBy c) (read_word room old c)
unfolding read_word
read_word-Kept room old c = Ends-after (KeptBy c) (next_word room old c.words) _ (λ r. (refl, refl))

pub open_connection-Kept : (c : WebClient) → Ends (KeptBy c) (open_connection c)
unfolding open_connection
open_connection-Kept c = Ends-after (KeptBy c) (next_connection c.connections) _ (λ r. (refl, refl))

-- The response is a C string.
abbrev pub Answered : WebClient → Text × WebClient → Type 0
Answered c r = NoNul r.0 × Kept c r.1

pub talk-Answered :
    (sock : Connection) (message : Text) (c : WebClient) → Ends (Answered c) (talk sock message c)
unfolding talk receive_from_server
talk-Answered sock message c =
    Ends-after (Answered c) (send_to_server sock.writes message) _ (λ written.
      Ends-bind NoNul (Answered c) (receive_from_server sock.reads) _
        (Ends-after NoNul (receive_rest buflen [] sock.reads) _ (λ bytes. c_str-NoNul bytes))
        (λ response text. (text, (refl, refl))))

pub show-Kept : (s : Shown) (c : WebClient) → Kept c (show s c)
unfolding show
show-Kept s c = (refl, refl)

-- The exchange that every command makes, and what it does with the response.
module _ (Q : WebClient → Type 0) (c : WebClient) where
  pub Ends-exchange :
      (m : WebClient → Run Text) (respond : Text → WebClient → Run WebClient)
      → ((response : Text) (c' : WebClient)
          → NoNul response
          → Kept c c'
          → Ends Q (respond response c'))
      → Ends Q (do
        (sock, c) ← open_connection c
        message ← m c
        (response, c) ← talk sock message c
        respond response c)
  Ends-exchange m respond k =
      Ends-bind (KeptBy c) Q (open_connection c) _ (open_connection-Kept c) (λ r h.
        Ends-after Q (m r.1) _ (λ message.
          Ends-bind (Answered r.1) Q (talk r.0 message r.1) _ (talk-Answered r.0 message r.1)
            (λ s h'. k s.0 s.1 h'.0 (h'.1.0 ∙ h.0, h'.1.1 ∙ h.1))))

  pub Ends-prepared :
      (m : Run Text) (respond : Text → WebClient → Run WebClient)
      → ((response : Text) (c' : WebClient)
          → NoNul response
          → Kept c c'
          → Ends Q (respond response c'))
      → Ends Q (do
        message ← m
        (sock, c) ← open_connection c
        (response, c) ← talk sock message c
        respond response c)
  Ends-prepared m respond k =
      Ends-after Q m _ (λ message. Ends-exchange (λ c. ok message) respond k)

pub report-Kept :
    (lib : JsonLibrary) (label : Text → Shown) (response : Text) (c : WebClient)
    → Ends (Kept c) (report lib label response c)
unfolding report
report-Kept lib label response c = elim (Bool-cases (is_ok response (codes "Too many requests"))) [
  | inl busy ↦ rw busy (show-Kept too_many_requests c)
  | inr other ↦ rw other (
      Ends-after (Kept c) (lib.parse (strstr response (codes "{"))) _ (λ j.
        Ends-after (Kept c) (lib.at j (codes "error")) _ (λ e. show-Kept (label (lib.print e)) c)))
]

pub read_account-Kept : (lib : JsonLibrary) (c : WebClient) → Ends (KeptBy c) (read_account lib c)
unfolding read_account
read_account-Kept lib c =
    Ends-bind (KeptBy c) (KeptBy c) (read_word 100 none c) _ (read_word-Kept 100 none c) (λ r h.
      Ends-bind (KeptBy r.1) (KeptBy c) (read_word 100 (some r.0) r.1) _
        (read_word-Kept 100 (some r.0) r.1)
        (λ s k.
          Ends-after (KeptBy c) (lib.dump ((codes "username", r.0) ∷ (codes "password", s.0) ∷ []))
            _
            (λ d.
              Ends-after (KeptBy c) (sprintf buflen (c_str d)) _ (λ p. (k.0 ∙ h.0, k.1 ∙ h.1)))))
