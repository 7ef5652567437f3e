-- ===== src/Multiplex/Kept.antt =====
-- What the handlers keep, if it does not depend on the messages sent.
use pc_communication_protoco.Prelude.{
  ℕ, suc, ◌<◌, ◌≡◌, refl, Bool, true, false, Bool-cases, inl, inr, Option, none, some, List, [],
  ◌∷◌, ◌++◌, Text, length, arith, leb, ltb, if◌then◌else◌, ◌==◌, not, ◌&&◌, ok, died, fault, deref,
  Ends, Ends-bind, Ends-after, codes, decimal, c_str, drop,
}
use pc_communication_protoco.Http.Request.{strcat, sprintf}
use pc_communication_protoco.Multiplex.{
  Server, Events, newline, list_title, scan_int, log, tell_clients, on_accept, tell_closed,
  remove_fd, on_closed, on_message, handle,
}

module _ {ℓ} {A : Type ℓ} where
  pub if-lem : (P : A → Type 0) (b : Bool) (x y : A) → P x → P y → P (if b then x else y)
  if-lem P true x y h k = h
  if-lem P false x y h k = k

-- The state when a client is accepted, before anyone is told.
abbrev pub accepted : ℕ → Server → Server
accepted newsockfd s = record s {
  read_fds = newsockfd ∷ s.read_fds;
  fdmax = if ltb s.fdmax newsockfd then newsockfd else s.fdmax;
  clients = s.clients ++ newsockfd ∷ [];
}

-- The state without a descriptor that was closed.
abbrev pub without : ℕ → Server → Server
without i s = record s { read_fds = remove_fd i s.read_fds }

module _ (P : Server → Type 0)
    (log-P : (s : Server) (fd : ℕ) (m : Text) → P s → P (log s fd m)) where
  abbrev Told : Text × Server → Type 0
  Told p = P p.1

  tell_clients-P :
      (clients : List ℕ) (new_client aux : Text) (s : Server)
      → P s
      → Ends Told (tell_clients clients new_client aux s)
  unfolding tell_clients
  tell_clients-P [] new_client aux s h = h
  tell_clients-P (fd ∷ clients) new_client aux s h =
      Ends-after Told (sprintf 10 (decimal fd)) _ λ cl.
        Ends-after Told (strcat 100 aux cl) _ λ aux'.
          Ends-after Told (strcat 100 aux' (codes " ")) _ λ aux''.
            tell_clients-P clients new_client aux'' (log s fd new_client) (log-P s fd new_client h)

  tell_closed-P :
      (i k : ℕ) (closed : Text) (clients : List ℕ) (s : Server)
      → P s
      → P (tell_closed i k closed clients s)
  unfolding tell_closed
  tell_closed-P i k closed [] s h = h
  tell_closed-P i k closed (fd ∷ clients) s h =
      tell_closed-P i (suc k) closed clients (if k == i then s else log s fd closed)
        (if-lem P (k == i) s (log s fd closed) h (log-P s fd closed h))

  on_closed-P :
      (i : ℕ) (s : Server) → ((t : Server) → P t → P (without i t)) → P s → Ends P (on_closed i s)
  unfolding on_closed
  on_closed-P i s without-P h =
      Ends-after P
        (sprintf 100
          (codes "Socket-ul client " ++ (decimal i ++ (codes " a inchis conexiunea" ++ newline))))
        _
        λ closed.
          without-P (tell_closed i 0 closed s.clients s) (tell_closed-P i 0 closed s.clients s h)

  on_message-P : (bytes : Text) (s : Server) → P s → Ends P (on_message bytes s)
  unfolding on_message
  on_message-P bytes s h = if-lem (Ends P) (leb 256 (length (c_str bytes))) fault _ tt (
      Ends-after P (deref (scan_int (c_str bytes))) _ λ (minus, dest).
        if-lem (Ends P) (ltb (length (c_str bytes)) 2) fault _ tt (
          if-lem (Ends P) (minus && not (dest == 0)) (ok s) (ok (log s dest (drop 2 (c_str bytes))))
            h (log-P s dest (drop 2 (c_str bytes)) h)))

  on_accept-P :
      (newsockfd : ℕ) (s : Server)
      → (length s.clients < 10 → P (accepted newsockfd s))
      → Ends P (on_accept newsockfd s)
  unfolding on_accept
  on_accept-P newsockfd s accepted-P = elim (Bool-cases (ltb (length s.clients) 10)) [
    | inr full ↦ rw full tt
    | inl free ↦ rw free (
        Ends-after P
          (sprintf 100 (codes "Noul client disponibil: " ++ (decimal newsockfd ++ newline))) _
          λ new_client.
            Ends-bind Told P (tell_clients s.clients new_client list_title (accepted newsockfd s)) _
              (tell_clients-P s.clients new_client list_title (accepted newsockfd s)
                (accepted-P (ground arith)))
              λ (aux, told) h. Ends-after P (strcat 100 aux newline) _ λ aux'.
                if-lem P (ltb 1 (length (s.clients ++ newsockfd ∷ []))) (log told newsockfd aux')
                  told (log-P told newsockfd aux' h) h)
  ]

  pub handle-P :
      (sockfd : ℕ) (events : Events) (i : ℕ) (s : Server)
      → ((t : Server) → P t → P (without i t))
      → ((fd : ℕ) → events.accepted ≡ some fd → length s.clients < 10 → P (accepted fd s))
      → P s
      → Ends P (handle sockfd events i s)
  unfolding handle
  handle-P sockfd events i s without-P accepted-P h = elim (Bool-cases (i == sockfd)) [
    | inl listening ↦ rw listening (accepting events.accepted refl)
    | inr client ↦ rw client (receiving (events.received i))
  ]
    where
      accepting :
          (o : Option ℕ)
          → events.accepted ≡ o
          → Ends P (elim o [ none ↦ died | some newsockfd ↦ on_accept newsockfd s ])
      accepting none e = tt
      accepting (some newsockfd) e = on_accept-P newsockfd s (accepted-P newsockfd e)

      receiving :
          (o : Option Text)
          → Ends P (elim o [
            | none ↦ died
            | some [] ↦ on_closed i s
            | some (b ∷ bytes) ↦ on_message (b ∷ bytes) s
          ])
      receiving none = tt
      receiving (some []) = on_closed-P i s without-P h
      receiving (some (b ∷ bytes)) = on_message-P (b ∷ bytes) s h
