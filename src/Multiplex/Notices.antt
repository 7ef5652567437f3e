-- ===== src/Multiplex/Notices.antt =====
-- What the clients are told of each other.
use pc_communication_protoco.Prelude.{
  ℕ, zero, suc, ◌+◌, ◌*◌, ◌/◌, ◌%◌, ◌^◌, ◌≤◌, ◌<◌, ◌≡◌, refl, sym, ap, ◌∙◌, true, false, Bool-cases,
  inl, inr, List, [], ◌∷◌, ◌++◌, map, append-nil, append_assoc, Text, length, length-append, All,
  arith, ltb, lt→ltb, if◌then◌else◌, ◌==◌, ok, >>=-ok, codes, decimal, print_digits,
}
use pc_communication_protoco.Http.Request.Lines.{strcat-ok, sprintf-ok}
use pc_communication_protoco.Multiplex.{
  Server, newline, log, tell_clients, list_title, on_accept, tell_closed, remove_fd, on_closed,
}

-- A message for each of the clients.
abbrev pub to_all : Text → List ℕ → List (ℕ × Text)
to_all message = map (λ (fd : ℕ). (fd, message))

-- The descriptors, each with a blank behind it.
abbrev pub listing : List ℕ → Text
listing [] = []
listing (fd ∷ fds) = decimal fd ++ (codes " " ++ listing fds)

abbrev pub notice : ℕ → Text
notice fd = codes "Noul client disponibil: " ++ (decimal fd ++ newline)

abbrev pub closed_notice : ℕ → Text
closed_notice fd =
    codes "Socket-ul client " ++ (decimal fd ++ (codes " a inchis conexiunea" ++ newline))

length-print_digits :
    (digits fuel n : ℕ) (acc : Text)
    → n < fuel
    → n < 10 ^ suc digits
    → length (print_digits fuel n acc) ≤ length acc + suc digits
unfolding print_digits
length-print_digits digits zero n acc h small = absurd (omega arith)
length-print_digits zero (suc fuel) n acc h small =
    let last : ltb n 10 ≡ true = ground arith in rw last (omega arith)
length-print_digits (suc digits) (suc fuel) n acc h small = elim (Bool-cases (ltb n 10)) [
  | inl last ↦ rw last (omega arith)
  | inr more ↦ rw more (
      let above : 10 ≤ n = ground arith in
      omega (
        arith,
        length-print_digits digits fuel (n / 10) ((48 + n % 10) ∷ acc) (omega arith) (omega arith),
      ))
]

-- A descriptor is below the size of a descriptor set, and prints as at most four digits.
length-decimal : (fd : ℕ) → fd < 1024 → length (decimal fd) ≤ 4
unfolding decimal
length-decimal fd small = length-print_digits 3 (fd + 1) fd [] (omega arith) (omega arith)

tell_clients-ok :
    (clients : List ℕ) (new_client aux : Text) (s : Server)
    → length aux + 5 * length clients < 99
    → All (λ fd. fd < 1024) clients
    → tell_clients clients new_client aux s
      ≡ ok (aux ++ listing clients, record s { sent = s.sent ++ to_all new_client clients })
unfolding tell_clients log
tell_clients-ok [] new_client aux s room small =
    ap (λ (p : Text × List (ℕ × Text)). ok (p.0, record s { sent = p.1 })) (simp append-nil)
tell_clients-ok (fd ∷ clients) new_client aux s room small =
    let short = length-decimal fd small.0 in
    >>=-ok _ (sprintf-ok 10 (decimal fd) (omega (arith, short))) (
      >>=-ok _ (strcat-ok 100 aux (decimal fd) (omega (arith, short, room))) (
        >>=-ok _
          (strcat-ok 100 (aux ++ decimal fd) (codes " ")
            (omega (arith, short, room, length-append aux (decimal fd))))
          (tell_clients-ok clients new_client (aux ++ decimal fd ++ codes " ") (log s fd new_client)
              (omega (
                arith,
                short,
                room,
                length-append aux (decimal fd),
                length-append (aux ++ decimal fd) (codes " "),
              ))
              small.1
            ∙ simp append_assoc refl)))

-- The list of the clients for a new one, which gets it if it is not the first.
abbrev pub welcome : ℕ → List ℕ → List (ℕ × Text)
welcome newsockfd [] = []
welcome newsockfd (fd ∷ fds) = (newsockfd, list_title ++ listing (fd ∷ fds) ++ newline) ∷ []

length-listing : (fds : List ℕ) → All (λ fd. fd < 1024) fds → length (listing fds) ≤ 5 * length fds
length-listing [] small = omega arith
length-listing (fd ∷ fds) small = omega (
  arith,
  length-append (decimal fd) (codes " " ++ listing fds),
  length-decimal fd small.0,
  length-listing fds small.1,
)

welcomed :
    (newsockfd : ℕ) (clients : List ℕ) (told : Server)
    → (if ltb 1 (length (clients ++ newsockfd ∷ []))
        then log told newsockfd (list_title ++ listing clients ++ newline)
        else told)
      ≡ record told { sent = told.sent ++ welcome newsockfd clients }
unfolding log
welcomed newsockfd [] told =
    ap (λ (l : List (ℕ × Text)). record told { sent = l }) (sym (append-nil told.sent))
welcomed newsockfd (fd ∷ fds) told =
    let several : ltb 1 (length (fd ∷ fds ++ newsockfd ∷ [])) ≡ true =
      lt→ltb 1 (length (fd ∷ fds ++ newsockfd ∷ []))
        (omega (arith, length-append fds (newsockfd ∷ []))) in
    rw several refl

-- With fewer than ten clients, and descriptors below 1024, a new client is accepted without a write
-- outside the buffers: it is watched and stands behind the earlier clients, each of these is told
-- of it, and if there are any it is sent the list of them.
pub on_accept-told :
    (newsockfd : ℕ) (s : Server)
    → length s.clients < 10
    → newsockfd < 1024
    → All (λ fd. fd < 1024) s.clients
    → on_accept newsockfd s
      ≡ ok (record s {
        read_fds = newsockfd ∷ s.read_fds;
        fdmax = if ltb s.fdmax newsockfd then newsockfd else s.fdmax;
        clients = s.clients ++ newsockfd ∷ [];
        sent = s.sent ++ to_all (notice newsockfd) s.clients ++ welcome newsockfd s.clients;
      })
unfolding on_accept
on_accept-told newsockfd s few small smalls =
    let free : ltb (length s.clients) 10 ≡ true = lt→ltb (length s.clients) 10 few in
    let short = length-decimal newsockfd small in
    let listed = length-listing s.clients smalls in
    rw free (
      >>=-ok _
        (sprintf-ok 100 (notice newsockfd)
          (omega (arith, short, length-append (decimal newsockfd) newline)))
        (>>=-ok _
          (tell_clients-ok s.clients (notice newsockfd) list_title _ (omega (arith, few)) smalls)
          (>>=-ok _
            (strcat-ok 100 (list_title ++ listing s.clients) newline
              (omega (arith, few, listed, length-append list_title (listing s.clients))))
            (ap ok (welcomed newsockfd s.clients _)))))

tell_closed-all :
    (i k : ℕ) (closed : Text) (clients : List ℕ) (s : Server)
    → k + length clients ≤ i
    → tell_closed i k closed clients s ≡ record s { sent = s.sent ++ to_all closed clients }
unfolding tell_closed log
tell_closed-all i k closed [] s far =
    ap (λ (l : List (ℕ × Text)). record s { sent = l }) (sym (append-nil s.sent))
tell_closed-all i k closed (fd ∷ clients) s far =
    let other : (k == i) ≡ false = ground arith in
    rw other (
      tell_closed-all i (suc k) closed clients (log s fd closed) (omega (arith, far))
      ∙ ap (λ (l : List (ℕ × Text)). record s { sent = l })
          (append_assoc s.sent ((fd, closed) ∷ []) (to_all closed clients)))

-- When a client leaves whose descriptor, below 1024, is not below the number of clients, every
-- client is told, the one that left among them, and it stays in the array of the clients; only its
-- descriptor is no longer watched.
pub on_closed-told :
    (i : ℕ) (s : Server)
    → i < 1024
    → length s.clients ≤ i
    → on_closed i s
      ≡ ok (record s {
        read_fds = remove_fd i s.read_fds;
        sent = s.sent ++ to_all (closed_notice i) s.clients;
      })
unfolding on_closed
on_closed-told i s small far =
    >>=-ok _
      (sprintf-ok 100 (closed_notice i) (
        omega (
          arith,
          length-decimal i small,
          length-append (decimal i) (codes " a inchis conexiunea" ++ newline),
        )))
      (rw (tell_closed-all i 0 (closed_notice i) s.clients s (omega (arith, far))) refl)
