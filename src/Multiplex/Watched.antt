-- ===== src/Multiplex/Watched.antt =====
-- What holds in every run of the server.
use pc_communication_protoco.Prelude.{
  ℕ, zero, suc, ◌≤◌, ◌<◌, List, [], ◌∷◌, Text, length, length-append, All, All-map, All-append,
  arith, leb, ltb, if◌then◌else◌, ◌==◌, among, ok, Ends, Ends-bind,
}
use pc_communication_protoco.Multiplex.Kept.{if-lem, accepted, without, handle-P}
use pc_communication_protoco.Multiplex.{Server, Events, log, remove_fd, handle, scan, start, serve}

-- `select` looks at every watched descriptor, and at every client that has not left, and the clients
-- fit their array.
abbrev pub IsWatched : Server → Type 0
IsWatched s =
    All (λ (fd : ℕ). fd ≤ s.fdmax) s.read_fds
    × All (λ (fd : ℕ). fd ≤ s.fdmax) s.clients
    × (length s.clients ≤ 10)

remove_fd-All : (P : ℕ → Type 0) (i : ℕ) (fds : List ℕ) → All P fds → All P (remove_fd i fds)
unfolding remove_fd
remove_fd-All P i [] h = tt
remove_fd-All P i (fd ∷ fds) h =
    let rest = remove_fd-All P i fds h.1 in
    if-lem (All P) (fd == i) (remove_fd i fds) (fd ∷ remove_fd i fds) rest (h.0, rest)

log-IsWatched : (s : Server) (fd : ℕ) (m : Text) → IsWatched s → IsWatched (log s fd m)
unfolding log
log-IsWatched s fd m w = w

without-IsWatched : (i : ℕ) (s : Server) → IsWatched s → IsWatched (without i s)
without-IsWatched i s w = (remove_fd-All (λ fd. fd ≤ s.fdmax) i s.read_fds w.0, w.1, w.2)

accepted-IsWatched :
    (newsockfd : ℕ) (s : Server)
    → length s.clients < 10
    → IsWatched s
    → IsWatched (accepted newsockfd s)
accepted-IsWatched newsockfd s free w = (
  (above.1, wider s.read_fds w.0),
  All-append (λ (fd : ℕ). fd ≤ fdmax') s.clients (newsockfd ∷ []) (wider s.clients w.1)
      (above.1, tt),
  omega (arith, free, length-append s.clients (newsockfd ∷ [])),
)
  where
    fdmax' : ℕ
    fdmax' = if ltb s.fdmax newsockfd then newsockfd else s.fdmax

    above : (s.fdmax ≤ fdmax') × (newsockfd ≤ fdmax')
    above = ground arith

    wider : (fds : List ℕ) → All (λ (fd : ℕ). fd ≤ s.fdmax) fds → All (λ (fd : ℕ). fd ≤ fdmax') fds
    wider fds h = All-map fds (λ fd (le : fd ≤ s.fdmax). omega (arith, le, above)) h

handle-IsWatched :
    (sockfd : ℕ) (events : Events) (i : ℕ) (s : Server)
    → IsWatched s
    → Ends IsWatched (handle sockfd events i s)
handle-IsWatched sockfd events i s w =
    handle-P IsWatched log-IsWatched sockfd events i s (without-IsWatched i)
      (λ fd e free. accepted-IsWatched fd s free w) w

scan-IsWatched :
    (sockfd : ℕ) (events : Events) (tmp_fds : List ℕ) (left i : ℕ) (s : Server)
    → IsWatched s
    → Ends IsWatched (scan sockfd events tmp_fds left i s)
unfolding scan
scan-IsWatched sockfd events tmp_fds zero i s w = w
scan-IsWatched sockfd events tmp_fds (suc left) i s w =
    if-lem (Ends IsWatched) (leb i s.fdmax) _ (ok s)
      (Ends-bind IsWatched IsWatched (if among i tmp_fds then handle sockfd events i s else ok s) _
        (if-lem (Ends IsWatched) (among i tmp_fds) (handle sockfd events i s) (ok s)
          (handle-IsWatched sockfd events i s w) w)
        λ s' w'. scan-IsWatched sockfd events tmp_fds left (suc i) s' w')
      w

serve-IsWatched :
    (sockfd : ℕ) (rounds : List (List ℕ × Events)) (s : Server)
    → IsWatched s
    → Ends IsWatched (serve sockfd rounds s)
unfolding serve
serve-IsWatched sockfd [] s w = w
serve-IsWatched sockfd ((tmp_fds, events) ∷ rounds) s w =
    Ends-bind IsWatched IsWatched (scan sockfd events tmp_fds 1024 0 s) _
      (scan-IsWatched sockfd events tmp_fds 1024 0 s w) λ s' w'. serve-IsWatched sockfd rounds s' w'

-- In every run of the multiplexing server from its start that ends well, with any ready descriptors
-- and any events, every watched descriptor and every client is at most `fdmax`, and the clients fit
-- their array of ten.
pub serve-start-IsWatched :
    (sockfd : ℕ) (rounds : List (List ℕ × Events))
    → Ends IsWatched (serve sockfd rounds (start sockfd))
unfolding start
serve-start-IsWatched sockfd rounds = serve-IsWatched sockfd rounds (start sockfd) (omega arith)
