-- ===== src/Multiplex/Examples.antt =====
-- The server with three clients.
use pc_communication_protoco.Prelude.{
  ◌≡◌, none, some, [], ◌∷◌, ◌++◌, ok, Ends, codes, decimal, arith,
}
use pc_communication_protoco.Multiplex.{
  Server, Events, on_accept, on_closed, remove_fd, start, serve,
}
use pc_communication_protoco.Multiplex.Notices.{closed_notice, on_accept-told, on_closed-told}
use pc_communication_protoco.Multiplex.Watched.{IsWatched, serve-start-IsWatched}

abbrev busy : Server
busy = record { read_fds = 5 ∷ 4 ∷ 3 ∷ []; fdmax = 5; clients = 4 ∷ 5 ∷ []; sent = [] }

on_accept-told_example :
    on_accept 6 busy
    ≡ ok (record {
      read_fds = 6 ∷ 5 ∷ 4 ∷ 3 ∷ [];
      fdmax = 6;
      clients = 4 ∷ 5 ∷ 6 ∷ [];
      sent =
          (4, codes "Noul client disponibil: 6" ++ 10 ∷ [])
          ∷ (5, codes "Noul client disponibil: 6" ++ 10 ∷ [])
          ∷ (6, codes "Lista clientilor disponibili este: 4 5 " ++ 10 ∷ [])
          ∷ [];
    })
unfolding decimal
on_accept-told_example = on_accept-told 6 busy (omega arith) (omega arith) (omega arith)

-- A first client comes.
abbrev arrival : Events
arrival = record { accepted = some 4; received = λ i. none }

serve-start-IsWatched_example : Ends IsWatched (serve 3 ((3 ∷ [], arrival) ∷ []) (start 3))
serve-start-IsWatched_example = serve-start-IsWatched 3 ((3 ∷ [], arrival) ∷ [])

on_closed-told_example :
    on_closed 4 busy
    ≡ ok (record {
      read_fds = 5 ∷ 3 ∷ [];
      fdmax = 5;
      clients = 4 ∷ 5 ∷ [];
      sent = (4, closed_notice 4) ∷ (5, closed_notice 4) ∷ [];
    })
unfolding remove_fd
on_closed-told_example = on_closed-told 4 busy (omega arith) (omega arith)
