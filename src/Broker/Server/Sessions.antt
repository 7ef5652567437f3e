-- ===== src/Broker/Server/Sessions.antt =====
-- Who may connect and what a disconnection leaves: the handlers of the server, branch by branch.
use pc_communication_protoco.Prelude.{
  ℕ, ◌<◌, ◌≡◌, ◌≢◌, length, refl, inl, inr, false, none, some, List, [], ◌∷◌, ◌++◌, arith, Text,
  text_eq, text_eq_refl, text_eq_ne, ◌==◌, if◌then◌else◌, Bool-cases, ok,
}
use pc_communication_protoco.Broker.Types.{Client, Subscribers, close}
use pc_communication_protoco.Broker.Registry.{find_client, get_client, new_subscriber}
use pc_communication_protoco.Broker.Delivery.{disconnect_subscriber}
use pc_communication_protoco.Broker.WellFormed.{
  WellFormed, with_client, add_new_client-ok, add_new_client-WellFormed,
}
use pc_communication_protoco.Broker.Server.Received.{hangup}
use pc_communication_protoco.Broker.Server.{
  Env, Server, fd_put, drop_fd, watch_fd, on_ident, on_subscriber,
}

find_client-append :
    (cs : List Client) (c : Client)
    → find_client cs c.id ≡ none
    → find_client (cs ++ c ∷ []) c.id ≡ some c
unfolding find_client
find_client-append [] c h = rw (text_eq_refl c.id)
find_client-append (d ∷ cs) c h = elim (Bool-cases (text_eq d.id c.id)) [
  | inl same ↦ ground arith
  | inr other ↦ rw other (find_client-append cs c (ground arith))
]

find_client-append_ne :
    (cs : List Client) (c : Client) (id : Text)
    → c.id ≢ id
    → find_client (cs ++ c ∷ []) id ≡ find_client cs id
unfolding find_client
find_client-append_ne [] c id ne = rw (text_eq_ne c.id id ne)
find_client-append_ne (d ∷ cs) c id ne = rw (find_client-append_ne cs c id ne)

module _ (s : Subscribers) (buffer : Text) (fd : ℕ) (wf : WellFormed s) where
  get_client-with_client :
      get_client s buffer ≡ none
      → get_client (with_client s buffer fd wf) buffer ≡ some (new_subscriber buffer fd)
  unfolding get_client
  get_client-with_client = find_client-append s.clients (new_subscriber buffer fd)

  get_client-with_client_ne :
      (id : Text) → buffer ≢ id → get_client (with_client s buffer fd wf) id ≡ get_client s id
  unfolding get_client
  get_client-with_client_ne id = find_client-append_ne s.clients (new_subscriber buffer fd) id

module _ (s : Server) (buffer : Text) (fd : ℕ) where
  -- On well-formed subscribers, a name of at most ten bytes that nobody has is registered: the
  -- subscribers stay well-formed, the name stands for a new connected client on the new socket, and
  -- every other name for what it stood for.
  pub on_ident-new :
      WellFormed s.subscribers
      → length buffer < 11
      → get_client s.subscribers buffer ≡ none
      → (s' : Server) × (on_ident buffer fd s ≡ ok s')
        × WellFormed s'.subscribers
        × (get_client s'.subscribers buffer ≡ some (new_subscriber buffer fd))
        × ((id : Text) → buffer ≢ id → get_client s'.subscribers id ≡ get_client s.subscribers id)
  unfolding on_ident
  on_ident-new wf short unknown = (
    record s { subscribers = with_client s.subscribers buffer fd wf },
    rw (unknown, on_ident, add_new_client-ok s.subscribers buffer fd wf short),
    add_new_client-WellFormed s.subscribers buffer fd wf,
    get_client-with_client s.subscribers buffer fd wf unknown,
    get_client-with_client_ne s.subscribers buffer fd wf,
  )

  -- a new socket on which a client gives the name of a connected one is closed and no longer
  -- watched, and the subscribers, the heap, the stop flag and the other watched descriptors stay as
  -- they were.
  pub on_ident-connected :
      (c : Client)
      → get_client s.subscribers buffer ≡ some c
      → c.connected ≡ 1
      → (s' : Server) × (on_ident buffer fd (watch_fd s fd) ≡ ok s')
        × (s'.subscribers ≡ s.subscribers)
        × (s'.heap ≡ s.heap)
        × (s'.output ≡ s.output ++ close fd ∷ [])
        × (s'.stop ≡ s.stop)
        × ((i : ℕ) → s'.read_fds i ≡ (if i == fd then false else s.read_fds i))
  unfolding on_ident watch_fd drop_fd fd_put
  on_ident-connected c known on = (
    record s {
      read_fds = (drop_fd (watch_fd s fd) fd).read_fds;
      fdmax = (drop_fd (watch_fd s fd) fd).fdmax;
      output = s.output ++ close fd ∷ [];
    },
    rw (known, on_ident, on),
    refl,
    refl,
    refl,
    refl,
    λ i. ground arith,
  )

  -- when a subscriber's socket is at its end, its client is disconnected, the socket is closed and
  -- no longer watched, and the other descriptors stay watched as they were.
  pub on_subscriber-hangup :
      (env : Env) (print_float : ℕ → ℕ → ℕ → Text)
      → env.received ≡ hangup
      → (s' : Server) × (on_subscriber env fd s ≡ ok s')
        × (s'.subscribers ≡ (disconnect_subscriber s.subscribers fd).0)
        × (s'.output ≡ s.output ++ close fd ∷ [])
        × ((i : ℕ) → s'.read_fds i ≡ (if i == fd then false else s.read_fds i))
  unfolding on_subscriber drop_fd fd_put disconnect_subscriber
  on_subscriber-hangup env print_float gone = (
    drop_fd
        (record s {
          subscribers = (disconnect_subscriber s.subscribers fd).0;
          output = s.output ++ close fd ∷ [];
        })
        fd,
    rw gone,
    refl,
    refl,
    λ i. ground arith,
  )
