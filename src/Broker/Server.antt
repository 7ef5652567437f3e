-- ===== src/Broker/Server.antt =====
-- The event loop of `tcp & udp communication/server.c`. The results of the system calls that the
-- handler of one descriptor makes come in an `Env`.
pub mod Watch
pub mod Loop
pub mod Sessions
pub mod Invariant
use pc_communication_protoco.Prelude.{
  ℕ, zero, suc, ◌+◌, ◌-◌, Bool, true, false, not, Option, none, some, List, [], ◌∷◌, ◌++◌, Text,
  text_eq, ltb, leb, ◌==◌, ◌&&◌, if◌then◌else◌, Run, ok, died, ◌>>=◌, codes, atoi,
}
use pc_communication_protoco.Broker.Types.{
  TcpPacket, UdpPacket, Client, Subscribers, Action, Heap, write, Output, close,
}
use pc_communication_protoco.Broker.Registry.{
  create_subscribers, get_client, add_new_client, subscribe_to_topic, unsubscribe,
}
use pc_communication_protoco.Broker.Delivery.{
  send_tcp, disconnect_subscriber, reconnect_an_old_client,
}
use pc_communication_protoco.Broker.Convert.{udp_to_tcp}

-- `recv` on a subscriber's socket: a negative result, 0 bytes, or an `Action`.
pub data Received : Type 0 where
  failed hangup : Received
  message : Action → Received

pub record Datagram : Type 0 where
  pub packet : UdpPacket
  pub ip : Text
  pub port : ℕ

-- `none` is a negative result of the call. `fresh` is the address that `calloc` gives.
pub record Env : Type 0 where
  pub accepted : Option ℕ
  pub ident : Option Text
  pub datagram : Option Datagram
  pub line : Text
  pub received : Received
  pub fresh : ℕ

pub record Server : Type 0 where
  pub subscribers : Subscribers
  pub heap : Heap
  pub read_fds : ℕ → Bool
  pub fdmax : ℕ
  pub stop : Bool
  pub output : List Output

-- `FD_SET` and `FD_CLR`.
unfoldable pub fd_put : (ℕ → Bool) → ℕ → Bool → ℕ → Bool
fd_put fds i on j = if j == i then on else fds j

-- `for (k = fdmax; k > 2; --k) if (FD_ISSET(k, &read_fds)) { fdmax = k; break; }`
unfoldable pub last_set : (ℕ → Bool) → ℕ → ℕ → ℕ
last_set fds fdmax zero = fdmax
last_set fds fdmax (suc k) =
    let below = last_set fds fdmax k in
    if ltb 2 (suc k) then (if fds (suc k) then suc k else below) else fdmax

-- The descriptors after `FD_CLR` and the search for the new maximum.
unfoldable pub drop_fd : Server → ℕ → Server
unfolding fd_put last_set
drop_fd s i =
    let fds = fd_put s.read_fds i false in
    record s { read_fds = fds; fdmax = last_set fds s.fdmax s.fdmax }

abbrev pub or_die {ℓ} : {A : Type ℓ} → Option A → Run A
or_die none = died
or_die (some a) = ok a

-- The reconnection writes through the pointer that `get_client` returned: the first client of
-- that name.
unfoldable pub reconnect_clients :
    Heap → Text → ℕ → List Client → Run (List Client × Heap × List Output)
unfolding reconnect_an_old_client
reconnect_clients heap buffer socket [] = ok ([], heap, [])
reconnect_clients heap buffer socket (c ∷ cs) =
    if text_eq c.id buffer
    then (do
      (c', heap', out) ← reconnect_an_old_client atoi heap c socket
      ok (c' ∷ cs, heap', out))
    else (do (cs', heap', out) ← reconnect_clients heap buffer socket cs; ok (c ∷ cs', heap', out))

-- `FD_SET` of an accepted socket, and `fdmax` raised to it.
unfoldable pub watch_fd : Server → ℕ → Server
unfolding fd_put
watch_fd s i = record s {
  read_fds = fd_put s.read_fds i true;
  fdmax = if ltb s.fdmax i then i else s.fdmax;
}

-- The answer to a client that names itself on a new socket.
unfoldable pub on_ident : Text → ℕ → Server → Run Server
unfolding reconnect_clients
on_ident buffer newtcp_socket s = elim (get_client s.subscribers buffer) [
  | none ↦ (do
    subscribers ← add_new_client s.subscribers buffer newtcp_socket
    ok (record s { subscribers = subscribers }))
  | some client ↦
      if client.connected == 1
      then (let s' = drop_fd s newtcp_socket in
          ok (record s' { output = s'.output ++ close newtcp_socket ∷ [] }))
      else if client.connected == 0
      then (do
        (clients, heap, out) ← reconnect_clients s.heap buffer newtcp_socket s.subscribers.clients
        ok (record s {
          subscribers = record s.subscribers { clients = clients };
          heap = heap;
          output = s.output ++ out;
        }))
      else ok s
]

-- The listening socket is ready.
unfoldable pub on_accept : Env → Server → Run Server
unfolding watch_fd on_ident
on_accept env s = do
  newtcp_socket ← or_die env.accepted
  buffer ← or_die env.ident
  on_ident buffer newtcp_socket (watch_fd s newtcp_socket)

module _ (print_float : ℕ → ℕ → ℕ → Text) where
  -- The UDP socket is ready.
  unfoldable pub on_datagram : Env → Server → Run Server
  on_datagram env s = do
    d ← or_die env.datagram
    tcp_packet ← udp_to_tcp print_float d.packet d.ip d.port
    (subscribers, out) ← send_tcp atoi s.subscribers env.fresh tcp_packet
    ok (record s {
      subscribers = subscribers;
      heap = write s.heap env.fresh (some tcp_packet);
      output = s.output ++ out;
    })

-- The standard input is ready: only `exit` does something.
unfoldable pub on_stdin : Env → Server → Server
on_stdin env s = if text_eq env.line (codes "exit\n") then record s { stop = true } else s

-- A subscriber's socket is ready.
unfoldable pub on_subscriber : Env → ℕ → Server → Run Server
on_subscriber env i s = elim env.received [
  | failed ↦ died
  | hangup ↦
      (let (subscribers, out) = disconnect_subscriber s.subscribers i in
        let s' = record s { subscribers = subscribers; output = s.output ++ out } in
        ok (drop_fd s' i))
  | message action ↦
      if text_eq action.type (codes "unsubscribe")
      then ok (record s { subscribers = unsubscribe s.subscribers action.topic i })
      else (do
        subscribers ← subscribe_to_topic s.subscribers action i
        ok (record s { subscribers = subscribers }))
]

-- The sockets that `main` opens.
module _ (print_float : ℕ → ℕ → ℕ → Text) (tcp_socket udp_socket : ℕ) where
  -- `main` before the loop.
  unfoldable pub start : Server
  unfolding fd_put
  start = record {
    subscribers = create_subscribers;
    heap = λ p. none;
    read_fds = fd_put (fd_put (fd_put (λ j. false) tcp_socket true) udp_socket true) 0 true;
    fdmax = tcp_socket;
    stop = false;
    output = [];
  }

  -- The body of the loop for a descriptor that is ready.
  unfoldable pub handle : Env → ℕ → Server → Run Server
  unfolding on_accept on_datagram on_stdin on_subscriber
  handle env i s =
      if i == tcp_socket
      then on_accept env s
      else if i == udp_socket
      then on_datagram print_float env s
      else if i == 0
      then ok (on_stdin env s)
      else on_subscriber env i s

  -- `for (i = 0; i <= fdmax && stop == 0; i++)`, from `i` on, with as many rounds left.
  unfoldable pub scan : ℕ → (ℕ → Bool) → (ℕ → Env) → ℕ → Server → Run Server
  unfolding handle
  scan zero tmp_fds envs i s = ok s
  scan (suc left) tmp_fds envs i s =
      if leb i s.fdmax && not s.stop
      then ((if tmp_fds i then handle (envs i) i s else ok s) >>= scan left tmp_fds envs (i + 1))
      else ok s

  -- One round of the outer loop: `select` reports some of the watched descriptors up to `fdmax`,
  -- or fails. A descriptor is below FD_SETSIZE, which is 1024.
  unfoldable pub round : Option (ℕ → Bool) → (ℕ → Env) → Server → Run Server
  unfolding scan
  round none envs s = died
  round (some ready) envs s = scan 1024 (λ i. leb i s.fdmax && s.read_fds i && ready i) envs 0 s

  -- The outer loop over these rounds.
  unfoldable pub serve : List (Option (ℕ → Bool) × (ℕ → Env)) → Server → Run Server
  unfolding round
  serve [] s = ok s
  serve ((ready, envs) ∷ rounds) s = if s.stop then ok s else (round ready envs s >>= serve rounds)

-- `for (i = 2; i <= fdmax; i++) if (FD_ISSET(i, &read_fds)) close(i);`, with the rounds left.
unfoldable pub close_from : (ℕ → Bool) → ℕ → ℕ → List Output
close_from fds zero i = []
close_from fds (suc left) i =
    let rest = close_from fds left (i + 1) in if fds i then close i ∷ rest else rest

unfoldable pub close_sockets : Server → List Output
unfolding close_from
close_sockets s = close_from s.read_fds (s.fdmax + 1 - 2) 2
