-- ===== src/Broker/Server/Watch.antt =====
-- The descriptors that the server watches, and the `fdmax` up to which `select` looks.
use pc_communication_protoco.Prelude.{
  ℕ, zero, suc, ◌≤◌, ◌≡◌, refl, ◌⊎◌, inl, inr, Bool, true, false, arith, Text, text_eq, ◌==◌,
  Bool-cases, ==_iff, Option-cases, Ends, Ends->>=, codes, atoi,
}
use pc_communication_protoco.Broker.Registry.{get_client, add_new_client, subscribe_to_topic}
use pc_communication_protoco.Broker.Delivery.{send_tcp}
use pc_communication_protoco.Broker.Convert.{udp_to_tcp}
use pc_communication_protoco.Broker.Server.{
  Received, Env, Server, fd_put, last_set, drop_fd, watch_fd, on_ident, or_die, reconnect_clients,
  on_accept, on_datagram, on_stdin, on_subscriber, handle,
}
use pc_communication_protoco.Broker.Server.Received.{failed, hangup, message}

-- `select` sees every watched descriptor, the UDP socket perhaps excepted.
abbrev pub Covers : ℕ → Server → Type 0
Covers udp_socket s = (i : ℕ) → s.read_fds i ≡ true → (i ≤ s.fdmax) ⊎ (i ≡ udp_socket)

-- The search finds a bound of all the descriptors that the old bound covered, and no larger one.
last_set-bound :
    (fds : ℕ → Bool) (fdmax k i : ℕ)
    → k ≤ fdmax
    → (last_set fds fdmax k ≤ fdmax) × (fds i ≡ true → i ≤ k → i ≤ last_set fds fdmax k)
unfolding last_set
last_set-bound fds fdmax zero i h = (omega arith, λ on below. omega arith)
last_set-bound fds fdmax (suc k) i h =
    let (down, keep) = last_set-bound fds fdmax k i (omega arith) in
    (
      ground (arith, down),
      λ on below. elim (Bool-cases (i == suc k)) [
        | inl top ↦
            (let on' : fds (suc k) ≡ true = rw (← (==_iff i (suc k)).0 top) on in
              ground (arith, on'))
        | inr lower ↦
            (let under : i ≤ k = ground (arith, lower, below) in ground (arith, keep on under))
      ],
    )

module _ (udp_socket : ℕ) where
  drop_fd-Covers : (s : Server) (i : ℕ) → Covers udp_socket s → Covers udp_socket (drop_fd s i)
  unfolding drop_fd fd_put
  drop_fd-Covers s i covers j on =
      ground (
        arith,
        covers j,
        last_set-bound (fd_put s.read_fds i false) s.fdmax s.fdmax j (omega arith),
      )

  watch_fd-Covers : (s : Server) (i : ℕ) → Covers udp_socket s → Covers udp_socket (watch_fd s i)
  unfolding watch_fd fd_put
  watch_fd-Covers s i covers j on = ground (arith, covers j, ==_iff j i)

  on_ident-Covers :
      (buffer : Text) (fd : ℕ) (s : Server)
      → Covers udp_socket s
      → Ends (Covers udp_socket) (on_ident buffer fd s)
  unfolding on_ident
  on_ident-Covers buffer fd s covers = elim (Option-cases (get_client s.subscribers buffer)) [
    | inl new ↦
        rw (new, Ends)
          (Ends->>= (Covers udp_socket) (add_new_client s.subscribers buffer fd) _ λ _ _. covers)
    | inr (client, e) ↦ elim (Bool-cases (client.connected == 1)) [
      | inl on ↦ rw (e, on, Ends) (drop_fd-Covers s fd covers)
      | inr off ↦ elim (Bool-cases (client.connected == 0)) [
        | inl old ↦
            rw (e, off, old, Ends)
              (Ends->>= (Covers udp_socket)
                (reconnect_clients s.heap buffer fd s.subscribers.clients) _ λ _ _. covers)
        | inr odd ↦ rw (e, off, odd, Ends) covers
      ]
    ]
  ]

  on_accept-Covers :
      (env : Env) (s : Server) → Covers udp_socket s → Ends (Covers udp_socket) (on_accept env s)
  unfolding on_accept
  on_accept-Covers env s covers = Ends->>= (Covers udp_socket) (or_die env.accepted) _ λ fd _.
      Ends->>= (Covers udp_socket) (or_die env.ident) _
        λ buffer _. on_ident-Covers buffer fd (watch_fd s fd) (watch_fd-Covers s fd covers)

  on_subscriber-Covers :
      (env : Env) (i : ℕ) (s : Server)
      → Covers udp_socket s
      → Ends (Covers udp_socket) (on_subscriber env i s)
  unfolding on_subscriber
  on_subscriber-Covers env i s covers = by_message env.received refl
    where
      by_message :
          (r : Received) → env.received ≡ r → Ends (Covers udp_socket) (on_subscriber env i s)
      by_message failed e = rw e tt
      by_message hangup e = rw e (drop_fd-Covers _ i covers)
      by_message (message action) e =
          elim (Bool-cases (text_eq action.type (codes "unsubscribe"))) [
            | inl un ↦ rw (e, un) covers
            | inr sub ↦
                rw (e, sub)
                  (Ends->>= (Covers udp_socket) (subscribe_to_topic s.subscribers action i) _
                    λ _ _. covers)
          ]

module _ (print_float : ℕ → ℕ → ℕ → Text) (tcp_socket udp_socket : ℕ) where
  on_datagram-Covers :
      (env : Env) (s : Server)
      → Covers udp_socket s
      → Ends (Covers udp_socket) (on_datagram print_float env s)
  unfolding on_datagram
  on_datagram-Covers env s covers = Ends->>= (Covers udp_socket) (or_die env.datagram) _ λ d _.
      Ends->>= (Covers udp_socket) (udp_to_tcp print_float d.packet d.ip d.port) _ λ pkt _.
        Ends->>= (Covers udp_socket) (send_tcp atoi s.subscribers env.fresh pkt) _ λ _ _. covers

  pub handle-Covers :
      (env : Env) (i : ℕ) (s : Server)
      → Covers udp_socket s
      → Ends (Covers udp_socket) (handle print_float tcp_socket udp_socket env i s)
  unfolding handle on_stdin
  handle-Covers env i s covers = elim (Bool-cases (i == tcp_socket)) [
    | inl t ↦ rw t (on_accept-Covers udp_socket env s covers)
    | inr nt ↦ elim (Bool-cases (i == udp_socket)) [
      | inl u ↦ rw (nt, u) (on_datagram-Covers env s covers)
      | inr nu ↦ elim (Bool-cases (i == 0)) [
        | inl z ↦ rw (nt, nu, z) (λ j on. ground (arith, covers j))
        | inr nz ↦ rw (nt, nu, nz) (on_subscriber-Covers udp_socket env i s covers)
      ]
    ]
  ]
