-- ===== src/Broker/Server/Invariant.antt =====
-- Every handler of the server keeps the invariant of its subscribers.
use mathlib.Core.Path.{subst}
use pc_communication_protoco.Prelude.{
  ltb, length, ℕ, ◌≡◌, refl, inl, inr, List, [], ◌∷◌, arith, Text, text_eq, ◌==◌, Bool-cases,
  Option-cases, length, All, Ends, Ends->>=, codes, atoi,
}
use pc_communication_protoco.Broker.Types.{Client, Heap, Output}
use pc_communication_protoco.Broker.Registry.{get_client}
use pc_communication_protoco.Broker.Delivery.{resend_topics, free_topics, reconnect_an_old_client}
use pc_communication_protoco.Broker.Convert.{udp_to_tcp}
use pc_communication_protoco.Broker.WellFormed.{
  ClientOk, WellFormed, Live, add_new_client-ok, add_new_client-long, add_new_client-WellFormed,
}
use pc_communication_protoco.Broker.Publish.{send_tcp-received, received-WellFormed}
use pc_communication_protoco.Broker.Preserve.{
  subscribe_to_topic-WellFormed, unsubscribe-WellFormed, disconnect_subscriber-WellFormed,
  reconnected-ClientOk,
}
use pc_communication_protoco.Broker.Server.{
  Received, Env, Server, drop_fd, watch_fd, on_ident, or_die, reconnect_clients, on_accept,
  on_datagram, on_stdin, on_subscriber, handle,
}
use pc_communication_protoco.Broker.Server.Received.{failed, hangup, message}

abbrev Good : Server → Type 0
Good s = WellFormed s.subscribers

reconnect-ClientOk :
    (heap : Heap) (c : Client) (fd : ℕ)
    → ClientOk c
    → Ends (λ r. ClientOk r.0) (reconnect_an_old_client atoi heap c fd)
unfolding reconnect_an_old_client
reconnect-ClientOk heap c fd okay =
    Ends->>= (λ r. ClientOk r.0) (resend_topics atoi fd heap c.topics) _
      λ out _.
        Ends->>= (λ r. ClientOk r.0) (free_topics heap c.topics) _
          λ heap' _. reconnected-ClientOk c fd okay

abbrev Kept : List Client → List Client × Heap × List Output → Type 0
Kept cs r = All ClientOk r.0 × (length r.0 ≡ length cs)

reconnect_clients-Kept :
    (heap : Heap) (buffer : Text) (fd : ℕ) (cs : List Client)
    → All ClientOk cs
    → Ends (Kept cs) (reconnect_clients heap buffer fd cs)
unfolding reconnect_clients
reconnect_clients-Kept heap buffer fd [] okay = (tt, refl)
reconnect_clients-Kept heap buffer fd (c ∷ cs) okay = elim (Bool-cases (text_eq c.id buffer)) [
  | inl same ↦
      rw (same, Ends)
        (Ends->>= (Kept (c ∷ cs)) (reconnect_an_old_client atoi heap c fd) _ λ r e. (
          (subst (Ends (λ r. ClientOk r.0)) e (reconnect-ClientOk heap c fd okay.0), okay.1),
          refl,
        ))
  | inr other ↦
      rw (other, Ends)
        (Ends->>= (Kept (c ∷ cs)) (reconnect_clients heap buffer fd cs) _ λ r e.
          let kept = subst (Ends (Kept cs)) e (reconnect_clients-Kept heap buffer fd cs okay.1) in
          ((okay.0, kept.0), omega (arith, kept.1)))
]

on_ident-Good : (buffer : Text) (fd : ℕ) (s : Server) → Good s → Ends Good (on_ident buffer fd s)
unfolding on_ident drop_fd
on_ident-Good buffer fd s wf = elim (Option-cases (get_client s.subscribers buffer)) [
  | inl new ↦ elim (Bool-cases (ltb (length buffer) 11)) [
    | inl short ↦
        rw (new, Ends, add_new_client-ok s.subscribers buffer fd wf (ground (arith, short)))
          (add_new_client-WellFormed s.subscribers buffer fd wf)
    | inr long ↦ rw (new, Ends, add_new_client-long s.subscribers buffer fd wf long) tt
  ]
  | inr (client, e) ↦ elim (Bool-cases (client.connected == 1)) [
    | inl on ↦ rw (e, on, Ends) wf
    | inr off ↦ elim (Bool-cases (client.connected == 0)) [
      | inr odd ↦ rw (e, off, odd, Ends) wf
      | inl old ↦
          rw (e, off, old, Ends)
            (Ends->>= Good (reconnect_clients s.heap buffer fd s.subscribers.clients) _ λ r back.
              let kept =
                subst (Ends (Kept s.subscribers.clients)) back
                  (reconnect_clients-Kept s.heap buffer fd s.subscribers.clients wf.clients_ok) in
              record {
                room = omega (arith, kept.1, wf.room);
                some_room = wf.some_room;
                clients_ok = kept.0;
              })
    ]
  ]
]

on_accept-Good : (env : Env) (s : Server) → Good s → Ends Good (on_accept env s)
unfolding on_accept watch_fd
on_accept-Good env s wf = Ends->>= Good (or_die env.accepted) _ λ fd _.
    Ends->>= Good (or_die env.ident) _ λ buffer _. on_ident-Good buffer fd (watch_fd s fd) wf

on_subscriber-Good :
    (env : Env) (i : ℕ) (s : Server)
    → Good s
    → Live i s.subscribers.clients
    → Ends Good (on_subscriber env i s)
unfolding on_subscriber drop_fd
on_subscriber-Good env i s wf live = by_message env.received refl
  where
    by_message : (r : Received) → env.received ≡ r → Ends Good (on_subscriber env i s)
    by_message failed e = rw e tt
    by_message hangup e = rw e (disconnect_subscriber-WellFormed s.subscribers i wf)
    by_message (message action) e = elim (Bool-cases (text_eq action.type (codes "unsubscribe"))) [
      | inl un ↦ rw (e, un) (unsubscribe-WellFormed s.subscribers action.topic i wf)
      | inr sub ↦
          (let (subscribers, done, wf') =
              subscribe_to_topic-WellFormed s.subscribers action i wf live in
            rw (e, sub, done) wf')
    ]

module _ (print_float : ℕ → ℕ → ℕ → Text) where
  on_datagram-Good : (env : Env) (s : Server) → Good s → Ends Good (on_datagram print_float env s)
  unfolding on_datagram
  on_datagram-Good env s wf = Ends->>= Good (or_die env.datagram) _ λ d _.
      Ends->>= Good (udp_to_tcp print_float d.packet d.ip d.port) _ λ pkt _.
        rw (send_tcp-received atoi env.fresh pkt s.subscribers wf)
          (received-WellFormed env.fresh pkt s.subscribers wf)

  -- Every handler of the server's loop that ends well leaves the subscribers well-formed, if they
  -- were, and if every client that names the ready descriptor is connected.
  pub handle-WellFormed :
      (tcp_socket udp_socket : ℕ) (env : Env) (i : ℕ) (s : Server)
      → WellFormed s.subscribers
      → Live i s.subscribers.clients
      → Ends (λ s'. WellFormed s'.subscribers) (handle print_float tcp_socket udp_socket env i s)
  unfolding handle on_stdin
  handle-WellFormed tcp_socket udp_socket env i s wf live = elim (Bool-cases (i == tcp_socket)) [
    | inl t ↦ rw t (on_accept-Good env s wf)
    | inr nt ↦ elim (Bool-cases (i == udp_socket)) [
      | inl u ↦ rw (nt, u) (on_datagram-Good env s wf)
      | inr nu ↦ elim (Bool-cases (i == 0)) [
        | inl z ↦ elim (Bool-cases (text_eq env.line (codes "exit\n"))) [
          | inl bye ↦ rw (nt, nu, z, bye) wf
          | inr other ↦ rw (nt, nu, z, other) wf
        ]
        | inr nz ↦ rw (nt, nu, nz) (on_subscriber-Good env i s wf live)
      ]
    ]
  ]
