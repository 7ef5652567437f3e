-- ===== src/Broker/Server/Loop.antt =====
-- The loops of the server over its descriptors, and what `select` does not look at.
use pc_communication_protoco.Prelude.{
  ℕ, zero, suc, ◌+◌, ◌≤◌, ◌<◌, ◌≡◌, refl, inl, inr, Bool, true, false, Option, none, some, List, [],
  ◌∷◌, arith, Text, leb, ◌==◌, ◌&&◌, not, if◌then◌else◌, Bool-cases, ==_iff, ok, Ends, Ends->>=,
}
use mathlib.Core.Path.{subst}
use pc_communication_protoco.Broker.Server.{Env, Server, fd_put, start, handle, scan, round, serve}
use pc_communication_protoco.Broker.Server.Watch.{Covers, handle-Covers}

module _ (print_float : ℕ → ℕ → ℕ → Text) (tcp_socket udp_socket : ℕ) where
  scan-Covers :
      (left : ℕ) (tmp_fds : ℕ → Bool) (envs : ℕ → Env) (i : ℕ) (s : Server)
      → Covers udp_socket s
      → Ends (Covers udp_socket) (scan print_float tcp_socket udp_socket left tmp_fds envs i s)
  unfolding scan
  scan-Covers zero tmp_fds envs i s covers = covers
  scan-Covers (suc left) tmp_fds envs i s covers = elim (Bool-cases (leb i s.fdmax && not s.stop)) [
    | inr over ↦ rw (over, Ends) covers
    | inl more ↦
        rw (more, Ends)
          (Ends->>= (Covers udp_socket) _
            (scan print_float tcp_socket udp_socket left tmp_fds envs (i + 1))
            λ s' e. scan-Covers left tmp_fds envs (i + 1) s' (step s' e))
  ]
    where
      step :
          (s' : Server)
          → (if tmp_fds i then handle print_float tcp_socket udp_socket (envs i) i s else ok s)
            ≡ ok s'
          → Covers udp_socket s'
      step s' e = elim (Bool-cases (tmp_fds i)) [
        | inl ready ↦
            subst (Ends (Covers udp_socket)) (rw ready at e)
              (handle-Covers print_float tcp_socket udp_socket (envs i) i s covers)
        | inr idle ↦
            subst (Ends (Covers udp_socket)) (rw idle at e)
              (let c : Ends (Covers udp_socket) (ok s) = covers in c)
      ]

  round-Covers :
      (ready : Option (ℕ → Bool)) (envs : ℕ → Env) (s : Server)
      → Covers udp_socket s
      → Ends (Covers udp_socket) (round print_float tcp_socket udp_socket ready envs s)
  unfolding round
  round-Covers none envs s covers = tt
  round-Covers (some ready) envs s covers =
      scan-Covers 1024 (λ i. leb i s.fdmax && s.read_fds i && ready i) envs 0 s covers

  serve-Covers :
      (rounds : List (Option (ℕ → Bool) × (ℕ → Env))) (s : Server)
      → Covers udp_socket s
      → Ends (Covers udp_socket) (serve print_float tcp_socket udp_socket rounds s)
  unfolding serve
  serve-Covers [] s covers = covers
  serve-Covers ((ready, envs) ∷ rounds) s covers = elim (Bool-cases s.stop) [
    | inl stopped ↦ simp stopped covers
    | inr running ↦ simp running (
        Ends->>= (Covers udp_socket) (round print_float tcp_socket udp_socket ready envs s)
          (serve print_float tcp_socket udp_socket rounds)
          λ s' e.
            serve-Covers rounds s'
              (subst (Ends (Covers udp_socket)) e (round-Covers ready envs s covers)))
  ]

  -- In every run of the server from its start that ends well, every watched descriptor is at most
  -- `fdmax`, up to which `select` looks, the UDP socket perhaps excepted.
  pub serve-start-Covers :
      (rounds : List (Option (ℕ → Bool) × (ℕ → Env)))
      → Ends
          (Covers udp_socket)
          (serve print_float tcp_socket udp_socket rounds (start print_float tcp_socket udp_socket))
  serve-start-Covers rounds = serve-Covers rounds (start print_float tcp_socket udp_socket) started
    where
      started : Covers udp_socket (start print_float tcp_socket udp_socket)
      started = unfold start fd_put in λ i on. ground arith

  -- A pass over descriptors of which none is ready changes nothing.
  scan-idle :
      (left : ℕ) (tmp_fds : ℕ → Bool) (envs : ℕ → Env) (i : ℕ) (s : Server)
      → ((j : ℕ) → j ≤ s.fdmax → tmp_fds j ≡ false)
      → scan print_float tcp_socket udp_socket left tmp_fds envs i s ≡ ok s
  unfolding scan
  scan-idle zero tmp_fds envs i s idle = refl
  scan-idle (suc left) tmp_fds envs i s idle = elim (Bool-cases (leb i s.fdmax && not s.stop)) [
    | inr over ↦ rw over
    | inl more ↦
        (let below : i ≤ s.fdmax = ground (arith, more) in
          rw (more, idle i below) (scan-idle left tmp_fds envs (i + 1) s idle))
  ]

  -- At its start the server watches the UDP socket, but `fdmax` is the TCP socket: if the UDP
  -- socket has the larger number, a round in which neither the TCP socket nor the standard input is
  -- ready changes nothing, whatever the UDP socket has.
  pub start-misses-udp :
      (ready : ℕ → Bool) (envs : ℕ → Env)
      → tcp_socket < udp_socket
      → ready tcp_socket ≡ false
      → ready 0 ≡ false
      → (let s = start print_float tcp_socket udp_socket in
          (s.read_fds udp_socket ≡ true)
          × (round print_float tcp_socket udp_socket (some ready) envs s ≡ ok s))
  unfolding start fd_put round
  start-misses-udp ready envs above no_tcp no_stdin = (
    ground arith,
    scan-idle 1024
        (λ i. leb i tcp_socket && (start print_float tcp_socket udp_socket).read_fds i && ready i)
        envs 0 (start print_float tcp_socket udp_socket) quiet,
  )
    where
      quiet :
          (j : ℕ)
          → j ≤ tcp_socket
          → (leb j tcp_socket && (start print_float tcp_socket udp_socket).read_fds j && ready j)
            ≡ false
      quiet j below = elim (Bool-cases (j == tcp_socket)) [
        | inl tcp ↦ rw ((==_iff j tcp_socket).0 tcp, no_tcp) (ground arith)
        | inr other ↦ elim (Bool-cases (j == 0)) [
          | inl stdin ↦ rw ((==_iff j 0).0 stdin, no_stdin) (ground arith)
          | inr unset ↦ ground arith
        ]
      ]
