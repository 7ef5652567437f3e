-- ===== src/Router/Forward/Header.antt =====
-- The header that `check_packet` lets through.
use pc_communication_protoco.Prelude.{
  ℕ, ◌+◌, ◌-◌, ◌≤◌, ◌<◌, ◌≡◌, refl, ap, ◌∙◌, Text, true, false, Bool-cases, inl, inr, ◌⊎◌, ◌≢◌,
  Option, none, some, List, [], ◌∷◌, arith, ◌==◌, leb, ok,
}
use pc_communication_protoco.Checksum.{htons, ip_checksum, icmp_checksum, icmp_loop}
use pc_communication_protoco.Checksum.Reference.{IsBytes, word_sum, ones}
use pc_communication_protoco.Checksum.Fold.{ip_checksum-reference}
use pc_communication_protoco.Router.Frame.{IpHeader, Packet, Sent, ip_bytes, send_icmp_error}
use pc_communication_protoco.Router.Route.{RouteTableEntry, Table, get_best_route}
use pc_communication_protoco.Router.Forward.{update_header, check_packet}

-- The fields have the widths of `struct iphdr`.
abbrev pub IsIpHeader : IpHeader → Type 0
IsIpHeader h =
    (h.version_ihl < 256)
    × (h.tos < 256)
    × (h.tot_len < 65536)
    × (h.id < 65536)
    × (h.frag_off < 65536)
    × (h.ttl < 256)
    × (h.protocol < 256)
    × (h.check < 65536)
    × (h.saddr < 4294967296)
    × (h.daddr < 4294967296)

ip_bytes-IsBytes : (h : IpHeader) → IsIpHeader h → IsBytes (ip_bytes h)
ip_bytes-IsBytes h fits = omega (arith, fits)

ip_checksum-header :
    (offset : ℕ) (h : IpHeader)
    → offset < 4
    → IsIpHeader h
    → ip_checksum offset (ip_bytes h) ≡ htons (65535 - ones (word_sum (ip_bytes h)))
ip_checksum-header offset h aligned fits =
    ip_checksum-reference offset (ip_bytes h) aligned (ip_bytes-IsBytes h fits) (omega arith)

htons-lt : (v : ℕ) → htons v < 65536
unfolding htons
htons-lt v = omega arith

abbrev pub with_check : IpHeader → ℕ → IpHeader
with_check h check = record h { check = check }

-- The bytes of the complement, added to the words, give a sum of zero.
checks_out :
    (h : IpHeader)
    → htons (
        65535
        - ones (
            word_sum (
              ip_bytes
                (with_check h (htons (65535 - ones (word_sum (ip_bytes (with_check h 0)))))))))
      ≡ 0
unfolding htons
checks_out h = omega arith

checked_fits :
    (h : IpHeader)
    → IsIpHeader (with_check h 0)
    → IsIpHeader (with_check h (htons (65535 - ones (word_sum (ip_bytes (with_check h 0))))))
checked_fits h fits =
    let (v, t, l, i, f, b, p, c, s, d) = fits in (v, t, l, i, f, b, p, htons-lt _, s, d)

-- A header that got the checksum of itself with the field cleared verifies.
pub with_check-verifies :
    (offset : ℕ) (h : IpHeader)
    → offset < 4
    → IsIpHeader (with_check h 0)
    → ip_checksum offset (ip_bytes (with_check h (ip_checksum offset (ip_bytes (with_check h 0)))))
      ≡ 0
with_check-verifies offset h aligned fits =
    ap (λ (c : ℕ). ip_checksum offset (ip_bytes (with_check h c)))
      (ip_checksum-header offset (with_check h 0) aligned fits)
    ∙ ip_checksum-header offset _ aligned (checked_fits h fits)
    ∙ checks_out h

update_header-verifies :
    (offset : ℕ) (h : IpHeader)
    → offset < 4
    → IsIpHeader h
    → ip_checksum offset (ip_bytes (update_header offset h)) ≡ 0
unfolding update_header
update_header-verifies offset h aligned fits =
    with_check-verifies offset (record h { ttl = h.ttl - 1 }) aligned (omega (arith, fits))

update_header-ttl :
    (offset : ℕ) (h : IpHeader) → 1 < h.ttl → (update_header offset h).ttl + 1 ≡ h.ttl
unfolding update_header
update_header-ttl offset h high = omega arith

update_header-saddr : (offset : ℕ) (h : IpHeader) → (update_header offset h).saddr ≡ h.saddr
unfolding update_header
update_header-saddr offset h = refl

update_header-daddr : (offset : ℕ) (h : IpHeader) → (update_header offset h).daddr ≡ h.daddr
unfolding update_header
update_header-daddr offset h = refl

-- The errors that the router sends always come out.
send_icmp_error-ok :
    (daddr saddr : ℕ) (sha dha : Text) (type interface : ℕ)
    → (x : Sent) × (send_icmp_error daddr saddr sha dha type 0 interface ≡ ok x)
unfolding send_icmp_error icmp_checksum icmp_loop
send_icmp_error-ok daddr saddr sha dha type interface = (_, refl)

module _ (offset : ℕ) (m : Packet) (router_ip_address : ℕ) (router_mac : Text)
    (rtable : Table) where
  -- What `check_packet` drops: a low TTL, a wrong checksum, an unreachable destination.
  abbrev pub Dropped : Type 0
  Dropped =
      (m.ip.ttl ≤ 1)
      ⊎ ((ip_checksum offset (ip_bytes m.ip) ≡ 0 → ⊥)
          ⊎ (get_best_route rtable m.ip.daddr ≡ ok none))

  check_packet-high :
      (route : Option RouteTableEntry)
      → 1 < m.ip.ttl
      → ip_checksum offset (ip_bytes m.ip) ≡ 0
      → get_best_route rtable m.ip.daddr ≡ ok route
      → (out : List Sent) × (check_packet offset m router_ip_address router_mac rtable
          ≡ ok (update_header offset m.ip, route, out))
        × (route ≢ none → out ≡ [])
  unfolding check_packet update_header
  check_packet-high none high right found =
      let alive : leb m.ip.ttl 1 ≡ false = ground arith in
      let (x, e) =
        send_icmp_error-ok m.ip.saddr router_ip_address m.eth.ether_dhost router_mac 3
          m.interface in
      (x ∷ [], rw (alive, right, found, e), λ some_route. absurd (some_route refl))
  check_packet-high (some r) high right found =
      let alive : leb m.ip.ttl 1 ≡ false = ground arith in ([], rw (alive, right, found), λ _. refl)

  -- A dropped packet has no route.
  pub check_packet-Dropped :
      Dropped
      → (ip_hdr : IpHeader) × (out : List Sent) × (check_packet offset m router_ip_address
            router_mac rtable
          ≡ ok (ip_hdr, none, out))
  check_packet-Dropped dropped = elim (Bool-cases (leb m.ip.ttl 1)) [
    | inl low ↦
        (let (x, e) =
            send_icmp_error-ok m.ip.saddr router_ip_address m.eth.ether_dhost router_mac 11
              m.interface in
          (m.ip, x ∷ [], unfold check_packet in rw (low, e)))
    | inr high ↦ elim (Bool-cases (ip_checksum offset (ip_bytes m.ip) == 0)) [
      | inr wrong ↦ (m.ip, [], unfold check_packet in rw (high, wrong))
      | inl right ↦
          (let (out, e, _) =
              check_packet-high none (ground arith) (ground arith) (unroutable high right) in
            (update_header offset m.ip, out, e))
    ]
  ]
    where
      unroutable :
          leb m.ip.ttl 1 ≡ false
          → (ip_checksum offset (ip_bytes m.ip) == 0) ≡ true
          → get_best_route rtable m.ip.daddr ≡ ok none
      unroutable high right = elim dropped [
        | inl low ↦ absurd (ground arith)
        | inr (inl wrong) ↦ absurd (wrong (ground arith))
        | inr (inr missing) ↦ missing
      ]

  -- A packet that has a TTL above 1, a checksum that verifies and a route goes on with that route,
  -- and nothing is sent; its header is left with the TTL one lower, the same addresses and a
  -- checksum that verifies again. `offset` is below 4 and the fields have the header's widths.
  pub check_packet-route :
      (route : RouteTableEntry)
      → offset < 4
      → IsIpHeader m.ip
      → 1 < m.ip.ttl
      → ip_checksum offset (ip_bytes m.ip) ≡ 0
      → get_best_route rtable m.ip.daddr ≡ ok (some route)
      → (ip_hdr : IpHeader) × (check_packet offset m router_ip_address router_mac rtable
          ≡ ok (ip_hdr, some route, []))
        × (ip_hdr.ttl + 1 ≡ m.ip.ttl)
        × (ip_hdr.saddr ≡ m.ip.saddr)
        × (ip_hdr.daddr ≡ m.ip.daddr)
        × (ip_checksum offset (ip_bytes ip_hdr) ≡ 0)
  check_packet-route route aligned fits high right found =
      let (out, e, quiet) = check_packet-high (some route) high right found in
      let none_sent : out ≡ [] = quiet (λ same. cc) in
      (
        update_header offset m.ip,
        e ∙ ap (λ (t : List Sent). ok (update_header offset m.ip, some route, t)) none_sent,
        update_header-ttl offset m.ip high,
        update_header-saddr offset m.ip,
        update_header-daddr offset m.ip,
        update_header-verifies offset m.ip aligned fits,
      )
