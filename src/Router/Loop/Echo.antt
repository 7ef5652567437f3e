-- ===== src/Router/Loop/Echo.antt =====
-- The answer to an ICMP echo request.
use pc_communication_protoco.Prelude.{
  ℕ, ◌<◌, ◌≡◌, refl, sym, ◌%◌, Text, some, [], ◌∷◌, arith, ==_refl, ok,
}
use pc_communication_protoco.Checksum.{htons, ip_checksum, icmp_checksum}
use pc_communication_protoco.Checksum.Icmp.{icmp_checksum-verifies}
use pc_communication_protoco.Router.Frame.{
  ethertype_ip, IpHeader, Packet, send_packet, ip_bytes, parse_icmp, IcmpHeader, icmp_words,
  icmp_frame, icmp_ip_header, build_ethhdr, send_icmp,
}
use pc_communication_protoco.Router.Route.{Table}
use pc_communication_protoco.Router.Forward.{Router, Places, System, log_sent}
use pc_communication_protoco.Router.Forward.Header.{with_check-verifies}
use pc_communication_protoco.Router.Loop.{after_arp, handle_packet}
use pc_communication_protoco.Router.Loop.Traffic.{parse_arp-ip}

-- The IP header of the ICMP messages verifies.
icmp_ip_header-verifies :
    (daddr saddr : ℕ)
    → daddr < 4294967296
    → saddr < 4294967296
    → ip_checksum 0 (ip_bytes (icmp_ip_header daddr saddr)) ≡ 0
unfolding icmp_ip_header htons
icmp_ip_header-verifies daddr saddr hd hs =
    with_check-verifies 0 (icmp_ip_header daddr saddr) (omega arith) (omega (arith, hd, hs))

send_icmp-ok :
    (daddr saddr : ℕ) (sha dha : Text) (interface id check : ℕ)
    → icmp_checksum (0 ∷ 0 ∷ (id % 65536) ∷ (id % 65536) ∷ []) 8 ≡ ok check
    → send_icmp daddr saddr sha dha 0 0 interface id id
      ≡ ok (
          send_packet interface (
            icmp_frame
              (build_ethhdr sha dha (htons ethertype_ip))
              (icmp_ip_header daddr saddr)
              (record {
                type = 0;
                code = 0;
                checksum = check;
                id = id % 65536;
                sequence = id % 65536;
              })))
unfolding send_icmp
send_icmp-ok daddr saddr sha dha interface id check e = rw e

module _ (sys : System) (rtable : Table) (at : Places) (m : Packet) (s : Router) where
  -- An ICMP echo request for the router's own address is answered on the same interface, from the
  -- address it was for to its sender, with both checksums right; the identifier and the sequence
  -- number of the answer are the process id modulo 65536, whatever the request has. The addresses
  -- are below 2 ^ 32.
  pub handle_packet-echo :
      htons m.eth.ether_type ≡ ethertype_ip
      → m.ip.protocol ≡ 1
      → m.icmp.type ≡ 8
      → m.ip.daddr ≡ sys.interface_ip m.interface
      → m.ip.daddr < 4294967296
      → m.ip.saddr < 4294967296
      → (ip_hdr : IpHeader) × (icmp_hdr : IcmpHeader) × (handle_packet sys rtable at m s
          ≡ ok (
              log_sent s (
                send_packet m.interface (
                  icmp_frame
                    (build_ethhdr m.eth.ether_dhost m.eth.ether_shost (htons ethertype_ip))
                    ip_hdr
                    icmp_hdr))))
        × (ip_hdr.saddr ≡ m.ip.daddr)
        × (ip_hdr.daddr ≡ m.ip.saddr)
        × (ip_checksum 0 (ip_bytes ip_hdr) ≡ 0)
        × (icmp_hdr.type ≡ 0)
        × (icmp_checksum (icmp_words icmp_hdr) 8 ≡ ok 0)
        × (icmp_hdr.id ≡ sys.pid % 65536)
        × (icmp_hdr.sequence ≡ sys.pid % 65536)
  handle_packet-echo ip icmp echo mine hd hs =
      let pid = sys.pid % 65536 in
      let (check, e, _, verifies) =
        icmp_checksum-verifies 0 pid pid (omega arith) (omega arith) (omega arith) in
      let ip_hdr = icmp_ip_header m.ip.saddr (sys.interface_ip m.interface) in
      let icmp_hdr : IcmpHeader = record {
        type = 0;
        code = 0;
        checksum = check;
        id = pid;
        sequence = pid;
      } in
      (
        ip_hdr,
        icmp_hdr,
        unfold handle_packet after_arp in
            rw (
              parse_arp-ip sys rtable at m s ip,
              handle_packet,
              parse_icmp-echo,
              after_arp,
              echo,
              mine,
              ==_refl (sys.interface_ip m.interface),
              send_icmp-ok m.ip.saddr (sys.interface_ip m.interface) m.eth.ether_dhost
                  m.eth.ether_shost m.interface sys.pid check e,
            ),
        unfold icmp_ip_header in sym mine,
        unfold icmp_ip_header in refl,
        icmp_ip_header-verifies m.ip.saddr (sys.interface_ip m.interface) hs
            (omega (arith, mine, hd)),
        refl,
        verifies,
        refl,
        refl,
      )
    where
      parse_icmp-echo : parse_icmp m ≡ some m.icmp
      parse_icmp-echo = unfold parse_icmp in rw (ip, icmp)
