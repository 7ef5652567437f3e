-- ===== src/Router/Loop/Traffic.antt =====
-- What a round of the router's loop does with one packet.
use pc_communication_protoco.Prelude.{
  ◌+◌, ◌<◌, ◌≡◌, ◌≢◌, ◌∙◌, false, Option-cases, inl, inr, none, some, append-nil, arith, ◌==◌,
  ==_refl, ok, fault,
}
use pc_communication_protoco.Checksum.{htons, ip_checksum}
use pc_communication_protoco.Router.Frame.{
  ethertype_ip, ethertype_arp, IpHeader, Packet, send_packet, packet_frame, ip_bytes, parse_arp,
  parse_icmp,
}
use pc_communication_protoco.Router.Route.{RouteTableEntry, Table, get_best_route}
use pc_communication_protoco.Router.Forward.{
  ArpEntry, Router, Places, System, get_arp_route, log_sent, forward, forward_on,
  received_arp_request, received_arp_reply,
}
use pc_communication_protoco.Router.Forward.Header.{
  IsIpHeader, Dropped, check_packet-Dropped, check_packet-route,
}
use pc_communication_protoco.Router.Loop.{route_ip, after_arp, handle_packet}

module _ (sys : System) (rtable : Table) (at : Places) (m : Packet) (s : Router) where
  -- An IP packet that is not for the router itself.
  abbrev pub Transit : Type 0
  Transit = (htons m.eth.ether_type ≡ ethertype_ip) × (m.ip.daddr ≢ sys.interface_ip m.interface)

  pub parse_arp-ip : htons m.eth.ether_type ≡ ethertype_ip → parse_arp m ≡ none
  unfolding parse_arp
  parse_arp-ip ip = rw ip

  parse_arp-arp : htons m.eth.ether_type ≡ ethertype_arp → parse_arp m ≡ some m.arp
  unfolding parse_arp
  parse_arp-arp arp = rw arp

  parse_icmp-arp : htons m.eth.ether_type ≡ ethertype_arp → parse_icmp m ≡ none
  unfolding parse_icmp
  parse_icmp-arp arp = rw arp

  after_arp-Transit : Transit → after_arp sys rtable at m s ≡ route_ip sys rtable at m s
  unfolding after_arp
  after_arp-Transit (ip, other) =
      let elsewhere : (m.ip.daddr == sys.interface_ip m.interface) ≡ false = ground arith in
      elim (Option-cases (parse_icmp m)) [
        | inl no_icmp ↦ rw (no_icmp, after_arp)
        | inr (icmp_hdr, icmp) ↦ rw (icmp, after_arp, elsewhere) (ground arith)
      ]

  pub handle_packet-Transit : Transit → handle_packet sys rtable at m s ≡ route_ip sys rtable at m s
  unfolding handle_packet
  handle_packet-Transit transit =
      rw (parse_arp-ip transit.0, handle_packet) (after_arp-Transit transit)

  after_arp-arp : htons m.eth.ether_type ≡ ethertype_arp → after_arp sys rtable at m s ≡ ok s
  unfolding after_arp route_ip
  after_arp-arp arp = rw (parse_icmp-arp arp, after_arp, arp)

  -- Every packet in transit that `check_packet` drops, for a TTL of at most 1, for a wrong checksum
  -- or because `get_best_route` finds no route, makes the router read through a NULL route.
  pub handle_packet-Dropped :
      Transit
      → Dropped at.offset m (sys.interface_ip m.interface) m.eth.ether_dhost rtable
      → handle_packet sys rtable at m s ≡ fault
  handle_packet-Dropped transit dropped =
      let (ip_hdr, out, e) =
        check_packet-Dropped at.offset m (sys.interface_ip m.interface) m.eth.ether_dhost rtable
          dropped in
      handle_packet-Transit transit ∙ unfold route_ip forward in rw (transit.0, e)

  -- A packet in transit (an IP packet, not for the router's own address) with a TTL above 1, a
  -- header checksum that verifies, a route, and a next hop whose hardware address is in the ARP
  -- table is sent once, on the route's interface, from that interface's hardware address to the
  -- next hop's, with the TTL one lower, the same addresses and a checksum that verifies again;
  -- nothing else of the router changes. The header's fields have their widths, and its address is
  -- taken modulo 4.
  pub handle_packet-forwards :
      (route : RouteTableEntry) (hop : ArpEntry)
      → Transit
      → at.offset < 4
      → IsIpHeader m.ip
      → 1 < m.ip.ttl
      → ip_checksum at.offset (ip_bytes m.ip) ≡ 0
      → get_best_route rtable m.ip.daddr ≡ ok (some route)
      → get_arp_route s.arp_table route.next_hop ≡ some hop
      → (ip_hdr : IpHeader) × (handle_packet sys rtable at m s
          ≡ ok (
              log_sent s (
                send_packet route.interface (
                  packet_frame (record m {
                    ip = ip_hdr;
                    eth = record m.eth {
                      ether_shost = sys.interface_mac route.interface;
                      ether_dhost = hop.mac;
                    };
                  })))))
        × (ip_hdr.ttl + 1 ≡ m.ip.ttl)
        × (ip_hdr.saddr ≡ m.ip.saddr)
        × (ip_hdr.daddr ≡ m.ip.daddr)
        × (ip_checksum at.offset (ip_bytes ip_hdr) ≡ 0)
  handle_packet-forwards route hop transit aligned fits high right found known =
      let (ip_hdr, e, lower, from, to, verifies) =
        check_packet-route at.offset m (sys.interface_ip m.interface) m.eth.ether_dhost rtable route
          aligned fits high right found in
      (
        ip_hdr,
        handle_packet-Transit transit
            ∙ unfold route_ip forward in rw (transit.0, e, forward_on, known, append-nil s.sent),
        lower,
        from,
        to,
        verifies,
      )

  -- Of the ARP packets, a request for the router's address on that interface is answered by
  -- `received_arp_request`, a reply goes to `received_arp_reply`, and a request for another address
  -- or any other operation changes nothing.
  pub handle_packet-arp :
      htons m.eth.ether_type ≡ ethertype_arp
      → (htons m.arp.op ≡ 1
          → m.arp.tpa ≡ sys.interface_ip m.interface
          → handle_packet sys rtable at m s
            ≡ ok (
                log_sent s (
                  received_arp_request m.arp
                    (sys.interface_mac m.interface)
                    (sys.interface_ip m.interface)
                    m)))
        × (htons m.arp.op ≡ 1
            → m.arp.tpa ≢ sys.interface_ip m.interface
            → handle_packet sys rtable at m s ≡ ok s)
        × (htons m.arp.op ≡ 2 → handle_packet sys rtable at m s ≡ received_arp_reply s m.arp)
        × (htons m.arp.op ≢ 1 → htons m.arp.op ≢ 2 → handle_packet sys rtable at m s ≡ ok s)
  handle_packet-arp arp = (
    λ request for_router.
        unfold handle_packet in
        rw (
          parse_arp-arp arp,
          handle_packet,
          request,
          for_router,
          ==_refl (sys.interface_ip m.interface),
        ),
    λ request other.
        unfold handle_packet in
        let elsewhere : (m.arp.tpa == sys.interface_ip m.interface) ≡ false = ground arith in
        rw (parse_arp-arp arp, handle_packet, request, elsewhere) (after_arp-arp arp),
    λ reply. unfold handle_packet in rw (parse_arp-arp arp, handle_packet, reply),
    λ no_request no_reply.
        unfold handle_packet in
        let not_1 : (htons m.arp.op == 1) ≡ false = ground arith in
        let not_2 : (htons m.arp.op == 2) ≡ false = ground arith in
        rw (parse_arp-arp arp, handle_packet, not_1, not_2) (after_arp-arp arp),
  )
