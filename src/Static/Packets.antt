-- ===== src/Static/Packets.antt =====
-- What the router does with a packet.
use pc_communication_protoco.Prelude.{
  ℕ, ◌+◌, ◌%◌, ◌<◌, ◌≡◌, refl, ◌∙◌, false, none, some, List, Text, ltb, ok, fault, ◌>>=◌, deref,
  arith,
}
use pc_communication_protoco.Checksum.{ip_checksum}
use pc_communication_protoco.Router.Frame.{IpHeader, Packet, send_packet, packet_frame, ip_bytes}
use pc_communication_protoco.Router.Route.{RouteTableEntry, Table}
use pc_communication_protoco.Router.Forward.{ArpEntry}
use pc_communication_protoco.Router.Forward.Header.{IsIpHeader, with_check-verifies}
use pc_communication_protoco.Static.{get_best_route, get_arp_entry, update_ttl, forward_packet}

update_ttl-verifies :
    (offset : ℕ) (h : IpHeader)
    → offset < 4
    → IsIpHeader h
    → ip_checksum offset (ip_bytes (update_ttl offset h)) ≡ 0
unfolding update_ttl
update_ttl-verifies offset h aligned fits =
    with_check-verifies offset (record h { ttl = (h.ttl + 255) % 256 }) aligned
      (omega (arith, fits))

update_ttl-ttl :
    (offset : ℕ) (h : IpHeader) → 0 < h.ttl → h.ttl < 256 → (update_ttl offset h).ttl + 1 ≡ h.ttl
unfolding update_ttl
update_ttl-ttl offset h high small = omega arith

update_ttl-daddr : (offset : ℕ) (h : IpHeader) → (update_ttl offset h).daddr ≡ h.daddr
unfolding update_ttl
update_ttl-daddr offset h = refl

update_ttl-saddr : (offset : ℕ) (h : IpHeader) → (update_ttl offset h).saddr ≡ h.saddr
unfolding update_ttl
update_ttl-saddr offset h = refl

module _ (mac : ℕ → Text) (rtable : Table) (arp_table : List ArpEntry) (offset : ℕ) (m : Packet)
    (route : RouteTableEntry) where
  forward_packet-routed :
      ip_checksum offset (ip_bytes m.ip) ≡ 0
      → 0 < m.ip.ttl
      → get_best_route rtable m.ip.daddr ≡ some route
      → forward_packet mac rtable arp_table offset m ≡ (do
        arp_entry ← deref (get_arp_entry arp_table m.ip.daddr)
        ok (
            some (
              send_packet route.interface (
                packet_frame (record m {
                  ip = update_ttl offset m.ip;
                  eth = record m.eth {
                    ether_shost = mac route.interface;
                    ether_dhost = arp_entry.mac;
                  };
                })))))
  unfolding forward_packet
  forward_packet-routed verifies high found =
      let alive : ltb m.ip.ttl 1 ≡ false = ground arith in rw (verifies, alive, found) refl

  -- A packet with a header checksum that verifies, a TTL above 0, a route, and an ARP entry of its
  -- destination address is sent on the route's interface, from that interface's hardware address to
  -- the entry's, with the TTL one lower, the same addresses and a checksum that verifies. The
  -- header's fields have their widths, and its address is taken modulo 4.
  pub forward_packet-sent :
      (hop : ArpEntry)
      → offset < 4
      → IsIpHeader m.ip
      → 0 < m.ip.ttl
      → ip_checksum offset (ip_bytes m.ip) ≡ 0
      → get_best_route rtable m.ip.daddr ≡ some route
      → get_arp_entry arp_table m.ip.daddr ≡ some hop
      → (ip_hdr : IpHeader) × (forward_packet mac rtable arp_table offset m
          ≡ ok (
              some (
                send_packet route.interface (
                  packet_frame (record m {
                    ip = ip_hdr;
                    eth = record m.eth { ether_shost = mac route.interface; ether_dhost = hop.mac };
                  })))))
        × (ip_hdr.ttl + 1 ≡ m.ip.ttl)
        × (ip_hdr.saddr ≡ m.ip.saddr)
        × (ip_hdr.daddr ≡ m.ip.daddr)
        × (ip_checksum offset (ip_bytes ip_hdr) ≡ 0)
  forward_packet-sent hop aligned fits high verifies found known = (
    update_ttl offset m.ip,
    forward_packet-routed verifies high found ∙ rw known refl,
    update_ttl-ttl offset m.ip high fits.5,
    update_ttl-saddr offset m.ip,
    update_ttl-daddr offset m.ip,
    update_ttl-verifies offset m.ip aligned fits,
  )

  -- Without an ARP entry of the destination the router reads through NULL.
  pub forward_packet-fault :
      0 < m.ip.ttl
      → ip_checksum offset (ip_bytes m.ip) ≡ 0
      → get_best_route rtable m.ip.daddr ≡ some route
      → get_arp_entry arp_table m.ip.daddr ≡ none
      → forward_packet mac rtable arp_table offset m ≡ fault
  forward_packet-fault high verifies found unknown =
      forward_packet-routed verifies high found ∙ rw unknown refl
