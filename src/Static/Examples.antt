-- ===== src/Static/Examples.antt =====
-- The router with the fixed ARP table at small inputs.
use pc_communication_protoco.Prelude.{ℕ, ◌+◌, ◌≡◌, refl, some, [], ◌∷◌, Text, ok, arith}
use pc_communication_protoco.Checksum.{htons, ip_checksum}
use pc_communication_protoco.Router.Frame.{IpHeader, Packet, send_packet, packet_frame, ip_bytes}
use pc_communication_protoco.Router.Route.{RouteTableEntry, Table}
use pc_communication_protoco.Router.Forward.{ArpEntry}
use pc_communication_protoco.Router.Forward.Header.{IsIpHeader, with_check-verifies}
use pc_communication_protoco.Static.{ntohl, get_best_route, get_arp_entry, forward_packet}
use pc_communication_protoco.Static.Route.{get_best_route-last}
use pc_communication_protoco.Static.Packets.{forward_packet-sent}

abbrev entry : ℕ → ℕ → ℕ → RouteTableEntry
entry prefix mask interface = record {
  prefix = prefix;
  next_hop = 9;
  mask = mask;
  interface = interface;
}

-- 10.1.0.0/16, and 10.0.0.0/8 behind it.
abbrev rtable : Table
rtable = entry 266 65535 1 ∷ entry 10 255 2 ∷ []

found : get_best_route rtable 150995210 ≡ some (entry 10 255 2)
unfolding ntohl
found = get_best_route-last rtable 150995210 (omega arith) (omega arith)

-- For 10.1.0.9 the shorter prefix is taken.
get_best_route-last_example : get_best_route rtable 150995210 ≡ some (entry 10 255 2)
unfolding ntohl
get_best_route-last_example = get_best_route-last rtable 150995210 (omega arith) (omega arith)

abbrev mac : ℕ → Text
mac i = 2 ∷ 0 ∷ 0 ∷ 0 ∷ 0 ∷ i ∷ []

abbrev ip_header : ℕ → IpHeader
ip_header check = record {
  version_ihl = 69;
  tos = 0;
  tot_len = 5120;
  id = 1;
  frag_off = 0;
  ttl = 9;
  protocol = 17;
  check = check;
  saddr = 7;
  daddr = 150995210;
}

abbrev good : IpHeader
good = ip_header (ip_checksum 2 (ip_bytes (ip_header 0)))

good-verifies : ip_checksum 2 (ip_bytes good) ≡ 0
good-verifies = with_check-verifies 2 (ip_header 0) (omega arith) (omega arith)

abbrev packet : Packet
packet = record {
  len = 60;
  interface = 0;
  eth = record { ether_dhost = mac 0; ether_shost = mac 50; ether_type = 8 };
  arp = record {
    htype = 0;
    ptype = 0;
    hlen = 0;
    plen = 0;
    op = 0;
    sha = [];
    spa = 0;
    tha = [];
    tpa = 0;
  };
  ip = good;
  icmp = record { type = 0; code = 0; checksum = 0; id = 0; sequence = 0 };
}

abbrev hop : ArpEntry
hop = record { ip = 150995210; mac = mac 77 }

fits : IsIpHeader good
unfolding htons ip_checksum
fits = omega arith

forward_packet-sent_example :
    (ip_hdr : IpHeader) × (forward_packet mac rtable (hop ∷ []) 2 packet
      ≡ ok (
          some (
            send_packet 2 (
              packet_frame (record packet {
                ip = ip_hdr;
                eth = record packet.eth { ether_shost = mac 2; ether_dhost = mac 77 };
              })))))
    × (ip_hdr.ttl + 1 ≡ 9)
    × (ip_hdr.saddr ≡ 7)
    × (ip_hdr.daddr ≡ 150995210)
    × (ip_checksum 2 (ip_bytes ip_hdr) ≡ 0)
unfolding get_arp_entry
forward_packet-sent_example =
    forward_packet-sent mac rtable (hop ∷ []) 2 packet (entry 10 255 2) hop (omega arith) fits
      (omega arith) good-verifies found refl
