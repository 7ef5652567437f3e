-- ===== src/Router/Loop/Examples.antt =====
-- The router's loop at small inputs.
use pc_communication_protoco.Prelude.{
  ℕ, ◌+◌, ◌%◌, ◌≡◌, inl, refl, none, some, [], ◌∷◌, arith, Text, ◌==◌, if◌then◌else◌, ok, fault,
}
use pc_communication_protoco.Checksum.{htons, ip_checksum, icmp_checksum}
use pc_communication_protoco.Router.Queue.{cell, Cells, Queue, queue}
use pc_communication_protoco.Router.Queue.Fifo.{Holds}
use pc_communication_protoco.Router.Route.{RouteTableEntry, Table, get_best_route}
use pc_communication_protoco.Router.Frame.{
  ethertype_ip, ArpHeader, IpHeader, IcmpHeader, Packet, send_packet, icmp_frame, ip_bytes,
  icmp_words, build_ethhdr, Sent, send_arp, ethertype_arp,
}
use pc_communication_protoco.Router.Forward.{
  Router, Places, System, create_arp_table, log_sent, broadcast,
}
use pc_communication_protoco.Router.Forward.Header.{IsIpHeader, with_check-verifies}
use pc_communication_protoco.Router.Loop.{handle_packet}
use pc_communication_protoco.Router.Loop.Traffic.{handle_packet-Dropped}
use pc_communication_protoco.Router.Loop.Unresolved.{handle_packet-unresolved}
use pc_communication_protoco.Router.Loop.Echo.{handle_packet-echo}

abbrev cells : Cells
cells p = if p == 16 then some (cell 64 0) else none

abbrev one_queue : Queue
one_queue = queue 16 16

abbrev entry : ℕ → ℕ → ℕ → RouteTableEntry
entry prefix mask interface = record {
  prefix = prefix;
  next_hop = 9;
  mask = mask;
  interface = interface;
}

abbrev rtable : Table
rtable = entry 4 12 1 ∷ entry 8 12 2 ∷ []

abbrev mac : ℕ → Text
mac n = 0 ∷ 0 ∷ 0 ∷ 0 ∷ 0 ∷ n ∷ []

abbrev sys : System
sys = record { interface_mac = mac; interface_ip = λ i. 100 + i; pid = 70000 }

abbrev at : Places
at = record { fresh_cell = 32; aux = 80; offset = 2 }

abbrev ip_header : ℕ → ℕ → ℕ → ℕ → IpHeader
ip_header protocol ttl check daddr = record {
  version_ihl = 69;
  tos = 0;
  tot_len = htons 28;
  id = 0;
  frag_off = 0;
  ttl = ttl;
  protocol = protocol;
  check = check;
  saddr = 7;
  daddr = daddr;
}

abbrev arp_header : ℕ → ArpHeader
arp_header op = record {
  htype = 256;
  ptype = 8;
  hlen = 6;
  plen = 4;
  op = op;
  sha = mac 77;
  spa = 9;
  tha = mac 1;
  tpa = 101;
}

abbrev packet : ℕ → IpHeader → Packet
packet type ip = record {
  len = 98;
  interface = 1;
  eth = record { ether_dhost = mac 1; ether_shost = mac 50; ether_type = type };
  arp = arp_header 256;
  ip = ip;
  icmp = record { type = 8; code = 0; checksum = 0; id = 3; sequence = 4 };
}

abbrev router : Router
router = record {
  arp_table = record { capacity = 80; entries = record { ip = 9; mac = mac 77 } ∷ [] };
  queue = one_queue;
  cells = cells;
  objects = λ p. if p == 64 then some (packet 8 (ip_header 17 9 0 9)) else none;
  sent = [];
}

-- A header whose checksum verifies.
abbrev good : ℕ → ℕ → ℕ → IpHeader
good protocol ttl daddr =
    ip_header protocol ttl (ip_checksum 2 (ip_bytes (ip_header protocol ttl 0 daddr))) daddr

good-verifies : ip_checksum 2 (ip_bytes (good 17 9 9)) ≡ 0
unfolding htons
good-verifies = with_check-verifies 2 (ip_header 17 9 0 9) (omega arith) (omega arith)

abbrev udp : Packet
udp = packet 8 (good 17 9 9)

type_ip : htons 8 ≡ ethertype_ip
unfolding htons
type_ip = refl

abbrev last_hop : Packet
last_hop = packet 8 (ip_header 17 1 0 9)

handle_packet-Dropped_example : handle_packet sys rtable at last_hop router ≡ fault
handle_packet-Dropped_example =
    handle_packet-Dropped sys rtable at last_hop router (type_ip, λ e. omega arith)
      (inl (omega arith))

route_9 : get_best_route rtable 9 ≡ ok (some (entry 8 12 2))
unfolding get_best_route
route_9 = refl

fits : IsIpHeader (good 17 9 9)
unfolding htons ip_checksum
fits = omega arith

type_arp : htons 1544 ≡ 0x0806
unfolding htons
type_arp = refl

abbrev ask : Packet
ask = packet 1544 (ip_header 17 9 0 9)

abbrev ping : Packet
ping = packet 8 (ip_header 1 9 0 101)

handle_packet-echo_example :
    (ip_hdr : IpHeader) × (icmp_hdr : IcmpHeader) × (handle_packet sys rtable at ping router
      ≡ ok (
          log_sent router (
            send_packet 1
              (icmp_frame (build_ethhdr (mac 1) (mac 50) (htons ethertype_ip)) ip_hdr icmp_hdr))))
    × (ip_hdr.saddr ≡ 101)
    × (ip_hdr.daddr ≡ 7)
    × (ip_checksum 0 (ip_bytes ip_hdr) ≡ 0)
    × (icmp_hdr.type ≡ 0)
    × (icmp_checksum (icmp_words icmp_hdr) 8 ≡ ok 0)
    × (icmp_hdr.id ≡ 70000 % 65536)
    × (icmp_hdr.sequence ≡ 70000 % 65536)
handle_packet-echo_example =
    handle_packet-echo sys rtable at ping router type_ip refl refl refl (omega arith) (omega arith)

-- The router as `main` starts it, and two rounds' packets.
abbrev empty_router : Router
empty_router = record {
  arp_table = create_arp_table;
  queue = queue 0 0;
  cells = λ p. none;
  objects = λ p. none;
  sent = [];
}

abbrev hop_9 : RouteTableEntry
hop_9 = entry 8 12 2

abbrev request_9 : Sent
request_9 = send_arp 9 102 (build_ethhdr (mac 2) broadcast (htons ethertype_arp)) 2 (htons 1)

abbrev arp_reply : Packet
arp_reply = record ask { arp = record ask.arp { op = 512 } }

op_reply : htons 512 ≡ 2
unfolding htons
op_reply = refl

handle_packet-unresolved_example :
    (s' : Router) × (handle_packet sys rtable at udp empty_router ≡ ok s')
    × (s'.sent ≡ request_9 ∷ [])
    × Holds s'.cells s'.queue ((32, 80) ∷ [])
    × (s'.arp_table ≡ create_arp_table)
    × (handle_packet sys rtable at arp_reply s' ≡ fault)
handle_packet-unresolved_example =
    handle_packet-unresolved sys rtable at udp empty_router [] hop_9 at arp_reply
      (type_ip, λ e. omega arith) (omega arith) fits (omega arith) good-verifies route_9 refl refl
      (λ e. omega arith) refl type_arp op_reply
