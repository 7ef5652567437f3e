-- ===== src/Router/Forward.antt =====
-- The ARP table and the packet handlers of `router/helper.c`.
pub mod Header
pub mod Reply
use pc_communication_protoco.Prelude.{
  ℕ, ◌+◌, ◌-◌, ◌*◌, Bool, true, false, not, Option, none, some, List, [], ◌∷◌, ◌++◌, Text, ◌==◌,
  ◌&&◌, leb, if◌then◌else◌, length, Run, ok, fault, ◌>>=◌, deref,
}
use pc_communication_protoco.Checksum.{htons, ip_checksum}
use pc_communication_protoco.Router.Frame.{
  ethertype_ip, ethertype_arp, EtherHeader, ArpHeader, IpHeader, Packet, Sent, send_packet,
  packet_frame, ip_bytes, build_ethhdr, send_icmp, send_icmp_error, send_arp, parse_arp, parse_icmp,
}
use pc_communication_protoco.Router.Route.{RouteTableEntry, Table, get_best_route}
use pc_communication_protoco.Router.Queue.{
  Cells, Queue, queue_create, queue_empty, queue_enq, queue_deq,
}

pub record ArpEntry : Type 0 where
  pub ip : ℕ
  pub mac : Text

-- `size` is the length of the list. `capacity` is what `realloc` was given, a number of bytes.
pub record ArpTable : Type 0 where
  pub capacity : ℕ
  pub entries : List ArpEntry

unfoldable pub create_arp_table : ArpTable
create_arp_table = record { capacity = 0; entries = [] }

unfoldable pub find_arp : List ArpEntry → ℕ → Option ArpEntry
find_arp [] dest_ip = none
find_arp (e ∷ es) dest_ip = if e.ip == dest_ip then some e else find_arp es dest_ip

unfoldable pub get_arp_route : ArpTable → ℕ → Option ArpEntry
unfolding find_arp
get_arp_route atable dest_ip = find_arp atable.entries dest_ip

-- An entry is a pointer of eight bytes; one written past the bytes of the array is a `fault`.
unfoldable pub add_arp_entry : ArpTable → ArpEntry → Run ArpTable
add_arp_entry arp_table arp_entry =
    let size = length arp_table.entries in
    let capacity =
      if size == arp_table.capacity then arp_table.capacity * 2 else arp_table.capacity in
    if leb (8 * (size + 1)) capacity
    then ok (record { capacity = capacity; entries = arp_table.entries ++ arp_entry ∷ [] })
    else fault

abbrev pub build_arp_entry : ℕ → Text → ArpEntry
build_arp_entry ip mac = record { ip = ip; mac = mac }

-- What the loop keeps. A queued element is the address of a packet; `objects` has the packets
-- whose storage is live.
pub record Router : Type 0 where
  pub arp_table : ArpTable
  pub queue : Queue
  pub cells : Cells
  pub objects : ℕ → Option Packet
  pub sent : List Sent

-- The addresses that one round gets: of a cell from `malloc`, and of the local `aux` of `forward`.
-- `offset` is the address of the IP header in the received packet, modulo 4.
pub record Places : Type 0 where
  pub fresh_cell : ℕ
  pub aux : ℕ
  pub offset : ℕ

unfoldable pub set_object : (ℕ → Option Packet) → ℕ → Option Packet → ℕ → Option Packet
set_object objects p o a = if a == p then o else objects a

abbrev pub log_sent : Router → Sent → Router
log_sent s x = record s { sent = s.sent ++ x ∷ [] }

unfoldable pub received_arp_request : ArpHeader → Text → ℕ → Packet → Sent
received_arp_request arp_hdr router_mac router_ip_address m =
    let eth_hdr = record m.eth { ether_dhost = m.eth.ether_shost; ether_shost = router_mac } in
    send_arp arp_hdr.spa router_ip_address eth_hdr m.interface (htons 2)

-- The packet that waits goes to the hardware address of the reply.
unfoldable pub release : Packet → ArpHeader → Sent
release front arp_hdr = send_packet front.interface (
    packet_frame (record front { eth = build_ethhdr arp_hdr.tha arp_hdr.sha (htons ethertype_ip) }))

unfoldable pub learn : ArpTable → ArpHeader → Run ArpTable
unfolding get_arp_route add_arp_entry
learn arp_table arp_hdr = elim (get_arp_route arp_table arp_hdr.spa) [
  | none ↦ add_arp_entry arp_table (build_arp_entry arp_hdr.spa arp_hdr.sha)
  | some e ↦ ok arp_table
]

unfoldable pub received_arp_reply : Router → ArpHeader → Run Router
unfolding learn release
received_arp_reply s arp_hdr = if queue_empty s.queue then ok s else (do
  arp_table ← learn s.arp_table arp_hdr
  (element, queue, cells) ← queue_deq s.queue s.cells
  front ← deref (s.objects element)
  ok (
      log_sent (record s { arp_table = arp_table; queue = queue; cells = cells })
        (release front arp_hdr)))

-- The header of the packet that is forwarded.
unfoldable pub update_header : ℕ → IpHeader → IpHeader
update_header offset ip_hdr =
    let cleared = record ip_hdr { ttl = ip_hdr.ttl - 1; check = 0 } in
    record cleared { check = ip_checksum offset (ip_bytes cleared) }

-- The header afterwards, the route if there is one, and what was sent.
unfoldable pub check_packet :
    ℕ → Packet → ℕ → Text → Table → Run (IpHeader × Option RouteTableEntry × List Sent)
unfolding update_header
check_packet offset m router_ip_address router_mac rtable =
    if leb m.ip.ttl 1
    then (do
      x ← send_icmp_error m.ip.saddr router_ip_address m.eth.ether_dhost router_mac 11 0 m.interface
      ok (m.ip, none, x ∷ []))
    else if not (ip_checksum offset (ip_bytes m.ip) == 0)
    then ok (m.ip, none, [])
    else (do
      let ip_hdr = update_header offset m.ip
      route ← get_best_route rtable ip_hdr.daddr
      elim route [
        | none ↦ (do
          x ←
              send_icmp_error ip_hdr.saddr router_ip_address m.eth.ether_dhost router_mac 3 0
                m.interface
          ok (ip_hdr, none, x ∷ []))
        | some r ↦ ok (ip_hdr, some r, [])
      ])

abbrev pub broadcast : Text
broadcast = 255 ∷ 255 ∷ 255 ∷ 255 ∷ 255 ∷ 255 ∷ []

-- What the program asks the interfaces and the system for.
pub record System : Type 0 where
  pub interface_mac : ℕ → Text
  pub interface_ip : ℕ → ℕ
  pub pid : ℕ

-- `forward` once its route is known to be there.
unfoldable pub forward_on : System → Places → RouteTableEntry → Packet → Router → Run Router
unfolding get_arp_route set_object
forward_on sys at route m s =
    let shost = sys.interface_mac route.interface in
    elim (get_arp_route s.arp_table route.next_hop) [
      | none ↦ (do
        let aux = record m { interface = route.interface }
        let objects = set_object s.objects at.aux (some aux)
        let eth_hdr = build_ethhdr shost broadcast (htons ethertype_arp)
        (queue, cells) ← queue_enq at.fresh_cell s.queue at.aux s.cells
        ok (
            log_sent
              (record s { queue = queue; cells = cells; objects = set_object objects at.aux none })
              (send_arp route.next_hop (sys.interface_ip route.interface) eth_hdr route.interface
                (htons 1))))
      | some destination ↦
          (let eth_hdr = record m.eth { ether_shost = shost; ether_dhost = destination.mac } in
            ok (
              log_sent s (send_packet route.interface (packet_frame (record m { eth = eth_hdr })))))
    ]

-- `route->interface` is read first: without a route that is a read through NULL.
unfoldable pub forward : System → Places → Option RouteTableEntry → Packet → Router → Run Router
unfolding forward_on
forward sys at route m s = do r ← deref route; forward_on sys at r m s
