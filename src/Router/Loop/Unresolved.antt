-- ===== src/Router/Loop/Unresolved.antt =====
-- What the router's loop does from the table of `create_arp_table` on, which is without any address.
use pc_communication_protoco.Prelude.{
  ℕ, append-nil, ◌<◌, ◌≡◌, ◌≢◌, ◌∙◌, false, none, some, [], ◌∷◌, ◌++◌, ok, fault,
}
use pc_communication_protoco.Checksum.{htons, ip_checksum}
use pc_communication_protoco.Router.Frame.{ethertype_arp, Packet, ip_bytes, build_ethhdr, send_arp}
use pc_communication_protoco.Router.Route.{RouteTableEntry, Table, get_best_route}
use pc_communication_protoco.Router.Queue.{Cells, Queue, queue_empty}
use pc_communication_protoco.Router.Queue.Chain.{Items}
use pc_communication_protoco.Router.Queue.Fifo.{Holds, Holds-waiting}
use pc_communication_protoco.Router.Forward.{
  ArpTable, Router, Places, System, create_arp_table, find_arp, get_arp_route, forward, broadcast,
}
use pc_communication_protoco.Router.Forward.Header.{IsIpHeader, check_packet-route}
use pc_communication_protoco.Router.Forward.Reply.{forward_on-dangling, received_arp_reply-first}
use pc_communication_protoco.Router.Loop.{route_ip, handle_packet}
use pc_communication_protoco.Router.Loop.Traffic.{Transit, handle_packet-Transit, handle_packet-arp}

created-unknown : (t : ArpTable) (ip : ℕ) → t ≡ create_arp_table → get_arp_route t ip ≡ none
unfolding get_arp_route find_arp create_arp_table
created-unknown t ip created = rw created

Holds-behind :
    (h : Cells) (q : Queue) (items : Items) (cell_at element : ℕ)
    → Holds h q (items ++ (cell_at, element) ∷ [])
    → queue_empty q ≡ false
Holds-behind h q [] cell_at element holds = Holds-waiting h q cell_at element [] holds
Holds-behind h q ((a, v) ∷ items) cell_at element holds =
    Holds-waiting h q a v (items ++ (cell_at, element) ∷ []) holds

-- A router whose ARP table is as `create_arp_table` makes it gets a packet in transit (an IP
-- packet, not for its own address) with a TTL above 1, a header checksum that verifies and a route.
-- It sends one ARP request for the route's next hop, on the route's interface and from its
-- addresses, and nothing else; the queue holds, behind what it held and in a fresh cell, the
-- address of the local `aux` of `forward`; the ARP table stays as it was, and the next ARP reply to
-- be handled is a write outside that table. The header's fields have their widths, and its address
-- is taken modulo 4.
pub handle_packet-unresolved :
    (sys : System) (rtable : Table) (at : Places) (m : Packet) (s : Router) (waiting : Items)
    (route : RouteTableEntry) (later : Places) (reply : Packet)
    → Transit sys rtable at m s
    → at.offset < 4
    → IsIpHeader m.ip
    → 1 < m.ip.ttl
    → ip_checksum at.offset (ip_bytes m.ip) ≡ 0
    → get_best_route rtable m.ip.daddr ≡ ok (some route)
    → s.arp_table ≡ create_arp_table
    → Holds s.cells s.queue waiting
    → at.fresh_cell ≢ 0
    → s.cells at.fresh_cell ≡ none
    → htons reply.eth.ether_type ≡ ethertype_arp
    → htons reply.arp.op ≡ 2
    → (s' : Router) × (handle_packet sys rtable at m s ≡ ok s')
      × (s'.sent
          ≡ s.sent
            ++ send_arp route.next_hop
                (sys.interface_ip route.interface)
                (build_ethhdr (sys.interface_mac route.interface) broadcast (htons ethertype_arp))
                route.interface
                (htons 1)
              ∷ [])
      × Holds s'.cells s'.queue (waiting ++ (at.fresh_cell, at.aux) ∷ [])
      × (s'.arp_table ≡ create_arp_table)
      × (handle_packet sys rtable later reply s' ≡ fault)
handle_packet-unresolved sys rtable at m s waiting route later reply transit aligned fits high right
      found created holds real fresh arp answer =
    let (ip_hdr, e, _, _, _, _) =
      check_packet-route at.offset m (sys.interface_ip m.interface) m.eth.ether_dhost rtable route
        aligned fits high right found in
    let (s', asked, after, dead, same, sent) =
      forward_on-dangling sys at route (record m { ip = ip_hdr }) s waiting
        (created-unknown s.arp_table route.next_hop created) holds real fresh in
    (
      s',
      handle_packet-Transit sys rtable at m s transit
          ∙ unfold route_ip forward in rw (transit.0, e, append-nil s.sent) asked,
      sent,
      after,
      same ∙ created,
      (handle_packet-arp sys rtable later reply s' arp).2 answer
          ∙ received_arp_reply-first s' reply.arp (same ∙ created)
              (Holds-behind s'.cells s'.queue waiting at.fresh_cell at.aux after),
    )
