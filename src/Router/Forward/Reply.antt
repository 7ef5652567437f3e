-- ===== src/Router/Forward/Reply.antt =====
-- What an ARP reply does.
use pc_communication_protoco.Prelude.{
  ℕ, ◌≡◌, ◌≢◌, refl, false, Option, none, some, [], ◌∷◌, ◌++◌, arith, ok, fault,
}
use pc_communication_protoco.Router.Frame.{ArpHeader, Packet, build_ethhdr, ethertype_arp, send_arp}
use pc_communication_protoco.Checksum.{htons}
use pc_communication_protoco.Router.Route.{RouteTableEntry}
use pc_communication_protoco.Router.Queue.{queue_empty}
use pc_communication_protoco.Router.Queue.Chain.{Items}
use pc_communication_protoco.Router.Queue.Fifo.{
  Holds, queue_enq-append, queue_deq-cons, Holds-waiting,
}
use pc_communication_protoco.Router.Forward.{
  ArpEntry, ArpTable, Router, Places, System, create_arp_table, find_arp, get_arp_route,
  add_arp_entry, set_object, log_sent, release, learn, received_arp_reply, forward_on, broadcast,
}

set_object-same : (objects : ℕ → Option Packet) (p : ℕ) → set_object objects p none p ≡ none
unfolding set_object
set_object-same objects p = ground arith

learn-known :
    (t : ArpTable) (arp_hdr : ArpHeader) (known : ArpEntry)
    → get_arp_route t arp_hdr.spa ≡ some known
    → learn t arp_hdr ≡ ok t
unfolding learn
learn-known t arp_hdr known found = rw (found, learn)

-- With the ARP table as `create_arp_table` makes it, a reply that meets a waiting packet writes
-- outside the table: its capacity 0, doubled, is 0.
pub received_arp_reply-first :
    (s : Router) (arp_hdr : ArpHeader)
    → s.arp_table ≡ create_arp_table
    → queue_empty s.queue ≡ false
    → received_arp_reply s arp_hdr ≡ fault
unfolding received_arp_reply learn get_arp_route find_arp add_arp_entry create_arp_table
received_arp_reply-first s arp_hdr empty waiting = rw (waiting, empty) refl

-- On an ARP reply whose sender the table knows, the live packet at the head of the queue leaves it
-- and is sent to the hardware address of the reply, whatever its next hop; the table stays as it
-- was.
pub received_arp_reply-release :
    (s : Router) (arp_hdr : ArpHeader) (known : ArpEntry) (cell_at element : ℕ) (rest : Items)
    (front : Packet)
    → Holds s.cells s.queue ((cell_at, element) ∷ rest)
    → s.objects element ≡ some front
    → get_arp_route s.arp_table arp_hdr.spa ≡ some known
    → (s' : Router) × (received_arp_reply s arp_hdr ≡ ok s')
      × Holds s'.cells s'.queue rest
      × (s'.sent ≡ s.sent ++ release front arp_hdr ∷ [])
      × (s'.arp_table ≡ s.arp_table)
unfolding received_arp_reply learn
received_arp_reply-release s arp_hdr known cell_at element rest front holds live found =
    let (q', h', e, after, freed) = queue_deq-cons s.cells s.queue cell_at element rest holds in
    let waiting : queue_empty s.queue ≡ false =
      Holds-waiting s.cells s.queue cell_at element rest holds in
    let learnt = learn-known s.arp_table arp_hdr known found in
    (
      log_sent (record s { queue = q'; cells = h' }) (release front arp_hdr),
      rw (waiting, learnt, e, live),
      after,
      refl,
      refl,
    )

pub forward_on-dangling :
    (sys : System) (at : Places) (route : RouteTableEntry) (m : Packet) (s : Router)
    (waiting : Items)
    → get_arp_route s.arp_table route.next_hop ≡ none
    → Holds s.cells s.queue waiting
    → at.fresh_cell ≢ 0
    → s.cells at.fresh_cell ≡ none
    → (s' : Router) × (forward_on sys at route m s ≡ ok s')
      × Holds s'.cells s'.queue (waiting ++ (at.fresh_cell, at.aux) ∷ [])
      × (s'.objects at.aux ≡ none)
      × (s'.arp_table ≡ s.arp_table)
      × (s'.sent
          ≡ s.sent
            ++ send_arp route.next_hop
                (sys.interface_ip route.interface)
                (build_ethhdr (sys.interface_mac route.interface) broadcast (htons ethertype_arp))
                route.interface
                (htons 1)
              ∷ [])
unfolding forward_on
forward_on-dangling sys at route m s waiting unknown holds real fresh =
    let (q', h', e, after) =
      queue_enq-append s.cells s.queue at.fresh_cell at.aux waiting holds real fresh in
    let aux = record m { interface = route.interface } in
    let eth_hdr =
      build_ethhdr (sys.interface_mac route.interface) broadcast (htons ethertype_arp) in
    let objects = set_object (set_object s.objects at.aux (some aux)) at.aux none in
    (
      log_sent (record s { queue = q'; cells = h'; objects = objects })
          (send_arp route.next_hop (sys.interface_ip route.interface) eth_hdr route.interface
            (htons 1)),
      rw (unknown, forward_on, e),
      after,
      set_object-same (set_object s.objects at.aux (some aux)) at.aux,
      refl,
      refl,
    )
