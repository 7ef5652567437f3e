-- ===== src/Router/Loop.antt =====
-- The body of the loop of `router/router.c` for one received packet.
pub mod Traffic
pub mod Unresolved
pub mod Echo
mod Examples
use pc_communication_protoco.Prelude.{
  ℕ, Bool, true, false, Option, none, some, ◌++◌, ◌==◌, ◌&&◌, if◌then◌else◌, Run, ok, ◌>>=◌,
}
use pc_communication_protoco.Checksum.{htons}
use pc_communication_protoco.Router.Frame.{
  ethertype_ip, ArpHeader, IcmpHeader, Packet, send_icmp, parse_arp, parse_icmp,
}
use pc_communication_protoco.Router.Route.{Table}
use pc_communication_protoco.Router.Forward.{
  Router, Places, System, log_sent, received_arp_request, received_arp_reply, check_packet, forward,
}

module _ (sys : System) (rtable : Table) (at : Places) where
  -- The part for packets that are neither for the router nor ARP traffic.
  unfoldable pub route_ip : Packet → Router → Run Router
  route_ip m s =
      let router_ip_address = sys.interface_ip m.interface in
      if htons m.eth.ether_type == ethertype_ip
      then (do
        (ip_hdr, route, out) ← check_packet at.offset m router_ip_address m.eth.ether_dhost rtable
        forward sys at route (record m { ip = ip_hdr }) (record s { sent = s.sent ++ out }))
      else ok s

  unfoldable pub after_arp : Packet → Router → Run Router
  unfolding route_ip
  after_arp m s =
      let router_ip_address = sys.interface_ip m.interface in
      elim (parse_icmp m) [
        | none ↦ route_ip m s
        | some icmp_hdr ↦
            if (icmp_hdr.type == 8) && (m.ip.daddr == router_ip_address)
            then (do
              x ←
                  send_icmp m.ip.saddr router_ip_address m.eth.ether_dhost m.eth.ether_shost 0 0
                    m.interface sys.pid sys.pid
              ok (log_sent s x))
            else route_ip m s
      ]

  unfoldable pub handle_packet : Packet → Router → Run Router
  unfolding after_arp
  handle_packet m s =
      let router_mac = sys.interface_mac m.interface in
      let router_ip_address = sys.interface_ip m.interface in
      elim (parse_arp m) [
        | none ↦ after_arp m s
        | some arp_hdr ↦
            if (htons arp_hdr.op == 1) && (arp_hdr.tpa == router_ip_address)
            then ok (log_sent s (received_arp_request arp_hdr router_mac router_ip_address m))
            else if htons arp_hdr.op == 2
            then received_arp_reply s arp_hdr
            else after_arp m s
      ]
