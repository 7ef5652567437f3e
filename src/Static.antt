-- ===== src/Static.antt =====
-- The router of `labs/ARP_Forwarding-lab4/router.c`, with its fixed ARP table. Frames and headers are
-- those of the other router, and `ip_checksum` is a copy of its function.
pub mod Route
pub mod Packets
mod Examples
use pc_communication_protoco.Prelude.{
  ℕ, zero, suc, ◌+◌, ◌-◌, ◌*◌, ◌/◌, ◌%◌, Bool, true, false, not, Option, none, some, List, [], ◌∷◌,
  Text, ◌==◌, ◌&&◌, ltb, if◌then◌else◌, get_elem?, Run, ok, ◌>>=◌, deref,
}
use Prim.Native.Nat.{bit_and}
use pc_communication_protoco.Checksum.{ip_checksum}
use pc_communication_protoco.Router.Frame.{
  IpHeader, Packet, Sent, send_packet, packet_frame, ip_bytes,
}
use pc_communication_protoco.Router.Route.{RouteTableEntry, Table}
use pc_communication_protoco.Router.Forward.{ArpEntry}

-- `ntohl` on a little-endian machine.
unfoldable pub ntohl : ℕ → ℕ
ntohl v = v % 256 * 16777216 + v / 256 % 256 * 65536 + v / 65536 % 256 * 256 + v / 16777216 % 256

abbrev pub matches : ℕ → RouteTableEntry → Bool
matches dest_ip r = bit_and r.mask dest_ip == r.prefix

-- Whether entry `r` takes the place of `best_index`; `none` is -1. The index is not the mask of the
-- entry it names.
unfoldable pub better : Option ℕ → RouteTableEntry → Bool
unfolding ntohl
better none r = true
better (some best_index) r = ltb (ntohl best_index) (ntohl r.mask)

-- The loop from entry `i` on.
unfoldable pub scan_routes : ℕ → Table → ℕ → Option ℕ → Option ℕ
unfolding better
scan_routes dest_ip [] i best_index = best_index
scan_routes dest_ip (r ∷ rtable) i best_index =
    scan_routes dest_ip rtable (suc i)
      (if matches dest_ip r && better best_index r then some i else best_index)

-- `none` is NULL.
unfoldable pub get_best_route : Table → ℕ → Option RouteTableEntry
unfolding scan_routes
get_best_route rtable dest_ip = elim (scan_routes dest_ip rtable 0 none) [
  | none ↦ none
  | some best_index ↦ get_elem? rtable best_index
]

unfoldable pub get_arp_entry : List ArpEntry → ℕ → Option ArpEntry
get_arp_entry [] ip = none
get_arp_entry (e ∷ arp_table) ip = if e.ip == ip then some e else get_arp_entry arp_table ip

-- The TTL, lowered in its byte, and the new checksum.
unfoldable pub update_ttl : ℕ → IpHeader → IpHeader
update_ttl offset ip_hdr =
    let cleared = record ip_hdr { ttl = (ip_hdr.ttl + 255) % 256; check = 0 } in
    record cleared { check = ip_checksum offset (ip_bytes cleared) }

-- What the loop sends for a packet. `offset` is the address of the IP header, modulo 4; `mac` gives
-- the hardware addresses of the interfaces. To read `arp_entry->mac` without an entry is a `fault`.
unfoldable pub forward_packet : (ℕ → Text) → Table → List ArpEntry → ℕ → Packet → Run (Option Sent)
unfolding update_ttl get_arp_entry
forward_packet mac rtable arp_table offset m =
    if not (ip_checksum offset (ip_bytes m.ip) == 0)
    then ok none
    else if ltb m.ip.ttl 1
    then ok none
    else elim (get_best_route rtable m.ip.daddr) [
      | none ↦ ok none
      | some best_route ↦ (do
        let ip_hdr = update_ttl offset m.ip
        arp_entry ← deref (get_arp_entry arp_table ip_hdr.daddr)
        let eth_hdr = record m.eth {
          ether_shost = mac best_route.interface;
          ether_dhost = arp_entry.mac;
        }
        ok (
            some (
              send_packet best_route.interface
                (packet_frame (record m { ip = ip_hdr; eth = eth_hdr })))))
    ]
