-- ===== src/Router/Frame.antt =====
-- The headers, and the frames that `router/skel.c` builds and parses. A 16-bit or 32-bit field is
-- the number that the little-endian machine reads in it; `htons` gives its network order. A packet
-- has the headers that its payload shows when it is read as each of them.
use pc_communication_protoco.Prelude.{
  ℕ, ◌+◌, ◌*◌, ◌/◌, ◌%◌, Option, none, some, List, [], ◌∷◌, ◌++◌, Text, ◌==◌, if◌then◌else◌, Run,
  ok, ◌>>=◌,
}
use pc_communication_protoco.Checksum.{htons, ip_checksum, icmp_checksum}

abbrev pub ethertype_ip : ℕ
ethertype_ip = 0x0800

abbrev pub ethertype_arp : ℕ
ethertype_arp = 0x0806

pub record EtherHeader : Type 0 where
  pub ether_dhost : Text
  pub ether_shost : Text
  pub ether_type : ℕ

pub record ArpHeader : Type 0 where
  pub htype : ℕ
  pub ptype : ℕ
  pub hlen : ℕ
  pub plen : ℕ
  pub op : ℕ
  pub sha : Text
  pub spa : ℕ
  pub tha : Text
  pub tpa : ℕ

-- `version` and `ihl` share the first byte.
pub record IpHeader : Type 0 where
  pub version_ihl : ℕ
  pub tos : ℕ
  pub tot_len : ℕ
  pub id : ℕ
  pub frag_off : ℕ
  pub ttl : ℕ
  pub protocol : ℕ
  pub check : ℕ
  pub saddr : ℕ
  pub daddr : ℕ

pub record IcmpHeader : Type 0 where
  pub type : ℕ
  pub code : ℕ
  pub checksum : ℕ
  pub id : ℕ
  pub sequence : ℕ

pub record Packet : Type 0 where
  pub len : ℕ
  pub interface : ℕ
  pub eth : EtherHeader
  pub arp : ArpHeader
  pub ip : IpHeader
  pub icmp : IcmpHeader

pub data Frame : Type 0 where
  arp_frame : EtherHeader → ArpHeader → Frame
  icmp_frame : EtherHeader → IpHeader → IcmpHeader → Frame
  packet_frame : Packet → Frame

-- A call of `send_packet`: the interface and what is written to it.
pub record Sent : Type 0 where
  pub on : ℕ
  pub frame : Frame

abbrev pub send_packet : ℕ → Frame → Sent
send_packet interface frame = record { on = interface; frame = frame }

-- The bytes of a field in memory.
abbrev pub bytes16 : ℕ → Text
bytes16 v = (v % 256) ∷ (v / 256) ∷ []

abbrev pub bytes32 : ℕ → Text
bytes32 v = (v % 256) ∷ (v / 256 % 256) ∷ (v / 65536 % 256) ∷ (v / 16777216) ∷ []

abbrev pub ip_bytes : IpHeader → Text
ip_bytes h =
    h.version_ihl ∷ h.tos ∷ []
    ++ bytes16 h.tot_len
    ++ bytes16 h.id
    ++ bytes16 h.frag_off
    ++ (h.ttl ∷ h.protocol ∷ [])
    ++ bytes16 h.check
    ++ bytes32 h.saddr
    ++ bytes32 h.daddr

abbrev pub icmp_words : IcmpHeader → List ℕ
icmp_words h = (h.type + h.code * 256) ∷ h.checksum ∷ h.id ∷ h.sequence ∷ []

unfoldable pub build_ethhdr : Text → Text → ℕ → EtherHeader
build_ethhdr sha dha type = record { ether_dhost = dha; ether_shost = sha; ether_type = type }

-- The IP header of both ICMP senders, with its checksum. The header is a local variable, which is
-- aligned to four bytes.
unfoldable pub icmp_ip_header : ℕ → ℕ → IpHeader
icmp_ip_header daddr saddr =
    let ip_hdr : IpHeader = record {
      version_ihl = 69;
      tos = 0;
      tot_len = htons 28;
      id = htons 1;
      frag_off = 0;
      ttl = 64;
      protocol = 1;
      check = 0;
      saddr = saddr;
      daddr = daddr;
    } in
    record ip_hdr { check = ip_checksum 0 (ip_bytes ip_hdr) }

unfoldable pub send_icmp : ℕ → ℕ → Text → Text → ℕ → ℕ → ℕ → ℕ → ℕ → Run Sent
unfolding build_ethhdr icmp_ip_header
send_icmp daddr saddr sha dha type code interface id seq =
    let eth_hdr = build_ethhdr sha dha (htons ethertype_ip) in
    let icmp_hdr : IcmpHeader = record {
      type = type;
      code = code;
      checksum = 0;
      id = id % 65536;
      sequence = seq % 65536;
    } in
    do
      checksum ← icmp_checksum (icmp_words icmp_hdr) 8
      ok (
          send_packet interface (
            icmp_frame eth_hdr (icmp_ip_header daddr saddr)
              (record icmp_hdr { checksum = checksum })))

-- The fields that the initialiser leaves out are 0.
unfoldable pub send_icmp_error : ℕ → ℕ → Text → Text → ℕ → ℕ → ℕ → Run Sent
unfolding build_ethhdr icmp_ip_header
send_icmp_error daddr saddr sha dha type code interface =
    let eth_hdr = build_ethhdr sha dha (htons ethertype_ip) in
    let icmp_hdr : IcmpHeader = record {
      type = type;
      code = code;
      checksum = 0;
      id = 0;
      sequence = 0;
    } in
    do
      checksum ← icmp_checksum (icmp_words icmp_hdr) 8
      ok (
          send_packet interface (
            icmp_frame eth_hdr (icmp_ip_header daddr saddr)
              (record icmp_hdr { checksum = checksum })))

unfoldable pub send_arp : ℕ → ℕ → EtherHeader → ℕ → ℕ → Sent
send_arp daddr saddr eth_hdr interface arp_op = send_packet interface (
    arp_frame eth_hdr (record {
      htype = htons 1;
      ptype = htons 2048;
      hlen = 6;
      plen = 4;
      op = arp_op;
      sha = eth_hdr.ether_shost;
      spa = saddr;
      tha = eth_hdr.ether_dhost;
      tpa = daddr;
    }))

unfoldable pub parse_arp : Packet → Option ArpHeader
parse_arp m = if htons m.eth.ether_type == ethertype_arp then some m.arp else none

unfoldable pub parse_icmp : Packet → Option IcmpHeader
parse_icmp m =
    if htons m.eth.ether_type == ethertype_ip
    then (if m.ip.protocol == 1 then some m.icmp else none)
    else none
