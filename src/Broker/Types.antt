-- ===== src/Broker/Types.antt =====
-- The structs of `tcp & udp communication/helper.h`. An array with its element count is the list
-- of its elements, so the count is `length`; the capacity is a field of its own. A `TCP_Packet *`
-- is an address, and the heap says which packets are live.
use pc_communication_protoco.Prelude.{ℕ, Option, List, Text, ◌==◌, if◌then◌else◌}

pub record TcpPacket : Type 0 where
  pub size : Text
  pub ip : Text
  pub port : ℕ
  pub type : Text
  pub topic : Text
  pub payload : Text

-- What `tcps` points to: nothing yet, an array, or one that was freed.
pub data Storage : Type 0 where
  unset allocated released : Storage

pub record TopicPacket : Type 0 where
  pub sf : ℕ
  pub topic : Text
  pub tcps : List ℕ
  pub tcp_capacity : ℕ
  pub storage : Storage

pub record Client : Type 0 where
  pub id : Text
  pub connected : ℕ
  pub socket : ℕ
  pub topic_capacity : ℕ
  pub topics : List TopicPacket

pub record Subscribers : Type 0 where
  pub capacity : ℕ
  pub clients : List Client

pub record Action : Type 0 where
  pub type : Text
  pub topic : Text
  pub sf : ℕ

-- The bytes of a datagram: `topic` has 50 of them, `payload` up to 1501.
pub record UdpPacket : Type 0 where
  pub topic : Text
  pub type : ℕ
  pub payload : Text

-- The live packets by address.
abbrev pub Heap : Type 0
Heap = ℕ → Option TcpPacket

unfoldable pub write : Heap → ℕ → Option TcpPacket → Heap
write h p c a = if a == p then c else h a

-- What the server does to a socket, in order.
pub data Output : Type 0 where
  send_size : ℕ → Text → Output
  send_packet : ℕ → TcpPacket → ℕ → Output
  close : ℕ → Output
